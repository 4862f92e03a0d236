-- ===== src/Bridge/Session.antt =====
-- The session with the client: the order of what is sent, and the steps of an open session.
use openwrt_ezsp_spi.Prelude.{
  ℕ, zero, suc, ◌+◌, ◌%◌, ◌≡◌, refl, sym, subst, ap, Bool, true, false, ◌||◌, not, Option, none,
  is_some, List, [], ◌∷◌, length, get_or, arith, ltb, ◌==◌, Bool-cases, inl, inr,
}
use openwrt_ezsp_spi.Config.{Cfg, Pins, ash_ctrl_rstack, ash_max_frame}
use openwrt_ezsp_spi.Host.{Host, pure, write_all, gpio_get, NetAction, accepted, sent}
use openwrt_ezsp_spi.Host.Run.{Ensures, returns, Ensures->>=, Ensures-if, Ensures-after}
use openwrt_ezsp_spi.Host.Silent.{
  quiet, IsQuiet, Silent, Silent->>=, Silent-if, pure-Silent, gpio_get-Silent,
}
use openwrt_ezsp_spi.Ncp.{asserted}
use openwrt_ezsp_spi.Probe.Steps.{do_cmd-Holds}
use openwrt_ezsp_spi.Bridge.{
  Bridge, write_frame, ash_send, ash_send_ack, data_body, keep_frame, ash_send_data, resend, marked,
  retransmit_from,
}
use openwrt_ezsp_spi.Bridge.Relay.{
  wrapped, ezsp_relay, callback_frame, ezsp_relay_callback, is_empty, drain_from, may_drain,
  bridge_drain_callbacks, relay_tx_size,
}
use openwrt_ezsp_spi.Bridge.Valid.{
  IsValid, IsShort, keep_frame-IsValid, data_body-IsShort, cbseq-IsValid,
}

-- RSTACK by its control byte.
abbrev pub is_rstack : List ℕ → Bool
is_rstack [] = false
is_rstack (ctrl ∷ rest) = ctrl == ash_ctrl_rstack

-- Has the client that connected last been sent an RSTACK?
abbrev pub opened : List NetAction → Bool
opened [] = false
opened (accepted fd ∷ log) = false
opened (sent frame out ∷ log) = is_rstack frame || opened log

-- Every frame in the log is an RSTACK, or an RSTACK was sent to the same client before it.
abbrev pub IsOrdered : List NetAction → Type 0
IsOrdered [] = Unit
IsOrdered (accepted fd ∷ log) = IsOrdered log
IsOrdered (sent frame out ∷ log) = ((is_rstack frame || opened log) ≡ true) × IsOrdered log

-- A log to which the bridge may add any frame.
pub record IsOpenLog (cli : Option ℕ) (log : List NetAction) : Type 0 where
  pub ordered : IsOrdered log
  pub open_now : is_some cli ≡ true → opened log ≡ true

sent-IsOpenLog :
    {cli : Option ℕ} {log : List NetAction} (frame out : List ℕ)
    → is_some cli ≡ true
    → IsOpenLog cli log
    → IsOpenLog cli (sent frame out ∷ log)
sent-IsOpenLog {log = log} frame out con o = record {
  ordered = (either, o.ordered);
  open_now = λ _. either;
}
  where
    either : (is_rstack frame || opened log) ≡ true
    either = rw (o.open_now con) (ground arith)

pub write_frame-logs :
    (frame : List ℕ) (h : Host)
    → Ensures (λ _ h'. (out : List ℕ) × (h'.net ≡ sent frame out ∷ h.net)) (write_frame frame h)
unfolding write_frame write_all
write_frame-logs frame h = returns (_, refl)

pub ash_send-IsOpenLog :
    (b : Bridge) (frame : List ℕ) (h : Host)
    → IsOpenLog b.cli h.net
    → Ensures (λ _ h'. IsOpenLog b.cli h'.net) (ash_send b frame h)
unfolding ash_send
ash_send-IsOpenLog b frame h o = elim (Bool-cases (is_some b.cli)) [
  | inl con ↦
      Ensures-if (not (is_some b.cli) || ltb (ash_max_frame + 2) (length frame + 2)) _ _ h
        (returns o)
        (Ensures-after _ (write_frame-logs frame h)
          (λ _ h' w. subst (IsOpenLog b.cli) (sym w.1) (sent-IsOpenLog frame w.0 con o)))
  | inr gone ↦ rw (gone, ash_send) (returns o)
]

-- RSTACK opens the session, if there is a client.
pub rstack-IsOpenLog :
    (b : Bridge) (a r : ℕ) (h : Host)
    → IsOrdered h.net
    → Ensures (λ _ h'. IsOpenLog b.cli h'.net) (ash_send b (ash_ctrl_rstack ∷ a ∷ r ∷ []) h)
unfolding ash_send
rstack-IsOpenLog b a r h o = elim (Bool-cases (is_some b.cli)) [
  | inl con ↦
      rw (con, ash_send)
        (Ensures-after _ (write_frame-logs (ash_ctrl_rstack ∷ a ∷ r ∷ []) h) (λ _ h' w.
          subst (IsOpenLog b.cli) (sym w.1) (record { ordered = (refl, o); open_now = λ _. refl })))
  | inr gone ↦
      rw (gone, ash_send)
        (returns (record { ordered = o; open_now = λ con. absurd (ground (arith, con, gone)) }))
]

-- An open session: the handshake was made with the client that is connected.
pub record IsOpen (b : Bridge) (h : Host) : Type 0 where
  pub valid : IsValid b
  pub is_ready : b.ready ≡ true
  pub log : IsOpenLog b.cli h.net

pub same_log : {b : Bridge} {h h' : Host} → IsOpen b h → IsQuiet h h' → IsOpen b h'
same_log {b} o e = record {
  valid = o.valid;
  is_ready = o.is_ready;
  log = subst (IsOpenLog b.cli) (sym (ap (λ m. m.net) e.same_memory)) o.log;
}

pub ash_send_ack-IsOpen :
    (b : Bridge) (h : Host) → IsOpen b h → Ensures (λ _ h'. IsOpen b h') (ash_send_ack b h)
unfolding ash_send_ack
ash_send_ack-IsOpen b h o =
    Ensures->>= (ash_send b ((0x80 + b.ack % 8) ∷ [])) _ h
      (ash_send-IsOpenLog b ((0x80 + b.ack % 8) ∷ []) h o.log)
      (λ _ h' l. returns (record { valid = o.valid; is_ready = o.is_ready; log = l }))

keep_frame-IsOpen :
    (b : Bridge) (body : List ℕ) (h h' : Host)
    → IsOpen b h
    → IsShort body
    → IsOpenLog (keep_frame b body).cli h'.net
    → IsOpen (keep_frame b body) h'
keep_frame-IsOpen b body h h' o s l = record {
  valid = keep_frame-IsValid b body o.valid s;
  is_ready = unfold keep_frame in o.is_ready;
  log = l;
}

pub ash_send_data-IsOpen :
    (b : Bridge) (ezsp : List ℕ) (h : Host)
    → IsOpen b h
    → Ensures (λ b' h'. IsOpen b' h') (ash_send_data b ezsp h)
unfolding ash_send_data
ash_send_data-IsOpen b ezsp h o = elim (Bool-cases (ltb ash_max_frame (length ezsp + 1))) [
  | inl long ↦ rw (long, ash_send_data) (returns o)
  | inr fits ↦
      rw (fits, ash_send_data)
        (Ensures->>= (ash_send (keep_frame b (data_body b ezsp)) (data_body b ezsp)) _ h
          (ash_send-IsOpenLog (keep_frame b (data_body b ezsp)) (data_body b ezsp) h
            (unfold keep_frame in o.log))
          (λ _ h' l. returns (
            keep_frame-IsOpen b (data_body b ezsp) h h' o (data_body-IsShort b ezsp (ground arith))
              l)))
]

-- Resent frames go out in an open session only.
resend-IsOpenLog :
    (b : Bridge) (body : List ℕ) (h : Host)
    → IsOpenLog b.cli h.net
    → Ensures (λ _ h'. IsOpenLog b.cli h'.net) (resend b body h)
unfolding resend
resend-IsOpenLog b [] h o = returns o
resend-IsOpenLog b (ctrl ∷ rest) h o =
    Ensures->>= (ash_send b (marked (ctrl ∷ rest))) _ h
      (ash_send-IsOpenLog b (marked (ctrl ∷ rest)) h o) (λ _ h' l. returns l)

pub retransmit_from-IsOpenLog :
    (fuel : ℕ) (b : Bridge) (n : ℕ) (h : Host)
    → IsOpenLog b.cli h.net
    → Ensures (λ _ h'. IsOpenLog b.cli h'.net) (retransmit_from fuel b n h)
unfolding retransmit_from
retransmit_from-IsOpenLog zero b n h o = returns o
retransmit_from-IsOpenLog (suc fuel) b n h o = Ensures-if (n == b.frm) _ _ h (returns o) (
    Ensures->>= (resend b (get_or b.unacked (n % 8) [])) (λ _. retransmit_from fuel b ((n + 1) % 8))
      h (resend-IsOpenLog b (get_or b.unacked (n % 8) []) h o)
      (λ _ h' l. retransmit_from-IsOpenLog fuel b ((n + 1) % 8) h' l))

pub ezsp_relay-Silent :
    (c : Cfg) (p : Pins) (frame : List ℕ) (outmax : ℕ) → Silent (ezsp_relay c p frame outmax)
unfolding ezsp_relay
ezsp_relay-Silent c p frame outmax =
    Silent-if (length frame == 0 || ltb 255 (length frame) || ltb relay_tx_size (length frame + 3))
      _ _ (pure-Silent none)
      (Silent->>= _ _ (do_cmd-Holds quiet c p (wrapped frame) 260 true) (λ r. pure-Silent _))

relay_callback-IsOpen :
    (c : Cfg) (p : Pins) (b : Bridge) (outmax : ℕ) (h : Host)
    → IsOpen b h
    → Ensures (λ r h'. IsOpen r.0 h') (ezsp_relay_callback c p b outmax h)
unfolding ezsp_relay_callback
relay_callback-IsOpen c p b outmax h o =
    Ensures->>= (ezsp_relay c p (callback_frame b.ver b.cbseq) outmax) _ h
      (ezsp_relay-Silent c p (callback_frame b.ver b.cbseq) outmax h)
      (λ out h' e. returns (
        let o' : IsOpen b h' = same_log o e in
        record {
          valid = cbseq-IsValid b (b.cbseq + 1) o'.valid;
          is_ready = o'.is_ready;
          log = o'.log;
        }))

drain_from-IsOpen :
    (n : ℕ) (c : Cfg) (p : Pins) (b : Bridge) (h : Host)
    → IsOpen b h
    → Ensures (λ b' h'. IsOpen b' h') (drain_from n c p b h)
unfolding drain_from
drain_from-IsOpen zero c p b h o = returns o
drain_from-IsOpen (suc n) c p b h o = Ensures->>= gpio_get _ h (gpio_get-Silent h) (λ l h₁ e.
    Ensures-if (not (asserted l)) _ _ h₁ (returns (same_log o e)) (
      Ensures->>= (ezsp_relay_callback c p b ash_max_frame) _ h₁
        (relay_callback-IsOpen c p b ash_max_frame h₁ (same_log o e))
        (λ r h₂ o₂. Ensures-if (is_empty r.1) _ _ h₂ (returns o₂) (
          Ensures->>= (ash_send_data r.0 r.1) (λ b''. drain_from n c p b'') h₂
            (ash_send_data-IsOpen r.0 r.1 h₂ o₂)
            (λ b'' h₃ o₃. drain_from-IsOpen n c p b'' h₃ o₃)))))

pub drain-IsOpen :
    (c : Cfg) (p : Pins) (b : Bridge) (h : Host)
    → IsOpen b h
    → Ensures (λ b' h'. IsOpen b' h') (bridge_drain_callbacks c p b h)
unfolding bridge_drain_callbacks
drain-IsOpen c p b h o =
    Ensures-if (may_drain p b) (drain_from 32 c p b) (pure b) h (drain_from-IsOpen 32 c p b h o)
      (returns o)
