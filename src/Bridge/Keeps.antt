-- ===== src/Bridge/Keeps.antt =====
-- The bridge's invariant, kept by the handling of one frame (package/ezsp-spi/src/bridge.c).
use openwrt_ezsp_spi.Prelude.{
  ℕ, zero, suc, ◌+◌, ◌%◌, ◌≡◌, refl, sym, subst, ap, ◌∙◌, true, false, ◌||◌, not, Option, none,
  some, List, [], ◌∷◌, length, get_or, arith, ltb, leb, ◌==◌, Bool-cases, inl, inr, bit_and,
  if◌then◌else◌,
}
use openwrt_ezsp_spi.Config.{Cfg, Pins, ash_max_frame, ash_ctrl_rst}
use openwrt_ezsp_spi.Host.{Host, M, pure, ◌>>=◌, ◌>>◌}
use openwrt_ezsp_spi.Host.Run.{
  Ensures, returns, Ensures->>=, Ensures-if, Ensures-then, Ensures-else, Ensures-after,
}
use openwrt_ezsp_spi.Host.Silent.{quiet, IsQuiet}
use openwrt_ezsp_spi.Ncp.{ncp_reset}
use openwrt_ezsp_spi.Ncp.Steps.{ncp_reset-Holds}
use openwrt_ezsp_spi.Ash.{mask}
use openwrt_ezsp_spi.Bridge.{
  Bridge, no_frames, ash_send, ash_send_ack, ash_send_data, resend, retransmit_from, ash_retransmit,
}
use openwrt_ezsp_spi.Bridge.Relay.{ezsp_relay}
use openwrt_ezsp_spi.Bridge.Handle.{
  rstack, cleared, bridge_reset, agreed, adopt, answer, next_ack, handle_data, handle_ctrl,
  bridge_handle_frame,
}
use openwrt_ezsp_spi.Bridge.Valid.{
  IsValid, adopt-IsValid, adopt-ready, adopt-cli, ack-IsValid, cleared-IsValid,
}
use openwrt_ezsp_spi.Bridge.Session.{
  IsOrdered, IsOpenLog, IsOpen, same_log, rstack-IsOpenLog, ash_send_ack-IsOpen,
  ash_send_data-IsOpen, retransmit_from-IsOpenLog, ezsp_relay-Silent, drain-IsOpen,
}

-- The invariant: before the handshake there is nothing to resend, and behind it the client that is
-- connected has been sent its RSTACK.
pub record IsSession (b : Bridge) (h : Host) : Type 0 where
  pub valid : IsValid b
  pub ordered : IsOrdered h.net
  pub open_log : b.ready ≡ true → IsOpenLog b.cli h.net
  pub nothing_kept : b.ready ≡ false → b.unacked ≡ no_frames

pub opened-IsSession : {b : Bridge} {h : Host} → IsOpen b h → IsSession b h
opened-IsSession o = record {
  valid = o.valid;
  ordered = o.log.ordered;
  open_log = λ _. o.log;
  nothing_kept = λ e. absurd (ground (arith, o.is_ready));
}

pub ready-IsOpen : {b : Bridge} {h : Host} → b.ready ≡ true → IsSession b h → IsOpen b h
ready-IsOpen r s = record { valid = s.valid; is_ready = r; log = s.open_log r }

abbrev pub Keeps : M Bridge → Bridge → Type 0
Keeps m b = (h : Host) → IsSession b h → Ensures (λ b' h'. IsSession b' h') (m h)

-- Before the handshake a NAK finds empty slots.
retransmit_from-unready :
    (fuel : ℕ) (b : Bridge) (n : ℕ) (h : Host)
    → b.unacked ≡ no_frames
    → Ensures (λ _ h'. h'.net ≡ h.net) (retransmit_from fuel b n h)
unfolding retransmit_from resend
retransmit_from-unready zero b n h e = returns refl
retransmit_from-unready (suc fuel) b n h e = Ensures-if (n == b.frm) _ _ h (returns refl) (
    subst
      (λ s.
        Ensures (λ _ h'. h'.net ≡ h.net) ((resend b s >> retransmit_from fuel b ((n + 1) % 8)) h))
      (sym empty_slot) (retransmit_from-unready fuel b ((n + 1) % 8) h e))
  where
    slot : (i : ℕ) → get_or no_frames i [] ≡ []
    slot zero = refl
    slot (suc zero) = refl
    slot (suc (suc zero)) = refl
    slot (suc (suc (suc zero))) = refl
    slot (suc (suc (suc (suc zero)))) = refl
    slot (suc (suc (suc (suc (suc zero))))) = refl
    slot (suc (suc (suc (suc (suc (suc zero)))))) = refl
    slot (suc (suc (suc (suc (suc (suc (suc zero))))))) = refl
    slot (suc (suc (suc (suc (suc (suc (suc (suc i)))))))) = refl

    empty_slot : get_or b.unacked (n % 8) [] ≡ []
    empty_slot = ap (λ t. get_or t (n % 8) []) e ∙ slot (n % 8)

same_net : {b : Bridge} {h h' : Host} → IsSession b h → h'.net ≡ h.net → IsSession b h'
same_net {b} s e = record {
  valid = s.valid;
  ordered = subst IsOrdered (sym e) s.ordered;
  open_log = λ r. subst (IsOpenLog b.cli) (sym e) (s.open_log r);
  nothing_kept = s.nothing_kept;
}

pub kept-IsSession : {b : Bridge} {h h' : Host} → IsSession b h → IsQuiet h h' → IsSession b h'
kept-IsSession s e = same_net s (ap (λ m. m.net) e.same_memory)

nak-Keeps : (b : Bridge) (from : ℕ) → Keeps (do ended ← ash_retransmit b from; pure b) b
unfolding ash_retransmit
nak-Keeps b from h s = elim (Bool-cases b.ready) [
  | inl r ↦
      Ensures->>= (retransmit_from 7 b from) _ h
        (retransmit_from-IsOpenLog 7 b from h (s.open_log r))
        (λ _ h' l. returns (opened-IsSession (record { valid = s.valid; is_ready = r; log = l })))
  | inr u ↦
      Ensures->>= (retransmit_from 7 b from) _ h
        (retransmit_from-unready 7 b from h (s.nothing_kept u)) (λ _ h' e. returns (same_net s e))
]

bridge_reset-Keeps : (p : Pins) (b : Bridge) → Keeps (bridge_reset p b) b
unfolding bridge_reset
bridge_reset-Keeps p b h s = Ensures->>= (ncp_reset p) _ h (ncp_reset-Holds quiet p h) (λ _ h₁ e.
    Ensures->>= (ash_send (cleared b) rstack) _ h₁
      (rstack-IsOpenLog (cleared b) _ _ h₁
        (subst IsOrdered (sym (ap (λ m. m.net) e.same_memory)) s.ordered))
      (λ _ h₂ l. returns (
        opened-IsSession (record { valid = cleared-IsValid b s.valid; is_ready = refl; log = l }))))

answer-Keeps :
    (c : Cfg) (p : Pins) (b : Bridge) (ezsp : List ℕ) (reply : Option (List ℕ)) (h : Host)
    → IsOpen b h
    → Ensures (λ b' h'. IsOpen b' h') (answer c p b ezsp reply h)
unfolding answer
answer-Keeps c p b ezsp none h o = returns o
answer-Keeps c p b ezsp (some []) h o = returns o
answer-Keeps c p b ezsp (some (r ∷ rs)) h o =
    Ensures->>= (ash_send_data b₁ (r ∷ rs)) _ h
      (ash_send_data-IsOpen b₁ (r ∷ rs) h (record {
        valid = adopt-IsValid b b.ver ezsp (r ∷ rs) o.valid o.is_ready;
        is_ready = adopt-ready b (agreed b.ver ezsp (r ∷ rs)) ∙ o.is_ready;
        log = subst (λ t. IsOpenLog t h.net) (sym (adopt-cli b (agreed b.ver ezsp (r ∷ rs)))) o.log;
      }))
      (λ b' h' o'. drain-IsOpen c p b' h' o')
  where
    b₁ : Bridge
    b₁ = adopt b (agreed b.ver ezsp (r ∷ rs))

handle_data-Keeps :
    (c : Cfg) (p : Pins) (b : Bridge) (ctrl : ℕ) (masked : List ℕ) (h : Host)
    → IsOpen b h
    → Ensures (λ b' h'. IsOpen b' h') (handle_data c p b ctrl masked h)
unfolding handle_data
handle_data-Keeps c p b ctrl masked h o =
    Ensures-if (length masked == 0 || ltb ash_max_frame (length masked)) _ _ h (returns o) (
      Ensures->>= (ash_send_ack b₁) _ h (ash_send_ack-IsOpen b₁ h o₁) (λ _ h₁ o₂.
        Ensures->>= (ezsp_relay c p (mask 0 masked) ash_max_frame) _ h₁
          (ezsp_relay-Silent c p (mask 0 masked) ash_max_frame h₁)
          (λ reply h₂ e. answer-Keeps c p b₁ (mask 0 masked) reply h₂ (same_log o₂ e))))
  where
    b₁ : Bridge
    b₁ = record b { ack = next_ack ctrl }

    o₁ : IsOpen (record b { ack = next_ack ctrl }) h
    o₁ = record { valid = ack-IsValid b ctrl o.valid; is_ready = o.is_ready; log = o.log }

handle_ctrl-Keeps :
    (c : Cfg) (p : Pins) (b : Bridge) (ctrl : ℕ) (masked : List ℕ)
    → Keeps (handle_ctrl c p b ctrl masked) b
unfolding handle_ctrl
handle_ctrl-Keeps c p b ctrl masked h s =
    Ensures-if (ctrl == ash_ctrl_rst) _ _ h (bridge_reset-Keeps p b h s) (
      Ensures-if (bit_and ctrl 0xE0 == 0x80) _ _ h (returns s) (
        Ensures-if (bit_and ctrl 0xE0 == 0xA0) _ _ h (nak-Keeps b (ctrl % 8) h s)
          (Ensures-if (leb 0x80 ctrl) _ _ h (returns s) data_frame)))
  where
    data_frame :
        Ensures
          (λ b' h'. IsSession b' h')
          ((if not b.ready then pure b else handle_data c p b ctrl masked) h)
    data_frame = elim (Bool-cases b.ready) [
      | inl r ↦ Ensures-else (not b.ready) (pure b) (handle_data c p b ctrl masked) h (ap not r) (
          Ensures-after _ (handle_data-Keeps c p b ctrl masked h (ready-IsOpen r s))
            (λ _ _ o. opened-IsSession o))
      | inr u ↦
          Ensures-then (not b.ready) (pure b) (handle_data c p b ctrl masked) h (ap not u)
            (returns s)
    ]

pub handle_frame-Keeps :
    (c : Cfg) (p : Pins) (b : Bridge) (f : List ℕ) → Keeps (bridge_handle_frame c p b f) b
unfolding bridge_handle_frame
handle_frame-Keeps c p b [] h s = returns s
handle_frame-Keeps c p b (ctrl ∷ masked) h s = handle_ctrl-Keeps c p b ctrl masked h s
