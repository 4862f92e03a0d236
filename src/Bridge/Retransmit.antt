-- ===== src/Bridge/Retransmit.antt =====
-- What `ash_retransmit` (package/ezsp-spi/src/bridge.c) sends again after a NAK.
use openwrt_ezsp_spi.Prelude.{
  ℕ, zero, suc, ◌+◌, ◌-◌, ◌%◌, ◌≤◌, ◌<◌, ◌≡◌, refl, ap, ◌∙◌, true, false, ◌||◌, not, is_some, List,
  [], ◌∷◌, length, get_or, arith, ltb, ◌==◌, All, bit_or,
}
use openwrt_ezsp_spi.Config.{ash_max_frame}
use openwrt_ezsp_spi.Host.{Host, pure, ◌>>◌, NetAction, accepted, sent}
use openwrt_ezsp_spi.Host.Run.{
  Ensures, returns, Ensures->>=, Ensures-then, Ensures-else, Ensures-after,
}
use openwrt_ezsp_spi.Bridge.{
  Bridge, ash_send, marked, resend, retransmit_from, ash_retransmit, write_frame,
}
use openwrt_ezsp_spi.Bridge.Valid.{IsShort, IsValid}
use openwrt_ezsp_spi.Bridge.Session.{write_frame-logs}

-- The frames of a log, newest first.
abbrev pub frames_of : List NetAction → List (List ℕ)
frames_of [] = []
frames_of (accepted fd ∷ log) = frames_of log
frames_of (sent frame out ∷ log) = frame ∷ frames_of log

-- A slot in use, with the retransmission bit, ahead of what was sent before.
abbrev pub again : List ℕ → List (List ℕ) → List (List ℕ)
again [] log = log
again (ctrl ∷ rest) log = (bit_or ctrl 0x08 ∷ rest) ∷ log

-- The `k` slots from number `n` on, in their order around the window.
abbrev pub window : List (List ℕ) → ℕ → ℕ → List (List ℕ) → List (List ℕ)
window slots n zero log = log
window slots n (suc k) log = window slots ((n + 1) % 8) k (again (get_or slots n []) log)

get_or-IsShort : (slots : List (List ℕ)) (i : ℕ) → All IsShort slots → IsShort (get_or slots i [])
get_or-IsShort [] i a = omega arith
get_or-IsShort (s ∷ ss) zero a = a.0
get_or-IsShort (s ∷ ss) (suc i) a = get_or-IsShort ss i a.1

resend_lem :
    (b : Bridge) (body : List ℕ) (h : Host)
    → is_some b.cli ≡ true
    → IsShort body
    → Ensures (λ _ h'. frames_of h'.net ≡ again body (frames_of h.net)) (resend b body h)
unfolding resend ash_send marked
resend_lem b [] h con short = returns refl
resend_lem b (ctrl ∷ rest) h con short =
    Ensures->>= (ash_send b (marked (ctrl ∷ rest))) (λ _. pure tt) h
      (Ensures-else (not (is_some b.cli) || ltb (ash_max_frame + 2) (length (ctrl ∷ rest) + 2))
        (pure false) (write_frame (marked (ctrl ∷ rest))) h (ground (arith, con))
        (write_frame-logs (marked (ctrl ∷ rest)) h))
      (λ _ h' w. returns (ap frames_of w.1))

retransmit_from_lem :
    (fuel : ℕ) (b : Bridge) (n k : ℕ) (h : Host)
    → is_some b.cli ≡ true
    → All IsShort b.unacked
    → n < 8
    → k < 8
    → k ≤ fuel
    → (n + k) % 8 ≡ b.frm
    → Ensures
        (λ ended h'. (ended ≡ true) × (frames_of h'.net ≡ window b.unacked n k (frames_of h.net)))
        (retransmit_from fuel b n h)
unfolding retransmit_from
retransmit_from_lem zero b n zero h con short lo le le' e = returns (there, refl)
  where
    there : (n == b.frm) ≡ true
    there = ground arith
retransmit_from_lem zero b n (suc k) h con short lo le le' e = absurd (omega arith)
retransmit_from_lem (suc fuel) b n zero h con short lo le le' e =
    Ensures-then (n == b.frm) _ _ h there (returns (refl, refl))
  where
    there : (n == b.frm) ≡ true
    there = ground arith
retransmit_from_lem (suc fuel) b n (suc k) h con short lo le le' e =
    Ensures-else (n == b.frm) _
      (resend b (get_or b.unacked (n % 8) []) >> retransmit_from fuel b ((n + 1) % 8)) h away
      (Ensures->>= (resend b (get_or b.unacked (n % 8) []))
        (λ _. retransmit_from fuel b ((n + 1) % 8)) h
        (resend_lem b (get_or b.unacked (n % 8) []) h con (get_or-IsShort b.unacked (n % 8) short))
        (λ _ h' w.
          Ensures-after _
            (retransmit_from_lem fuel b ((n + 1) % 8) k h' con short (omega arith) (omega arith)
              (omega arith) (omega arith))
            (λ ended h'' r. (r.0, r.1 ∙ ap (window b.unacked ((n + 1) % 8) k) (w ∙ same_slot)))))
  where
    away : (n == b.frm) ≡ false
    away = ground arith

    same_slot :
        again (get_or b.unacked (n % 8) []) (frames_of h.net)
        ≡ again (get_or b.unacked n []) (frames_of h.net)
    same_slot = ap (λ i. again (get_or b.unacked i []) (frames_of h.net)) (omega arith)

-- With a client connected, a valid state and any frame number of three bits, seven rounds end the
-- loop of `ash_retransmit` by its own test. It sends the kept frames from that number up to the
-- next number to be used, around the window of eight, each with the retransmission bit and
-- otherwise unchanged, leaves out the empty slots, and sends nothing else.
pub ash_retransmit-window :
    (b : Bridge) (from : ℕ) (h : Host)
    → is_some b.cli ≡ true
    → IsValid b
    → from < 8
    → Ensures
        (λ ended h'.
          (ended ≡ true)
          × (frames_of h'.net ≡ window b.unacked from ((b.frm + 8 - from) % 8) (frames_of h.net)))
        (ash_retransmit b from h)
unfolding ash_retransmit
ash_retransmit-window b from h con v lt =
    retransmit_from_lem 7 b from ((b.frm + 8 - from) % 8) h con v.short lt (omega arith)
      (omega arith) (omega (arith, v.frm_lt))
