-- ===== src/Spi/Bounds.antt =====
-- How much of the caller's buffer a transaction fills, and what it leaves undone without a chip
-- select of its own.
use openwrt_ezsp_spi.Prelude.{
  ℕ, ◌+◌, ◌^◌, ◌≤◌, ◌<◌, ◌≡◌, false, List, [], ◌∷◌, length, length-append, length-replicate, arith,
  ◌==◌, ◌!=◌, replicate, is_some, ltb, leb, ltb→lt, Bool-cases, inl, inr,
}
use openwrt_ezsp_spi.Config.{Cfg, Pins, spi_idle, spi_cmd_ezsp_frame, spi_err_unsupported}
use openwrt_ezsp_spi.Host.{Host, Outcome, ok, pure, spi_raw}
use openwrt_ezsp_spi.Host.Run.{
  Ensures, returns, Ensures-all, Ensures->>=, Ensures-ok, Ensures-if, Ensures-after, spi_raw-length,
}
use openwrt_ezsp_spi.Spi.{
  cs_assert, cs_release, spi_byte, wait_states, frame_head, response_head, clamp_remain, finish,
  collect, no_response, send_command, spi_txn_framed,
}

anyhow {ℓ} : {A : Type ℓ} (o : Outcome A) → Ensures (λ _ _. Unit {0}) o
anyhow o = Ensures-all o (λ _ _ _. tt)

-- The bytes at hand fit, and there is one.
abbrev pub Fits : ℕ → List ℕ → Type 0
Fits rxlen rx = (0 < length rx) × (length rx ≤ rxlen)

response_head-Fits :
    (rxlen b : ℕ) (h : Host)
    → 0 < rxlen
    → Ensures (λ head h'. Fits rxlen head.0) (response_head rxlen b h)
unfolding response_head frame_head
response_head-Fits rxlen b h pos =
    Ensures-if (b == spi_cmd_ezsp_frame) _ _ h
      (elim (Bool-cases (ltb 1 rxlen)) [
        | inl big ↦ rw big (
            Ensures->>= spi_byte _ h (anyhow (spi_byte h))
              (λ len h' _. returns (omega (arith, ltb→lt 1 rxlen big))))
        | inr small ↦ rw small (returns (omega arith))
      ])
      (Ensures-if (leb b spi_err_unsupported) _ _ h (returns (omega arith)) (returns (omega arith)))

clamp_remain_le :
    (rxlen n remain : ℕ) → n ≤ rxlen → rxlen < 2 ^ 64 → n + clamp_remain rxlen n remain ≤ rxlen
unfolding clamp_remain
clamp_remain_le rxlen n remain le small = omega arith

finish-Fits :
    (p : Pins) (rxlen : ℕ) (rx : List ℕ) (remain : ℕ) (h : Host)
    → Fits rxlen rx
    → length rx + remain ≤ rxlen
    → Ensures (λ out h'. Fits rxlen out) (finish p rx remain h)
unfolding finish
finish-Fits p rxlen rx remain h fits le =
    Ensures-if (remain != 0) _ _ h
      (Ensures->>= (spi_raw (replicate remain spi_idle) (is_some p.cs)) _ h
        (spi_raw-length (replicate remain spi_idle) (is_some p.cs) h)
        (λ xs h' n.
          returns (omega (arith, fits, n, length-append rx xs, length-replicate remain spi_idle))))
      (Ensures-if (is_some p.cs) _ _ h (returns fits)
        (Ensures->>= (spi_raw (spi_idle ∷ []) false) _ h (anyhow _) (λ _ _ _. returns fits)))

pub collect-Fits :
    (p : Pins) (rxlen b : ℕ) (h : Host)
    → 0 < rxlen
    → rxlen < 2 ^ 64
    → Ensures (λ rx h'. Fits rxlen rx) (collect p rxlen b h)
unfolding collect
collect-Fits p rxlen b h pos small =
    Ensures->>= (response_head rxlen b) _ h (response_head-Fits rxlen b h pos) (λ head h₁ fits.
      Ensures->>= (finish p head.0 (clamp_remain rxlen (length head.0) head.1)) _ h₁
        (finish-Fits p rxlen head.0 (clamp_remain rxlen (length head.0) head.1) h₁ fits
          (clamp_remain_le rxlen (length head.0) head.1 fits.1 small))
        (λ rx h₂ fits'.
          Ensures->>= (cs_release p) (λ _. pure rx) h₂ (anyhow _) (λ _ _ _. returns fits')))

-- A transaction that returns has stored at most `rxlen` bytes in the caller's buffer of `rxlen`
-- bytes, whatever length the NCP announces.
pub length-txn :
    (c : Cfg) (p : Pins) (tx : List ℕ) (rxlen : ℕ) (h : Host) {rx : List ℕ} {h' : Host}
    → 0 < rxlen
    → rxlen < 2 ^ 64
    → spi_txn_framed c p tx rxlen h ≡ ok rx h'
    → length rx ≤ rxlen
length-txn c p tx rxlen h pos small e = Ensures-ok run e
  where
    empty : (p : Pins) (h : Host) → Ensures (λ rx h'. length rx ≤ rxlen) (no_response p h)
    empty p h =
        unfold no_response in
        Ensures-if (is_some p.cs) _ _ h
          (Ensures->>= (cs_release p) (λ _. pure []) h (anyhow _) (λ _ _ _. returns (omega arith)))
          (Ensures->>= (spi_raw (spi_idle ∷ []) false) _ h (anyhow _)
            (λ _ _ _. returns (omega arith)))

    run : Ensures (λ rx h'. length rx ≤ rxlen) (spi_txn_framed c p tx rxlen h)
    run =
        unfold spi_txn_framed in
        Ensures->>= (cs_assert p) _ h (anyhow _) (λ _ h₁ _.
          Ensures->>= (send_command tx) _ h₁ (anyhow _) (λ _ h₂ _.
            Ensures->>= (wait_states c.wait_bytes) _ h₂ (anyhow _) (λ b h₃ _.
              Ensures-if (b == spi_idle) (no_response p) (collect p rxlen b) h₃ (empty p h₃)
                (Ensures-after _ (collect-Fits p rxlen b h₃ pos small) (λ rx h' f. f.1)))))
