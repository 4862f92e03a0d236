-- ===== src/Probe/Told.antt =====
-- Every command of `do_cmd` (package/ezsp-spi/src/probe.c) goes out on the bus, byte for byte.
use openwrt_ezsp_spi.Prelude.{
  ℕ, ◌≤◌, ◌≡◌, sym, ap, ◌∙◌, Bool, true, ◌&&◌, List, [], ◌∷◌, ◌++◌, append_assoc, length, ◌!=◌,
  arith, if◌then◌else◌,
}
use openwrt_ezsp_spi.Config.{Cfg, Pins}
use openwrt_ezsp_spi.Host.{Host, ok, Action, clock, pure, ◌>>=◌, spi_raw, ioctl}
use openwrt_ezsp_spi.Host.Run.{
  Ensures, returns, Ensures-all, Ensures->>=, Ensures-after, Ensures-then,
}
use openwrt_ezsp_spi.Host.Silent.{quiet, IsQuiet, Silent->>=, Silent-if, Silent, pure-Silent}
use openwrt_ezsp_spi.Spi.{cs_assert, send_command, spi_txn_framed}
use openwrt_ezsp_spi.Probe.{RspClass, classify, is_reset, prepare, attempt, do_cmd}
use openwrt_ezsp_spi.Probe.Steps.{prepare-Holds, attempt-Holds}
use openwrt_ezsp_spi.Spi.Steps.{cs_assert-Holds, rest-Holds}

-- Since `before`, the bytes `tx` were clocked out in one transfer that kept chip select.
abbrev pub Told : List ℕ → List Action → List Action → Type 0
Told tx before wire =
    (later earlier : List Action) × (wire ≡ later ++ clock tx true ∷ (earlier ++ before))

quiet_then_Told :
    {tx : List ℕ} {h h' : Host} {wire : List Action}
    → IsQuiet h h'
    → Told tx h'.wire wire
    → Told tx h.wire wire
quiet_then_Told {tx} {h} q (later, earlier, e) = (
  later,
  earlier ++ q.actions,
  e
      ∙ ap (λ t. later ++ clock tx true ∷ t)
          (ap (λ t. earlier ++ t) q.grown ∙ sym (append_assoc earlier q.actions h.wire)),
)

Told-then_quiet :
    {tx : List ℕ} {before : List Action} {h h' : Host}
    → Told tx before h.wire
    → IsQuiet h h'
    → Told tx before h'.wire
Told-then_quiet {tx} {before} (later, earlier, e) q = (
  q.actions ++ later,
  earlier,
  q.grown
      ∙ ap (λ t. q.actions ++ t) e
      ∙ sym (append_assoc q.actions later (clock tx true ∷ (earlier ++ before))),
)

send_command-Told :
    (tx : List ℕ) (h : Host)
    → 1 ≤ length tx
    → Ensures (λ _ h'. Told tx h.wire h'.wire) (send_command tx h)
unfolding send_command
send_command-Told tx h pos = Ensures-then (length tx != 0) _ _ h (ground arith) (
    Ensures->>= (spi_raw tx true) _ h
      (Ensures-all (spi_raw tx true h) (λ xs h' e. ([], [], clocked e))) (λ _ h' t. returns t))
  where
    clocked :
        {xs : List ℕ} {h' : Host} → spi_raw tx true h ≡ ok xs h' → h'.wire ≡ clock tx true ∷ h.wire
    clocked e = unfold spi_raw ioctl in ground (arith, e)

txn-Told :
    (c : Cfg) (p : Pins) (tx : List ℕ) (rxlen : ℕ) (h : Host)
    → 1 ≤ length tx
    → Ensures (λ _ h'. Told tx h.wire h'.wire) (spi_txn_framed c p tx rxlen h)
unfolding spi_txn_framed
txn-Told c p tx rxlen h pos = Ensures->>= (cs_assert p) _ h (cs_assert-Holds quiet p h) (λ _ h₁ q.
    Ensures->>= (send_command tx) _ h₁ (send_command-Told tx h₁ pos) (λ _ h₂ t.
      Ensures-after _ (rest-Holds quiet c p rxlen h₂)
        (λ _ h₃ q'. Told-then_quiet (quiet_then_Told q t) q')))

attempt-Told :
    (c : Cfg) (p : Pins) (tx : List ℕ) (rxlen : ℕ) (h : Host)
    → 1 ≤ length tx
    → Ensures (λ _ h'. Told tx h.wire h'.wire) (attempt c p tx rxlen h)
unfolding attempt
attempt-Told c p tx rxlen h pos =
    Ensures->>= (prepare c p) (λ _. spi_txn_framed c p tx rxlen) h (prepare-Holds quiet c p h)
      (λ _ h₁ q. Ensures-after _ (txn-Told c p tx rxlen h₁ pos) (λ _ h₂ t. quiet_then_Told q t))

-- Whatever the NCP answers, a command that is not empty is clocked out to it as it stands.
pub do_cmd-Told :
    (c : Cfg) (p : Pins) (tx : List ℕ) (rxlen : ℕ) (retry : Bool) (h : Host)
    → 1 ≤ length tx
    → Ensures (λ _ h'. Told tx h.wire h'.wire) (do_cmd c p tx rxlen retry h)
unfolding do_cmd
do_cmd-Told c p tx rxlen retry h pos =
    Ensures->>= (attempt c p tx rxlen) _ h (attempt-Told c p tx rxlen h pos)
      (λ rx h₁ t. Ensures-after _ (again-Silent rx h₁) (λ _ h₂ q. Told-then_quiet t q))
  where
    again-Silent :
        (rx : List ℕ)
        → Silent {A = RspClass × List ℕ} (
            if is_reset (classify rx).0 && retry
            then attempt c p tx rxlen >>= (λ rx'. pure ((classify rx').0, rx'))
            else pure ((classify rx).0, rx))
    again-Silent rx =
        Silent-if (is_reset (classify rx).0 && retry) _ _
          (Silent->>= (attempt c p tx rxlen) (λ rx'. pure ((classify rx').0, rx'))
            (attempt-Holds quiet c p tx rxlen) (λ rx'. pure-Silent _))
          (pure-Silent _)
