-- ===== src/Spi/Stuck.antt =====
-- A transaction without a response, where the kernel holds chip select.
use openwrt_ezsp_spi.Prelude.{
  ℕ, ◌^◌, ◌<◌, ◌≡◌, refl, ap, ◌∙◌, true, false, none, some, List, [], ◌∷◌, ◌++◌, arith, ◌==◌, All,
  is_some,
}
use openwrt_ezsp_spi.Config.{Cfg, Pins, spi_idle}
use openwrt_ezsp_spi.Host.{Host, ok, spi_raw, Action, drive}
use openwrt_ezsp_spi.Host.Run.{
  Ensures, returns, Ensures->>=, Ensures-ok, Ensures-if, Ensures-else, Ensures-after,
}
use openwrt_ezsp_spi.Spi.{
  cs_assert, wait_states, collect, no_response, send_command, spi_txn_framed,
}
use openwrt_ezsp_spi.Spi.Bounds.{collect-Fits}
use openwrt_ezsp_spi.Spi.Signals.{
  IsClock, Clocked, Clocked-trans, Moved, moved, cs_assert-Moved, send_command-Clocking,
  wait_states-Clocking, spi_raw-Clocking,
}

-- The lines fell and never rose.
pub record IsLeftLow (p : Pins) (h h' : Host) : Type 0 where
  pub clocked : List Action
  pub logged : h'.wire ≡ clocked ++ (moved p false ++ h.wire)
  pub clocks : All IsClock clocked

left_low : {p : Pins} {a b c : Host} → Moved (moved p false) a b → Clocked b c → IsLeftLow p a c
left_low x y = record {
  clocked = y.actions;
  logged = y.logged ∙ ap (λ t. y.actions ++ t) x.logged;
  clocks = y.clocks;
}

-- Where the kernel holds chip select (`cs` is -1) and nSSEL_INT follows it on a line of its own, a
-- transaction that returns no byte has lowered nSSEL_INT and not raised it: its line is low when
-- `spi_txn_framed` returns, while the kernel releases nSSEL.
pub txn_left_low :
    (c : Cfg) (p : Pins) (tx : List ℕ) (rxlen line : ℕ) (h : Host) {h' : Host}
    → 0 < rxlen
    → rxlen < 2 ^ 64
    → p.cs ≡ none
    → p.nssel_int ≡ some line
    → p.follows ≡ true
    → spi_txn_framed c p tx rxlen h ≡ ok [] h'
    → (clocked : List Action) × (h'.wire ≡ clocked ++ drive line false ∷ h.wire)
      × All IsClock clocked
txn_left_low c p tx rxlen line h pos small no_cs int follows e =
    let low = Ensures-ok run e refl in
    (low.clocked, low.logged ∙ ap (λ t. low.clocked ++ (t ++ h.wire)) lines, low.clocks)
  where
    lines : moved p false ≡ drive line false ∷ []
    lines = ground arith

    Empty : List ℕ → Host → Type 0
    Empty rx h' = rx ≡ [] → IsLeftLow p h h'

    silent :
        (h₁ h₂ : Host)
        → Moved (moved p false) h h₁
        → Clocked h₁ h₂
        → Ensures Empty (no_response p h₂)
    silent h₁ h₂ mv ck =
        unfold no_response in
        Ensures-else (is_some p.cs) _ _ h₂ (ap is_some no_cs) (
          Ensures->>= (spi_raw (spi_idle ∷ []) false) _ h₂ (spi_raw-Clocking _ _ h₂)
            (λ _ h₃ c₃. returns (λ _. left_low mv (Clocked-trans ck c₃))))

    run : Ensures Empty (spi_txn_framed c p tx rxlen h)
    run =
        unfold spi_txn_framed in
        Ensures->>= (cs_assert p) _ h (cs_assert-Moved p h) (λ _ h₁ mv.
          Ensures->>= (send_command tx) _ h₁ (send_command-Clocking tx h₁) (λ _ h₂ c₂.
            Ensures->>= (wait_states c.wait_bytes) _ h₂ (wait_states-Clocking c.wait_bytes h₂)
              (λ b h₃ c₃.
                Ensures-if (b == spi_idle) (no_response p) (collect p rxlen b) h₃
                  (silent h₁ h₃ mv (Clocked-trans c₂ c₃))
                  (Ensures-after _ (collect-Fits p rxlen b h₃ pos small)
                    (λ rx h' fits e'. absurd (ground (arith, fits.0)))))))
