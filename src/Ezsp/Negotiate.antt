-- ===== src/Ezsp/Negotiate.antt =====
-- The version negotiation of `ezsp_init` (package/ezsp-spi/src/ezsp.c).
use openwrt_ezsp_spi.Prelude.{
  ℕ, ◌%◌, ◌≤◌, ◌≡◌, refl, Option, none, some, ltb, ◌!=◌, if◌then◌else◌, arith, Bool-cases, inl, inr,
}
use openwrt_ezsp_spi.Config.{Cfg, Pins}
use openwrt_ezsp_spi.Host.{Host, M, pure}
use openwrt_ezsp_spi.Host.Run.{Ensures, returns, Ensures->>=, Ensures-all, Ensures-if}
use openwrt_ezsp_spi.Ncp.{ncp_reset}
use openwrt_ezsp_spi.Ezsp.{ask_version, settle, ask_again, ezsp_init, set_version}

-- A version that `ezsp_init` returns is the one that frames are laid out for from then on.
abbrev pub IsSettled : Option ℕ → Host → Type 0
IsSettled none h = Unit
IsSettled (some v) h = (h.ezsp_version ≡ v) × (v ≤ 8)

settle-IsSettled : (v : ℕ) (h : Host) → Ensures IsSettled (settle v h)
unfolding settle set_version
settle-IsSettled v h = elim (Bool-cases (ltb 8 v)) [
  | inl newer ↦ rw newer (returns tt)
  | inr known ↦ rw known (returns (refl, ground arith))
]

anything : {A : Type 0} (m : M A) (h : Host) → Ensures (λ _ _. Unit {0}) (m h)
anything m h = Ensures-all (m h) (λ _ _ _. tt)

ask_again-IsSettled :
    (c : Cfg) (p : Pins) (want : ℕ) (h : Host) → Ensures IsSettled (ask_again c p want h)
unfolding ask_again
ask_again-IsSettled c p want h = Ensures->>= (ncp_reset p) _ h (anything (ncp_reset p) h) (λ _ h₁ _.
    Ensures->>= (ask_version c p want) _ h₁ (anything (ask_version c p want) h₁)
      (λ r h₂ _. judged r h₂))
  where
    judged :
        (r : Option ℕ) (h : Host)
        → Ensures IsSettled (
            (elim r as (λ _. M (Option ℕ)) [
              | none ↦ pure none
              | some got ↦ if got != want then pure none else settle got
            ])
              h)
    judged none h = returns tt
    judged (some got) h = Ensures-if (got != want) _ _ h (returns tt) (settle-IsSettled got h)

-- If `ezsp_init` succeeds with a version, after one question or after a reset and a second one,
-- then the version is 8 at most, and it is the version in whose layout every later frame goes out.
pub ezsp_init-IsSettled : (c : Cfg) (p : Pins) (h : Host) → Ensures IsSettled (ezsp_init c p h)
unfolding ezsp_init
ezsp_init-IsSettled c p h =
    Ensures->>= (ask_version c p (c.ezsp_want % 256)) _ h
      (anything (ask_version c p (c.ezsp_want % 256)) h) (λ r h₁ _. judged r h₁)
  where
    judged :
        (r : Option ℕ) (h : Host)
        → Ensures IsSettled (
            (elim r as (λ _. M (Option ℕ)) [
              | none ↦ pure none
              | some got ↦ if got != c.ezsp_want % 256 then ask_again c p got else settle got
            ])
              h)
    judged none h = returns tt
    judged (some got) h =
        Ensures-if (got != c.ezsp_want % 256) _ _ h (ask_again-IsSettled c p got h)
          (settle-IsSettled got h)
