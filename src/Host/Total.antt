-- ===== src/Host/Total.antt =====
-- Runs of the process that return: total correctness, where `Ensures` is partial correctness.
use openwrt_ezsp_spi.Prelude.{◌≡◌, refl, ap, ◌∙◌, Bool, false, if◌then◌else◌}
use openwrt_ezsp_spi.Host.{Host, Outcome, ok, died, M, pure, ◌>>=◌}

-- The run returns, and `Q` holds of its result and the state.
pub record Gives {ℓ κ} {A : Type ℓ} (Q : A → Host → Type κ) (o : Outcome A) : Type (ℓ ⊔ κ) where
  pub value : A
  pub after : Host
  pub result : o ≡ ok value after
  pub holds : Q value after

module _ {ℓ κ μ ν} {A : Type ℓ} {B : Type κ} {P : A → Host → Type μ} {Q : B → Host → Type ν} where
  pub Gives->>= :
      (m : M A) (f : A → M B) (h : Host)
      → Gives P (m h)
      → ((a : A) (h' : Host) → P a h' → Gives Q (f a h'))
      → Gives Q ((m >>= f) h)
  Gives->>= m f h g k =
      let rest = k g.value g.after g.holds in
      record {
        value = rest.value;
        after = rest.after;
        result = ap (λ o. elim o [ ok a h' ↦ f a h' | died ↦ died ]) g.result ∙ rest.result;
        holds = rest.holds;
      }

module _ {ℓ κ μ} {A : Type ℓ} {P : A → Host → Type κ} {Q : A → Host → Type μ} where
  pub Gives-after : {o : Outcome A} → Gives P o → ((a : A) (h : Host) → P a h → Q a h) → Gives Q o
  Gives-after g f = record {
    value = g.value;
    after = g.after;
    result = g.result;
    holds = f g.value g.after g.holds;
  }

module _ {ℓ κ} {A : Type ℓ} {Q : A → Host → Type κ} where
  pub pure-Gives : (a : A) (h : Host) → Q a h → Gives Q (pure a h)
  pure-Gives a h q = record { value = a; after = h; result = refl; holds = q }

  pub Gives-else :
      (b : Bool) (m n : M A) (h : Host)
      → b ≡ false
      → Gives Q (n h)
      → Gives Q ((if b then m else n) h)
  Gives-else b m n h e g = rw e g
