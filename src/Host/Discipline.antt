-- ===== src/Host/Discipline.antt =====
-- What holds of every run that is put together from the steps of gpio.c and spi.c, because it holds
-- of each step and of what follows it: the ladder of the layers above is climbed once, for any such
-- predicate.
use openwrt_ezsp_spi.Prelude.{ℕ, List, Bool, true, false, if◌then◌else◌}
use openwrt_ezsp_spi.Host.{
  M, pure, ◌>>=◌, ◌>>◌, gpio_set, gpio_get, gpio_wait_falling, gpio_drain_events, usleep, spi_raw,
}

pub record Discipline : Type 1 where
  pub Holds : {A : Type 0} → M A → Type 0
  pub of_bind :
      {A B : Type 0} (m : M A) (f : A → M B) → Holds m → ((a : A) → Holds (f a)) → Holds (m >>= f)
  pub of_pure : {A : Type 0} (a : A) → Holds (pure a)
  pub of_usleep : (us : ℕ) → Holds (usleep us)
  pub of_gpio_set : (line : ℕ) (v : Bool) → Holds (gpio_set line v)
  pub of_gpio_get : Holds gpio_get
  pub of_gpio_wait_falling : Holds gpio_wait_falling
  pub of_gpio_drain_events : Holds gpio_drain_events
  pub of_spi_raw : (tx : List ℕ) (keep : Bool) → Holds (spi_raw tx keep)

module _ (d : Discipline) where
  open d use {Holds, of_bind}

  pub of_then : {B : Type 0} (m : M (Unit {0})) (k : M B) → Holds m → Holds k → Holds (m >> k)
  of_then m k p q = of_bind m (λ _. k) p (λ _. q)

  pub of_if : {A : Type 0} (b : Bool) (m n : M A) → Holds m → Holds n → Holds (if b then m else n)
  of_if true m n p q = p
  of_if false m n p q = q
