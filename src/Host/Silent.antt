-- ===== src/Host/Silent.antt =====
-- Steps of gpio.c that send nothing to the client and change no counter.
use openwrt_ezsp_spi.Prelude.{
  ℕ, ◌≡◌, refl, sym, ap, ◌∙◌, List, [], ◌∷◌, ◌++◌, append_assoc, Bool, true, false, if◌then◌else◌,
  arith,
}
use openwrt_ezsp_spi.Host.{
  Host, Action, drive, pause, clock, spi_raw, M, pure, ◌>>=◌, ioctl, gpio_set, gpio_get,
  gpio_wait_falling, gpio_drain_events, usleep,
}
use openwrt_ezsp_spi.Host.Discipline.{Discipline}
use openwrt_ezsp_spi.Host.Run.{memory, Ensures, returns, Ensures-all, Ensures->>=, Ensures-after}

-- Nothing changes but the world, in which things are done to the pins and the bus.
pub record IsQuiet (h h' : Host) : Type 0 where
  pub actions : List Action
  pub grown : h'.wire ≡ actions ++ h.wire
  pub same_memory : memory h' ≡ memory h

pub IsQuiet-refl : (h : Host) → IsQuiet h h
IsQuiet-refl h = record { actions = []; grown = refl; same_memory = refl }

IsQuiet-trans : {h h' h'' : Host} → IsQuiet h h' → IsQuiet h' h'' → IsQuiet h h''
IsQuiet-trans {h} x y = record {
  actions = y.actions ++ x.actions;
  grown =
      y.grown ∙ ap (λ t. y.actions ++ t) x.grown ∙ sym (append_assoc y.actions x.actions h.wire);
  same_memory = y.same_memory ∙ x.same_memory;
}

abbrev pub Silent {ℓ} : {A : Type ℓ} → M A → Type ℓ
Silent {A} m = (h : Host) → Ensures (λ (a : A) h'. IsQuiet h h') (m h)

pub Silent->>= {ℓ κ} :
    {A : Type ℓ} {B : Type κ} (m : M A) (f : A → M B)
    → Silent m
    → ((a : A) → Silent (f a))
    → Silent (m >>= f)
Silent->>= m f s k h =
    Ensures->>= m f h (s h)
      (λ a h' e. Ensures-after (f a h') (k a h') (λ b h'' e'. IsQuiet-trans e e'))

pub Silent-if {ℓ} :
    {A : Type ℓ} (b : Bool) (m n : M A) → Silent m → Silent n → Silent (if b then m else n)
Silent-if true m n p q = p
Silent-if false m n p q = q

pub pure-Silent {ℓ} : {A : Type ℓ} (a : A) → Silent (pure a)
pure-Silent a h = returns (IsQuiet-refl h)

pub usleep-Silent : (us : ℕ) → Silent (usleep us)
usleep-Silent us h = returns (record { actions = pause us ∷ []; grown = refl; same_memory = refl })

pub gpio_set-Silent : (line : ℕ) (v : Bool) → Silent (gpio_set line v)
unfolding gpio_set ioctl
gpio_set-Silent line v h = Ensures-all (gpio_set line v h) (λ a h' e. record {
  actions = drive line v ∷ [];
  grown = ground (arith, e);
  same_memory = ground (arith, e);
})

pub gpio_get-Silent : Silent gpio_get
unfolding gpio_get
gpio_get-Silent h = returns (record { actions = []; grown = refl; same_memory = refl })

pub gpio_wait_falling-Silent : Silent gpio_wait_falling
unfolding gpio_wait_falling
gpio_wait_falling-Silent h = returns (record { actions = []; grown = refl; same_memory = refl })

pub gpio_drain_events-Silent : Silent gpio_drain_events
unfolding gpio_drain_events
gpio_drain_events-Silent h = returns (record { actions = []; grown = refl; same_memory = refl })

pub spi_raw-Silent : (tx : List ℕ) (keep : Bool) → Silent (spi_raw tx keep)
unfolding spi_raw ioctl
spi_raw-Silent tx keep h = Ensures-all (spi_raw tx keep h) (λ a h' e. record {
  actions = clock tx keep ∷ [];
  grown = ground (arith, e);
  same_memory = ground (arith, e);
})

-- Whatever is made of these steps sends nothing to the client.
abbrev pub quiet : Discipline
quiet = record {
  Holds = λ m. Silent m;
  of_bind = Silent->>=;
  of_pure = pure-Silent;
  of_usleep = usleep-Silent;
  of_gpio_set = gpio_set-Silent;
  of_gpio_get = gpio_get-Silent;
  of_gpio_wait_falling = gpio_wait_falling-Silent;
  of_gpio_drain_events = gpio_drain_events-Silent;
  of_spi_raw = spi_raw-Silent;
}
