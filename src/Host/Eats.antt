-- ===== src/Host/Eats.antt =====
-- Steps of gpio.c and spi.c never give back what the NCP has shifted out.
use openwrt_ezsp_spi.Prelude.{ℕ, ◌≤◌, ◌<◌, ◌≡◌, ap, ◌∙◌, List, [], length, length-drop, Bool, arith}
use openwrt_ezsp_spi.Host.{
  Host, M, pure, ◌>>=◌, ioctl, gpio_set, gpio_get, gpio_wait_falling, gpio_drain_events, usleep,
  spi_raw, shifted,
}
use openwrt_ezsp_spi.Host.Discipline.{Discipline}
use openwrt_ezsp_spi.Host.Run.{Ensures, returns, Ensures-all, Ensures->>=, Ensures-after}

-- At most as much is left to be shifted out.
abbrev pub IsLeft : Host → Host → Type 0
IsLeft h h' = length h'.miso ≤ length h.miso

abbrev pub Eats {ℓ} : {A : Type ℓ} → M A → Type ℓ
Eats {A} m = (h : Host) → Ensures (λ (a : A) h'. IsLeft h h') (m h)

pub Eats->>= {ℓ κ} :
    {A : Type ℓ} {B : Type κ} (m : M A) (f : A → M B)
    → Eats m
    → ((a : A) → Eats (f a))
    → Eats (m >>= f)
Eats->>= m f e k h =
    Ensures->>= m f h (e h) (λ a h' le. Ensures-after (f a h') (k a h') (λ b h'' le'. omega arith))

pub pure-Eats {ℓ} : {A : Type ℓ} (a : A) → Eats (pure a)
pure-Eats a h = returns {h = h} (omega arith)

pub usleep-Eats : (us : ℕ) → Eats (usleep us)
usleep-Eats us h = returns (omega arith)

pub ioctl-Eats : Eats ioctl
unfolding ioctl
ioctl-Eats h = Ensures-all (ioctl h) (λ a h' e. ground (arith, e))

pub gpio_set-Eats : (line : ℕ) (v : Bool) → Eats (gpio_set line v)
unfolding gpio_set
gpio_set-Eats line v = Eats->>= ioctl _ ioctl-Eats (λ _ h. returns (omega arith))

pub gpio_get-Eats : Eats gpio_get
unfolding gpio_get
gpio_get-Eats h = returns (omega arith)

pub gpio_wait_falling-Eats : Eats gpio_wait_falling
unfolding gpio_wait_falling
gpio_wait_falling-Eats h = returns (omega arith)

pub gpio_drain_events-Eats : Eats gpio_drain_events
unfolding gpio_drain_events
gpio_drain_events-Eats h = returns (omega arith)

pub spi_raw-Eats : (tx : List ℕ) (keep : Bool) → Eats (spi_raw tx keep)
unfolding spi_raw
spi_raw-Eats tx keep =
    Eats->>= ioctl _ ioctl-Eats (λ _ h. returns (omega (arith, length-drop (length tx) h.miso)))

ioctl-same : (h : Host) → Ensures (λ _ h'. h'.miso ≡ h.miso) (ioctl h)
unfolding ioctl
ioctl-same h = Ensures-all (ioctl h) (λ a h' e. ground (arith, e))

-- A byte clocked is a byte taken, while there is one.
pub spi_raw_takes :
    (tx : List ℕ) (keep : Bool) (h : Host)
    → 0 < length tx
    → 0 < length h.miso
    → Ensures (λ _ h'. length h'.miso < length h.miso) (spi_raw tx keep h)
unfolding spi_raw
spi_raw_takes tx keep h some_out some_in =
    Ensures->>= ioctl _ h (ioctl-same h)
      (λ _ h₁ same. returns (omega (arith, length-drop (length tx) h₁.miso, ap length same)))

-- An NCP with nothing more to say leaves the bus idle.
pub spi_raw_idle :
    (tx : List ℕ) (keep : Bool) (h : Host)
    → h.miso ≡ []
    → Ensures (λ rx h'. rx ≡ shifted (length tx) []) (spi_raw tx keep h)
unfolding spi_raw
spi_raw_idle tx keep h empty =
    Ensures->>= ioctl _ h (ioctl-same h)
      (λ _ h₁ same. returns (ap (shifted (length tx)) (same ∙ empty)))

-- Whatever is made of these steps takes, and gives nothing back.
abbrev pub eating : Discipline
eating = record {
  Holds = λ m. Eats m;
  of_bind = Eats->>=;
  of_pure = pure-Eats;
  of_usleep = usleep-Eats;
  of_gpio_set = gpio_set-Eats;
  of_gpio_get = gpio_get-Eats;
  of_gpio_wait_falling = gpio_wait_falling-Eats;
  of_gpio_drain_events = gpio_drain_events-Eats;
  of_spi_raw = spi_raw-Eats;
}
