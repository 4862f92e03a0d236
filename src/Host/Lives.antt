-- ===== src/Host/Lives.antt =====
-- Steps of gpio.c, spi.c and bridge.c that return as long as no ioctl fails.
use openwrt_ezsp_spi.Prelude.{ℕ, ◌≡◌, refl, List, Bool, true, false, if◌then◌else◌, none, arith}
use openwrt_ezsp_spi.Host.{
  Host, M, pure, ◌>>=◌, ◌>>◌, ioctl, gpio_set, gpio_get, gpio_wait_falling, gpio_drain_events,
  usleep, spi_raw, write_all,
}
use openwrt_ezsp_spi.Host.Discipline.{Discipline}
use openwrt_ezsp_spi.Host.Total.{Gives, Gives->>=}

-- No ioctl is going to fail.
abbrev pub IsAlive : Host → Type 0
IsAlive h = h.dies ≡ none

-- Whatever the NCP, the lines and the client answer, the run returns, and the process goes on.
abbrev pub Lives {ℓ} : {A : Type ℓ} → M A → Type ℓ
Lives {A} m = (h : Host) → IsAlive h → Gives (λ (a : A) h'. IsAlive h') (m h)

module _ {ℓ κ} {A : Type ℓ} {B : Type κ} where
  pub Lives->>= : (m : M A) (f : A → M B) → Lives m → ((a : A) → Lives (f a)) → Lives (m >>= f)
  Lives->>= m f l k h alive = Gives->>= m f h (l h alive) (λ a h' alive'. k a h' alive')

pub Lives->> {ℓ} : {B : Type ℓ} (m : M (Unit {0})) (k : M B) → Lives m → Lives k → Lives (m >> k)
Lives->> m k l l' h alive = Gives->>= m (λ _. k) h (l h alive) (λ a h' alive'. l' h' alive')

pub Lives-if {ℓ} :
    {A : Type ℓ} (b : Bool) (m n : M A) → Lives m → Lives n → Lives (if b then m else n)
Lives-if true m n p q = p
Lives-if false m n p q = q

pub pure-Lives {ℓ} : {A : Type ℓ} (a : A) → Lives (pure a)
pure-Lives a h alive = record { value = a; after = h; result = refl; holds = alive }

pub usleep-Lives : (us : ℕ) → Lives (usleep us)
usleep-Lives us h alive = record { value = tt; after = _; result = refl; holds = alive }

pub ioctl-Lives : Lives ioctl
unfolding ioctl
ioctl-Lives h alive = record { value = tt; after = h; result = ground arith; holds = alive }

pub gpio_set-Lives : (line : ℕ) (v : Bool) → Lives (gpio_set line v)
unfolding gpio_set
gpio_set-Lives line v =
    Lives->> ioctl _ ioctl-Lives
      (λ h alive. record { value = tt; after = _; result = refl; holds = alive })

pub gpio_get-Lives : Lives gpio_get
unfolding gpio_get
gpio_get-Lives h alive = record { value = _; after = _; result = refl; holds = alive }

pub gpio_wait_falling-Lives : Lives gpio_wait_falling
unfolding gpio_wait_falling
gpio_wait_falling-Lives h alive = record { value = _; after = _; result = refl; holds = alive }

pub gpio_drain_events-Lives : Lives gpio_drain_events
unfolding gpio_drain_events
gpio_drain_events-Lives h alive = record { value = _; after = _; result = refl; holds = alive }

pub spi_raw-Lives : (tx : List ℕ) (keep : Bool) → Lives (spi_raw tx keep)
unfolding spi_raw
spi_raw-Lives tx keep =
    Lives->> ioctl _ ioctl-Lives
      (λ h alive. record { value = _; after = _; result = refl; holds = alive })

pub write_all-Lives : (buf : List ℕ) → Lives (write_all buf)
unfolding write_all
write_all-Lives buf h alive = record { value = _; after = _; result = refl; holds = alive }

-- Whatever is made of these steps ends.
abbrev pub living : Discipline
living = record {
  Holds = λ m. Lives m;
  of_bind = Lives->>=;
  of_pure = pure-Lives;
  of_usleep = usleep-Lives;
  of_gpio_set = gpio_set-Lives;
  of_gpio_get = gpio_get-Lives;
  of_gpio_wait_falling = gpio_wait_falling-Lives;
  of_gpio_drain_events = gpio_drain_events-Lives;
  of_spi_raw = spi_raw-Lives;
}
