-- ===== src/Ncp/Run.antt =====
-- The wake handshake and the reset leave what the NCP will shift out alone, and return.
use openwrt_ezsp_spi.Prelude.{ℕ, ◌≡◌, refl, Bool, true, false, none, List, is_some, if◌then◌else◌}
use openwrt_ezsp_spi.Config.{Pins}
use openwrt_ezsp_spi.Host.{
  Host, M, pure, ◌>>=◌, gpio_set, gpio_get, gpio_wait_falling, gpio_drain_events, usleep,
}
use openwrt_ezsp_spi.Host.Run.{Reads, Reads-then, pure-Reads, gpio_set-Reads}
use openwrt_ezsp_spi.Ncp.{wake_pulse, wake_ack, asserted, ncp_wake}

-- A step that returns its result from any state, and takes nothing off the bus.
abbrev pub Calm {ℓ} : {A : Type ℓ} → M A → Type ℓ
Calm {A} m = (h : Host) (xs : List ℕ) → h.miso ≡ xs → h.dies ≡ none → (a : A) × Reads (m h) a xs

pub Calm->>= {ℓ κ} :
    {A : Type ℓ} {B : Type κ} (m : M A) (f : A → M B)
    → Calm m
    → ((a : A) → Calm (f a))
    → Calm (m >>= f)
Calm->>= m f c k h xs q d =
    let first = c h xs q d in
    let run = first.1 in
    let second = k first.0 run.after xs run.left run.alive in
    (second.0, Reads-then m f h run second.1)

gpio_set-Calm : (line : ℕ) (v : Bool) → Calm (gpio_set line v)
gpio_set-Calm line v h xs q d = (tt, gpio_set-Reads line v h q d)

pub pure-Calm {ℓ} : {A : Type ℓ} (a : A) → Calm (pure a)
pure-Calm a h xs q d = (a, pure-Reads a h q d)

pub if-Calm {ℓ} : {A : Type ℓ} (b : Bool) (m n : M A) → Calm m → Calm n → Calm (if b then m else n)
if-Calm true m n p q = p
if-Calm false m n p q = q

pub usleep-Calm : (us : ℕ) → Calm (usleep us)
usleep-Calm us h xs q d = (tt, record { after = _; result = refl; left = q; alive = d })

gpio_get-Calm : Calm gpio_get
unfolding gpio_get
gpio_get-Calm h xs q d = (_, record { after = _; result = refl; left = q; alive = d })

gpio_wait_falling-Calm : Calm gpio_wait_falling
unfolding gpio_wait_falling
gpio_wait_falling-Calm h xs q d = (_, record { after = _; result = refl; left = q; alive = d })

gpio_drain_events-Calm : Calm gpio_drain_events
unfolding gpio_drain_events
gpio_drain_events-Calm h xs q d = (tt, record { after = _; result = refl; left = q; alive = d })

wake_pulse-Calm : (p : Pins) → Calm (wake_pulse p)
unfolding wake_pulse
wake_pulse-Calm p = Calm->>= (gpio_set p.nwake false) _ (gpio_set-Calm _ _) (λ _.
    Calm->>= (usleep 2000) _ (usleep-Calm 2000)
      (λ _. Calm->>= (gpio_set p.nwake true) _ (gpio_set-Calm _ _) (λ _. usleep-Calm 2000)))

wake_ack-Calm : (p : Pins) → Calm (wake_ack p)
unfolding wake_ack
wake_ack-Calm p = Calm->>= gpio_drain_events _ gpio_drain_events-Calm (λ _.
    Calm->>= (gpio_set p.nwake false) _ (gpio_set-Calm _ _) (λ _.
      Calm->>= gpio_wait_falling _ gpio_wait_falling-Calm
        (λ _. Calm->>= (gpio_set p.nwake true) _ (gpio_set-Calm _ _) (λ _. usleep-Calm 500))))

pub ncp_wake-Calm : (p : Pins) → Calm (ncp_wake p)
unfolding ncp_wake
ncp_wake-Calm p =
    if-Calm (is_some p.hint) _ _
      (Calm->>= gpio_get _ gpio_get-Calm
        (λ l. if-Calm (asserted l) (pure tt) (wake_ack p) (pure-Calm tt) (wake_ack-Calm p)))
      (wake_pulse-Calm p)
