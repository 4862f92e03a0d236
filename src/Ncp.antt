-- ===== src/Ncp.antt =====
-- package/ezsp-spi/src/board.c: the reset and the wake handshake of the NCP.
pub mod Run
pub mod Steps
use openwrt_ezsp_spi.Prelude.{ℕ, ◌*◌, Bool, true, false, Option, none, some, is_some, if◌then◌else◌}
use openwrt_ezsp_spi.Config.{Pins}
use openwrt_ezsp_spi.Host.{
  M, pure, ◌>>=◌, ◌>>◌, gpio_set, gpio_get, gpio_wait_falling, gpio_drain_events, usleep, Level,
  low, high, unreadable,
}

abbrev pub msleep : ℕ → M (Unit {0})
msleep ms = usleep (ms * 1000)

-- The timed pulse, without an interrupt line.
unfoldable pub wake_pulse : Pins → M (Unit {0})
wake_pulse p = do gpio_set p.nwake false; usleep 2000; gpio_set p.nwake true; usleep 2000

-- nWAKE, until the NCP acknowledges or the time is up.
unfoldable pub wake_ack : Pins → M (Unit {0})
wake_ack p = do
  gpio_drain_events
  gpio_set p.nwake false
  fell ← gpio_wait_falling
  gpio_set p.nwake true
  usleep 500

unfoldable pub asserted : Level → Bool
asserted low = true
asserted high = false
asserted unreadable = false

unfoldable pub ncp_wake : Pins → M (Unit {0})
ncp_wake p =
    if is_some p.hint
    then (do l ← gpio_get; if asserted l then pure tt else wake_ack p)
    else wake_pulse p

unfoldable pub reset_settle : Pins → M (Unit {0})
reset_settle p = if is_some p.hint then (do fell ← gpio_wait_falling; pure tt) else msleep 500

unfoldable pub ncp_reset : Pins → M (Unit {0})
ncp_reset p = do
  gpio_set p.nwake true
  gpio_set p.nreset false
  msleep 50
  if is_some p.hint then gpio_drain_events else pure tt
  gpio_set p.nreset true
  reset_settle p
