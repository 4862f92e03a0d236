-- ===== src/Bridge/Lives.antt =====
-- A turn of the bridge ends (package/ezsp-spi/src/bridge.c).
use openwrt_ezsp_spi.Prelude.{refl, Bool, true, false}
use openwrt_ezsp_spi.Host.{Host}
use openwrt_ezsp_spi.Host.Lives.{Lives}
use openwrt_ezsp_spi.Bridge.{Bridge}
use openwrt_ezsp_spi.Bridge.Loop.{Wakeup, interrupted, poll_failed, events, consume_edge}

pub consume_edge-Lives : (seen : Bool) → Lives (consume_edge seen)
unfolding consume_edge
consume_edge-Lives true h alive = record { value = _; after = _; result = refl; holds = alive }
consume_edge-Lives false h alive = record { value = _; after = _; result = refl; holds = alive }

-- `poll` did not fail for good.
abbrev pub HasPolled : Wakeup → Type 0
HasPolled interrupted = Unit
HasPolled poll_failed = ⊥
HasPolled (events ev) = Unit
