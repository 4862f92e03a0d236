-- ===== src/Bridge/Replace.antt =====
-- A client that connects in the turn in which the client before it hangs up.
use openwrt_ezsp_spi.Prelude.{◌≡◌, ℕ, true, none, some, arith}
use openwrt_ezsp_spi.Config.{Cfg, Pins}
use openwrt_ezsp_spi.Host.{Host, ok}
use openwrt_ezsp_spi.Bridge.{Bridge}
use openwrt_ezsp_spi.Bridge.Handle.{bridge_drop_client}
use openwrt_ezsp_spi.Bridge.Loop.{Poll, events, turn}

-- Where a client is connected, and one turn both accepts another (`fd`) and finds the first hung
-- up, the hangup is charged to the new client: whatever else the turn reports, the bridge has no
-- client when it ends.
pub turn_drops_new :
    (c : Cfg) (p : Pins) (b : Bridge) (old fd : ℕ) (ev : Poll) (h : Host) {b' : Bridge} {h' : Host}
    → b.cli ≡ some old
    → ev.connect ≡ some fd
    → ev.hangup ≡ true
    → turn c p b (events ev) h ≡ ok b' h'
    → b'.cli ≡ none
unfolding turn bridge_drop_client
turn_drops_new c p b old fd ev h had new gone e = ground arith
