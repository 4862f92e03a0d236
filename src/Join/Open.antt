-- ===== src/Join/Open.antt =====
-- What the check before a join lets through (package/ezsp-spi/src/zcl.c, ezsp.c).
use openwrt_ezsp_spi.Prelude.{
  ℕ, ◌+◌, ◌*◌, ◌^◌, ◌≡◌, true, false, Option, List, get_or, bytes_at, ◌!=◌,
}
use openwrt_ezsp_spi.Config.{Cfg, Pins, ezsp_start_scan, ezsp_network_found_handler}
use openwrt_ezsp_spi.Host.{Host, ok}
use openwrt_ezsp_spi.Ezsp.{ezsp_cmd, ezsp_poll_callback, succeeded}
use openwrt_ezsp_spi.Ezsp.Scan.{Network, Found, refused, missing, found, scan_params}

-- The last callback that the process asked for is the beacon of this network.
pub record Beacon (c : Cfg) (p : Pins) (pan_id : ℕ) (net : Network) (h' : Host) : Type 0 where
  pub before : Host
  pub given : List ℕ
  pub answered : List ℕ
  pub poll : ezsp_poll_callback c p 64 given before ≡ ok (ezsp_network_found_handler, answered) h'
  pub same_pan : get_or answered 1 0 + get_or answered 2 0 * 2 ^ 8 ≡ pan_id
  pub ext : net.ext ≡ bytes_at answered 3 8
  pub allowing : net.allowing ≡ (get_or answered 11 0 != 0)
  pub nwk_update_id : net.nwk_update_id ≡ get_or answered 13 0

-- The NCP refused to scan, as the last thing that it was asked.
pub record Unscanned (c : Cfg) (p : Pins) (h' : Host) : Type 0 where
  pub before : Host
  pub answer : Option (List ℕ)
  pub asked : ezsp_cmd c p ezsp_start_scan (scan_params c.channel) 64 before ≡ ok answer h'
  pub failed : succeeded answer ≡ false

-- What is known when the search ends like this.
abbrev pub Known : Cfg → Pins → ℕ → Found → Host → Type 0
Known c p pan_id refused h' = Unscanned c p h'
Known c p pan_id missing h' = Unit
Known c p pan_id (found net) h' = Beacon c p pan_id net h'

-- What a join is given to work with: a network that was heard with permit-join open, or the
-- settings of the command line where the NCP refused to scan.
pub data IsOpen (c : Cfg) (p : Pins) (pan_id : ℕ) (target : List ℕ × ℕ) (h' : Host) : Type 0 where
  open_network :
      (net : Network)
      → Beacon c p pan_id net h'
      → net.allowing ≡ true
      → target ≡ (net.ext, net.nwk_update_id)
      → IsOpen c p pan_id target h'
  unscanned : Unscanned c p h' → target ≡ (c.ext_pan_id, 0) → IsOpen c p pan_id target h'
