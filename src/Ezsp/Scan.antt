-- ===== src/Ezsp/Scan.antt =====
-- package/ezsp-spi/src/ezsp.c: `scan_find`, the search for a network on one channel.
use openwrt_ezsp_spi.Prelude.{
  ℕ, zero, suc, ◌+◌, ◌*◌, ◌/◌, ◌%◌, ◌^◌, Bool, not, none, some, List, [], ◌∷◌, get_or, bytes_at,
  ◌==◌, ◌!=◌, if◌then◌else◌,
}
use openwrt_ezsp_spi.Config.{
  Cfg, Pins, ezsp_start_scan, ezsp_network_found_handler, ezsp_scan_complete_handler,
  ezsp_active_scan,
}
use openwrt_ezsp_spi.Host.{M, pure, ◌>>=◌, ◌>>◌, usleep}
use openwrt_ezsp_spi.Ezsp.{ezsp_cmd, succeeded, ezsp_poll_callback, overlay}

-- `ext`, `allowing` and `nwk_update_id`.
pub record Network : Type 0 where
  pub ext : List ℕ
  pub allowing : Bool
  pub nwk_update_id : ℕ

-- -1, 0 and 1.
pub data Found : Type 0 where
  refused missing : Found
  found : Network → Found

-- What a callback says to the loop.
pub data Heard : Type 0 where
  this : Network → Heard
  complete nothing : Heard

unfoldable pub heard : ℕ → ℕ → List ℕ → Heard
heard pan_id id out =
    if id == ezsp_network_found_handler
    then (if get_or out 1 0 + get_or out 2 0 * 2 ^ 8 != pan_id
        then nothing
        else this (record {
          ext = bytes_at out 3 8;
          allowing = get_or out 11 0 != 0;
          nwk_update_id = get_or out 13 0;
        }))
    else if id == ezsp_scan_complete_handler
    then complete
    else nothing

-- The loop of `scan_find` with the rounds left.
unfoldable pub scan_from : ℕ → Cfg → Pins → ℕ → List ℕ → M Found
unfolding heard
scan_from zero c p pan_id out = pure missing
scan_from (suc n) c p pan_id out = do
  usleep 250000
  (id, out') ← ezsp_poll_callback c p 64 out
  elim (heard pan_id id out') [
    | this net ↦ pure (found net)
    | complete ↦ pure missing
    | nothing ↦ scan_from n c p pan_id out'
  ]

-- `1u << channel`, least significant byte first, for a channel below 32 (C has no other shift).
unfoldable pub scan_params : ℕ → List ℕ
scan_params channel =
    let mask = 2 ^ channel % 2 ^ 32 in
    ezsp_active_scan
    ∷ mask % 256
    ∷ mask / 2 ^ 8 % 256
    ∷ mask / 2 ^ 16 % 256
    ∷ mask / 2 ^ 24 % 256
    ∷ 3
    ∷ []

-- `out`: the 64 bytes of the buffer when the scan starts.
unfoldable pub scan_find : Cfg → Pins → ℕ → ℕ → List ℕ → M Found
unfolding scan_params scan_from
scan_find c p channel pan_id out = do
  r ← ezsp_cmd c p ezsp_start_scan (scan_params channel) 64
  elim r [
    | none ↦ pure refused
    | some payload ↦
        if not (succeeded (some payload))
        then pure refused
        else scan_from 80 c p pan_id (overlay payload out)
  ]
