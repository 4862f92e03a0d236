-- ===== src/Ezsp.antt =====
-- package/ezsp-spi/src/ezsp.c: EZSP commands to the NCP, and zcl.c's radio power.
-- What only is printed is left out. A result is a list of the bytes that were stored at `payload`,
-- `none` is -1; a buffer that a later call finds unchanged is passed on as `out`.
pub mod Frames
pub mod Memory
pub mod Lives
pub mod Fed
pub mod Negotiate
pub mod Scan
pub mod Tests
use openwrt_ezsp_spi.Prelude.{
  ℕ, zero, suc, ◌+◌, ◌-◌, ◌*◌, ◌/◌, ◌%◌, ◌^◌, ◌<◌, min, Bool, true, false, ◌&&◌, ◌||◌, not, Option,
  none, some, List, [], ◌∷◌, ◌++◌, length, get_or, drop, bytes_at, ltb, leb, ◌==◌, ◌!=◌,
  if◌then◌else◌,
}
use openwrt_ezsp_spi.Text.{codes, hex2, unsigned, signed, newline, ember_status_name}
use openwrt_ezsp_spi.Config.{
  Cfg, Pins, spi_cmd_ezsp_frame, spi_frame_terminator, ezsp_version_id, ezsp_callback,
  ezsp_no_callbacks, ezsp_permit_joining, ezsp_set_configuration_value, ezsp_set_radio_power,
  ember_success,
}
use openwrt_ezsp_spi.Host.{Host, ok, died, M, pure, ◌>>=◌, ◌>>◌, usleep}
use openwrt_ezsp_spi.Ncp.{ncp_reset}
use openwrt_ezsp_spi.Probe.{is_ezsp, do_cmd}

-- `hdr` and `id_off` of a version.
unfoldable pub header_layout : ℕ → ℕ × ℕ
header_layout ver = if leb 8 ver then (5, 3) else if leb 5 ver then (5, 4) else (3, 2)

-- What stands between the sequence number and the parameters.
unfoldable pub header : ℕ → ℕ → List ℕ
header ver id =
    if leb 8 ver
    then 0x00 ∷ 0x01 ∷ id ∷ 0x00 ∷ []
    else if leb 5 ver
    then 0x00 ∷ 0xFF ∷ 0x00 ∷ id ∷ []
    else 0x00 ∷ id ∷ []

-- `tx` of `ezsp_xfer`.
unfoldable pub xfer_frame : ℕ → ℕ → ℕ → List ℕ → List ℕ
unfolding header header_layout
xfer_frame ver seq id params =
    spi_cmd_ezsp_frame ∷ (length params + (header_layout ver).0) % 256 ∷ seq ∷ header ver id
    ++ (params ++ spi_frame_terminator ∷ [])

-- The frame id and the payload in `rx`.
unfoldable pub reply_of : ℕ → ℕ → List ℕ → Option (ℕ × List ℕ)
unfolding header_layout
reply_of ver max rx =
    let (hdr, id_off) = header_layout ver in
    if ltb (get_or rx 1 0) hdr
    then none
    else some (get_or rx (2 + id_off) 0, bytes_at rx (2 + hdr) (min (get_or rx 1 0 - hdr) max))

-- `seq++`, and the version that the header is for.
unfoldable pub next_seq : M (ℕ × ℕ)
next_seq h = ok (h.seq, h.ezsp_version) (record h { seq = (h.seq + 1) % 256 })

unfoldable pub ezsp_xfer : Cfg → Pins → ℕ → List ℕ → ℕ → M (Option (ℕ × List ℕ))
unfolding xfer_frame reply_of next_seq
ezsp_xfer c p id params max = if ltb 160 (length params + 5) then (λ h. died) else (do
  (seq, ver) ← next_seq
  (cls, rx) ← do_cmd c p (xfer_frame ver seq id params) 260 true
  pure (if is_ezsp cls then reply_of ver max rx else none))

-- The id is only printed when it is not the one asked for.
unfoldable pub payload_of : Option (ℕ × List ℕ) → Option (List ℕ)
payload_of none = none
payload_of (some (got, payload)) = some payload

unfoldable pub ezsp_cmd : Cfg → Pins → ℕ → List ℕ → ℕ → M (Option (List ℕ))
unfolding payload_of
ezsp_cmd c p id params max = do r ← ezsp_xfer c p id params max; pure (payload_of r)

-- `n >= 1 && out[0] == EMBER_SUCCESS`
unfoldable pub succeeded : Option (List ℕ) → Bool
succeeded none = false
succeeded (some []) = false
succeeded (some (s ∷ rest)) = s == ember_success

unfoldable pub set_version : ℕ → M (Unit {0})
set_version v h = ok tt (record h { ezsp_version = v })

-- `out[0]` of a reply of three bytes or more to `version`.
unfoldable pub reported : Option (List ℕ) → Option ℕ
reported none = none
reported (some out) = if ltb (length out) 3 then none else some (get_or out 0 0)

-- `version` in the layout of v4.
unfoldable pub ask_version : Cfg → Pins → ℕ → M (Option ℕ)
unfolding set_version reported
ask_version c p want = do
  set_version 4
  r ← ezsp_cmd c p ezsp_version_id (want ∷ []) 8
  pure (reported r)

-- The version that is spoken from here on, unless it is newer than this program.
unfoldable pub settle : ℕ → M (Option ℕ)
settle v = do set_version v; pure (if ltb 8 v then none else some v)

unfoldable pub ask_again : Cfg → Pins → ℕ → M (Option ℕ)
unfolding ask_version settle
ask_again c p want = do
  ncp_reset p
  r ← ask_version c p want
  elim r [ none ↦ pure none | some got ↦ if got != want then pure none else settle got ]

unfoldable pub ezsp_init : Cfg → Pins → M (Option ℕ)
unfolding ask_again
ezsp_init c p = do
  r ← ask_version c p (c.ezsp_want % 256)
  elim r [
    | none ↦ pure none
    | some got ↦ if got != c.ezsp_want % 256 then ask_again c p got else settle got
  ]

-- `n >= 1 ? out[0] : 0xFF`
unfoldable pub status_of : Option (List ℕ) → ℕ
status_of none = 0xFF
status_of (some []) = 0xFF
status_of (some (s ∷ rest)) = s

-- "(status 0x%02X %s)\n"
unfoldable pub status_text : Option (List ℕ) → List ℕ
unfolding status_of
status_text r =
    codes "(status 0x"
    ++ (hex2 (status_of r)
        ++ (codes " " ++ (ember_status_name (status_of r) ++ (codes ")" ++ newline))))

unfoldable pub window_of : ℕ → ℕ
window_of seconds = if ltb 254 seconds then 254 else seconds

unfoldable pub permit_text : ℕ → Option (List ℕ) → List ℕ
unfolding status_text
permit_text window r =
    if succeeded r
    then codes "permit: open for " ++ (unsigned window ++ (codes " s" ++ newline))
    else codes "permit: failed " ++ status_text r

-- Whether the window was opened (`false` is -1), and `msg`.
unfoldable pub ezsp_permit : Cfg → Pins → ℕ → M (Bool × List ℕ)
unfolding succeeded window_of permit_text
ezsp_permit c p seconds = do
  r ← ezsp_cmd c p ezsp_permit_joining (window_of seconds ∷ []) 8
  pure (succeeded r, permit_text (window_of seconds) r)

unfoldable pub power_text : ℕ → Option (List ℕ) → List ℕ
unfolding status_text
power_text dbm r =
    if succeeded r
    then codes "power: set to " ++ (signed dbm ++ (codes " dBm" ++ newline))
    else codes "power: " ++ (signed dbm ++ (codes " dBm refused " ++ status_text r))

-- `dbm` as the 32 bits of the `int`.
unfoldable pub ezsp_set_power : Cfg → Pins → ℕ → M (Bool × List ℕ)
unfolding succeeded power_text
ezsp_set_power c p dbm = do
  r ← ezsp_cmd c p ezsp_set_radio_power (dbm % 256 ∷ []) 8
  pure (succeeded r, power_text dbm r)

-- Both numbers below their C types' bounds.
unfoldable pub ezsp_set_config : Cfg → Pins → ℕ → ℕ → M Bool
unfolding succeeded
ezsp_set_config c p id value = do
  r ← ezsp_cmd c p ezsp_set_configuration_value (id ∷ value % 256 ∷ value / 256 % 256 ∷ []) 4
  pure (succeeded r)

-- A buffer behind `memcpy` of a payload to its start.
abbrev pub overlay : List ℕ → List ℕ → List ℕ
overlay payload out = payload ++ drop (length payload) out

-- The id of a callback, 0 for none, and `payload` behind the call.
unfoldable pub callback_id : Option (ℕ × List ℕ) → List ℕ → ℕ × List ℕ
callback_id none out = (0, out)
callback_id (some (id, payload)) out =
    (if id == ezsp_no_callbacks then 0 else id, overlay payload out)

unfoldable pub ezsp_poll_callback : Cfg → Pins → ℕ → List ℕ → M (ℕ × List ℕ)
unfolding callback_id
ezsp_poll_callback c p max out = do r ← ezsp_xfer c p ezsp_callback [] max; pure (callback_id r out)
