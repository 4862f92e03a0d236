-- ===== src/Control/Tests.antt =====
-- --ext-pan-id, the control socket and `verify` on concrete texts (package/ezsp-spi/src/control.c).
use openwrt_ezsp_spi.Prelude.{
  ℕ, ◌++◌, true, false, replicate, ◌≡◌, refl, none, some, List, [], ◌∷◌, arith, IsBytes,
}
use openwrt_ezsp_spi.Config.{Cfg}
use openwrt_ezsp_spi.Host.{Host, ok, ioctl, gpio_set, spi_raw}
use openwrt_ezsp_spi.Host.Run.{Ensures}
use openwrt_ezsp_spi.Text.{colon_line, codes, signed, digits}
use openwrt_ezsp_spi.Fixtures.{host_of, host_after, quick, own_pins, after_idle}
use openwrt_ezsp_spi.Spi.{
  cs_assert, cs_release, send_command, wait_states, spi_byte, collect, response_head, finish,
  clamp_remain, spi_first_response, spi_txn_framed,
}
use openwrt_ezsp_spi.Probe.{do_cmd, attempt, prepare, classify, class_of, is_reset, is_ezsp}
use openwrt_ezsp_spi.Ezsp.{
  ezsp_init, ask_version, set_version, reported, settle, ezsp_cmd, payload_of, ezsp_xfer, next_seq,
  xfer_frame, header, header_layout, reply_of,
}
use openwrt_ezsp_spi.Join.{bring_up}
use openwrt_ezsp_spi.Control.{parse_ext_pan_id}
use openwrt_ezsp_spi.Control.Serve.{
  Longs, request_of, first_line, power, power_request, control_accept,
}
use openwrt_ezsp_spi.Control.Fits.{Fits, control_accept-Fits}
use openwrt_ezsp_spi.Control.Shown.{parse_ext_pan_id-colon_line}
use openwrt_ezsp_spi.Control.Commands.{cmd_verify, verify_chip, is_ebl, chip_matches, ebl_sig}
use openwrt_ezsp_spi.Control.Verify.{IsSafe, cmd_verify-IsSafe}

abbrev pan_id : List ℕ
pan_id = 0xAA ∷ 0xBB ∷ 0xCC ∷ 0xDD ∷ 0xEE ∷ 0xFF ∷ 0x00 ∷ 0x11 ∷ []

-- "[1, 2,3,4,5,6,7,255]"
abbrev decimal : List ℕ
decimal =
    91 ∷ 49 ∷ 44 ∷ 32 ∷ 50 ∷ 44 ∷ 51 ∷ 44 ∷ 52 ∷ 44 ∷ 53 ∷ 44 ∷ 54 ∷ 44 ∷ 55 ∷ 44 ∷ 50 ∷ 53 ∷ 53
    ∷ 93 ∷ []

abbrev numbers : List ℕ
numbers = 1 ∷ 2 ∷ 3 ∷ 4 ∷ 5 ∷ 6 ∷ 7 ∷ 255 ∷ []

decimal_run : parse_ext_pan_id 0xFFFFFFFF decimal ≡ some numbers
unfolding parse_ext_pan_id
decimal_run = refl

-- "1,2,-3"
negative_run : parse_ext_pan_id 0xFFFFFFFF (49 ∷ 44 ∷ 50 ∷ 44 ∷ 45 ∷ 51 ∷ []) ≡ none
unfolding parse_ext_pan_id
negative_run = refl

pan_id-IsBytes : IsBytes pan_id
pan_id-IsBytes = ground arith

abbrev longs : Longs
longs = record { ulong_max = 0xFFFFFFFF; long_max = 0x7FFFFFFF }

parse_ext_pan_id-colon_line_example :
    parse_ext_pan_id 0xFFFFFFFF (first_line (colon_line pan_id)) ≡ some pan_id
parse_ext_pan_id-colon_line_example =
    parse_ext_pan_id-colon_line 0xFFFFFFFF pan_id (omega arith) pan_id-IsBytes refl

-- "power -4": the bits of -4.
power_run : request_of longs (first_line (power_request 0xFFFFFFFC)) ≡ power 0xFFFFFFFC
unfolding request_of power_request first_line signed digits
power_run = refl

control_accept-Fits_example :
    Ensures
      (Fits 1024)
      (control_accept longs quick own_pins (some 12) (codes "neighbors") (host_of []))
control_accept-Fits_example =
    control_accept-Fits longs quick own_pins (some 12) (codes "neighbors") (host_of [])

-- The header of an image for platform 2, micro 3 and phy 4, and an NCP that is one.
abbrev image : List ℕ
image = replicate 4 0 ++ (ebl_sig ++ (replicate 32 0 ++ (2 ∷ 3 ∷ 4 ∷ replicate 21 0)))

abbrev calm : Cfg
calm = record quick { no_reset = true; wake_handshake = false }

abbrev chip : Host
chip = host_of (
    after_idle 7 (0xFE ∷ 0x07 ∷ 0x00 ∷ 0x80 ∷ 0x00 ∷ 0x04 ∷ 0x02 ∷ 0x10 ∷ 0x58 ∷ 0xA7 ∷ [])
    ++ after_idle 6
        (0xFE ∷ 0x08 ∷ 0x01 ∷ 0x80 ∷ 0x91 ∷ 0x00 ∷ 0x54 ∷ 0x02 ∷ 0x03 ∷ 0x04 ∷ 0xA7 ∷ []))

verify_run :
    cmd_verify calm own_pins (some image) chip
    ≡ ok true (host_after (cmd_verify calm own_pins (some image) chip))
unfolding cmd_verify verify_chip is_ebl chip_matches ezsp_init ask_version set_version reported
    settle ezsp_cmd payload_of ezsp_xfer next_seq xfer_frame header header_layout reply_of do_cmd
    attempt prepare classify class_of is_reset is_ezsp spi_first_response spi_txn_framed cs_assert
    cs_release send_command wait_states spi_byte collect response_head finish clamp_remain spi_raw
    gpio_set ioctl bring_up
verify_run = refl

cmd_verify-IsSafe_example :
    IsSafe calm own_pins (some image) (host_after (cmd_verify calm own_pins (some image) chip))
cmd_verify-IsSafe_example = cmd_verify-IsSafe calm own_pins (some image) chip verify_run
