-- ===== src/Show/Probing.antt =====
-- package/ezsp-spi/src/probe.c: `cmd_probe`; spi.c: `decode_response` and its names. The text begins
-- behind the lines that repeat the settings.
use openwrt_ezsp_spi.Prelude.{
  ℕ, suc, ◌+◌, ◌-◌, ◌%◌, true, ◌&&◌, none, some, List, [], ◌∷◌, ◌++◌, length, get_or, replicate,
  ltb, leb, bit_and, ◌==◌, if◌then◌else◌,
}
use openwrt_ezsp_spi.Config.{
  Cfg, Pins, spi_cmd_version, spi_cmd_status, spi_cmd_ezsp_frame, spi_frame_terminator,
}
use openwrt_ezsp_spi.Host.{M, pure, ◌>>=◌, ◌>>◌}
use openwrt_ezsp_spi.Text.{codes, unsigned, hex2, hex4, newline, padded, printed}
use openwrt_ezsp_spi.Spi.{spi_first_response}
use openwrt_ezsp_spi.Ncp.{ncp_reset}
use openwrt_ezsp_spi.Probe.{do_cmd}
use openwrt_ezsp_spi.Control.Status.{word}
use openwrt_ezsp_spi.Control.Commands.{Result}

unfoldable pub reset_reason : ℕ → List ℕ
reset_reason code =
    if code == 0x00
    then codes "unknown"
    else if code == 0x01
    then codes "external"
    else if code == 0x02
    then codes "power on"
    else if code == 0x03
    then codes "watchdog"
    else if code == 0x04
    then codes "assert"
    else if code == 0x05
    then codes "bootloader"
    else if code == 0x06
    then codes "software"
    else if code == 0x0B
    then codes "SOFTWARE (extended code)"
    else codes "unrecognised"

unfoldable pub spi_error_name : ℕ → List ℕ
spi_error_name code =
    if code == 0x00
    then codes "reset occurred"
    else if code == 0x01
    then codes "oversized EZSP frame"
    else if code == 0x02
    then codes "aborted transaction"
    else if code == 0x03
    then codes "missing frame terminator"
    else if code == 0x04
    then codes "unsupported SPI command"
    else codes "unknown error"

-- "-- reset info %u (%s)", for a reset notice.
unfoldable pub reset_info : ℕ → ℕ → List ℕ
unfolding reset_reason printed
reset_info b info =
    if b == 0x00
    then printed
        (codes " -- reset info " ∷ unsigned info ∷ codes " (" ∷ reset_reason info ∷ codes ")" ∷ [])
    else []

-- What is said of the first byte `b` and the byte behind it.
unfoldable pub decoded : ℕ → ℕ → List ℕ
unfolding spi_error_name reset_info printed
decoded b next =
    if b == 0xFE
    then printed (codes "EZSP frame, " ∷ unsigned next ∷ codes " bytes" ∷ newline ∷ [])
    else if bit_and b 0xC0 == 0x80
    then printed (
        codes "SPI protocol version "
        ∷ unsigned (bit_and b 0x3F)
        ∷ codes " (0x"
        ∷ hex2 b
        ∷ codes ")"
        ∷ (if b == 0x82 then codes " -- expected" else [])
        ∷ newline
        ∷ [])
    else if bit_and b 0xFE == 0xC0
    then printed (
        codes "SPI status 0x"
        ∷ hex2 b
        ∷ codes " -- NCP "
        ∷ (if b % 2 == 1 then codes "alive and ready" else codes "NOT ready")
        ∷ newline
        ∷ [])
    else if leb b 0x04
    then printed (
        codes "error 0x"
        ∷ hex2 b
        ∷ codes ": "
        ∷ spi_error_name b
        ∷ reset_info b next
        ∷ newline
        ∷ [])
    else printed (codes "unrecognised response 0x" ∷ hex2 b ∷ newline ∷ [])

-- The text for a buffer; the byte behind its end counts as 0.
unfoldable pub decode_response : List ℕ → List ℕ → List ℕ
unfolding decoded padded printed
decode_response rx what = elim (spi_first_response rx) [
  | none ↦ printed (
      codes "  "
      ∷ padded 22 what
      ∷ codes " no response (bus idle, all 0x"
      ∷ hex2 0xFF
      ∷ codes ")"
      ∷ newline
      ∷ [])
  | some i ↦
      printed (
        codes "  "
        ∷ padded 22 what
        ∷ codes " "
        ∷ decoded (get_or rx i 0) (get_or rx (suc i) 0)
        ∷ [])
]

-- The 512 bytes of `rx`: what was received, and the zeros that spi_txn_framed starts with.
unfoldable pub whole : List ℕ → List ℕ
whole rx = rx ++ replicate (512 - length rx) 0

-- The answer to the version command.
unfoldable pub version_text : List ℕ → List ℕ
unfolding decode_response printed
version_text rx = elim (spi_first_response rx) [
  | none ↦ decode_response rx (codes "ezsp version")
  | some i ↦
      if get_or rx i 0 == 0xFE && ltb (i + 6) (length rx)
      then printed (
          codes "  EZSP protocol version "
          ∷ unsigned (get_or rx (i + 5) 0)
          ∷ newline
          ∷ codes "  stack type            "
          ∷ unsigned (get_or rx (i + 6) 0)
          ∷ newline
          ∷ codes "  stack version         0x"
          ∷ hex4 (word rx (i + 7))
          ∷ newline
          ∷ [])
      else decode_response rx (codes "ezsp version")
]

unfoldable pub cmd_probe : Cfg → Pins → M Result
unfolding decode_response version_text whole printed
cmd_probe c p = do
  if c.no_reset then pure tt else ncp_reset p
  version ← do_cmd c p (spi_cmd_version ∷ spi_frame_terminator ∷ []) 512 true
  status ← do_cmd c p (spi_cmd_status ∷ spi_frame_terminator ∷ []) 512 true
  r ←
      do_cmd c p (spi_cmd_ezsp_frame ∷ 0x04 ∷ 0x00 ∷ 0x00 ∷ 0x00 ∷ 0x04 ∷ spi_frame_terminator ∷ [])
        512 true
  pure (
    0,
    printed (
        newline
        ∷ codes "SPI protocol version query:"
        ∷ newline
        ∷ decode_response (whole (version.1)) (codes "version")
        ∷ newline
        ∷ codes "SPI status query:"
        ∷ newline
        ∷ decode_response (whole (status.1)) (codes "status")
        ∷ newline
        ∷ codes "EZSP version command:"
        ∷ newline
        ∷ version_text (whole (r.1))
        ∷ newline
        ∷ []),
  )
