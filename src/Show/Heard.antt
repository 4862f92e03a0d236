-- ===== src/Show/Heard.antt =====
-- package/ezsp-spi/src/ezsp.c: `cmd_scan`.
use openwrt_ezsp_spi.Prelude.{
  ℕ, zero, suc, ◌+◌, ◌/◌, ◌%◌, ◌^◌, not, List, [], ◌∷◌, ◌++◌, get_or, bytes_at, ◌!=◌, ◌==◌,
  if◌then◌else◌,
}
use openwrt_ezsp_spi.Config.{
  Cfg, Pins, ember_success, ezsp_active_scan, ezsp_start_scan, ezsp_network_found_handler,
  ezsp_scan_complete_handler,
}
use openwrt_ezsp_spi.Host.{M, pure, ◌>>=◌, ◌>>◌, usleep}
use openwrt_ezsp_spi.Text.{
  codes, unsigned, signed, hex2, hex4, hex8, colon_line, newline, printed, ember_status_name,
}
use openwrt_ezsp_spi.Ezsp.{ezsp_cmd, ezsp_poll_callback, succeeded, status_text}
use openwrt_ezsp_spi.Join.{bring_up, stored}
use openwrt_ezsp_spi.Control.Status.{word, int8}
use openwrt_ezsp_spi.Control.Commands.{Result}

-- One channel (below 32: C has no other shift), or all from 11 to 26.
unfoldable pub scan_mask : Cfg → ℕ
scan_mask c = if c.channel != 0 then 2 ^ c.channel % 2 ^ 32 else 0x07FFF800

unfoldable pub all_scan_params : ℕ → List ℕ
all_scan_params mask =
    ezsp_active_scan
    ∷ mask % 256
    ∷ mask / 2 ^ 8 % 256
    ∷ mask / 2 ^ 16 % 256
    ∷ mask / 2 ^ 24 % 256
    ∷ 4
    ∷ []

unfoldable pub network_text : List ℕ → List ℕ
unfolding printed
network_text out = printed (
    codes "  network on channel "
    ∷ unsigned (get_or out 0 0)
    ∷ newline
    ∷ codes "    pan id          0x"
    ∷ hex4 (word out 1)
    ∷ newline
    ∷ codes "    ext pan id      "
    ∷ colon_line (bytes_at out 3 8)
    ∷ codes "    allowing join   "
    ∷ (if get_or out 11 0 != 0 then codes "YES" else codes "no")
    ∷ newline
    ∷ codes "    stack profile   "
    ∷ unsigned (get_or out 12 0)
    ∷ newline
    ∷ codes "    lqi / rssi      "
    ∷ unsigned (get_or out 14 0)
    ∷ codes " / "
    ∷ signed (int8 (get_or out 15 0))
    ∷ codes " dBm"
    ∷ newline
    ∷ newline
    ∷ [])

unfoldable pub complete_text : ℕ → List ℕ → List ℕ
unfolding printed
complete_text count out =
    if get_or out 1 0 == ember_success
    then printed
        (codes "  scan complete: " ∷ unsigned count ∷ codes " network(s) found" ∷ newline ∷ [])
    else printed (
        codes "  scan failed on channel "
        ∷ unsigned (get_or out 0 0)
        ∷ codes " (0x"
        ∷ hex2 (get_or out 1 0)
        ∷ codes " "
        ∷ ember_status_name (get_or out 1 0)
        ∷ codes ")"
        ∷ newline
        ∷ [])

-- The loop with the rounds left: the networks counted so far and the text.
unfoldable pub scan_loop : ℕ → Cfg → Pins → ℕ → List ℕ → List ℕ → M (ℕ × List ℕ)
unfolding network_text complete_text
scan_loop zero c p count text out = pure (count, text)
scan_loop (suc n) c p count text out = do
  usleep 250000
  (id, out') ← ezsp_poll_callback c p 64 out
  let another = scan_loop n c p (count + 1) (text ++ network_text out') out'
  let nothing = scan_loop n c p count text out'
  if id == ezsp_network_found_handler
      then another
      else if id == ezsp_scan_complete_handler
      then pure (count, text ++ complete_text count out')
      else nothing

-- The exit status and the end of the text.
unfoldable pub scan_result : ℕ × List ℕ → Result
unfolding printed
scan_result (count, text) =
    if count == 0
    then (
      1,
      printed (
          text
          ∷ codes "  nothing heard -- wrong channel, out of range, or the antenna is not connected"
          ∷ newline
          ∷ []),
    )
    else (0, text)

unfoldable pub scan_title : Cfg → List ℕ
unfolding scan_mask hex8 printed
scan_title c =
    printed (
      codes "ezsp-spi scan (active, channel mask 0x"
      ∷ hex8 (scan_mask c)
      ∷ codes ")"
      ∷ newline
      ∷ [])

-- `out` is the command's buffer of 64 bytes, whatever it holds when the command starts.
unfoldable pub cmd_scan : Cfg → Pins → List ℕ → M Result
unfolding scan_title all_scan_params scan_loop scan_result stored printed
cmd_scan c p out = do
  ready ← bring_up c p
  if not ready then pure (1, scan_title c) else (do
    r ← ezsp_cmd c p ezsp_start_scan (all_scan_params (scan_mask c)) 64
    if not (succeeded r)
        then pure (1, printed (scan_title c ∷ codes "  startScan failed " ∷ status_text r ∷ []))
        else (do
          heard ←
              scan_loop 240 c p 0
                (printed (scan_title c ∷ codes "  scanning..." ∷ newline ∷ newline ∷ []))
                (stored r out)
          pure (scan_result heard)))
