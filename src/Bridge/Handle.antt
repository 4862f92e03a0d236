-- ===== src/Bridge/Handle.antt =====
-- package/ezsp-spi/src/bridge.c: what the bridge does with bytes and frames of its client.
use openwrt_ezsp_spi.Prelude.{
  ℕ, ◌+◌, ◌-◌, ◌*◌, ◌/◌, ◌%◌, ◌^◌, Bool, true, false, ◌&&◌, ◌||◌, not, Option, none, some, is_some,
  List, [], ◌∷◌, ◌++◌, length, get_or, take, ltb, leb, ◌==◌, bit_and, bit_xor, if◌then◌else◌,
}
use openwrt_ezsp_spi.Config.{
  Cfg, Pins, ezsp_version_id, ash_flag, ash_esc, ash_xon, ash_xoff, ash_sub, ash_cancel,
  ash_ctrl_rst, ash_ctrl_rstack, ash_max_frame, ash_reset_software,
}
use openwrt_ezsp_spi.Host.{M, pure, ◌>>=◌, ◌>>◌}
use openwrt_ezsp_spi.Ncp.{ncp_reset}
use openwrt_ezsp_spi.Ash.{ash_crc, mask}
use openwrt_ezsp_spi.Bridge.{
  Bridge, no_frames, ash_send, ash_send_ack, ash_send_data, ash_retransmit,
}
use openwrt_ezsp_spi.Bridge.Relay.{ezsp_relay, ezsp_layout, bridge_drain_callbacks}

abbrev pub rstack : List ℕ
rstack = ash_ctrl_rstack ∷ 0x02 ∷ ash_reset_software ∷ []

-- The session from the start, before `ready` is set.
abbrev pub cleared : Bridge → Bridge
cleared b = record b { frm = 0; ack = 0; ver = 4; unacked = no_frames }

unfoldable pub bridge_reset : Pins → Bridge → M Bridge
bridge_reset p b = do
  ncp_reset p
  whole ← ash_send (cleared b) rstack
  pure (record (cleared b) { ready = true; negotiated = false })

-- The version that command and reply agree on, if they do.
unfoldable pub agreed : ℕ → List ℕ → List ℕ → Option ℕ
agreed ver ezsp resp =
    let (hdr, id_off) = ezsp_layout ver in
    if ltb id_off (length ezsp) && get_or ezsp id_off 0 == ezsp_version_id && ltb hdr (length resp)
    then (if leb 4 (get_or resp hdr 0) && leb (get_or resp hdr 0) 13
        then some (get_or resp hdr 0)
        else none)
    else none

unfoldable pub adopt : Bridge → Option ℕ → Bridge
adopt b none = b
adopt b (some neg) = record b { ver = neg; negotiated = true }

-- `rlen <= 0` covers -1 and a reply with no bytes.
unfoldable pub answer : Cfg → Pins → Bridge → List ℕ → Option (List ℕ) → M Bridge
unfolding agreed adopt
answer c p b ezsp none = pure b
answer c p b ezsp (some []) = pure b
answer c p b ezsp (some (r ∷ rs)) = do
  b' ← ash_send_data (adopt b (agreed b.ver ezsp (r ∷ rs))) (r ∷ rs)
  bridge_drain_callbacks c p b'

unfoldable pub next_ack : ℕ → ℕ
next_ack ctrl = (ctrl / 2 ^ 4 % 8 + 1) % 8

-- A DATA frame: acknowledged, relayed, answered.
unfoldable pub handle_data : Cfg → Pins → Bridge → ℕ → List ℕ → M Bridge
unfolding next_ack answer
handle_data c p b ctrl masked =
    if length masked == 0 || ltb ash_max_frame (length masked) then pure b else (do
      ash_send_ack (record b { ack = next_ack ctrl })
      reply ← ezsp_relay c p (mask 0 masked) ash_max_frame
      answer c p (record b { ack = next_ack ctrl }) (mask 0 masked) reply)

unfoldable pub handle_ctrl : Cfg → Pins → Bridge → ℕ → List ℕ → M Bridge
unfolding handle_data
handle_ctrl c p b ctrl masked =
    if ctrl == ash_ctrl_rst
    then bridge_reset p b
    else if bit_and ctrl 0xE0 == 0x80
    then pure b
    else if bit_and ctrl 0xE0 == 0xA0
    then (do ended ← ash_retransmit b (ctrl % 8); pure b)
    else if leb 0x80 ctrl
    then pure b
    else if not b.ready
    then pure b
    else handle_data c p b ctrl masked

-- The frame is never empty: `bridge_feed` passes one byte or more.
unfoldable pub bridge_handle_frame : Cfg → Pins → Bridge → List ℕ → M Bridge
unfolding handle_ctrl
bridge_handle_frame c p b [] = pure b
bridge_handle_frame c p b (ctrl ∷ masked) = handle_ctrl c p b ctrl masked

abbrev pub rx_size : ℕ
rx_size = ash_max_frame * 2

-- `want`: the last two bytes.
unfoldable pub crc_matches : List ℕ → Bool
crc_matches rx =
    ash_crc (take (length rx - 2) rx)
    == get_or rx (length rx - 2) 0 * 2 ^ 8 + get_or rx (length rx - 1) 0

abbrev pub resync : Bridge → Bridge
resync b = record b { rx = []; esc = false }

unfoldable pub feed_flag : Cfg → Pins → Bridge → M Bridge
unfolding crc_matches
feed_flag c p b =
    if leb 3 (length b.rx) && crc_matches b.rx
    then (do b' ← bridge_handle_frame c p b (take (length b.rx - 2) b.rx); pure (resync b'))
    else pure (resync b)

unfoldable pub store_byte : Bridge → ℕ → Bridge
store_byte b x =
    if ltb (length b.rx) rx_size
    then record b { rx = b.rx ++ x ∷ []; esc = false }
    else record b { rx = []; esc = false }

unfoldable pub feed_byte : Cfg → Pins → Bridge → ℕ → M Bridge
unfolding store_byte feed_flag
feed_byte c p b x =
    if x == ash_xon || x == ash_xoff
    then pure b
    else if x == ash_cancel
    then pure (resync b)
    else if x == ash_sub
    then pure (record b { rx = []; esc = true })
    else if x == ash_esc
    then pure (record b { esc = true })
    else if x == ash_flag
    then feed_flag c p b
    else pure (store_byte b (if b.esc then bit_xor x 0x20 else x))

unfoldable pub bridge_feed : Cfg → Pins → Bridge → List ℕ → M Bridge
bridge_feed c p b [] = pure b
bridge_feed c p b (x ∷ xs) = do b' ← feed_byte c p b x; bridge_feed c p b' xs

unfoldable pub bridge_drop_client : Bridge → Bridge
bridge_drop_client b = if is_some b.cli then record b { cli = none; rx = []; esc = false } else b
