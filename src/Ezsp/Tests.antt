-- ===== src/Ezsp/Tests.antt =====
-- EZSP frames and commands on concrete versions, parameters and answers.
use openwrt_ezsp_spi.Prelude.{◌≡◌, some, [], ◌∷◌, arith}
use openwrt_ezsp_spi.Config.{ezsp_callback}
use openwrt_ezsp_spi.Host.{Host}
use openwrt_ezsp_spi.Host.Run.{Ensures, memory}
use openwrt_ezsp_spi.Fixtures.{host_of, quick, own_pins}
use openwrt_ezsp_spi.Bridge.Relay.{wrapped, callback_frame}
use openwrt_ezsp_spi.Ezsp.{xfer_frame, reply_of, ezsp_init, ezsp_cmd}
use openwrt_ezsp_spi.Ezsp.Frames.{xfer_frame-callback, reply_of-xfer_frame}
use openwrt_ezsp_spi.Ezsp.Negotiate.{IsSettled, ezsp_init-IsSettled}
use openwrt_ezsp_spi.Ezsp.Memory.{after_one, ezsp_cmd-after_one}

xfer_frame-callback_example : xfer_frame 8 3 ezsp_callback [] ≡ wrapped (callback_frame 8 3)
xfer_frame-callback_example = xfer_frame-callback 8 3

reply_of-xfer_frame_example :
    reply_of 5 2 (xfer_frame 5 0 0x52 (0x00 ∷ 0x02 ∷ 0x00 ∷ [])) ≡ some (0x52, 0x00 ∷ 0x02 ∷ [])
reply_of-xfer_frame_example = reply_of-xfer_frame 5 2 0 0x52 (0x00 ∷ 0x02 ∷ 0x00 ∷ []) (omega arith)

-- The answer to `version` of an NCP that speaks v4, behind four idle bytes for the command.
abbrev v4_ncp : Host
v4_ncp = host_of (
    0xFF ∷ 0xFF ∷ 0xFF ∷ 0xFF ∷ 0xFF ∷ 0xFF ∷ 0xFF ∷ 0xFE ∷ 0x07 ∷ 0x00 ∷ 0x80 ∷ 0x00 ∷ 0x04 ∷ 0x02
    ∷ 0x10 ∷ 0x58 ∷ 0xA7 ∷ [])

ezsp_init-IsSettled_example : Ensures IsSettled (ezsp_init quick own_pins v4_ncp)
ezsp_init-IsSettled_example = ezsp_init-IsSettled quick own_pins v4_ncp

ezsp_cmd-after_one_example :
    Ensures
      (λ _ h'. memory h' ≡ after_one (memory v4_ncp))
      (ezsp_cmd quick own_pins 0x00 (0x04 ∷ []) 8 v4_ncp)
ezsp_cmd-after_one_example = ezsp_cmd-after_one quick own_pins 0x00 (0x04 ∷ []) 8 v4_ncp
