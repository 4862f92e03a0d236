-- ===== src/Ash/Tests.antt =====
-- The CRC, the stuffing and the mask of bridge.c on concrete frames.
use openwrt_ezsp_spi.Prelude.{ℕ, ◌+◌, ◌*◌, ◌≡◌, ◌≢◌, ◌≤◌, List, [], ◌∷◌, ◌++◌, length, arith, All}
use openwrt_ezsp_spi.Config.{ash_flag, ash_max_frame}
use openwrt_ezsp_spi.Ash.{ash_crc, encode}
use openwrt_ezsp_spi.Ash.Detect.{ash_crc_detects}
use openwrt_ezsp_spi.Ash.Stuffing.{IsInside, encode-IsInside}

-- A NAK, an RSTACK and the frame that `callback` makes.
abbrev rstack_frame : List ℕ
rstack_frame = 0xC1 ∷ 0x02 ∷ 0x0B ∷ []

ash_crc_detects_example : ash_crc (0xC1 ∷ 0x02 ∷ 0x0B ∷ []) ≢ ash_crc (0xC1 ∷ 0x03 ∷ 0x0B ∷ [])
ash_crc_detects_example =
    ash_crc_detects (0xC1 ∷ []) (0x0B ∷ []) 0x02 0x03 (omega arith) (omega arith) (omega arith)
      (λ e. absurd (omega arith))

encode-IsInside_example :
    (inside : List ℕ) × (encode (0x7E ∷ 0x11 ∷ 0x40 ∷ []) ≡ inside ++ ash_flag ∷ [])
    × All IsInside inside
    × (length (encode (0x7E ∷ 0x11 ∷ 0x40 ∷ [])) ≤ ash_max_frame * 2 + 8)
encode-IsInside_example = encode-IsInside (0x7E ∷ 0x11 ∷ 0x40 ∷ []) (omega arith) (omega arith)
