-- ===== src/Spi/Tests.antt =====
-- Transactions of spi.c on concrete answers of the NCP.
use openwrt_ezsp_spi.Prelude.{
  ℕ, ◌≡◌, ◌≤◌, refl, none, false, List, [], ◌∷◌, ◌++◌, length, arith, All,
}
use openwrt_ezsp_spi.Host.{Host, ok, drive, gpio_set, ioctl, spi_raw, Action}
use openwrt_ezsp_spi.Fixtures.{host_of, quick, own_pins, kernel_pins, host_after}
use openwrt_ezsp_spi.Spi.{
  spi_txn_framed, cs_assert, cs_release, send_command, wait_states, no_response, collect, finish,
  clamp_remain, response_head, spi_byte, drive_if,
}
use openwrt_ezsp_spi.Spi.Signals.{IsFramed, IsClock, txn-IsFramed}
use openwrt_ezsp_spi.Spi.Framing.{single, txn-IsReply}
use openwrt_ezsp_spi.Spi.Bounds.{length-txn}
use openwrt_ezsp_spi.Spi.Stuck.{txn_left_low}

-- `status`, answered behind one idle byte.
abbrev status_cmd : List ℕ
status_cmd = 0x0B ∷ 0xA7 ∷ []

abbrev status_reply : List ℕ
status_reply = 0xC1 ∷ 0xA7 ∷ []

abbrev up : Host
up = host_of (0xFF ∷ 0xFF ∷ 0xFF ∷ 0xC1 ∷ 0xA7 ∷ 0x55 ∷ [])

txn-IsFramed_example :
    IsFramed own_pins up (host_after (spi_txn_framed quick own_pins status_cmd 260 up))
unfolding spi_txn_framed cs_assert cs_release send_command wait_states collect finish clamp_remain
    response_head spi_byte drive_if gpio_set ioctl spi_raw
txn-IsFramed_example = txn-IsFramed quick own_pins status_cmd 260 up {rx = status_reply} refl refl

txn-IsReply_example :
    (h' : Host) × (spi_txn_framed quick own_pins status_cmd 260 up ≡ ok status_reply h')
    × (h'.miso ≡ 0x55 ∷ [])
    × (h'.dies ≡ none)
txn-IsReply_example =
    txn-IsReply quick own_pins status_cmd (0xFF ∷ 0xFF ∷ []) 1 (0x55 ∷ []) 260 up
      (single 0xC1 (omega arith) (λ e. absurd (omega arith)) (λ e. absurd (omega arith))) refl
      (omega arith) (omega arith) (omega arith) refl refl

-- The announced length of 200 bytes is cut to the buffer.
abbrev long_reply : Host
long_reply = host_of (0xFF ∷ 0xFF ∷ 0xFE ∷ 0xC8 ∷ 0x01 ∷ 0x02 ∷ 0x03 ∷ 0x04 ∷ [])

abbrev cut_reply : List ℕ
cut_reply = 0xFE ∷ 0xC8 ∷ 0x01 ∷ 0x02 ∷ []

length-txn_example : length cut_reply ≤ 4
unfolding spi_txn_framed cs_assert cs_release send_command wait_states collect finish clamp_remain
    response_head spi_byte drive_if gpio_set ioctl spi_raw
length-txn_example =
    length-txn quick own_pins status_cmd 4 long_reply {rx = cut_reply}
      {h' = host_after (spi_txn_framed quick own_pins status_cmd 4 long_reply)} (omega arith)
      (omega arith) refl

txn_left_low_example :
    (clocked : List Action) × ((host_after
        (spi_txn_framed quick kernel_pins status_cmd 260 (host_of []))).wire
      ≡ clocked ++ drive 3 false ∷ [])
    × All IsClock clocked
unfolding spi_txn_framed cs_assert cs_release send_command wait_states no_response spi_byte drive_if
    gpio_set ioctl spi_raw
txn_left_low_example =
    txn_left_low quick kernel_pins status_cmd 260 3 (host_of []) (omega arith) (omega arith) refl
      refl refl refl
