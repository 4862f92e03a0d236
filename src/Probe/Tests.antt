-- ===== src/Probe/Tests.antt =====
-- Commands of probe.c against concrete answers of the NCP.
use openwrt_ezsp_spi.Prelude.{ℕ, ◌≡◌, refl, true, List, [], ◌∷◌, arith}
use openwrt_ezsp_spi.Host.{Host, ok}
use openwrt_ezsp_spi.Fixtures.{host_of, quick, own_pins}
use openwrt_ezsp_spi.Spi.{spi_first_response}
use openwrt_ezsp_spi.Spi.Framing.{single}
use openwrt_ezsp_spi.Probe.{status, classify, class_of, do_cmd}
use openwrt_ezsp_spi.Probe.Retry.{turn, reset_notice, do_cmd_resends}

abbrev ask : List ℕ
ask = 0x0B ∷ 0xA7 ∷ []

abbrev told : List ℕ
told = 0xC1 ∷ 0xA7 ∷ []

abbrev ready : Host
ready = host_of (turn (0xFF ∷ 0xFF ∷ []) 1 told (0x55 ∷ []))

abbrev just_reset : Host
just_reset =
    host_of
      (turn (0xFF ∷ 0x00 ∷ []) 1 (reset_notice 0x02) (turn (0xFF ∷ 0xFF ∷ []) 2 told (0x55 ∷ [])))

do_cmd_resends_example :
    (h' : Host) × (do_cmd quick own_pins ask 260 true just_reset ≡ ok (status, told) h')
    × (h'.miso ≡ 0x55 ∷ [])
unfolding classify class_of spi_first_response
do_cmd_resends_example =
    do_cmd_resends quick own_pins ask 260 (omega arith) (omega arith) (0xFF ∷ 0x00 ∷ [])
      (0xFF ∷ 0xFF ∷ []) 1 2 0x02 (0x55 ∷ []) just_reset
      (single 0xC1 (omega arith) (λ e. absurd (omega arith)) (λ e. absurd (omega arith))) refl refl
      (omega arith) (omega arith) refl refl
