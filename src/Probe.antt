-- ===== src/Probe.antt =====
-- package/ezsp-spi/src/probe.c: the class of a reply, and one command with its retry.
pub mod Classes
pub mod Retry
pub mod Told
pub mod Steps
pub mod Fed
pub mod Tests
use openwrt_ezsp_spi.Prelude.{
  ℕ, zero, suc, ◌+◌, Bool, true, false, Option, none, some, List, [], ◌∷◌, get_or, ◌==◌, ◌!=◌, leb,
  if◌then◌else◌, bit_and, ◌&&◌,
}
use openwrt_ezsp_spi.Config.{Cfg, Pins, spi_cmd_ezsp_frame}
use openwrt_ezsp_spi.Host.{M, pure, ◌>>=◌, ◌>>◌, usleep}
use openwrt_ezsp_spi.Ncp.{ncp_wake}
use openwrt_ezsp_spi.Spi.{spi_txn_framed, spi_first_response}

-- `enum rsp_class`
pub data RspClass : Type 0 where
  idle reset error version status ezsp other : RspClass

unfoldable pub class_of : ℕ → RspClass
class_of b =
    if b == 0xFE
    then ezsp
    else if bit_and b 0xC0 == 0x80
    then version
    else if bit_and b 0xFE == 0xC0
    then status
    else if b == 0x00
    then reset
    else if leb b 0x04
    then error
    else other

-- The class, the first byte and the byte behind it.
unfoldable pub classify : List ℕ → RspClass × ℕ × ℕ
unfolding class_of spi_first_response
classify rx = elim (spi_first_response rx) [
  | none ↦ (idle, 0, 0)
  | some i ↦ (class_of (get_or rx i 0), get_or rx i 0, get_or rx (suc i) 0)
]

unfoldable pub is_reset : RspClass → Bool
is_reset reset = true
is_reset idle = false
is_reset error = false
is_reset version = false
is_reset status = false
is_reset ezsp = false
is_reset other = false

unfoldable pub is_ezsp : RspClass → Bool
is_ezsp ezsp = true
is_ezsp idle = false
is_ezsp reset = false
is_ezsp error = false
is_ezsp version = false
is_ezsp status = false
is_ezsp other = false

-- The gap between transactions and the wake handshake.
unfoldable pub prepare : Cfg → Pins → M (Unit {0})
prepare c p = do usleep c.gap_us; if c.wake_handshake then ncp_wake p else pure tt

-- One pass of `do_cmd`.
unfoldable pub attempt : Cfg → Pins → List ℕ → ℕ → M (List ℕ)
attempt c p tx rxlen = do prepare c p; spi_txn_framed c p tx rxlen

-- The class and what was received.
unfoldable pub do_cmd : Cfg → Pins → List ℕ → ℕ → Bool → M (RspClass × List ℕ)
unfolding is_reset
do_cmd c p tx rxlen retry_on_reset = do
  rx ← attempt c p tx rxlen
  if is_reset (classify rx).0 && retry_on_reset then resend else pure ((classify rx).0, rx)
  where
    resend : M (RspClass × List ℕ)
    resend = do rx ← attempt c p tx rxlen; pure ((classify rx).0, rx)
