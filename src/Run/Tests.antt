-- ===== src/Run/Tests.antt =====
-- The daemon on an NCP with a callback (package/ezsp-spi/src/control.c).
use openwrt_ezsp_spi.Prelude.{ℕ, ◌≡◌, ◌≢◌, refl, false, none, some, List, [], ◌∷◌, replicate, arith}
use openwrt_ezsp_spi.Host.{Host}
use openwrt_ezsp_spi.Text.{codes}
use openwrt_ezsp_spi.Fixtures.{host_of, after_idle}
use openwrt_ezsp_spi.Control.Serve.{Longs}
use openwrt_ezsp_spi.Run.{Moment, Daemon, seed_of}
use openwrt_ezsp_spi.Run.Seed.{seed_of-apart, seed_of-twins}

-- A stack status of NETWORK_UP is waiting.
abbrev waiting : Host
waiting = host_of (after_idle 6 (0xFE ∷ 0x04 ∷ 0x00 ∷ 0x80 ∷ 0x19 ∷ 0x90 ∷ 0xA7 ∷ []))

abbrev router : List ℕ
router = codes "r1"

abbrev longs : Longs
longs = record { ulong_max = 0xFFFFFFFF; long_max = 0x7FFFFFFF }

abbrev daemon : Daemon
daemon = record { next_report = 100; out = replicate 64 0 }

-- A client asks for the status, and the report is due.
abbrev busy : Moment
busy = record {
  edge = false;
  client = some (codes "status");
  age = none;
  now = 100;
  later = 101;
  rand = 7;
}

-- Two nodes of one maker, and two whose EUI64s differ in two bytes.
seed_of-apart_example :
    seed_of 1700000000 (some (0x58 ∷ 0x4F ∷ 0xFB ∷ 0xFE ∷ 0xFF ∷ 0xD7 ∷ 0x6F ∷ 0x0D ∷ []))
    ≢ seed_of 1700000000 (some (0x59 ∷ 0x4F ∷ 0xFB ∷ 0xFE ∷ 0xFF ∷ 0xD7 ∷ 0x6F ∷ 0x0D ∷ []))
seed_of-apart_example =
    seed_of-apart 1700000000 [] (0x4F ∷ 0xFB ∷ 0xFE ∷ 0xFF ∷ 0xD7 ∷ 0x6F ∷ 0x0D ∷ []) 0x58 0x59 refl
      (omega arith) (omega arith) (λ e. absurd (omega arith))

seed_of-twins_example :
    seed_of 1700000000 (some (0x59 ∷ 0x10 ∷ 0xFB ∷ 0xFE ∷ 0xFF ∷ 0xD7 ∷ 0x6F ∷ 0x0D ∷ []))
    ≡ seed_of 1700000000 (some (0x58 ∷ 0x2F ∷ 0xFB ∷ 0xFE ∷ 0xFF ∷ 0xD7 ∷ 0x6F ∷ 0x0D ∷ []))
seed_of-twins_example =
    seed_of-twins 1700000000 [] (0xFB ∷ 0xFE ∷ 0xFF ∷ 0xD7 ∷ 0x6F ∷ 0x0D ∷ []) 0x58 0x10 refl
