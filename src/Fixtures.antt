-- ===== src/Fixtures.antt =====
-- Concrete processes, pins and configurations for the tests.
use openwrt_ezsp_spi.Prelude.{ℕ, ◌++◌, replicate, true, none, some, List, []}
use openwrt_ezsp_spi.Config.{Cfg, Pins, defaults}
use openwrt_ezsp_spi.Host.{Host, Outcome, ok, died}

abbrev pub host_of : List ℕ → Host
host_of bytes = record {
  ezsp_version = 4;
  seq = 0;
  tag = 0;
  report_count = 0;
  report_failed = 0;
  miso = bytes;
  levels = [];
  edges = [];
  writes = [];
  dies = none;
  wire = [];
  net = [];
}

abbrev pub quick : Cfg
quick = record defaults { wait_bytes = 3 }

abbrev pub own_pins : Pins
own_pins = record {
  nreset = 1;
  nwake = 2;
  nssel_int = some 3;
  cs = some 4;
  hint = none;
  follows = true;
}

abbrev pub kernel_pins : Pins
kernel_pins = record own_pins { cs = none }

abbrev pub host_after {ℓ} : {A : Type ℓ} → Outcome A → Host
host_after (ok a h) = h
host_after died = host_of []

-- An answer, behind the idle bytes while a command of so many bytes goes out.
abbrev pub after_idle : ℕ → List ℕ → List ℕ
after_idle n answer = replicate n 0xFF ++ answer
