-- ===== src/Ezsp/Memory.antt =====
-- What an EZSP command (package/ezsp-spi/src/ezsp.c) changes of the program's memory.
use openwrt_ezsp_spi.Prelude.{ℕ, ◌+◌, ◌%◌, ◌≡◌, List, length, ltb, true}
use openwrt_ezsp_spi.Config.{Cfg, Pins}
use openwrt_ezsp_spi.Host.{Host}
use openwrt_ezsp_spi.Host.Run.{memory, Memory, Ensures, returns, dies, Ensures->>=, Ensures-if}
use openwrt_ezsp_spi.Probe.{do_cmd}
use openwrt_ezsp_spi.Host.Silent.{quiet}
use openwrt_ezsp_spi.Probe.Steps.{do_cmd-Holds}
use openwrt_ezsp_spi.Ezsp.{xfer_frame, next_seq, ezsp_xfer, ezsp_cmd}

-- One sequence number is used up.
abbrev pub after_one : Memory → Memory
after_one m = record m { seq = (m.seq + 1) % 256 }

pub ezsp_xfer-after_one :
    (c : Cfg) (p : Pins) (id : ℕ) (params : List ℕ) (max : ℕ) (h : Host)
    → Ensures (λ _ h'. memory h' ≡ after_one (memory h)) (ezsp_xfer c p id params max h)
unfolding ezsp_xfer next_seq
ezsp_xfer-after_one c p id params max h = Ensures-if (ltb 160 (length params + 5)) _ _ h dies (
    Ensures->>= (do_cmd c p (xfer_frame h.ezsp_version h.seq id params) 260 true) _
      (record h { seq = (h.seq + 1) % 256 })
      (do_cmd-Holds quiet c p (xfer_frame h.ezsp_version h.seq id params) 260 true _)
      (λ r h' e. returns e.same_memory))

-- A command sends nothing to a client and uses up one sequence number, a repetition after a reset
-- included; the agreed version, the message tag and the counts of reports stay as they are.
pub ezsp_cmd-after_one :
    (c : Cfg) (p : Pins) (id : ℕ) (params : List ℕ) (max : ℕ) (h : Host)
    → Ensures (λ _ h'. memory h' ≡ after_one (memory h)) (ezsp_cmd c p id params max h)
unfolding ezsp_cmd
ezsp_cmd-after_one c p id params max h =
    Ensures->>= (ezsp_xfer c p id params max) _ h (ezsp_xfer-after_one c p id params max h)
      (λ r h' e. returns e)
