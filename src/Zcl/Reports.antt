-- ===== src/Zcl/Reports.antt =====
-- The reports of zcl.c: their jittered interval, and how they are counted.
use openwrt_ezsp_spi.Prelude.{
  ℕ, ◌+◌, ◌*◌, ◌/◌, ◌%◌, ◌^◌, ◌≤◌, ◌<◌, ◌≡◌, ap, Bool, true, false, Bool-cases, inl, inr, List,
  length, ltb, ◌==◌, arith,
}
use native.Mathlib.Nat.{mod-lt}
use openwrt_ezsp_spi.Config.{Cfg, Pins, ezsp_send_unicast, zcl_cluster_basic}
use openwrt_ezsp_spi.Host.{Host, pure}
use openwrt_ezsp_spi.Host.Run.{memory, Memory, Ensures, returns, Ensures->>=, Ensures-else}
use openwrt_ezsp_spi.Ezsp.{ezsp_cmd}
use openwrt_ezsp_spi.Ezsp.Memory.{ezsp_cmd-after_one}
use openwrt_ezsp_spi.Zcl.{
  report_interval, zcl_send, next_tag, unicast_params, count_report, zcl_report, report,
}

-- Whatever `rand` returns, the interval is within a fifth of the configured one, for a configured
-- one below 2 ^ 31 seconds.
pub report_interval-within :
    (base rand : ℕ)
    → base < 2 ^ 31
    → (base ≤ report_interval base rand + base / 5) × (report_interval base rand ≤ base + base / 5)
unfolding report_interval
report_interval-within base rand lt = elim (Bool-cases (base / 5 == 0)) [
  | inl small ↦ rw small (omega arith, omega arith)
  | inr large ↦ rw large (omega (arith, drawn), omega (arith, drawn))
]
  where
    drawn : rand % (2 * (base / 5) + 1) < 2 * (base / 5) + 1
    drawn = mod-lt rand (omega arith)

-- A frame of ZCL that is handed to the stack uses up one sequence number and one message tag.
abbrev after_send : Memory → Memory
after_send m = record m { seq = (m.seq + 1) % 256; tag = (m.tag + 1) % 256 }

zcl_send_lem :
    (c : Cfg) (p : Pins) (dest cluster : ℕ) (payload : List ℕ) (h : Host)
    → length payload ≤ 64
    → Ensures (λ _ h'. memory h' ≡ after_send (memory h)) (zcl_send c p dest cluster payload h)
unfolding zcl_send next_tag
zcl_send_lem c p dest cluster payload h le =
    Ensures-else (ltb 64 (length payload)) (pure false) _ h (ground arith) (
      Ensures->>= (ezsp_cmd c p ezsp_send_unicast (unicast_params h.tag dest cluster payload) 8) _
        (record h { tag = (h.tag + 1) % 256 })
        (ezsp_cmd-after_one c p ezsp_send_unicast (unicast_params h.tag dest cluster payload) 8 _)
        (λ r h' e. returns e))

-- One report more: a count went up, one number of each kind was used, and nothing else changed.
pub record IsCounted (h h' : Host) : Type 0 where
  pub one_more : h'.report_count + h'.report_failed ≡ h.report_count + h.report_failed + 1
  pub next_seq : h'.seq ≡ (h.seq + 1) % 256
  pub next_tag : h'.tag ≡ (h.tag + 1) % 256
  pub same_version : h'.ezsp_version ≡ h.ezsp_version
  pub same_net : h'.net ≡ h.net

-- A report is counted exactly once, as handed to the stack or as failed, whatever the NCP answers,
-- as long as neither count is at its end; it uses up one sequence number and one message tag, and
-- changes nothing else in memory.
pub zcl_report-IsCounted :
    (c : Cfg) (p : Pins) (h : Host)
    → h.report_count + 1 < 2 ^ 32
    → h.report_failed + 1 < 2 ^ 32
    → Ensures (λ _ h'. IsCounted h h') (zcl_report c p h)
unfolding zcl_report count_report
zcl_report-IsCounted c p h lt lt' =
    Ensures->>= (zcl_send c p 0x0000 zcl_cluster_basic report) count_report h
      (zcl_send_lem c p 0x0000 zcl_cluster_basic report h (omega arith)) counted
  where
    counted :
        (handed : Bool) (h' : Host)
        → memory h' ≡ after_send (memory h)
        → Ensures (λ _ h''. IsCounted h h'') (count_report handed h')
    counted true h' e = returns (record {
      one_more =
          omega
            (arith, ap (λ (m : Memory). m.report_count) e, ap (λ (m : Memory). m.report_failed) e);
      next_seq = ap (λ m. m.seq) e;
      next_tag = ap (λ m. m.tag) e;
      same_version = ap (λ m. m.ezsp_version) e;
      same_net = ap (λ m. m.net) e;
    })
    counted false h' e = returns (record {
      one_more =
          omega
            (arith, ap (λ (m : Memory). m.report_count) e, ap (λ (m : Memory). m.report_failed) e);
      next_seq = ap (λ m. m.seq) e;
      next_tag = ap (λ m. m.tag) e;
      same_version = ap (λ m. m.ezsp_version) e;
      same_net = ap (λ m. m.net) e;
    })
