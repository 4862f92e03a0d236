-- ===== src/Probe/Steps.antt =====
-- A command to the NCP, for any discipline of steps (package/ezsp-spi/src/probe.c).
use openwrt_ezsp_spi.Prelude.{ℕ, Bool, ◌&&◌, List}
use openwrt_ezsp_spi.Config.{Cfg, Pins}
use openwrt_ezsp_spi.Host.{pure, usleep}
use openwrt_ezsp_spi.Host.Discipline.{Discipline, of_if}
use openwrt_ezsp_spi.Ncp.{ncp_wake}
use openwrt_ezsp_spi.Ncp.Steps.{ncp_wake-Holds}
use openwrt_ezsp_spi.Spi.{spi_txn_framed}
use openwrt_ezsp_spi.Spi.Steps.{txn-Holds}
use openwrt_ezsp_spi.Probe.{classify, is_reset, prepare, attempt, do_cmd}

module _ (d : Discipline) where
  open d use {Holds, of_bind, of_pure, of_usleep}

  pub prepare-Holds : (c : Cfg) (p : Pins) → Holds (prepare c p)
  unfolding prepare
  prepare-Holds c p =
      of_bind (usleep c.gap_us) _ (of_usleep _)
        (λ _. of_if d c.wake_handshake (ncp_wake p) (pure tt) (ncp_wake-Holds d p) (of_pure tt))

  pub attempt-Holds : (c : Cfg) (p : Pins) (tx : List ℕ) (rxlen : ℕ) → Holds (attempt c p tx rxlen)
  unfolding attempt
  attempt-Holds c p tx rxlen =
      of_bind (prepare c p) (λ _. spi_txn_framed c p tx rxlen) (prepare-Holds c p)
        (λ _. txn-Holds d c p tx rxlen)

  pub do_cmd-Holds :
      (c : Cfg) (p : Pins) (tx : List ℕ) (rxlen : ℕ) (retry : Bool)
      → Holds (do_cmd c p tx rxlen retry)
  unfolding do_cmd
  do_cmd-Holds c p tx rxlen retry =
      of_bind (attempt c p tx rxlen) _ (attempt-Holds c p tx rxlen) (λ rx.
        of_if d (is_reset (classify rx).0 && retry) _ _
          (of_bind (attempt c p tx rxlen) (λ rx'. pure ((classify rx').0, rx'))
            (attempt-Holds c p tx rxlen) (λ rx'. of_pure _))
          (of_pure _))
