-- ===== src/Run/Lives.antt =====
-- A turn of the daemon ends (package/ezsp-spi/src/control.c, `cmd_run`).
use openwrt_ezsp_spi.Prelude.{
  ℕ, zero, suc, ◌≡◌, true, false, ◌&&◌, none, List, length, get_or, ◌==◌, ◌!=◌,
}
use openwrt_ezsp_spi.Config.{
  Cfg, Pins, ember_success, ezsp_incoming_message_handler, ezsp_message_sent_handler,
}
use openwrt_ezsp_spi.Host.{Host}
use openwrt_ezsp_spi.Host.Run.{Ensures-ok}
use openwrt_ezsp_spi.Host.Total.{Gives}
use openwrt_ezsp_spi.Host.Lives.{Lives, Lives->>=, Lives->>, Lives-if, pure-Lives}
use openwrt_ezsp_spi.Ezsp.{ezsp_poll_callback}
use openwrt_ezsp_spi.Ezsp.Lives.{ezsp_poll_callback-Lives}
use openwrt_ezsp_spi.Zcl.Lives.{zcl_handle_incoming-Lives, count_report-Lives}
use openwrt_ezsp_spi.Run.{handle_callback, drain, drain_all}
use openwrt_ezsp_spi.Run.Drain.{drain_all_stops}

handle_callback-Lives :
    (c : Cfg) (p : Pins) (location : List ℕ) (id : ℕ) (out : List ℕ)
    → Lives (handle_callback c p location id out)
unfolding handle_callback
handle_callback-Lives c p location id out =
    Lives-if (id == ezsp_incoming_message_handler) _ _ (zcl_handle_incoming-Lives c p location out)
      (Lives-if (id == ezsp_message_sent_handler && get_or out 15 0 != ember_success) _ _
        (count_report-Lives false) (pure-Lives tt))

drain-Lives :
    (fuel : ℕ) (c : Cfg) (p : Pins) (location out : List ℕ) → Lives (drain fuel c p location out)
unfolding drain
drain-Lives zero c p location out = pure-Lives (false, out)
drain-Lives (suc fuel) c p location out =
    Lives->>= (ezsp_poll_callback c p 64 out) _ (ezsp_poll_callback-Lives c p 64 out) (λ r.
      Lives-if (r.0 == 0) _ _ (pure-Lives (true, r.1)) (
        Lives->> (handle_callback c p location (r.0) (r.1)) _
          (handle_callback-Lives c p location (r.0) (r.1)) (drain-Lives fuel c p location (r.1))))

drain_all-Lives : (c : Cfg) (p : Pins) (location out : List ℕ) → Lives (drain_all c p location out)
unfolding drain_all
drain_all-Lives c p location out h alive =
    drain-Lives (suc (length h.miso)) c p location out h alive

-- The daemon's loop over the callbacks ends, and by its own test: as long as no ioctl fails, it
-- returns, because a poll found no callback and never because the fuel of the model ran out,
-- whatever the NCP has still to say.
pub drain_all_ends :
    (c : Cfg) (p : Pins) (location out : List ℕ) (h : Host)
    → h.dies ≡ none
    → Gives (λ r h'. r.0 ≡ true) (drain_all c p location out h)
drain_all_ends c p location out h alive =
    let run = drain_all-Lives c p location out h alive in
    record {
      value = run.value;
      after = run.after;
      result = run.result;
      holds = Ensures-ok (drain_all_stops c p location out h) run.result;
    }
