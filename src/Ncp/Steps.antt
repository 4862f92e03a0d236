-- ===== src/Ncp/Steps.antt =====
-- The reset and the wake handshake, for any discipline of steps (package/ezsp-spi/src/board.c).
use openwrt_ezsp_spi.Prelude.{true, false, is_some, if◌then◌else◌}
use openwrt_ezsp_spi.Config.{Pins}
use openwrt_ezsp_spi.Host.{pure, gpio_set, gpio_get, gpio_wait_falling, gpio_drain_events, usleep}
use openwrt_ezsp_spi.Host.Discipline.{Discipline, of_if}
use openwrt_ezsp_spi.Ncp.{wake_pulse, wake_ack, asserted, ncp_wake, reset_settle, ncp_reset, msleep}

module _ (d : Discipline) where
  open d use {
    Holds, of_bind, of_pure, of_usleep, of_gpio_set, of_gpio_get, of_gpio_wait_falling,
    of_gpio_drain_events,
  }

  wake_pulse-Holds : (p : Pins) → Holds (wake_pulse p)
  unfolding wake_pulse
  wake_pulse-Holds p = of_bind (gpio_set p.nwake false) _ (of_gpio_set _ _) (λ _.
      of_bind (usleep 2000) _ (of_usleep 2000)
        (λ _. of_bind (gpio_set p.nwake true) _ (of_gpio_set _ _) (λ _. of_usleep 2000)))

  wake_ack-Holds : (p : Pins) → Holds (wake_ack p)
  unfolding wake_ack
  wake_ack-Holds p = of_bind gpio_drain_events _ of_gpio_drain_events (λ _.
      of_bind (gpio_set p.nwake false) _ (of_gpio_set _ _) (λ _.
        of_bind gpio_wait_falling _ of_gpio_wait_falling
          (λ _. of_bind (gpio_set p.nwake true) _ (of_gpio_set _ _) (λ _. of_usleep 500))))

  pub ncp_wake-Holds : (p : Pins) → Holds (ncp_wake p)
  unfolding ncp_wake
  ncp_wake-Holds p =
      of_if d (is_some p.hint) _ _
        (of_bind gpio_get _ of_gpio_get
          (λ l. of_if d (asserted l) (pure tt) (wake_ack p) (of_pure tt) (wake_ack-Holds p)))
        (wake_pulse-Holds p)

  reset_settle-Holds : (p : Pins) → Holds (reset_settle p)
  unfolding reset_settle
  reset_settle-Holds p =
      of_if d (is_some p.hint) _ _
        (of_bind gpio_wait_falling _ of_gpio_wait_falling (λ _. of_pure tt)) (of_usleep _)

  pub ncp_reset-Holds : (p : Pins) → Holds (ncp_reset p)
  unfolding ncp_reset
  ncp_reset-Holds p = of_bind (gpio_set p.nwake true) _ (of_gpio_set _ _) (λ _.
      of_bind (gpio_set p.nreset false) _ (of_gpio_set _ _) (λ _.
        of_bind (msleep 50) _ (of_usleep _) (λ _.
          of_bind (if is_some p.hint then gpio_drain_events else pure tt) _
            (of_if d (is_some p.hint) _ _ of_gpio_drain_events (of_pure tt))
            (λ _.
              of_bind (gpio_set p.nreset true) _ (of_gpio_set _ _) (λ _. reset_settle-Holds p)))))
