-- ===== src/Run/Order.antt =====
-- The daemon's loop over the callbacks against the callbacks that the NCP gives
-- (package/ezsp-spi/src/control.c, `cmd_run`).
use openwrt_ezsp_spi.Prelude.{ℕ, ◌≡◌, false, List, ◌==◌}
use openwrt_ezsp_spi.Config.{Cfg, Pins}
use openwrt_ezsp_spi.Host.{Host, ok}
use openwrt_ezsp_spi.Ezsp.{ezsp_poll_callback}
use openwrt_ezsp_spi.Run.{handle_callback}

-- The protocol: poll; when there is no callback, stop; otherwise handle this callback, with the
-- buffer as the poll leaves it, before the next poll.
pub data Drained (c : Cfg) (p : Pins) (location : List ℕ) (out' : List ℕ) (h' : Host)
    : List ℕ → Host → Type 0 where
  emptied :
      (out : List ℕ) (h : Host)
      → ezsp_poll_callback c p 64 out h ≡ ok (0, out') h'
      → Drained c p location out' h' out h
  handled :
      (out : List ℕ) (h : Host) (id : ℕ) (filled : List ℕ) (h₁ h₂ : Host)
      → (id == 0) ≡ false
      → ezsp_poll_callback c p 64 out h ≡ ok (id, filled) h₁
      → handle_callback c p location id filled h₁ ≡ ok tt h₂
      → Drained c p location out' h' filled h₂
      → Drained c p location out' h' out h
