-- ===== src/Ezsp/Fed.antt =====
-- A callback that is polled has taken something from the NCP (package/ezsp-spi/src/ezsp.c).
use openwrt_ezsp_spi.Prelude.{
  ℕ, ◌+◌, ◌<◌, ◌≡◌, refl, true, false, Option, none, some, is_some, List, [], length, ltb, ◌==◌,
  if◌then◌else◌, arith,
}
use openwrt_ezsp_spi.Config.{Cfg, Pins}
use openwrt_ezsp_spi.Host.{Host}
use openwrt_ezsp_spi.Host.Run.{Ensures, returns, dies, Ensures->>=, Ensures-after, Ensures-if}
use openwrt_ezsp_spi.Host.Eats.{IsLeft, Eats, Eats->>=, pure-Eats}
use openwrt_ezsp_spi.Probe.{RspClass, is_ezsp, do_cmd}
use openwrt_ezsp_spi.Probe.Fed.{do_cmd-Fed}
use openwrt_ezsp_spi.Ezsp.{
  next_seq, xfer_frame, ezsp_xfer, ezsp_cmd, callback_id, ezsp_poll_callback,
}

length-xfer_frame : (ver seq id : ℕ) (params : List ℕ) → 0 < length (xfer_frame ver seq id params)
unfolding xfer_frame
length-xfer_frame ver seq id params = omega arith

ezsp_xfer-Fed :
    (c : Cfg) (p : Pins) (id : ℕ) (params : List ℕ) (max : ℕ) (h : Host)
    → Ensures
        (λ r h'. (is_some r ≡ true → length h'.miso < length h.miso) × IsLeft h h')
        (ezsp_xfer c p id params max h)
unfolding ezsp_xfer next_seq
ezsp_xfer-Fed c p id params max h = Ensures-if (ltb 160 (length params + 5)) _ _ h dies (
    Ensures->>= (do_cmd c p (xfer_frame h.ezsp_version h.seq id params) 260 true) _ _
      (do_cmd-Fed c p (xfer_frame h.ezsp_version h.seq id params) 260 _
        (length-xfer_frame h.ezsp_version h.seq id params))
      (λ r h' fed. returns (λ e. fed.0 (answered (r.0) _ e), fed.1)))
  where
    answered :
        (cls : RspClass) (reply : Option (ℕ × List ℕ))
        → is_some (if is_ezsp cls then reply else none) ≡ true
        → is_ezsp cls ≡ true
    answered cls reply e = ground arith

pub ezsp_cmd-Eats :
    (c : Cfg) (p : Pins) (id : ℕ) (params : List ℕ) (max : ℕ) → Eats (ezsp_cmd c p id params max)
unfolding ezsp_cmd
ezsp_cmd-Eats c p id params max =
    Eats->>= (ezsp_xfer c p id params max) _
      (λ h. Ensures-after _ (ezsp_xfer-Fed c p id params max h) (λ r h' fed. fed.1))
      (λ r. pure-Eats _)

-- Whatever the NCP answers, a callback costs it at least one byte of what it is going to say.
pub ezsp_poll_callback-Fed :
    (c : Cfg) (p : Pins) (max : ℕ) (out : List ℕ) (h : Host)
    → Ensures
        (λ r h'. ((r.0 == 0) ≡ false → length h'.miso < length h.miso) × IsLeft h h')
        (ezsp_poll_callback c p max out h)
unfolding ezsp_poll_callback
ezsp_poll_callback-Fed c p max out h =
    Ensures->>= (ezsp_xfer c p _ [] max) _ h (ezsp_xfer-Fed c p _ [] max h)
      (λ r h' fed. returns (λ e. fed.0 (called r e), fed.1))
  where
    called : (r : Option (ℕ × List ℕ)) → ((callback_id r out).0 == 0) ≡ false → is_some r ≡ true
    called none e = unfold callback_id in cc
    called (some x) e = refl
