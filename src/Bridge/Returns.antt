-- ===== src/Bridge/Returns.antt =====
-- What the bridge does with the bytes of a client, and with callbacks, ends
-- (package/ezsp-spi/src/bridge.c).
use openwrt_ezsp_spi.Prelude.{
  ℕ, zero, suc, ◌%◌, ◌+◌, refl, ◌&&◌, ◌||◌, true, false, not, Option, none, some, is_some, List, [],
  ◌∷◌, length, get_or, ltb, leb, ◌==◌, bit_and,
}
use openwrt_ezsp_spi.Config.{
  Cfg, Pins, ash_max_frame, ash_ctrl_rst, ash_flag, ash_esc, ash_xon, ash_xoff, ash_sub, ash_cancel,
}
use openwrt_ezsp_spi.Host.{gpio_get, write_all}
use openwrt_ezsp_spi.Host.Lives.{
  living, living, Lives, Lives->>=, Lives->>, Lives-if, pure-Lives, gpio_get-Lives, write_all-Lives,
}
use openwrt_ezsp_spi.Ncp.{asserted, ncp_reset}
use openwrt_ezsp_spi.Ncp.Steps.{ncp_reset-Holds}
use openwrt_ezsp_spi.Probe.{do_cmd}
use openwrt_ezsp_spi.Probe.Steps.{do_cmd-Holds}
use openwrt_ezsp_spi.Ash.{encode, mask}
use openwrt_ezsp_spi.Bridge.{
  Bridge, log_sent, write_frame, ash_send, ash_send_ack, data_body, keep_frame, ash_send_data,
  marked, resend, retransmit_from, ash_retransmit,
}
use openwrt_ezsp_spi.Bridge.Relay.{
  wrapped, ezsp_relay, ezsp_relay_callback, callback_frame, is_empty, drain_from, may_drain,
  bridge_drain_callbacks, relay_tx_size,
}
use openwrt_ezsp_spi.Bridge.Handle.{
  rstack, cleared, bridge_reset, agreed, adopt, answer, next_ack, handle_data, handle_ctrl,
  bridge_handle_frame, crc_matches, resync, feed_flag, feed_byte, bridge_feed,
}

log_sent-Lives : (frame out : List ℕ) → Lives (log_sent frame out)
log_sent-Lives frame out h alive = record { value = tt; after = _; result = refl; holds = alive }

write_frame-Lives : (frame : List ℕ) → Lives (write_frame frame)
unfolding write_frame
write_frame-Lives frame =
    Lives->>= (write_all (encode frame)) _ (write_all-Lives (encode frame))
      (λ r. Lives->> (log_sent frame (r.1)) _ (log_sent-Lives frame (r.1)) (pure-Lives (r.0)))

pub ash_send-Lives : (b : Bridge) (frame : List ℕ) → Lives (ash_send b frame)
unfolding ash_send
ash_send-Lives b frame =
    Lives-if (not (is_some b.cli) || ltb (ash_max_frame + 2) (length frame + 2)) _ _
      (pure-Lives false) (write_frame-Lives frame)

ash_send_ack-Lives : (b : Bridge) → Lives (ash_send_ack b)
unfolding ash_send_ack
ash_send_ack-Lives b =
    Lives->>= (ash_send b ((_) ∷ [])) _ (ash_send-Lives b _) (λ whole. pure-Lives tt)

ash_send_data-Lives : (b : Bridge) (ezsp : List ℕ) → Lives (ash_send_data b ezsp)
unfolding ash_send_data
ash_send_data-Lives b ezsp = Lives-if (ltb ash_max_frame (length ezsp + 1)) _ _ (pure-Lives b) (
    Lives->>= (ash_send (keep_frame b (data_body b ezsp)) (data_body b ezsp)) _ (ash_send-Lives _ _)
      (λ whole. pure-Lives _))

resend-Lives : (b : Bridge) (frame : List ℕ) → Lives (resend b frame)
unfolding resend
resend-Lives b [] = pure-Lives tt
resend-Lives b (ctrl ∷ rest) =
    Lives->>= (ash_send b (marked (ctrl ∷ rest))) _ (ash_send-Lives b _) (λ whole. pure-Lives tt)

retransmit_from-Lives : (fuel : ℕ) (b : Bridge) (n : ℕ) → Lives (retransmit_from fuel b n)
unfolding retransmit_from
retransmit_from-Lives zero b n = pure-Lives _
retransmit_from-Lives (suc fuel) b n = Lives-if (n == b.frm) _ _ (pure-Lives true) (
    Lives->> (resend b (get_or b.unacked (n % 8) [])) _ (resend-Lives b _)
      (retransmit_from-Lives fuel b ((n + 1) % 8)))

ezsp_relay-Lives :
    (c : Cfg) (p : Pins) (frame : List ℕ) (outmax : ℕ) → Lives (ezsp_relay c p frame outmax)
unfolding ezsp_relay
ezsp_relay-Lives c p frame outmax =
    Lives-if (length frame == 0 || ltb 255 (length frame) || ltb relay_tx_size (length frame + 3)) _
      _ (pure-Lives none)
      (Lives->>= (do_cmd c p (wrapped frame) 260 true) _ (do_cmd-Holds living c p _ _ _)
        (λ r. pure-Lives _))

ezsp_relay_callback-Lives :
    (c : Cfg) (p : Pins) (b : Bridge) (outmax : ℕ) → Lives (ezsp_relay_callback c p b outmax)
unfolding ezsp_relay_callback
ezsp_relay_callback-Lives c p b outmax =
    Lives->>= (ezsp_relay c p (callback_frame b.ver b.cbseq) outmax) _
      (ezsp_relay-Lives c p _ outmax) (λ out. pure-Lives _)

drain_from-Lives : (n : ℕ) (c : Cfg) (p : Pins) (b : Bridge) → Lives (drain_from n c p b)
unfolding drain_from
drain_from-Lives zero c p b = pure-Lives b
drain_from-Lives (suc n) c p b = Lives->>= gpio_get _ gpio_get-Lives (λ l.
    Lives-if (not (asserted l)) _ _ (pure-Lives b) (
      Lives->>= (ezsp_relay_callback c p b ash_max_frame) _
        (ezsp_relay_callback-Lives c p b ash_max_frame)
        (λ r. Lives-if (is_empty (r.1)) _ _ (pure-Lives (r.0)) (
          Lives->>= (ash_send_data (r.0) (r.1)) _ (ash_send_data-Lives (r.0) (r.1))
            (λ b'. drain_from-Lives n c p b')))))

pub bridge_drain_callbacks-Lives :
    (c : Cfg) (p : Pins) (b : Bridge) → Lives (bridge_drain_callbacks c p b)
unfolding bridge_drain_callbacks
bridge_drain_callbacks-Lives c p b =
    Lives-if (may_drain p b) _ _ (drain_from-Lives 32 c p b) (pure-Lives b)

answer-Lives :
    (c : Cfg) (p : Pins) (b : Bridge) (ezsp : List ℕ) (reply : Option (List ℕ))
    → Lives (answer c p b ezsp reply)
unfolding answer
answer-Lives c p b ezsp none = pure-Lives b
answer-Lives c p b ezsp (some []) = pure-Lives b
answer-Lives c p b ezsp (some (r ∷ rs)) =
    Lives->>= (ash_send_data (adopt b (agreed b.ver ezsp (r ∷ rs))) (r ∷ rs)) _
      (ash_send_data-Lives _ _) (λ b'. bridge_drain_callbacks-Lives c p b')

handle_data-Lives :
    (c : Cfg) (p : Pins) (b : Bridge) (ctrl : ℕ) (masked : List ℕ)
    → Lives (handle_data c p b ctrl masked)
unfolding handle_data
handle_data-Lives c p b ctrl masked =
    Lives-if (length masked == 0 || ltb ash_max_frame (length masked)) _ _ (pure-Lives b) (
      Lives->> (ash_send_ack (record b { ack = next_ack ctrl })) _ (ash_send_ack-Lives _) (
        Lives->>= (ezsp_relay c p (mask 0 masked) ash_max_frame) _
          (ezsp_relay-Lives c p (mask 0 masked) ash_max_frame)
          (λ reply. answer-Lives c p (record b { ack = next_ack ctrl }) (mask 0 masked) reply)))

bridge_reset-Lives : (p : Pins) (b : Bridge) → Lives (bridge_reset p b)
unfolding bridge_reset
bridge_reset-Lives p b =
    Lives->> (ncp_reset p) _ (ncp_reset-Holds living p)
      (Lives->>= (ash_send (cleared b) rstack) _ (ash_send-Lives _ _) (λ whole. pure-Lives _))

handle_ctrl-Lives :
    (c : Cfg) (p : Pins) (b : Bridge) (ctrl : ℕ) (masked : List ℕ)
    → Lives (handle_ctrl c p b ctrl masked)
unfolding handle_ctrl ash_retransmit
handle_ctrl-Lives c p b ctrl masked = Lives-if (ctrl == ash_ctrl_rst) _ _ (bridge_reset-Lives p b) (
    Lives-if (bit_and ctrl 0xE0 == 0x80) _ _ (pure-Lives b) (
      Lives-if (bit_and ctrl 0xE0 == 0xA0) _ _
        (Lives->>= (ash_retransmit b (ctrl % 8)) _ (retransmit_from-Lives 7 b (ctrl % 8))
          (λ ended. pure-Lives b))
        (Lives-if (leb 0x80 ctrl) _ _ (pure-Lives b)
          (Lives-if (not b.ready) _ _ (pure-Lives b) (handle_data-Lives c p b ctrl masked)))))

bridge_handle_frame-Lives :
    (c : Cfg) (p : Pins) (b : Bridge) (frame : List ℕ) → Lives (bridge_handle_frame c p b frame)
unfolding bridge_handle_frame
bridge_handle_frame-Lives c p b [] = pure-Lives b
bridge_handle_frame-Lives c p b (ctrl ∷ masked) = handle_ctrl-Lives c p b ctrl masked

feed_flag-Lives : (c : Cfg) (p : Pins) (b : Bridge) → Lives (feed_flag c p b)
unfolding feed_flag
feed_flag-Lives c p b =
    Lives-if (leb 3 (length b.rx) && crc_matches b.rx) _ _
      (Lives->>= (bridge_handle_frame c p b _) _ (bridge_handle_frame-Lives c p b _)
        (λ b'. pure-Lives (resync b')))
      (pure-Lives (resync b))

feed_byte-Lives : (c : Cfg) (p : Pins) (b : Bridge) (x : ℕ) → Lives (feed_byte c p b x)
unfolding feed_byte
feed_byte-Lives c p b x = Lives-if (x == ash_xon || x == ash_xoff) _ _ (pure-Lives b) (
    Lives-if (x == ash_cancel) _ _ (pure-Lives _) (
      Lives-if (x == ash_sub) _ _ (pure-Lives _) (
        Lives-if (x == ash_esc) _ _ (pure-Lives _)
          (Lives-if (x == ash_flag) _ _ (feed_flag-Lives c p b) (pure-Lives _)))))

pub bridge_feed-Lives :
    (c : Cfg) (p : Pins) (b : Bridge) (xs : List ℕ) → Lives (bridge_feed c p b xs)
unfolding bridge_feed
bridge_feed-Lives c p b [] = pure-Lives b
bridge_feed-Lives c p b (x ∷ xs) =
    Lives->>= (feed_byte c p b x) _ (feed_byte-Lives c p b x) (λ b'. bridge_feed-Lives c p b' xs)
