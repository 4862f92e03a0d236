-- ===== src/Bridge/Tests.antt =====
-- The bridge on concrete clients, frames and wakeups.
use openwrt_ezsp_spi.Prelude.{
  ℕ, ◌≡◌, refl, true, false, none, some, List, [], ◌∷◌, replicate, arith,
}
use openwrt_ezsp_spi.Config.{ash_flag, ash_sub}
use openwrt_ezsp_spi.Host.{
  Host, sent, accepted, Outcome, ok, died, write_all, write_from, ioctl, gpio_set, gpio_get,
}
use openwrt_ezsp_spi.Host.Run.{Ensures}
use openwrt_ezsp_spi.Fixtures.{host_of, host_after, quick, own_pins}
use openwrt_ezsp_spi.Ash.{
  mask, encode, stuff, escape, is_reserved, ash_crc, crc_from, crc_byte, crc_shifts, crc_shift,
  crc_tail,
}
use openwrt_ezsp_spi.Bridge.{Bridge, initial, write_frame, ash_send, ash_retransmit}
use openwrt_ezsp_spi.Ncp.{ncp_reset, reset_settle}
use openwrt_ezsp_spi.Bridge.Relay.{bridge_drain_callbacks, may_drain}
use openwrt_ezsp_spi.Bridge.Handle.{
  bridge_feed, bridge_drop_client, crc_matches, bridge_handle_frame, handle_ctrl, bridge_reset,
  feed_byte, feed_flag, store_byte,
}
use openwrt_ezsp_spi.Bridge.Loop.{
  Wakeup, Poll, events, received, turn, run, serve, watches, accept_client, consume_edge,
  read_client,
}
use openwrt_ezsp_spi.Bridge.Valid.{IsValid}
use openwrt_ezsp_spi.Bridge.Session.{IsOrdered}
use openwrt_ezsp_spi.Bridge.Deframe.{feed-encode}
use openwrt_ezsp_spi.Bridge.Resync.{handled, flipped, feed_resyncs, feed-overflow, feed-sub}
use openwrt_ezsp_spi.Bridge.Retransmit.{frames_of, ash_retransmit-window}
use openwrt_ezsp_spi.Host.Total.{Gives}
use openwrt_ezsp_spi.Probe.Retry
use openwrt_ezsp_spi.Bridge.Relay.{wrapped}
use openwrt_ezsp_spi.Bridge.Answer.{ezsp_reply}
use openwrt_ezsp_spi.Bridge.Verbatim.{Answered, handle_frame-relays}
use openwrt_ezsp_spi.Bridge.Replace.{turn_drops_new}
use openwrt_ezsp_spi.Bridge.Order.{run-IsOrdered}

abbrev bridge_after : Outcome Bridge → Bridge
bridge_after (ok b h) = b
bridge_after died = initial

abbrev data_frame : List ℕ
data_frame = 0x10 ∷ 0x7E ∷ 0x11 ∷ []

abbrev half : Bridge
half = record initial { cli = some 7; rx = 0x10 ∷ 0x22 ∷ [] }

feed-encode_example :
    bridge_feed quick own_pins initial (encode data_frame) (host_of [])
    ≡ handled quick own_pins initial data_frame (host_of [])
feed-encode_example =
    feed-encode quick own_pins initial data_frame (host_of []) (omega arith) (omega arith)
      (omega arith) refl refl

feed_resyncs_example :
    bridge_feed quick own_pins half (ash_flag ∷ encode data_frame) (host_of [])
    ≡ handled quick own_pins half data_frame (host_of [])
feed_resyncs_example =
    feed_resyncs quick own_pins half data_frame (host_of []) (omega arith) (omega arith)
      (omega arith) refl

abbrev full : Bridge
full = record half { rx = replicate 280 0x55 }

feed-overflow_example :
    bridge_feed quick own_pins full (0x55 ∷ encode data_frame) (host_of [])
    ≡ handled quick own_pins full data_frame (host_of [])
unfolding is_reserved
feed-overflow_example =
    feed-overflow quick own_pins full data_frame (host_of []) (omega arith) (omega arith)
      (omega arith) 0x55 refl (omega arith)

feed-sub_example :
    bridge_feed quick own_pins half (ash_sub ∷ flipped 0x10 (0x7E ∷ 0x11 ∷ [])) (host_of [])
    ≡ handled quick own_pins half data_frame (host_of [])
unfolding is_reserved
feed-sub_example =
    feed-sub quick own_pins half 0x10 (0x7E ∷ 0x11 ∷ []) (host_of []) (omega arith) refl
      (omega arith)

-- Frames 7 and 0 are unacknowledged, 1 is the next.
abbrev waiting : Bridge
waiting = record half {
  ready = true;
  frm = 1;
  unacked = (0x00 ∷ 0xAA ∷ []) ∷ [] ∷ [] ∷ [] ∷ [] ∷ [] ∷ [] ∷ (0x70 ∷ 0xBB ∷ []) ∷ [];
}

waiting-IsValid : IsValid waiting
waiting-IsValid = record {
  frm_lt = omega arith;
  ack_lt = omega arith;
  cbseq_lt = omega arith;
  ver_ge = omega arith;
  ver_le = omega arith;
  slots = refl;
  short = omega arith;
  rx_fits = omega arith;
  agreed_after_ready = λ _. refl;
}

ash_retransmit-window_example :
    Ensures
      (λ ended h'.
        (ended ≡ true) × (frames_of h'.net ≡ (0x08 ∷ 0xAA ∷ []) ∷ (0x78 ∷ 0xBB ∷ []) ∷ []))
      (ash_retransmit waiting 7 (host_of []))
ash_retransmit-window_example =
    ash_retransmit-window waiting 7 (host_of []) refl waiting-IsValid (omega arith)

-- A client connects and asks for the reset.
abbrev connects : Wakeup
connects = events (record { connect = some 7; edge = false; hangup = false; input = none })

abbrev asks_reset : Wakeup
asks_reset = events (record {
  connect = none;
  edge = false;
  hangup = false;
  input = some (received (0xC0 ∷ 0x38 ∷ 0xBC ∷ 0x7E ∷ []));
})

abbrev replaces : Poll
replaces = record { connect = some 8; edge = false; hangup = true; input = none }

turn_drops_new_example :
    (bridge_after (turn quick own_pins half (events replaces) (host_of []))).cli ≡ none
unfolding turn serve watches accept_client consume_edge bridge_drop_client
turn_drops_new_example =
    turn_drops_new quick own_pins half 7 8 replaces (host_of []) refl refl refl refl

abbrev session : Outcome Bridge
session = run quick own_pins initial (connects ∷ asks_reset ∷ []) (host_of [])

-- The bytes of an RST and of its RSTACK are those that the ASH document gives.
session_log :
    (host_after session).net
    ≡ sent (0xC1 ∷ 0x02 ∷ 0x0B ∷ []) (0xC1 ∷ 0x02 ∷ 0x0B ∷ 0x0A ∷ 0x52 ∷ 0x7E ∷ [])
      ∷ accepted 7
      ∷ []
unfolding run turn serve watches accept_client consume_edge read_client bridge_feed feed_byte
    feed_flag bridge_handle_frame handle_ctrl bridge_reset crc_matches store_byte
    bridge_drain_callbacks may_drain bridge_drop_client ash_send write_frame write_all write_from
    encode stuff escape is_reserved ash_crc crc_from crc_byte crc_shifts crc_shift crc_tail
    ncp_reset reset_settle gpio_set gpio_get ioctl
session_log = refl

run-IsOrdered_example : IsOrdered (host_after session).net × IsValid (bridge_after session)
unfolding run turn serve watches accept_client consume_edge read_client bridge_feed feed_byte
    feed_flag bridge_handle_frame handle_ctrl bridge_reset crc_matches store_byte
    bridge_drain_callbacks may_drain bridge_drop_client ash_send write_frame write_all write_from
    encode stuff escape is_reserved ash_crc crc_from crc_byte crc_shifts crc_shift crc_tail
    ncp_reset reset_settle gpio_set gpio_get ioctl
run-IsOrdered_example =
    run-IsOrdered quick own_pins (connects ∷ asks_reset ∷ []) (host_of []) (host_after session)
      (bridge_after session) refl refl

-- `callback` from a client whose next number is 3, and "no callbacks" from the NCP.
abbrev serving : Bridge
serving = record half { ready = true; frm = 3 }

abbrev asked : List ℕ
asked = 0x05 ∷ 0x00 ∷ 0x06 ∷ []

abbrev no_callbacks : List ℕ
no_callbacks = 0x05 ∷ 0x80 ∷ 0x07 ∷ []

abbrev silent_bus : List ℕ
silent_bus = replicate 6 0xFF

abbrev answering : Host
answering = host_of (Retry.turn silent_bus 1 (ezsp_reply no_callbacks) (0x55 ∷ []))

handle_frame-relays_example :
    Gives
      (Answered serving 0x25 asked [] no_callbacks (0x55 ∷ []) [])
      (bridge_handle_frame quick own_pins serving (0x25 ∷ mask 0 asked) answering)
unfolding wrapped
handle_frame-relays_example =
    handle_frame-relays quick own_pins serving 0x25 asked silent_bus 1 no_callbacks (0x55 ∷ [])
      answering (omega arith) refl refl refl (omega arith) (omega arith) (omega arith) (omega arith)
      refl (omega arith) refl refl
