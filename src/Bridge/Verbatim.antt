-- ===== src/Bridge/Verbatim.antt =====
-- One DATA frame of a client, from the ASH frame to the NCP and back
-- (package/ezsp-spi/src/bridge.c, `bridge_handle_frame`).
use openwrt_ezsp_spi.Prelude.{
  ℕ, ◌+◌, ◌*◌, ◌%◌, ◌/◌, ◌≤◌, ◌<◌, ◌≡◌, ◌^◌, refl, sym, subst, ap, ◌∙◌, true, false, ◌&&◌, ◌||◌,
  not, none, is_some, List, [], ◌∷◌, length, arith, ltb, leb, ◌==◌, bit_and, holds_below,
  holds_below_at,
}
use openwrt_ezsp_spi.Config.{Cfg, Pins, ash_max_frame, ash_ctrl_rst}
use openwrt_ezsp_spi.Host.{Host, Action, M, pure, ◌>>=◌}
use openwrt_ezsp_spi.Host.Total.{Gives, Gives->>=, Gives-after, Gives-else}
use openwrt_ezsp_spi.Probe.Retry.{turn}
use openwrt_ezsp_spi.Probe.Told.{Told}
use openwrt_ezsp_spi.Ash.{mask}
use openwrt_ezsp_spi.Ash.Mask.{mask-mask, length-mask}
use openwrt_ezsp_spi.Bridge.{Bridge, ash_send_ack, data_body, keep_frame}
use openwrt_ezsp_spi.Bridge.Relay.{wrapped, ezsp_relay}
use openwrt_ezsp_spi.Bridge.Handle.{
  next_ack, agreed, answer, handle_data, handle_ctrl, bridge_handle_frame,
}
use openwrt_ezsp_spi.Bridge.Valid.{adopt-frm, adopt-ack}
use openwrt_ezsp_spi.Bridge.Retransmit.{frames_of}
use openwrt_ezsp_spi.Bridge.Sends.{At, ash_send_ack-Gives}
use openwrt_ezsp_spi.Bridge.Answer.{
  ezsp_reply, heard_back, Relayed, Replied, relay-Gives, answer-Gives,
}

ctrl_table :
    holds_below
      (λ x.
        not (x == ash_ctrl_rst)
        && not (bit_and x 0xE0 == 0x80)
        && not (bit_and x 0xE0 == 0xA0)
        && not (leb 0x80 x))
      128
    ≡ true
unfolding holds_below
ctrl_table = refl

-- The bridge and the process behind a DATA frame with this control byte and EZSP frame, answered by
-- `payload`; `before` is the log of the bus before it.
pub record Answered (b : Bridge) (ctrl : ℕ) (ezsp : List ℕ) (before : List Action)
    (payload rest : List ℕ) (frames : List (List ℕ)) (b' : Bridge) (h' : Host) : Type 0 where
  pub next_frame : b'.frm ≡ (b.frm + 1) % 8
  pub acknowledged : b'.ack ≡ (ctrl / 2 ^ 4 % 8 + 1) % 8
  pub stands :
      At
        (Told (wrapped ezsp) before)
        rest
        (((b.frm % 8 * 16 + (ctrl / 2 ^ 4 % 8 + 1) % 8) ∷ mask 0 payload)
          ∷ ((0x80 + (ctrl / 2 ^ 4 % 8 + 1) % 8) ∷ [])
          ∷ frames)
        h'

data_ctrl :
    (x : ℕ)
    → x < 128
    → ((x == ash_ctrl_rst) ≡ false)
      × ((bit_and x 0xE0 == 0x80) ≡ false)
      × ((bit_and x 0xE0 == 0xA0) ≡ false)
      × (leb 0x80 x ≡ false)
data_ctrl x lt = ground (
  arith,
  holds_below_at
      (λ x.
        not (x == ash_ctrl_rst)
        && not (bit_and x 0xE0 == 0x80)
        && not (bit_and x 0xE0 == 0xA0)
        && not (leb 0x80 x))
      128 x lt ctrl_table,
)

handle_data-Gives :
    (c : Cfg) (p : Pins) (b : Bridge) (ctrl : ℕ) (ezsp junk : List ℕ) (k : ℕ)
    (payload rest : List ℕ) {frames : List (List ℕ)} {before : List Action} (h : Host)
    → is_some b.cli ≡ true
    → p.hint ≡ none
    → 1 ≤ length ezsp
    → length ezsp ≤ ash_max_frame
    → 1 ≤ length payload
    → length payload < ash_max_frame
    → length junk ≡ length (wrapped ezsp)
    → k < c.wait_bytes
    → At (λ w. w ≡ before) (turn junk k (ezsp_reply payload) rest) frames h
    → Gives
        (Answered b ctrl ezsp before payload rest frames)
        (handle_data c p b ctrl (mask 0 ezsp) h)
unfolding handle_data next_ack
handle_data-Gives c p b ctrl ezsp junk k payload rest {frames} {before} h con quiet pos le pos' lt n
      soon at =
    Gives-else (length (mask 0 ezsp) == 0 || ltb ash_max_frame (length (mask 0 ezsp))) (pure b) _ h
      (ground (arith, length-mask 0 ezsp))
      (Gives->>= (ash_send_ack b₁) (λ _. relayed) h (ash_send_ack-Gives b₁ con h at)
        (λ _ h₁ at₁.
          Gives->>= (ezsp_relay c p (mask 0 (mask 0 ezsp)) ash_max_frame) _ h₁
            (subst
              (λ t.
                Gives
                  (Relayed ezsp before payload rest (((0x80 + next_ack ctrl % 8) ∷ []) ∷ frames))
                  (ezsp_relay c p t ash_max_frame h₁))
              (sym (mask-mask 0 ezsp))
              (relay-Gives c p ezsp junk k payload rest h₁ pos le (omega arith) n soon at₁))
            (λ r h₂ q.
              Gives-after
                (subst
                  (λ t.
                    Gives
                      (Replied (Told (wrapped ezsp) before) b₁ (mask 0 (mask 0 ezsp)) payload rest
                        (((0x80 + next_ack ctrl % 8) ∷ []) ∷ frames))
                      (answer c p b₁ (mask 0 (mask 0 ezsp)) t h₂))
                  (sym q.0)
                  (answer-Gives c p b₁ (mask 0 (mask 0 ezsp)) payload h₂ con quiet pos' lt q.1))
                (λ b' h₃ a. answered a.0 a.1))))
  where
    b₁ : Bridge
    b₁ = record b { ack = next_ack ctrl }

    small_ack : (ctrl / 2 ^ 4 % 8 + 1) % 8 % 8 ≡ (ctrl / 2 ^ 4 % 8 + 1) % 8
    small_ack = omega arith

    answered :
        {b' : Bridge} {h' : Host}
        → b'
          ≡ keep_frame
              (heard_back b₁ (mask 0 (mask 0 ezsp)) payload)
              (data_body (heard_back b₁ (mask 0 (mask 0 ezsp)) payload) payload)
        → At
            (Told (wrapped ezsp) before)
            rest
            (data_body b₁ payload ∷ ((0x80 + next_ack ctrl % 8) ∷ []) ∷ frames)
            h'
        → Answered b ctrl ezsp before payload rest frames b' h'
    answered {h' = h'} e at' = record {
      next_frame =
          ap (λ (t : Bridge). t.frm) e
          ∙ unfold keep_frame in
            ap (λ n. (n + 1) % 8) (adopt-frm b₁ (agreed b₁.ver (mask 0 (mask 0 ezsp)) payload));
      acknowledged =
          ap (λ (t : Bridge). t.ack) e
          ∙ unfold keep_frame in adopt-ack b₁ (agreed b₁.ver (mask 0 (mask 0 ezsp)) payload);
      stands =
          subst
            (λ n.
              At (Told (wrapped ezsp) before) rest
                (((b.frm % 8 * 16 + n) ∷ mask 0 payload) ∷ ((0x80 + n) ∷ []) ∷ frames) h')
            small_ack (unfold data_body in at');
    }

    relayed : M Bridge
    relayed = do
      reply ← ezsp_relay c p (mask 0 (mask 0 ezsp)) ash_max_frame
      answer c p (record b { ack = next_ack ctrl }) (mask 0 (mask 0 ezsp)) reply

-- A DATA frame of a client whose session is open, on an NCP without nHOST_INT that answers the
-- next command with an EZSP frame in time, no ioctl failing: the bridge returns. It has clocked the
-- client's EZSP frame out to the NCP as it stands, in the frame that SPI wants around it, and sent
-- the client exactly two frames, first the acknowledgement of the number behind the client's, then
-- one DATA frame with its own number and that acknowledgement, which unmasks to the NCP's frame as
-- it stands. Its next number is one further, and the bus stands behind the NCP's answer. That is
-- for any EZSP frame of 1 to 140 bytes from the client and any of 1 to 139 from the NCP.
pub handle_frame-relays :
    (c : Cfg) (p : Pins) (b : Bridge) (ctrl : ℕ) (ezsp junk : List ℕ) (k : ℕ)
    (payload rest : List ℕ) (h : Host)
    → ctrl < 0x80
    → b.ready ≡ true
    → is_some b.cli ≡ true
    → p.hint ≡ none
    → 1 ≤ length ezsp
    → length ezsp ≤ ash_max_frame
    → 1 ≤ length payload
    → length payload < ash_max_frame
    → length junk ≡ length (wrapped ezsp)
    → k < c.wait_bytes
    → h.miso ≡ turn junk k (ezsp_reply payload) rest
    → h.dies ≡ none
    → Gives
        (Answered b ctrl ezsp h.wire payload rest (frames_of h.net))
        (bridge_handle_frame c p b (ctrl ∷ mask 0 ezsp) h)
unfolding bridge_handle_frame handle_ctrl
handle_frame-relays c p b ctrl ezsp junk k payload rest h is_data is_open con quiet pos le pos' lt n
      soon m d =
    let other = data_ctrl ctrl is_data in
    Gives-else (ctrl == ash_ctrl_rst) _ _ h other.0 (
      Gives-else (bit_and ctrl 0xE0 == 0x80) _ _ h other.1 (
        Gives-else (bit_and ctrl 0xE0 == 0xA0) _ _ h other.2 (
          Gives-else (leb 0x80 ctrl) _ _ h other.3 (
            Gives-else (not b.ready) (pure b) (handle_data c p b ctrl (mask 0 ezsp)) h
              (ap not is_open)
              (handle_data-Gives c p b ctrl ezsp junk k payload rest h con quiet pos le pos' lt n
                soon (record { left = m; frames_are = refl; wire_is = refl; alive = d }))))))
