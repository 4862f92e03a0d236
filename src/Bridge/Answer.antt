-- ===== src/Bridge/Answer.antt =====
-- An EZSP frame to the NCP and its answer to the client (package/ezsp-spi/src/bridge.c).
use openwrt_ezsp_spi.Prelude.{
  ℕ, ◌+◌, ◌*◌, ◌%◌, ◌≤◌, ◌<◌, ◌≡◌, refl, subst, ap, ap₂, ◌∙◌, true, false, ◌&&◌, ◌||◌, Option, none,
  some, is_some, List, [], ◌∷◌, ◌++◌, length, get_or, min, bytes_at, bytes_at-behind, take-all,
  arith, ltb, ◌==◌, if◌then◌else◌,
}
use openwrt_ezsp_spi.Config.{Cfg, Pins, ash_max_frame, spi_cmd_ezsp_frame, spi_frame_terminator}
use openwrt_ezsp_spi.Host.{Host, Action, pure}
use openwrt_ezsp_spi.Host.Run.{Ensures-ok}
use openwrt_ezsp_spi.Host.Total.{Gives, Gives->>=, Gives-else, pure-Gives}
use openwrt_ezsp_spi.Spi.Framing.{frame}
use openwrt_ezsp_spi.Probe.{RspClass, classify, class_of, is_reset, is_ezsp, do_cmd}
use openwrt_ezsp_spi.Spi.{spi_first_response}
use openwrt_ezsp_spi.Probe.Retry.{turn, answer_once}
use openwrt_ezsp_spi.Probe.Told.{Told, do_cmd-Told}
use openwrt_ezsp_spi.Host.Silent.{quiet}
use openwrt_ezsp_spi.Probe.Steps.{do_cmd-Holds}
use openwrt_ezsp_spi.Ash.{mask}
use openwrt_ezsp_spi.Bridge.{Bridge, ash_send_data, data_body, keep_frame}
use openwrt_ezsp_spi.Bridge.Relay.{
  wrapped, ezsp_relay, relay_tx_size, bridge_drain_callbacks, may_drain, drain_from,
}
use openwrt_ezsp_spi.Bridge.Handle.{agreed, adopt, answer}
use openwrt_ezsp_spi.Bridge.Valid.{adopt-cli, adopt-frm, adopt-ack}
use openwrt_ezsp_spi.Bridge.Retransmit.{frames_of}
use openwrt_ezsp_spi.Bridge.Sends.{At, ash_send_data-Gives}

-- The reply in which the NCP answers with an EZSP frame.
abbrev pub ezsp_reply : List ℕ → List ℕ
ezsp_reply payload = spi_cmd_ezsp_frame ∷ length payload ∷ payload ++ spi_frame_terminator ∷ []

ask-Gives :
    (c : Cfg) (p : Pins) (tx junk : List ℕ) (k : ℕ) (payload rest : List ℕ) {frames : List (List ℕ)}
    {before : List Action} (h : Host)
    → 1 ≤ length tx
    → length payload ≤ ash_max_frame
    → length junk ≡ length tx
    → k < c.wait_bytes
    → At (λ w. w ≡ before) (turn junk k (ezsp_reply payload) rest) frames h
    → Gives
        (λ r h'.
          (r ≡ ((classify (ezsp_reply payload)).0, ezsp_reply payload))
          × At (Told tx before) rest frames h')
        (do_cmd c p tx 260 true h)
ask-Gives c p tx junk k payload rest {frames} h pos small n lt at =
    let run =
      answer_once c p tx 260 (omega arith) (omega arith) true junk k rest h
        (frame payload (omega arith)) first_byte n lt at.left at.alive in
    record {
      value = _;
      after = run.after;
      result = run.result;
      holds = (
        refl,
        record {
          left = run.left;
          frames_are =
              ap (λ m. frames_of m.net)
                (Ensures-ok (do_cmd-Holds quiet c p tx 260 true h) run.result).same_memory
              ∙ at.frames_are;
          wire_is =
              subst (λ w. Told tx w run.after.wire) at.wire_is
                (Ensures-ok (do_cmd-Told c p tx 260 true h pos) run.result);
          alive = run.alive;
        },
      );
    }
  where
    first_byte : (is_reset (classify (ezsp_reply payload)).0 && true) ≡ false
    first_byte = unfold classify class_of is_reset spi_first_response in refl

abbrev pub Relayed :
    List ℕ → List Action → List ℕ → List ℕ → List (List ℕ) → Option (List ℕ) → Host → Type 0
Relayed ezsp before payload rest frames r h' =
    (r ≡ some payload) × At (Told (wrapped ezsp) before) rest frames h'

pub relay-Gives :
    (c : Cfg) (p : Pins) (ezsp junk : List ℕ) (k : ℕ) (payload rest : List ℕ)
    {frames : List (List ℕ)} {before : List Action} (h : Host)
    → 1 ≤ length ezsp
    → length ezsp ≤ ash_max_frame
    → length payload ≤ ash_max_frame
    → length junk ≡ length (wrapped ezsp)
    → k < c.wait_bytes
    → At (λ w. w ≡ before) (turn junk k (ezsp_reply payload) rest) frames h
    → Gives (Relayed ezsp before payload rest frames) (ezsp_relay c p ezsp ash_max_frame h)
unfolding ezsp_relay
relay-Gives c p ezsp junk k payload rest {frames} h pos le small n lt at =
    Gives-else (length ezsp == 0 || ltb 255 (length ezsp) || ltb relay_tx_size (length ezsp + 3))
      (pure none) _ h (ground arith)
      (Gives->>= (do_cmd c p (wrapped ezsp) 260 true) _ h
        (ask-Gives c p (wrapped ezsp) junk k payload rest h (unfold wrapped in omega arith) small n
          lt at)
        (λ r h' q. pure-Gives _ h' (ap taken q.0 ∙ whole, q.1)))
  where
    taken : RspClass × List ℕ → Option (List ℕ)
    taken r =
        if is_ezsp r.0 then some (bytes_at r.1 2 (min (get_or r.1 1 0) ash_max_frame)) else none

    whole : taken ((classify (ezsp_reply payload)).0, ezsp_reply payload) ≡ some payload
    whole =
        unfold classify class_of is_ezsp spi_first_response in
        ap some (
          bytes_at-behind (spi_cmd_ezsp_frame ∷ length payload ∷ []) payload
            (spi_frame_terminator ∷ []) ash_max_frame _ refl
          ∙ take-all payload ash_max_frame small)

-- What the reply does to the bridge, before it is sent.
abbrev pub heard_back : Bridge → List ℕ → List ℕ → Bridge
heard_back b ezsp payload = adopt b (agreed b.ver ezsp payload)

abbrev pub Replied :
    (List Action → Type 0)
    → Bridge
    → List ℕ
    → List ℕ
    → List ℕ
    → List (List ℕ)
    → Bridge
    → Host
    → Type 0
Replied W b ezsp payload xs frames b' h' =
    (b' ≡ keep_frame (heard_back b ezsp payload) (data_body (heard_back b ezsp payload) payload))
    × At W xs (data_body b payload ∷ frames) h'

pub answer-Gives :
    {W : List Action → Type 0} {xs : List ℕ} {frames : List (List ℕ)} (c : Cfg) (p : Pins)
    (b : Bridge) (ezsp payload : List ℕ) (h : Host)
    → is_some b.cli ≡ true
    → p.hint ≡ none
    → 1 ≤ length payload
    → length payload < ash_max_frame
    → At W xs frames h
    → Gives (Replied W b ezsp payload xs frames) (answer c p b ezsp (some payload) h)
unfolding answer bridge_drain_callbacks
answer-Gives c p b ezsp [] h con quiet pos lt at = absurd (omega arith)
answer-Gives {W} {xs} {frames} c p b ezsp (x ∷ ps) h con quiet pos lt at =
    Gives->>= (ash_send_data b₁ (x ∷ ps)) _ h
      (ash_send_data-Gives b₁ (x ∷ ps) h
        (ap is_some (adopt-cli b (agreed b.ver ezsp (x ∷ ps))) ∙ con) lt at)
      (λ b₂ h₂ q.
        Gives-else (may_drain p b₂) (drain_from 32 c p b₂) (pure b₂) h₂ (undrained b₂)
          (pure-Gives b₂ h₂ (q.0, subst (λ t. At W xs (t ∷ frames) h₂) same_body q.1)))
  where
    b₁ : Bridge
    b₁ = adopt b (agreed b.ver ezsp (x ∷ ps))

    same_body : data_body (adopt b (agreed b.ver ezsp (x ∷ ps))) (x ∷ ps) ≡ data_body b (x ∷ ps)
    same_body =
        unfold data_body in
        ap₂ (λ m n. (m % 8 * 16 + n % 8) ∷ mask 0 (x ∷ ps))
          (adopt-frm b (agreed b.ver ezsp (x ∷ ps))) (adopt-ack b (agreed b.ver ezsp (x ∷ ps)))

    undrained : (b' : Bridge) → may_drain p b' ≡ false
    undrained b' = unfold may_drain in ground (arith, quiet)
