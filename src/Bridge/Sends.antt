-- ===== src/Bridge/Sends.antt =====
-- What `ash_send`, `ash_send_ack` and `ash_send_data` (package/ezsp-spi/src/bridge.c) do for a client.
use openwrt_ezsp_spi.Prelude.{
  ℕ, ◌+◌, ◌%◌, ◌≤◌, ◌<◌, ◌≡◌, refl, ap, true, false, ◌||◌, not, none, is_some, List, [], ◌∷◌,
  length, arith, ltb,
}
use openwrt_ezsp_spi.Config.{ash_max_frame}
use openwrt_ezsp_spi.Host.{Host, Action, pure, write_all}
use openwrt_ezsp_spi.Host.Total.{Gives, Gives->>=, Gives-else, pure-Gives}
use openwrt_ezsp_spi.Ash.Mask.{length-mask}
use openwrt_ezsp_spi.Bridge.{
  Bridge, write_frame, ash_send, ash_send_ack, ash_send_data, data_body, keep_frame,
}
use openwrt_ezsp_spi.Bridge.Retransmit.{frames_of}

-- What is still to be shifted out, what was sent to clients, newest first, and what is known of the
-- log of the bus; no ioctl fails.
pub record At (W : List Action → Type 0) (xs : List ℕ) (frames : List (List ℕ)) (h : Host)
    : Type 0 where
  pub left : h.miso ≡ xs
  pub frames_are : frames_of h.net ≡ frames
  pub wire_is : W h.wire
  pub alive : h.dies ≡ none

module _ {W : List Action → Type 0} {xs : List ℕ} {frames : List (List ℕ)} (b : Bridge)
    (con : is_some b.cli ≡ true) where
  ash_send-Gives :
      (body : List ℕ) (h : Host)
      → length body ≤ ash_max_frame
      → At W xs frames h
      → Gives (λ _ h'. At W xs (body ∷ frames) h') (ash_send b body h)
  unfolding ash_send write_frame write_all
  ash_send-Gives body h le at =
      Gives-else (not (is_some b.cli) || ltb (ash_max_frame + 2) (length body + 2)) (pure false)
        (write_frame body) h (ground (arith, con))
        (record {
          value = _;
          after = _;
          result = refl;
          holds = record {
            left = at.left;
            frames_are = ap (λ t. body ∷ t) at.frames_are;
            wire_is = at.wire_is;
            alive = at.alive;
          };
        })

  pub ash_send_ack-Gives :
      (h : Host)
      → At W xs frames h
      → Gives (λ _ h'. At W xs (((0x80 + b.ack % 8) ∷ []) ∷ frames) h') (ash_send_ack b h)
  unfolding ash_send_ack
  ash_send_ack-Gives h at =
      Gives->>= (ash_send b ((0x80 + b.ack % 8) ∷ [])) (λ _. pure tt) h
        (ash_send-Gives ((0x80 + b.ack % 8) ∷ []) h (omega arith) at)
        (λ _ h' at'. pure-Gives tt h' at')

pub ash_send_data-Gives :
    {W : List Action → Type 0} {xs : List ℕ} {frames : List (List ℕ)} (b : Bridge) (ezsp : List ℕ)
    (h : Host)
    → is_some b.cli ≡ true
    → length ezsp < ash_max_frame
    → At W xs frames h
    → Gives
        (λ b' h'. (b' ≡ keep_frame b (data_body b ezsp)) × At W xs (data_body b ezsp ∷ frames) h')
        (ash_send_data b ezsp h)
unfolding ash_send_data data_body keep_frame
ash_send_data-Gives b ezsp h con lt at =
    Gives-else (ltb ash_max_frame (length ezsp + 1)) (pure b) _ h (ground arith) (
      Gives->>= (ash_send (keep_frame b (data_body b ezsp)) (data_body b ezsp)) _ h
        (ash_send-Gives (keep_frame b (data_body b ezsp)) con (data_body b ezsp) h
          (omega (arith, length-mask 0 ezsp)) at)
        (λ _ h' at'. pure-Gives (keep_frame b (data_body b ezsp)) h' (refl, at')))
