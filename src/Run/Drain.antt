-- ===== src/Run/Drain.antt =====
-- The loop of `cmd_run` that drains the callbacks (package/ezsp-spi/src/control.c).
use openwrt_ezsp_spi.Prelude.{
  ℕ, zero, suc, ◌<◌, ◌≡◌, refl, true, false, ◌&&◌, Option, none, some, List, length, ltb, get_or,
  ◌==◌, ◌!=◌, arith, Bool-cases, inl, inr,
}
use openwrt_ezsp_spi.Config.{
  Cfg, Pins, ember_success, ezsp_incoming_message_handler, ezsp_message_sent_handler,
  zcl_cluster_basic, ezsp_send_unicast,
}
use openwrt_ezsp_spi.Host.{Host}
use openwrt_ezsp_spi.Host.Run.{Ensures, returns, Ensures->>=, Ensures-then, Ensures-else}
use openwrt_ezsp_spi.Host.Eats.{Eats, Eats->>=, pure-Eats, eating}
use openwrt_ezsp_spi.Host.Discipline.{of_if}
use openwrt_ezsp_spi.Ezsp.{ezsp_cmd, ezsp_poll_callback, succeeded}
use openwrt_ezsp_spi.Ezsp.Fed.{ezsp_cmd-Eats, ezsp_poll_callback-Fed}
use openwrt_ezsp_spi.Zcl.{
  next_tag, unicast_params, zcl_send, answer_to, send_answer, zcl_handle_incoming, count_report,
}
use openwrt_ezsp_spi.Run.{handle_callback, drain, drain_all}

zcl_send-Eats :
    (c : Cfg) (p : Pins) (dest cluster : ℕ) (payload : List ℕ)
    → Eats (zcl_send c p dest cluster payload)
unfolding zcl_send next_tag
zcl_send-Eats c p dest cluster payload =
    of_if eating (ltb 64 (length payload)) _ _ (pure-Eats false) (
      Eats->>= next_tag _ (λ h. returns (omega arith))
        (λ tag.
          Eats->>= (ezsp_cmd c p ezsp_send_unicast (unicast_params tag dest cluster payload) 8) _
            (ezsp_cmd-Eats c p ezsp_send_unicast (unicast_params tag dest cluster payload) 8)
            (λ r. pure-Eats (succeeded r))))

send_answer-Eats : (c : Cfg) (p : Pins) (a : Option (ℕ × List ℕ)) → Eats (send_answer c p a)
unfolding send_answer
send_answer-Eats c p none = pure-Eats tt
send_answer-Eats c p (some (sender, resp)) =
    Eats->>= (zcl_send c p sender zcl_cluster_basic resp) _
      (zcl_send-Eats c p sender zcl_cluster_basic resp) (λ handed. pure-Eats tt)

handle_callback-Eats :
    (c : Cfg) (p : Pins) (location : List ℕ) (id : ℕ) (out : List ℕ)
    → Eats (handle_callback c p location id out)
unfolding handle_callback zcl_handle_incoming count_report
handle_callback-Eats c p location id out =
    of_if eating (id == ezsp_incoming_message_handler) _ _
      (send_answer-Eats c p (answer_to location out))
      (of_if eating (id == ezsp_message_sent_handler && get_or out 15 0 != ember_success) _ _
        (λ h. returns (omega arith)) (pure-Eats tt))

drain_ends :
    (fuel : ℕ) (c : Cfg) (p : Pins) (location out : List ℕ) (h : Host)
    → length h.miso < fuel
    → Ensures (λ r h'. r.0 ≡ true) (drain fuel c p location out h)
unfolding drain
drain_ends zero c p location out h lt = absurd (omega arith)
drain_ends (suc fuel) c p location out h lt =
    Ensures->>= (ezsp_poll_callback c p 64 out) _ h (ezsp_poll_callback-Fed c p 64 out h)
      (λ r h₁ fed. elim (Bool-cases (r.0 == 0)) [
        | inl last ↦ Ensures-then (r.0 == 0) _ _ h₁ last (returns refl)
        | inr called ↦ Ensures-else (r.0 == 0) _ _ h₁ called (
            Ensures->>= (handle_callback c p location (r.0) (r.1)) _ h₁
              (handle_callback-Eats c p location (r.0) (r.1) h₁)
              (λ _ h₂ le. drain_ends fuel c p location (r.1) h₂ (omega (arith, fed.0 called))))
      ])

-- The fuel is enough, in every run that returns.
pub drain_all_stops :
    (c : Cfg) (p : Pins) (location out : List ℕ) (h : Host)
    → Ensures (λ r h'. r.0 ≡ true) (drain_all c p location out h)
unfolding drain_all
drain_all_stops c p location out h =
    drain_ends (suc (length h.miso)) c p location out h (omega arith)
