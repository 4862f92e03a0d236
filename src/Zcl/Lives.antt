-- ===== src/Zcl/Lives.antt =====
-- What zcl.c asks of the NCP ends (package/ezsp-spi/src/zcl.c).
use openwrt_ezsp_spi.Prelude.{
  ℕ, Option, none, some, List, length, ltb, arith, Bool, Bool-cases, inl, inr, true, false, refl,
}
use openwrt_ezsp_spi.Config.{Cfg, Pins, zcl_cluster_basic}
use openwrt_ezsp_spi.Host.Lives.{Lives, Lives->>=, pure-Lives}
use openwrt_ezsp_spi.Ezsp.{ezsp_cmd, ezsp_set_config}
use openwrt_ezsp_spi.Ezsp.Lives.{ezsp_cmd-Lives, ezsp_set_config-Lives}
use openwrt_ezsp_spi.Zcl.{
  ezsp_add_endpoint, endpoint_params, next_tag, unicast_params, zcl_send, answer_to, send_answer,
  zcl_handle_incoming, report, count_report, zcl_report, ezsp_apply_config,
}

next_tag-Lives : Lives next_tag
unfolding next_tag
next_tag-Lives h alive = record { value = _; after = _; result = refl; holds = alive }

zcl_send-Lives :
    (c : Cfg) (p : Pins) (dest cluster : ℕ) (payload : List ℕ)
    → Lives (zcl_send c p dest cluster payload)
unfolding zcl_send unicast_params
zcl_send-Lives c p dest cluster payload = elim (Bool-cases (ltb 64 (length payload))) [
  | inl long ↦ rw long (pure-Lives false)
  | inr fits ↦ rw fits (
      Lives->>= next_tag _ next_tag-Lives (λ tag.
        Lives->>= (ezsp_cmd c p _ (unicast_params tag dest cluster payload) 8) _
          (ezsp_cmd-Lives c p _ (unicast_params tag dest cluster payload) 8 (ground arith))
          (λ r. pure-Lives _)))
]

send_answer-Lives : (c : Cfg) (p : Pins) (a : Option (ℕ × List ℕ)) → Lives (send_answer c p a)
unfolding send_answer
send_answer-Lives c p none = pure-Lives tt
send_answer-Lives c p (some (sender, resp)) =
    Lives->>= (zcl_send c p sender zcl_cluster_basic resp) _
      (zcl_send-Lives c p sender zcl_cluster_basic resp) (λ handed. pure-Lives tt)

pub zcl_handle_incoming-Lives :
    (c : Cfg) (p : Pins) (location m : List ℕ) → Lives (zcl_handle_incoming c p location m)
unfolding zcl_handle_incoming
zcl_handle_incoming-Lives c p location m = send_answer-Lives c p (answer_to location m)

pub count_report-Lives : (handed : Bool) → Lives (count_report handed)
unfolding count_report
count_report-Lives true h alive = record { value = tt; after = _; result = refl; holds = alive }
count_report-Lives false h alive = record { value = tt; after = _; result = refl; holds = alive }

pub zcl_report-Lives : (c : Cfg) (p : Pins) → Lives (zcl_report c p)
unfolding zcl_report
zcl_report-Lives c p =
    Lives->>= (zcl_send c p 0x0000 zcl_cluster_basic report) _
      (zcl_send-Lives c p 0x0000 zcl_cluster_basic report) (λ handed. count_report-Lives handed)

ezsp_add_endpoint-Lives : (c : Cfg) (p : Pins) → Lives (ezsp_add_endpoint c p)
unfolding ezsp_add_endpoint
ezsp_add_endpoint-Lives c p =
    Lives->>= (ezsp_cmd c p _ endpoint_params 8) _
      (ezsp_cmd-Lives c p _ endpoint_params 8 (omega arith)) (λ r. pure-Lives _)

pub ezsp_apply_config-Lives : (c : Cfg) (p : Pins) → Lives (ezsp_apply_config c p)
unfolding ezsp_apply_config
ezsp_apply_config-Lives c p =
    Lives->>= (ezsp_set_config c p _ 2) _ (ezsp_set_config-Lives c p _ 2) (λ _.
      Lives->>= (ezsp_set_config c p _ 5) _ (ezsp_set_config-Lives c p _ 5) (λ _.
        Lives->>= (ezsp_set_config c p _ 4) _ (ezsp_set_config-Lives c p _ 4) (λ _.
          Lives->>= (ezsp_set_config c p _ 2) _ (ezsp_set_config-Lives c p _ 2)
            (λ _. ezsp_add_endpoint-Lives c p))))
