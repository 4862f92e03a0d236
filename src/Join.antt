-- ===== src/Join.antt =====
-- package/ezsp-spi/src/zcl.c: `cmd_join` and `cmd_leave`.
-- The pins and the SPI device are open (`p`); what only is printed is left out. `true` is the exit
-- status 0. `out` is the command's buffer of 64 bytes, whatever it holds when the command starts.
pub mod Watch
pub mod Campaign
pub mod Success
pub mod Open
pub mod Lives
pub mod Tests
use openwrt_ezsp_spi.Prelude.{
  ℕ, zero, suc, ◌+◌, ◌*◌, ◌%◌, ◌/◌, ◌^◌, Bool, true, false, ◌&&◌, ◌||◌, not, Option, none, some,
  is_some, List, [], ◌∷◌, ◌++◌, length, get_or, bytes_at, replicate, leb, ltb, ◌==◌, ◌!=◌,
  if◌then◌else◌,
}
use openwrt_ezsp_spi.Config.{
  Cfg, Pins, ember_success, ember_network_up, ember_network_down, ember_node_type_router,
  ember_use_mac_association, ezsp_network_init, ezsp_stack_status_handler, ezsp_join_network,
  ezsp_leave_network, ezsp_get_configuration_value, ezsp_set_initial_security_state,
  ezsp_config_stack_profile,
}
use openwrt_ezsp_spi.Host.{died, M, pure, ◌>>=◌, ◌>>◌, usleep}
use openwrt_ezsp_spi.Ncp.{ncp_reset}
use openwrt_ezsp_spi.Ezsp.{ezsp_cmd, ezsp_init, ezsp_poll_callback, succeeded, overlay}
use openwrt_ezsp_spi.Ezsp.Scan.{Network, Found, refused, missing, found, scan_find}
use openwrt_ezsp_spi.Zcl.{ezsp_apply_config, le16}

-- `out` behind a command with this result.
unfoldable pub stored : Option (List ℕ) → List ℕ → List ℕ
stored none out = out
stored (some payload) out = overlay payload out

-- The reset and the negotiation that every command starts with; `false` is a failed `ezsp_init`.
unfoldable pub bring_up : Cfg → Pins → M Bool
bring_up c p = do
  if c.no_reset then pure tt else ncp_reset p
  ver ← ezsp_init c p
  pure (is_some ver)

-- `EmberNodeType`, `EmberNetworkParameters`.
unfoldable pub join_params : Cfg → ℕ → List ℕ → ℕ → List ℕ
join_params c pan_id ext nwk_update_id =
    ember_node_type_router ∷ bytes_at ext 0 8
    ++ (le16 pan_id
        ++ c.tx_power % 256
          ∷ c.channel % 256
          ∷ ember_use_mac_association
          ∷ 0
          ∷ 0
          ∷ nwk_update_id
          ∷ replicate 4 0)

-- "ZigBeeAlliance09"
abbrev pub zigbee_alliance_09 : List ℕ
zigbee_alliance_09 =
    0x5A ∷ 0x69 ∷ 0x67 ∷ 0x42 ∷ 0x65 ∷ 0x65 ∷ 0x41 ∷ 0x6C ∷ 0x6C ∷ 0x69 ∷ 0x61 ∷ 0x6E ∷ 0x63 ∷ 0x65
    ∷ 0x30 ∷ 0x39 ∷ []

unfoldable pub security_params : Cfg → List ℕ
security_params c = le16 c.sec_bitmask ++ (zigbee_alliance_09 ++ replicate 24 0)

-- How an attempt ends: NETWORK_UP, a status that is worth another attempt, one that is not, no
-- status in time, or joinNetwork itself refused.
pub data Ending : Type 0 where
  up transient hopeless expired rejected : Ending

-- What a stack status decides, if anything.
unfoldable pub verdict_of : ℕ → Option Ending
verdict_of status =
    if status == ember_network_up
    then some up
    else if status == 0xAD || status == 0x94
    then some transient
    else if status == 0xAB || (status == 0x98 || status == 0xAF)
    then some hopeless
    else none

unfoldable pub judge : ℕ → List ℕ → Option Ending
unfolding verdict_of
judge id out = if id == ezsp_stack_status_handler then verdict_of (get_or out 0 0) else none

-- The wait for the result, with the rounds left; and `out` behind it.
unfoldable pub wait_join : ℕ → Cfg → Pins → List ℕ → M (Ending × List ℕ)
unfolding judge
wait_join zero c p out = pure (expired, out)
wait_join (suc n) c p out = do
  usleep 250000
  (id, out') ← ezsp_poll_callback c p 64 out
  elim (judge id out') [ none ↦ wait_join n c p out' | some v ↦ pure (v, out') ]

-- `cfg.join_timeout * 4` rounds; the product is one of `int`.
unfoldable pub join_once : Cfg → Pins → List ℕ → List ℕ → M (Ending × List ℕ)
unfolding wait_join stored
join_once c p params out = do
  r ← ezsp_cmd c p ezsp_join_network params 64
  if not (succeeded r)
      then pure (rejected, stored r out)
      else wait_join (c.join_timeout * 4) c p (stored r out)

unfoldable pub is_up : Ending → Bool
is_up up = true
is_up transient = false
is_up hopeless = false
is_up expired = false
is_up rejected = false

unfoldable pub is_transient : Ending → Bool
is_transient transient = true
is_transient up = false
is_transient hopeless = false
is_transient expired = false
is_transient rejected = false

-- From the label `attempt` on, with `attempts_left`.
unfoldable pub join_attempts : ℕ → Cfg → Pins → List ℕ → List ℕ → M Bool
unfolding join_once is_up is_transient
join_attempts zero c p params out = do
  (ending, out') ← join_once c p params out
  pure (is_up ending)
join_attempts (suc left) c p params out = do
  (ending, out') ← join_once c p params out
  let again = join_attempts left c p params out'
  if is_transient ending then (do usleep 5000000; again) else pure (is_up ending)

-- `(int)cfg.join_retries`: a number past INT_MAX is negative, and allows no retry.
unfoldable pub attempts_of : ℕ → ℕ
attempts_of retries = if ltb retries (2 ^ 31) then retries else 0

-- `cfg.ext_pan_id` and `nwk_update_id` behind a scan, unless it says that joining is no use.
unfoldable pub joinable : Cfg → Found → Option (List ℕ × ℕ)
joinable c refused = some (c.ext_pan_id, 0)
joinable c missing = none
joinable c (found net) = if net.allowing then some (net.ext, net.nwk_update_id) else none

unfoldable pub precheck : Cfg → Pins → ℕ → List ℕ → M (Option (List ℕ × ℕ))
unfolding joinable
precheck c p pan_id out =
    if c.no_precheck
    then pure (some (c.ext_pan_id, 0))
    else (do r ← scan_find c p c.channel pan_id out; pure (joinable c r))

-- `n >= 3 && out[0] == EMBER_SUCCESS && out[1] != 2`
unfoldable pub wrong_profile : Option (List ℕ) → Bool
wrong_profile none = false
wrong_profile (some out) =
    leb 3 (length out) && (get_or out 0 0 == ember_success && get_or out 1 0 != 2)

-- Behind the check: configuration, security state, and the attempts.
unfoldable pub join_network : Cfg → Pins → ℕ → List ℕ → Option (List ℕ × ℕ) → M Bool
unfolding join_params security_params join_attempts attempts_of wrong_profile stored
join_network c p pan_id out none = pure false
join_network c p pan_id out (some (ext, nwk_update_id)) = do
  endpoint ← ezsp_apply_config c p
  profile ← ezsp_cmd c p ezsp_get_configuration_value (ezsp_config_stack_profile ∷ []) 64
  if wrong_profile profile then pure false else (do
    secured ← ezsp_cmd c p ezsp_set_initial_security_state (security_params c) 64
    if not (succeeded secured)
        then pure false
        else join_attempts (attempts_of c.join_retries) c p (join_params c pan_id ext nwk_update_id)
            (stored secured (stored profile out)))

-- `cmd_join` when the options that it needs are there.
unfoldable pub join_with : Cfg → Pins → ℕ → List ℕ → M Bool
unfolding bring_up precheck join_network
join_with c p pan_id out = do
  ready ← bring_up c p
  if not ready
      then pure false
      else (do target ← precheck c p pan_id out; join_network c p pan_id out target)

unfoldable pub cmd_join : Cfg → Pins → List ℕ → M Bool
unfolding join_with
cmd_join c p out = elim c.pan_id [
  | none ↦ λ h. died
  | some pan_id ↦
      if c.channel == 0 || (not c.have_ext_pan_id && c.no_precheck)
      then (λ h. died)
      else join_with c p pan_id out
]

-- The wait of `cmd_leave`, with the rounds left.
unfoldable pub wait_leave : ℕ → Cfg → Pins → List ℕ → M Bool
wait_leave zero c p out = pure false
wait_leave (suc n) c p out = do
  usleep 250000
  (id, out') ← ezsp_poll_callback c p 64 out
  let more = wait_leave n c p out'
  let down = id == ezsp_stack_status_handler && get_or out' 0 0 == ember_network_down
  if down then pure true else more

unfoldable pub leave_network : Cfg → Pins → List ℕ → M Bool
unfolding wait_leave stored
leave_network c p out = do
  endpoint ← ezsp_apply_config c p
  restored ← ezsp_cmd c p ezsp_network_init [] 64
  left ← ezsp_cmd c p ezsp_leave_network [] 64
  if not (succeeded left) then pure false else wait_leave 40 c p (stored left (stored restored out))

unfoldable pub cmd_leave : Cfg → Pins → List ℕ → M Bool
unfolding bring_up leave_network
cmd_leave c p out = do ready ← bring_up c p; if not ready then pure false else leave_network c p out
