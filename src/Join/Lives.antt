-- ===== src/Join/Lives.antt =====
-- `cmd_join` and `cmd_leave` end (package/ezsp-spi/src/zcl.c).
use openwrt_ezsp_spi.Prelude.{
  ℕ, zero, suc, ◌*◌, ◌≡◌, ◌≤◌, Bool, true, false, ◌&&◌, ◌||◌, not, Option, none, some, List, [],
  ◌∷◌, get_or, length, ◌==◌, if◌then◌else◌, arith, is_some, sym, subst,
}
use mathlib.Core.Option.{none-ne-some, some-injective}
use openwrt_ezsp_spi.Config.{
  Cfg, Pins, ember_network_down, ezsp_network_init, ezsp_stack_status_handler, ezsp_join_network,
  ezsp_leave_network, ezsp_get_configuration_value, ezsp_set_initial_security_state,
  ezsp_config_stack_profile,
}
use openwrt_ezsp_spi.Host.{Host, M, died, pure, usleep}
use openwrt_ezsp_spi.Host.Total.{Gives}
use openwrt_ezsp_spi.Host.Lives.{
  living, Lives, Lives->>=, Lives->>, Lives-if, pure-Lives, usleep-Lives,
}
use openwrt_ezsp_spi.Ncp.{ncp_reset}
use openwrt_ezsp_spi.Ncp.Steps.{ncp_reset-Holds}
use openwrt_ezsp_spi.Ezsp.{ezsp_cmd, ezsp_init, ezsp_poll_callback, succeeded}
use openwrt_ezsp_spi.Ezsp.Lives.{
  ezsp_cmd-Lives, ezsp_init-Lives, ezsp_poll_callback-Lives, scan_find-Lives,
}
use openwrt_ezsp_spi.Ezsp.Scan.{scan_find}
use openwrt_ezsp_spi.Zcl.{ezsp_apply_config}
use openwrt_ezsp_spi.Zcl.Lives.{ezsp_apply_config-Lives}
use openwrt_ezsp_spi.Join.{
  Ending, expired, rejected, bring_up, join_params, security_params, stored, judge, wait_join,
  join_once, join_attempts, attempts_of, is_up, is_transient, joinable, precheck, wrong_profile,
  join_network, join_with, cmd_join, wait_leave, leave_network, cmd_leave,
}

pub bring_up-Lives : (c : Cfg) (p : Pins) → Lives (bring_up c p)
unfolding bring_up
bring_up-Lives c p =
    Lives->> (if c.no_reset then pure tt else ncp_reset p) _
      (Lives-if c.no_reset _ _ (pure-Lives tt) (ncp_reset-Holds living p))
      (Lives->>= (ezsp_init c p) _ (ezsp_init-Lives c p) (λ ver. pure-Lives (is_some ver)))

wait_join-Lives : (n : ℕ) (c : Cfg) (p : Pins) (out : List ℕ) → Lives (wait_join n c p out)
unfolding wait_join
wait_join-Lives zero c p out = pure-Lives (expired, out)
wait_join-Lives (suc n) c p out = Lives->> (usleep 250000) _ (usleep-Lives 250000) (
    Lives->>= (ezsp_poll_callback c p 64 out) _ (ezsp_poll_callback-Lives c p 64 out)
      (λ r. judged (r.1) (judge (r.0) (r.1)) (wait_join-Lives n c p (r.1))))
  where
    judged :
        (out' : List ℕ) (o : Option Ending)
        → Lives (wait_join n c p out')
        → Lives (elim o as (λ _. M (Ending × List ℕ)) [
          | none ↦ wait_join n c p out'
          | some v ↦ pure (v, out')
        ])
    judged out' none more = more
    judged out' (some v) more = pure-Lives (v, out')

join_once-Lives :
    (c : Cfg) (p : Pins) (params out : List ℕ)
    → length params ≤ 155
    → Lives (join_once c p params out)
unfolding join_once
join_once-Lives c p params out le =
    Lives->>= (ezsp_cmd c p ezsp_join_network params 64) _
      (ezsp_cmd-Lives c p ezsp_join_network params 64 le)
      (λ r.
        Lives-if (not (succeeded r)) _ _ (pure-Lives (rejected, stored r out))
          (wait_join-Lives (c.join_timeout * 4) c p (stored r out)))

join_attempts-Lives :
    (left : ℕ) (c : Cfg) (p : Pins) (params out : List ℕ)
    → length params ≤ 155
    → Lives (join_attempts left c p params out)
unfolding join_attempts
join_attempts-Lives zero c p params out le =
    Lives->>= (join_once c p params out) _ (join_once-Lives c p params out le)
      (λ r. pure-Lives (is_up (r.0)))
join_attempts-Lives (suc left) c p params out le =
    Lives->>= (join_once c p params out) _ (join_once-Lives c p params out le) (λ r.
      Lives-if (is_transient (r.0)) _ _
        (Lives->> (usleep 5000000) _ (usleep-Lives 5000000)
          (join_attempts-Lives left c p params (r.1) le))
        (pure-Lives (is_up (r.0))))

precheck-Lives : (c : Cfg) (p : Pins) (pan_id : ℕ) (out : List ℕ) → Lives (precheck c p pan_id out)
unfolding precheck
precheck-Lives c p pan_id out = Lives-if c.no_precheck _ _ (pure-Lives (some (c.ext_pan_id, 0))) (
    Lives->>= (scan_find c p c.channel pan_id out) _ (scan_find-Lives c p c.channel pan_id out)
      (λ r. pure-Lives (joinable c r)))

join_network-Lives :
    (c : Cfg) (p : Pins) (pan_id : ℕ) (out : List ℕ) (target : Option (List ℕ × ℕ))
    → Lives (join_network c p pan_id out target)
unfolding join_network security_params join_params
join_network-Lives c p pan_id out none = pure-Lives false
join_network-Lives c p pan_id out (some (ext, id)) =
    Lives->>= (ezsp_apply_config c p) _ (ezsp_apply_config-Lives c p) (λ endpoint.
      Lives->>= (ezsp_cmd c p ezsp_get_configuration_value (ezsp_config_stack_profile ∷ []) 64) _
        (ezsp_cmd-Lives c p ezsp_get_configuration_value (ezsp_config_stack_profile ∷ []) 64
          (omega arith))
        (λ profile. Lives-if (wrong_profile profile) _ _ (pure-Lives false) (
          Lives->>= (ezsp_cmd c p ezsp_set_initial_security_state (security_params c) 64) _
            (ezsp_cmd-Lives c p ezsp_set_initial_security_state (security_params c) 64
              (omega arith))
            (λ secured. Lives-if (not (succeeded secured)) _ _ (pure-Lives false) (
              join_attempts-Lives (attempts_of c.join_retries) c p (join_params c pan_id ext id)
                (stored secured (stored profile out)) (omega arith))))))

join_with-Lives :
    (c : Cfg) (p : Pins) (pan_id : ℕ) (out : List ℕ) → Lives (join_with c p pan_id out)
unfolding join_with
join_with-Lives c p pan_id out = Lives->>= (bring_up c p) _ (bring_up-Lives c p) (λ ready.
    Lives-if (not ready) _ _ (pure-Lives false) (
      Lives->>= (precheck c p pan_id out) _ (precheck-Lives c p pan_id out)
        (λ target. join_network-Lives c p pan_id out target)))

join_run-Lives :
    (c : Cfg) (p : Pins) (out : List ℕ) (pan_id : ℕ)
    → c.pan_id ≡ some pan_id
    → (c.channel == 0) ≡ false
    → (not c.have_ext_pan_id && c.no_precheck) ≡ false
    → Lives (cmd_join c p out)
unfolding cmd_join
join_run-Lives c p out pan_id given channel ext =
    judged c.pan_id given (join_with-Lives c p pan_id out)
  where
    judged :
        (o : Option ℕ)
        → o ≡ some pan_id
        → Lives (join_with c p pan_id out)
        → Lives (elim o as (λ _. M Bool) [
          | none ↦ λ h. died
          | some pan_id ↦
              if c.channel == 0 || (not c.have_ext_pan_id && c.no_precheck)
              then (λ h. died)
              else join_with c p pan_id out
        ])
    judged none e lives = absurd (none-ne-some pan_id e)
    judged (some other) e lives =
        rw (channel, ext)
          (subst (λ id. Lives (join_with c p id out)) (sym (some-injective other pan_id e)) lives)

wait_leave-Lives : (n : ℕ) (c : Cfg) (p : Pins) (out : List ℕ) → Lives (wait_leave n c p out)
unfolding wait_leave
wait_leave-Lives zero c p out = pure-Lives false
wait_leave-Lives (suc n) c p out = Lives->> (usleep 250000) _ (usleep-Lives 250000) (
    Lives->>= (ezsp_poll_callback c p 64 out) _ (ezsp_poll_callback-Lives c p 64 out) (λ r.
      Lives-if (r.0 == ezsp_stack_status_handler && get_or (r.1) 0 0 == ember_network_down) _ _
        (pure-Lives true) (wait_leave-Lives n c p (r.1))))

leave_network-Lives : (c : Cfg) (p : Pins) (out : List ℕ) → Lives (leave_network c p out)
unfolding leave_network
leave_network-Lives c p out =
    Lives->>= (ezsp_apply_config c p) _ (ezsp_apply_config-Lives c p) (λ endpoint.
      Lives->>= (ezsp_cmd c p ezsp_network_init [] 64) _
        (ezsp_cmd-Lives c p ezsp_network_init [] 64 (omega arith))
        (λ restored.
          Lives->>= (ezsp_cmd c p ezsp_leave_network [] 64) _
            (ezsp_cmd-Lives c p ezsp_leave_network [] 64 (omega arith))
            (λ left.
              Lives-if (not (succeeded left)) _ _ (pure-Lives false)
                (wait_leave-Lives 40 c p (stored left (stored restored out))))))

pub cmd_leave-Lives : (c : Cfg) (p : Pins) (out : List ℕ) → Lives (cmd_leave c p out)
unfolding cmd_leave
cmd_leave-Lives c p out =
    Lives->>= (bring_up c p) _ (bring_up-Lives c p)
      (λ ready. Lives-if (not ready) _ _ (pure-Lives false) (leave_network-Lives c p out))

-- A join ends, whatever the NCP says or does not say, as long as no ioctl fails: with the channel,
-- the pan id and what is needed of the ext pan id given, the command returns a result.
pub cmd_join_returns :
    (c : Cfg) (p : Pins) (out : List ℕ) (pan_id : ℕ) (h : Host)
    → c.pan_id ≡ some pan_id
    → (c.channel == 0) ≡ false
    → (not c.have_ext_pan_id && c.no_precheck) ≡ false
    → h.dies ≡ none
    → Gives (λ joined h'. h'.dies ≡ none) (cmd_join c p out h)
cmd_join_returns c p out pan_id h given channel ext alive =
    join_run-Lives c p out pan_id given channel ext h alive
