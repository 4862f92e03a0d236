-- ===== src/Ezsp/Lives.antt =====
-- EZSP commands end, and so does the version negotiation (package/ezsp-spi/src/ezsp.c, zcl.c).
use openwrt_ezsp_spi.Prelude.{
  ℕ, zero, suc, ◌+◌, ◌≤◌, ◌%◌, Option, none, some, List, [], ◌∷◌, true, length, ltb, ◌!=◌,
  if◌then◌else◌, arith, ltb-eq-false, not, refl,
}
use openwrt_ezsp_spi.Config.{Cfg, Pins}
use openwrt_ezsp_spi.Host.{M, pure, usleep}
use openwrt_ezsp_spi.Host.Total.{Gives-else}
use openwrt_ezsp_spi.Host.Lives.{
  living, living, Lives, Lives->>=, Lives->>, Lives-if, pure-Lives, usleep-Lives,
}
use openwrt_ezsp_spi.Ncp.{ncp_reset}
use openwrt_ezsp_spi.Ncp.Steps.{ncp_reset-Holds}
use openwrt_ezsp_spi.Probe.{do_cmd, is_ezsp}
use openwrt_ezsp_spi.Probe.Steps.{do_cmd-Holds}
use openwrt_ezsp_spi.Ezsp.{
  reply_of, overlay, succeeded, next_seq, xfer_frame, ezsp_xfer, ezsp_cmd, set_version, ask_version,
  settle, ask_again, ezsp_init, ezsp_permit, ezsp_set_power, ezsp_set_config, ezsp_poll_callback,
}
use openwrt_ezsp_spi.Ezsp.Scan.{
  Heard, Found, scan_from, scan_find, scan_params, heard, this, complete, nothing, found, missing,
  refused,
}

next_seq-Lives : Lives next_seq
unfolding next_seq
next_seq-Lives h alive = record { value = _; after = _; result = refl; holds = alive }

pub ezsp_xfer-Lives :
    (c : Cfg) (p : Pins) (id : ℕ) (params : List ℕ) (max : ℕ)
    → length params ≤ 155
    → Lives (ezsp_xfer c p id params max)
unfolding ezsp_xfer
ezsp_xfer-Lives c p id params max le h alive =
    Gives-else (ltb 160 (length params + 5)) _ _ h
      (ltb-eq-false 160 (length params + 5) (omega arith))
      (Lives->>= next_seq _ next_seq-Lives
        (λ n.
          Lives->>= (do_cmd c p (xfer_frame n.1 n.0 id params) 260 true) _
            (do_cmd-Holds living c p (xfer_frame n.1 n.0 id params) 260 true)
            (λ r. pure-Lives (if is_ezsp r.0 then reply_of n.1 max r.1 else none)))
        h alive)

pub ezsp_cmd-Lives :
    (c : Cfg) (p : Pins) (id : ℕ) (params : List ℕ) (max : ℕ)
    → length params ≤ 155
    → Lives (ezsp_cmd c p id params max)
unfolding ezsp_cmd
ezsp_cmd-Lives c p id params max le =
    Lives->>= (ezsp_xfer c p id params max) _ (ezsp_xfer-Lives c p id params max le)
      (λ r. pure-Lives _)

set_version-Lives : (v : ℕ) → Lives (set_version v)
unfolding set_version
set_version-Lives v h alive = record { value = tt; after = _; result = refl; holds = alive }

ask_version-Lives : (c : Cfg) (p : Pins) (want : ℕ) → Lives (ask_version c p want)
unfolding ask_version
ask_version-Lives c p want = Lives->> (set_version 4) _ (set_version-Lives 4) (
    Lives->>= (ezsp_cmd c p _ (want ∷ []) 8) _ (ezsp_cmd-Lives c p _ (want ∷ []) 8 (omega arith))
      (λ r. pure-Lives _))

settle-Lives : (v : ℕ) → Lives (settle v)
unfolding settle
settle-Lives v = Lives->> (set_version v) _ (set_version-Lives v) (pure-Lives _)

ask_again-Lives : (c : Cfg) (p : Pins) (want : ℕ) → Lives (ask_again c p want)
unfolding ask_again
ask_again-Lives c p want =
    Lives->> (ncp_reset p) _ (ncp_reset-Holds living p)
      (Lives->>= (ask_version c p want) _ (ask_version-Lives c p want) judged)
  where
    judged :
        (r : Option ℕ)
        → Lives (elim r as (λ _. M (Option ℕ)) [
          | none ↦ pure none
          | some got ↦ if got != want then pure none else settle got
        ])
    judged none = pure-Lives none
    judged (some got) = Lives-if (got != want) _ _ (pure-Lives none) (settle-Lives got)

pub ezsp_init-Lives : (c : Cfg) (p : Pins) → Lives (ezsp_init c p)
unfolding ezsp_init
ezsp_init-Lives c p =
    Lives->>= (ask_version c p (c.ezsp_want % 256)) _ (ask_version-Lives c p (c.ezsp_want % 256))
      judged
  where
    judged :
        (r : Option ℕ)
        → Lives (elim r as (λ _. M (Option ℕ)) [
          | none ↦ pure none
          | some got ↦ if got != c.ezsp_want % 256 then ask_again c p got else settle got
        ])
    judged none = pure-Lives none
    judged (some got) =
        Lives-if (got != c.ezsp_want % 256) _ _ (ask_again-Lives c p got) (settle-Lives got)

pub ezsp_permit-Lives : (c : Cfg) (p : Pins) (seconds : ℕ) → Lives (ezsp_permit c p seconds)
unfolding ezsp_permit
ezsp_permit-Lives c p seconds =
    Lives->>= (ezsp_cmd c p _ (_ ∷ []) 8) _ (ezsp_cmd-Lives c p _ _ 8 (omega arith))
      (λ r. pure-Lives _)

pub ezsp_set_power-Lives : (c : Cfg) (p : Pins) (dbm : ℕ) → Lives (ezsp_set_power c p dbm)
unfolding ezsp_set_power
ezsp_set_power-Lives c p dbm =
    Lives->>= (ezsp_cmd c p _ (_ ∷ []) 8) _ (ezsp_cmd-Lives c p _ _ 8 (omega arith))
      (λ r. pure-Lives _)

pub ezsp_set_config-Lives :
    (c : Cfg) (p : Pins) (id value : ℕ) → Lives (ezsp_set_config c p id value)
unfolding ezsp_set_config
ezsp_set_config-Lives c p id value =
    Lives->>= (ezsp_cmd c p _ (id ∷ _ ∷ _ ∷ []) 4) _ (ezsp_cmd-Lives c p _ _ 4 (omega arith))
      (λ r. pure-Lives _)

pub ezsp_poll_callback-Lives :
    (c : Cfg) (p : Pins) (max : ℕ) (out : List ℕ) → Lives (ezsp_poll_callback c p max out)
unfolding ezsp_poll_callback
ezsp_poll_callback-Lives c p max out =
    Lives->>= (ezsp_xfer c p _ [] max) _ (ezsp_xfer-Lives c p _ [] max (omega arith))
      (λ r. pure-Lives _)

scan_from-Lives :
    (n : ℕ) (c : Cfg) (p : Pins) (pan_id : ℕ) (out : List ℕ) → Lives (scan_from n c p pan_id out)
unfolding scan_from
scan_from-Lives zero c p pan_id out = pure-Lives missing
scan_from-Lives (suc n) c p pan_id out = Lives->> (usleep 250000) _ (usleep-Lives 250000) (
    Lives->>= (ezsp_poll_callback c p 64 out) _ (ezsp_poll_callback-Lives c p 64 out)
      (λ r. judged (r.1) (heard pan_id (r.0) (r.1)) (scan_from-Lives n c p pan_id (r.1))))
  where
    judged :
        (out' : List ℕ) (said : Heard)
        → Lives (scan_from n c p pan_id out')
        → Lives (elim said as (λ _. M Found) [
          | this net ↦ pure (found net)
          | complete ↦ pure missing
          | nothing ↦ scan_from n c p pan_id out'
        ])
    judged out' (this net) more = pure-Lives (found net)
    judged out' complete more = pure-Lives missing
    judged out' nothing more = more

pub scan_find-Lives :
    (c : Cfg) (p : Pins) (channel pan_id : ℕ) (out : List ℕ)
    → Lives (scan_find c p channel pan_id out)
unfolding scan_find scan_params
scan_find-Lives c p channel pan_id out =
    Lives->>= (ezsp_cmd c p _ (scan_params channel) 64) _ (ezsp_cmd-Lives c p _ _ 64 (omega arith))
      judged
  where
    judged :
        (r : Option (List ℕ))
        → Lives (elim r as (λ _. M Found) [
          | none ↦ pure refused
          | some payload ↦
              if not (succeeded (some payload))
              then pure refused
              else scan_from 80 c p pan_id (overlay payload out)
        ])
    judged none = pure-Lives refused
    judged (some payload) =
        Lives-if (not (succeeded (some payload))) _ _ (pure-Lives refused)
          (scan_from-Lives 80 c p pan_id (overlay payload out))
