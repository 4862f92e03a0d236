-- ===== src/Main/Options.antt =====
-- What one option changes (package/ezsp-spi/src/main.c).
use openwrt_ezsp_spi.Prelude.{
  ℕ, ◌≡◌, refl, Bool, true, false, ◌||◌, Option, none, some, List, [], ◌∷◌, arith,
}
use openwrt_ezsp_spi.Control.{parse_ext_pan_id}
use openwrt_ezsp_spi.Control.Serve.{Longs}
use openwrt_ezsp_spi.Main.{
  Setup, Parsed, dead, usage, go, Opt, opt_ext_pan_id, opt_reverse_ext_pan_id, opt_spidev, opt_chip,
  opt_reset, opt_wake, opt_int, opt_nssel_int, opt_nssel_int_mode, opt_speed, opt_gap_us,
  opt_wait_bytes, opt_channel, opt_pan_id, opt_tx_power, opt_sec_bitmask, opt_join_timeout,
  opt_join_retries, opt_report_secs, opt_ezsp_version, opt_port, opt_bind, opt_socket, opt_no_reset,
  opt_no_wake, opt_no_precheck, opt_verbose, opt_help, opt_unknown, set_option, store_ext_pan_id,
}

-- `P` holds of the setup, if the loop goes on.
abbrev pub OnGo : (Setup → Type 0) → Parsed → Type 0
OnGo P dead = Unit
OnGo P (usage status) = Unit
OnGo P (go s) = P s

-- What follows a step, if the loop goes on.
abbrev pub next : Parsed → (Setup → Parsed) → Parsed
next r f = elim r [ dead ↦ dead | usage status ↦ usage status | go s ↦ f s ]

pub OnGo-next :
    (P Q : Setup → Type 0) (r : Parsed) (f : Setup → Parsed)
    → OnGo P r
    → ((s : Setup) → P s → OnGo Q (f s))
    → OnGo Q (next r f)
OnGo-next P Q dead f holds k = tt
OnGo-next P Q (usage status) f holds k = tt
OnGo-next P Q (go s) f holds k = k s holds

pub OnGo-any : (r : Parsed) → OnGo (λ s. Unit) r
OnGo-any dead = tt
OnGo-any (usage status) = tt
OnGo-any (go s) = tt

abbrev pub gives_ext_pan_id : Opt → Bool
gives_ext_pan_id (opt_ext_pan_id text) = true
gives_ext_pan_id opt_reverse_ext_pan_id = false
gives_ext_pan_id (opt_spidev text) = false
gives_ext_pan_id (opt_chip text) = false
gives_ext_pan_id (opt_reset text) = false
gives_ext_pan_id (opt_wake text) = false
gives_ext_pan_id (opt_int text) = false
gives_ext_pan_id (opt_nssel_int text) = false
gives_ext_pan_id (opt_nssel_int_mode text) = false
gives_ext_pan_id (opt_speed text) = false
gives_ext_pan_id (opt_gap_us text) = false
gives_ext_pan_id (opt_wait_bytes text) = false
gives_ext_pan_id (opt_channel text) = false
gives_ext_pan_id (opt_pan_id text) = false
gives_ext_pan_id (opt_tx_power text) = false
gives_ext_pan_id (opt_sec_bitmask text) = false
gives_ext_pan_id (opt_join_timeout text) = false
gives_ext_pan_id (opt_join_retries text) = false
gives_ext_pan_id (opt_report_secs text) = false
gives_ext_pan_id (opt_ezsp_version text) = false
gives_ext_pan_id (opt_port text) = false
gives_ext_pan_id (opt_bind text) = false
gives_ext_pan_id (opt_socket text) = false
gives_ext_pan_id opt_no_reset = false
gives_ext_pan_id opt_no_wake = false
gives_ext_pan_id opt_no_precheck = false
gives_ext_pan_id opt_verbose = false
gives_ext_pan_id opt_help = false
gives_ext_pan_id opt_unknown = false

abbrev pub is_reverse : Opt → Bool
is_reverse (opt_ext_pan_id text) = false
is_reverse opt_reverse_ext_pan_id = true
is_reverse (opt_spidev text) = false
is_reverse (opt_chip text) = false
is_reverse (opt_reset text) = false
is_reverse (opt_wake text) = false
is_reverse (opt_int text) = false
is_reverse (opt_nssel_int text) = false
is_reverse (opt_nssel_int_mode text) = false
is_reverse (opt_speed text) = false
is_reverse (opt_gap_us text) = false
is_reverse (opt_wait_bytes text) = false
is_reverse (opt_channel text) = false
is_reverse (opt_pan_id text) = false
is_reverse (opt_tx_power text) = false
is_reverse (opt_sec_bitmask text) = false
is_reverse (opt_join_timeout text) = false
is_reverse (opt_join_retries text) = false
is_reverse (opt_report_secs text) = false
is_reverse (opt_ezsp_version text) = false
is_reverse (opt_port text) = false
is_reverse (opt_bind text) = false
is_reverse (opt_socket text) = false
is_reverse opt_no_reset = false
is_reverse opt_no_wake = false
is_reverse opt_no_precheck = false
is_reverse opt_verbose = false
is_reverse opt_help = false
is_reverse opt_unknown = false

abbrev pub has_reverse : List Opt → Bool
has_reverse [] = false
has_reverse (o ∷ os) = is_reverse o || has_reverse os

stored-OnGo :
    (s : Setup) (r : Option (List ℕ))
    → OnGo (λ s'. s'.reverse_ext_pan_id ≡ s.reverse_ext_pan_id) (store_ext_pan_id s r)
unfolding store_ext_pan_id
stored-OnGo s none = tt
stored-OnGo s (some bytes) = refl

pub set_option-reverse :
    (l : Longs) (s : Setup) (o : Opt)
    → OnGo (λ s'. s'.reverse_ext_pan_id ≡ is_reverse o || s.reverse_ext_pan_id) (set_option l s o)
unfolding set_option
set_option-reverse l s (opt_ext_pan_id text) = stored-OnGo s (parse_ext_pan_id l.ulong_max text)
set_option-reverse l s opt_reverse_ext_pan_id = refl
set_option-reverse l s (opt_spidev text) = refl
set_option-reverse l s (opt_chip text) = refl
set_option-reverse l s (opt_reset text) = refl
set_option-reverse l s (opt_wake text) = refl
set_option-reverse l s (opt_int text) = refl
set_option-reverse l s (opt_nssel_int text) = refl
set_option-reverse l s (opt_nssel_int_mode text) = refl
set_option-reverse l s (opt_speed text) = refl
set_option-reverse l s (opt_gap_us text) = refl
set_option-reverse l s (opt_wait_bytes text) = refl
set_option-reverse l s (opt_channel text) = refl
set_option-reverse l s (opt_pan_id text) = refl
set_option-reverse l s (opt_tx_power text) = refl
set_option-reverse l s (opt_sec_bitmask text) = refl
set_option-reverse l s (opt_join_timeout text) = refl
set_option-reverse l s (opt_join_retries text) = refl
set_option-reverse l s (opt_report_secs text) = refl
set_option-reverse l s (opt_ezsp_version text) = refl
set_option-reverse l s (opt_port text) = refl
set_option-reverse l s (opt_bind text) = refl
set_option-reverse l s (opt_socket text) = refl
set_option-reverse l s opt_no_reset = refl
set_option-reverse l s opt_no_wake = refl
set_option-reverse l s opt_no_precheck = refl
set_option-reverse l s opt_verbose = refl
set_option-reverse l s opt_help = tt
set_option-reverse l s opt_unknown = tt

pub set_option-ext :
    (l : Longs) (s : Setup) (o : Opt)
    → gives_ext_pan_id o ≡ false
    → OnGo (λ s'. s'.cfg.ext_pan_id ≡ s.cfg.ext_pan_id) (set_option l s o)
unfolding set_option
set_option-ext l s (opt_ext_pan_id text) other = absurd (ground arith)
set_option-ext l s opt_reverse_ext_pan_id other = refl
set_option-ext l s (opt_spidev text) other = refl
set_option-ext l s (opt_chip text) other = refl
set_option-ext l s (opt_reset text) other = refl
set_option-ext l s (opt_wake text) other = refl
set_option-ext l s (opt_int text) other = refl
set_option-ext l s (opt_nssel_int text) other = refl
set_option-ext l s (opt_nssel_int_mode text) other = refl
set_option-ext l s (opt_speed text) other = refl
set_option-ext l s (opt_gap_us text) other = refl
set_option-ext l s (opt_wait_bytes text) other = refl
set_option-ext l s (opt_channel text) other = refl
set_option-ext l s (opt_pan_id text) other = refl
set_option-ext l s (opt_tx_power text) other = refl
set_option-ext l s (opt_sec_bitmask text) other = refl
set_option-ext l s (opt_join_timeout text) other = refl
set_option-ext l s (opt_join_retries text) other = refl
set_option-ext l s (opt_report_secs text) other = refl
set_option-ext l s (opt_ezsp_version text) other = refl
set_option-ext l s (opt_port text) other = refl
set_option-ext l s (opt_bind text) other = refl
set_option-ext l s (opt_socket text) other = refl
set_option-ext l s opt_no_reset other = refl
set_option-ext l s opt_no_wake other = refl
set_option-ext l s opt_no_precheck other = refl
set_option-ext l s opt_verbose other = refl
set_option-ext l s opt_help other = tt
set_option-ext l s opt_unknown other = tt
