-- ===== src/Main/Lines.antt =====
-- A line that is given on the command line is the line that is used (package/ezsp-spi/src/main.c,
-- board.c).
use openwrt_ezsp_spi.Prelude.{
  ℕ, ◌≡◌, refl, subst, Bool, true, false, Option, none, some, List, [], ◌∷◌, ◌++◌, All,
  if◌then◌else◌, arith,
}
use openwrt_ezsp_spi.Board.{Settings, Board, with_board, pins_autodetect}
use openwrt_ezsp_spi.Control.{parse_ext_pan_id}
use openwrt_ezsp_spi.Control.Number.{number}
use openwrt_ezsp_spi.Control.Serve.{Longs}
use openwrt_ezsp_spi.Main.{
  Setup, Parsed, go, Opt, opt_spidev, opt_chip, opt_reset, opt_wake, opt_int, opt_nssel_int,
  opt_nssel_int_mode, opt_speed, opt_gap_us, opt_wait_bytes, opt_channel, opt_pan_id,
  opt_ext_pan_id, opt_tx_power, opt_sec_bitmask, opt_join_timeout, opt_join_retries,
  opt_report_secs, opt_ezsp_version, opt_port, opt_bind, opt_socket, opt_no_reset, opt_no_wake,
  opt_reverse_ext_pan_id, opt_no_precheck, opt_verbose, opt_help, opt_unknown, set_option,
  store_ext_pan_id, read_options,
}
use openwrt_ezsp_spi.Main.Options.{OnGo, OnGo-next, OnGo-any}

-- The lines that an option can give.
pub data Line : Type 0 where
  nreset nwake nhost_int nssel_int : Line

abbrev pub option_for : Line → List ℕ → Opt
option_for nreset text = opt_reset text
option_for nwake text = opt_wake text
option_for nhost_int text = opt_int text
option_for nssel_int text = opt_nssel_int text

abbrev pub line_of : Line → Settings → ℕ
line_of nreset r = r.reset_line
line_of nwake r = r.wake_line
line_of nhost_int r = r.int_line
line_of nssel_int r = r.nssel_int_line

abbrev pub is_given : Line → Settings → Bool
is_given nreset r = r.reset_set
is_given nwake r = r.wake_set
is_given nhost_int r = r.int_set
is_given nssel_int r = r.nssel_int_set

abbrev pub gives : Line → Opt → Bool
gives nreset (opt_reset text) = true
gives nreset (opt_wake text) = false
gives nreset (opt_int text) = false
gives nreset (opt_nssel_int text) = false
gives nwake (opt_reset text) = false
gives nwake (opt_wake text) = true
gives nwake (opt_int text) = false
gives nwake (opt_nssel_int text) = false
gives nhost_int (opt_reset text) = false
gives nhost_int (opt_wake text) = false
gives nhost_int (opt_int text) = true
gives nhost_int (opt_nssel_int text) = false
gives nssel_int (opt_reset text) = false
gives nssel_int (opt_wake text) = false
gives nssel_int (opt_int text) = false
gives nssel_int (opt_nssel_int text) = true
gives ln (opt_spidev text) = false
gives ln (opt_chip text) = false
gives ln (opt_nssel_int_mode text) = false
gives ln (opt_speed text) = false
gives ln (opt_gap_us text) = false
gives ln (opt_wait_bytes text) = false
gives ln (opt_channel text) = false
gives ln (opt_pan_id text) = false
gives ln (opt_ext_pan_id text) = false
gives ln (opt_tx_power text) = false
gives ln (opt_sec_bitmask text) = false
gives ln (opt_join_timeout text) = false
gives ln (opt_join_retries text) = false
gives ln (opt_report_secs text) = false
gives ln (opt_ezsp_version text) = false
gives ln (opt_port text) = false
gives ln (opt_bind text) = false
gives ln (opt_socket text) = false
gives ln opt_no_reset = false
gives ln opt_no_wake = false
gives ln opt_reverse_ext_pan_id = false
gives ln opt_no_precheck = false
gives ln opt_verbose = false
gives ln opt_help = false
gives ln opt_unknown = false

-- What is known of a line that was given as `n`.
abbrev IsHeld : Line → ℕ → Setup → Type 0
IsHeld ln n s = (is_given ln s.lines ≡ true) × (line_of ln s.lines ≡ n)

store-IsHeld :
    (ln : Line) (n : ℕ) (s : Setup) (r : Option (List ℕ))
    → IsHeld ln n s
    → OnGo (IsHeld ln n) (store_ext_pan_id s r)
unfolding store_ext_pan_id
store-IsHeld ln n s none held = tt
store-IsHeld ln n s (some bytes) held = held

set_option-IsHeld :
    (l : Longs) (ln : Line) (n : ℕ) (s : Setup) (o : Opt)
    → gives ln o ≡ false
    → IsHeld ln n s
    → OnGo (IsHeld ln n) (set_option l s o)
unfolding set_option
set_option-IsHeld l nreset n s (opt_reset text) other held = absurd (ground arith)
set_option-IsHeld l nreset n s (opt_wake text) other held = held
set_option-IsHeld l nreset n s (opt_int text) other held = held
set_option-IsHeld l nreset n s (opt_nssel_int text) other held = held
set_option-IsHeld l nwake n s (opt_reset text) other held = held
set_option-IsHeld l nwake n s (opt_wake text) other held = absurd (ground arith)
set_option-IsHeld l nwake n s (opt_int text) other held = held
set_option-IsHeld l nwake n s (opt_nssel_int text) other held = held
set_option-IsHeld l nhost_int n s (opt_reset text) other held = held
set_option-IsHeld l nhost_int n s (opt_wake text) other held = held
set_option-IsHeld l nhost_int n s (opt_int text) other held = absurd (ground arith)
set_option-IsHeld l nhost_int n s (opt_nssel_int text) other held = held
set_option-IsHeld l nssel_int n s (opt_reset text) other held = held
set_option-IsHeld l nssel_int n s (opt_wake text) other held = held
set_option-IsHeld l nssel_int n s (opt_int text) other held = held
set_option-IsHeld l nssel_int n s (opt_nssel_int text) other held = absurd (ground arith)
set_option-IsHeld l nreset n s (opt_nssel_int_mode text) other held = held
set_option-IsHeld l nwake n s (opt_nssel_int_mode text) other held = held
set_option-IsHeld l nhost_int n s (opt_nssel_int_mode text) other held = held
set_option-IsHeld l nssel_int n s (opt_nssel_int_mode text) other held = held
set_option-IsHeld l ln n s (opt_spidev text) other held = held
set_option-IsHeld l ln n s (opt_chip text) other held = held
set_option-IsHeld l ln n s (opt_speed text) other held = held
set_option-IsHeld l ln n s (opt_gap_us text) other held = held
set_option-IsHeld l ln n s (opt_wait_bytes text) other held = held
set_option-IsHeld l ln n s (opt_channel text) other held = held
set_option-IsHeld l ln n s (opt_pan_id text) other held = held
set_option-IsHeld l ln n s (opt_ext_pan_id text) other held =
    store-IsHeld ln n s (parse_ext_pan_id l.ulong_max text) held
set_option-IsHeld l ln n s (opt_tx_power text) other held = held
set_option-IsHeld l ln n s (opt_sec_bitmask text) other held = held
set_option-IsHeld l ln n s (opt_join_timeout text) other held = held
set_option-IsHeld l ln n s (opt_join_retries text) other held = held
set_option-IsHeld l ln n s (opt_report_secs text) other held = held
set_option-IsHeld l ln n s (opt_ezsp_version text) other held = held
set_option-IsHeld l ln n s (opt_port text) other held = held
set_option-IsHeld l ln n s (opt_bind text) other held = held
set_option-IsHeld l ln n s (opt_socket text) other held = held
set_option-IsHeld l ln n s opt_no_reset other held = held
set_option-IsHeld l ln n s opt_no_wake other held = held
set_option-IsHeld l ln n s opt_reverse_ext_pan_id other held = held
set_option-IsHeld l ln n s opt_no_precheck other held = held
set_option-IsHeld l ln n s opt_verbose other held = held
set_option-IsHeld l ln n s opt_help other held = tt
set_option-IsHeld l ln n s opt_unknown other held = tt

options-IsHeld :
    (l : Longs) (ln : Line) (n : ℕ) (s : Setup) (os : List Opt)
    → All (λ o. gives ln o ≡ false) os
    → IsHeld ln n s
    → OnGo (IsHeld ln n) (read_options l s os)
unfolding read_options
options-IsHeld l ln n s [] others held = held
options-IsHeld l ln n s (o ∷ os) others held =
    OnGo-next (IsHeld ln n) (IsHeld ln n) (set_option l s o) (λ s'. read_options l s' os)
      (set_option-IsHeld l ln n s o (others.0) held)
      (λ s' held'. options-IsHeld l ln n s' os (others.1) held')

option-IsHeld :
    (l : Longs) (ln : Line) (s : Setup) (text : List ℕ)
    → OnGo (IsHeld ln (number l text)) (set_option l s (option_for ln text))
unfolding set_option
option-IsHeld l nreset s text = (refl, refl)
option-IsHeld l nwake s text = (refl, refl)
option-IsHeld l nhost_int s text = (refl, refl)
option-IsHeld l nssel_int s text = (refl, refl)

given-IsHeld :
    (l : Longs) (ln : Line) (s : Setup) (before after : List Opt) (text : List ℕ)
    → All (λ o. gives ln o ≡ false) after
    → OnGo (IsHeld ln (number l text)) (read_options l s (before ++ option_for ln text ∷ after))
unfolding read_options
given-IsHeld l ln s [] after text others =
    OnGo-next (IsHeld ln (number l text)) (IsHeld ln (number l text))
      (set_option l s (option_for ln text)) (λ s'. read_options l s' after)
      (option-IsHeld l ln s text)
      (λ s' held. options-IsHeld l ln (number l text) s' after others held)
given-IsHeld l ln s (o ∷ before) after text others =
    OnGo-next (λ s'. Unit) (IsHeld ln (number l text)) (set_option l s o)
      (λ s'. read_options l s' (before ++ option_for ln text ∷ after)) (OnGo-any (set_option l s o))
      (λ s' any. given-IsHeld l ln s' before after text others)

with_board-IsHeld :
    (ln : Line) (n : ℕ) (r : Settings) (b : Board)
    → is_given ln r ≡ true
    → line_of ln r ≡ n
    → line_of ln (with_board r b) ≡ n
with_board-IsHeld nreset n r b given e = rw given e
with_board-IsHeld nwake n r b given e = rw given e
with_board-IsHeld nhost_int n r b given e = rw given e
with_board-IsHeld nssel_int n r b given e = rw given e

abbrev OnSome : (Settings → Type 0) → Option Settings → Type 0
OnSome P none = Unit
OnSome P (some r) = P r

OnSome-if :
    (P : Settings → Type 0) (refused : Bool) (r : Settings)
    → P r
    → OnSome P (if refused then none else some r)
OnSome-if P true r holds = tt
OnSome-if P false r holds = holds

detected :
    (ln : Line) (n : ℕ) (r : Settings) (b : Option Board)
    → is_given ln r ≡ true
    → line_of ln r ≡ n
    → OnSome (λ d. line_of ln d ≡ n) (pins_autodetect r b)
unfolding pins_autodetect
detected ln n r none given e = e
detected ln n r (some b) given e =
    OnSome-if (λ d. line_of ln d ≡ n) _ (with_board r b) (with_board-IsHeld ln n r b given e)

OnGo-ok : (P : Setup → Type 0) (r : Parsed) {s : Setup} → OnGo P r → r ≡ go s → P s
OnGo-ok P r holds e = subst (OnGo P) e holds

-- A line of the radio that is given on the command line, the last time it is given, is the line
-- that is used: no other option changes it, and detection of the board, which sets the lines that
-- were not given, leaves it alone.
pub autodetect-given :
    (l : Longs) (ln : Line) (s : Setup) (before after : List Opt) (text : List ℕ)
    (board : Option Board)
    → All (λ o. gives ln o ≡ false) after
    → {s' : Setup} {d : Settings} → read_options l s (before ++ option_for ln text ∷ after) ≡ go s'
    → pins_autodetect s'.lines board ≡ some d
    → line_of ln d ≡ number l text
autodetect-given l ln s before after text board others {s'} {d} parsed found =
    let held =
      OnGo-ok (IsHeld ln (number l text)) (read_options l s (before ++ option_for ln text ∷ after))
        (given-IsHeld l ln s before after text others) parsed in
    subst (OnSome (λ r. line_of ln r ≡ number l text)) found
      (detected ln (number l text) s'.lines board (held.0) (held.1))
