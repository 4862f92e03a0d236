-- ===== src/Main.antt =====
-- package/ezsp-spi/src/main.c: what the options and the first argument choose. `getopt_long` is the C
-- library's; its results, one for each `case`, are the list of options. What `usage` prints is left
-- out.
pub mod Options
pub mod ExtPanId
pub mod Lines
pub mod Tests
use openwrt_ezsp_spi.Prelude.{
  ℕ, zero, suc, ◌+◌, ◌-◌, ◌%◌, ◌^◌, Bool, true, false, ◌&&◌, ◌||◌, not, Option, none, some, List,
  [], ◌∷◌, length, get_or, set, ltb, ◌==◌, if◌then◌else◌, min,
}
use openwrt_ezsp_spi.Config.{Cfg}
use openwrt_ezsp_spi.Board.{Settings, Mode, follow, low, high, input}
use openwrt_ezsp_spi.Text.{codes}
use openwrt_ezsp_spi.Control.{
  parse_ext_pan_id, strtoul, skip_space, read_sign, read_digits, skip_prefix, digit_value,
}
use openwrt_ezsp_spi.Control.Number.{number, signed_number}
use openwrt_ezsp_spi.Control.Serve.{Longs, equal_texts}

-- What the options are left in: `cfg`, and whether the ext pan id is to be reversed.
pub record Setup : Type 0 where
  pub cfg : Cfg
  pub lines : Settings
  pub spidev : List ℕ
  pub gpiochip : List ℕ
  pub sock_path : List ℕ
  pub bind_addr : List ℕ
  pub bridge_port : ℕ
  pub speed : ℕ
  pub verbose : Bool
  pub reverse_ext_pan_id : Bool

-- An option with its text, or without one; `opt_unknown` is what getopt_long does not know.
pub data Opt : Type 0 where
  opt_spidev opt_chip opt_reset opt_wake opt_int opt_nssel_int opt_nssel_int_mode opt_speed
        opt_gap_us opt_wait_bytes opt_channel opt_pan_id opt_ext_pan_id opt_tx_power opt_sec_bitmask
        opt_join_timeout opt_join_retries opt_report_secs opt_ezsp_version opt_port opt_bind
        opt_socket :
      List ℕ → Opt
  opt_no_reset opt_no_wake opt_reverse_ext_pan_id opt_no_precheck opt_verbose opt_help opt_unknown :
      Opt

-- `die`, the end by `usage` with an exit status, or on to the next option.
pub data Parsed : Type 0 where
  dead : Parsed
  usage : ℕ → Parsed
  go : Setup → Parsed

-- The words that pins_open looks for; any other word has the effect of "high".
unfoldable pub mode_of : List ℕ → Mode
mode_of text =
    if equal_texts text (codes "input")
    then input
    else if equal_texts text (codes "low")
    then low
    else if equal_texts text (codes "follow")
    then follow
    else high

abbrev pub with_cfg : Setup → Cfg → Parsed
with_cfg s c = go (record s { cfg = c })

abbrev pub with_lines : Setup → Settings → Parsed
with_lines s r = go (record s { lines = r })

unfoldable pub store_ext_pan_id : Setup → Option (List ℕ) → Parsed
store_ext_pan_id s none = dead
store_ext_pan_id s (some bytes) =
    with_cfg s (record s.cfg { ext_pan_id = bytes; have_ext_pan_id = true })

-- The `switch`.
unfoldable pub set_option : Longs → Setup → Opt → Parsed
unfolding number signed_number mode_of store_ext_pan_id
set_option l s (opt_spidev text) = go (record s { spidev = text })
set_option l s (opt_chip text) = go (record s { gpiochip = text })
set_option l s (opt_reset text) =
    with_lines s (record s.lines { reset_line = number l text; reset_set = true })
set_option l s (opt_wake text) =
    with_lines s (record s.lines { wake_line = number l text; wake_set = true })
set_option l s (opt_int text) =
    with_lines s (record s.lines { int_line = number l text; int_set = true })
set_option l s (opt_nssel_int text) =
    with_lines s (record s.lines { nssel_int_line = number l text; nssel_int_set = true })
set_option l s (opt_nssel_int_mode text) = with_lines s (record s.lines { mode = mode_of text })
set_option l s (opt_speed text) = go (record s { speed = number l text })
set_option l s (opt_gap_us text) = with_cfg s (record s.cfg { gap_us = number l text })
set_option l s (opt_wait_bytes text) = with_cfg s (record s.cfg { wait_bytes = number l text })
set_option l s (opt_channel text) = with_cfg s (record s.cfg { channel = number l text })
set_option l s (opt_pan_id text) =
    with_cfg s (record s.cfg { pan_id = some (number l text % 2 ^ 16) })
set_option l s (opt_ext_pan_id text) = store_ext_pan_id s (parse_ext_pan_id l.ulong_max text)
set_option l s (opt_tx_power text) = with_cfg s (record s.cfg { tx_power = signed_number l text })
set_option l s (opt_sec_bitmask text) =
    with_cfg s (record s.cfg { sec_bitmask = number l text % 2 ^ 16 })
set_option l s (opt_join_timeout text) = with_cfg s (record s.cfg { join_timeout = number l text })
set_option l s (opt_join_retries text) = with_cfg s (record s.cfg { join_retries = number l text })
set_option l s (opt_report_secs text) = with_cfg s (record s.cfg { report_secs = number l text })
set_option l s (opt_ezsp_version text) = with_cfg s (record s.cfg { ezsp_want = number l text })
set_option l s (opt_port text) = go (record s { bridge_port = number l text })
set_option l s (opt_bind text) = go (record s { bind_addr = text })
set_option l s (opt_socket text) = go (record s { sock_path = text })
set_option l s opt_no_reset = with_cfg s (record s.cfg { no_reset = true })
set_option l s opt_no_wake = with_cfg s (record s.cfg { wake_handshake = false })
set_option l s opt_reverse_ext_pan_id = go (record s { reverse_ext_pan_id = true })
set_option l s opt_no_precheck = with_cfg s (record s.cfg { no_precheck = true })
set_option l s opt_verbose = go (record s { verbose = true })
set_option l s opt_help = usage 0
set_option l s opt_unknown = usage 1

-- The `while` loop.
unfoldable pub read_options : Longs → Setup → List Opt → Parsed
read_options l s [] = go s
read_options l s (o ∷ os) = elim (set_option l s o) [
  | dead ↦ dead
  | usage status ↦ usage status
  | go s' ↦ read_options l s' os
]

-- Two elements of a C array change places.
unfoldable pub swap : List ℕ → ℕ → ℕ → List ℕ
swap bytes a b = set (set bytes a (get_or bytes b 0)) b (get_or bytes a 0)

-- `for (a = 0, b = 7; a < b; a++, b--)`
unfoldable pub reversed : List ℕ → List ℕ
unfolding swap
reversed bytes = swap (swap (swap (swap bytes 0 7) 1 6) 2 5) 3 4

unfoldable pub turned : Setup → Setup
unfolding reversed
turned s =
    if s.reverse_ext_pan_id
    then record s { cfg = record s.cfg { ext_pan_id = reversed s.cfg.ext_pan_id } }
    else s

pub data Command : Type 0 where
  run_probe run_info run_status run_config run_policy run_keys run_neighbors run_permit run_power
        run_bootloader run_verify run_scan run_join run_bridge run_run run_leave :
      Command

unfoldable pub command_of : List ℕ → Option Command
unfolding equal_texts
command_of cmd =
    if equal_texts cmd (codes "probe")
    then some run_probe
    else if equal_texts cmd (codes "info")
    then some run_info
    else if equal_texts cmd (codes "status")
    then some run_status
    else if equal_texts cmd (codes "config")
    then some run_config
    else if equal_texts cmd (codes "policy")
    then some run_policy
    else if equal_texts cmd (codes "keys")
    then some run_keys
    else if equal_texts cmd (codes "neighbors")
    then some run_neighbors
    else if equal_texts cmd (codes "permit")
    then some run_permit
    else if equal_texts cmd (codes "power")
    then some run_power
    else if equal_texts cmd (codes "bootloader")
    then some run_bootloader
    else if equal_texts cmd (codes "verify")
    then some run_verify
    else if equal_texts cmd (codes "scan")
    then some run_scan
    else if equal_texts cmd (codes "join")
    then some run_join
    else if equal_texts cmd (codes "bridge")
    then some run_bridge
    else if equal_texts cmd (codes "run")
    then some run_run
    else if equal_texts cmd (codes "leave")
    then some run_leave
    else none

-- How `main` goes on: it ends with `die` or `usage`, or a command starts with its `cfg`.
pub data Started : Type 0 where
  dead : Started
  usage : ℕ → Started
  starts : Command → Setup → Started

-- The ext pan id is turned around behind `probe`, which comes first.
unfoldable pub start : List ℕ → Setup → Started
unfolding command_of turned
start cmd s = elim (command_of cmd) [
  | none ↦ usage 1
  | some run_probe ↦ starts run_probe s
  | some other ↦ starts other (turned s)
]

-- `none`: there is no first argument.
unfoldable pub main : Longs → Setup → Option (List ℕ) → List Opt → Started
unfolding read_options start
main l s none os = usage 1
main l s (some cmd) os = elim (read_options l s os) [
  | dead ↦ dead
  | usage status ↦ usage status
  | go s' ↦ start cmd s'
]
