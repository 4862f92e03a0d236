-- ===== src/Board.antt =====
-- package/ezsp-spi/src/board.c: the table of boards, and which lines the program takes for itself.
-- The kernel's answers to requests are arguments: a descriptor, or `none` where it refuses. The
-- lines that were requested as outputs are the result, with the value that each starts with.
pub mod Lines
pub mod Tests
use openwrt_ezsp_spi.Prelude.{
  ℕ, zero, suc, ◌+◌, Bool, true, false, ◌&&◌, ◌||◌, not, Option, none, some, is_some, List, [], ◌∷◌,
  ◌++◌, ◌==◌, ◌!=◌, if◌then◌else◌,
}
use openwrt_ezsp_spi.Config.{Pins}

-- `struct board`, less the texts.
pub record Board : Type 0 where
  pub name : List ℕ
  pub reset : ℕ
  pub wake : ℕ
  pub hostint : ℕ
  pub nssel_int : ℕ
  pub nssel : ℕ
  pub forbid : ℕ

-- "whw03v2" and "whw03".
abbrev pub whw03 : List ℕ
whw03 = 0x77 ∷ 0x68 ∷ 0x77 ∷ 0x30 ∷ 0x33 ∷ []

abbrev pub velop_v2 : Board
velop_v2 = record {
  name = whw03 ++ 0x76 ∷ 0x32 ∷ [];
  reset = 49;
  wake = 31;
  hostint = 50;
  nssel_int = 29;
  nssel = 45;
  forbid = 0;
}

abbrev pub velop_v1 : Board
velop_v1 = record {
  name = whw03;
  reset = 49;
  wake = 55;
  hostint = 50;
  nssel_int = 56;
  nssel = 45;
  forbid = 29;
}

abbrev pub boards : List Board
boards = velop_v2 ∷ velop_v1 ∷ []

-- `strstr`
unfoldable pub starts_with : List ℕ → List ℕ → Bool
starts_with s [] = true
starts_with [] (x ∷ xs) = false
starts_with (c ∷ s) (x ∷ xs) = c == x && starts_with s xs

unfoldable pub contains : List ℕ → List ℕ → Bool
unfolding starts_with
contains [] t = starts_with [] t
contains (c ∷ s) t = starts_with (c ∷ s) t || contains s t

unfoldable pub first_match : List Board → List ℕ → Option Board
unfolding contains
first_match [] name = none
first_match (b ∷ bs) name = if contains name b.name then some b else first_match bs name

-- `none` where there is no file with the board's name.
unfoldable pub board_detect : Option (List ℕ) → Option Board
unfolding first_match
board_detect none = none
board_detect (some name) = first_match boards name

-- `nssel_int_mode`; any other word has the effect of `high`.
pub data Mode : Type 0 where
  follow low high input : Mode

-- What the command line leaves in `cfg` about the lines: a line, and whether it was given.
pub record Settings : Type 0 where
  pub reset_line : ℕ
  pub wake_line : ℕ
  pub int_line : ℕ
  pub nssel_int_line : ℕ
  pub cs_line : ℕ
  pub reset_set : Bool
  pub wake_set : Bool
  pub int_set : Bool
  pub nssel_int_set : Bool
  pub cs_set : Bool
  pub mode : Mode

unfoldable pub is_input : Mode → Bool
is_input input = true
is_input follow = false
is_input low = false
is_input high = false

abbrev pub with_board : Settings → Board → Settings
with_board s b = record s {
  reset_line = if not s.reset_set then b.reset else s.reset_line;
  wake_line = if not s.wake_set then b.wake else s.wake_line;
  int_line = if not s.int_set then b.hostint else s.int_line;
  nssel_int_line = if not s.nssel_int_set then b.nssel_int else s.nssel_int_line;
  cs_line = if not s.cs_set then b.nssel else s.cs_line;
}

-- `none` is the end by `die`.
unfoldable pub pins_autodetect : Settings → Option Board → Option Settings
unfolding is_input
pins_autodetect s none = some s
pins_autodetect s (some b) =
    if b.forbid != 0 && (with_board s b).nssel_int_line == b.forbid && not (is_input s.mode)
    then none
    else some (with_board s b)

-- What the kernel says to a request of a line as an output, and for edges.
pub record Kernel : Type 0 where
  pub output : ℕ → Option ℕ
  pub edges : ℕ → Option ℕ

unfoldable pub starts_high : Mode → Bool
starts_high low = false
starts_high follow = true
starts_high high = true
starts_high input = true

unfoldable pub is_follow : Mode → Bool
is_follow follow = true
is_follow low = false
is_follow high = false
is_follow input = false

abbrev pub Requested : Type 0
Requested = List (ℕ × Bool)

-- `gpio_request_output`, which ends the program where the kernel refuses.
unfoldable pub request_output : Kernel → ℕ → Option ℕ
request_output k line = k.output line

-- nSSEL_INT: left alone, or an output; the outer `none` is the end by `die`.
unfoldable pub open_nssel_int : Kernel → Settings → Option (Option ℕ) × Requested
unfolding request_output is_input starts_high
open_nssel_int k s =
    if is_input s.mode then (some none, []) else (elim (request_output k s.nssel_int_line) [
      | none ↦ (none, [])
      | some fd ↦ (some (some fd), (s.nssel_int_line, starts_high s.mode) ∷ [])
    ])

-- nSSEL: not an error if the kernel holds it, and not asked for if the line is 0.
unfoldable pub open_cs : Kernel → Settings → Option ℕ × Requested
open_cs k s =
    if s.cs_line != 0
    then (elim (k.output s.cs_line) [
      | none ↦ (none, [])
      | some fd ↦ (some fd, (s.cs_line, true) ∷ [])
    ])
    else (none, [])

-- What follows the requests for nRESET and nWAKE.
unfoldable pub open_rest : Kernel → Settings → ℕ → ℕ → Option Pins × Requested
unfolding open_nssel_int open_cs is_follow
open_rest k s nreset nwake =
    let (opened, driven) = open_nssel_int k s in
    let (cs, selected) = open_cs k s in
    elim opened [
      | none ↦ (none, driven)
      | some nssel_int ↦ (
        some (record {
          nreset = nreset;
          nwake = nwake;
          nssel_int = nssel_int;
          cs = cs;
          hint = k.edges s.int_line;
          follows = is_follow s.mode;
        }),
        driven ++ selected,
      )
    ]

-- The pins, if the program goes on, and the lines that were made outputs. The chip's device, which
-- each request opens, opens for nHOST_INT if it did for nRESET.
unfoldable pub open_lines : Kernel → Settings → Option Pins × Requested
unfolding open_rest
open_lines k s = elim (request_output k s.reset_line) [
  | none ↦ (none, [])
  | some nreset ↦ elim (request_output k s.wake_line) [
    | none ↦ (none, (s.reset_line, true) ∷ [])
    | some nwake ↦
        let (pins, driven) = open_rest k s nreset nwake in
        (pins, (s.reset_line, true) ∷ (s.wake_line, true) ∷ driven)
  ]
]

unfoldable pub open_detected : Kernel → Option Settings → Option Pins × Requested
unfolding open_lines
open_detected k none = (none, [])
open_detected k (some s) = open_lines k s

unfoldable pub pins_open : Kernel → Settings → Option (List ℕ) → Option Pins × Requested
unfolding board_detect pins_autodetect open_detected
pins_open k s name = open_detected k (pins_autodetect s (board_detect name))

abbrev descriptor : Option ℕ → List ℕ
descriptor none = []
descriptor (some fd) = fd ∷ []

-- The descriptors that are closed, in order; the pins are not used again.
unfoldable pub pins_close : Pins → List ℕ
pins_close p = descriptor p.cs ++ p.nreset ∷ p.nwake ∷ (descriptor p.nssel_int ++ descriptor p.hint)
