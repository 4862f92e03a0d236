-- ===== src/Control.antt =====
-- package/ezsp-spi/src/control.c: the option --ext-pan-id (`parse_ext_pan_id`) and the `strtoul` of the C
-- library; the modules below it are the control socket and the commands that ask the daemon.
-- A C string is the list of its characters before the NUL; `none` is `die`.
pub mod PanId
pub mod Shown
pub mod Stored
pub mod Status
pub mod Serve
pub mod Number
pub mod Lines
pub mod Fits
pub mod Agree
pub mod Requests
pub mod Lives
pub mod Commands
pub mod Verify
pub mod Tests
use openwrt_ezsp_spi.Prelude.{
  ℕ, zero, suc, ◌+◌, ◌-◌, ◌*◌, ◌%◌, Bool, true, false, ◌&&◌, ◌||◌, Option, none, some, List, [],
  ◌∷◌, length, ltb, leb, ◌==◌, if◌then◌else◌,
}

unfoldable pub is_space : ℕ → Bool
is_space ch = ch == 32 || (leb 9 ch && leb ch 13)

-- 36, which no base reaches, for a character that is no digit.
unfoldable pub digit_value : ℕ → ℕ
digit_value ch =
    if leb 48 ch && leb ch 57
    then ch - 48
    else if leb 65 ch && leb ch 90
    then ch - 55
    else if leb 97 ch && leb ch 122
    then ch - 87
    else 36

unfoldable pub skip_space : List ℕ → List ℕ
unfolding is_space
skip_space [] = []
skip_space (ch ∷ text) = if is_space ch then skip_space text else ch ∷ text

-- Whether a minus sign was read, and what is behind the sign.
unfoldable pub read_sign : List ℕ → Bool × List ℕ
read_sign [] = (false, [])
read_sign (ch ∷ text) =
    if ch == 45 then (true, text) else if ch == 43 then (false, text) else (false, ch ∷ text)

-- In base 16, "0x" before a digit is skipped.
unfoldable pub skip_prefix : ℕ → List ℕ → List ℕ
unfolding digit_value
skip_prefix base (nul ∷ x ∷ ch ∷ text) =
    if base == 16 && (nul == 48 && ((x == 120 || x == 88) && ltb (digit_value ch) 16))
    then ch ∷ text
    else nul ∷ x ∷ ch ∷ text
skip_prefix base text = text

-- The number of the digits at the start, after those that made `acc`, and the rest.
unfoldable pub read_digits : ℕ → ℕ → List ℕ → ℕ × List ℕ
unfolding digit_value
read_digits base acc [] = (acc, [])
read_digits base acc (ch ∷ text) =
    if ltb (digit_value ch) base
    then read_digits base (acc * base + digit_value ch) text
    else (acc, ch ∷ text)

-- ULONG_MAX on overflow; a minus sign negates as `unsigned long`.
unfoldable pub as_ulong : ℕ → Bool → ℕ → ℕ
as_ulong ulong_max minus v =
    if ltb ulong_max v then ulong_max else if minus then (suc ulong_max - v) % suc ulong_max else v

-- The C library's `strtoul` in base 10 or 16; `none`: no conversion, `*end` is the start.
unfoldable pub strtoul : ℕ → ℕ → List ℕ → Option (ℕ × List ℕ)
unfolding skip_space read_sign skip_prefix read_digits digit_value as_ulong
strtoul ulong_max base text =
    let signed = read_sign (skip_space text) in
    elim (skip_prefix base (signed.1)) [
      | [] ↦ none
      | ch ∷ rest ↦
          if ltb (digit_value ch) base
          then (let r = read_digits base (digit_value ch) rest in
              some (as_ulong ulong_max (signed.0) (r.0), r.1))
          else none
    ]

unfoldable pub is_separator : ℕ → Bool
is_separator ch = ch == 32 || (ch == 91 || (ch == 44 || ch == 58))

unfoldable pub skip_separators : List ℕ → List ℕ
unfolding is_separator
skip_separators [] = []
skip_separators (ch ∷ text) = if is_separator ch then skip_separators text else ch ∷ text

-- `v` before the bytes of the rest of the loop.
unfoldable pub keep_byte : ℕ → Option (List ℕ) → Option (List ℕ)
keep_byte v none = none
keep_byte v (some bytes) = if ltb 0xFF v then none else some (v ∷ bytes)

-- The loop with `8 - i` rounds left: the bytes it stores.
unfoldable pub parse_from : ℕ → ℕ → ℕ → List ℕ → Option (List ℕ)
unfolding skip_separators strtoul keep_byte
parse_from zero ulong_max base text = some []
parse_from (suc n) ulong_max base text = elim (skip_separators text) [
  | [] ↦ some []
  | ch ∷ rest ↦ elim (strtoul ulong_max base (ch ∷ rest)) [
    | none ↦ some []
    | some r ↦ keep_byte (r.0) (parse_from n ulong_max base (r.1))
  ]
]

unfoldable pub has_colon : List ℕ → Bool
has_colon [] = false
has_colon (ch ∷ text) = ch == 58 || has_colon text

unfoldable pub need_eight : Option (List ℕ) → Option (List ℕ)
need_eight none = none
need_eight (some bytes) = if length bytes == 8 then some bytes else none

unfoldable pub parse_ext_pan_id : ℕ → List ℕ → Option (List ℕ)
unfolding has_colon parse_from need_eight
parse_ext_pan_id ulong_max text =
    need_eight (parse_from 8 ulong_max (if has_colon text then 16 else 10) text)
