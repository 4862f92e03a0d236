-- ===== src/Control/PanId.antt =====
-- Which texts --ext-pan-id takes (package/ezsp-spi/src/control.c).
use openwrt_ezsp_spi.Prelude.{
  ℕ, suc, Bool, ◌+◌, ◌*◌, ◌/◌, ◌%◌, ◌≤◌, ◌<◌, ◌≡◌, refl, ap, subst, true, false, ◌&&◌, ◌||◌, not,
  some, List, [], ◌∷◌, length, arith, ◌==◌, IsBytes, holds_below, ltb-eq-false, lt→ltb, Bool-cases,
  inl, inr, holds_below_at,
}
use openwrt_ezsp_spi.Text.{hex_digit}
use openwrt_ezsp_spi.Control.{
  is_space, digit_value, skip_space, read_sign, skip_prefix, read_digits, strtoul, is_separator,
  skip_separators, keep_byte, parse_from, has_colon, need_eight, parse_ext_pan_id,
}

-- The bytes behind the first, each after its colon.
unfoldable pub hex_tail : List ℕ → List ℕ
unfolding hex_digit
hex_tail [] = []
hex_tail (b ∷ bytes) = 58 ∷ hex_digit (b / 16) ∷ hex_digit (b % 16) ∷ hex_tail bytes

-- Two digits for each byte, colons between them: the first notation of the comment in control.c.
unfoldable pub hex_text : List ℕ → List ℕ
unfolding hex_digit hex_tail
hex_text [] = []
hex_text (b ∷ bytes) = hex_digit (b / 16) ∷ hex_digit (b % 16) ∷ hex_tail bytes

abbrev IsDigit : ℕ → ℕ → Type 0
IsDigit d ch =
    (digit_value ch ≡ d)
    × (is_space ch ≡ false)
    × (is_separator ch ≡ false)
    × ((ch == 45) ≡ false)
    × ((ch == 43) ≡ false)
    × ((ch == 120) ≡ false)
    × ((ch == 88) ≡ false)
    × ((ch == 58) ≡ false)

abbrev digit_test : ℕ → Bool
digit_test d =
    let ch = hex_digit d in
    (digit_value ch == d)
    && not (
        is_space ch
        || (is_separator ch || (ch == 45 || (ch == 43 || (ch == 120 || (ch == 88 || ch == 58))))))

digit_table : holds_below digit_test 16 ≡ true
unfolding holds_below hex_digit digit_value is_space is_separator
digit_table = refl

hex_digit-IsDigit : (d : ℕ) → d < 16 → IsDigit d (hex_digit d)
hex_digit-IsDigit d lt = ground (arith, holds_below_at digit_test 16 d lt digit_table)

pub skip_space-kept :
    (ch : ℕ) (text : List ℕ) → is_space ch ≡ false → skip_space (ch ∷ text) ≡ ch ∷ text
unfolding skip_space
skip_space-kept ch text e = rw e refl

pub read_sign-unsigned :
    (ch : ℕ) (text : List ℕ)
    → (ch == 45) ≡ false
    → (ch == 43) ≡ false
    → read_sign (ch ∷ text) ≡ (false, ch ∷ text)
unfolding read_sign
read_sign-unsigned ch text minus plus = rw minus (rw plus refl)

skip_separators-kept :
    (ch : ℕ) (text : List ℕ) → is_separator ch ≡ false → skip_separators (ch ∷ text) ≡ ch ∷ text
unfolding skip_separators
skip_separators-kept ch text e = rw e refl

skip_prefix-pair :
    (hi lo : ℕ) (bytes : List ℕ)
    → (lo == 120) ≡ false
    → (lo == 88) ≡ false
    → skip_prefix 16 (hi ∷ lo ∷ hex_tail bytes) ≡ hi ∷ lo ∷ hex_tail bytes
unfolding skip_prefix hex_tail
skip_prefix-pair hi lo [] x cap_x = refl
skip_prefix-pair hi lo (b ∷ bytes) x cap_x =
    rw x (rw cap_x (elim (Bool-cases (hi == 48)) [ inl e ↦ rw e refl | inr e ↦ rw e refl ]))

read_digits-colon :
    (acc : ℕ) (bytes : List ℕ) → read_digits 16 acc (hex_tail bytes) ≡ (acc, hex_tail bytes)
unfolding read_digits hex_tail digit_value
read_digits-colon acc [] = refl
read_digits-colon acc (b ∷ bytes) = refl

read_digits-low :
    (hi lo ch : ℕ) (text : List ℕ)
    → digit_value ch ≡ lo
    → lo < 16
    → read_digits 16 hi (ch ∷ text) ≡ read_digits 16 (hi * 16 + lo) text
unfolding read_digits
read_digits-low hi lo ch text e lt = rw e (rw (lt→ltb lo 16 lt) refl)

strtoul-tail :
    (m hi lo hi_ch lo_ch : ℕ) (bytes : List ℕ)
    → 0xFF ≤ m
    → hi < 16
    → lo < 16
    → IsDigit hi hi_ch
    → IsDigit lo lo_ch
    → strtoul m 16 (hi_ch ∷ lo_ch ∷ hex_tail bytes) ≡ some (hi * 16 + lo, hex_tail bytes)
unfolding strtoul
strtoul-tail m hi lo hi_ch lo_ch bytes wide hi_lt lo_lt (v, sp, sep, minus, plus, x, cap_x, colon)
      (v', sp', sep', minus', plus', x', cap_x', colon') =
    rw
      (
        strtoul,
        skip_space-kept hi_ch (lo_ch ∷ hex_tail bytes) sp,
        read_sign-unsigned hi_ch (lo_ch ∷ hex_tail bytes) minus plus,
        skip_prefix-pair hi_ch lo_ch bytes x' cap_x',
        v,
        lt→ltb hi 16 hi_lt,
        read_digits-low hi lo lo_ch (hex_tail bytes) v' lo_lt,
        read_digits-colon (hi * 16 + lo) bytes,
        skip_space-kept hi_ch (lo_ch ∷ hex_tail bytes) sp,
        read_sign-unsigned hi_ch (lo_ch ∷ hex_tail bytes) minus plus,
        ltb-eq-false m (hi * 16 + lo) (omega arith),
      )
      refl

parse_from-step :
    (n m b : ℕ) (text bytes : List ℕ)
    → 0xFF ≤ m
    → b < 256
    → skip_separators text ≡ hex_digit (b / 16) ∷ hex_digit (b % 16) ∷ hex_tail bytes
    → parse_from n m 16 (hex_tail bytes) ≡ some bytes
    → parse_from (suc n) m 16 text ≡ some (b ∷ bytes)
unfolding parse_from keep_byte
parse_from-step n m b text bytes wide lt skipped after =
    let read =
      strtoul-tail m (b / 16) (b % 16) (hex_digit (b / 16)) (hex_digit (b % 16)) bytes wide
        (omega arith) (omega arith) (hex_digit-IsDigit (b / 16) (omega arith))
        (hex_digit-IsDigit (b % 16) (omega arith)) in
    rw (parse_from, skipped, read, after, ltb-eq-false 0xFF (b / 16 * 16 + b % 16) (omega arith))
      (ap (λ x. some (x ∷ bytes)) (omega arith))

hex_head-kept :
    (b : ℕ) (text : List ℕ)
    → b < 256
    → skip_separators (hex_digit (b / 16) ∷ text) ≡ hex_digit (b / 16) ∷ text
hex_head-kept b text lt =
    skip_separators-kept (hex_digit (b / 16)) text (hex_digit-IsDigit (b / 16) (omega arith)).2

parse_from-hex_tail :
    (m : ℕ) (bytes : List ℕ)
    → 0xFF ≤ m
    → IsBytes bytes
    → parse_from (length bytes) m 16 (hex_tail bytes) ≡ some bytes
unfolding parse_from hex_tail skip_separators is_separator
parse_from-hex_tail m [] wide all = refl
parse_from-hex_tail m (b ∷ bytes) wide all =
    parse_from-step (length bytes) m b (hex_tail (b ∷ bytes)) bytes wide (all.0)
      (hex_head-kept b (hex_digit (b % 16) ∷ hex_tail bytes) (all.0))
      (parse_from-hex_tail m bytes wide (all.1))

has_colon-hex_text : (b b' : ℕ) (bytes : List ℕ) → has_colon (hex_text (b ∷ b' ∷ bytes)) ≡ true
unfolding has_colon hex_text hex_tail
has_colon-hex_text b b' bytes = ground arith

need_eight-exact : (bytes : List ℕ) → length bytes ≡ 8 → need_eight (some bytes) ≡ some bytes
unfolding need_eight
need_eight-exact bytes e = rw e refl

-- For every eight bytes and an `unsigned long` that holds a byte, --ext-pan-id reads the bytes back
-- from the colon separated notation with two upper case digits for each byte.
pub parse_ext_pan_id-hex_text :
    (ulong_max : ℕ) (bytes : List ℕ)
    → 0xFF ≤ ulong_max
    → IsBytes bytes
    → length bytes ≡ 8
    → parse_ext_pan_id ulong_max (hex_text bytes) ≡ some bytes
unfolding parse_ext_pan_id hex_text
parse_ext_pan_id-hex_text m [] wide all eight = absurd (omega arith)
parse_ext_pan_id-hex_text m (b ∷ []) wide all eight = absurd (omega arith)
parse_ext_pan_id-hex_text m (b ∷ b' ∷ bytes) wide all eight =
    let eight' : length (b' ∷ bytes) ≡ 7 = omega arith in
    let rest =
      subst (λ n. parse_from n m 16 (hex_tail (b' ∷ bytes)) ≡ some (b' ∷ bytes)) eight'
        (parse_from-hex_tail m (b' ∷ bytes) wide (all.1)) in
    let parsed =
      parse_from-step 7 m b (hex_text (b ∷ b' ∷ bytes)) (b' ∷ bytes) wide (all.0)
        (hex_head-kept b (hex_digit (b % 16) ∷ hex_tail (b' ∷ bytes)) (all.0)) rest in
    rw (parse_ext_pan_id, has_colon-hex_text b b' bytes, parsed)
      (need_eight-exact (b ∷ b' ∷ bytes) eight)
