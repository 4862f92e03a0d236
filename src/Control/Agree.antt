-- ===== src/Control/Agree.antt =====
-- The client commands and the daemon understand one another (package/ezsp-spi/src/control.c).
use openwrt_ezsp_spi.Prelude.{
  ℕ, ◌+◌, ◌*◌, ◌-◌, ◌^◌, ◌<◌, ◌≤◌, ◌≡◌, refl, sym, ap, ◌∙◌, subst, List, [], ◌∷◌, ◌++◌, All, arith,
  some, ◌==◌, ◌||◌, false, ltb-eq-false, lt→ltb, take, take-all, length-append,
}
use openwrt_ezsp_spi.Text.{digits, unsigned, newline}
use openwrt_ezsp_spi.Text.Numbers.{
  IsDecimal, digits-IsDecimal, value_from, value_from-digits, digits-IsCons,
}
use openwrt_ezsp_spi.Text.Lengths.{length-digits}
use openwrt_ezsp_spi.Control.{digit_value, is_space, skip_prefix, read_digits, as_ulong, strtoul}
use openwrt_ezsp_spi.Control.PanId.{skip_space-kept, read_sign-unsigned}
use openwrt_ezsp_spi.Control.Serve.{
  Longs, permit, to_unsigned, first_line, seconds_of, request_of, permit_request,
}

digit_value-decimal : (ch : ℕ) → IsDecimal ch → digit_value ch ≡ ch - 48
unfolding digit_value
digit_value-decimal ch decimal = ground arith

pub read_digits-value :
    (acc : ℕ) (text : List ℕ)
    → All IsDecimal text
    → read_digits 10 acc text ≡ (value_from acc text, [])
unfolding read_digits
read_digits-value acc [] all = refl
read_digits-value acc (ch ∷ text) all =
    rw (digit_value-decimal ch (all.0)) (
      rw (lt→ltb (ch - 48) 10 (omega arith))
        (read_digits-value (acc * 10 + (ch - 48)) text (all.1)))

skip_prefix-decimal : (text : List ℕ) → skip_prefix 10 text ≡ text
unfolding skip_prefix
skip_prefix-decimal [] = refl
skip_prefix-decimal (a ∷ []) = refl
skip_prefix-decimal (a ∷ b ∷ []) = refl
skip_prefix-decimal (a ∷ b ∷ ch ∷ text) = refl

pub decimal-plain :
    (ch : ℕ) → IsDecimal ch → (is_space ch ≡ false) × ((ch == 45) ≡ false) × ((ch == 43) ≡ false)
unfolding is_space
decimal-plain ch decimal = (ground arith, ground arith, ground arith)

-- A run of digits is read as its number, if an `unsigned long` can hold it.
strtoul-decimal :
    (ulong_max ch : ℕ) (rest : List ℕ) (v : ℕ)
    → All IsDecimal (ch ∷ rest)
    → value_from 0 (ch ∷ rest) ≡ v
    → v ≤ ulong_max
    → strtoul ulong_max 10 (ch ∷ rest) ≡ some (v, [])
unfolding as_ulong strtoul
strtoul-decimal m ch rest v all value fits =
    let plain = decimal-plain ch (all.0) in
    let start : ch - 48 ≡ 0 * 10 + (ch - 48) = omega arith in
    let number : value_from (ch - 48) rest ≡ v = ap (λ t. value_from t rest) start ∙ value in
    rw
      (
        strtoul,
        skip_space-kept ch rest (plain.0),
        read_sign-unsigned ch rest (plain.1) (plain.2),
        skip_prefix-decimal (ch ∷ rest),
        digit_value-decimal ch (all.0),
        lt→ltb (ch - 48) 10 (omega arith),
        read_digits-value (ch - 48) rest (all.1),
        number,
        skip_space-kept ch rest (plain.0),
        read_sign-unsigned ch rest (plain.1) (plain.2),
        ltb-eq-false m v fits,
      )
      refl

ordinary : (ch : ℕ) → IsDecimal ch → (ch == 0 || (ch == 10 || ch == 13)) ≡ false
ordinary ch decimal = ground arith

-- The line of a request without its end.
pub first_line-decimal : (text : List ℕ) → All IsDecimal text → first_line (text ++ newline) ≡ text
unfolding first_line
first_line-decimal [] all = refl
first_line-decimal (ch ∷ text) all =
    rw (ordinary ch (all.0)) (ap (λ t. ch ∷ t) (first_line-decimal text (all.1)))

seconds_of-decimal :
    (l : Longs) (secs : ℕ)
    → secs < 2 ^ 32
    → 2 ^ 32 ≤ l.ulong_max + 1
    → seconds_of l (some (unsigned secs)) ≡ secs
unfolding seconds_of
seconds_of-decimal l secs small wide =
    let (ch, rest, cons) = digits-IsCons 9 secs in
    let read =
      strtoul-decimal l.ulong_max ch rest secs
        (subst (All IsDecimal) cons (digits-IsDecimal 10 secs))
        (ap (value_from 0) (sym cons) ∙ value_from-digits 10 secs (omega arith)) (omega arith) in
    rw (to_unsigned, cons, read) (omega arith)

-- The request that `cmd_permit` writes to the daemon's socket is understood there as what was
-- asked for: the same number of seconds, for every `unsigned` of 32 bits.
pub request_of-permit_request :
    (l : Longs) (secs : ℕ)
    → secs < 2 ^ 32
    → 2 ^ 32 ≤ l.ulong_max + 1
    → request_of l (first_line (take 63 (permit_request secs))) ≡ permit secs
unfolding request_of permit_request first_line
request_of-permit_request l secs small wide =
    let short =
      take-all (digits 10 secs ++ newline) 56
        (omega (arith, length-append (digits 10 secs) newline, length-digits 10 secs)) in
    let line = first_line-decimal (digits 10 secs) (digits-IsDecimal 10 secs) in
    rw short (rw line (ap permit (seconds_of-decimal l secs small wide)))
