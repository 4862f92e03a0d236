-- ===== src/Control/Number.antt =====
-- `strtoul` and `strtol` with base 0, as the options of package/ezsp-spi/src/main.c use them.
use openwrt_ezsp_spi.Prelude.{
  ℕ, suc, ◌-◌, ◌%◌, ◌^◌, ◌&&◌, ◌||◌, none, some, List, [], ◌∷◌, ltb, ◌==◌, if◌then◌else◌, min,
}
use openwrt_ezsp_spi.Control.{strtoul, skip_space, read_sign, read_digits, skip_prefix, digit_value}
use openwrt_ezsp_spi.Control.Serve.{Longs}

-- The base that `strtoul` takes for base 0, behind the sign.
unfoldable pub base_of : List ℕ → ℕ
unfolding digit_value
base_of [] = 10
base_of (ch ∷ []) = if ch == 48 then 8 else 10
base_of (ch ∷ x ∷ []) = if ch == 48 then 8 else 10
base_of (ch ∷ x ∷ digit ∷ text) =
    if ch == 48 then (if (x == 120 || x == 88) && ltb (digit_value digit) 16 then 16 else 8) else 10

-- `(unsigned)strtoul(optarg, NULL, 0)`
unfoldable pub number : Longs → List ℕ → ℕ
unfolding base_of
number l text = elim (strtoul l.ulong_max (base_of (read_sign (skip_space text)).1) text) [
  | none ↦ 0
  | some r ↦ r.0 % 2 ^ 32
]

-- `(int)strtol(optarg, NULL, 0)`, in its 32 bits.
unfoldable pub signed_number : Longs → List ℕ → ℕ
unfolding base_of skip_space read_sign read_digits skip_prefix
signed_number l text =
    let s = read_sign (skip_space text) in
    let base = base_of (s.1) in
    let v = (read_digits base 0 (skip_prefix base (s.1))).0 in
    if s.0 then (2 ^ 32 - min v (suc l.long_max) % 2 ^ 32) % 2 ^ 32 else min v l.long_max % 2 ^ 32
