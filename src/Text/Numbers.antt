-- ===== src/Text/Numbers.antt =====
-- The decimal digits of a number are read back (`%u` against `strtoul` in base 10).
use openwrt_ezsp_spi.Prelude.{
  ℕ, zero, suc, ◌+◌, ◌*◌, ◌-◌, ◌/◌, ◌%◌, ◌^◌, ◌<◌, ◌≤◌, ◌≡◌, refl, List, [], ◌∷◌, ◌++◌, ltb, arith,
  Bool-cases, inl, inr, All, All-append,
}
use native.Mathlib.Nat.{pow-suc}
use openwrt_ezsp_spi.Text.{digits}

-- A character from "0" to "9".
abbrev pub IsDecimal : ℕ → Type 0
IsDecimal ch = (48 ≤ ch) × (ch ≤ 57)

pub digits-IsDecimal : (more n : ℕ) → All IsDecimal (digits more n)
unfolding digits
digits-IsDecimal zero n = tt
digits-IsDecimal (suc more) n = elim (Bool-cases (ltb n 10)) [
  | inl small ↦ rw small ((omega arith, ground (arith, small)), tt)
  | inr large ↦ rw large (
      All-append IsDecimal (digits more (n / 10)) ((n % 10 + 48) ∷ [])
        (digits-IsDecimal more (n / 10)) ((omega arith, omega arith), tt))
]

-- The number of a run of digits, behind those that made `acc`.
abbrev pub value_from : ℕ → List ℕ → ℕ
value_from acc [] = acc
value_from acc (ch ∷ text) = value_from (acc * 10 + (ch - 48)) text

value_from-append :
    (acc : ℕ) (xs : List ℕ) (ch : ℕ)
    → value_from acc (xs ++ ch ∷ []) ≡ value_from acc xs * 10 + (ch - 48)
value_from-append acc [] ch = refl
value_from-append acc (x ∷ xs) ch = value_from-append (acc * 10 + (x - 48)) xs ch

pub value_from-digits : (more n : ℕ) → n < 10 ^ more → value_from 0 (digits more n) ≡ n
unfolding digits
value_from-digits zero n lt = omega arith
value_from-digits (suc more) n lt = elim (Bool-cases (ltb n 10)) [
  | inl small ↦ rw small (omega arith)
  | inr large ↦
      rw
        (
          large,
          value_from-append 0 (digits more (n / 10)) (n % 10 + 48),
          value_from-digits more (n / 10) (omega (arith, pow-suc 10 more)),
        )
        (omega arith)
]

append-IsCons : (xs : List ℕ) (y : ℕ) → (ch : ℕ) × (rest : List ℕ) × (xs ++ y ∷ [] ≡ ch ∷ rest)
append-IsCons [] y = (y, [], refl)
append-IsCons (x ∷ xs) y = (x, xs ++ y ∷ [], refl)

pub digits-IsCons : (more n : ℕ) → (ch : ℕ) × (rest : List ℕ) × (digits (suc more) n ≡ ch ∷ rest)
unfolding digits
digits-IsCons more n = elim (Bool-cases (ltb n 10)) [
  | inl small ↦ rw small (n + 48, [], refl)
  | inr large ↦ rw large (append-IsCons (digits more (n / 10)) (n % 10 + 48))
]
