-- ===== src/Prelude/Bits.antt =====
-- Exclusive or at every width, from the recursion on binary digits that it stands for; and a
-- check of all values of a small range.
use Prim.Native.Nat.{ℕ, zero, suc, ◌+◌, ◌*◌, ◌/◌, ◌%◌, ◌^◌, ◌≤◌, ◌<◌, bit_xor, digits}
use Prim.Native.Nat.{differ, bit_xor-bitwise}
use native.Mathlib.Nat.{pow-suc}
use mathlib.Core.Path.{◌≡◌, refl, sym, ap, ap₂, ◌∙◌}
use mathlib.Core.Bool.{◌&&◌, true, Bool}
use native.Mathlib.Omega.{arith}

-- A test that succeeds for every number below a bound, found by trying them all.
unfoldable pub holds_below : (ℕ → Bool) → ℕ → Bool
holds_below test zero = true
holds_below test (suc bound) = holds_below test bound && test bound

pub holds_below_at :
    (test : ℕ → Bool) (bound i : ℕ) → i < bound → holds_below test bound ≡ true → test i ≡ true
unfolding holds_below
holds_below_at test zero i below all = absurd (omega arith)
holds_below_at test (suc bound) i below all = ground (arith, holds_below_at test bound i)

abbrev xor_digits : ℕ → ℕ → ℕ → ℕ
xor_digits n a b = digits (λ b. b) differ n a b

enough_digits : (n m a b : ℕ) → a ≤ n → a ≤ m → xor_digits n a b ≡ xor_digits m a b
enough_digits zero zero a b p q = refl
enough_digits zero (suc m) zero b p q = refl
enough_digits zero (suc m) (suc a) b p q = absurd (omega arith)
enough_digits (suc n) zero zero b p q = refl
enough_digits (suc n) zero (suc a) b p q = absurd (omega arith)
enough_digits (suc n) (suc m) zero b p q = refl
enough_digits (suc n) (suc m) (suc a) b p q =
    omega (arith, enough_digits n m (suc a / 2) (b / 2) (omega arith) (omega arith))

zero-bit_xor : (b : ℕ) → bit_xor 0 b ≡ b
zero-bit_xor b = bit_xor-bitwise 0 b

-- The lowest digit.
bit_xor_step : (a b : ℕ) → bit_xor a b ≡ bit_xor (a / 2) (b / 2) * 2 + differ (a % 2) (b % 2)
bit_xor_step zero b = omega (arith, zero-bit_xor b, zero-bit_xor (b / 2))
bit_xor_step (suc a) b = omega (
  arith,
  bit_xor-bitwise (suc a) b,
  bit_xor-bitwise (suc a / 2) (b / 2),
  enough_digits a (suc a / 2) (suc a / 2) (b / 2) (omega arith) (omega arith),
)

differ-lt : (a b : ℕ) → a < 2 → b < 2 → differ a b < 2
differ-lt zero b p q = q
differ-lt (suc zero) zero p q = omega arith
differ-lt (suc zero) (suc b) p q = omega arith
differ-lt (suc (suc a)) b p q = absurd (omega arith)

differ_cancel : (a b : ℕ) → a < 2 → b < 2 → differ (differ a b) b ≡ a
differ_cancel zero zero p q = refl
differ_cancel zero (suc zero) p q = refl
differ_cancel (suc zero) zero p q = refl
differ_cancel (suc zero) (suc zero) p q = refl
differ_cancel zero (suc (suc b)) p q = absurd (omega arith)
differ_cancel (suc zero) (suc (suc b)) p q = absurd (omega arith)
differ_cancel (suc (suc a)) b p q = absurd (omega arith)

bit_xor_half : (a b : ℕ) → bit_xor a b / 2 ≡ bit_xor (a / 2) (b / 2)
bit_xor_half a b =
    omega (arith, bit_xor_step a b, differ-lt (a % 2) (b % 2) (omega arith) (omega arith))

bit_xor_digit : (a b : ℕ) → bit_xor a b % 2 ≡ differ (a % 2) (b % 2)
bit_xor_digit a b =
    omega (arith, bit_xor_step a b, differ-lt (a % 2) (b % 2) (omega arith) (omega arith))

cancel_fuel : (n a b : ℕ) → a ≤ n → b ≤ n → bit_xor (bit_xor a b) b ≡ a
cancel_fuel zero zero zero p q = refl
cancel_fuel zero zero (suc b) p q = absurd (omega arith)
cancel_fuel zero (suc a) b p q = absurd (omega arith)
cancel_fuel (suc n) a b p q =
    bit_xor_step (bit_xor a b) b
    ∙ ap (λ t. bit_xor t (b / 2) * 2 + differ (bit_xor a b % 2) (b % 2)) (bit_xor_half a b)
    ∙ ap (λ t. bit_xor (bit_xor (a / 2) (b / 2)) (b / 2) * 2 + differ t (b % 2)) (bit_xor_digit a b)
    ∙ omega (
      arith,
      cancel_fuel n (a / 2) (b / 2) (omega arith) (omega arith),
      differ_cancel (a % 2) (b % 2) (omega arith) (omega arith),
    )

-- Exclusive or with the same number twice is nothing.
pub bit_xor_cancel : (a b : ℕ) → bit_xor (bit_xor a b) b ≡ a
bit_xor_cancel a b = cancel_fuel (a + b) a b (omega arith) (omega arith)

pub bit_xor_injective : (a b k : ℕ) → bit_xor a k ≡ bit_xor b k → a ≡ b
bit_xor_injective a b k e = sym (bit_xor_cancel a k) ∙ ap (λ t. bit_xor t k) e ∙ bit_xor_cancel b k

pub bit_xor-lt : (n a b : ℕ) → a < 2 ^ n → b < 2 ^ n → bit_xor a b < 2 ^ n
bit_xor-lt zero zero b p q = omega (arith, zero-bit_xor b)
bit_xor-lt zero (suc a) b p q = absurd (omega arith)
bit_xor-lt (suc n) a b p q = omega (
  arith,
  pow-suc 2 n,
  bit_xor_step a b,
  differ-lt (a % 2) (b % 2) (omega arith) (omega arith),
  bit_xor-lt n (a / 2) (b / 2) (omega (arith, pow-suc 2 n)) (omega (arith, pow-suc 2 n)),
)

pub bit_xor_self : (a : ℕ) → bit_xor a a ≡ 0
bit_xor_self a = ap (λ t. bit_xor t a) (sym (zero-bit_xor a)) ∙ bit_xor_cancel 0 a

comm_fuel : (n a b : ℕ) → a ≤ n → b ≤ n → bit_xor a b ≡ bit_xor b a
comm_fuel zero zero zero p q = refl
comm_fuel zero zero (suc b) p q = absurd (omega arith)
comm_fuel zero (suc a) b p q = absurd (omega arith)
comm_fuel (suc n) a b p q = omega (
  arith,
  bit_xor_step a b,
  bit_xor_step b a,
  comm_fuel n (a / 2) (b / 2) (omega arith) (omega arith),
  differ_comm (a % 2) (b % 2) (omega arith) (omega arith),
)
  where
    differ_comm : (x y : ℕ) → x < 2 → y < 2 → differ x y ≡ differ y x
    differ_comm zero zero p q = refl
    differ_comm zero (suc y) p q = refl
    differ_comm (suc x) zero p q = refl
    differ_comm (suc zero) (suc zero) p q = refl
    differ_comm (suc zero) (suc (suc y)) p q = absurd (omega arith)
    differ_comm (suc (suc x)) (suc y) p q = absurd (omega arith)

pub bit_xor_comm : (a b : ℕ) → bit_xor a b ≡ bit_xor b a
bit_xor_comm a b = comm_fuel (a + b) a b (omega arith) (omega arith)

differ-zero : (a : ℕ) → differ a 0 ≡ a
differ-zero zero = refl
differ-zero (suc a) = refl

bit_xor_even : (a b : ℕ) → bit_xor a (2 * b) ≡ bit_xor (a / 2) b * 2 + a % 2
bit_xor_even a b =
    bit_xor_step a (2 * b)
    ∙ ap₂ (λ s t. bit_xor (a / 2) s * 2 + t) (omega arith)
        (ap (λ t. differ (a % 2) t) (omega arith) ∙ differ-zero (a % 2))

nibble : (a b : ℕ) → bit_xor a (16 * b) ≡ bit_xor (a / 16) b * 16 + a % 16
nibble a b =
    ap (λ t. bit_xor a t) (halves b)
    ∙ omega (
      arith,
      bit_xor_even a (2 * (2 * (2 * b))),
      bit_xor_even (a / 2) (2 * (2 * b)),
      bit_xor_even (a / 2 / 2) (2 * b),
      bit_xor_even (a / 2 / 2 / 2) b,
      ap (λ t. bit_xor t b) (div_16 a),
    )
  where
    div_16 : (n : ℕ) → n / 2 / 2 / 2 / 2 ≡ n / 16
    div_16 n = omega arith

    halves : (n : ℕ) → 16 * n ≡ 2 * (2 * (2 * (2 * n)))
    halves n = omega arith

-- `a ^ (b << 8)` meets the high byte alone.
pub bit_xor_high : (a b : ℕ) → bit_xor a (256 * b) ≡ bit_xor (a / 256) b * 256 + a % 256
bit_xor_high a b =
    ap (λ t. bit_xor a t) (halves b)
    ∙ omega (arith, nibble a (16 * b), nibble (a / 16) b, ap (λ t. bit_xor t b) (div_256 a))
  where
    div_256 : (n : ℕ) → n / 16 / 16 ≡ n / 256
    div_256 n = omega arith

    halves : (n : ℕ) → 256 * n ≡ 16 * (16 * n)
    halves n = omega arith
