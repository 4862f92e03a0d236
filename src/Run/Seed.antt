-- ===== src/Run/Seed.antt =====
-- The seed for `rand` (package/ezsp-spi/src/control.c, `cmd_run`).
use openwrt_ezsp_spi.Prelude.{
  ℕ, ◌+◌, ◌*◌, ◌%◌, ◌^◌, ◌<◌, ◌≡◌, ◌≢◌, sym, ap, ◌∙◌, List, [], ◌∷◌, ◌++◌, some, length,
  length-append, take-all, arith,
}
use openwrt_ezsp_spi.Run.{seed_from, seed_of}

-- 31 is odd: a step keeps different seeds apart.
step-injective :
    (x y b : ℕ) → x < 2 ^ 32 → y < 2 ^ 32 → (x * 31 + b) % 2 ^ 32 ≡ (y * 31 + b) % 2 ^ 32 → x ≡ y
step-injective x y b x_small y_small e = omega arith

step-byte : (x a b : ℕ) → a < 256 → b < 256 → (x * 31 + a) % 2 ^ 32 ≡ (x * 31 + b) % 2 ^ 32 → a ≡ b
step-byte x a b a_small b_small e = omega arith

step-small : (x : ℕ) → x % 2 ^ 32 < 2 ^ 32
step-small x = omega arith

seed_from-injective :
    (x y : ℕ) (bytes : List ℕ)
    → x < 2 ^ 32
    → y < 2 ^ 32
    → seed_from x bytes ≡ seed_from y bytes
    → x ≡ y
unfolding seed_from
seed_from-injective x y [] x_small y_small e = e
seed_from-injective x y (b ∷ bytes) x_small y_small e = step-injective x y b x_small y_small (
    seed_from-injective ((x * 31 + b) % 2 ^ 32) ((y * 31 + b) % 2 ^ 32) bytes
      (step-small (x * 31 + b)) (step-small (y * 31 + b)) e)

seed_from-one_byte :
    (x : ℕ) (front back : List ℕ) (a b : ℕ)
    → a < 256
    → b < 256
    → seed_from x (front ++ a ∷ back) ≡ seed_from x (front ++ b ∷ back)
    → a ≡ b
unfolding seed_from
seed_from-one_byte x [] back a b a_small b_small e = step-byte x a b a_small b_small (
    seed_from-injective ((x * 31 + a) % 2 ^ 32) ((x * 31 + b) % 2 ^ 32) back
      (step-small (x * 31 + a)) (step-small (x * 31 + b)) e)
seed_from-one_byte x (f ∷ front) back a b a_small b_small e =
    seed_from-one_byte ((x * 31 + f) % 2 ^ 32) front back a b a_small b_small e

seed_from-twin :
    (x : ℕ) (front back : List ℕ) (a b : ℕ)
    → seed_from x (front ++ (a + 1) ∷ b ∷ back) ≡ seed_from x (front ++ a ∷ (b + 31) ∷ back)
unfolding seed_from
seed_from-twin x [] back a b = ap (λ seed. seed_from seed back) (omega arith)
seed_from-twin x (f ∷ front) back a b = seed_from-twin ((x * 31 + f) % 2 ^ 32) front back a b

seed_of-eight :
    (now : ℕ) (eui : List ℕ)
    → length eui ≡ 8
    → seed_of now (some eui) ≡ seed_from (now % 2 ^ 32) eui
unfolding seed_of
seed_of-eight now eui e = ap (seed_from (now % 2 ^ 32)) (take-all eui 8 (omega arith))

-- Two nodes that start in the same second and whose EUI64s differ in exactly one byte never get
-- the same seed.
pub seed_of-apart :
    (now : ℕ) (front back : List ℕ) (a b : ℕ)
    → length (front ++ a ∷ back) ≡ 8
    → a < 256
    → b < 256
    → a ≢ b
    → seed_of now (some (front ++ a ∷ back)) ≢ seed_of now (some (front ++ b ∷ back))
seed_of-apart now front back a b e a_small b_small ne same = ne (
    seed_from-one_byte (now % 2 ^ 32) front back a b a_small b_small (
      sym (seed_of-eight now (front ++ a ∷ back) e)
      ∙ same
      ∙ seed_of-eight now (front ++ b ∷ back)
          (omega (arith, length-append front (a ∷ back), length-append front (b ∷ back)))))

-- An EUI64 does not decide the seed: raise a byte by one and lower the next by 31, and the seed is
-- the same, so that two such nodes that start in the same second keep the same schedule.
pub seed_of-twins :
    (now : ℕ) (front back : List ℕ) (a b : ℕ)
    → length front + length back ≡ 6
    → seed_of now (some (front ++ (a + 1) ∷ b ∷ back))
      ≡ seed_of now (some (front ++ a ∷ (b + 31) ∷ back))
seed_of-twins now front back a b e =
    seed_of-eight now (front ++ (a + 1) ∷ b ∷ back)
      (omega (arith, length-append front ((a + 1) ∷ b ∷ back)))
    ∙ (seed_from-twin (now % 2 ^ 32) front back a b
        ∙ sym (
            seed_of-eight now (front ++ a ∷ (b + 31) ∷ back)
              (omega (arith, length-append front (a ∷ (b + 31) ∷ back)))))
