-- ===== src/Prelude/Lists.antt =====
-- C arrays as lists with native indices, under the library's names.
use Prim.Native.Nat.{ℕ, zero, suc, ◌+◌, ◌-◌, ◌<◌, ◌≤◌, min}
use mathlib.Core.Path.{◌≡◌, refl, ap, ◌∙◌}
use mathlib.Core.Logic.{◌≢◌}
use mathlib.Core.List.{List, [], ◌∷◌, ◌++◌}
use native.Mathlib.Omega.{arith}

module _ {ℓ} {A : Type ℓ} where
  abbrev pub length : List A → ℕ
  length [] = 0
  length (x ∷ xs) = suc (length xs)

  abbrev pub get_or : List A → ℕ → A → A
  get_or [] i d = d
  get_or (x ∷ xs) zero d = x
  get_or (x ∷ xs) (suc i) d = get_or xs i d

  abbrev pub set : List A → ℕ → A → List A
  set [] i v = []
  set (x ∷ xs) zero v = v ∷ xs
  set (x ∷ xs) (suc i) v = x ∷ set xs i v

  abbrev pub take : ℕ → List A → List A
  take zero xs = []
  take (suc n) [] = []
  take (suc n) (x ∷ xs) = x ∷ take n xs

  abbrev pub drop : ℕ → List A → List A
  drop zero xs = xs
  drop (suc n) [] = []
  drop (suc n) (x ∷ xs) = drop n xs

  abbrev pub replicate : ℕ → A → List A
  replicate zero a = []
  replicate (suc n) a = a ∷ replicate n a

  pub length-append : (xs ys : List A) → length (xs ++ ys) ≡ length xs + length ys
  length-append [] ys = omega arith
  length-append (x ∷ xs) ys = omega (arith, length-append xs ys)

  pub length-replicate : (n : ℕ) (a : A) → length (replicate n a) ≡ n
  length-replicate zero a = refl
  length-replicate (suc n) a = ap suc (length-replicate n a)

  pub length-take : (n : ℕ) (xs : List A) → length (take n xs) ≡ min n (length xs)
  length-take zero xs = omega arith
  length-take (suc n) [] = omega arith
  length-take (suc n) (x ∷ xs) = omega (arith, length-take n xs)

  pub length-drop : (n : ℕ) (xs : List A) → length (drop n xs) ≡ length xs - n
  length-drop zero xs = omega arith
  length-drop (suc n) [] = omega arith
  length-drop (suc n) (x ∷ xs) = omega (arith, length-drop n xs)

  pub take-append : (xs ys : List A) → take (length xs) (xs ++ ys) ≡ xs
  take-append [] ys = refl
  take-append (x ∷ xs) ys = ap (λ t. x ∷ t) (take-append xs ys)

  pub drop-append : (xs ys : List A) → drop (length xs) (xs ++ ys) ≡ ys
  drop-append [] ys = refl
  drop-append (x ∷ xs) ys = drop-append xs ys

  pub take-length : (xs : List A) → take (length xs) xs ≡ xs
  take-length [] = refl
  take-length (x ∷ xs) = ap (λ t. x ∷ t) (take-length xs)

  pub get_or-append :
      (xs : List A) (y : A) (ys : List A) (d : A) → get_or (xs ++ y ∷ ys) (length xs) d ≡ y
  get_or-append [] y ys d = refl
  get_or-append (x ∷ xs) y ys d = get_or-append xs y ys d

  pub length-set : (xs : List A) (i : ℕ) (v : A) → length (set xs i v) ≡ length xs
  length-set [] i v = refl
  length-set (x ∷ xs) zero v = refl
  length-set (x ∷ xs) (suc i) v = ap suc (length-set xs i v)

  pub get_or-set_self :
      (xs : List A) (i : ℕ) (v d : A) → i < length xs → get_or (set xs i v) i d ≡ v
  get_or-set_self [] i v d h = absurd (omega arith)
  get_or-set_self (x ∷ xs) zero v d h = refl
  get_or-set_self (x ∷ xs) (suc i) v d h = get_or-set_self xs i v d (omega arith)

  pub get_or-set_ne :
      (xs : List A) (i j : ℕ) (v d : A) → i ≢ j → get_or (set xs i v) j d ≡ get_or xs j d
  get_or-set_ne [] i j v d h = refl
  get_or-set_ne (x ∷ xs) zero zero v d h = absurd (h refl)
  get_or-set_ne (x ∷ xs) zero (suc j) v d h = refl
  get_or-set_ne (x ∷ xs) (suc i) zero v d h = refl
  get_or-set_ne (x ∷ xs) (suc i) (suc j) v d h = get_or-set_ne xs i j v d (λ e. h (ap suc e))

-- A predicate of every item, by recursion.
abbrev pub All {ℓ κ} : {A : Type ℓ} → (A → Type κ) → List A → Type κ
All P [] = Unit
All P (x ∷ xs) = P x × All P xs

pub All-append {ℓ κ} :
    {A : Type ℓ} (Q : A → Type κ) (front back : List A)
    → All Q front
    → All Q back
    → All Q (front ++ back)
All-append Q [] back _ all = all
All-append Q (a ∷ front) back each all = (each.0, All-append Q front back each.1 all)

-- Every item is a `uint8_t`.
abbrev pub IsBytes : List ℕ → Type 0
IsBytes = All (λ c. c < 256)

-- `n` bytes of a buffer from index `i` on; behind what was received the buffer is zero.
abbrev pub bytes_at : List ℕ → ℕ → ℕ → List ℕ
bytes_at rx i zero = []
bytes_at rx i (suc n) = get_or rx i 0 ∷ bytes_at rx (suc i) n

bytes_at-skip : (x : ℕ) (xs : List ℕ) (i k : ℕ) → bytes_at (x ∷ xs) (suc i) k ≡ bytes_at xs i k
bytes_at-skip x xs i zero = refl
bytes_at-skip x xs i (suc k) = ap (λ t. get_or xs i 0 ∷ t) (bytes_at-skip x xs (suc i) k)

bytes_at-start :
    (xs ys : List ℕ) (max k : ℕ) → k ≡ min (length xs) max → bytes_at (xs ++ ys) 0 k ≡ take max xs
bytes_at-start xs ys zero zero e = refl
bytes_at-start xs ys zero (suc k) e = absurd (omega arith)
bytes_at-start [] ys (suc max) zero e = refl
bytes_at-start [] ys (suc max) (suc k) e = absurd (omega arith)
bytes_at-start (x ∷ xs) ys (suc max) zero e = absurd (omega arith)
bytes_at-start (x ∷ xs) ys (suc max) (suc k) e =
    ap (λ t. x ∷ t) (bytes_at-skip x (xs ++ ys) 0 k ∙ bytes_at-start xs ys max k (omega arith))

pub bytes_at-behind :
    (pre xs ys : List ℕ) (max k : ℕ)
    → k ≡ min (length xs) max
    → bytes_at (pre ++ xs ++ ys) (length pre) k ≡ take max xs
bytes_at-behind [] xs ys max k e = bytes_at-start xs ys max k e
bytes_at-behind (p ∷ ps) xs ys max k e =
    bytes_at-skip p (ps ++ xs ++ ys) (length ps) k ∙ bytes_at-behind ps xs ys max k e

pub take-all : (xs : List ℕ) (n : ℕ) → length xs ≤ n → take n xs ≡ xs
take-all [] zero le = refl
take-all [] (suc n) le = refl
take-all (x ∷ xs) zero le = absurd (omega arith)
take-all (x ∷ xs) (suc n) le = ap (λ t. x ∷ t) (take-all xs n (omega arith))
