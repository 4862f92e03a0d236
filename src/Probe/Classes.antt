-- ===== src/Probe/Classes.antt =====
-- `classify` by intervals of the first byte, where the code tests bit masks.
use openwrt_ezsp_spi.Prelude.{
  ℕ, zero, suc, ◌<◌, ◌≡◌, refl, ◌≢◌, Bool, true, false, none, some, List, ◌∷◌, ◌++◌, replicate,
  get_or, arith, ◌==◌, leb, ltb, ◌&&◌, if◌then◌else◌, bit_and, holds_below, holds_below_at,
  !=-eq-true,
}
use openwrt_ezsp_spi.Config.{spi_idle}
use openwrt_ezsp_spi.Spi.{spi_first_response}
use openwrt_ezsp_spi.Probe.{
  RspClass, idle, reset, error, version, status, ezsp, other, class_of, classify,
}

-- 0xFE; 0b10xxxxxx; 0b1100000x; 0x00; 0x01 to 0x04.
abbrev pub class_in : ℕ → RspClass
class_in b =
    if leb b 0x00
    then reset
    else if leb b 0x04
    then error
    else if ltb b 0x80
    then other
    else if ltb b 0xC0
    then version
    else if ltb b 0xC2
    then status
    else if b == 0xFE
    then ezsp
    else other

same : Bool → Bool → Bool
same true b = b
same false true = false
same false false = true

same_sound : (a b : Bool) → same a b ≡ true → a ≡ b
unfolding same
same_sound true b h = ground arith
same_sound false true h = h
same_sound false false h = refl

version_mask : (b : ℕ) → b < 256 → (bit_and b 0xC0 == 0x80) ≡ (leb 0x80 b && ltb b 0xC0)
unfolding holds_below same
version_mask b lt =
    same_sound _ _
      (holds_below_at (λ x. same (bit_and x 0xC0 == 0x80) (leb 0x80 x && ltb x 0xC0)) 256 b lt refl)

status_mask : (b : ℕ) → b < 256 → (bit_and b 0xFE == 0xC0) ≡ (leb 0xC0 b && ltb b 0xC2)
unfolding holds_below same
status_mask b lt =
    same_sound _ _
      (holds_below_at (λ x. same (bit_and x 0xFE == 0xC0) (leb 0xC0 x && ltb x 0xC2)) 256 b lt refl)

class_of-eq-class_in : (b : ℕ) → b < 256 → class_of b ≡ class_in b
unfolding class_of
class_of-eq-class_in b lt = rw (version_mask b lt, status_mask b lt) (ground arith)

skip_idle :
    (k b : ℕ) (xs : List ℕ)
    → b ≢ spi_idle
    → spi_first_response (replicate k spi_idle ++ b ∷ xs) ≡ some k
unfolding spi_first_response
skip_idle zero b xs ne = rw (!=-eq-true b spi_idle ne)
skip_idle (suc k) b xs ne = rw (skip_idle k b xs ne)

all_idle : (k : ℕ) → spi_first_response (replicate k spi_idle) ≡ none
unfolding spi_first_response
all_idle zero = refl
all_idle (suc k) = rw (all_idle k)

get_first : (k b : ℕ) (xs : List ℕ) → get_or (replicate k spi_idle ++ b ∷ xs) k 0 ≡ b
get_first zero b xs = refl
get_first (suc k) b xs = get_first k b xs

get_second :
    (k b : ℕ) (xs : List ℕ) → get_or (replicate k spi_idle ++ b ∷ xs) (suc k) 0 ≡ get_or xs 0 0
get_second zero b xs = refl
get_second (suc k) b xs = get_second k b xs

-- Behind any number of idle bytes, the first byte that is not idle decides the class, by the
-- interval that it lies in, and is returned with the byte behind it (0 where there is none); a
-- buffer of idle bytes alone is `idle`. So 0x00 is the reset notice and never padding.
pub classify_lem :
    (k b : ℕ) (xs : List ℕ)
    → b < 256
    → b ≢ spi_idle
    → (classify (replicate k spi_idle ++ b ∷ xs) ≡ (class_in b, b, get_or xs 0 0))
      × (classify (replicate k spi_idle) ≡ (idle, 0, 0))
unfolding classify
classify_lem k b xs lt ne = (
  rw (skip_idle k b xs ne, get_first k b xs, get_second k b xs, class_of-eq-class_in b lt, classify)
      refl,
  rw (all_idle k, classify) refl,
)
