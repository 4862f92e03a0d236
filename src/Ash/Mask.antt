-- ===== src/Ash/Mask.antt =====
-- The masking sequence, and that masking is undone by masking.
use openwrt_ezsp_spi.Prelude.{
  ℕ, zero, suc, ◌/◌, ◌<◌, ◌≡◌, refl, ap, ap₂, List, [], ◌∷◌, length, get_or, IsBytes, arith,
  bit_xor_cancel, bit_xor-lt,
}
use openwrt_ezsp_spi.Ash.{rand_next, rand_from, ash_rand, mask}

pub length-mask : (i : ℕ) (cs : List ℕ) → length (mask i cs) ≡ length cs
unfolding mask
length-mask i [] = refl
length-mask i (c ∷ cs) = ap suc (length-mask (suc i) cs)

-- What one side masks from any index the other unmasks: masking twice is nothing.
pub mask-mask : (i : ℕ) (cs : List ℕ) → mask i (mask i cs) ≡ cs
unfolding mask
mask-mask i [] = refl
mask-mask i (c ∷ cs) = ap₂ ◌∷◌ (bit_xor_cancel c (get_or ash_rand i 0)) (mask-mask (suc i) cs)

rand_next-lt : (r : ℕ) → r < 256 → rand_next r < 256
unfolding rand_next
rand_next-lt r lt = ground (arith, bit_xor-lt 8 (r / 2) 0xB8 (omega arith) (omega arith))

rand_from-IsBytes : (n r : ℕ) → r < 256 → IsBytes (rand_from n r)
unfolding rand_from
rand_from-IsBytes zero r lt = tt
rand_from-IsBytes (suc n) r lt = (lt, rand_from-IsBytes n (rand_next r) (rand_next-lt r lt))

ash_rand-IsBytes : IsBytes ash_rand
unfolding ash_rand
ash_rand-IsBytes = rand_from-IsBytes 256 0x42 (omega arith)

get_or-lt : (xs : List ℕ) (i : ℕ) → IsBytes xs → get_or xs i 0 < 256
get_or-lt [] i ok = omega arith
get_or-lt (x ∷ xs) zero ok = ok.0
get_or-lt (x ∷ xs) (suc i) ok = get_or-lt xs i ok.1

pub mask-IsBytes : (i : ℕ) (cs : List ℕ) → IsBytes cs → IsBytes (mask i cs)
unfolding mask
mask-IsBytes i [] ok = tt
mask-IsBytes i (c ∷ cs) ok = (
  bit_xor-lt 8 c (get_or ash_rand i 0) ok.0 (get_or-lt ash_rand i ash_rand-IsBytes),
  mask-IsBytes (suc i) cs ok.1,
)
