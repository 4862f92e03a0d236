-- ===== src/Ash/Crc.antt =====
-- The CRC register: its range, and what appending the CRC to a frame does to it.
use openwrt_ezsp_spi.Prelude.{
  ℕ, zero, suc, ◌*◌, ◌/◌, ◌%◌, ◌^◌, ◌<◌, ◌≡◌, refl, ap, ◌∙◌, List, [], ◌∷◌, ◌++◌, arith, bit_xor,
  bit_xor_self, bit_xor_high,
}
use openwrt_ezsp_spi.Ash.{crc_shift, crc_shifts, crc_byte, crc_from, ash_crc, crc_tail}

pub crc_shift-lt : (c : ℕ) → crc_shift c < 2 ^ 16
unfolding crc_shift
crc_shift-lt c = ground arith

crc_shifts-lt : (n c : ℕ) → c < 2 ^ 16 → crc_shifts n c < 2 ^ 16
unfolding crc_shifts
crc_shifts-lt zero c lt = lt
crc_shifts-lt (suc n) c lt = crc_shifts-lt n (crc_shift c) (crc_shift-lt c)

pub crc_byte-lt : (c d : ℕ) → crc_byte c d < 2 ^ 16
unfolding crc_byte
crc_byte-lt c d = crc_shifts-lt 8 (bit_xor c (256 * d) % 2 ^ 16) (omega arith)

crc_from-lt : (c : ℕ) (ds : List ℕ) → c < 2 ^ 16 → crc_from c ds < 2 ^ 16
unfolding crc_from
crc_from-lt c [] lt = lt
crc_from-lt c (d ∷ ds) lt = crc_from-lt (crc_byte c d) ds (crc_byte-lt c d)

pub ash_crc-lt : (ds : List ℕ) → ash_crc ds < 2 ^ 16
unfolding ash_crc
ash_crc-lt ds = crc_from-lt 0xFFFF ds (omega arith)

pub crc_from-append : (c : ℕ) (xs ys : List ℕ) → crc_from c (xs ++ ys) ≡ crc_from (crc_from c xs) ys
unfolding crc_from
crc_from-append c [] ys = refl
crc_from-append c (x ∷ xs) ys = crc_from-append (crc_byte c x) xs ys

-- With the top bit clear a shift is a doubling.
shift_small : (c : ℕ) → c < 2 ^ 15 → crc_shift c ≡ c * 2
unfolding crc_shift
shift_small c lt = ground arith

shifts_small : (c : ℕ) → c < 2 ^ 8 → crc_shifts 8 c ≡ 256 * c
unfolding crc_shifts
shifts_small c lt =
    rw
      (
        shift_small c (omega arith),
        shift_small (c * 2) (omega arith),
        shift_small (c * 2 * 2) (omega arith),
        shift_small (c * 2 * 2 * 2) (omega arith),
        shift_small (c * 2 * 2 * 2 * 2) (omega arith),
        shift_small (c * 2 * 2 * 2 * 2 * 2) (omega arith),
        shift_small (c * 2 * 2 * 2 * 2 * 2 * 2) (omega arith),
        shift_small (c * 2 * 2 * 2 * 2 * 2 * 2 * 2) (omega arith),
      )
      (omega arith)

-- The high byte of the register cancels the byte that comes in, and the low byte moves up.
cancel_high : (c : ℕ) → c < 2 ^ 16 → crc_byte c (c / 2 ^ 8) ≡ 256 * (c % 2 ^ 8)
unfolding crc_byte
cancel_high c lt = ap (λ t. crc_shifts 8 (t % 2 ^ 16)) low ∙ shifts low_lt
  where
    low : bit_xor c (256 * (c / 256)) ≡ c % 256
    low = omega (arith, bit_xor_high c (c / 256), bit_xor_self (c / 256))

    low_lt : c % 2 ^ 8 < 2 ^ 8
    low_lt = omega arith

    shifts : c % 2 ^ 8 < 2 ^ 8 → crc_shifts 8 (c % 256 % 2 ^ 16) ≡ 256 * (c % 2 ^ 8)
    shifts l = rw (reduce) (shifts_small (c % 2 ^ 8) l)
      where
        reduce : c % 256 % 2 ^ 16 ≡ c % 2 ^ 8
        reduce = omega arith

cancel_low : (b : ℕ) → b < 2 ^ 8 → crc_byte (256 * b) b ≡ 0
unfolding crc_byte crc_shifts crc_shift
cancel_low b lt = ap (λ t. crc_shifts 8 (t % 2 ^ 16)) (bit_xor_self (256 * b))

-- A frame with its CRC behind it has the CRC 0, for every frame: a receiver may check the whole at
-- once, as well as compare the last two bytes.
pub ash_crc-append : (frame : List ℕ) → ash_crc (frame ++ crc_tail (ash_crc frame)) ≡ 0
unfolding ash_crc crc_tail
ash_crc-append frame =
    crc_from-append 0xFFFF frame (crc_tail (ash_crc frame))
    ∙ ap (λ t. crc_byte t (ash_crc frame % 2 ^ 8)) (cancel_high (ash_crc frame) (ash_crc-lt frame))
    ∙ cancel_low (ash_crc frame % 2 ^ 8) (omega arith)
