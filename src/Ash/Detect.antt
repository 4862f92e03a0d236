-- ===== src/Ash/Detect.antt =====
-- The CRC tells frames apart that differ in one byte.
use openwrt_ezsp_spi.Prelude.{
  ℕ, zero, suc, ◌+◌, ◌*◌, ◌/◌, ◌%◌, ◌^◌, ◌<◌, ◌≡◌, ◌≢◌, refl, sym, ap, ◌∙◌, Bool, true, List, [],
  ◌∷◌, ◌++◌, arith, ◌==◌, ==_iff, bit_xor, bit_xor_injective, bit_xor-lt, bit_xor_comm,
  if◌then◌else◌, IsBytes, holds_below, holds_below_at,
}
use openwrt_ezsp_spi.Ash.{crc_shift, crc_shifts, crc_byte, crc_from, ash_crc}
use openwrt_ezsp_spi.Ash.Crc.{crc_shift-lt, crc_byte-lt, ash_crc-lt, crc_from-append}

-- The shift backwards: the polynomial is odd, so the lowest bit tells whether it was added.
crc_unshift : ℕ → ℕ
crc_unshift y = if y % 2 == 1 then bit_xor y 0x1021 / 2 + 2 ^ 15 else y / 2

unshift_block : ℕ → ℕ → Bool
unshift_block b x = crc_unshift (crc_shift (256 * b + x)) == 256 * b + x

unshift_row : ℕ → Bool
unfolding unshift_block
unshift_row b = holds_below (unshift_block b) 256

unshift_table : holds_below unshift_row 256 ≡ true
unfolding holds_below unshift_row unshift_block crc_unshift crc_shift
unshift_table = refl

crc_unshift-crc_shift : (c : ℕ) → c < 2 ^ 16 → crc_unshift (crc_shift c) ≡ c
unfolding unshift_row unshift_block
crc_unshift-crc_shift c lt =
    rw split at
      ((==_iff _ _).0 (holds_below_at (unshift_block (c / 256)) 256 (c % 256) (omega arith) row))
  where
    split : 256 * (c / 256) + c % 256 ≡ c
    split = omega arith

    row : holds_below (unshift_block (c / 256)) 256 ≡ true
    row = holds_below_at unshift_row 256 (c / 256) (omega arith) unshift_table

crc_shift_injective : (a b : ℕ) → a < 2 ^ 16 → b < 2 ^ 16 → crc_shift a ≡ crc_shift b → a ≡ b
crc_shift_injective a b ha hb e =
    sym (crc_unshift-crc_shift a ha) ∙ ap crc_unshift e ∙ crc_unshift-crc_shift b hb

crc_shifts_injective :
    (n a b : ℕ) → a < 2 ^ 16 → b < 2 ^ 16 → crc_shifts n a ≡ crc_shifts n b → a ≡ b
unfolding crc_shifts
crc_shifts_injective zero a b ha hb e = e
crc_shifts_injective (suc n) a b ha hb e =
    crc_shift_injective a b ha hb
      (crc_shifts_injective n (crc_shift a) (crc_shift b) (crc_shift-lt a) (crc_shift-lt b) e)

module _ (c d : ℕ) (hc : c < 2 ^ 16) (hd : d < 256) where
  mixed-lt : bit_xor c (256 * d) < 2 ^ 16
  mixed-lt = bit_xor-lt 16 c (256 * d) hc (omega arith)

  mixed_lem : bit_xor c (256 * d) % 2 ^ 16 ≡ bit_xor c (256 * d)
  mixed_lem = omega (arith, mixed-lt)

crc_byte_injective :
    (a b c d : ℕ)
    → a < 2 ^ 16
    → b < 2 ^ 16
    → c < 256
    → d < 256
    → crc_byte a c ≡ crc_byte b d
    → bit_xor a (256 * c) ≡ bit_xor b (256 * d)
unfolding crc_byte
crc_byte_injective a b c d ha hb hc hd e =
    sym (mixed_lem a c ha hc)
    ∙ crc_shifts_injective 8 _ _ (omega arith) (omega arith) e
    ∙ mixed_lem b d hb hd

-- From different registers the same bytes lead to different registers.
crc_from_injective :
    (a b : ℕ) (ds : List ℕ)
    → a < 2 ^ 16
    → b < 2 ^ 16
    → IsBytes ds
    → crc_from a ds ≡ crc_from b ds
    → a ≡ b
unfolding crc_from
crc_from_injective a b [] ha hb ok e = e
crc_from_injective a b (d ∷ ds) ha hb ok e = bit_xor_injective a b (256 * d) (
    crc_byte_injective a b d d ha hb ok.0 ok.0 (
      crc_from_injective (crc_byte a d) (crc_byte b d) ds (crc_byte-lt a d) (crc_byte-lt b d) ok.1
        e))

-- Two frames of bytes that differ in exactly one place have different CRCs: no corruption of a
-- single byte goes through `bridge_feed`'s check of a frame whose CRC came through whole.
pub ash_crc_detects :
    (xs ys : List ℕ) (a b : ℕ)
    → IsBytes ys
    → a < 256
    → b < 256
    → a ≢ b
    → ash_crc (xs ++ a ∷ ys) ≢ ash_crc (xs ++ b ∷ ys)
unfolding ash_crc crc_from
ash_crc_detects xs ys a b oks ha hb ne e = ne (omega (arith, same_byte))
  where
    start : ℕ
    start = crc_from 0xFFFF xs

    start-lt : crc_from 0xFFFF xs < 2 ^ 16
    start-lt = ash_crc-lt xs

    same_start : crc_byte start a ≡ crc_byte start b
    same_start =
        crc_from_injective (crc_byte start a) (crc_byte start b) ys (crc_byte-lt start a)
          (crc_byte-lt start b) oks
          (sym (crc_from-append 0xFFFF xs (a ∷ ys)) ∙ e ∙ crc_from-append 0xFFFF xs (b ∷ ys))

    same_byte : 256 * a ≡ 256 * b
    same_byte = bit_xor_injective (256 * a) (256 * b) start (
        bit_xor_comm (256 * a) start
        ∙ crc_byte_injective start start a b start-lt start-lt ha hb same_start
        ∙ bit_xor_comm start (256 * b))
