-- ===== src/Ash.antt =====
-- package/ezsp-spi/src/bridge.c: the framing of ASH, which is the masking sequence, the CRC, and
-- the bytes that `ash_send` writes for one frame.
pub mod Crc
pub mod Detect
pub mod Mask
pub mod Stuffing
pub mod Tests
use openwrt_ezsp_spi.Prelude.{
  ℕ, zero, suc, ◌+◌, ◌*◌, ◌/◌, ◌%◌, ◌^◌, Bool, true, false, List, [], ◌∷◌, ◌++◌, get_or, ◌==◌, ◌||◌,
  bit_xor, if◌then◌else◌,
}
use openwrt_ezsp_spi.Config.{ash_flag, ash_esc, ash_xon, ash_xoff, ash_sub, ash_cancel}

-- The body of the loop of `ash_rand_init`.
unfoldable pub rand_next : ℕ → ℕ
rand_next r = if r % 2 == 1 then bit_xor (r / 2) 0xB8 else r / 2

unfoldable pub rand_from : ℕ → ℕ → List ℕ
rand_from zero r = []
rand_from (suc n) r = r ∷ rand_from n (rand_next r)

-- `ash_rand`, as `ash_rand_init` leaves it.
unfoldable pub ash_rand : List ℕ
unfolding rand_from rand_next
ash_rand = rand_from 256 0x42

-- One of the eight shifts of a byte: `c & 0x8000` is the top bit of a `uint16_t`.
unfoldable pub crc_shift : ℕ → ℕ
crc_shift c = if c / 2 ^ 15 % 2 == 1 then bit_xor (c * 2) 0x1021 % 2 ^ 16 else c * 2 % 2 ^ 16

unfoldable pub crc_shifts : ℕ → ℕ → ℕ
crc_shifts zero c = c
crc_shifts (suc n) c = crc_shifts n (crc_shift c)

unfoldable pub crc_byte : ℕ → ℕ → ℕ
unfolding crc_shifts crc_shift
crc_byte c d = crc_shifts 8 (bit_xor c (256 * d) % 2 ^ 16)

unfoldable pub crc_from : ℕ → List ℕ → ℕ
unfolding crc_byte
crc_from c [] = c
crc_from c (d ∷ ds) = crc_from (crc_byte c d) ds

unfoldable pub ash_crc : List ℕ → ℕ
unfolding crc_from
ash_crc d = crc_from 0xFFFF d

-- The `switch` of `ash_send`.
unfoldable pub is_reserved : ℕ → Bool
is_reserved c =
    c == ash_flag
    || c == ash_esc
    || c == ash_xon
    || c == ash_xoff
    || c == ash_sub
    || c == ash_cancel

unfoldable pub escape : ℕ → List ℕ
unfolding is_reserved
escape c = if is_reserved c then ash_esc ∷ bit_xor c 0x20 ∷ [] else c ∷ []

unfoldable pub stuff : List ℕ → List ℕ
unfolding escape
stuff [] = []
stuff (c ∷ cs) = escape c ++ stuff cs

-- `tail`: the CRC, high byte first.
unfoldable pub crc_tail : ℕ → List ℕ
crc_tail crc = crc / 2 ^ 8 ∷ crc % 2 ^ 8 ∷ []

-- What `buf` holds when it is handed to `write_all`.
unfoldable pub encode : List ℕ → List ℕ
unfolding stuff crc_tail ash_crc
encode frame = stuff (frame ++ crc_tail (ash_crc frame)) ++ ash_flag ∷ []

-- `buf[i] ^ ash_rand[i]` from index `i` on.
unfoldable pub mask : ℕ → List ℕ → List ℕ
mask i [] = []
mask i (c ∷ cs) = bit_xor c (get_or ash_rand i 0) ∷ mask (suc i) cs
