-- ===== src/Ash/Stuffing.antt =====
-- The bytes that `ash_send` puts on the wire.
use openwrt_ezsp_spi.Prelude.{
  ℕ, ◌+◌, ◌*◌, ◌^◌, ◌≤◌, ◌<◌, ◌≡◌, ◌⊎◌, refl, true, false, ◌||◌, not, List, [], ◌∷◌, ◌++◌, length,
  length-append, arith, Bool-cases, inl, inr, bit_xor, All, All-append, IsBytes, holds_below,
  holds_below_at,
}
use openwrt_ezsp_spi.Config.{ash_flag, ash_esc, ash_max_frame}
use openwrt_ezsp_spi.Ash.{is_reserved, escape, stuff, crc_tail, encode, ash_crc}
use openwrt_ezsp_spi.Ash.Crc.{ash_crc-lt}

-- A byte that may stand in the middle of a frame: the escape byte, or one that is not reserved.
abbrev pub IsInside : ℕ → Type 0
IsInside x = (is_reserved x ≡ false) ⊎ (x ≡ ash_esc)

escape_table :
    holds_below (λ x. not (is_reserved x) || not (is_reserved (bit_xor x 0x20))) 256 ≡ true
unfolding holds_below is_reserved
escape_table = refl

pub escaped-plain : (x : ℕ) → x < 256 → is_reserved x ≡ true → is_reserved (bit_xor x 0x20) ≡ false
escaped-plain x lt e = ground (
  arith,
  holds_below_at (λ y. not (is_reserved y) || not (is_reserved (bit_xor y 0x20))) 256 x lt
      escape_table,
)

escape-IsInside : (x : ℕ) → x < 256 → All IsInside (escape x)
unfolding escape
escape-IsInside x lt = elim (Bool-cases (is_reserved x)) [
  | inl special ↦ rw special (inr refl, (inl (escaped-plain x lt special), tt))
  | inr plain ↦ rw plain (inl plain, tt)
]

stuff-IsInside : (cs : List ℕ) → IsBytes cs → All IsInside (stuff cs)
unfolding stuff
stuff-IsInside [] bytes = tt
stuff-IsInside (x ∷ cs) bytes =
    All-append IsInside (escape x) (stuff cs) (escape-IsInside x bytes.0)
      (stuff-IsInside cs bytes.1)

length-escape : (x : ℕ) → length (escape x) ≤ 2
unfolding escape
length-escape x = ground arith

length-stuff : (cs : List ℕ) → length (stuff cs) ≤ 2 * length cs
unfolding stuff
length-stuff [] = omega arith
length-stuff (x ∷ cs) =
    omega (arith, length-append (escape x) (stuff cs), length-escape x, length-stuff cs)

pub tail-IsBytes : (crc : ℕ) → crc < 2 ^ 16 → IsBytes (crc_tail crc)
unfolding crc_tail
tail-IsBytes crc lt = (omega arith, (omega arith, tt))

pub length-tail : (frame : List ℕ) (crc : ℕ) → length (frame ++ crc_tail crc) ≡ length frame + 2
unfolding crc_tail
length-tail frame crc = length-append frame (crc_tail crc)

-- What is written for a frame of bytes is a run of bytes none of which is reserved but the escape
-- byte, and one flag at the end; and for a frame that `ash_send` accepts it fits the buffer of
-- `ASH_MAX_FRAME * 2 + 8` bytes.
pub encode-IsInside :
    (frame : List ℕ)
    → IsBytes frame
    → length frame ≤ ash_max_frame
    → (inside : List ℕ) × (encode frame ≡ inside ++ ash_flag ∷ [])
      × All IsInside inside
      × (length (encode frame) ≤ ash_max_frame * 2 + 8)
unfolding encode
encode-IsInside frame bytes fits = (
  stuff (frame ++ crc_tail (ash_crc frame)),
  refl,
  stuff-IsInside (frame ++ crc_tail (ash_crc frame)) (
      All-append (λ x. x < 256) frame (crc_tail (ash_crc frame)) bytes
        (tail-IsBytes (ash_crc frame) (ash_crc-lt frame))),
  omega (
    arith,
    length-append (stuff (frame ++ crc_tail (ash_crc frame))) (ash_flag ∷ []),
    length-stuff (frame ++ crc_tail (ash_crc frame)),
    length-tail frame (ash_crc frame),
  ),
)
