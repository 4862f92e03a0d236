-- ===== src/Control/Stored.antt =====
-- What --ext-pan-id stores (package/ezsp-spi/src/control.c).
use openwrt_ezsp_spi.Prelude.{
  ℕ, zero, suc, ◌≡◌, ◌⊎◌, inl, inr, refl, subst, ◌==◌, Option, none, some, List, [], ◌∷◌, length,
  arith, ltb, if◌then◌else◌, IsBytes, Bool-cases, Option-cases,
}
use openwrt_ezsp_spi.Control.{
  strtoul, skip_separators, keep_byte, parse_from, has_colon, need_eight, parse_ext_pan_id,
}

-- What is stored are bytes.
abbrev Stored : Option (List ℕ) → Type 0
Stored none = Unit
Stored (some bytes) = IsBytes bytes

keep_byte-Stored : (v : ℕ) (rest : Option (List ℕ)) → Stored rest → Stored (keep_byte v rest)
unfolding keep_byte
keep_byte-Stored v none all = tt
keep_byte-Stored v (some after) all = elim (Bool-cases (ltb 0xFF v)) [
  | inl wide ↦ rw wide tt
  | inr small ↦ rw small (ground (arith), all)
]

List-cases : (text : List ℕ) → (text ≡ []) ⊎ ((ch : ℕ) × (rest : List ℕ) × (text ≡ ch ∷ rest))
List-cases [] = inl refl
List-cases (ch ∷ rest) = inr (ch, rest, refl)

parse_from-Stored : (n m base : ℕ) (text : List ℕ) → Stored (parse_from n m base text)
unfolding parse_from
parse_from-Stored zero m base text = tt
parse_from-Stored (suc n) m base text = elim (List-cases (skip_separators text)) [
  | inl e ↦ rw (parse_from, e) tt
  | inr (ch, rest, e) ↦ elim (Option-cases (strtoul m base (ch ∷ rest))) [
    | inl stop ↦ rw (parse_from, e, stop) tt
    | inr (r, read) ↦
        rw (parse_from, e, read)
          (keep_byte-Stored (r.0) (parse_from n m base (r.1)) (parse_from-Stored n m base (r.1)))
  ]
]

abbrev Eight : Option (List ℕ) → Type 0
Eight none = Unit
Eight (some bytes) = IsBytes bytes × (length bytes ≡ 8)

need_eight-Eight : (o : Option (List ℕ)) → Stored o → Eight (need_eight o)
unfolding need_eight
need_eight-Eight none all = tt
need_eight-Eight (some bytes) all = elim (Bool-cases (length bytes == 8)) [
  | inl eight ↦ rw eight (all, ground arith)
  | inr other ↦ rw other tt
]

-- Whatever the text and the size of `unsigned long`, --ext-pan-id stores eight values, each a byte,
-- or ends the process.
pub length-parse_ext_pan_id :
    (ulong_max : ℕ) (text bytes : List ℕ)
    → parse_ext_pan_id ulong_max text ≡ some bytes
    → IsBytes bytes × (length bytes ≡ 8)
unfolding parse_ext_pan_id
length-parse_ext_pan_id m text bytes e = subst Eight e (
    need_eight-Eight (parse_from 8 m (if has_colon text then 16 else 10) text)
      (parse_from-Stored 8 m (if has_colon text then 16 else 10) text))
