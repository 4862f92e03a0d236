-- ===== src/Zcl/Attributes.antt =====
-- The Read Attributes Response of zcl.c: its size.
use openwrt_ezsp_spi.Prelude.{
  ℕ, ◌+◌, ◌*◌, ◌^◌, ◌≤◌, Bool-cases, inl, inr, List, [], ◌∷◌, length, length-append, ltb, arith,
}
use openwrt_ezsp_spi.Host.{Host}
use openwrt_ezsp_spi.Zcl.{attr_of, attr_record, zcl_append_attr, append_attrs, read_response}

append_attr-fits :
    (location b : List ℕ) (max id : ℕ)
    → length b ≤ max
    → length (zcl_append_attr location b max id) ≤ max
unfolding zcl_append_attr
append_attr-fits location b max id le =
    elim (Bool-cases (ltb max (length b + length (attr_record id (attr_of location id))))) [
      | inl full ↦ rw full le
      | inr room ↦ rw (room, length-append b (attr_record id (attr_of location id))) (ground arith)
    ]

append_attrs-fits :
    (location resp attrs : List ℕ)
    → length resp ≤ 96
    → length (append_attrs location resp attrs) ≤ 96
unfolding append_attrs
append_attrs-fits location resp [] le = le
append_attrs-fits location resp (x ∷ []) le = le
append_attrs-fits location resp (lo ∷ hi ∷ rest) le =
    append_attrs-fits location (zcl_append_attr location resp 96 (lo + hi * 2 ^ 8)) rest
      (append_attr-fits location resp 96 (lo + hi * 2 ^ 8) le)

-- A response never leaves its buffer of 96 bytes, however many attributes are asked for.
pub length-read_response :
    (location : List ℕ) (seq : ℕ) (attrs : List ℕ) → length (read_response location seq attrs) ≤ 96
unfolding read_response
length-read_response location seq attrs =
    append_attrs-fits location (0x18 ∷ seq ∷ 0x01 ∷ []) attrs (omega arith)
