-- ===== src/Zcl/Response.antt =====
-- What a reader finds in the Read Attributes Response of zcl.c.
use openwrt_ezsp_spi.Prelude.{
  ℕ, zero, suc, ◌+◌, ◌*◌, ◌/◌, ◌%◌, ◌^◌, ◌≤◌, ◌<◌, ◌≡◌, refl, sym, ap, ◌∙◌, subst, false, Option,
  none, some, List, [], ◌∷◌, ◌++◌, append_assoc, length, length-append, take, drop, take-append,
  drop-append, append-nil, ltb, ◌==◌, if◌then◌else◌, arith, IsBytes, All,
}
use openwrt_ezsp_spi.Zcl.{
  Attr, number, text, unsupported, attr_of, attr_record, zcl_append_attr, append_attrs,
  read_response,
}

-- One record as the ZCL lays it out: an id, a status and, if the status is 0, a type and a value.
pub record Parsed : Type 0 where
  pub id : ℕ
  pub attr : Attr
  pub left : List ℕ

abbrev pub parse_value : ℕ → List ℕ → Option Parsed
parse_value id [] = none
parse_value id (type ∷ []) = none
parse_value id (type ∷ v ∷ rest) =
    if type == 0x42
    then some (record { id = id; attr = text (take v rest); left = drop v rest })
    else some (record { id = id; attr = number type v; left = rest })

abbrev pub parse_record : List ℕ → Option Parsed
parse_record [] = none
parse_record (lo ∷ []) = none
parse_record (lo ∷ hi ∷ []) = none
parse_record (lo ∷ hi ∷ status ∷ rest) =
    if status == 0
    then parse_value (lo + hi * 2 ^ 8) rest
    else some (record { id = lo + hi * 2 ^ 8; attr = unsupported; left = rest })

abbrev pub prepend : ℕ × Attr → Option (List (ℕ × Attr)) → Option (List (ℕ × Attr))
prepend r none = none
prepend r (some rs) = some (r ∷ rs)

-- At most `n` records.
abbrev pub parse_records : ℕ → List ℕ → Option (List (ℕ × Attr))
parse_records n [] = some []
parse_records zero (x ∷ xs) = none
parse_records (suc n) (x ∷ xs) = elim (parse_record (x ∷ xs)) [
  | none ↦ none
  | some r ↦ prepend (r.id, r.attr) (parse_records n r.left)
]

-- Values that a record can hold.
abbrev pub IsSmall : Attr → Type 0
IsSmall (number type val) = (type == 0x42) ≡ false
IsSmall (text str) = length str < 256
IsSmall unsupported = Unit

parse_record_lem :
    (id : ℕ) (a : Attr) (ys : List ℕ)
    → id < 2 ^ 16
    → IsSmall a
    → parse_record (attr_record id a ++ ys) ≡ some (record { id = id; attr = a; left = ys })
unfolding attr_record
parse_record_lem id (number type val) ys lt sm =
    rw sm (ap (λ i. some (record { id = i; attr = number type val; left = ys })) whole)
  where
    whole : id % 256 + id / 256 % 256 * 2 ^ 8 ≡ id
    whole = omega arith
parse_record_lem id (text str) ys lt sm =
    rw (size, whole, take-append str ys, drop-append str ys) refl
  where
    whole : id % 256 + id / 256 % 256 * 2 ^ 8 ≡ id
    whole = omega arith

    size : length str % 256 ≡ length str
    size = omega arith
parse_record_lem id unsupported ys lt sm =
    ap (λ i. some (record { id = i; attr = unsupported; left = ys })) whole
  where
    whole : id % 256 + id / 256 % 256 * 2 ^ 8 ≡ id
    whole = omega arith

abbrev continue_with : ℕ → Option Parsed → Option (List (ℕ × Attr))
continue_with n none = none
continue_with n (some r) = prepend (r.id, r.attr) (parse_records n r.left)

parse_records-step :
    (n id : ℕ) (a : Attr) (ys : List ℕ)
    → id < 2 ^ 16
    → IsSmall a
    → parse_records (suc n) (attr_record id a ++ ys) ≡ prepend (id, a) (parse_records n ys)
unfolding attr_record
parse_records-step n id (number type val) ys lt sm =
    ap (continue_with n) (parse_record_lem id (number type val) ys lt sm)
parse_records-step n id (text str) ys lt sm =
    ap (continue_with n) (parse_record_lem id (text str) ys lt sm)
parse_records-step n id unsupported ys lt sm =
    ap (continue_with n) (parse_record_lem id unsupported ys lt sm)

attr_of-IsSmall :
    (location : List ℕ) (id : ℕ) → length location < 256 → IsSmall (attr_of location id)
unfolding attr_of
attr_of-IsSmall location id lt = ground arith

-- The ids in a request, two bytes each.
abbrev pub ids_of : List ℕ → List ℕ
ids_of [] = []
ids_of (x ∷ []) = []
ids_of (lo ∷ hi ∷ rest) = (lo + hi * 2 ^ 8) ∷ ids_of rest

abbrev pub records_of : List ℕ → List ℕ → List ℕ
records_of location [] = []
records_of location (id ∷ ids) = attr_record id (attr_of location id) ++ records_of location ids

append_attrs_lem :
    (location resp attrs : List ℕ)
    → length resp + length (records_of location (ids_of attrs)) ≤ 96
    → append_attrs location resp attrs ≡ resp ++ records_of location (ids_of attrs)
unfolding append_attrs zcl_append_attr
append_attrs_lem location resp [] le = sym (append-nil resp)
append_attrs_lem location resp (x ∷ []) le = sym (append-nil resp)
append_attrs_lem location resp (lo ∷ hi ∷ rest) le =
    ap (λ b. append_attrs location b rest) kept
    ∙ append_attrs_lem location (resp ++ piece) rest
        (omega (arith, sizes, length-append resp piece))
    ∙ append_assoc resp piece (records_of location (ids_of rest))
  where
    piece : List ℕ
    piece = attr_record (lo + hi * 2 ^ 8) (attr_of location (lo + hi * 2 ^ 8))

    sizes : length resp + (length piece + length (records_of location (ids_of rest))) ≤ 96
    sizes =
        subst (λ n. length resp + n ≤ 96) (length-append piece (records_of location (ids_of rest)))
          le

    room : ltb 96 (length resp + length piece) ≡ false
    room = ground (arith, sizes)

    kept : zcl_append_attr location resp 96 (lo + hi * 2 ^ 8) ≡ resp ++ piece
    kept = rw room refl

abbrev pub answers : List ℕ → List ℕ → List (ℕ × Attr)
answers location [] = []
answers location (id ∷ ids) = (id, attr_of location id) ∷ answers location ids

parse_records_lem :
    (location ids : List ℕ)
    → length location < 256
    → All (λ id. id < 2 ^ 16) ids
    → parse_records (length ids) (records_of location ids) ≡ some (answers location ids)
parse_records_lem location [] lt a = refl
parse_records_lem location (id ∷ ids) lt a =
    parse_records-step (length ids) id (attr_of location id) (records_of location ids) a.0
      (attr_of-IsSmall location id lt)
    ∙ ap (prepend (id, attr_of location id)) (parse_records_lem location ids lt a.1)

ids_of-lt : (attrs : List ℕ) → IsBytes attrs → All (λ id. id < 2 ^ 16) (ids_of attrs)
ids_of-lt [] b = tt
ids_of-lt (x ∷ []) b = tt
ids_of-lt (lo ∷ hi ∷ rest) b = (omega (arith, b.0, b.1.0), ids_of-lt rest b.1.1)

-- A response that fits its buffer, read back by the layout of the ZCL behind its three bytes of
-- header, holds every attribute that was asked for, in the order of the request, with its value or
-- as unsupported, and nothing else.
pub read_response-parse :
    (location : List ℕ) (seq : ℕ) (attrs : List ℕ)
    → IsBytes attrs
    → length location < 256
    → 3 + length (records_of location (ids_of attrs)) ≤ 96
    → parse_records (length (ids_of attrs)) (drop 3 (read_response location seq attrs))
      ≡ some (answers location (ids_of attrs))
unfolding read_response
read_response-parse location seq attrs b lt fits =
    ap (λ r. parse_records (length (ids_of attrs)) (drop 3 r))
      (append_attrs_lem location (0x18 ∷ seq ∷ 0x01 ∷ []) attrs fits)
    ∙ parse_records_lem location (ids_of attrs) lt (ids_of-lt attrs b)
