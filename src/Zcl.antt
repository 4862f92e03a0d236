-- ===== src/Zcl.antt =====
-- package/ezsp-spi/src/zcl.c: the node's endpoint, its Basic cluster and its reports.
-- What only is printed is left out, with `report_last`, which only the status text reads. The
-- hostname is an argument: `gethostname`, which the program asks once, is the kernel's.
pub mod Attributes
pub mod Response
pub mod Reports
pub mod Lives
pub mod Tests
use openwrt_ezsp_spi.Prelude.{
  ℕ, zero, suc, ◌+◌, ◌-◌, ◌*◌, ◌/◌, ◌%◌, ◌^◌, ◌<◌, Bool, true, false, ◌&&◌, ◌||◌, not, Option, none,
  some, List, [], ◌∷◌, ◌++◌, length, get_or, drop, take, ltb, leb, ◌==◌, ◌!=◌, if◌then◌else◌,
  bit_and, bit_or,
}
use openwrt_ezsp_spi.Text.{codes}
use openwrt_ezsp_spi.Config.{
  Cfg, Pins, ezsp_add_endpoint_id, ezsp_send_unicast, ember_success, ezsp_config_stack_profile,
  ezsp_config_security_level, ezsp_config_key_table_size, ezsp_config_tc_address_cache_size,
  zcl_profile_ha, zcl_profile_zdo, zcl_device_range_extender, zcl_cluster_basic,
  zdo_mgmt_permit_joining_req, zcl_endpoint,
}
use openwrt_ezsp_spi.Host.{Host, ok, M, pure, ◌>>=◌, ◌>>◌}
use openwrt_ezsp_spi.Ezsp.{ezsp_cmd, succeeded, ezsp_set_config}

-- `rand` is what `rand()` returned; the arithmetic is that of `unsigned`.
unfoldable pub report_interval : ℕ → ℕ → ℕ
report_interval base rand =
    let span = base / 5 in
    if span == 0 then base else (base - span + rand % (2 * span + 1)) % 2 ^ 32

-- A 16-bit number, least significant byte first.
abbrev pub le16 : ℕ → List ℕ
le16 n = n % 256 ∷ n / 256 % 256 ∷ []

abbrev pub endpoint_params : List ℕ
endpoint_params =
    zcl_endpoint ∷ le16 zcl_profile_ha
    ++ le16 zcl_device_range_extender
    ++ 1 ∷ 1 ∷ 0 ∷ le16 zcl_cluster_basic

-- Whether the endpoint was registered; `false` is -1.
unfoldable pub ezsp_add_endpoint : Cfg → Pins → M Bool
ezsp_add_endpoint c p = do
  r ← ezsp_cmd c p ezsp_add_endpoint_id endpoint_params 8
  pure (succeeded r)

-- `host`, and what `gethostname` writes if it succeeds; later calls find `host` set.
unfoldable pub zcl_location : List ℕ → Option (List ℕ) → List ℕ
zcl_location [] none = codes "openwrt"
zcl_location [] (some name) = name
zcl_location (ch ∷ host) answer = ch ∷ host

-- `tag++`
unfoldable pub next_tag : M ℕ
next_tag h = ok h.tag (record h { tag = (h.tag + 1) % 256 })

unfoldable pub unicast_params : ℕ → ℕ → ℕ → List ℕ → List ℕ
unicast_params tag dest cluster payload =
    0x00 ∷ le16 dest
    ++ le16 zcl_profile_ha
    ++ le16 cluster
    ++ zcl_endpoint
      ∷ zcl_endpoint
      ∷ 0x40
      ∷ 0x01
      ∷ 0x00
      ∷ 0x00
      ∷ 0x00
      ∷ tag
      ∷ length payload % 256
      ∷ payload

unfoldable pub zcl_send : Cfg → Pins → ℕ → ℕ → List ℕ → M Bool
unfolding next_tag unicast_params
zcl_send c p dest cluster payload = if ltb 64 (length payload) then pure false else (do
  tag ← next_tag
  r ← ezsp_cmd c p ezsp_send_unicast (unicast_params tag dest cluster payload) 8
  pure (succeeded r))

-- `zcl_manufacturer`, `zcl_model` and `zcl_swbuild`: "Linksys", "WHW03V2" and "ezsp-spi 0.1".
abbrev pub zcl_manufacturer : List ℕ
zcl_manufacturer = 0x4C ∷ 0x69 ∷ 0x6E ∷ 0x6B ∷ 0x73 ∷ 0x79 ∷ 0x73 ∷ []

abbrev pub zcl_model : List ℕ
zcl_model = 0x57 ∷ 0x48 ∷ 0x57 ∷ 0x30 ∷ 0x33 ∷ 0x56 ∷ 0x32 ∷ []

abbrev pub zcl_swbuild : List ℕ
zcl_swbuild = 0x65 ∷ 0x7A ∷ 0x73 ∷ 0x70 ∷ 0x2D ∷ 0x73 ∷ 0x70 ∷ 0x69 ∷ 0x20 ∷ 0x30 ∷ 0x2E ∷ 0x31 ∷ []

-- A type and its value: `val`, or `str`.
pub data Attr : Type 0 where
  number : ℕ → ℕ → Attr
  text : List ℕ → Attr
  unsupported : Attr

-- The `switch` of `zcl_append_attr`.
unfoldable pub attr_of : List ℕ → ℕ → Attr
attr_of location id =
    if id == 0x0000
    then number 0x20 3
    else if id == 0x0001
    then number 0x20 1
    else if id == 0x0002
    then number 0x20 0x58
    else if id == 0x0003
    then number 0x20 2
    else if id == 0x0004
    then text zcl_manufacturer
    else if id == 0x0005
    then text zcl_model
    else if id == 0x0007
    then number 0x30 0x01
    else if id == 0x0010
    then text location
    else if id == 0x4000
    then text zcl_swbuild
    else unsupported

-- The bytes of one record.
unfoldable pub attr_record : ℕ → Attr → List ℕ
attr_record id (number type val) = le16 id ++ 0x00 ∷ type ∷ val ∷ []
attr_record id (text str) = le16 id ++ 0x00 ∷ 0x42 ∷ length str % 256 ∷ str
attr_record id unsupported = le16 id ++ 0x86 ∷ []

-- `b` up to `at`, and behind the call.
unfoldable pub zcl_append_attr : List ℕ → List ℕ → ℕ → ℕ → List ℕ
unfolding attr_of attr_record
zcl_append_attr location b max id =
    let piece = attr_record id (attr_of location id) in
    if ltb max (length b + length piece) then b else b ++ piece

-- The attributes that are asked for, from `i` on: the loop of `zcl_handle_incoming`.
unfoldable pub append_attrs : List ℕ → List ℕ → List ℕ → List ℕ
append_attrs location resp [] = resp
append_attrs location resp (x ∷ []) = resp
append_attrs location resp (lo ∷ hi ∷ rest) =
    append_attrs location (zcl_append_attr location resp 96 (lo + hi * 2 ^ 8)) rest

-- A Read Attributes Response.
unfoldable pub read_response : List ℕ → ℕ → List ℕ → List ℕ
unfolding append_attrs
read_response location seq attrs = append_attrs location (0x18 ∷ seq ∷ 0x01 ∷ []) attrs

-- `i` when the sequence number is read.
unfoldable pub header_at : ℕ → ℕ
header_at fc = if bit_and fc 0x04 != 0 then 3 else 1

-- What is answered to `zlen` bytes of ZCL, if anything is.
unfoldable pub zcl_answer : List ℕ → ℕ → List ℕ → Option (List ℕ)
unfolding header_at read_response
zcl_answer location cluster zcl =
    let i = header_at (get_or zcl 0 0) in
    if leb (length zcl) (i + 1)
    then none
    else if cluster != zcl_cluster_basic
    then none
    else if bit_and (get_or zcl 0 0) 0x03 != 0x00 || get_or zcl (i + 1) 0 != 0x00
    then none
    else some (read_response location (get_or zcl i 0) (drop (i + 2) zcl))

-- A 16-bit number at an index of a message.
abbrev pub word_at : List ℕ → ℕ → ℕ
word_at m i = get_or m i 0 + get_or m (i + 1) 0 * 2 ^ 8

-- Whom to answer, and what.
unfoldable pub answer_to : List ℕ → List ℕ → Option (ℕ × List ℕ)
unfolding zcl_answer
answer_to location m =
    let zlen = get_or m 18 0 in
    if ltb (length m) 20
    then none
    else if ltb zlen 3 || ltb (length m) (19 + zlen)
    then none
    else if word_at m 1 == zcl_profile_zdo && word_at m 3 == zdo_mgmt_permit_joining_req
    then none
    else elim (zcl_answer location (word_at m 3) (take zlen (drop 19 m))) [
      | none ↦ none
      | some resp ↦ some (word_at m 14, resp)
    ]

unfoldable pub send_answer : Cfg → Pins → Option (ℕ × List ℕ) → M (Unit {0})
unfolding zcl_send
send_answer c p none = pure tt
send_answer c p (some (sender, resp)) = do
  handed ← zcl_send c p sender zcl_cluster_basic resp
  pure tt

unfoldable pub zcl_handle_incoming : Cfg → Pins → List ℕ → List ℕ → M (Unit {0})
unfolding answer_to send_answer
zcl_handle_incoming c p location m = send_answer c p (answer_to location m)

abbrev pub report : List ℕ
report = 0x18 ∷ 0 ∷ 0x0A ∷ 0x00 ∷ 0x00 ∷ 0x20 ∷ 3 ∷ []

-- `report_count++` or `report_failed++`, on an `unsigned`.
unfoldable pub count_report : Bool → M (Unit {0})
count_report handed h =
    if handed
    then ok tt (record h { report_count = (h.report_count + 1) % 2 ^ 32 })
    else ok tt (record h { report_failed = (h.report_failed + 1) % 2 ^ 32 })

unfoldable pub zcl_report : Cfg → Pins → M (Unit {0})
unfolding zcl_send count_report
zcl_report c p = do handed ← zcl_send c p 0x0000 zcl_cluster_basic report; count_report handed

-- Whether the endpoint was registered, which only is announced.
unfoldable pub ezsp_apply_config : Cfg → Pins → M Bool
unfolding ezsp_add_endpoint
ezsp_apply_config c p = do
  profile ← ezsp_set_config c p ezsp_config_stack_profile 2
  level ← ezsp_set_config c p ezsp_config_security_level 5
  keys ← ezsp_set_config c p ezsp_config_key_table_size 4
  cache ← ezsp_set_config c p ezsp_config_tc_address_cache_size 2
  ezsp_add_endpoint c p
