-- ===== src/Zcl/Tests.antt =====
-- Reports and attribute reads of zcl.c on concrete messages.
use openwrt_ezsp_spi.Prelude.{ℕ, ◌≡◌, some, List, [], ◌∷◌, drop, arith}
use openwrt_ezsp_spi.Zcl.{read_response, attr_of, attr_record, text, unsupported, zcl_model}
use openwrt_ezsp_spi.Zcl.Response.{parse_records, read_response-parse}

abbrev router : List ℕ
router = 0x72 ∷ 0x31 ∷ []

-- ModelIdentifier, and an attribute that the node does not have.
abbrev model_and_more : List ℕ
model_and_more = 0x05 ∷ 0x00 ∷ 0x06 ∷ 0x00 ∷ []

read_response-parse_example :
    parse_records 2 (drop 3 (read_response router 9 model_and_more))
    ≡ some ((0x0005, text zcl_model) ∷ (0x0006, unsupported) ∷ [])
unfolding attr_of attr_record
read_response-parse_example =
    read_response-parse router 9 model_and_more (omega arith) (omega arith) (omega arith)

-- A read of manufacturer, model, location, build and six numbers, from node 0x1234.
abbrev interview : List ℕ
interview =
    0 ∷ 0x04 ∷ 0x01 ∷ 0x00 ∷ 0x00 ∷ 1 ∷ 1 ∷ 0 ∷ 0 ∷ 0 ∷ 0 ∷ 0 ∷ 200 ∷ 50 ∷ 0x34 ∷ 0x12 ∷ 0 ∷ 0 ∷ 21
    ∷ 0x00 ∷ 7 ∷ 0x00 ∷ 0x04 ∷ 0x00 ∷ 0x05 ∷ 0x00 ∷ 0x10 ∷ 0x00 ∷ 0x00 ∷ 0x40 ∷ 0x00 ∷ 0x00 ∷ 0x01
    ∷ 0x00 ∷ 0x02 ∷ 0x00 ∷ 0x03 ∷ 0x00 ∷ 0x07 ∷ 0x00 ∷ []
