-- ===== src/Show/Keys.antt =====
-- package/ezsp-spi/src/ezsp.c: `cmd_keys`.
use openwrt_ezsp_spi.Prelude.{
  ℕ, ◌+◌, ◌*◌, ◌^◌, Bool, not, Option, none, some, List, [], ◌∷◌, length, get_or, bytes_at, ltb,
  if◌then◌else◌,
}
use openwrt_ezsp_spi.Config.{
  Cfg, Pins, ezsp_network_init, ezsp_get_key, ember_trust_center_link_key,
  ember_current_network_key,
}
use openwrt_ezsp_spi.Host.{M, pure, ◌>>=◌}
use openwrt_ezsp_spi.Text.{codes, unsigned, hex2, hex4, colon_line, newline, printed}
use openwrt_ezsp_spi.Ezsp.{ezsp_cmd, succeeded, status_of}
use openwrt_ezsp_spi.Zcl.{ezsp_apply_config}
use openwrt_ezsp_spi.Join.{bring_up, zigbee_alliance_09}
use openwrt_ezsp_spi.Control.Status.{down, word}
use openwrt_ezsp_spi.Control.Serve.{equal_texts}
use openwrt_ezsp_spi.Control.Commands.{Result}

-- The two entries of `want`.
pub data Want : Type 0 where
  link_key network_key : Want

unfoldable pub type_of : Want → ℕ
type_of link_key = ember_trust_center_link_key
type_of network_key = ember_current_network_key

unfoldable pub name_of : Want → List ℕ
name_of link_key = codes "trust centre link key"
name_of network_key = codes "current network key"

-- `memcmp(out + 4, zigbee_alliance_09, 16) == 0`
unfoldable pub is_well_known : List ℕ → Bool
unfolding equal_texts
is_well_known out = equal_texts (bytes_at out 4 16) zigbee_alliance_09

-- What is said of the key itself.
unfoldable pub key_line : Want → List ℕ → List ℕ
unfolding is_well_known
key_line link_key out =
    if is_well_known out
    then codes "    key             the well-known ZigBeeAlliance09 key"
    else codes "    key             a unique key (not the well-known one)"
key_line network_key out = codes "    key             (not shown)"

-- Four bytes, the lowest first.
abbrev pub long_word : List ℕ → ℕ → ℕ
long_word out i = word out i + word out (i + 2) * 2 ^ 16

unfoldable pub key_lines : Want → List ℕ → List ℕ
unfolding key_line down printed
key_lines want out = printed (
    codes "    type            0x"
    ∷ hex2 (get_or out 3 0)
    ∷ newline
    ∷ codes "    bitmask         0x"
    ∷ hex4 (word out 1)
    ∷ newline
    ∷ key_line want out
    ∷ newline
    ∷ codes "    frame counters  out "
    ∷ unsigned (long_word out 20)
    ∷ codes " / in "
    ∷ unsigned (long_word out 24)
    ∷ newline
    ∷ codes "    sequence        "
    ∷ unsigned (get_or out 28 0)
    ∷ newline
    ∷ codes "    partner         "
    ∷ colon_line (down out 29 8)
    ∷ [])

-- The answer to the question for a key, which takes `n` bytes.
unfoldable pub key_page : Want → Option (List ℕ) → List ℕ
unfolding key_lines printed
key_page want none =
    printed (codes "    not available (status 0x" ∷ hex2 0xFF ∷ codes ")" ∷ newline ∷ [])
key_page want (some out) =
    if not (succeeded (some out))
    then printed (
        codes "    not available (status 0x"
        ∷ hex2 (status_of (some out))
        ∷ codes ")"
        ∷ newline
        ∷ [])
    else if ltb (length out) 37
    then printed
        (codes "    short reply (" ∷ unsigned (length out) ∷ codes " bytes)" ∷ newline ∷ [])
    else key_lines want out

-- One round of the loop.
unfoldable pub show_key : Cfg → Pins → Want → M (List ℕ)
unfolding type_of name_of key_page printed
show_key c p want = do
  r ← ezsp_cmd c p ezsp_get_key (type_of want ∷ []) 64
  pure (printed (newline ∷ codes "  " ∷ name_of want ∷ newline ∷ key_page want r ∷ []))

unfoldable pub cmd_keys : Cfg → Pins → M Result
unfolding show_key printed
cmd_keys c p = do
  ready ← bring_up c p
  if not ready then pure (1, printed (codes "ezsp-spi keys" ∷ newline ∷ [])) else (do
    endpoint ← ezsp_apply_config c p
    r ← ezsp_cmd c p ezsp_network_init [] 64
    link ← show_key c p link_key
    network ← show_key c p network_key
    pure (0, printed (codes "ezsp-spi keys" ∷ newline ∷ link ∷ network ∷ newline ∷ [])))
