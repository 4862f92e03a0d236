-- ===== src/Show/Info.antt =====
-- package/ezsp-spi/src/ezsp.c: `cmd_info`.
use openwrt_ezsp_spi.Prelude.{
  ℕ, ◌&&◌, not, Option, none, some, List, [], ◌∷◌, ◌++◌, length, get_or, bytes_at, leb, ◌!=◌,
  if◌then◌else◌,
}
use openwrt_ezsp_spi.Config.{
  Cfg, Pins, ember_not_joined, ezsp_network_init, ezsp_network_state, ezsp_get_eui64,
  ezsp_get_node_id, ezsp_get_network_parameters,
}
use openwrt_ezsp_spi.Host.{M, pure, ◌>>=◌}
use openwrt_ezsp_spi.Text.{
  codes, unsigned, signed, hex2, hex4, colon_line, newline, printed, ember_status_name,
  network_state_name, node_type_name,
}
use openwrt_ezsp_spi.Ezsp.{ezsp_cmd, status_of}
use openwrt_ezsp_spi.Zcl.{ezsp_apply_config}
use openwrt_ezsp_spi.Join.{bring_up}
use openwrt_ezsp_spi.Control.Status.{down, word, int8}
use openwrt_ezsp_spi.Control.Commands.{Result, went_wrong}

unfoldable pub info_init : Option (List ℕ) → List ℕ
unfolding went_wrong printed
info_init r =
    if went_wrong r && status_of r != ember_not_joined
    then printed (
        codes "  networkInit status 0x"
        ∷ hex2 (status_of r)
        ∷ codes " ("
        ∷ ember_status_name (status_of r)
        ∷ codes ")"
        ∷ newline
        ∷ [])
    else []

unfoldable pub info_eui64 : Option (List ℕ) → List ℕ
unfolding down
info_eui64 none = []
info_eui64 (some out) =
    if leb 8 (length out) then codes "  EUI64                 " ++ colon_line (down out 0 8) else []

unfoldable pub info_node_id : Option (List ℕ) → List ℕ
unfolding printed
info_node_id none = []
info_node_id (some out) =
    if leb 2 (length out)
    then printed (codes "  node id               0x" ∷ hex4 (word out 0) ∷ newline ∷ [])
    else []

unfoldable pub info_state : Option (List ℕ) → List ℕ
unfolding printed
info_state none = []
info_state (some []) = []
info_state (some (s ∷ rest)) = printed (
    codes "  network state         "
    ∷ network_state_name s
    ∷ codes " (0x"
    ∷ hex2 s
    ∷ codes ")"
    ∷ newline
    ∷ [])

unfoldable pub info_parameters : List ℕ → List ℕ
unfolding printed
info_parameters out = printed (
    codes "  node type             "
    ∷ node_type_name (get_or out 1 0)
    ∷ codes " (0x"
    ∷ hex2 (get_or out 1 0)
    ∷ codes ")"
    ∷ newline
    ∷ codes "  extended pan id       "
    ∷ colon_line (bytes_at out 2 8)
    ∷ codes "  pan id                0x"
    ∷ hex4 (word out 10)
    ∷ newline
    ∷ codes "  radio tx power        "
    ∷ signed (int8 (get_or out 12 0))
    ∷ codes " dBm"
    ∷ newline
    ∷ codes "  radio channel         "
    ∷ unsigned (get_or out 13 0)
    ∷ newline
    ∷ [])

unfoldable pub info_network : Option (List ℕ) → List ℕ
unfolding info_parameters printed
info_network none = []
info_network (some out) =
    if leb 14 (length out)
    then (if get_or out 0 0 != 0
        then printed (
            codes "  network parameters    none (status 0x"
            ∷ hex2 (get_or out 0 0)
            ∷ codes ", not joined)"
            ∷ newline
            ∷ [])
        else info_parameters out)
    else []

unfoldable pub cmd_info : Cfg → Pins → M Result
unfolding info_init info_eui64 info_node_id info_state info_network printed
cmd_info c p = do
  ready ← bring_up c p
  if not ready then pure (1, codes "ezsp-spi info" ++ newline) else (do
    endpoint ← ezsp_apply_config c p
    r ← ezsp_cmd c p ezsp_network_init [] 64
    eui ← ezsp_cmd c p ezsp_get_eui64 [] 64
    id ← ezsp_cmd c p ezsp_get_node_id [] 64
    state ← ezsp_cmd c p ezsp_network_state [] 64
    net ← ezsp_cmd c p ezsp_get_network_parameters [] 64
    pure (
      0,
      printed (
          codes "ezsp-spi info"
          ∷ newline
          ∷ info_init r
          ∷ info_eui64 eui
          ∷ info_node_id id
          ∷ info_state state
          ∷ info_network net
          ∷ []),
    ))
