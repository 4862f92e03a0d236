-- ===== src/Show/Tables.antt =====
-- package/ezsp-spi/src/ezsp.c: `cmd_neighbors`, and tables that are asked for entry by entry.
use openwrt_ezsp_spi.Prelude.{
  ℕ, zero, suc, ◌+◌, Bool, false, ◌&&◌, ◌||◌, not, Option, none, some, List, [], ◌∷◌, ◌++◌, length,
  get_or, leb, ◌==◌, if◌then◌else◌,
}
use openwrt_ezsp_spi.Config.{
  Cfg, Pins, ember_success, ezsp_network_init, ezsp_get_parent_child_params, ezsp_neighbor_count,
  ezsp_get_neighbor, ezsp_get_route_table_entry,
}
use openwrt_ezsp_spi.Host.{M, pure, ◌>>=◌, ◌>>◌, usleep}
use openwrt_ezsp_spi.Text.{codes, unsigned, hex2, hex4, colon_line, newline, padded, printed}
use openwrt_ezsp_spi.Ezsp.{ezsp_cmd, status_of}
use openwrt_ezsp_spi.Zcl.{ezsp_apply_config}
use openwrt_ezsp_spi.Join.{bring_up}
use openwrt_ezsp_spi.Control.Status.{down, word}
use openwrt_ezsp_spi.Control.Commands.{Peer, Result, went_wrong, ask_daemon, control_query}

-- A reply of `n` bytes at least that begins with EMBER_SUCCESS.
unfoldable pub has_entry : ℕ → Option (List ℕ) → Bool
has_entry n none = false
has_entry n (some out) = leb n (length out) && get_or out 0 0 == ember_success

-- A question for each of `n` entries from `i` on: the lines of the answers.
unfoldable pub each_entry : ℕ → Cfg → Pins → ℕ → ℕ → (ℕ → Option (List ℕ) → List ℕ) → ℕ → M (List ℕ)
each_entry zero c p id max line i = pure []
each_entry (suc n) c p id max line i = do
  r ← ezsp_cmd c p id (i ∷ []) max
  rest ← each_entry n c p id max line (i + 1)
  pure (line i r ++ rest)

-- A line for a reply with an entry, nothing for any other.
unfoldable pub entry_line : ℕ → (ℕ → List ℕ → List ℕ) → ℕ → Option (List ℕ) → List ℕ
unfolding has_entry
entry_line n line i none = []
entry_line n line i (some out) = if has_entry n (some out) then line i out else []

unfoldable pub table_neighbor : ℕ → List ℕ → List ℕ
unfolding down padded printed
table_neighbor i out = printed (
    codes "    0x"
    ∷ hex4 (word out 1)
    ∷ codes "  lqi "
    ∷ padded 3 (unsigned (get_or out 3 0))
    ∷ codes "  cost in "
    ∷ unsigned (get_or out 4 0)
    ∷ codes " out "
    ∷ unsigned (get_or out 5 0)
    ∷ codes "  "
    ∷ colon_line (down out 7 8)
    ∷ [])

unfoldable pub route_state : ℕ → List ℕ
route_state s =
    if s == 0
    then codes "active"
    else if s == 1
    then codes "discovering"
    else if s == 2
    then codes "unused"
    else if s == 3
    then codes "validating"
    else codes "?"

-- An unused entry has no line.
unfoldable pub table_route : ℕ → List ℕ → List ℕ
unfolding route_state printed
table_route i out =
    if get_or out 5 0 == 2 || word out 1 == 0xFFFF
    then []
    else printed (
        codes "    dest 0x"
        ∷ hex4 (word out 1)
        ∷ codes " via 0x"
        ∷ hex4 (word out 3)
        ∷ codes "  "
        ∷ route_state (get_or out 5 0)
        ∷ newline
        ∷ [])

unfoldable pub children_line : Option (List ℕ) → List ℕ
unfolding printed
children_line none = []
children_line (some out) =
    if leb 11 (length out)
    then printed (codes "  children: " ∷ unsigned (get_or out 0 0) ∷ newline ∷ [])
    else []

-- The table of neighbours, with as many rounds as the NCP has entries.
unfoldable pub neighbor_table : Cfg → Pins → Option (List ℕ) → M (List ℕ)
unfolding each_entry entry_line table_neighbor printed
neighbor_table c p none = pure []
neighbor_table c p (some []) = pure []
neighbor_table c p (some (count ∷ out)) = do
  rows ← each_entry count c p ezsp_get_neighbor 64 (entry_line 15 table_neighbor) 0
  pure (
      printed (
        newline
        ∷ codes "  neighbour table ("
        ∷ unsigned count
        ∷ codes ")"
        ∷ newline
        ∷ (if count == 0 then codes "    empty -- no Zigbee devices heard yet" ++ newline else [])
        ∷ rows
        ∷ []))

unfoldable pub show_tables : Cfg → Pins → M Result
unfolding children_line neighbor_table table_route printed
show_tables c p = do
  usleep 3000000
  children ← ezsp_cmd c p ezsp_get_parent_child_params [] 64
  count ← ezsp_cmd c p ezsp_neighbor_count [] 64
  near ← neighbor_table c p count
  routes ← each_entry 16 c p ezsp_get_route_table_entry 64 (entry_line 7 table_route) 0
  pure (
    0,
    printed (
        codes "ezsp-spi neighbors"
        ∷ newline
        ∷ children_line children
        ∷ near
        ∷ newline
        ∷ codes "  route table"
        ∷ newline
        ∷ routes
        ∷ newline
        ∷ []),
  )

unfoldable pub neighbors_alone : Cfg → Pins → M Result
unfolding show_tables went_wrong
neighbors_alone c p = do
  ready ← bring_up c p
  if not ready then pure (1, codes "ezsp-spi neighbors" ++ newline) else (do
    endpoint ← ezsp_apply_config c p
    r ← ezsp_cmd c p ezsp_network_init [] 64
    if went_wrong r
        then pure (
          1,
          printed (
              codes "ezsp-spi neighbors"
              ∷ newline
              ∷ codes "  not on a network (status 0x"
              ∷ hex2 (status_of r)
              ∷ codes ")"
              ∷ newline
              ∷ []),
        )
        else show_tables c p)

unfoldable pub cmd_neighbors : Peer → Cfg → Pins → M Result
unfolding neighbors_alone ask_daemon
cmd_neighbors daemon c p =
    ask_daemon (control_query (daemon (codes "neighbors" ++ newline))) (neighbors_alone c p)
