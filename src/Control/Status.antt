-- ===== src/Control/Status.antt =====
-- The answers of the control socket to "status", "scan", "neighbors" and "children"
-- (package/ezsp-spi/src/control.c). Each call of `snprintf` adds its text whole: that the buffer
-- holds all of it, so that no call is cut short, is shown in Control/Fits.
use openwrt_ezsp_spi.Prelude.{
  ℕ, zero, suc, ◌+◌, ◌-◌, ◌*◌, ◌%◌, ◌^◌, ◌&&◌, ◌||◌, not, Option, none, some, List, [], ◌∷◌, ◌++◌,
  length, get_or, bytes_at, ltb, leb, ◌==◌, if◌then◌else◌, min,
}
use openwrt_ezsp_spi.Config.{
  Cfg, Pins, ember_success, ezsp_network_state, ezsp_get_eui64, ezsp_get_node_id,
  ezsp_get_network_parameters, ezsp_start_scan, ezsp_active_scan, ezsp_neighbor_count,
  ezsp_get_neighbor, ezsp_get_route_table_entry, ezsp_get_parent_child_params, ezsp_get_child_data,
}
use openwrt_ezsp_spi.Host.{ok, M, pure, ◌>>=◌}
use openwrt_ezsp_spi.Ezsp.{ezsp_cmd, status_text}
use openwrt_ezsp_spi.Text.{
  codes, digits, unsigned, signed, hex4, colon_line, newline, network_state_name, node_type_name,
}

-- `n` bytes of a reply from index `i` on, the last one first.
unfoldable pub down : List ℕ → ℕ → ℕ → List ℕ
down out i zero = []
down out i (suc n) = get_or out (i + n) 0 ∷ down out i n

-- `out[i] | out[i + 1] << 8`
abbrev pub word : List ℕ → ℕ → ℕ
word out i = get_or out i 0 + get_or out (i + 1) 0 * 2 ^ 8

unfoldable pub state_line : Option (List ℕ) → List ℕ
state_line none = codes "state: unknown" ++ newline
state_line (some []) = codes "state: unknown" ++ newline
state_line (some (s ∷ rest)) = codes "state: " ++ (network_state_name s ++ newline)

unfoldable pub eui64_line : Option (List ℕ) → List ℕ
unfolding down
eui64_line none = []
eui64_line (some out) =
    if leb 8 (length out) then codes "eui64: " ++ colon_line (down out 0 8) else []

unfoldable pub node_id_line : Option (List ℕ) → List ℕ
node_id_line none = []
node_id_line (some out) =
    if leb 2 (length out) then codes "node_id: 0x" ++ (hex4 (word out 0) ++ newline) else []

-- A byte as `int8_t`, in the 32 bits of an `int`.
abbrev pub int8 : ℕ → ℕ
int8 b = if ltb (b % 256) 128 then b % 256 else 2 ^ 32 - 256 + b % 256

unfoldable pub parameter_lines : List ℕ → List ℕ
parameter_lines out =
    codes "node_type: "
    ++ (node_type_name (get_or out 1 0)
        ++ (newline
            ++ (codes "ext_pan_id: "
                ++ (colon_line (bytes_at out 2 8)
                    ++ (codes "pan_id: 0x"
                        ++ (hex4 (word out 10)
                            ++ (newline
                                ++ (codes "tx_power: "
                                    ++ (signed (int8 (get_or out 12 0))
                                        ++ (newline
                                            ++ (codes "channel: "
                                                ++ (unsigned (get_or out 13 0)
                                                    ++ newline))))))))))))

unfoldable pub network_lines : Option (List ℕ) → List ℕ
unfolding parameter_lines
network_lines none = []
network_lines (some out) =
    if leb 14 (length out) && get_or out 0 0 == ember_success then parameter_lines out else []

-- `report_count` and `report_failed`; `age` is `time(NULL) - report_last` in 63 bits, if there was
-- a report.
unfoldable pub report_lines : ℕ → ℕ → Option ℕ → List ℕ
report_lines count failed none =
    codes "reports: "
    ++ (unsigned count ++ (codes " sent, " ++ (unsigned failed ++ (codes " failed" ++ newline))))
report_lines count failed (some age) =
    codes "reports: "
    ++ (unsigned count
        ++ (codes " sent, "
            ++ (unsigned failed
                ++ (codes " failed"
                    ++ (newline
                        ++ (codes "last_report: "
                            ++ (digits 19 age ++ (codes "s ago" ++ newline))))))))

unfoldable pub counts : Option ℕ → M (List ℕ)
unfolding report_lines
counts age h = ok (report_lines h.report_count h.report_failed age) h

-- The answers to the four questions, and the lines of the reports.
unfoldable pub status_page :
    Option (List ℕ) → Option (List ℕ) → Option (List ℕ) → Option (List ℕ) → List ℕ → List ℕ
unfolding state_line eui64_line node_id_line network_lines
status_page state eui id net reports =
    state_line state
    ++ (eui64_line eui
        ++ (node_id_line id ++ (network_lines net ++ (reports ++ (codes "ok" ++ newline)))))

unfoldable pub control_status : Cfg → Pins → Option ℕ → M (List ℕ)
unfolding status_page counts
control_status c p age = do
  state ← ezsp_cmd c p ezsp_network_state [] 64
  eui ← ezsp_cmd c p ezsp_get_eui64 [] 64
  id ← ezsp_cmd c p ezsp_get_node_id [] 64
  net ← ezsp_cmd c p ezsp_get_network_parameters [] 64
  reports ← counts age
  pure (status_page state eui id net reports)

-- An active scan of channels 11 to 26, which the stack is expected to refuse.
unfoldable pub control_scan : Cfg → Pins → M (List ℕ)
control_scan c p = do
  r ← ezsp_cmd c p ezsp_start_scan (ezsp_active_scan ∷ 0x00 ∷ 0xF8 ∷ 0xFF ∷ 0x07 ∷ 3 ∷ []) 32
  pure (
      codes "scan: refused while joined "
      ++ (status_text r ++ (codes "hint: stop the service to scan, it leaves the mesh" ++ newline)))

-- `n >= 1 ? out[0] : 0`
unfoldable pub count_of : Option (List ℕ) → ℕ
count_of none = 0
count_of (some []) = 0
count_of (some (n ∷ rest)) = n

unfoldable pub neighbor_line : Option (List ℕ) → List ℕ
neighbor_line none = []
neighbor_line (some o) =
    if ltb (length o) 15 || not (get_or o 0 0 == ember_success)
    then []
    else codes "neighbor: 0x"
      ++ (hex4 (word o 1)
          ++ (codes " lqi "
              ++ (unsigned (get_or o 3 0)
                  ++ (codes " in "
                      ++ (unsigned (get_or o 4 0)
                          ++ (codes " out " ++ (unsigned (get_or o 5 0) ++ newline)))))))

-- An entry that is unused, or empty, has no line.
unfoldable pub route_line : Option (List ℕ) → List ℕ
route_line none = []
route_line (some o) =
    if ltb (length o) 7 || (not (get_or o 0 0 == ember_success) || get_or o 5 0 == 2)
    then []
    else if word o 1 == 0xFFFF
    then []
    else codes "route: dest 0x"
      ++ (hex4 (word o 1)
          ++ (codes " via 0x"
              ++ (hex4 (word o 3) ++ (codes " state " ++ (unsigned (get_or o 5 0) ++ newline)))))

-- A table that is read entry by entry from `i` on, with the rounds left, while the text has room.
unfoldable pub table_from :
    ℕ → Cfg → Pins → ℕ → (Option (List ℕ) → List ℕ) → ℕ → List ℕ → M (List ℕ)
table_from zero c p id line i text = pure text
table_from (suc n) c p id line i text =
    if ltb (length text) (1024 - 80)
    then (do
      o ← ezsp_cmd c p id (i % 256 ∷ []) 64
      table_from n c p id line (i + 1) (text ++ line o))
    else pure text

unfoldable pub control_neighbors : Cfg → Pins → M (List ℕ)
unfolding count_of neighbor_line route_line table_from
control_neighbors c p = do
  r ← ezsp_cmd c p ezsp_neighbor_count [] 64
  text ←
      table_from (count_of r) c p ezsp_get_neighbor neighbor_line 0
        (codes "neighbors: " ++ (unsigned (count_of r) ++ newline))
  table_from 16 c p ezsp_get_route_table_entry route_line 0 text

unfoldable pub child_line : Option (List ℕ) → List ℕ
unfolding down
child_line none = []
child_line (some out) =
    if ltb (length out) 12 || not (get_or out 0 0 == ember_success)
    then []
    else codes "child: 0x" ++ (hex4 (word out 1) ++ (codes " " ++ colon_line (down out 3 8)))

unfoldable pub children_from : ℕ → Cfg → Pins → ℕ → List ℕ → M (List ℕ)
unfolding child_line
children_from zero c p i text = pure text
children_from (suc n) c p i text = do
  out ← ezsp_cmd c p ezsp_get_child_data (i % 256 ∷ []) 64
  children_from n c p (i + 1) (text ++ child_line out)

-- Eight children at most.
unfoldable pub control_children : Cfg → Pins → M (List ℕ)
unfolding count_of children_from
control_children c p = do
  r ← ezsp_cmd c p ezsp_get_parent_child_params [] 64
  children_from (min (count_of r) 8) c p 0
      (codes "children: " ++ (unsigned (count_of r) ++ newline))
