-- ===== src/Control/Lives.antt =====
-- A client of the control socket is answered (package/ezsp-spi/src/control.c).
use openwrt_ezsp_spi.Prelude.{
  ℕ, zero, suc, ◌+◌, ◌-◌, ◌%◌, Option, List, [], ◌∷◌, ◌++◌, length, ltb, arith, min, take, refl,
}
use openwrt_ezsp_spi.Config.{
  Cfg, Pins, ezsp_network_state, ezsp_get_eui64, ezsp_get_node_id, ezsp_get_network_parameters,
  ezsp_start_scan, ezsp_active_scan, ezsp_neighbor_count, ezsp_get_neighbor,
  ezsp_get_route_table_entry, ezsp_get_parent_child_params, ezsp_get_child_data,
}
use openwrt_ezsp_spi.Host.Lives.{Lives, Lives->>=, Lives-if, pure-Lives}
use openwrt_ezsp_spi.Text.{codes, unsigned, newline}
use openwrt_ezsp_spi.Ezsp.{ezsp_cmd, ezsp_permit, ezsp_set_power}
use openwrt_ezsp_spi.Ezsp.Lives.{ezsp_cmd-Lives, ezsp_permit-Lives, ezsp_set_power-Lives}
use openwrt_ezsp_spi.Control.Status.{
  counts, status_page, control_status, control_scan, count_of, neighbor_line, route_line,
  table_from, control_neighbors, child_line, children_from, control_children,
}
use openwrt_ezsp_spi.Control.Serve.{
  Longs, Request, status, scan, neighbors, children, unknown, power, permit, reply_to,
  control_accept, usage_text, request_of, first_line,
}

counts-Lives : (age : Option ℕ) → Lives (counts age)
unfolding counts
counts-Lives age h alive = record { value = _; after = _; result = refl; holds = alive }

-- A question without parameters.
asked : (c : Cfg) (p : Pins) (id max : ℕ) → Lives (ezsp_cmd c p id [] max)
asked c p id max = ezsp_cmd-Lives c p id [] max (omega arith)

-- A question about one entry.
asked_for : (c : Cfg) (p : Pins) (id i : ℕ) → Lives (ezsp_cmd c p id (i % 256 ∷ []) 64)
asked_for c p id i = ezsp_cmd-Lives c p id (i % 256 ∷ []) 64 (omega arith)

control_status-Lives : (c : Cfg) (p : Pins) (age : Option ℕ) → Lives (control_status c p age)
unfolding control_status
control_status-Lives c p age =
    Lives->>= (ezsp_cmd c p ezsp_network_state [] 64) _ (asked c p ezsp_network_state 64) (λ state.
      Lives->>= (ezsp_cmd c p ezsp_get_eui64 [] 64) _ (asked c p ezsp_get_eui64 64) (λ eui.
        Lives->>= (ezsp_cmd c p ezsp_get_node_id [] 64) _ (asked c p ezsp_get_node_id 64) (λ id.
          Lives->>= (ezsp_cmd c p ezsp_get_network_parameters [] 64) _
            (asked c p ezsp_get_network_parameters 64)
            (λ net.
              Lives->>= (counts age) _ (counts-Lives age)
                (λ reports. pure-Lives (status_page state eui id net reports))))))

control_scan-Lives : (c : Cfg) (p : Pins) → Lives (control_scan c p)
unfolding control_scan
control_scan-Lives c p =
    Lives->>=
      (ezsp_cmd c p ezsp_start_scan (ezsp_active_scan ∷ 0x00 ∷ 0xF8 ∷ 0xFF ∷ 0x07 ∷ 3 ∷ []) 32) _
      (ezsp_cmd-Lives c p ezsp_start_scan _ 32 (omega arith)) (λ r. pure-Lives _)

table_from-Lives :
    (n : ℕ) (c : Cfg) (p : Pins) (id : ℕ) (line : Option (List ℕ) → List ℕ) (i : ℕ) (text : List ℕ)
    → Lives (table_from n c p id line i text)
unfolding table_from
table_from-Lives zero c p id line i text = pure-Lives text
table_from-Lives (suc n) c p id line i text =
    Lives-if (ltb (length text) (1024 - 80)) _ _
      (Lives->>= (ezsp_cmd c p id (i % 256 ∷ []) 64) _ (asked_for c p id i)
        (λ o. table_from-Lives n c p id line (i + 1) (text ++ line o)))
      (pure-Lives text)

control_neighbors-Lives : (c : Cfg) (p : Pins) → Lives (control_neighbors c p)
unfolding control_neighbors
control_neighbors-Lives c p =
    Lives->>= (ezsp_cmd c p ezsp_neighbor_count [] 64) _ (asked c p ezsp_neighbor_count 64) (λ r.
      Lives->>=
        (table_from (count_of r) c p ezsp_get_neighbor neighbor_line 0
          (codes "neighbors: " ++ (unsigned (count_of r) ++ newline)))
        _
        (table_from-Lives (count_of r) c p ezsp_get_neighbor neighbor_line 0
          (codes "neighbors: " ++ (unsigned (count_of r) ++ newline)))
        (λ text. table_from-Lives 16 c p ezsp_get_route_table_entry route_line 0 text))

children_from-Lives :
    (n : ℕ) (c : Cfg) (p : Pins) (i : ℕ) (text : List ℕ) → Lives (children_from n c p i text)
unfolding children_from
children_from-Lives zero c p i text = pure-Lives text
children_from-Lives (suc n) c p i text =
    Lives->>= (ezsp_cmd c p ezsp_get_child_data (i % 256 ∷ []) 64) _
      (asked_for c p ezsp_get_child_data i)
      (λ out. children_from-Lives n c p (i + 1) (text ++ child_line out))

control_children-Lives : (c : Cfg) (p : Pins) → Lives (control_children c p)
unfolding control_children
control_children-Lives c p =
    Lives->>= (ezsp_cmd c p ezsp_get_parent_child_params [] 64) _
      (asked c p ezsp_get_parent_child_params 64)
      (λ r.
        children_from-Lives (min (count_of r) 8) c p 0
          (codes "children: " ++ (unsigned (count_of r) ++ newline)))

reply_to-Lives :
    (c : Cfg) (p : Pins) (age : Option ℕ) (req : Request) → Lives (reply_to c p age req)
unfolding reply_to
reply_to-Lives c p age status = control_status-Lives c p age
reply_to-Lives c p age scan = control_scan-Lives c p
reply_to-Lives c p age neighbors = control_neighbors-Lives c p
reply_to-Lives c p age children = control_children-Lives c p
reply_to-Lives c p age (power dbm) =
    Lives->>= (ezsp_set_power c p dbm) _ (ezsp_set_power-Lives c p dbm) (λ r. pure-Lives (r.1))
reply_to-Lives c p age (permit secs) =
    Lives->>= (ezsp_permit c p secs) _ (ezsp_permit-Lives c p secs) (λ r. pure-Lives (r.1))
reply_to-Lives c p age unknown = pure-Lives usage_text

pub control_accept-Lives :
    (l : Longs) (c : Cfg) (p : Pins) (age : Option ℕ) (got : List ℕ)
    → Lives (control_accept l c p age got)
unfolding control_accept
control_accept-Lives l c p age [] = pure-Lives []
control_accept-Lives l c p age (ch ∷ text) =
    reply_to-Lives c p age (request_of l (first_line (take 63 (ch ∷ text))))
