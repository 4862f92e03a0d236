-- ===== src/Control/Fits.antt =====
-- The buffers of the control socket hold their texts (package/ezsp-spi/src/control.c).
use openwrt_ezsp_spi.Prelude.{
  ℕ, zero, suc, ◌+◌, ◌*◌, ◌-◌, ◌%◌, ◌≤◌, ◌<◌, List, [], ◌∷◌, ◌++◌, length, length-append, ltb,
  arith, Option, Bool-cases, inl, inr, min, ltb→lt, take,
}
use openwrt_ezsp_spi.Config.{
  Cfg, Pins, ezsp_start_scan, ezsp_network_state, ezsp_get_eui64, ezsp_get_node_id,
  ezsp_get_network_parameters, ezsp_neighbor_count, ezsp_get_neighbor, ezsp_get_route_table_entry,
  ezsp_get_parent_child_params, ezsp_get_child_data, ezsp_permit_joining, ezsp_set_radio_power,
}
use openwrt_ezsp_spi.Host.{Host}
use openwrt_ezsp_spi.Host.Run.{Ensures, returns, Ensures->>=, Ensures-after, Ensures-any}
use openwrt_ezsp_spi.Text.{codes, unsigned, newline}
use openwrt_ezsp_spi.Text.Lengths.{length-digits}
use openwrt_ezsp_spi.Ezsp.{window_of, ezsp_permit, ezsp_set_power, ezsp_cmd}
use openwrt_ezsp_spi.Control.Status.{
  counts, status_page, control_status, control_scan, count_of, neighbor_line, route_line,
  table_from, control_neighbors, child_line, children_from, control_children,
}
use openwrt_ezsp_spi.Control.Lines.{
  length-status_text, length-report_lines, length-neighbor_line, length-route_line,
  length-child_line, length-permit_text, length-power_text, length-status_page,
}
use openwrt_ezsp_spi.Control.Serve.{
  Longs, Request, status, scan, neighbors, children, unknown, power, permit, reply_to,
  control_accept, request_of, first_line,
}

-- The text and its NUL fit a buffer of this size.
abbrev pub Fits : ℕ → List ℕ → Host → Type 0
Fits size text h = length text < size

counts-short : (age : Option ℕ) (h : Host) → Ensures (λ text h'. length text ≤ 84) (counts age h)
unfolding counts
counts-short age h = returns (length-report_lines h.report_count h.report_failed age)

-- The status text fits the 512 bytes that `cmd_status` gives it, and so the 1024 of the control
-- socket: whatever the NCP answers to the four questions, whatever the counters and the clock say,
-- no call of `snprintf` is cut short and the write position never passes the end of the buffer.
pub control_status-Fits :
    (c : Cfg) (p : Pins) (age : Option ℕ) (h : Host) → Ensures (Fits 512) (control_status c p age h)
unfolding control_status
control_status-Fits c p age h = Ensures-any (ezsp_cmd c p ezsp_network_state [] 64) _ h (λ state h₁.
    Ensures-any (ezsp_cmd c p ezsp_get_eui64 [] 64) _ h₁ (λ eui h₂.
      Ensures-any (ezsp_cmd c p ezsp_get_node_id [] 64) _ h₂ (λ id h₃.
        Ensures-any (ezsp_cmd c p ezsp_get_network_parameters [] 64) _ h₃ (λ net h₄.
          Ensures->>= (counts age) _ h₄ (counts-short age h₄) (λ reports h₅ short.
            returns {a = status_page state eui id net reports} {h = h₅}
              (omega (arith, length-status_page state eui id net reports)))))))

control_scan-Fits : (c : Cfg) (p : Pins) (h : Host) → Ensures (Fits 1024) (control_scan c p h)
unfolding control_scan
control_scan-Fits c p h =
    Ensures-any (ezsp_cmd c p ezsp_start_scan _ 32) _ h
      (λ r h₁. returns (omega (arith, length-append {0}, length-status_text r)))

table_from-Fits :
    (n : ℕ) (c : Cfg) (p : Pins) (id : ℕ) (line : Option (List ℕ) → List ℕ) (i : ℕ) (text : List ℕ)
    (h : Host)
    → ((o : Option (List ℕ)) → length (line o) ≤ 79)
    → length text < 1024
    → Ensures (Fits 1024) (table_from n c p id line i text h)
unfolding table_from
table_from-Fits zero c p id line i text h short fits = returns fits
table_from-Fits (suc n) c p id line i text h short fits =
    elim (Bool-cases (ltb (length text) (1024 - 80))) [
      | inr full ↦ rw full (returns fits)
      | inl room ↦ rw room (
          Ensures-any (ezsp_cmd c p id (i % 256 ∷ []) 64) _ h (λ o h₁.
            table_from-Fits n c p id line (i + 1) (text ++ line o) h₁ short (
              omega (
                arith,
                length-append text (line o),
                short o,
                ltb→lt (length text) (1024 - 80) room,
              ))))
    ]

control_neighbors-Fits :
    (c : Cfg) (p : Pins) (h : Host) → Ensures (Fits 1024) (control_neighbors c p h)
unfolding control_neighbors
control_neighbors-Fits c p h = Ensures-any (ezsp_cmd c p ezsp_neighbor_count [] 64) _ h (λ r h₁.
    Ensures->>= (table_from (count_of r) c p ezsp_get_neighbor neighbor_line 0 _) _ h₁
      (table_from-Fits (count_of r) c p ezsp_get_neighbor neighbor_line 0
        (codes "neighbors: " ++ (unsigned (count_of r) ++ newline)) h₁
        (λ o. omega (arith, length-neighbor_line o))
        (omega (arith, length-append {0}, length-digits)))
      (λ text h₂ fits.
        table_from-Fits 16 c p ezsp_get_route_table_entry route_line 0 text h₂
          (λ o. omega (arith, length-route_line o)) fits))

children_from-Fits :
    (n : ℕ) (c : Cfg) (p : Pins) (i : ℕ) (text : List ℕ) (h : Host)
    → length text + 40 * n < 1024
    → Ensures (Fits 1024) (children_from n c p i text h)
unfolding children_from
children_from-Fits zero c p i text h fits = returns (omega arith)
children_from-Fits (suc n) c p i text h fits =
    Ensures-any (ezsp_cmd c p ezsp_get_child_data (i % 256 ∷ []) 64) _ h (λ out h₁.
      children_from-Fits n c p (i + 1) (text ++ child_line out) h₁
        (omega (arith, length-append text (child_line out), length-child_line out)))

control_children-Fits :
    (c : Cfg) (p : Pins) (h : Host) → Ensures (Fits 1024) (control_children c p h)
unfolding control_children
control_children-Fits c p h =
    Ensures-any (ezsp_cmd c p ezsp_get_parent_child_params [] 64) _ h (λ r h₁.
      children_from-Fits (min (count_of r) 8) c p 0 _ h₁
        (omega (arith, length-append {0}, length-digits)))

ezsp_set_power-Fits :
    (c : Cfg) (p : Pins) (dbm : ℕ) (h : Host)
    → Ensures (λ r h'. length (r.1) < 1024) (ezsp_set_power c p dbm h)
unfolding ezsp_set_power
ezsp_set_power-Fits c p dbm h =
    Ensures-any (ezsp_cmd c p ezsp_set_radio_power (dbm % 256 ∷ []) 8) _ h
      (λ r h₁. returns {h = h₁} (omega (arith, length-power_text dbm r)))

ezsp_permit-Fits :
    (c : Cfg) (p : Pins) (secs : ℕ) (h : Host)
    → Ensures (λ r h'. length (r.1) < 1024) (ezsp_permit c p secs h)
unfolding ezsp_permit
ezsp_permit-Fits c p secs h =
    Ensures-any (ezsp_cmd c p ezsp_permit_joining (window_of secs ∷ []) 8) _ h
      (λ r h₁. returns {h = h₁} (omega (arith, length-permit_text (window_of secs) r)))

reply_to-Fits :
    (c : Cfg) (p : Pins) (age : Option ℕ) (req : Request) (h : Host)
    → Ensures (Fits 1024) (reply_to c p age req h)
unfolding reply_to
reply_to-Fits c p age status h =
    Ensures-after (control_status c p age h) (control_status-Fits c p age h)
      (λ text h' fits. omega arith)
reply_to-Fits c p age scan h = control_scan-Fits c p h
reply_to-Fits c p age neighbors h = control_neighbors-Fits c p h
reply_to-Fits c p age children h = control_children-Fits c p h
reply_to-Fits c p age (power dbm) h =
    Ensures->>= (ezsp_set_power c p dbm) _ h (ezsp_set_power-Fits c p dbm h)
      (λ r h' fits. returns fits)
reply_to-Fits c p age (permit secs) h =
    Ensures->>= (ezsp_permit c p secs) _ h (ezsp_permit-Fits c p secs h) (λ r h' fits. returns fits)
reply_to-Fits c p age unknown h = returns (omega arith)

-- Every answer of the control socket fits its buffer of 1024 bytes, whatever a client sends and
-- whatever the NCP answers: the tables of neighbours, routes and children included.
pub control_accept-Fits :
    (l : Longs) (c : Cfg) (p : Pins) (age : Option ℕ) (got : List ℕ) (h : Host)
    → Ensures (Fits 1024) (control_accept l c p age got h)
unfolding control_accept
control_accept-Fits l c p age [] h = returns (omega arith)
control_accept-Fits l c p age (ch ∷ text) h =
    reply_to-Fits c p age (request_of l (first_line (take 63 (ch ∷ text)))) h
