-- ===== src/Control/Lines.antt =====
-- How long the lines of an answer are at most (package/ezsp-spi/src/control.c, ezsp.c, zcl.c).
use openwrt_ezsp_spi.Prelude.{
  ℕ, zero, suc, ◌≤◌, ◌≡◌, List, [], ◌∷◌, ◌++◌, length, length-append, ltb, leb, ◌==◌, ◌&&◌, ◌||◌,
  not, arith, Option, none, some, get_or, bytes_at, refl, Bool-cases, inl, inr,
}
use openwrt_ezsp_spi.Config.{ember_success}
use openwrt_ezsp_spi.Text.{codes, hex2, newline, ember_status_name}
use openwrt_ezsp_spi.Text.Lengths.{
  length-digits, length-signed, length-hex2, length-hex4, length-colon_line,
  length-ember_status_name, length-network_state_name, length-node_type_name,
}
use openwrt_ezsp_spi.Ezsp.{status_of, status_text, permit_text, power_text, succeeded}
use openwrt_ezsp_spi.Control.Status.{
  down, word, state_line, eui64_line, node_id_line, parameter_lines, network_lines, report_lines,
  status_page, neighbor_line, route_line, child_line,
}

pub length-status_text : (r : Option (List ℕ)) → length (status_text r) ≤ 42
unfolding status_text
length-status_text r = omega (
  arith,
  length-append (hex2 (status_of r))
      (codes " " ++ (ember_status_name (status_of r) ++ (codes ")" ++ newline))),
  length-append (ember_status_name (status_of r)) (codes ")" ++ newline),
  length-hex2 (status_of r),
  length-ember_status_name (status_of r),
)

pub length-state_line : (r : Option (List ℕ)) → length (state_line r) ≤ 25
unfolding state_line
length-state_line none = omega arith
length-state_line (some []) = omega arith
length-state_line (some (s ∷ rest)) = omega (arith, length-append {0}, length-network_state_name s)

length-down : (out : List ℕ) (i n : ℕ) → length (down out i n) ≡ n
unfolding down
length-down out i zero = refl
length-down out i (suc n) = omega (arith, length-down out i n)

length-bytes_at : (out : List ℕ) (i n : ℕ) → length (bytes_at out i n) ≡ n
length-bytes_at out i zero = refl
length-bytes_at out i (suc n) = omega (arith, length-bytes_at out (suc i) n)

pub length-eui64_line : (r : Option (List ℕ)) → length (eui64_line r) ≤ 31
unfolding eui64_line
length-eui64_line none = omega arith
length-eui64_line (some out) = elim (Bool-cases (leb 8 (length out))) [
  | inl whole ↦ rw whole (omega (arith, length-colon_line (down out 0 8), length-down out 0 8))
  | inr short ↦ rw short (omega arith)
]

pub length-node_id_line : (r : Option (List ℕ)) → length (node_id_line r) ≤ 16
unfolding node_id_line
length-node_id_line none = omega arith
length-node_id_line (some out) = elim (Bool-cases (leb 2 (length out))) [
  | inl whole ↦ rw whole (omega (arith, length-append {0}, length-hex4))
  | inr short ↦ rw short (omega arith)
]

length-parameter_lines : (out : List ℕ) → length (parameter_lines out) ≤ 126
unfolding parameter_lines
length-parameter_lines out = omega (
  arith,
  length-append {0},
  length-hex4,
  length-signed,
  length-digits,
  length-node_type_name,
  length-colon_line,
  length-bytes_at,
)

pub length-network_lines : (r : Option (List ℕ)) → length (network_lines r) ≤ 126
unfolding network_lines
length-network_lines none = omega arith
length-network_lines (some out) =
    elim (Bool-cases (leb 14 (length out) && get_or out 0 0 == ember_success)) [
      | inl whole ↦ rw whole (length-parameter_lines out)
      | inr short ↦ rw short (omega arith)
    ]

pub length-report_lines :
    (count failed : ℕ) (age : Option ℕ) → length (report_lines count failed age) ≤ 84
unfolding report_lines
length-report_lines count failed none = omega (arith, length-append {0}, length-digits)
length-report_lines count failed (some age) = omega (arith, length-append {0}, length-digits)

pub length-status_page :
    (state eui id net : Option (List ℕ)) (reports : List ℕ)
    → length reports ≤ 84
    → length (status_page state eui id net reports) ≤ 285
unfolding status_page
length-status_page state eui id net reports short = omega (
  arith,
  length-append {0},
  length-state_line state,
  length-eui64_line eui,
  length-node_id_line id,
  length-network_lines net,
)

pub length-neighbor_line : (r : Option (List ℕ)) → length (neighbor_line r) ≤ 65
unfolding neighbor_line
length-neighbor_line none = omega arith
length-neighbor_line (some o) =
    elim (Bool-cases (ltb (length o) 15 || not (get_or o 0 0 == ember_success))) [
      | inl short ↦ rw short (omega arith)
      | inr whole ↦ rw whole (omega (arith, length-append {0}, length-hex4, length-digits))
    ]

pub length-route_line : (r : Option (List ℕ)) → length (route_line r) ≤ 60
unfolding route_line
length-route_line none = omega arith
length-route_line (some o) =
    elim (Bool-cases
      (ltb (length o) 7 || (not (get_or o 0 0 == ember_success) || get_or o 5 0 == 2))) [
        | inl short ↦ rw short (omega arith)
        | inr whole ↦ rw whole (elim (Bool-cases (word o 1 == 0xFFFF)) [
          | inl empty ↦ rw empty (omega arith)
          | inr used ↦ rw used (omega (arith, length-append {0}, length-hex4, length-digits))
        ])
      ]

pub length-child_line : (r : Option (List ℕ)) → length (child_line r) ≤ 40
unfolding child_line
length-child_line none = omega arith
length-child_line (some o) =
    elim (Bool-cases (ltb (length o) 12 || not (get_or o 0 0 == ember_success))) [
      | inl short ↦ rw short (omega arith)
      | inr whole ↦ rw whole (
          omega (
            arith,
            length-append {0},
            length-hex4,
            length-colon_line (down o 3 8),
            length-down o 3 8,
          ))
    ]

pub length-permit_text : (window : ℕ) (r : Option (List ℕ)) → length (permit_text window r) ≤ 57
unfolding permit_text
length-permit_text window r = elim (Bool-cases (succeeded r)) [
  | inl open_ ↦ rw open_ (omega (arith, length-append {0}, length-digits))
  | inr failed ↦ rw failed (omega (arith, length-status_text r))
]

pub length-power_text : (dbm : ℕ) (r : Option (List ℕ)) → length (power_text dbm r) ≤ 73
unfolding power_text
length-power_text dbm r = elim (Bool-cases (succeeded r)) [
  | inl set ↦ rw set (omega (arith, length-append {0}, length-signed))
  | inr refused ↦ rw refused (omega (arith, length-append {0}, length-signed, length-status_text r))
]
