-- ===== src/Text/Lengths.antt =====
-- How long the converted texts are at most.
use openwrt_ezsp_spi.Prelude.{
  ℕ, zero, suc, ◌+◌, ◌*◌, ◌-◌, ◌/◌, ◌%◌, ◌^◌, ◌≤◌, ◌≡◌, List, [], ◌∷◌, length, length-append, ltb,
  arith, refl, Bool-cases, inl, inr,
}
use openwrt_ezsp_spi.Text.{
  digits, signed, hex2, hex4, colon_line, ember_status_name, network_state_name, node_type_name,
}

pub length-digits : (more n : ℕ) → length (digits more n) ≤ more
unfolding digits
length-digits zero n = omega arith
length-digits (suc more) n = elim (Bool-cases (ltb n 10)) [
  | inl small ↦ rw small (omega arith)
  | inr large ↦ rw large (
      omega (
        arith,
        length-append (digits more (n / 10)) ((n % 10 + 48) ∷ []),
        length-digits more (n / 10),
      ))
]

pub length-signed : (n : ℕ) → length (signed n) ≤ 11
unfolding signed
length-signed n = ground (arith, length-digits 10 n, length-digits 10 (2 ^ 32 - n))

pub length-hex2 : (b : ℕ) → length (hex2 b) ≡ 2
unfolding hex2
length-hex2 b = refl

pub length-hex4 : (n : ℕ) → length (hex4 n) ≡ 4
unfolding hex4 hex2
length-hex4 n = refl

pub length-colon_line : (bytes : List ℕ) → length (colon_line bytes) ≡ 3 * length bytes
unfolding colon_line hex2
length-colon_line [] = refl
length-colon_line (b ∷ []) = refl
length-colon_line (b ∷ b' ∷ bytes) = omega (arith, length-colon_line (b' ∷ bytes))

pub length-ember_status_name : (s : ℕ) → length (ember_status_name s) ≤ 26
unfolding ember_status_name
length-ember_status_name s = ground arith

pub length-network_state_name : (s : ℕ) → length (network_state_name s) ≤ 17
unfolding network_state_name
length-network_state_name s = ground arith

pub length-node_type_name : (t : ℕ) → length (node_type_name t) ≤ 17
unfolding node_type_name
length-node_type_name t = ground arith
