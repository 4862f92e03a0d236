-- ===== src/Text.antt =====
-- The text that the program writes: the conversions of `printf` that it uses, and the names of
-- package/ezsp-spi/src/ezsp.c. A text is the list of its characters.
pub mod Numbers
pub mod Lengths
use Prim.Native.Char.{code}
use Prim.Native.String.{String}
use openwrt_ezsp_spi.Prelude.{
  ℕ, zero, suc, ◌+◌, ◌-◌, ◌/◌, ◌%◌, ◌^◌, List, [], ◌∷◌, ◌++◌, length, replicate, ltb, ◌==◌,
  if◌then◌else◌,
}

abbrev pub codes : String → List ℕ
codes String.[] = []
codes (String.◌∷◌ c s) = code c ∷ codes s

-- The digits of a number with so many digits at most.
unfoldable pub digits : ℕ → ℕ → List ℕ
digits zero n = []
digits (suc more) n = if ltb n 10 then (n + 48) ∷ [] else digits more (n / 10) ++ (n % 10 + 48) ∷ []

-- `%u`
abbrev pub unsigned : ℕ → List ℕ
unsigned n = digits 10 n

-- `%d` of an `int`, which is given as its 32 bits.
unfoldable pub signed : ℕ → List ℕ
signed n = if ltb n (2 ^ 31) then digits 10 n else 45 ∷ digits 10 (2 ^ 32 - n)

-- The upper case character of a hexadecimal digit.
unfoldable pub hex_digit : ℕ → ℕ
hex_digit d = if ltb d 10 then d + 48 else d + 55

-- `%02X` of a byte.
unfoldable pub hex2 : ℕ → List ℕ
unfolding hex_digit
hex2 b = hex_digit (b / 16 % 16) ∷ hex_digit (b % 16) ∷ []

-- `%04X` of a 16-bit number.
unfoldable pub hex4 : ℕ → List ℕ
unfolding hex2
hex4 n = hex2 (n / 256) ++ hex2 n

abbrev pub newline : List ℕ
newline = 10 ∷ []

-- Bytes with a colon behind each but the last, which ends the line.
unfoldable pub colon_line : List ℕ → List ℕ
unfolding hex2
colon_line [] = []
colon_line (b ∷ []) = hex2 b ++ newline
colon_line (b ∷ b' ∷ bytes) = hex2 b ++ 58 ∷ colon_line (b' ∷ bytes)

unfoldable pub ember_status_name : ℕ → List ℕ
ember_status_name s =
    if s == 0x00
    then codes "success"
    else if s == 0x90
    then codes "network up"
    else if s == 0x91
    then codes "network down"
    else if s == 0x93
    then codes "not joined"
    else if s == 0x94
    then codes "join failed"
    else if s == 0x96
    then codes "move failed"
    else if s == 0x98
    then codes "cannot join as router"
    else if s == 0x99
    then codes "node id changed"
    else if s == 0x9A
    then codes "pan id changed"
    else if s == 0xAB
    then codes "no beacons heard"
    else if s == 0xAC
    then codes "received key in the clear"
    else if s == 0xAD
    then codes "no network key received"
    else if s == 0xAE
    then codes "no link key received"
    else if s == 0xAF
    then codes "preconfigured key required"
    else codes "see EmberStatus"

unfoldable pub network_state_name : ℕ → List ℕ
network_state_name s =
    if s == 0x00
    then codes "no network"
    else if s == 0x01
    then codes "joining"
    else if s == 0x02
    then codes "joined"
    else if s == 0x03
    then codes "joined, no parent"
    else if s == 0x04
    then codes "leaving"
    else codes "unknown"

unfoldable pub node_type_name : ℕ → List ℕ
node_type_name t =
    if t == 0x00
    then codes "unknown"
    else if t == 0x01
    then codes "coordinator"
    else if t == 0x02
    then codes "router"
    else if t == 0x03
    then codes "end device"
    else if t == 0x04
    then codes "sleepy end device"
    else codes "unrecognised"

-- `%08X` of a 32-bit number.
unfoldable pub hex8 : ℕ → List ℕ
unfolding hex4
hex8 n = hex4 (n / 2 ^ 16) ++ hex4 n

-- `%-Ns`: the text, and blanks up to so many characters.
unfoldable pub padded : ℕ → List ℕ → List ℕ
padded width text = text ++ replicate (width - length text) 32

-- Texts printed one behind the other.
unfoldable pub printed : List (List ℕ) → List ℕ
printed [] = []
printed (text ∷ texts) = text ++ printed texts
