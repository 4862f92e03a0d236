-- ===== src/Control/Shown.antt =====
-- An ext pan id as the program shows it is one that --ext-pan-id takes
-- (package/ezsp-spi/src/control.c, ezsp.c).
use openwrt_ezsp_spi.Prelude.{
  ℕ, ◌/◌, ◌%◌, ◌≤◌, ◌<◌, ◌≡◌, refl, ap, ◌∙◌, false, ◌||◌, some, List, [], ◌∷◌, ◌++◌, length, arith,
  ◌==◌, IsBytes,
}
use openwrt_ezsp_spi.Text.{hex_digit, hex2, colon_line, newline}
use openwrt_ezsp_spi.Control.{parse_ext_pan_id}
use openwrt_ezsp_spi.Control.PanId.{hex_tail, hex_text, parse_ext_pan_id-hex_text}
use openwrt_ezsp_spi.Control.Serve.{first_line}

-- A character that does not end a line.
abbrev IsInner : ℕ → Type 0
IsInner ch = (ch == 0 || (ch == 10 || ch == 13)) ≡ false

hex_digit-IsInner : (d : ℕ) → IsInner (hex_digit d)
unfolding hex_digit
hex_digit-IsInner d = ground arith

first_line-inner :
    (ch : ℕ) (text : List ℕ) → IsInner ch → first_line (ch ∷ text) ≡ ch ∷ first_line text
unfolding first_line
first_line-inner ch text inner = rw inner refl

first_line-hex2 :
    (b : ℕ) (text : List ℕ)
    → b < 256
    → first_line (hex2 b ++ text) ≡ hex_digit (b / 16) ∷ hex_digit (b % 16) ∷ first_line text
unfolding hex2
first_line-hex2 b text small =
    first_line-inner (hex_digit (b / 16 % 16)) _ (hex_digit-IsInner (b / 16 % 16))
    ∙ (ap (λ t. hex_digit (b / 16 % 16) ∷ t)
          (first_line-inner (hex_digit (b % 16)) text (hex_digit-IsInner (b % 16)))
        ∙ ap (λ d. hex_digit d ∷ hex_digit (b % 16) ∷ first_line text) (omega arith))

first_line-newline : first_line newline ≡ []
unfolding first_line
first_line-newline = refl

first_line-colon_line :
    (b : ℕ) (bytes : List ℕ)
    → IsBytes (b ∷ bytes)
    → first_line (colon_line (b ∷ bytes)) ≡ hex_text (b ∷ bytes)
unfolding colon_line hex_text hex_tail
first_line-colon_line b [] small =
    first_line-hex2 b newline (small.0)
    ∙ ap (λ t. hex_digit (b / 16) ∷ hex_digit (b % 16) ∷ t) first_line-newline
first_line-colon_line b (b' ∷ bytes) small =
    first_line-hex2 b (58 ∷ colon_line (b' ∷ bytes)) (small.0)
    ∙ ap (λ t. hex_digit (b / 16) ∷ hex_digit (b % 16) ∷ t)
        (first_line-inner 58 (colon_line (b' ∷ bytes)) refl
          ∙ ap (λ t. 58 ∷ t) (first_line-colon_line b' bytes (small.1)))

-- What `status`, `info` and `scan` show as the ext pan id, without the end of its line, is taken
-- by --ext-pan-id as the same eight bytes in the same order.
pub parse_ext_pan_id-colon_line :
    (ulong_max : ℕ) (bytes : List ℕ)
    → 255 ≤ ulong_max
    → IsBytes bytes
    → length bytes ≡ 8
    → parse_ext_pan_id ulong_max (first_line (colon_line bytes)) ≡ some bytes
parse_ext_pan_id-colon_line m [] wide small eight = absurd (omega arith)
parse_ext_pan_id-colon_line m (b ∷ bytes) wide small eight =
    ap (parse_ext_pan_id m) (first_line-colon_line b bytes small)
    ∙ parse_ext_pan_id-hex_text m (b ∷ bytes) wide small eight
