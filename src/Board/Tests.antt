-- ===== src/Board/Tests.antt =====
-- The lines of concrete boards and settings.
use openwrt_ezsp_spi.Prelude.{ℕ, ◌≡◌, refl, true, false, Option, some, List, [], ◌∷◌, ◌++◌, arith}
use openwrt_ezsp_spi.Board.{
  Settings, follow, Kernel, Requested, whw03, velop_v1, board_detect, first_match, contains,
  starts_with, pins_open,
}
use openwrt_ezsp_spi.Board.Lines.{Avoids, pins_open-Avoids, pins_open_forbidden}

-- "linksys,whw03v1" ends in the name of the table's second row.
abbrev board_name : Option (List ℕ)
board_name =
    some (0x6C ∷ 0x69 ∷ 0x6E ∷ 0x6B ∷ 0x73 ∷ 0x79 ∷ 0x73 ∷ 0x2C ∷ whw03 ++ 0x76 ∷ 0x31 ∷ [])

abbrev granting : Kernel
granting = record { output = λ line. some line; edges = λ line. some line }

abbrev defaults_on_v1 : Settings
defaults_on_v1 = record {
  reset_line = 49;
  wake_line = 31;
  int_line = 50;
  nssel_int_line = 29;
  cs_line = 45;
  reset_set = false;
  wake_set = false;
  int_set = false;
  nssel_int_set = false;
  cs_set = false;
  mode = follow;
}

pins_open-Avoids_example : Avoids 29 (pins_open granting defaults_on_v1 board_name).1
unfolding board_detect first_match contains starts_with
pins_open-Avoids_example =
    pins_open-Avoids granting defaults_on_v1 board_name velop_v1 refl refl refl refl
      (λ e. absurd (omega arith))

abbrev wake_on_29 : Settings
wake_on_29 = record defaults_on_v1 { wake_line = 29; wake_set = true }

pins_open_forbidden_example :
    (before after : Requested) × ((pins_open granting wake_on_29 board_name).1
      ≡ before ++ (29, true) ∷ after)
unfolding board_detect first_match contains starts_with
pins_open_forbidden_example =
    pins_open_forbidden granting wake_on_29 board_name refl refl refl refl (λ line. (line, refl))
