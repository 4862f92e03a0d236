-- ===== src/Show/Settings.antt =====
-- package/ezsp-spi/src/ezsp.c: `cmd_policy`, `cmd_config`.
use openwrt_ezsp_spi.Prelude.{ℕ, not, List, [], ◌∷◌, ◌++◌, get_or, if◌then◌else◌}
use openwrt_ezsp_spi.Config.{Cfg, Pins, ezsp_get_policy, ezsp_get_configuration_value}
use openwrt_ezsp_spi.Host.{M, pure, ◌>>=◌}
use openwrt_ezsp_spi.Text.{codes, unsigned, hex2, newline, padded, printed}
use openwrt_ezsp_spi.Join.{bring_up}
use openwrt_ezsp_spi.Control.Status.{word}
use openwrt_ezsp_spi.Control.Commands.{Result}
use openwrt_ezsp_spi.Show.Names.{ezsp_config_name, ezsp_policy_name, ezsp_decision_hint}
use openwrt_ezsp_spi.Show.Tables.{each_entry, entry_line}

-- The two lines above a table.
abbrev pub heading : ℕ → List ℕ → List ℕ → List ℕ → List ℕ
heading width what value rule = printed (
    newline
    ∷ codes "  "
    ∷ padded 5 (codes "id")
    ∷ codes " "
    ∷ padded width what
    ∷ codes " "
    ∷ value
    ∷ newline
    ∷ codes "  ----- "
    ∷ rule
    ∷ newline
    ∷ [])

unfoldable pub policy_line : ℕ → List ℕ → List ℕ
unfolding padded printed ezsp_policy_name ezsp_decision_hint
policy_line id out = printed (
    codes "  0x"
    ∷ hex2 id
    ∷ codes "  "
    ∷ padded 30 (ezsp_policy_name id)
    ∷ codes " 0x"
    ∷ hex2 (get_or out 1 0)
    ∷ ezsp_decision_hint id (get_or out 1 0)
    ∷ newline
    ∷ [])

unfoldable pub cmd_policy : Cfg → Pins → M Result
unfolding each_entry entry_line policy_line printed padded
cmd_policy c p = do
  ready ← bring_up c p
  if not ready then pure (1, codes "ezsp-spi policy" ++ newline) else (do
    rows ← each_entry 9 c p ezsp_get_policy 8 (entry_line 2 policy_line) 0
    pure (
      0,
      printed (
          codes "ezsp-spi policy"
          ∷ newline
          ∷ heading 30 (codes "policy") (codes "decision")
              (padded 30 (codes "------") ++ codes " --------")
          ∷ rows
          ∷ []),
    ))

unfoldable pub config_line : ℕ → List ℕ → List ℕ
unfolding padded printed ezsp_config_name
config_line id out = printed (
    codes "  0x"
    ∷ hex2 id
    ∷ codes "  "
    ∷ padded 34 (ezsp_config_name id)
    ∷ codes " "
    ∷ unsigned (word out 1)
    ∷ newline
    ∷ [])

unfoldable pub cmd_config : Cfg → Pins → M Result
unfolding each_entry entry_line config_line printed padded
cmd_config c p = do
  ready ← bring_up c p
  if not ready then pure (1, codes "ezsp-spi config" ++ newline) else (do
    rows ← each_entry 0x40 c p ezsp_get_configuration_value 8 (entry_line 3 config_line) 1
    pure (
      0,
      printed (
          codes "ezsp-spi config"
          ∷ newline
          ∷ heading 34 (codes "name") (codes "value") (padded 34 (codes "----") ++ codes " -----")
          ∷ rows
          ∷ []),
    ))
