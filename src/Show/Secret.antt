-- ===== src/Show/Secret.antt =====
-- The bytes of a key are not printed (package/ezsp-spi/src/ezsp.c, `cmd_keys`).
use openwrt_ezsp_spi.Prelude.{ℕ, ◌≤◌, ◌≡◌, List, ◌++◌, get_or}

-- Two replies that agree on all bytes but the sixteen from the fifth on.
abbrev AgreesBut : List ℕ → List ℕ → Type 0
AgreesBut a b =
    ((get_or a 0 0 ≡ get_or b 0 0)
      × (get_or a 1 0 ≡ get_or b 1 0)
      × (get_or a 2 0 ≡ get_or b 2 0)
      × (get_or a 3 0 ≡ get_or b 3 0))
    × ((i : ℕ) → 20 ≤ i → get_or a i 0 ≡ get_or b i 0)

-- A reply to getKey: four bytes, the key, and what follows it.
abbrev pub with_key : List ℕ → List ℕ → List ℕ → List ℕ
with_key start key rest = start ++ (key ++ rest)
