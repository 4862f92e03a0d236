-- ===== src/Show/Tests.antt =====
-- Replies to getKey that differ in the key, and an NCP that is silent.
use openwrt_ezsp_spi.Prelude.{ℕ, List, [], ◌∷◌, replicate}
use openwrt_ezsp_spi.Show.Secret.{with_key}

-- A reply for the trust centre link key, with all 37 bytes.
abbrev reply : List ℕ → List ℕ
reply key = with_key (0x00 ∷ 0x14 ∷ 0x00 ∷ 0x01 ∷ []) key (replicate 17 7)
