-- ===== src/Spi.antt =====
-- package/ezsp-spi/src/spi.c: one EZSP-SPI transaction, framed by chip select.
-- `rx` is returned as the `n` bytes received; the rest of the caller's buffer is zero.
pub mod Signals
pub mod Steps
pub mod Framing
pub mod Bounds
pub mod Stuck
pub mod Tests
use openwrt_ezsp_spi.Prelude.{
  ℕ, zero, suc, ◌+◌, ◌-◌, ◌%◌, ◌^◌, ◌<◌, min, Bool, true, false, ◌&&◌, Option, none, some, List, [],
  ◌∷◌, ◌++◌, length, replicate, get_or, ltb, leb, ◌==◌, ◌!=◌, if◌then◌else◌, is_some,
}
use openwrt_ezsp_spi.Config.{Cfg, Pins, spi_idle, spi_cmd_ezsp_frame, spi_err_unsupported}
use openwrt_ezsp_spi.Host.{M, pure, ◌>>=◌, ◌>>◌, gpio_set, spi_raw}

-- A pin that moves only where there is one and the flag says so.
drive_if : Bool → Option ℕ → Bool → M (Unit {0})
drive_if flag none v = pure tt
drive_if flag (some line) v = if flag then gpio_set line v else pure tt

unfoldable pub cs_assert : Pins → M (Unit {0})
unfolding drive_if
cs_assert p = do drive_if true p.cs false; drive_if p.follows p.nssel_int false

unfoldable pub cs_release : Pins → M (Unit {0})
unfolding drive_if
cs_release p = do drive_if true p.cs true; drive_if p.follows p.nssel_int true

-- One idle byte out, chip select kept; the byte that came in.
unfoldable pub spi_byte : M ℕ
spi_byte = do r ← spi_raw (spi_idle ∷ []) true; pure (get_or r 0 spi_idle)

-- The loop over `cfg.wait_bytes`, with the rounds left.
unfoldable pub wait_states : ℕ → M ℕ
wait_states zero = pure spi_idle
wait_states (suc k) = do
  b ← spi_byte
  let more = wait_states k
  if b == spi_idle then more else pure b

-- `size_t` subtraction.
abbrev pub sub_size : ℕ → ℕ → ℕ
sub_size a b = (a + 2 ^ 64 - b) % 2 ^ 64

abbrev pub pad_size : ℕ
pad_size = 260

frame_head : ℕ → M (List ℕ × ℕ)
frame_head b = do len ← spi_byte; pure (b ∷ len ∷ [], len + 1)

-- The first bytes of the reply, and how many more its type promises.
unfoldable pub response_head : ℕ → ℕ → M (List ℕ × ℕ)
unfolding frame_head
response_head rxlen b =
    if b == spi_cmd_ezsp_frame
    then (if ltb 1 rxlen then frame_head b else pure (b ∷ [], 1))
    else if leb b spi_err_unsupported
    then pure (b ∷ [], 2)
    else pure (b ∷ [], 1)

unfoldable pub clamp_remain : ℕ → ℕ → ℕ → ℕ
clamp_remain rxlen n remain = min (min remain (sub_size rxlen n)) pad_size

-- The final transfer, of exactly the bytes that remain. Without a chip select of its own it lets
-- the kernel release the line behind it.
unfoldable pub finish : Pins → List ℕ → ℕ → M (List ℕ)
finish p rx remain =
    if remain != 0
    then (do xs ← spi_raw (replicate remain spi_idle) (is_some p.cs); pure (rx ++ xs))
    else if is_some p.cs
    then pure rx
    else (do b ← spi_raw (spi_idle ∷ []) false; pure rx)

unfoldable pub collect : Pins → ℕ → ℕ → M (List ℕ)
unfolding finish clamp_remain
collect p rxlen b = do
  head ← response_head rxlen b
  rx ← finish p head.0 (clamp_remain rxlen (length head.0) head.1)
  cs_release p
  pure rx

unfoldable pub no_response : Pins → M (List ℕ)
no_response p =
    if is_some p.cs
    then (do cs_release p; pure [])
    else (do b ← spi_raw (spi_idle ∷ []) false; pure [])

unfoldable pub send_command : List ℕ → M (Unit {0})
send_command tx = if length tx != 0 then (do r ← spi_raw tx true; pure tt) else pure tt

unfoldable pub spi_txn_framed : Cfg → Pins → List ℕ → ℕ → M (List ℕ)
spi_txn_framed c p tx rxlen = do
  cs_assert p
  send_command tx
  b ← wait_states c.wait_bytes
  if b == spi_idle then no_response p else collect p rxlen b

-- The index of the first byte that is not idle; `none` is -1.
unfoldable pub spi_first_response : List ℕ → Option ℕ
spi_first_response [] = none
spi_first_response (x ∷ xs) =
    if x != spi_idle
    then some 0
    else (elim (spi_first_response xs) [ none ↦ none | some i ↦ some (suc i) ])
