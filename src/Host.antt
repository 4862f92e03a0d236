-- ===== src/Host.antt =====
-- package/ezsp-spi/src/gpio.c, and `spi_raw`, `die`, `msleep` and `write_all` of spi.c, config.c
-- and bridge.c: the process with its globals, and what it sees of the kernel and the NCP.
-- The outside world is a list of answers for each source, which every theorem takes as it comes:
-- the bytes that the NCP shifts out, the levels and edges of nHOST_INT, the results of `write`
-- and the first ioctl that fails. What the process does to it is logged, newest first.
pub mod Run
pub mod Silent
pub mod Total
pub mod Discipline
pub mod Lives
pub mod Eats
use openwrt_ezsp_spi.Prelude.{
  ℕ, zero, suc, ◌-◌, min, Bool, true, false, Option, none, some, List, [], ◌∷◌, ◌++◌, length, take,
  drop,
}
use openwrt_ezsp_spi.Config.{spi_idle}

-- `gpio_get`: 0, 1 or -1.
pub data Level : Type 0 where
  low high unreadable : Level

-- One round of `poll` and `read` on nHOST_INT: an edge, a poll that timed out, one that a signal
-- interrupted, or a short read.
pub data Edge : Type 0 where
  falling rising quiet interrupted short_read : Edge

-- One call of `write`: it takes one byte or more (`wrote n` is `n + 1` of them, and never more
-- than it is given), is to be tried again (EINTR, EAGAIN), or fails.
pub data WriteResult : Type 0 where
  wrote : ℕ → WriteResult
  again failed : WriteResult

-- On the pins and the bus.
pub data Action : Type 0 where
  drive : ℕ → Bool → Action
  clock : List ℕ → Bool → Action
  pause : ℕ → Action

-- On the client's socket: a new client, and an ASH frame with the bytes of it that `write` took.
pub data NetAction : Type 0 where
  accepted : ℕ → NetAction
  sent : List ℕ → List ℕ → NetAction

pub record Host : Type 0 where
  -- `cfg.ezsp_version`, and the static counters of `ezsp_xfer` and `zcl_send`
  pub ezsp_version : ℕ
  pub seq : ℕ
  pub tag : ℕ
  pub report_count : ℕ
  pub report_failed : ℕ
  pub miso : List ℕ
  pub levels : List Level
  pub edges : List Edge
  pub writes : List WriteResult
  -- how many more ioctls succeed before one fails, if one ever does
  pub dies : Option ℕ
  pub wire : List Action
  pub net : List NetAction

-- `died` is the end of the process by `die`.
pub data Outcome {ℓ} (A : Type ℓ) : Type ℓ where
  ok : A → Host → Outcome A
  died : Outcome A

abbrev pub M {ℓ} : Type ℓ → Type ℓ
M A = Host → Outcome A

abbrev pub pure {ℓ} : {A : Type ℓ} → A → M A
pure a h = ok a h

infixl 5 ◌>>=◌ ◌>>◌
abbrev pub ◌>>=◌ {ℓ κ} : {A : Type ℓ} {B : Type κ} → M A → (A → M B) → M B
◌>>=◌ m f h = elim (m h) [ ok a h' ↦ f a h' | died ↦ died ]

abbrev pub ◌>>◌ {ℓ} : {B : Type ℓ} → M (Unit {0}) → M B → M B
◌>>◌ m k h = elim (m h) [ ok a h' ↦ k h' | died ↦ died ]

-- An ioctl whose failure is fatal.
unfoldable pub ioctl : M (Unit {0})
ioctl h = elim h.dies [
  | none ↦ ok tt h
  | some zero ↦ died
  | some (suc k) ↦ ok tt (record h { dies = some k })
]

unfoldable pub gpio_set : ℕ → Bool → M (Unit {0})
gpio_set line v = do ioctl; λ h. ok tt (record h { wire = drive line v ∷ h.wire })

-- A line that nobody drives any more reads high.
next_level : List Level → Level
next_level [] = high
next_level (l ∷ ls) = l

rest_of {ℓ} : {A : Type ℓ} → List A → List A
rest_of [] = []
rest_of (x ∷ xs) = xs

unfoldable pub gpio_get : M Level
unfolding next_level rest_of
gpio_get h = ok (next_level h.levels) (record h { levels = rest_of h.levels })

-- `gpio_wait_falling`: whether the line fell before the time was up.
unfoldable pub wait_falling : List Edge → Bool × List Edge
wait_falling [] = (false, [])
wait_falling (falling ∷ es) = (true, es)
wait_falling (rising ∷ es) = wait_falling es
wait_falling (interrupted ∷ es) = wait_falling es
wait_falling (quiet ∷ es) = (false, es)
wait_falling (short_read ∷ es) = (false, es)

unfoldable pub gpio_wait_falling : M Bool
gpio_wait_falling h = let (fell, es) = wait_falling h.edges in ok fell (record h { edges = es })

unfoldable pub drain_events : List Edge → List Edge
drain_events [] = []
drain_events (falling ∷ es) = drain_events es
drain_events (rising ∷ es) = drain_events es
drain_events (interrupted ∷ es) = es
drain_events (quiet ∷ es) = es
drain_events (short_read ∷ es) = es

unfoldable pub gpio_drain_events : M (Unit {0})
gpio_drain_events h = ok tt (record h { edges = drain_events h.edges })

abbrev pub usleep : ℕ → M (Unit {0})
usleep us h = ok tt (record h { wire = pause us ∷ h.wire })

-- The bytes of the next `n` clocks; an NCP that has nothing to say leaves the bus idle.
abbrev pub shifted : ℕ → List ℕ → List ℕ
shifted zero xs = []
shifted (suc n) [] = spi_idle ∷ shifted n []
shifted (suc n) (x ∷ xs) = x ∷ shifted n xs

unfoldable pub spi_raw : List ℕ → Bool → M (List ℕ)
unfolding ioctl
spi_raw tx keep_cs = do
  ioctl
  λ h.
      ok (shifted (length tx) h.miso)
        (record h { miso = drop (length tx) h.miso; wire = clock tx keep_cs ∷ h.wire })

-- `write_all` on `len` bytes from `off` on: the results that are left, how many bytes went out,
-- and whether all did. Each round of the loop takes one result.
unfoldable pub write_from : List WriteResult → ℕ → List ℕ → List WriteResult × List ℕ × Bool
write_from rs zero buf = (rs, [], true)
write_from [] (suc left) buf = ([], take (suc left) buf, true)
write_from (wrote n ∷ rs) (suc left) buf =
    let k = min (suc n) (suc left) in
    let (rs', out, all) = write_from rs (suc left - k) (drop k buf) in (rs', take k buf ++ out, all)
write_from (again ∷ rs) (suc left) buf = write_from rs (suc left) buf
write_from (failed ∷ rs) (suc left) buf = (rs, [], false)

unfoldable pub write_all : List ℕ → M (Bool × List ℕ)
write_all buf h =
    let (rs, out, all) = write_from h.writes (length buf) buf in
    ok (all, out) (record h { writes = rs })
