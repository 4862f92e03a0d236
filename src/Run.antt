-- ===== src/Run.antt =====
-- package/ezsp-spi/src/control.c: `cmd_run`, the daemon. The pins and the SPI device are open (`p`).
-- What only is printed is left out; the clock, `rand` and the control socket are in the inputs of a
-- turn. `out` is the daemon's buffer of 64 bytes.
pub mod Drain
pub mod Seed
pub mod Order
pub mod Lives
pub mod Tests
use openwrt_ezsp_spi.Prelude.{
  ℕ, zero, suc, ◌+◌, ◌*◌, ◌%◌, ◌^◌, Bool, true, false, ◌&&◌, ◌||◌, not, Option, none, some, is_some,
  List, [], ◌∷◌, ◌++◌, length, get_or, take, leb, ltb, ◌==◌, ◌!=◌, if◌then◌else◌, bytes_at,
}
use openwrt_ezsp_spi.Config.{
  Cfg, Pins, ember_success, ezsp_get_eui64, ezsp_network_init, ezsp_network_state,
  ezsp_incoming_message_handler, ezsp_message_sent_handler,
}
use openwrt_ezsp_spi.Host.{Host, ok, M, pure, ◌>>=◌, ◌>>◌, usleep, gpio_get}
use openwrt_ezsp_spi.Ncp.{asserted}
use openwrt_ezsp_spi.Bridge.Loop.{consume_edge}
use openwrt_ezsp_spi.Ezsp.{ezsp_cmd, ezsp_poll_callback, succeeded}
use openwrt_ezsp_spi.Zcl.{
  ezsp_apply_config, zcl_handle_incoming, zcl_report, count_report, report_interval,
}
use openwrt_ezsp_spi.Join.{bring_up}
use openwrt_ezsp_spi.Control.Serve.{Longs, control_accept}

-- `seed * 31u + eui[k]` for the bytes that were received, eight at most.
unfoldable pub seed_from : ℕ → List ℕ → ℕ
seed_from seed [] = seed
seed_from seed (b ∷ bytes) = seed_from ((seed * 31 + b) % 2 ^ 32) bytes

unfoldable pub seed_of : ℕ → Option (List ℕ) → ℕ
unfolding seed_from
seed_of now none = now % 2 ^ 32
seed_of now (some eui) = seed_from (now % 2 ^ 32) (take 8 eui)

-- The state is asked for only when the network could not be restored.
unfoldable pub ask_state : Cfg → Pins → Option (List ℕ) → M (Unit {0})
ask_state c p restored =
    if not (succeeded restored)
    then (do s ← ezsp_cmd c p ezsp_network_state [] 8; pure tt)
    else pure tt

-- Before the loop: the seed for `srand`, unless the NCP cannot be brought up.
unfoldable pub run_start : Cfg → Pins → ℕ → M (Option ℕ)
unfolding seed_of ask_state
run_start c p now = do
  ready ← bring_up c p
  if not ready then pure none else (do
    endpoint ← ezsp_apply_config c p
    eui ← ezsp_cmd c p ezsp_get_eui64 [] 16
    restored ← ezsp_cmd c p ezsp_network_init [] 64
    ask_state c p restored
    pure (some (seed_of now eui)))

-- When the first report is due; `rand` is what `rand()` gives.
unfoldable pub first_report : Cfg → ℕ → ℕ → ℕ
first_report c now rand = now + (if c.report_secs != 0 then rand % 30 else 0)

-- What is done with a callback, `out` being the whole buffer.
unfoldable pub handle_callback : Cfg → Pins → List ℕ → ℕ → List ℕ → M (Unit {0})
handle_callback c p location id out =
    if id == ezsp_incoming_message_handler
    then zcl_handle_incoming c p location out
    else if id == ezsp_message_sent_handler && get_or out 15 0 != ember_success
    then count_report false
    else pure tt

-- The `do` loop, with rounds of fuel: whether it ended by its test, and the buffer.
unfoldable pub drain : ℕ → Cfg → Pins → List ℕ → List ℕ → M (Bool × List ℕ)
unfolding handle_callback
drain zero c p location out = pure (false, out)
drain (suc fuel) c p location out = do
  (id, out') ← ezsp_poll_callback c p 64 out
  let more = drain fuel c p location out'
  if id == 0 then pure (true, out') else (do handle_callback c p location id out'; more)

-- Fuel for all that the NCP is going to say: a callback takes at least one byte.
unfoldable pub drain_all : Cfg → Pins → List ℕ → List ℕ → M (Bool × List ℕ)
unfolding drain
drain_all c p location out h = drain (suc (length h.miso)) c p location out h

-- The inputs of a turn: whether `poll` reports an edge on nHOST_INT, a client that `accept` takes
-- with what `read` gives of its request, the age of the last report, the clock when the report is
-- considered and behind it, and `rand()`.
pub record Moment : Type 0 where
  pub edge : Bool
  pub client : Option (List ℕ)
  pub age : Option ℕ
  pub now : ℕ
  pub later : ℕ
  pub rand : ℕ

-- Whether nHOST_INT is watched: `gpio_get` is not 0.
unfoldable pub watches_hint : Pins → M Bool
watches_hint p = if is_some p.hint then (do l ← gpio_get; pure (not (asserted l))) else pure false

-- The reply to a client, if there is one.
unfoldable pub serve_client : Longs → Cfg → Pins → Option ℕ → Option (List ℕ) → M (Option (List ℕ))
serve_client l c p age none = pure none
serve_client l c p age (some got) = do text ← control_accept l c p age got; pure (some text)

-- Whether a report is due.
unfoldable pub is_due : Cfg → ℕ → ℕ → Bool
is_due c now next_report = c.report_secs != 0 && leb next_report now

-- The report, if it is due, and when the next one is.
unfoldable pub report_if_due : Cfg → Pins → Moment → ℕ → M ℕ
unfolding is_due
report_if_due c p m next_report =
    if is_due c m.now next_report
    then (do zcl_report c p; pure (m.later + report_interval c.report_secs m.rand))
    else pure next_report

-- What the daemon has between two turns.
pub record Daemon : Type 0 where
  pub next_report : ℕ
  pub out : List ℕ

-- One turn of the loop: the daemon, and what it answered to a client. `listening` is whether the
-- control socket is open; without anything to poll it sleeps instead.
unfoldable pub run_turn :
    Longs → Cfg → Pins → List ℕ → Bool → Daemon → Moment → M (Daemon × Option (List ℕ))
unfolding watches_hint serve_client drain_all report_if_due
run_turn l c p location listening d m = do
  watching ← watches_hint p
  if listening || watching then pure tt else usleep 250000
  consume_edge (watching && m.edge)
  reply ← serve_client l c p m.age (if listening then m.client else none)
  (ended, out') ← drain_all c p location d.out
  next ← report_if_due c p m d.next_report
  pure (record { next_report = next; out = out' }, reply)

-- Any number of turns of `for (;;)`; what was answered is with the clients.
unfoldable pub run_turns : Longs → Cfg → Pins → List ℕ → Bool → Daemon → List Moment → M Daemon
unfolding run_turn
run_turns l c p location listening d [] = pure d
run_turns l c p location listening d (m ∷ ms) = do
  (d', reply) ← run_turn l c p location listening d m
  run_turns l c p location listening d' ms
