-- ===== src/Bridge/Loop.antt =====
-- package/ezsp-spi/src/bridge.c: one turn of the loop of `cmd_bridge`.
use openwrt_ezsp_spi.Prelude.{
  ℕ, ◌&&◌, Bool, false, not, Option, none, some, is_some, List, [], ◌∷◌, if◌then◌else◌,
}
use openwrt_ezsp_spi.Config.{Cfg, Pins}
use openwrt_ezsp_spi.Host.{ok, died, M, pure, ◌>>=◌, ◌>>◌, gpio_get, accepted, Edge}
use openwrt_ezsp_spi.Ncp.{asserted}
use openwrt_ezsp_spi.Bridge.{Bridge, no_frames}
use openwrt_ezsp_spi.Bridge.Relay.{bridge_drain_callbacks}
use openwrt_ezsp_spi.Bridge.Handle.{bridge_feed, bridge_drop_client}

-- What `read` on the client's socket gives: bytes, 0, EINTR or EAGAIN, another error.
pub data Input : Type 0 where
  received : List ℕ → Input
  closed retry broken : Input

-- What `poll` reports: a client that `accept` took, an edge on nHOST_INT, POLLERR or POLLHUP on the
-- client's entry, and what a `read` after POLLIN on that entry gives.
pub record Poll : Type 0 where
  pub connect : Option ℕ
  pub edge : Bool
  pub hangup : Bool
  pub input : Option Input

pub data Wakeup : Type 0 where
  interrupted poll_failed : Wakeup
  events : Poll → Wakeup

abbrev pub fresh_client : Bridge → ℕ → Bridge
fresh_client b fd = record b {
  cli = some fd;
  ready = false;
  negotiated = false;
  rx = [];
  esc = false;
  frm = 0;
  ack = 0;
  ver = 4;
  unacked = no_frames;
}

unfoldable pub accept_client : Bridge → Option ℕ → M Bridge
accept_client b none h = ok b h
accept_client b (some fd) h =
    ok (fresh_client (bridge_drop_client b) fd) (record h { net = accepted fd ∷ h.net })

unfoldable pub skip_edge : List Edge → List Edge
skip_edge [] = []
skip_edge (e ∷ es) = es

unfoldable pub consume_edge : Bool → M (Unit {0})
unfolding skip_edge
consume_edge seen h = if seen then ok tt (record h { edges = skip_edge h.edges }) else ok tt h

unfoldable pub read_client : Cfg → Pins → Bridge → Option Input → M Bridge
read_client c p b none = pure b
read_client c p b (some (received xs)) = bridge_feed c p b xs
read_client c p b (some closed) = pure (bridge_drop_client b)
read_client c p b (some retry) = pure b
read_client c p b (some broken) = pure (bridge_drop_client b)

-- `watching` and `had_client` are `iv_hint >= 0` and `iv_cli >= 0`: they were set before `accept`.
unfoldable pub serve : Cfg → Pins → Bool → Bool → Bridge → Poll → M Bridge
unfolding accept_client consume_edge read_client
serve c p watching had_client b ev = do
  b' ← accept_client b ev.connect
  consume_edge (watching && ev.edge)
  if had_client && ev.hangup then pure (bridge_drop_client b') else (do
    b'' ← read_client c p b' (if had_client then ev.input else none)
    bridge_drain_callbacks c p b'')

-- Whether nHOST_INT is watched: only with a client, and only while it is released.
unfoldable pub watches : Pins → Bridge → M Bool
watches p b =
    if is_some b.cli && is_some p.hint
    then (do l ← gpio_get; pure (not (asserted l)))
    else pure false

unfoldable pub turn : Cfg → Pins → Bridge → Wakeup → M Bridge
unfolding watches serve
turn c p b wakeup = do
  watching ← watches p b
  elim wakeup [
    | interrupted ↦ pure b
    | poll_failed ↦ λ h. died
    | events ev ↦ serve c p watching (is_some b.cli) b ev
  ]

unfoldable pub run : Cfg → Pins → Bridge → List Wakeup → M Bridge
run c p b [] = pure b
run c p b (w ∷ ws) = do b' ← turn c p b w; run c p b' ws
