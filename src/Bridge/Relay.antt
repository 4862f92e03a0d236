-- ===== src/Bridge/Relay.antt =====
-- package/ezsp-spi/src/bridge.c: EZSP frames relayed to the NCP, and its callbacks to the client.
use openwrt_ezsp_spi.Prelude.{
  ℕ, zero, suc, ◌+◌, ◌%◌, min, Bool, true, false, ◌&&◌, ◌||◌, not, Option, none, some, is_some,
  List, [], ◌∷◌, ◌++◌, length, get_or, bytes_at, ltb, leb, ◌==◌, if◌then◌else◌,
}
use openwrt_ezsp_spi.Config.{
  Cfg, Pins, spi_cmd_ezsp_frame, spi_frame_terminator, ezsp_callback, ezsp_no_callbacks,
  ash_max_frame,
}
use openwrt_ezsp_spi.Host.{M, pure, ◌>>=◌, gpio_get}
use openwrt_ezsp_spi.Ncp.{asserted}
use openwrt_ezsp_spi.Probe.{is_ezsp, do_cmd}
use openwrt_ezsp_spi.Bridge.{Bridge, ash_send_data}

unfoldable pub wrapped : List ℕ → List ℕ
wrapped frame = spi_cmd_ezsp_frame ∷ length frame % 256 ∷ frame ++ spi_frame_terminator ∷ []

abbrev pub relay_tx_size : ℕ
relay_tx_size = ash_max_frame + 8

-- The reply's frame, or `none` for -1.
unfoldable pub ezsp_relay : Cfg → Pins → List ℕ → ℕ → M (Option (List ℕ))
unfolding wrapped is_ezsp
ezsp_relay c p frame outmax =
    if length frame == 0 || ltb 255 (length frame) || ltb relay_tx_size (length frame + 3)
    then pure none
    else (do
      (cls, rx) ← do_cmd c p (wrapped frame) 260 true
      pure (if is_ezsp cls then some (bytes_at rx 2 (min (get_or rx 1 0) outmax)) else none))

-- Header length and frame-id offset.
unfoldable pub ezsp_layout : ℕ → ℕ × ℕ
ezsp_layout ver = if leb 8 ver then (5, 3) else if leb 5 ver then (5, 4) else (3, 2)

-- The `callback` command in the layout of the version.
unfoldable pub callback_frame : ℕ → ℕ → List ℕ
callback_frame ver seq =
    if leb 8 ver
    then seq ∷ 0x00 ∷ 0x01 ∷ ezsp_callback ∷ 0x00 ∷ []
    else if leb 5 ver
    then seq ∷ 0x00 ∷ 0xFF ∷ 0x00 ∷ ezsp_callback ∷ []
    else seq ∷ 0x00 ∷ ezsp_callback ∷ []

-- A reply that carries a callback; the empty list is the 0 of `ezsp_relay_callback`.
unfoldable pub callback_of : ℕ → Option (List ℕ) → List ℕ
callback_of id_off none = []
callback_of id_off (some out) =
    if leb (length out) id_off
    then []
    else if get_or out id_off 0 == ezsp_no_callbacks
    then []
    else out

unfoldable pub ezsp_relay_callback : Cfg → Pins → Bridge → ℕ → M (Bridge × List ℕ)
unfolding callback_of callback_frame ezsp_layout
ezsp_relay_callback c p b outmax = do
  out ← ezsp_relay c p (callback_frame b.ver b.cbseq) outmax
  pure (record b { cbseq = (b.cbseq + 1) % 256 }, callback_of (ezsp_layout b.ver).1 out)

-- What is done with one callback: sent, unless the queue was empty.
unfoldable pub is_empty : List ℕ → Bool
is_empty [] = true
is_empty (x ∷ xs) = false

-- The loop of `bridge_drain_callbacks`, with the rounds left.
unfoldable pub drain_from : ℕ → Cfg → Pins → Bridge → M Bridge
unfolding is_empty
drain_from zero c p b = pure b
drain_from (suc n) c p b = do
  l ← gpio_get
  if not (asserted l) then pure b else (do
    (b', frame) ← ezsp_relay_callback c p b ash_max_frame
    if is_empty frame then pure b' else (do b'' ← ash_send_data b' frame; drain_from n c p b''))

-- May callbacks be asked for at all?
unfoldable pub may_drain : Pins → Bridge → Bool
may_drain p b = is_some b.cli && b.ready && b.negotiated && is_some p.hint

unfoldable pub bridge_drain_callbacks : Cfg → Pins → Bridge → M Bridge
unfolding may_drain
bridge_drain_callbacks c p b = if may_drain p b then drain_from 32 c p b else pure b
