-- ===== src/Bridge/Order.antt =====
-- The bridge's invariant over its whole loop (package/ezsp-spi/src/bridge.c, `cmd_bridge`), and the
-- order of the frames that it sends.
use openwrt_ezsp_spi.Prelude.{
  ℕ, ◌-◌, ◌≤◌, ◌≡◌, refl, sym, subst, Bool, true, false, ◌&&◌, ◌||◌, not, Option, none, some,
  is_some, List, [], ◌∷◌, ◌++◌, length, length-append, take, arith, ltb, leb, ◌==◌, Bool-cases, inl,
  inr, if◌then◌else◌,
}
use openwrt_ezsp_spi.Config.{Cfg, Pins, ash_flag, ash_esc, ash_xon, ash_xoff, ash_sub, ash_cancel}
use openwrt_ezsp_spi.Host.{Host, ok, died, M, pure, gpio_get}
use openwrt_ezsp_spi.Host.Run.{
  Ensures, returns, dies, Ensures->>=, Ensures-if, Ensures-else, Ensures-after, Ensures-ok,
}
use openwrt_ezsp_spi.Host.Silent.{
  IsQuiet-refl, Silent, Silent->>=, Silent-if, pure-Silent, gpio_get-Silent,
}
use openwrt_ezsp_spi.Ncp.{asserted}
use openwrt_ezsp_spi.Bridge.{Bridge, initial}
use openwrt_ezsp_spi.Bridge.Relay.{bridge_drain_callbacks, drain_from, may_drain}
use openwrt_ezsp_spi.Bridge.Handle.{
  bridge_handle_frame, rx_size, crc_matches, feed_flag, store_byte, feed_byte, bridge_feed,
  bridge_drop_client,
}
use openwrt_ezsp_spi.Bridge.Loop.{
  Input, received, closed, retry, broken, Poll, Wakeup, interrupted, poll_failed, events,
  accept_client, consume_edge, read_client, serve, watches, turn, run,
}
use openwrt_ezsp_spi.Bridge.Valid.{
  IsValid, rx-IsValid, fresh_client-IsValid, none-IsValid, initial-IsValid,
}
use openwrt_ezsp_spi.Bridge.Session.{IsOrdered, drain-IsOpen}
use openwrt_ezsp_spi.Bridge.Keeps.{
  IsSession, Keeps, opened-IsSession, ready-IsOpen, kept-IsSession, handle_frame-Keeps,
}

shut : (p : Pins) (b : Bridge) → b.ready ≡ false → may_drain p b ≡ false
unfolding may_drain
shut p b u = ground arith

drain-Keeps : (c : Cfg) (p : Pins) (b : Bridge) → Keeps (bridge_drain_callbacks c p b) b
unfolding bridge_drain_callbacks
drain-Keeps c p b h s = elim (Bool-cases b.ready) [
  | inl r ↦ Ensures-after _ (drain-IsOpen c p b h (ready-IsOpen r s)) (λ _ _ o. opened-IsSession o)
  | inr u ↦ Ensures-else (may_drain p b) (drain_from 32 c p b) (pure b) h (shut p b u) (returns s)
]

rx-Keeps :
    (b : Bridge) (rx : List ℕ) (esc : Bool) {h : Host}
    → length rx ≤ rx_size
    → IsSession b h
    → IsSession (record b { rx = rx; esc = esc }) h
rx-Keeps b rx esc le s = record {
  valid = rx-IsValid b rx esc s.valid le;
  ordered = s.ordered;
  open_log = s.open_log;
  nothing_kept = s.nothing_kept;
}

feed_flag-Keeps : (c : Cfg) (p : Pins) (b : Bridge) → Keeps (feed_flag c p b) b
unfolding feed_flag
feed_flag-Keeps c p b h s =
    Ensures-if (leb 3 (length b.rx) && crc_matches b.rx) _ _ h
      (Ensures->>= (bridge_handle_frame c p b (take (length b.rx - 2) b.rx)) _ h
        (handle_frame-Keeps c p b (take (length b.rx - 2) b.rx) h s)
        (λ b' h' s'. returns (rx-Keeps b' [] false (omega arith) s')))
      (returns (rx-Keeps b [] false (omega arith) s))

store_byte-Keeps : (b : Bridge) (x : ℕ) {h : Host} → IsSession b h → IsSession (store_byte b x) h
unfolding store_byte
store_byte-Keeps b x {h} s = elim (Bool-cases (ltb (length b.rx) rx_size)) [
  | inl room ↦
      rw room (rx-Keeps b (b.rx ++ x ∷ []) false (ground (arith, length-append b.rx (x ∷ []))) s)
  | inr full ↦ rw full (rx-Keeps b [] false (omega arith) s)
]

feed_byte-Keeps : (c : Cfg) (p : Pins) (b : Bridge) (x : ℕ) → Keeps (feed_byte c p b x) b
unfolding feed_byte
feed_byte-Keeps c p b x h s = Ensures-if (x == ash_xon || x == ash_xoff) _ _ h (returns s) (
    Ensures-if (x == ash_cancel) _ _ h (returns (rx-Keeps b [] false (omega arith) s)) (
      Ensures-if (x == ash_sub) _ _ h (returns (rx-Keeps b [] true (omega arith) s)) (
        Ensures-if (x == ash_esc) _ _ h (returns (rx-Keeps b b.rx true s.valid.rx_fits s)) (
          Ensures-if (x == ash_flag) _ _ h (feed_flag-Keeps c p b h s)
            (returns (store_byte-Keeps b _ s))))))

feed-Keeps : (c : Cfg) (p : Pins) (b : Bridge) (xs : List ℕ) → Keeps (bridge_feed c p b xs) b
unfolding bridge_feed
feed-Keeps c p b [] h s = returns s
feed-Keeps c p b (x ∷ xs) h s =
    Ensures->>= (feed_byte c p b x) _ h (feed_byte-Keeps c p b x h s)
      (λ b' h' s'. feed-Keeps c p b' xs h' s')

drop_client-Keeps : (b : Bridge) {h : Host} → IsSession b h → IsSession (bridge_drop_client b) h
unfolding bridge_drop_client
drop_client-Keeps b s = elim (Bool-cases (is_some b.cli)) [
  | inl con ↦ rw con (
      let v = rx-Keeps b [] false (omega arith) s in
      record {
        valid = none-IsValid v.valid;
        ordered = s.ordered;
        open_log = λ _. record { ordered = s.ordered; open_now = λ e. absurd (ground arith) };
        nothing_kept = s.nothing_kept;
      })
  | inr gone ↦ rw gone s
]

accept-Keeps : (b : Bridge) (o : Option ℕ) → Keeps (accept_client b o) b
unfolding accept_client
accept-Keeps b none h s = returns s
accept-Keeps b (some fd) h s = returns (record {
  valid = fresh_client-IsValid (bridge_drop_client b) fd (drop_client-Keeps b s).valid;
  ordered = s.ordered;
  open_log = λ e. absurd (ground arith);
  nothing_kept = λ _. refl;
})

read_client-Keeps :
    (c : Cfg) (p : Pins) (b : Bridge) (i : Option Input) → Keeps (read_client c p b i) b
unfolding read_client
read_client-Keeps c p b none h s = returns s
read_client-Keeps c p b (some (received xs)) h s = feed-Keeps c p b xs h s
read_client-Keeps c p b (some closed) h s = returns (drop_client-Keeps b s)
read_client-Keeps c p b (some retry) h s = returns s
read_client-Keeps c p b (some broken) h s = returns (drop_client-Keeps b s)

consume_edge-Silent : (seen : Bool) → Silent (consume_edge seen)
unfolding consume_edge
consume_edge-Silent true h = returns (record { actions = []; grown = refl; same_memory = refl })
consume_edge-Silent false h = returns (IsQuiet-refl h)

serve-Keeps :
    (c : Cfg) (p : Pins) (w had : Bool) (b : Bridge) (ev : Poll) → Keeps (serve c p w had b ev) b
unfolding serve
serve-Keeps c p w had b ev h s =
    Ensures->>= (accept_client b ev.connect) _ h (accept-Keeps b ev.connect h s) (λ b' h₁ s₁.
      Ensures->>= (consume_edge (w && ev.edge)) _ h₁ (consume_edge-Silent (w && ev.edge) h₁)
        (λ _ h₂ e.
          Ensures-if (had && ev.hangup) _ _ h₂
            (returns (drop_client-Keeps b' (kept-IsSession s₁ e)))
            (Ensures->>= (read_client c p b' (if had then ev.input else none)) _ h₂
              (read_client-Keeps c p b' (if had then ev.input else none) h₂ (kept-IsSession s₁ e))
              (λ b'' h₃ s₃. drain-Keeps c p b'' h₃ s₃))))

watches-Silent : (p : Pins) (b : Bridge) → Silent (watches p b)
unfolding watches
watches-Silent p b =
    Silent-if (is_some b.cli && is_some p.hint) _ _
      (Silent->>= gpio_get _ gpio_get-Silent (λ l. pure-Silent (not (asserted l))))
      (pure-Silent false)

turn-Keeps : (c : Cfg) (p : Pins) (b : Bridge) (w : Wakeup) → Keeps (turn c p b w) b
unfolding turn
turn-Keeps c p b w h s =
    Ensures->>= (watches p b) _ h (watches-Silent p b h)
      (λ seen h' e. by_wakeup w seen h' (kept-IsSession s e))
  where
    by_wakeup :
        (w : Wakeup) (seen : Bool) (h' : Host)
        → IsSession b h'
        → Ensures
            (λ b' h''. IsSession b' h'')
            ((elim w as (λ _. M Bridge) [
              | interrupted ↦ pure b
              | poll_failed ↦ λ h. died
              | events ev ↦ serve c p seen (is_some b.cli) b ev
            ])
              h')
    by_wakeup interrupted seen h' s' = returns s'
    by_wakeup poll_failed seen h' s' = dies
    by_wakeup (events ev) seen h' s' = serve-Keeps c p seen (is_some b.cli) b ev h' s'

run-Keeps : (c : Cfg) (p : Pins) (b : Bridge) (ws : List Wakeup) → Keeps (run c p b ws) b
unfolding run
run-Keeps c p b [] h s = returns s
run-Keeps c p b (w ∷ ws) h s =
    Ensures->>= (turn c p b w) _ h (turn-Keeps c p b w h s) (λ b' h' s'. run-Keeps c p b' ws h' s')

initial-IsSession : (h : Host) → h.net ≡ [] → IsSession initial h
initial-IsSession h e = record {
  valid = initial-IsValid;
  ordered = subst IsOrdered (sym e) tt;
  open_log = λ r. absurd (ground arith);
  nothing_kept = λ _. refl;
}

-- From the start of `cmd_bridge`, whatever the clients send and whatever the NCP answers, after any
-- number of turns of the loop that the process survives: every frame that was sent to a client is
-- an RSTACK or has an RSTACK to the same client before it, and the bridge's state is valid.
pub run-IsOrdered :
    (c : Cfg) (p : Pins) (ws : List Wakeup) (h h' : Host) (b : Bridge)
    → h.net ≡ []
    → run c p initial ws h ≡ ok b h'
    → IsOrdered h'.net × IsValid b
run-IsOrdered c p ws h h' b e ran =
    let s = Ensures-ok (run-Keeps c p initial ws h (initial-IsSession h e)) ran in
    (s.ordered, s.valid)
