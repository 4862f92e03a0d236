-- ===== src/Probe/Retry.antt =====
-- `do_cmd` for an NCP that answers in form: the first command after a reset is sent again.
use openwrt_ezsp_spi.Prelude.{
  ℕ, ◌^◌, ◌<◌, ◌≤◌, ◌≡◌, refl, Bool, true, false, none, List, [], ◌∷◌, ◌++◌, length, replicate,
  ◌&&◌, arith,
}
use openwrt_ezsp_spi.Config.{Cfg, Pins, spi_idle, spi_frame_terminator}
use openwrt_ezsp_spi.Host.{Host, ok, pure, usleep}
use openwrt_ezsp_spi.Host.Run.{Reads, Reads-then, pure-Reads}
use openwrt_ezsp_spi.Ncp.{ncp_wake}
use openwrt_ezsp_spi.Ncp.Run.{Calm, Calm->>=, usleep-Calm, ncp_wake-Calm, if-Calm, pure-Calm}
use openwrt_ezsp_spi.Spi.Framing.{IsReply, error, txn-IsReply}
use openwrt_ezsp_spi.Spi.{spi_txn_framed}
use openwrt_ezsp_spi.Probe.{classify, is_reset, prepare, attempt, do_cmd}

-- What the NCP shifts out in one transaction: any bytes while the command goes out, then `k` idle
-- ones, then the reply.
abbrev pub turn : List ℕ → ℕ → List ℕ → List ℕ → List ℕ
turn junk k reply rest = junk ++ (replicate k spi_idle ++ (reply ++ rest))

abbrev pub reset_notice : ℕ → List ℕ
reset_notice reason = 0x00 ∷ reason ∷ spi_frame_terminator ∷ []

prepare-Calm : (c : Cfg) (p : Pins) → Calm (prepare c p)
unfolding prepare
prepare-Calm c p =
    Calm->>= (usleep c.gap_us) _ (usleep-Calm c.gap_us)
      (λ _. if-Calm c.wake_handshake (ncp_wake p) (pure tt) (ncp_wake-Calm p) (pure-Calm tt))

module _ (c : Cfg) (p : Pins) (tx : List ℕ) (rxlen : ℕ) (big : 258 ≤ rxlen)
    (small : rxlen < 2 ^ 64) where
  attempt-Reads :
      (junk : List ℕ) (k : ℕ) {r : List ℕ} (rest : List ℕ) (h : Host)
      → IsReply r
      → length junk ≡ length tx
      → k < c.wait_bytes
      → h.miso ≡ turn junk k r rest
      → h.dies ≡ none
      → Reads (attempt c p tx rxlen h) r rest
  unfolding attempt
  attempt-Reads junk k {r} rest h ir n lt m d =
      let ready = prepare-Calm c p h _ m d in
      let done =
        txn-IsReply c p tx junk k rest rxlen ready.1.after ir n lt big small ready.1.left
          ready.1.alive in
      Reads-then (prepare c p) (λ _. spi_txn_framed c p tx rxlen) h ready.1
        (record { after = done.0; result = done.1; left = done.2; alive = done.3 })

  pub answer_once :
      (retry : Bool) (junk : List ℕ) (k : ℕ) {r : List ℕ} (rest : List ℕ) (h : Host)
      → IsReply r
      → (is_reset (classify r).0 && retry) ≡ false
      → length junk ≡ length tx
      → k < c.wait_bytes
      → h.miso ≡ turn junk k r rest
      → h.dies ≡ none
      → Reads (do_cmd c p tx rxlen retry h) ((classify r).0, r) rest
  unfolding do_cmd
  answer_once retry junk k {r} rest h ir stays n lt m d =
      let run = attempt-Reads junk k rest h ir n lt m d in
      Reads-then (attempt c p tx rxlen) _ h run
        (rw stays (pure-Reads ((classify r).0, r) run.after run.left run.alive))

  answer_twice :
      (junk junk' : List ℕ) (k k' reason : ℕ) {r : List ℕ} (rest : List ℕ) (h : Host)
      → IsReply r
      → length junk ≡ length tx
      → length junk' ≡ length tx
      → k < c.wait_bytes
      → k' < c.wait_bytes
      → h.miso ≡ turn junk k (reset_notice reason) (turn junk' k' r rest)
      → h.dies ≡ none
      → Reads (do_cmd c p tx rxlen true h) ((classify r).0, r) rest
  unfolding do_cmd
  answer_twice junk junk' k k' reason {r} rest h ir n n' lt lt' m d =
      let first =
        attempt-Reads junk k (turn junk' k' r rest) h (error 0x00 reason (omega arith)) n lt m d in
      let second = attempt-Reads junk' k' rest first.after ir n' lt' first.left first.alive in
      Reads-then (attempt c p tx rxlen) _ h first (
        rw notice (
          Reads-then (attempt c p tx rxlen) (λ rx. pure ((classify rx).0, rx)) first.after second
            (pure-Reads ((classify r).0, r) second.after second.left second.alive)))
    where
      notice : (is_reset (classify (reset_notice reason)).0 && true) ≡ true
      notice = unfold classify is_reset in refl

  -- A command whose first answer is a reply in form, but no reset notice that the caller lets
  -- `do_cmd` retry on, is sent once: its result is the reply and the reply's class, and the bus
  -- stands behind the reply's terminator.
  pub do_cmd-IsReply :
      (retry : Bool) (junk : List ℕ) (k : ℕ) {r : List ℕ} (rest : List ℕ) (h : Host)
      → IsReply r
      → (is_reset (classify r).0 && retry) ≡ false
      → length junk ≡ length tx
      → k < c.wait_bytes
      → h.miso ≡ turn junk k r rest
      → h.dies ≡ none
      → (h' : Host) × (do_cmd c p tx rxlen retry h ≡ ok ((classify r).0, r) h') × (h'.miso ≡ rest)
  do_cmd-IsReply retry junk k rest h ir stays n lt m d =
      let run = answer_once retry junk k rest h ir stays n lt m d in
      (run.after, run.result, run.left)

  -- An NCP that answers the first command with the reset notice, and the same command sent again
  -- with a reply in form, gives `do_cmd` that second reply and its class; a second reset notice is
  -- not retried but returned.
  pub do_cmd_resends :
      (junk junk' : List ℕ) (k k' reason : ℕ) {r : List ℕ} (rest : List ℕ) (h : Host)
      → IsReply r
      → length junk ≡ length tx
      → length junk' ≡ length tx
      → k < c.wait_bytes
      → k' < c.wait_bytes
      → h.miso ≡ turn junk k (reset_notice reason) (turn junk' k' r rest)
      → h.dies ≡ none
      → (h' : Host) × (do_cmd c p tx rxlen true h ≡ ok ((classify r).0, r) h') × (h'.miso ≡ rest)
  do_cmd_resends junk junk' k k' reason rest h ir n n' lt lt' m d =
      let run = answer_twice junk junk' k k' reason rest h ir n n' lt lt' m d in
      (run.after, run.result, run.left)
