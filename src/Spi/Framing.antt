-- ===== src/Spi/Framing.antt =====
-- What one transaction of `spi_txn_framed` takes off the bus, for an NCP that answers in form.
use openwrt_ezsp_spi.Prelude.{
  ℕ, zero, suc, ◌+◌, ◌^◌, ◌≤◌, ◌<◌, ◌≡◌, refl, ap, ◌∙◌, ◌≢◌, Bool, true, false, Option, none, some,
  List, [], ◌∷◌, ◌++◌, length, replicate, length-append, length-replicate, arith, ==-eq-false,
  !=-zero, leb-eq-false, le→leb, sym, lt→ltb, is_some,
}
use openwrt_ezsp_spi.Config.{Cfg, Pins, spi_idle, spi_cmd_ezsp_frame, spi_frame_terminator}
use openwrt_ezsp_spi.Config.{spi_err_unsupported}
use openwrt_ezsp_spi.Host.{Host, ok, pure, ◌>>=◌, ◌>>◌, spi_raw}
use openwrt_ezsp_spi.Host.Run.{Reads, Reads->>=, pure-Reads, gpio_set-Reads, spi_raw-Reads}
use openwrt_ezsp_spi.Spi.{
  drive_if, cs_assert, cs_release, spi_byte, wait_states, response_head, clamp_remain, finish,
  collect, send_command, spi_txn_framed,
}

-- The replies that AN711 lets an NCP give: an EZSP frame, an error with its data byte, or the
-- single byte of a version or a status; each ends on the terminator.
pub data IsReply : List ℕ → Type 0 where
  frame :
      (payload : List ℕ)
      → length payload < 256
      → IsReply (spi_cmd_ezsp_frame ∷ length payload ∷ payload ++ spi_frame_terminator ∷ [])
  error :
      (code info : ℕ)
      → code ≤ spi_err_unsupported
      → IsReply (code ∷ info ∷ spi_frame_terminator ∷ [])
  single :
      (b : ℕ)
      → spi_err_unsupported < b
      → b ≢ spi_cmd_ezsp_frame
      → b ≢ spi_idle
      → IsReply (b ∷ spi_frame_terminator ∷ [])

module _ (h : Host) {xs : List ℕ} (m : h.miso ≡ xs) (d : h.dies ≡ none) where
  drive_if-Reads : (flag : Bool) (o : Option ℕ) (v : Bool) → Reads (drive_if flag o v h) tt xs
  unfolding drive_if
  drive_if-Reads flag none v = pure-Reads tt h m d
  drive_if-Reads true (some line) v = gpio_set-Reads line v h m d
  drive_if-Reads false (some line) v = pure-Reads tt h m d

module _ (h : Host) {xs : List ℕ} (m : h.miso ≡ xs) (d : h.dies ≡ none) where
  cs_assert-Reads : (p : Pins) → Reads (cs_assert p h) tt xs
  unfolding cs_assert
  cs_assert-Reads p =
      Reads->>= (drive_if true p.cs false) (λ _. drive_if p.follows p.nssel_int false) h
        (drive_if-Reads h m d true p.cs false)
        (λ h' m' d'. drive_if-Reads h' m' d' p.follows p.nssel_int false)

  cs_release-Reads : (p : Pins) → Reads (cs_release p h) tt xs
  unfolding cs_release
  cs_release-Reads p =
      Reads->>= (drive_if true p.cs true) (λ _. drive_if p.follows p.nssel_int true) h
        (drive_if-Reads h m d true p.cs true)
        (λ h' m' d'. drive_if-Reads h' m' d' p.follows p.nssel_int true)

spi_byte-Reads :
    (h : Host) (x : ℕ) {ys : List ℕ} → h.miso ≡ x ∷ ys → h.dies ≡ none → Reads (spi_byte h) x ys
unfolding spi_byte
spi_byte-Reads h x m d =
    Reads->>= (spi_raw (spi_idle ∷ []) true) _ h
      (spi_raw-Reads (spi_idle ∷ []) true h (x ∷ []) refl m d) (λ h' m' d'. pure-Reads x h' m' d')

-- The first byte that is not idle ends the wait.
wait_states-Reads :
    (n k : ℕ) (h : Host) (b : ℕ) {ys : List ℕ}
    → k < n
    → b ≢ spi_idle
    → h.miso ≡ replicate k spi_idle ++ b ∷ ys
    → h.dies ≡ none
    → Reads (wait_states n h) b ys
unfolding wait_states
wait_states-Reads zero k h b lt ne m d = absurd (omega arith)
wait_states-Reads (suc n) zero h b lt ne m d =
    Reads->>= spi_byte _ h (spi_byte-Reads h b m d)
      (λ h' m' d'. rw (==-eq-false b spi_idle ne) (pure-Reads b h' m' d'))
wait_states-Reads (suc n) (suc k) h b lt ne m d =
    Reads->>= spi_byte _ h (spi_byte-Reads h spi_idle m d)
      (λ h' m' d'. wait_states-Reads n k h' b (omega arith) ne m' d')

send_command-Reads :
    (tx junk : List ℕ) (h : Host) {ys : List ℕ}
    → length junk ≡ length tx
    → h.miso ≡ junk ++ ys
    → h.dies ≡ none
    → Reads (send_command tx h) tt ys
unfolding send_command
send_command-Reads [] [] h n m d = pure-Reads tt h m d
send_command-Reads [] (x ∷ junk) h n m d = absurd (omega arith)
send_command-Reads (t ∷ tx) junk h n m d =
    rw (!=-zero (length tx), send_command)
      (Reads->>= (spi_raw (t ∷ tx) true) _ h (spi_raw-Reads (t ∷ tx) true h junk n m d)
        (λ h' m' d'. pure-Reads tt h' m' d'))

finish-Reads :
    (p : Pins) (rx xs : List ℕ) (remain : ℕ) (h : Host) {ys : List ℕ}
    → length xs ≡ remain
    → 0 < remain
    → h.miso ≡ xs ++ ys
    → h.dies ≡ none
    → Reads (finish p rx remain h) (rx ++ xs) ys
unfolding finish
finish-Reads p rx xs zero h n pos m d = absurd (omega arith)
finish-Reads p rx xs (suc k) h n pos m d =
    rw (!=-zero k, finish)
      (Reads->>= (spi_raw (replicate (suc k) spi_idle) (is_some p.cs)) _ h
        (spi_raw-Reads (replicate (suc k) spi_idle) (is_some p.cs) h xs
          (n ∙ sym (length-replicate (suc k) spi_idle)) m d)
        (λ h' m' d'. pure-Reads (rx ++ xs) h' m' d'))

clamp_remain_lem :
    (rxlen n remain : ℕ)
    → n + remain ≤ rxlen
    → rxlen < 2 ^ 64
    → remain ≤ 260
    → clamp_remain rxlen n remain ≡ remain
unfolding clamp_remain
clamp_remain_lem rxlen n remain p q r = omega arith

collect_tail :
    (p : Pins) (rx xs : List ℕ) (remain rxlen : ℕ) (h : Host) {ys : List ℕ}
    → length xs ≡ remain
    → 0 < remain
    → length rx + remain ≤ rxlen
    → rxlen < 2 ^ 64
    → remain ≤ 260
    → h.miso ≡ xs ++ ys
    → h.dies ≡ none
    → Reads
        ((do out ← finish p rx (clamp_remain rxlen (length rx) remain); cs_release p; pure out) h)
        (rx ++ xs)
        ys
collect_tail p rx xs remain rxlen h n pos fits small len m d =
    rw (clamp_remain_lem rxlen (length rx) remain fits small len) (
      Reads->>= (finish p rx remain) _ h (finish-Reads p rx xs remain h n pos m d) (λ h' m' d'.
        Reads->>= (cs_release p) _ h' (cs_release-Reads h' m' d' p)
          (λ h'' m'' d''. pure-Reads (rx ++ xs) h'' m'' d'')))

head_frame :
    (rxlen len : ℕ) (h : Host) {ys : List ℕ}
    → 1 < rxlen
    → h.miso ≡ len ∷ ys
    → h.dies ≡ none
    → Reads (response_head rxlen spi_cmd_ezsp_frame h) (spi_cmd_ezsp_frame ∷ len ∷ [], len + 1) ys
unfolding response_head
head_frame rxlen len h lt m d =
    rw (lt→ltb 1 rxlen lt, response_head)
      (Reads->>= spi_byte _ h (spi_byte-Reads h len m d) (λ h' m' d'. pure-Reads _ h' m' d'))

head_short :
    (rxlen b : ℕ) (h : Host) {xs : List ℕ}
    → b ≤ spi_err_unsupported
    → h.miso ≡ xs
    → h.dies ≡ none
    → Reads (response_head rxlen b h) (b ∷ [], 2) xs
unfolding response_head
head_short rxlen b h le m d =
    rw
      (
        ==-eq-false b spi_cmd_ezsp_frame (omega arith),
        le→leb b spi_err_unsupported le,
        response_head,
      )
      (pure-Reads _ h m d)

head_single :
    (rxlen b : ℕ) (h : Host) {xs : List ℕ}
    → spi_err_unsupported < b
    → b ≢ spi_cmd_ezsp_frame
    → h.miso ≡ xs
    → h.dies ≡ none
    → Reads (response_head rxlen b h) (b ∷ [], 1) xs
unfolding response_head
head_single rxlen b h lt ne m d =
    rw (==-eq-false b spi_cmd_ezsp_frame ne, leb-eq-false b spi_err_unsupported lt, response_head)
      (pure-Reads _ h m d)

-- The first byte of a reply, and what follows it.
first_of_reply : {r : List ℕ} → IsReply r → ℕ
first_of_reply (frame payload lt) = spi_cmd_ezsp_frame
first_of_reply (error code info le) = code
first_of_reply (single b lt ne ne') = b

others_of_reply : {r : List ℕ} → IsReply r → List ℕ
others_of_reply (frame payload lt) = length payload ∷ payload ++ spi_frame_terminator ∷ []
others_of_reply (error code info le) = info ∷ spi_frame_terminator ∷ []
others_of_reply (single b lt ne ne') = spi_frame_terminator ∷ []

reply_parts : {r : List ℕ} (ir : IsReply r) → r ≡ first_of_reply ir ∷ others_of_reply ir
unfolding first_of_reply others_of_reply
reply_parts (frame payload lt) = refl
reply_parts (error code info le) = refl
reply_parts (single b lt ne ne') = refl

first-ne-idle : {r : List ℕ} (ir : IsReply r) → first_of_reply ir ≢ spi_idle
unfolding first_of_reply
first-ne-idle (frame payload lt) = omega arith
first-ne-idle (error code info le) = omega arith
first-ne-idle (single b lt ne ne') = ne'

collect-Reads :
    (p : Pins) (rxlen : ℕ) {r : List ℕ} (ir : IsReply r) (h : Host) {ys : List ℕ}
    → 258 ≤ rxlen
    → rxlen < 2 ^ 64
    → h.miso ≡ others_of_reply ir ++ ys
    → h.dies ≡ none
    → Reads (collect p rxlen (first_of_reply ir) h) r ys
unfolding collect first_of_reply others_of_reply
collect-Reads p rxlen (frame payload lt) h {ys} big small m d =
    Reads->>= (response_head rxlen spi_cmd_ezsp_frame) _ h
      (head_frame rxlen (length payload) h (omega arith) m d)
      (λ h' m' d'.
        collect_tail p (spi_cmd_ezsp_frame ∷ length payload ∷ [])
          (payload ++ spi_frame_terminator ∷ []) (length payload + 1) rxlen h'
          (length-append payload (spi_frame_terminator ∷ [])) (omega arith) (omega arith) small
          (omega arith) m' d')
collect-Reads p rxlen (error code info le) h big small m d =
    Reads->>= (response_head rxlen code) _ h (head_short rxlen code h le m d) (λ h' m' d'.
      collect_tail p (code ∷ []) (info ∷ spi_frame_terminator ∷ []) 2 rxlen h' refl (omega arith)
        (omega arith) small (omega arith) m' d')
collect-Reads p rxlen (single b lt ne ne') h big small m d =
    Reads->>= (response_head rxlen b) _ h (head_single rxlen b h lt ne m d) (λ h' m' d'.
      collect_tail p (b ∷ []) (spi_frame_terminator ∷ []) 1 rxlen h' refl (omega arith)
        (omega arith) small (omega arith) m' d')

-- An NCP that shifts out anything while the command goes out, then `k` idle bytes and a reply in
-- form, `k` below `wait_bytes`, is read exactly to its terminator: with no ioctl failing, and room
-- for the longest frame, the transaction returns the reply as it stands, and the next transaction
-- starts at the byte behind the terminator.
pub txn-IsReply :
    (c : Cfg) (p : Pins) (tx junk : List ℕ) (k : ℕ) {r : List ℕ} (rest : List ℕ) (rxlen : ℕ)
    (h : Host)
    → IsReply r
    → length junk ≡ length tx
    → k < c.wait_bytes
    → 258 ≤ rxlen
    → rxlen < 2 ^ 64
    → h.miso ≡ junk ++ (replicate k spi_idle ++ (r ++ rest))
    → h.dies ≡ none
    → (h' : Host) × (spi_txn_framed c p tx rxlen h ≡ ok r h') × (h'.miso ≡ rest) × (h'.dies ≡ none)
unfolding spi_txn_framed
txn-IsReply c p tx junk k {r} rest rxlen h ir n lt big small m d =
    (run.after, run.result, run.left, run.alive)
  where
    parts :
        h.miso
        ≡ junk ++ (replicate k spi_idle ++ (first_of_reply ir ∷ (others_of_reply ir ++ rest)))
    parts = m ∙ ap (λ t. junk ++ (replicate k spi_idle ++ (t ++ rest))) (reply_parts ir)

    run : Reads (spi_txn_framed c p tx rxlen h) r rest
    run = Reads->>= (cs_assert p) _ h (cs_assert-Reads h parts d p) (λ h₁ m₁ d₁.
        Reads->>= (send_command tx) _ h₁ (send_command-Reads tx junk h₁ n m₁ d₁) (λ h₂ m₂ d₂.
          Reads->>= (wait_states c.wait_bytes) _ h₂
            (wait_states-Reads c.wait_bytes k h₂ (first_of_reply ir) lt (first-ne-idle ir) m₂ d₂)
            (λ h₃ m₃ d₃.
              rw (==-eq-false (first_of_reply ir) spi_idle (first-ne-idle ir))
                (collect-Reads p rxlen ir h₃ big small m₃ d₃))))
