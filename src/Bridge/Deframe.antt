-- ===== src/Bridge/Deframe.antt =====
-- `ash_send` on one side and `bridge_feed` on the other: what is encoded is handled, once.
use openwrt_ezsp_spi.Prelude.{
  ℕ, suc, ◌+◌, ◌-◌, ◌/◌, ◌%◌, ◌^◌, ◌≤◌, ◌<◌, ◌≡◌, refl, ap, ◌∙◌, true, false, ◌||◌, List, [], ◌∷◌,
  ◌++◌, length, length-append, take, take-append, get_or, get_or-append, append_assoc, append-nil,
  ◌==◌, ==_iff, lt→ltb, le→leb, Bool-cases, inl, inr, arith, IsBytes, All-append, bit_xor,
  bit_xor_cancel, if◌then◌else◌,
}
use openwrt_ezsp_spi.Config.{Cfg, Pins, ash_flag, ash_esc}
use openwrt_ezsp_spi.Host.{Host, pure, ◌>>=◌}
use openwrt_ezsp_spi.Ash.{is_reserved, escape, stuff, crc_tail, encode, ash_crc}
use openwrt_ezsp_spi.Ash.Crc.{ash_crc-lt}
use openwrt_ezsp_spi.Ash.Stuffing.{escaped-plain, tail-IsBytes, length-tail}
use openwrt_ezsp_spi.Bridge.{Bridge}
use openwrt_ezsp_spi.Bridge.Handle.{
  bridge_handle_frame, rx_size, crc_matches, resync, feed_flag, store_byte, feed_byte, bridge_feed,
}

plain_tests :
    (x : ℕ)
    → is_reserved x ≡ false
    → ((x == 0x11 || x == 0x13) ≡ false)
      × ((x == 0x1A) ≡ false)
      × ((x == 0x18) ≡ false)
      × ((x == 0x7D) ≡ false)
      × ((x == 0x7E) ≡ false)
unfolding is_reserved
plain_tests x e = ground arith

pub feed_plain :
    (c : Cfg) (p : Pins) (b : Bridge) (x : ℕ)
    → is_reserved x ≡ false
    → feed_byte c p b x ≡ pure (store_byte b (if b.esc then bit_xor x 0x20 else x))
unfolding feed_byte
feed_plain c p b x e = let t = plain_tests x e in rw (t.0, t.1, t.2, t.3, t.4, feed_byte) refl

-- Bytes that fit behind those at hand.
store_fits :
    (b : Bridge) (x : ℕ)
    → length b.rx < rx_size
    → store_byte b x ≡ record b { rx = b.rx ++ x ∷ []; esc = false }
unfolding store_byte
store_fits b x lt = rw (lt→ltb (length b.rx) rx_size lt)

-- The state after `cs` has come in, in the middle of a frame.
abbrev pub with_rx : Bridge → List ℕ → Bridge
with_rx b cs = record b { rx = cs; esc = false }

module _ (c : Cfg) (p : Pins) where
  pub feed_one :
      (b : Bridge) (x : ℕ) (rest : List ℕ) (h : Host)
      → is_reserved x ≡ false
      → length b.rx < rx_size
      → bridge_feed c p b (x ∷ rest) h
        ≡ bridge_feed c p (with_rx b (b.rx ++ (if b.esc then bit_xor x 0x20 else x) ∷ [])) rest h
  unfolding bridge_feed
  feed_one b x rest h e lt =
      rw (feed_plain c p b x e, store_fits b (if b.esc then bit_xor x 0x20 else x) lt, bridge_feed)
        refl

  feed_esc :
      (b : Bridge) (rest : List ℕ) (h : Host)
      → bridge_feed c p b (ash_esc ∷ rest) h ≡ bridge_feed c p (record b { esc = true }) rest h
  unfolding bridge_feed feed_byte
  feed_esc b rest h = refl

  feed_escaped :
      (b : Bridge) (x : ℕ) (rest : List ℕ) (h : Host)
      → x < 256
      → b.esc ≡ false
      → length b.rx < rx_size
      → bridge_feed c p b (escape x ++ rest) h ≡ bridge_feed c p (with_rx b (b.rx ++ x ∷ [])) rest h
  unfolding escape
  feed_escaped b x rest h lt calm room = elim (Bool-cases (is_reserved x)) [
    | inl special ↦ rw special (
        feed_esc b (bit_xor x 0x20 ∷ rest) h
        ∙ feed_one (record b { esc = true }) (bit_xor x 0x20) rest h (escaped-plain x lt special)
            room
        ∙ ap (λ t. bridge_feed c p (with_rx b (b.rx ++ t ∷ [])) rest h) (bit_xor_cancel x 0x20))
    | inr plain ↦ rw plain (
        feed_one b x rest h plain room
        ∙ ap
            (λ t.
              bridge_feed c p (with_rx b (b.rx ++ (if t then bit_xor x 0x20 else x) ∷ [])) rest h)
            calm)
  ]

  -- The bytes of `cs`, stuffed, arrive as `cs`.
  pub feed_stuffed :
      (cs : List ℕ) (b : Bridge) (rest : List ℕ) (h : Host)
      → IsBytes cs
      → b.esc ≡ false
      → length b.rx + length cs ≤ rx_size
      → bridge_feed c p b (stuff cs ++ rest) h ≡ bridge_feed c p (with_rx b (b.rx ++ cs)) rest h
  unfolding stuff
  feed_stuffed [] b rest h bytes calm room =
      rw (append-nil b.rx) (ap (λ t. bridge_feed c p (record b { esc = t }) rest h) calm)
  feed_stuffed (x ∷ cs) b rest h bytes calm room =
      ap (λ t. bridge_feed c p b t h) (append_assoc (escape x) (stuff cs) rest)
      ∙ feed_escaped b x (stuff cs ++ rest) h bytes.0 calm (omega arith)
      ∙ feed_stuffed cs (with_rx b (b.rx ++ x ∷ [])) rest h bytes.1 refl
          (omega (arith, length-append b.rx (x ∷ [])))
      ∙ ap (λ t. bridge_feed c p (with_rx b t) rest h) (append_assoc b.rx (x ∷ []) cs)

  pub feed_end : (b : Bridge) (h : Host) → bridge_feed c p b (ash_flag ∷ []) h ≡ feed_flag c p b h
  unfolding bridge_feed feed_byte
  feed_end b h = ground arith

take-tail :
    (frame : List ℕ) (crc : ℕ)
    → take (length (frame ++ crc_tail crc) - 2) (frame ++ crc_tail crc) ≡ frame
take-tail frame crc =
    ap (λ n. take n (frame ++ crc_tail crc)) (omega (arith, length-tail frame crc))
    ∙ take-append frame (crc_tail crc)

get_or-last : (xs : List ℕ) (y z : ℕ) → get_or (xs ++ y ∷ z ∷ []) (suc (length xs)) 0 ≡ z
get_or-last [] y z = refl
get_or-last (x ∷ xs) y z = get_or-last xs y z

high_byte :
    (frame : List ℕ) (crc : ℕ)
    → get_or (frame ++ crc_tail crc) (length (frame ++ crc_tail crc) - 2) 0 ≡ crc / 2 ^ 8
unfolding crc_tail
high_byte frame crc =
    ap (λ n. get_or (frame ++ crc_tail crc) n 0) (omega (arith, length-tail frame crc))
    ∙ get_or-append frame (crc / 2 ^ 8) (crc % 2 ^ 8 ∷ []) 0

low_byte :
    (frame : List ℕ) (crc : ℕ)
    → get_or (frame ++ crc_tail crc) (length (frame ++ crc_tail crc) - 1) 0 ≡ crc % 2 ^ 8
unfolding crc_tail
low_byte frame crc =
    ap (λ n. get_or (frame ++ crc_tail crc) n 0) (omega (arith, length-tail frame crc))
    ∙ get_or-last frame (crc / 2 ^ 8) (crc % 2 ^ 8)

crc_matches-tail : (frame : List ℕ) → crc_matches (frame ++ crc_tail (ash_crc frame)) ≡ true
unfolding crc_matches
crc_matches-tail frame = (==_iff _ _).1 (
    omega (
      arith,
      ap ash_crc (take-tail frame (ash_crc frame)),
      high_byte frame (ash_crc frame),
      low_byte frame (ash_crc frame),
    ))

-- What `bridge_feed` has collected when the flag comes in behind `frame`.
abbrev pub collected : Bridge → List ℕ → Bridge
collected b frame = record b { rx = frame ++ crc_tail (ash_crc frame); esc = false }

module _ (c : Cfg) (p : Pins) where
  pub flag-handles :
      (b : Bridge) (frame : List ℕ) (h : Host)
      → 1 ≤ length frame
      → feed_flag c p (collected b frame) h
        ≡ (do b' ← bridge_handle_frame c p (collected b frame) frame; pure (resync b')) h
  unfolding feed_flag
  flag-handles b frame h some_byte =
      rw
        (
          le→leb 3 (length (frame ++ crc_tail (ash_crc frame)))
              (omega (arith, length-tail frame (ash_crc frame))),
          crc_matches-tail frame,
          take-tail frame (ash_crc frame),
          feed_flag,
        )
        refl

  -- The bytes that `ash_send` writes for a frame, fed to a deframer between two frames, make it
  -- handle exactly that frame, once, and leave it between two frames again. That is for every
  -- frame of bytes, escaped ones and control bytes among them, that is not empty and fits the
  -- buffer with its CRC.
  pub feed-encode :
      (b : Bridge) (frame : List ℕ) (h : Host)
      → IsBytes frame
      → 1 ≤ length frame
      → length frame + 2 ≤ rx_size
      → b.rx ≡ []
      → b.esc ≡ false
      → bridge_feed c p b (encode frame) h
        ≡ (do b' ← bridge_handle_frame c p (collected b frame) frame; pure (resync b')) h
  unfolding encode
  feed-encode b frame h bytes some_byte fits empty calm =
      feed_stuffed c p (frame ++ crc_tail (ash_crc frame)) b (ash_flag ∷ []) h
        (All-append (λ x. x < 256) frame (crc_tail (ash_crc frame)) bytes
          (tail-IsBytes (ash_crc frame) (ash_crc-lt frame)))
        calm (omega (arith, length-tail frame (ash_crc frame), ap length empty))
      ∙ ap
          (λ t.
            bridge_feed c p
              (record b { rx = t ++ (frame ++ crc_tail (ash_crc frame)); esc = false })
              (ash_flag ∷ []) h)
          empty
      ∙ feed_end c p (collected b frame) h
      ∙ flag-handles b frame h some_byte
