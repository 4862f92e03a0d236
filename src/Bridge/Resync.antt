-- ===== src/Bridge/Resync.antt =====
-- How `bridge_feed` finds its way back into the stream, and where it does not wait for a flag.
use openwrt_ezsp_spi.Prelude.{
  ℕ, ◌+◌, ◌≤◌, ◌<◌, ◌≡◌, refl, ap, ◌∙◌, true, false, ◌&&◌, List, [], ◌∷◌, ◌++◌, length, arith, leb,
  ltb-eq-false, IsBytes, All-append, bit_xor, bit_xor_cancel,
}
use openwrt_ezsp_spi.Config.{Cfg, Pins, ash_flag, ash_sub, ash_cancel}
use openwrt_ezsp_spi.Host.{Host, ok, died, M, pure, ◌>>=◌}
use openwrt_ezsp_spi.Ash.{is_reserved, stuff, crc_tail, encode, ash_crc}
use openwrt_ezsp_spi.Ash.Crc.{ash_crc-lt}
use openwrt_ezsp_spi.Ash.Stuffing.{tail-IsBytes, length-tail}
use openwrt_ezsp_spi.Bridge.{Bridge}
use openwrt_ezsp_spi.Bridge.Deframe.{
  feed_plain, feed_one, feed_stuffed, feed_end, flag-handles, feed-encode, collected,
}
use openwrt_ezsp_spi.Bridge.Handle.{
  bridge_handle_frame, rx_size, crc_matches, resync, feed_flag, store_byte, feed_byte, bridge_feed,
}

-- Handling `frame` from the state that has collected it, and being between frames behind it.
abbrev pub handled : Cfg → Pins → Bridge → List ℕ → M Bridge
handled c p b frame = do b' ← bridge_handle_frame c p (collected b frame) frame; pure (resync b')

module _ (c : Cfg) (p : Pins) (b : Bridge) (frame : List ℕ) (h : Host) (bytes : IsBytes frame)
    (some_byte : 1 ≤ length frame) (fits : length frame + 2 ≤ rx_size) where
  after_cancel :
      bridge_feed c p b (ash_cancel ∷ encode frame) h ≡ bridge_feed c p (resync b) (encode frame) h
  unfolding bridge_feed feed_byte
  after_cancel = refl

  feed_flag-noise :
      (leb 3 (length b.rx) && crc_matches b.rx) ≡ false → feed_flag c p b h ≡ ok (resync b) h
  unfolding feed_flag
  feed_flag-noise bad = rw (bad, feed_flag) refl

  after_flag :
      (leb 3 (length b.rx) && crc_matches b.rx) ≡ false
      → bridge_feed c p b (ash_flag ∷ encode frame) h ≡ bridge_feed c p (resync b) (encode frame) h
  unfolding bridge_feed feed_byte
  after_flag bad =
      ap (λ o. elim o [ ok b' h' ↦ bridge_feed c p b' (encode frame) h' | died ↦ died ])
        (feed_flag-noise bad)

  -- Whatever `b` has collected, a CANCEL puts the deframer between two frames: the frame encoded
  -- next is handled as it stands.
  pub feed-cancel : bridge_feed c p b (ash_cancel ∷ encode frame) h ≡ handled c p b frame h
  feed-cancel = after_cancel ∙ feed-encode c p (resync b) frame h bytes some_byte fits refl refl

  -- If what `b` has collected is too short for a frame or does not have its CRC, a flag drops it:
  -- the frame encoded next is handled as it stands.
  pub feed_resyncs :
      (leb 3 (length b.rx) && crc_matches b.rx) ≡ false
      → bridge_feed c p b (ash_flag ∷ encode frame) h ≡ handled c p b frame h
  feed_resyncs bad =
      after_flag bad ∙ feed-encode c p (resync b) frame h bytes some_byte fits refl refl

  overflow :
      (x : ℕ)
      → is_reserved x ≡ false
      → rx_size ≤ length b.rx
      → bridge_feed c p b (x ∷ encode frame) h ≡ bridge_feed c p (resync b) (encode frame) h
  unfolding bridge_feed store_byte
  overflow x plain full =
      rw (feed_plain c p b x plain, ltb-eq-false (length b.rx) rx_size full, bridge_feed) refl

  -- When the buffer is full the next byte empties it, and the bytes behind that are taken for a
  -- new frame at once: a frame encoded there, with no flag before it, is handled.
  pub feed-overflow :
      (x : ℕ)
      → is_reserved x ≡ false
      → rx_size ≤ length b.rx
      → bridge_feed c p b (x ∷ encode frame) h ≡ handled c p b frame h
  feed-overflow x plain full =
      overflow x plain full ∙ feed-encode c p (resync b) frame h bytes some_byte fits refl refl

-- The bytes of `x ∷ xs` with its CRC, stuffed but for the first, which comes with bit 5 flipped.
abbrev pub flipped : ℕ → List ℕ → List ℕ
flipped x xs = bit_xor x 0x20 ∷ (stuff (xs ++ crc_tail (ash_crc (x ∷ xs))) ++ ash_flag ∷ [])

module _ (c : Cfg) (p : Pins) where
  feed_sub :
      (b : Bridge) (rest : List ℕ) (h : Host)
      → bridge_feed c p b (ash_sub ∷ rest) h
        ≡ bridge_feed c p (record b { rx = []; esc = true }) rest h
  unfolding bridge_feed feed_byte
  feed_sub b rest h = refl

  -- Behind a SUB the bytes up to the next flag are not void. The byte that comes next is taken with
  -- bit 5 flipped, the others as they are, and if that makes a frame whose CRC is right, it is
  -- handled: for every frame of bytes whose first byte is not reserved with bit 5 flipped.
  pub feed-sub :
      (b : Bridge) (x : ℕ) (xs : List ℕ) (h : Host)
      → IsBytes (x ∷ xs)
      → is_reserved (bit_xor x 0x20) ≡ false
      → length (x ∷ xs) + 2 ≤ rx_size
      → bridge_feed c p b (ash_sub ∷ flipped x xs) h ≡ handled c p b (x ∷ xs) h
  feed-sub b x xs h bytes plain fits =
      feed_sub b (flipped x xs) h
      ∙ feed_one c p (record b { rx = []; esc = true }) (bit_xor x 0x20)
          (stuff (xs ++ crc_tail (ash_crc (x ∷ xs))) ++ ash_flag ∷ []) h plain (omega arith)
      ∙ ap
          (λ t.
            bridge_feed c p (record b { rx = t ∷ []; esc = false })
              (stuff (xs ++ crc_tail (ash_crc (x ∷ xs))) ++ ash_flag ∷ []) h)
          (bit_xor_cancel x 0x20)
      ∙ feed_stuffed c p (xs ++ crc_tail (ash_crc (x ∷ xs))) (record b { rx = x ∷ []; esc = false })
          (ash_flag ∷ []) h
          (All-append (λ y. y < 256) xs (crc_tail (ash_crc (x ∷ xs))) bytes.1
            (tail-IsBytes (ash_crc (x ∷ xs)) (ash_crc-lt (x ∷ xs))))
          refl (omega (arith, length-tail xs (ash_crc (x ∷ xs))))
      ∙ feed_end c p (collected b (x ∷ xs)) h
      ∙ flag-handles c p b (x ∷ xs) h (omega arith)
