-- ===== src/Ezsp/Frames.antt =====
-- The layout of EZSP frames: `ezsp_xfer` (package/ezsp-spi/src/ezsp.c) against itself and against
-- the bridge, which lays out its own callback command (package/ezsp-spi/src/bridge.c).
use openwrt_ezsp_spi.Prelude.{
  ℕ, ◌+◌, ◌-◌, ◌%◌, ◌≤◌, ◌≡◌, refl, ap, min, false, Option, none, some, List, [], ◌∷◌, ◌++◌, length,
  take, bytes_at, bytes_at-behind, ltb, leb, if◌then◌else◌, arith, Bool-cases, inl, inr,
}
use openwrt_ezsp_spi.Config.{ezsp_callback, spi_frame_terminator}
use openwrt_ezsp_spi.Bridge.Relay.{wrapped, callback_frame}
use openwrt_ezsp_spi.Ezsp.{header_layout, header, xfer_frame, reply_of}

-- For every version the callback command that the bridge makes itself is, wrapped for SPI, byte
-- for byte the frame in which `ezsp_xfer` sends the same command.
pub xfer_frame-callback :
    (ver seq : ℕ) → xfer_frame ver seq ezsp_callback [] ≡ wrapped (callback_frame ver seq)
unfolding xfer_frame wrapped callback_frame header header_layout
xfer_frame-callback ver seq = elim (Bool-cases (leb 8 ver)) [
  | inl new ↦ rw new refl
  | inr old ↦ elim (Bool-cases (leb 5 ver)) [
    | inl mid ↦ rw (old, mid) refl
    | inr first ↦ rw (old, first) refl
  ]
]

-- A reply in the layout in which `ezsp_xfer` sends is read back by `ezsp_xfer` in every version:
-- the frame id, and the parameters up to the size of the caller's buffer.
pub reply_of-xfer_frame :
    (ver max seq id : ℕ) (params : List ℕ)
    → length params + 5 ≤ 160
    → reply_of ver max (xfer_frame ver seq id params) ≡ some (id, take max params)
unfolding reply_of xfer_frame header header_layout
reply_of-xfer_frame ver max seq id params fits = elim (Bool-cases (leb 8 ver)) [
  | inl new ↦
      rw new (read 5 (0xFE ∷ _ ∷ seq ∷ 0x00 ∷ 0x01 ∷ id ∷ 0x00 ∷ []) refl refl (omega arith))
  | inr old ↦ elim (Bool-cases (leb 5 ver)) [
    | inl mid ↦
        rw (old, mid)
          (read 5 (0xFE ∷ _ ∷ seq ∷ 0x00 ∷ 0xFF ∷ 0x00 ∷ id ∷ []) refl refl (omega arith))
    | inr first ↦ rw (old, first) (read 3 (0xFE ∷ _ ∷ seq ∷ 0x00 ∷ id ∷ []) refl refl (omega arith))
  ]
]
  where
    read :
        (hdr : ℕ) (pre : List ℕ) {got : ℕ}
        → length pre ≡ 2 + hdr
        → got ≡ id
        → hdr ≤ 5
        → if◌then◌else◌ {A = Option (ℕ × List ℕ)} (ltb ((length params + hdr) % 256) hdr) none (
            some (
              got,
              bytes_at
                  (pre ++ params ++ spi_frame_terminator ∷ [])
                  (2 + hdr)
                  (min ((length params + hdr) % 256 - hdr) max),
            ))
          ≡ some (id, take max params)
    read hdr pre {got} len eq le =
        rw (fits_byte, large, ← len, eq)
          (ap (λ t. some (id, t))
            (bytes_at-behind pre params (spi_frame_terminator ∷ []) max _ (omega arith)))
      where
        fits_byte : (length params + hdr) % 256 ≡ length params + hdr
        fits_byte = omega arith

        large : ltb (length params + hdr) hdr ≡ false
        large = ground arith
