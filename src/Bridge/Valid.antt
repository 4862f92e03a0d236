-- ===== src/Bridge/Valid.antt =====
-- The invariant of `struct bridge`, and the pure steps that keep it.
use openwrt_ezsp_spi.Prelude.{
  ℕ, zero, suc, ◌+◌, ◌%◌, ◌≤◌, ◌<◌, ◌≡◌, refl, ◌∙◌, Bool, true, false, Option, none, some, List, [],
  ◌∷◌, ◌++◌, All, length, length-append, length-set, set, arith, ltb, Bool-cases, inl, inr,
}
use openwrt_ezsp_spi.Config.{ash_max_frame}
use openwrt_ezsp_spi.Ash.Mask.{length-mask}
use openwrt_ezsp_spi.Bridge.{Bridge, no_frames, initial, data_body, keep_frame}
use openwrt_ezsp_spi.Bridge.Relay.{ezsp_layout}
use openwrt_ezsp_spi.Bridge.Handle.{agreed, adopt, next_ack, cleared, rx_size, store_byte}
use openwrt_ezsp_spi.Bridge.Loop.{fresh_client}

abbrev pub IsShort : List ℕ → Type 0
IsShort s = length s ≤ ash_max_frame

-- Numbers in their three bits and eight, lengths within their arrays, and no version agreed
-- before the handshake.
pub record IsValid (b : Bridge) : Type 0 where
  pub frm_lt : b.frm < 8
  pub ack_lt : b.ack < 8
  pub cbseq_lt : b.cbseq < 256
  pub ver_ge : 4 ≤ b.ver
  pub ver_le : b.ver ≤ 13
  pub slots : length b.unacked ≡ 8
  pub short : All IsShort b.unacked
  pub rx_fits : length b.rx ≤ rx_size
  pub agreed_after_ready : b.negotiated ≡ true → b.ready ≡ true

All-set :
    (xs : List (List ℕ)) (i : ℕ) (v : List ℕ)
    → All IsShort xs
    → IsShort v
    → All IsShort (set xs i v)
All-set [] i v hx hv = tt
All-set (x ∷ xs) zero v hx hv = (hv, hx.1)
All-set (x ∷ xs) (suc i) v hx hv = (hx.0, All-set xs i v hx.1 hv)

pub no_frames-IsShort : All IsShort no_frames
no_frames-IsShort = omega arith

pub keep_frame-IsValid :
    (b : Bridge) (body : List ℕ) → IsValid b → IsShort body → IsValid (keep_frame b body)
unfolding keep_frame
keep_frame-IsValid b body v s = record {
  frm_lt = omega arith;
  ack_lt = v.ack_lt;
  cbseq_lt = v.cbseq_lt;
  ver_ge = v.ver_ge;
  ver_le = v.ver_le;
  slots = length-set b.unacked (b.frm % 8) body ∙ v.slots;
  short = All-set b.unacked (b.frm % 8) body v.short s;
  rx_fits = v.rx_fits;
  agreed_after_ready = v.agreed_after_ready;
}

pub data_body-IsShort :
    (b : Bridge) (ezsp : List ℕ) → length ezsp + 1 ≤ ash_max_frame → IsShort (data_body b ezsp)
unfolding data_body
data_body-IsShort b ezsp le = omega (arith, length-mask 0 ezsp)

agreed-bounds :
    (ver n : ℕ) (ezsp resp : List ℕ) → agreed ver ezsp resp ≡ some n → (4 ≤ n) × (n ≤ 13)
unfolding agreed ezsp_layout
agreed-bounds ver n ezsp resp e = ground arith

pub adopt-IsValid :
    (b : Bridge) (ver : ℕ) (ezsp resp : List ℕ)
    → IsValid b
    → b.ready ≡ true
    → IsValid (adopt b (agreed ver ezsp resp))
adopt-IsValid b ver ezsp resp v r = go (agreed ver ezsp resp) refl
  where
    go : (o : Option ℕ) → agreed ver ezsp resp ≡ o → IsValid (adopt b o)
    go none e = unfold adopt in v
    go (some n) e =
        unfold adopt in
        (let range = agreed-bounds ver n ezsp resp e in
          record {
            frm_lt = v.frm_lt;
            ack_lt = v.ack_lt;
            cbseq_lt = v.cbseq_lt;
            ver_ge = range.0;
            ver_le = range.1;
            slots = v.slots;
            short = v.short;
            rx_fits = v.rx_fits;
            agreed_after_ready = λ _. r;
          })

pub adopt-ready : (b : Bridge) (o : Option ℕ) → (adopt b o).ready ≡ b.ready
unfolding adopt
adopt-ready b none = refl
adopt-ready b (some n) = refl

pub adopt-cli : (b : Bridge) (o : Option ℕ) → (adopt b o).cli ≡ b.cli
unfolding adopt
adopt-cli b none = refl
adopt-cli b (some n) = refl

pub adopt-frm : (b : Bridge) (o : Option ℕ) → (adopt b o).frm ≡ b.frm
unfolding adopt
adopt-frm b none = refl
adopt-frm b (some n) = refl

pub adopt-ack : (b : Bridge) (o : Option ℕ) → (adopt b o).ack ≡ b.ack
unfolding adopt
adopt-ack b none = refl
adopt-ack b (some n) = refl

pub ack-IsValid : (b : Bridge) (ctrl : ℕ) → IsValid b → IsValid (record b { ack = next_ack ctrl })
unfolding next_ack
ack-IsValid b ctrl v = record {
  frm_lt = v.frm_lt;
  ack_lt = omega arith;
  cbseq_lt = v.cbseq_lt;
  ver_ge = v.ver_ge;
  ver_le = v.ver_le;
  slots = v.slots;
  short = v.short;
  rx_fits = v.rx_fits;
  agreed_after_ready = v.agreed_after_ready;
}

pub cbseq-IsValid : (b : Bridge) (n : ℕ) → IsValid b → IsValid (record b { cbseq = n % 256 })
cbseq-IsValid b n v = record {
  frm_lt = v.frm_lt;
  ack_lt = v.ack_lt;
  cbseq_lt = omega arith;
  ver_ge = v.ver_ge;
  ver_le = v.ver_le;
  slots = v.slots;
  short = v.short;
  rx_fits = v.rx_fits;
  agreed_after_ready = v.agreed_after_ready;
}

-- The deframer's own fields.
pub rx-IsValid :
    (b : Bridge) (rx : List ℕ) (esc : Bool)
    → IsValid b
    → length rx ≤ rx_size
    → IsValid (record b { rx = rx; esc = esc })
rx-IsValid b rx esc v le = record {
  frm_lt = v.frm_lt;
  ack_lt = v.ack_lt;
  cbseq_lt = v.cbseq_lt;
  ver_ge = v.ver_ge;
  ver_le = v.ver_le;
  slots = v.slots;
  short = v.short;
  rx_fits = le;
  agreed_after_ready = v.agreed_after_ready;
}

pub store_byte-IsValid : (b : Bridge) (x : ℕ) → IsValid b → IsValid (store_byte b x)
unfolding store_byte
store_byte-IsValid b x v = elim (Bool-cases (ltb (length b.rx) rx_size)) [
  | inl room ↦
      rw room (rx-IsValid b (b.rx ++ x ∷ []) false v (ground (arith, length-append b.rx (x ∷ []))))
  | inr full ↦ rw full (rx-IsValid b [] false v (omega arith))
]

pub cleared-IsValid :
    (b : Bridge) → IsValid b → IsValid (record (cleared b) { ready = true; negotiated = false })
cleared-IsValid b v = record {
  frm_lt = omega arith;
  ack_lt = omega arith;
  cbseq_lt = v.cbseq_lt;
  ver_ge = omega arith;
  ver_le = omega arith;
  slots = refl;
  short = no_frames-IsShort;
  rx_fits = v.rx_fits;
  agreed_after_ready = λ _. refl;
}

pub fresh_client-IsValid : (b : Bridge) (fd : ℕ) → IsValid b → IsValid (fresh_client b fd)
fresh_client-IsValid b fd v = record {
  frm_lt = omega arith;
  ack_lt = omega arith;
  cbseq_lt = v.cbseq_lt;
  ver_ge = omega arith;
  ver_le = omega arith;
  slots = refl;
  short = no_frames-IsShort;
  rx_fits = omega arith;
  agreed_after_ready = λ e. e;
}

pub none-IsValid : {b : Bridge} → IsValid b → IsValid (record b { cli = none })
none-IsValid v = record {
  frm_lt = v.frm_lt;
  ack_lt = v.ack_lt;
  cbseq_lt = v.cbseq_lt;
  ver_ge = v.ver_ge;
  ver_le = v.ver_le;
  slots = v.slots;
  short = v.short;
  rx_fits = v.rx_fits;
  agreed_after_ready = v.agreed_after_ready;
}

pub initial-IsValid : IsValid initial
initial-IsValid = record {
  frm_lt = omega arith;
  ack_lt = omega arith;
  cbseq_lt = omega arith;
  ver_ge = omega arith;
  ver_le = omega arith;
  slots = refl;
  short = no_frames-IsShort;
  rx_fits = omega arith;
  agreed_after_ready = λ e. e;
}
