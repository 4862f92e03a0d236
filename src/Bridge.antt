-- ===== src/Bridge.antt =====
-- package/ezsp-spi/src/bridge.c: `struct bridge` and what the bridge sends to its client.
-- The slots of `sent` and the buffer `rx` are lists of the bytes in use, so that a length is the
-- length of the list; `cli` is `none` for -1.
pub mod Relay
pub mod Handle
pub mod Loop
pub mod Returns
pub mod Lives
pub mod Deframe
pub mod Resync
pub mod Retransmit
pub mod Valid
pub mod Session
pub mod Keeps
pub mod Order
pub mod Replace
pub mod Sends
pub mod Answer
pub mod Verbatim
pub mod Tests
use openwrt_ezsp_spi.Prelude.{
  ℕ, zero, suc, ◌+◌, ◌*◌, ◌%◌, Bool, true, false, ◌&&◌, ◌||◌, not, Option, none, some, is_some,
  List, [], ◌∷◌, ◌++◌, length, get_or, set, replicate, ltb, leb, ◌==◌, bit_or, if◌then◌else◌,
}
use openwrt_ezsp_spi.Config.{ash_max_frame, ash_window}
use openwrt_ezsp_spi.Host.{Host, ok, M, pure, ◌>>=◌, ◌>>◌, write_all, NetAction, sent}
use openwrt_ezsp_spi.Ash.{encode, mask}

pub record Bridge : Type 0 where
  pub cli : Option ℕ
  pub ready : Bool
  pub negotiated : Bool
  pub frm : ℕ
  pub ack : ℕ
  pub cbseq : ℕ
  pub ver : ℕ
  pub rx : List ℕ
  pub esc : Bool
  pub unacked : List (List ℕ)

-- `memset(b->sent, 0, sizeof(b->sent))`
abbrev pub no_frames : List (List ℕ)
no_frames = replicate ash_window []

-- `memset(&b, 0, sizeof(b))` and what `cmd_bridge` sets behind it.
abbrev pub initial : Bridge
initial = record {
  cli = none;
  ready = false;
  negotiated = false;
  frm = 0;
  ack = 0;
  cbseq = 0;
  ver = 4;
  rx = [];
  esc = false;
  unacked = no_frames;
}

-- The log entry of a frame, with what `write` took of its bytes.
abbrev pub log_sent : List ℕ → List ℕ → M (Unit {0})
log_sent frame out h = ok tt (record h { net = sent frame out ∷ h.net })

unfoldable pub write_frame : List ℕ → M Bool
write_frame frame = do (all, out) ← write_all (encode frame); log_sent frame out; pure all

-- Whether the frame went out whole; `false` is -1.
unfoldable pub ash_send : Bridge → List ℕ → M Bool
unfolding write_frame
ash_send b frame =
    if not (is_some b.cli) || ltb (ash_max_frame + 2) (length frame + 2)
    then pure false
    else write_frame frame

unfoldable pub ash_send_ack : Bridge → M (Unit {0})
ash_send_ack b = do whole ← ash_send b ((0x80 + b.ack % 8) ∷ []); pure tt

-- The control byte and the masked frame.
unfoldable pub data_body : Bridge → List ℕ → List ℕ
data_body b ezsp = (b.frm % 8 * 16 + b.ack % 8) ∷ mask 0 ezsp

unfoldable pub keep_frame : Bridge → List ℕ → Bridge
keep_frame b body = record b { unacked = set b.unacked (b.frm % 8) body; frm = (b.frm + 1) % 8 }

unfoldable pub ash_send_data : Bridge → List ℕ → M Bridge
unfolding data_body keep_frame
ash_send_data b ezsp = if ltb ash_max_frame (length ezsp + 1) then pure b else (do
  whole ← ash_send (keep_frame b (data_body b ezsp)) (data_body b ezsp)
  pure (keep_frame b (data_body b ezsp)))

-- `body[0] |= 0x08`
unfoldable pub marked : List ℕ → List ℕ
marked [] = []
marked (ctrl ∷ rest) = bit_or ctrl 0x08 ∷ rest

unfoldable pub resend : Bridge → List ℕ → M (Unit {0})
unfolding marked
resend b [] = pure tt
resend b (ctrl ∷ rest) = do whole ← ash_send b (marked (ctrl ∷ rest)); pure tt

-- The loop of `ash_retransmit` from `n` on, with rounds of fuel; whether it ended by its test.
unfoldable pub retransmit_from : ℕ → Bridge → ℕ → M Bool
retransmit_from zero b n = pure (n == b.frm)
retransmit_from (suc fuel) b n =
    let more = retransmit_from fuel b ((n + 1) % 8) in
    if n == b.frm then pure true else (resend b (get_or b.unacked (n % 8) []) >> more)

-- Frame numbers have three bits, so seven rounds reach any other number.
unfoldable pub ash_retransmit : Bridge → ℕ → M Bool
ash_retransmit b from = retransmit_from 7 b from
