-- ===== src/Control/Verify.antt =====
-- When `cmd_verify` calls an image safe to flash (package/ezsp-spi/src/control.c).
use openwrt_ezsp_spi.Prelude.{
  ℕ, ◌≡◌, ◌≤◌, true, not, Option, none, some, List, [], ◌∷◌, length, get_or, bytes_at, ltb, arith,
  Bool-cases, inl, inr, refl,
}
use openwrt_ezsp_spi.Config.{Cfg, Pins, ezsp_get_bootloader_version}
use openwrt_ezsp_spi.Host.{Host, ok}
use openwrt_ezsp_spi.Host.Run.{
  Ensures, returns, dies, Ensures-all, Ensures-ok, Ensures->>=, Ensures-any, Ensures-after,
  Ensures-if, Ensures-then, Ensures-else,
}
use openwrt_ezsp_spi.Ezsp.{ezsp_cmd}
use openwrt_ezsp_spi.Join.{bring_up}
use openwrt_ezsp_spi.Control.Serve.{equal_texts}
use openwrt_ezsp_spi.Control.Commands.{
  ebl_sig, is_ebl, same_chip, chip_matches, verify_chip, cmd_verify,
}

-- The NCP itself has just reported the platform, the micro and the phy that the header names.
pub record IsForChip (c : Cfg) (p : Pins) (hdr : List ℕ) (h' : Host) : Type 0 where
  pub before : Host
  pub reply : List ℕ
  pub asked : ezsp_cmd c p ezsp_get_bootloader_version [] 16 before ≡ ok (some reply) h'
  pub whole : 5 ≤ length reply
  pub platform : get_or reply 2 0 ≡ get_or hdr 0x28 0
  pub micro : get_or reply 3 0 ≡ get_or hdr 0x29 0
  pub phy : get_or reply 4 0 ≡ get_or hdr 0x2A 0

-- What a positive verdict rests on.
pub record IsSafe (c : Cfg) (p : Pins) (file : Option (List ℕ)) (h' : Host) : Type 0 where
  pub hdr : List ℕ
  pub opened : file ≡ some hdr
  pub long_enough : 0x40 ≤ length hdr
  pub signature : bytes_at hdr 4 4 ≡ ebl_sig
  pub chip : IsForChip c p hdr h'

equal_texts-eq : (xs ys : List ℕ) → equal_texts xs ys ≡ true → xs ≡ ys
unfolding equal_texts
equal_texts-eq [] [] e = refl
equal_texts-eq [] (y ∷ ys) e = cc
equal_texts-eq (x ∷ xs) [] e = cc
equal_texts-eq (x ∷ xs) (y ∷ ys) e = ground (arith, equal_texts-eq xs ys)

verify_chip-IsForChip :
    (c : Cfg) (p : Pins) (hdr : List ℕ) (h : Host)
    → Ensures (λ verdict h'. verdict ≡ true → IsForChip c p hdr h') (verify_chip c p hdr h)
unfolding verify_chip
verify_chip-IsForChip c p hdr h = Ensures-any (bring_up c p) _ h (λ ready h₁.
    Ensures-if (not ready) _ _ h₁ (returns (λ e. cc)) (
      Ensures->>= (ezsp_cmd c p ezsp_get_bootloader_version [] 16) _ h₁
        (Ensures-all (ezsp_cmd c p ezsp_get_bootloader_version [] 16 h₁) (λ r h₂ e. e))
        (λ r h₂ e. returns (λ verdict. judged r h₁ h₂ e verdict))))
  where
    judged :
        (r : Option (List ℕ)) (h₁ h₂ : Host)
        → ezsp_cmd c p ezsp_get_bootloader_version [] 16 h₁ ≡ ok r h₂
        → chip_matches hdr r ≡ true
        → IsForChip c p hdr h₂
    judged none h₁ h₂ e verdict = unfold chip_matches in cc
    judged (some out) h₁ h₂ e verdict =
        unfold chip_matches same_chip in
        record {
          before = h₁;
          reply = out;
          asked = e;
          whole = ground (arith, verdict);
          platform = ground (arith, verdict);
          micro = ground (arith, verdict);
          phy = ground (arith, verdict);
        }

is_ebl-signature :
    (hdr : List ℕ) → is_ebl hdr ≡ true → equal_texts (bytes_at hdr 4 4) ebl_sig ≡ true
unfolding is_ebl
is_ebl-signature hdr e = e

verify_run-IsSafe :
    (c : Cfg) (p : Pins) (file : Option (List ℕ)) (h : Host)
    → Ensures (λ verdict h'. verdict ≡ true → IsSafe c p file h') (cmd_verify c p file h)
unfolding cmd_verify
verify_run-IsSafe c p none h = dies
verify_run-IsSafe c p (some hdr) h = elim (Bool-cases (ltb (length hdr) 0x40)) [
  | inl short ↦ Ensures-then (ltb (length hdr) 0x40) _ _ h short dies
  | inr whole ↦ Ensures-else (ltb (length hdr) 0x40) _ _ h whole (elim (Bool-cases (is_ebl hdr)) [
    | inr other ↦ rw other (returns (λ e. cc))
    | inl ebl ↦ rw ebl (
        Ensures-after (verify_chip c p hdr h) (verify_chip-IsForChip c p hdr h)
          (λ verdict h' chip e. record {
            hdr = hdr;
            opened = refl;
            long_enough = ground (arith, whole);
            signature = equal_texts-eq (bytes_at hdr 4 4) ebl_sig (is_ebl-signature hdr ebl);
            chip = chip e;
          }))
  ])
]

-- When the verify command calls an image safe to flash, the file has a whole header with the
-- signature of an EM35x image, and the last thing that was asked of the NCP was answered with the
-- platform, micro and phy of that header.
pub cmd_verify-IsSafe :
    (c : Cfg) (p : Pins) (file : Option (List ℕ)) (h : Host) {h' : Host}
    → cmd_verify c p file h ≡ ok true h'
    → IsSafe c p file h'
cmd_verify-IsSafe c p file h e = Ensures-ok (verify_run-IsSafe c p file h) e refl
