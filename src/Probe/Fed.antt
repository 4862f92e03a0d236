-- ===== src/Probe/Fed.antt =====
-- A command that gets an answer has taken something from the NCP (package/ezsp-spi/src/spi.c,
-- probe.c).
use openwrt_ezsp_spi.Prelude.{
  ℕ, zero, suc, ◌≤◌, ◌<◌, ◌≡◌, ◌⊎◌, inl, inr, refl, sym, ap, ◌∙◌, true, false, ◌&&◌, is_some, List,
  [], ◌∷◌, length, ◌==◌, ◌!=◌, get_or, arith,
}
use openwrt_ezsp_spi.Config.{Cfg, Pins, spi_idle}
use openwrt_ezsp_spi.Host.{Host, M, pure, spi_raw}
use openwrt_ezsp_spi.Host.Run.{
  Ensures, returns, Ensures-all, Ensures-ok, Ensures->>=, Ensures-after, Ensures-if, Ensures-then,
  Ensures-else, Ensures-any,
}
use openwrt_ezsp_spi.Host.Eats.{IsLeft, eating, spi_raw_takes, spi_raw_idle}
use openwrt_ezsp_spi.Spi.{
  cs_assert, cs_release, spi_byte, wait_states, collect, no_response, send_command, spi_txn_framed,
}
use openwrt_ezsp_spi.Spi.Steps.{cs_assert-Holds, send_command-Holds, no_response-Holds, rest-Holds}
use openwrt_ezsp_spi.Probe.{classify, is_reset, is_ezsp, prepare, attempt, do_cmd}
use openwrt_ezsp_spi.Probe.Steps.{prepare-Holds, attempt-Holds}

pub nil_of : (xs : List ℕ) → length xs ≤ 0 → xs ≡ []
nil_of [] le = refl
nil_of (x ∷ xs) le = absurd (omega arith)

empty_or : (xs : List ℕ) → (xs ≡ []) ⊎ (0 < length xs)
empty_or [] = inl refl
empty_or (x ∷ xs) = inr (omega arith)

-- What both hold of: the strong and the weak part.
both :
    {A : Type 0} {P Q : A → Host → Type 0} (m : M A) (h : Host)
    → Ensures P (m h)
    → Ensures Q (m h)
    → Ensures (λ a h'. P a h' × Q a h') (m h)
both m h p q = Ensures-all (m h) (λ a h' e. (Ensures-ok p e, Ensures-ok q e))

spi_byte_idle :
    (h : Host) → h.miso ≡ [] → Ensures (λ b h'. (b ≡ spi_idle) × (h'.miso ≡ [])) (spi_byte h)
unfolding spi_byte
spi_byte_idle h empty =
    Ensures->>= (spi_raw (spi_idle ∷ []) true) _ h
      (both (spi_raw (spi_idle ∷ []) true) h (spi_raw_idle (spi_idle ∷ []) true h empty)
        (eating.of_spi_raw (spi_idle ∷ []) true h))
      (λ r h' e.
        returns
          (ap (λ t. get_or t 0 spi_idle) (e.0), nil_of _ (omega (arith, e.1, ap length empty))))

wait_states_idle :
    (n : ℕ) (h : Host)
    → h.miso ≡ []
    → Ensures (λ b h'. (b ≡ spi_idle) × (h'.miso ≡ [])) (wait_states n h)
unfolding wait_states
wait_states_idle zero h empty = returns (refl, empty)
wait_states_idle (suc n) h empty = Ensures->>= spi_byte _ h (spi_byte_idle h empty) (λ b h₁ e.
    Ensures-then (b == spi_idle) (wait_states n) (pure b) h₁ (ap (λ t. t == spi_idle) (e.0))
      (wait_states_idle n h₁ (e.1)))

no_response-nil : (p : Pins) (h : Host) → Ensures (λ rx h'. rx ≡ []) (no_response p h)
unfolding no_response
no_response-nil p h =
    Ensures-if (is_some p.cs) _ _ h
      (Ensures-any (cs_release p) (λ _. pure []) h (λ _ h₁. returns refl))
      (Ensures-any (spi_raw (spi_idle ∷ []) false) _ h (λ b h₁. returns refl))

send_command_takes :
    (tx : List ℕ) (h : Host)
    → 0 < length tx
    → 0 < length h.miso
    → Ensures (λ _ h'. length h'.miso < length h.miso) (send_command tx h)
unfolding send_command
send_command_takes tx h some_out some_in = Ensures-then (length tx != 0) _ _ h (ground arith) (
    Ensures->>= (spi_raw tx true) _ h (spi_raw_takes tx true h some_out some_in)
      (λ r h' lt. returns lt))

-- Either something was taken, or nothing came in.
abbrev pub Fed : Host → List ℕ → Host → Type 0
Fed h rx h' = (length h'.miso < length h.miso) ⊎ ((rx ≡ []) × IsLeft h h')

txn-Fed :
    (c : Cfg) (p : Pins) (tx : List ℕ) (rxlen : ℕ) (h : Host)
    → 0 < length tx
    → Ensures (Fed h) (spi_txn_framed c p tx rxlen h)
unfolding spi_txn_framed
txn-Fed c p tx rxlen h pos = Ensures->>= (cs_assert p) _ h (cs_assert-Holds eating p h) (λ _ h₁ le.
    elim (empty_or h₁.miso) [
      | inr some_in ↦
          Ensures->>= (send_command tx) _ h₁ (send_command_takes tx h₁ pos some_in) (λ _ h₂ lt.
            Ensures-after _ (rest-Holds eating c p rxlen h₂) (λ rx h₃ le'. inl (omega arith)))
      | inl empty ↦
          Ensures->>= (send_command tx) _ h₁ (send_command-Holds eating tx h₁) (λ _ h₂ le₂.
            Ensures->>= (wait_states c.wait_bytes) _ h₂
              (wait_states_idle c.wait_bytes h₂ (nil_of h₂.miso (omega (arith, ap length empty))))
              (λ b h₃ e.
                Ensures-then (b == spi_idle) (no_response p) (collect p rxlen b) h₃
                  (ap (λ t. t == spi_idle) (e.0))
                  (Ensures-after _
                    (both (no_response p) h₃ (no_response-nil p h₃) (no_response-Holds eating p h₃))
                    (λ rx h₄ q. inr (q.0, omega (arith, q.1, ap length (e.1)))))))
    ])

attempt-Fed :
    (c : Cfg) (p : Pins) (tx : List ℕ) (rxlen : ℕ) (h : Host)
    → 0 < length tx
    → Ensures (Fed h) (attempt c p tx rxlen h)
unfolding attempt
attempt-Fed c p tx rxlen h pos =
    Ensures->>= (prepare c p) (λ _. spi_txn_framed c p tx rxlen) h (prepare-Holds eating c p h)
      (λ _ h₁ le. Ensures-after _ (txn-Fed c p tx rxlen h₁ pos) (λ rx h₂ fed. elim fed [
        | inl lt ↦ inl (omega arith)
        | inr (nil, le') ↦ inr (nil, omega arith)
      ]))

idle_class : (rx : List ℕ) → rx ≡ [] → (is_reset (classify rx).0 && true) ≡ false
unfolding classify is_reset
idle_class rx nil = rw nil refl

not_ezsp : (rx : List ℕ) → rx ≡ [] → is_ezsp (classify rx).0 ≡ true → ⊥
unfolding classify is_ezsp
not_ezsp rx nil e = false-ne-true (sym (ap (λ t. is_ezsp (classify t).0) nil) ∙ e)
  where
    false-ne-true : false ≡ true → ⊥
    false-ne-true x = cc

-- An EZSP response costs the NCP at least a byte.
pub do_cmd-Fed :
    (c : Cfg) (p : Pins) (tx : List ℕ) (rxlen : ℕ) (h : Host)
    → 0 < length tx
    → Ensures
        (λ r h'. (is_ezsp (r.0) ≡ true → length h'.miso < length h.miso) × IsLeft h h')
        (do_cmd c p tx rxlen true h)
unfolding do_cmd
do_cmd-Fed c p tx rxlen h pos =
    Ensures->>= (attempt c p tx rxlen) _ h (attempt-Fed c p tx rxlen h pos) (λ rx h₁ fed. elim fed [
      | inr (nil, le) ↦
          Ensures-else (is_reset (classify rx).0 && true) _ _ h₁ (idle_class rx nil)
            (returns (λ e. absurd (not_ezsp rx nil e), le))
      | inl lt ↦
          Ensures-if (is_reset (classify rx).0 && true) _ _ h₁
            (Ensures->>= (attempt c p tx rxlen) (λ rx'. pure ((classify rx').0, rx')) h₁
              (attempt-Holds eating c p tx rxlen h₁)
              (λ rx' h₂ le. returns (λ _. omega arith, omega arith)))
            (returns (λ _. lt, omega arith))
    ])
