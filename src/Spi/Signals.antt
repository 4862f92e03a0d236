-- ===== src/Spi/Signals.antt =====
-- What one transaction of `spi_txn_framed` does to the lines, whatever the NCP answers.
use openwrt_ezsp_spi.Prelude.{
  ℕ, zero, suc, ◌≡◌, refl, ap, ◌∙◌, Bool, true, false, Option, none, some, List, [], ◌∷◌, ◌++◌, All,
  All-append, arith, append_assoc, ◌==◌, ◌!=◌, if◌then◌else◌, length, sym, replicate, is_some, ltb,
  leb,
}
use openwrt_ezsp_spi.Config.{Cfg, Pins, spi_idle, spi_cmd_ezsp_frame, spi_err_unsupported}
use openwrt_ezsp_spi.Host.{
  Host, Outcome, ok, died, M, pure, ◌>>=◌, ◌>>◌, ioctl, gpio_set, spi_raw, Action, drive, clock,
  pause,
}
use openwrt_ezsp_spi.Host.Run.{
  memory, Ensures, returns, dies, Ensures-all, Ensures->>=, Ensures-ok, Ensures-after, Ensures-if,
}
use openwrt_ezsp_spi.Spi.{
  drive_if, cs_assert, cs_release, spi_byte, wait_states, frame_head, response_head, clamp_remain,
  finish, collect, no_response, send_command, spi_txn_framed,
}

abbrev pub IsClock : Action → Type 0
IsClock (drive line v) = ⊥
IsClock (clock tx keep) = Unit
IsClock (pause us) = ⊥

-- From `h` to `h'` the bus was clocked and nothing else was done.
pub record Clocked (h h' : Host) : Type 0 where
  pub actions : List Action
  pub logged : h'.wire ≡ actions ++ h.wire
  pub clocks : All IsClock actions
  pub same_memory : memory h' ≡ memory h

Clocked-refl : (h : Host) → Clocked h h
Clocked-refl h = record { actions = []; logged = refl; clocks = tt; same_memory = refl }

pub Clocked-trans : {a b c : Host} → Clocked a b → Clocked b c → Clocked a c
Clocked-trans {a} p q = record {
  actions = q.actions ++ p.actions;
  logged =
      q.logged ∙ ap (λ t. q.actions ++ t) p.logged ∙ sym (append_assoc q.actions p.actions a.wire);
  clocks = All-append IsClock q.actions p.actions q.clocks p.clocks;
  same_memory = q.same_memory ∙ p.same_memory;
}

-- The monadic form: every result of the step was reached by clocking alone.
abbrev pub Clocking {ℓ} : {A : Type ℓ} → M A → Type ℓ
Clocking {A} m = (h : Host) → Ensures (λ (a : A) h'. Clocked h h') (m h)

module _ {ℓ κ} {A : Type ℓ} {B : Type κ} where
  Clocking->>= :
      (m : M A) (f : A → M B) → Clocking m → ((a : A) → Clocking (f a)) → Clocking (m >>= f)
  Clocking->>= m f c k h = Ensures->>= m f h (c h) (λ a h' e. Ensures_map (f a h') (k a h') e)
    where
      Ensures_map :
          {h h' : Host} (o : Outcome B)
          → Ensures (λ (b : B) h''. Clocked h' h'') o
          → Clocked h h'
          → Ensures (λ (b : B) h''. Clocked h h'') o
      Ensures_map (ok b h'') (returns q) e = returns (Clocked-trans e q)
      Ensures_map died dies e = dies

pure-Clocking {ℓ} : {A : Type ℓ} (a : A) → Clocking (pure a)
pure-Clocking a h = returns (Clocked-refl h)

pub spi_raw-Clocking : (tx : List ℕ) (keep : Bool) → Clocking (spi_raw tx keep)
spi_raw-Clocking tx keep h = Ensures-all (spi_raw tx keep h) λ a h' e. record {
  actions = clock tx keep ∷ [];
  logged = wire_of e;
  clocks = (tt, tt);
  same_memory = memory_of e;
}
  where
    wire_of :
        {a : List ℕ} {h' : Host} → spi_raw tx keep h ≡ ok a h' → h'.wire ≡ clock tx keep ∷ h.wire
    wire_of e = unfold spi_raw ioctl in ground arith

    memory_of : {a : List ℕ} {h' : Host} → spi_raw tx keep h ≡ ok a h' → memory h' ≡ memory h
    memory_of e = unfold spi_raw ioctl in ground arith

if-Clocking {ℓ} :
    {A : Type ℓ} (b : Bool) (m n : M A) → Clocking m → Clocking n → Clocking (if b then m else n)
if-Clocking true m n p q = p
if-Clocking false m n p q = q

spi_byte-Clocking : Clocking spi_byte
unfolding spi_byte
spi_byte-Clocking =
    Clocking->>= (spi_raw (spi_idle ∷ []) true) _ (spi_raw-Clocking (spi_idle ∷ []) true)
      (λ r. pure-Clocking _)

pub wait_states-Clocking : (n : ℕ) → Clocking (wait_states n)
unfolding wait_states
wait_states-Clocking zero = pure-Clocking spi_idle
wait_states-Clocking (suc n) = Clocking->>= spi_byte _ spi_byte-Clocking (λ b.
    if-Clocking (b == spi_idle) (wait_states n) (pure b) (wait_states-Clocking n) (pure-Clocking b))

frame_head-Clocking : (b : ℕ) → Clocking (frame_head b)
unfolding frame_head
frame_head-Clocking b = Clocking->>= spi_byte _ spi_byte-Clocking (λ len. pure-Clocking _)

pub response_head-Clocking : (rxlen b : ℕ) → Clocking (response_head rxlen b)
unfolding response_head
response_head-Clocking rxlen b =
    if-Clocking (b == spi_cmd_ezsp_frame) _ _
      (if-Clocking (ltb 1 rxlen) (frame_head b) _ (frame_head-Clocking b) (pure-Clocking _))
      (if-Clocking (leb b spi_err_unsupported) _ _ (pure-Clocking _) (pure-Clocking _))

pub finish-Clocking : (p : Pins) (rx : List ℕ) (remain : ℕ) → Clocking (finish p rx remain)
unfolding finish
finish-Clocking p rx remain =
    if-Clocking (remain != 0) _ _
      (Clocking->>= (spi_raw (replicate remain spi_idle) (is_some p.cs)) _ (spi_raw-Clocking _ _)
        (λ xs. pure-Clocking _))
      (if-Clocking (is_some p.cs) _ _ (pure-Clocking rx) (
        Clocking->>= (spi_raw (spi_idle ∷ []) false) _ (spi_raw-Clocking _ _)
          (λ xs. pure-Clocking rx)))

pub send_command-Clocking : (tx : List ℕ) → Clocking (send_command tx)
unfolding send_command
send_command-Clocking tx =
    if-Clocking (length tx != 0) _ _
      (Clocking->>= (spi_raw tx true) _ (spi_raw-Clocking tx true) (λ r. pure-Clocking tt))
      (pure-Clocking tt)

-- What `cs_assert` (`v` low) and `cs_release` (`v` high) do, newest first: nSSEL, then nSSEL_INT
-- where it follows.
abbrev follower : Bool → Option ℕ → Bool → List Action
follower false o v = []
follower true none v = []
follower true (some line) v = drive line v ∷ []

abbrev pub moved : Pins → Bool → List Action
moved p v = follower p.follows p.nssel_int v ++ follower true p.cs v

-- The state after a move of one line or of both.
pub record Moved (ws : List Action) (h h' : Host) : Type 0 where
  pub logged : h'.wire ≡ ws ++ h.wire
  pub same_memory : memory h' ≡ memory h

drive_if-Moved :
    (h : Host) (flag : Bool) (o : Option ℕ) (v : Bool)
    → Ensures (λ _ h'. Moved (follower flag o v) h h') (drive_if flag o v h)
unfolding drive_if
drive_if-Moved h true none v = returns (record { logged = refl; same_memory = refl })
drive_if-Moved h false none v = returns (record { logged = refl; same_memory = refl })
drive_if-Moved h false (some line) v = returns (record { logged = refl; same_memory = refl })
drive_if-Moved h true (some line) v =
    Ensures-all (gpio_set line v h)
      (λ a h' e. record { logged = wire_of e; same_memory = memory_of e })
  where
    wire_of :
        {a : Unit {0}} {h' : Host} → gpio_set line v h ≡ ok a h' → h'.wire ≡ drive line v ∷ h.wire
    wire_of e = unfold gpio_set ioctl in ground arith

    memory_of : {a : Unit {0}} {h' : Host} → gpio_set line v h ≡ ok a h' → memory h' ≡ memory h
    memory_of e = unfold gpio_set ioctl in ground arith

Moved-trans :
    {a b c : Host} (vs ws : List Action) → Moved vs a b → Moved ws b c → Moved (ws ++ vs) a c
Moved-trans {a} vs ws p q = record {
  logged = q.logged ∙ ap (λ t. ws ++ t) p.logged ∙ sym (append_assoc ws vs a.wire);
  same_memory = q.same_memory ∙ p.same_memory;
}

drive_both-Moved :
    (p : Pins) (v : Bool) (h : Host)
    → Ensures
        (λ _ h'. Moved (moved p v) h h')
        ((do drive_if true p.cs v; drive_if p.follows p.nssel_int v) h)
drive_both-Moved p v h =
    Ensures->>= (drive_if true p.cs v) (λ _. drive_if p.follows p.nssel_int v) h
      (drive_if-Moved h true p.cs v)
      (λ _ h' q.
        Ensures-after _ (drive_if-Moved h' p.follows p.nssel_int v)
          (λ _ h'' r. Moved-trans (follower true p.cs v) (follower p.follows p.nssel_int v) q r))

pub cs_assert-Moved :
    (p : Pins) (h : Host) → Ensures (λ _ h'. Moved (moved p false) h h') (cs_assert p h)
unfolding cs_assert
cs_assert-Moved p h = drive_both-Moved p false h

pub cs_release-Moved :
    (p : Pins) (h : Host) → Ensures (λ _ h'. Moved (moved p true) h h') (cs_release p h)
unfolding cs_release
cs_release-Moved p h = drive_both-Moved p true h

-- A transaction: the lines fall, the bus is clocked, the lines rise; nothing else happens.
pub record IsFramed (p : Pins) (h h' : Host) : Type 0 where
  pub clocked : List Action
  pub logged : h'.wire ≡ moved p true ++ (clocked ++ (moved p false ++ h.wire))
  pub clocks : All IsClock clocked
  pub same_memory : memory h' ≡ memory h

released :
    {p : Pins} {a b c d : Host}
    → Moved (moved p false) a b
    → Clocked b c
    → Moved (moved p true) c d
    → IsFramed p a d
released {p} x y z = record {
  clocked = y.actions;
  logged = z.logged ∙ ap (λ t. moved p true ++ t) (y.logged ∙ ap (λ t. y.actions ++ t) x.logged);
  clocks = y.clocks;
  same_memory = z.same_memory ∙ y.same_memory ∙ x.same_memory;
}

collect-IsFramed :
    (p : Pins) (rxlen b : ℕ) (a h₀ h : Host)
    → Moved (moved p false) a h₀
    → Clocked h₀ h
    → Ensures (λ (rx : List ℕ) h'. IsFramed p a h') (collect p rxlen b h)
unfolding collect
collect-IsFramed p rxlen b a h₀ h mv ck =
    Ensures->>= (response_head rxlen b) _ h (response_head-Clocking rxlen b h) (λ head h₁ c₁.
      Ensures->>= (finish p head.0 (clamp_remain rxlen (length head.0) head.1)) _ h₁
        (finish-Clocking p head.0 (clamp_remain rxlen (length head.0) head.1) h₁)
        (λ rx h₂ c₂.
          Ensures->>= (cs_release p) (λ _. pure rx) h₂ (cs_release-Moved p h₂)
            (λ _ h₃ z. returns (released mv (Clocked-trans ck (Clocked-trans c₁ c₂)) z))))

no_response-IsFramed :
    (p : Pins) (a h₀ h : Host)
    → is_some p.cs ≡ true
    → Moved (moved p false) a h₀
    → Clocked h₀ h
    → Ensures (λ (rx : List ℕ) h'. IsFramed p a h') (no_response p h)
unfolding no_response
no_response-IsFramed p a h₀ h own mv ck =
    rw (own, no_response)
      (Ensures->>= (cs_release p) (λ _. pure []) h (cs_release-Moved p h)
        (λ _ h₃ z. returns (released mv ck z)))

-- Where the host owns chip select, every transaction that returns has lowered it (with nSSEL_INT,
-- where that follows), clocked the bus, and raised it again: between the two it did nothing but
-- clock. It wrote nothing to the client and left the program's counters alone. That holds for any
-- answer of the NCP, with or without a response.
pub txn-IsFramed :
    (c : Cfg) (p : Pins) (tx : List ℕ) (rxlen : ℕ) (h : Host) {rx : List ℕ} {h' : Host}
    → is_some p.cs ≡ true
    → spi_txn_framed c p tx rxlen h ≡ ok rx h'
    → IsFramed p h h'
txn-IsFramed c p tx rxlen h own e = Ensures-ok run e
  where
    run : Ensures (λ (rx : List ℕ) h'. IsFramed p h h') (spi_txn_framed c p tx rxlen h)
    run =
        unfold spi_txn_framed in
        Ensures->>= (cs_assert p) _ h (cs_assert-Moved p h) (λ _ h₁ mv.
          Ensures->>= (send_command tx) _ h₁ (send_command-Clocking tx h₁) (λ _ h₂ c₂.
            Ensures->>= (wait_states c.wait_bytes) _ h₂ (wait_states-Clocking c.wait_bytes h₂)
              (λ b h₃ c₃.
                Ensures-if (b == spi_idle) (no_response p) (collect p rxlen b) h₃
                  (no_response-IsFramed p h h₁ h₃ own mv (Clocked-trans c₂ c₃))
                  (collect-IsFramed p rxlen b h h₁ h₃ mv (Clocked-trans c₂ c₃)))))
