-- ===== src/Host/Run.antt =====
-- How to reason about runs of the process: every outcome (`Ensures`), or a run whose ioctls all
-- succeed (`Reads`), which consumes a known piece of what the NCP shifts out.
use openwrt_ezsp_spi.Prelude.{
  ℕ, zero, suc, ◌≡◌, refl, ap, ◌∙◌, Bool, true, false, if◌then◌else◌, none, List, [], ◌∷◌, ◌++◌,
  length, drop, drop-append, arith, subst,
}
use openwrt_ezsp_spi.Host.{
  Host, NetAction, Outcome, ok, died, M, pure, ◌>>=◌, ioctl, gpio_set, spi_raw, shifted, clock,
}

-- What only the code above the commands changes: the client's log and the counters in memory.
pub record Memory : Type 0 where
  pub net : List NetAction
  pub ezsp_version : ℕ
  pub seq : ℕ
  pub tag : ℕ
  pub report_count : ℕ
  pub report_failed : ℕ

abbrev pub memory : Host → Memory
memory h = record {
  net = h.net;
  ezsp_version = h.ezsp_version;
  seq = h.seq;
  tag = h.tag;
  report_count = h.report_count;
  report_failed = h.report_failed;
}

-- `Q` holds of the result and the state, if the process has not died.
pub data Ensures {ℓ κ} {A : Type ℓ} (Q : A → Host → Type κ) : Outcome A → Type (ℓ ⊔ κ) where
  returns : {a : A} {h : Host} → Q a h → Ensures Q (ok a h)
  dies : Ensures Q died

abbrev At {ℓ κ} : {A : Type ℓ} → (A → Host → Type κ) → Outcome A → Type κ
At Q (ok a h) = Q a h
At Q died = Unit

module _ {ℓ κ} {A : Type ℓ} {Q : A → Host → Type κ} where
  Ensures-At : {o : Outcome A} → Ensures Q o → At Q o
  Ensures-At (returns q) = q
  Ensures-At dies = tt

  pub Ensures-ok : {o : Outcome A} {a : A} {h : Host} → Ensures Q o → o ≡ ok a h → Q a h
  Ensures-ok e eq = subst (At Q) eq (Ensures-At e)

  pub Ensures-all : (o : Outcome A) → ((a : A) (h : Host) → o ≡ ok a h → Q a h) → Ensures Q o
  Ensures-all (ok a h) all = returns (all a h refl)
  Ensures-all died all = dies

module _ {ℓ κ μ ν} {A : Type ℓ} {B : Type κ} {P : A → Host → Type μ} {Q : B → Host → Type ν} where
  pub Ensures->>= :
      (m : M A) (f : A → M B) (h : Host)
      → Ensures P (m h)
      → ((a : A) (h' : Host) → P a h' → Ensures Q (f a h'))
      → Ensures Q ((m >>= f) h)
  Ensures->>= m f h e k = go (m h) e
    where
      go : (o : Outcome A) → Ensures P o → Ensures Q (elim o [ ok a h' ↦ f a h' | died ↦ died ])
      go (ok a h') (returns q) = k a h' q
      go died dies = dies

-- Nothing is known of the first step.
pub Ensures-any {ℓ κ μ} :
    {A : Type ℓ} {B : Type κ} {Q : B → Host → Type μ} (m : M A) (f : A → M B) (h : Host)
    → ((a : A) (h' : Host) → Ensures Q (f a h'))
    → Ensures Q ((m >>= f) h)
Ensures-any m f h k =
    Ensures->>= {P = λ _ _. Unit {0}} m f h (Ensures-all (m h) (λ _ _ _. tt)) (λ a h' _. k a h')

pub Ensures-after {ℓ κ μ} :
    {A : Type ℓ} {P : A → Host → Type κ} {Q : A → Host → Type μ} (o : Outcome A)
    → Ensures P o
    → ((a : A) (h : Host) → P a h → Q a h)
    → Ensures Q o
Ensures-after (ok a h) (returns p) f = returns (f a h p)
Ensures-after died dies f = dies

pub Ensures-if {ℓ κ} :
    {A : Type ℓ} {Q : A → Host → Type κ} (b : Bool) (m n : M A) (h : Host)
    → Ensures Q (m h)
    → Ensures Q (n h)
    → Ensures Q ((if b then m else n) h)
Ensures-if true m n h p q = p
Ensures-if false m n h p q = q

pub Ensures-else {ℓ κ} :
    {A : Type ℓ} {Q : A → Host → Type κ} (b : Bool) (m n : M A) (h : Host)
    → b ≡ false
    → Ensures Q (n h)
    → Ensures Q ((if b then m else n) h)
Ensures-else b m n h e q = rw e q

pub Ensures-then {ℓ κ} :
    {A : Type ℓ} {Q : A → Host → Type κ} (b : Bool) (m n : M A) (h : Host)
    → b ≡ true
    → Ensures Q (m h)
    → Ensures Q ((if b then m else n) h)
Ensures-then b m n h e q = rw e q

-- From `h` the run returns `a`, no ioctl fails in it, and `rest` is still to be shifted out.
pub record Reads {ℓ} {A : Type ℓ} (o : Outcome A) (a : A) (rest : List ℕ) : Type ℓ where
  pub after : Host
  pub result : o ≡ ok a after
  pub left : after.miso ≡ rest
  pub alive : after.dies ≡ none

module _ {ℓ κ} {A : Type ℓ} {B : Type κ} where
  pub Reads-then :
      (m : M A) (f : A → M B) (h : Host) {a : A} {b : B} {xs ys : List ℕ} (r : Reads (m h) a xs)
      → Reads (f a r.after) b ys
      → Reads ((m >>= f) h) b ys
  Reads-then m f h r s = record {
    after = s.after;
    result = ap (λ o. elim o [ ok a h' ↦ f a h' | died ↦ died ]) r.result ∙ s.result;
    left = s.left;
    alive = s.alive;
  }

  pub Reads->>= :
      (m : M A) (f : A → M B) (h : Host) {a : A} {b : B} {xs ys : List ℕ}
      → Reads (m h) a xs
      → ((h' : Host) → h'.miso ≡ xs → h'.dies ≡ none → Reads (f a h') b ys)
      → Reads ((m >>= f) h) b ys
  Reads->>= m f h r k = Reads-then m f h r (k r.after r.left r.alive)

pub pure-Reads {ℓ} :
    {A : Type ℓ} (a : A) (h : Host) {xs : List ℕ}
    → h.miso ≡ xs
    → h.dies ≡ none
    → Reads (pure a h) a xs
pure-Reads a h m d = record { after = h; result = refl; left = m; alive = d }

ioctl-Reads : (h : Host) {xs : List ℕ} → h.miso ≡ xs → h.dies ≡ none → Reads (ioctl h) tt xs
unfolding ioctl
ioctl-Reads h m d = record { after = h; result = ground arith; left = m; alive = d }

pub gpio_set-Reads :
    (line : ℕ) (v : Bool) (h : Host) {xs : List ℕ}
    → h.miso ≡ xs
    → h.dies ≡ none
    → Reads (gpio_set line v h) tt xs
unfolding gpio_set
gpio_set-Reads line v h m d =
    Reads->>= ioctl _ h (ioctl-Reads h m d)
      (λ h' m' d'. record { after = _; result = refl; left = m'; alive = d' })

shifted-append : (xs ys : List ℕ) → shifted (length xs) (xs ++ ys) ≡ xs
shifted-append [] ys = refl
shifted-append (x ∷ xs) ys = ap (λ t. x ∷ t) (shifted-append xs ys)

-- As many bytes come in as go out.
pub spi_raw-Reads :
    (tx : List ℕ) (keep : Bool) (h : Host) (xs : List ℕ) {ys : List ℕ}
    → length xs ≡ length tx
    → h.miso ≡ xs ++ ys
    → h.dies ≡ none
    → Reads (spi_raw tx keep h) xs ys
unfolding spi_raw
spi_raw-Reads tx keep h xs {ys} n m d = Reads->>= ioctl _ h (ioctl-Reads h m d) (λ h' m' d'.
    record {
      after = record h' { miso = drop (length tx) h'.miso; wire = clock tx keep ∷ h'.wire };
      result = rw (← n, m', shifted-append xs ys);
      left = rw (← n, m') (drop-append xs ys);
      alive = d';
    })

length-shifted : (n : ℕ) (xs : List ℕ) → length (shifted n xs) ≡ n
length-shifted zero xs = refl
length-shifted (suc n) [] = ap suc (length-shifted n [])
length-shifted (suc n) (x ∷ xs) = ap suc (length-shifted n xs)

pub spi_raw-length :
    (tx : List ℕ) (keep : Bool) (h : Host)
    → Ensures (λ xs h'. length xs ≡ length tx) (spi_raw tx keep h)
unfolding spi_raw
spi_raw-length tx keep h =
    Ensures->>= {P = λ _ _. Unit {0}} ioctl _ h (Ensures-all (ioctl h) (λ _ _ _. tt))
      (λ _ h' _. returns (length-shifted (length tx) h'.miso))
