-- ===== src/Board/Lines.antt =====
-- Which lines `pins_open` (package/ezsp-spi/src/board.c) drives, and the one that it must not.
use openwrt_ezsp_spi.Prelude.{
  ℕ, ◌≡◌, ◌≢◌, ◌⊎◌, refl, sym, subst, ap, ◌∙◌, Bool, true, false, ◌&&◌, not, Bool-cases, inl, inr,
  Option, none, some, List, [], ◌∷◌, ◌++◌, All, All-append, ◌==◌, ◌!=◌, arith,
}
use mathlib.Core.Option.{none-ne-some}
use openwrt_ezsp_spi.Config.{Pins}
use openwrt_ezsp_spi.Board.{
  Board, board_detect, contains, first_match, Settings, with_board, is_input, pins_autodetect,
  Kernel, Requested, request_output, open_nssel_int, open_cs, open_rest, open_lines, open_detected,
  pins_open, starts_high, is_follow, velop_v1, velop_v2,
}

-- Every line but nSSEL_INT is another one than `f`; so is nSSEL_INT, where it is driven.
record IsClear (f : ℕ) (s : Settings) : Type 0 where
  reset : s.reset_line ≢ f
  wake : s.wake_line ≢ f
  nssel : s.cs_line ≢ f
  nssel_int : is_input s.mode ≡ false → s.nssel_int_line ≢ f

abbrev pub Avoids : ℕ → Requested → Type 0
Avoids f = All (λ r. r.0 ≢ f)

open_nssel_int-Avoids :
    (f : ℕ) (k : Kernel) (s : Settings)
    → (is_input s.mode ≡ false → s.nssel_int_line ≢ f)
    → Avoids f (open_nssel_int k s).1
unfolding open_nssel_int
open_nssel_int-Avoids f k s ok = elim (Bool-cases (is_input s.mode)) [
  | inl alone ↦ rw (alone, open_nssel_int) tt
  | inr driven ↦ rw (driven, open_nssel_int) (go (request_output k s.nssel_int_line) (ok driven))
]
  where
    go :
        (o : Option ℕ)
        → s.nssel_int_line ≢ f
        → Avoids f
            (elim o as (λ _. Option (Option ℕ) × Requested) [
              | none ↦ (none, [])
              | some fd ↦ (some (some fd), (s.nssel_int_line, starts_high s.mode) ∷ [])
            ]).1
    go none ne = tt
    go (some fd) ne = (ne, tt)

open_cs-Avoids : (f : ℕ) (k : Kernel) (s : Settings) → s.cs_line ≢ f → Avoids f (open_cs k s).1
unfolding open_cs
open_cs-Avoids f k s ne = elim (Bool-cases (s.cs_line != 0)) [
  | inl asked ↦ rw (asked, open_cs) (go (k.output s.cs_line))
  | inr none_asked ↦ rw (none_asked, open_cs) tt
]
  where
    go :
        (o : Option ℕ)
        → Avoids f
            (elim o as (λ _. Option ℕ × Requested) [
              | none ↦ (none, [])
              | some fd ↦ (some fd, (s.cs_line, true) ∷ [])
            ]).1
    go none = tt
    go (some fd) = (ne, tt)

module _ (f : ℕ) (k : Kernel) (s : Settings) (ok : IsClear f s) where
  open_rest-Avoids : (nreset nwake : ℕ) → Avoids f (open_rest k s nreset nwake).1
  unfolding open_rest
  open_rest-Avoids nreset nwake = go (open_nssel_int k s).0
    where
      go :
          (o : Option (Option ℕ))
          → Avoids f
              (elim o as (λ _. Option Pins × Requested) [
                | none ↦ (none, (open_nssel_int k s).1)
                | some nssel_int ↦ (
                  some (record {
                    nreset = nreset;
                    nwake = nwake;
                    nssel_int = nssel_int;
                    cs = (open_cs k s).0;
                    hint = k.edges s.int_line;
                    follows = is_follow s.mode;
                  }),
                  (open_nssel_int k s).1 ++ (open_cs k s).1,
                )
              ]).1
      go none = open_nssel_int-Avoids f k s ok.nssel_int
      go (some o) =
          All-append (λ (r : ℕ × Bool). r.0 ≢ f) (open_nssel_int k s).1 (open_cs k s).1
            (open_nssel_int-Avoids f k s ok.nssel_int) (open_cs-Avoids f k s ok.nssel)

  open_lines-Avoids : Avoids f (open_lines k s).1
  unfolding open_lines
  open_lines-Avoids = go (request_output k s.reset_line) (request_output k s.wake_line)
    where
      go :
          (o o' : Option ℕ)
          → Avoids f
              (elim o as (λ _. Option Pins × Requested) [
                | none ↦ (none, [])
                | some nreset ↦ elim o' as (λ _. Option Pins × Requested) [
                  | none ↦ (none, (s.reset_line, true) ∷ [])
                  | some nwake ↦ (
                    (open_rest k s nreset nwake).0,
                    (s.reset_line, true) ∷ (s.wake_line, true) ∷ (open_rest k s nreset nwake).1,
                  )
                ]
              ]).1
      go none o' = tt
      go (some nreset) none = (ok.reset, tt)
      go (some nreset) (some nwake) = (ok.reset, (ok.wake, open_rest-Avoids nreset nwake))

detected :
    (name : Option (List ℕ)) (b : Board)
    → board_detect name ≡ some b
    → (velop_v2 ≡ b) ⊎ (velop_v1 ≡ b)
unfolding board_detect first_match
detected none b e = absurd (ground arith)
detected (some n) b e = elim (Bool-cases (contains n velop_v2.name)) [
  | inl two ↦ inl (the_board (sym (rw two refl) ∙ e))
  | inr other ↦ elim (Bool-cases (contains n velop_v1.name)) [
    | inl one ↦ inr (the_board (sym (rw (other, one) refl) ∙ e))
    | inr unknown ↦ absurd (none-ne-some _ (sym (rw (other, unknown) refl) ∙ e))
  ]
]
  where
    the_board : {x y : Board} → some x ≡ some y → x ≡ y
    the_board {x} e' = ap (λ (o : Option Board). elim o [ none ↦ x | some b ↦ b ]) e'

-- On a board with a line that is not to be driven, and with no other line given for nRESET, nWAKE
-- and nSSEL than the board's, that line is never made an output: not by any setting of nSSEL_INT,
-- and not on a run that ends by `die` half way.
pub pins_open-Avoids :
    (k : Kernel) (s : Settings) (name : Option (List ℕ)) (b : Board)
    → board_detect name ≡ some b
    → s.reset_set ≡ false
    → s.wake_set ≡ false
    → s.cs_set ≡ false
    → b.forbid ≢ 0
    → Avoids b.forbid (pins_open k s name).1
unfolding pins_open pins_autodetect open_detected
pins_open-Avoids k s name b e r w c some_line =
    subst (λ o. Avoids b.forbid (open_detected k (pins_autodetect s o)).1) (sym e)
      (elim (detected name b e) [
        | inl two ↦ absurd (some_line (ap (λ (x : Board). x.forbid) (sym two)))
        | inr one ↦
            subst (λ x. Avoids x.forbid (open_detected k (pins_autodetect s (some x))).1) one on_v1
      ])
  where
    guard : Bool
    guard = 29 != 0 && (with_board s velop_v1).nssel_int_line == 29 && not (is_input s.mode)

    on_v1 : Avoids 29 (open_detected k (pins_autodetect s (some velop_v1))).1
    on_v1 = elim (Bool-cases guard) [
      | inl refused ↦ rw (refused, pins_autodetect, open_detected) tt
      | inr free ↦
          rw (free, pins_autodetect, open_detected)
            (open_lines-Avoids 29 k (with_board s velop_v1) (record {
              reset = λ t. absurd (ground (arith, r, t));
              wake = λ t. absurd (ground (arith, w, t));
              nssel = λ t. absurd (ground (arith, c, t));
              nssel_int = λ driven t. absurd (ground (arith, free, driven, t));
            }))
    ]

second_driven :
    (k : Kernel) (s : Settings) (nreset nwake : ℕ)
    → k.output s.reset_line ≡ some nreset
    → k.output s.wake_line ≡ some nwake
    → (open_lines k s).1
      ≡ (s.reset_line, true) ∷ (s.wake_line, true) ∷ (open_rest k s nreset nwake).1
unfolding open_lines request_output
second_driven k s nreset nwake e e' = rw (e, e', open_lines) refl

-- The line that is not to be driven on the V1 is made an output all the same, where it is given as
-- nWAKE and the kernel grants every request: the check looks at nSSEL_INT alone.
pub pins_open_forbidden :
    (k : Kernel) (s : Settings) (name : Option (List ℕ))
    → board_detect name ≡ some velop_v1
    → s.wake_set ≡ true
    → s.wake_line ≡ 29
    → s.nssel_int_set ≡ false
    → ((line : ℕ) → (fd : ℕ) × (k.output line ≡ some fd))
    → (before after : Requested) × ((pins_open k s name).1 ≡ before ++ (29, true) ∷ after)
unfolding pins_open pins_autodetect open_detected
pins_open_forbidden k s name e w line i grants = (
  (s'.reset_line, true) ∷ [],
  (open_rest k s' (grants s'.reset_line).0 (grants s'.wake_line).0).1,
  driven,
)
  where
    s' : Settings
    s' = with_board s velop_v1

    at_29 : (with_board s velop_v1).wake_line ≡ 29
    at_29 = ground (arith, w, line)

    free :
        (29 != 0 && (with_board s velop_v1).nssel_int_line == 29 && not (is_input s.mode)) ≡ false
    free = ground (arith, i)

    found : pins_autodetect s (some velop_v1) ≡ some (with_board s velop_v1)
    found = rw (free, pins_autodetect) refl

    driven :
        (pins_open k s name).1
        ≡ (s'.reset_line, true)
          ∷ (29, true)
          ∷ (open_rest k s' (grants s'.reset_line).0 (grants s'.wake_line).0).1
    driven =
        ap (λ o. (open_detected k (pins_autodetect s o)).1) e
        ∙ ap (λ o. (open_detected k o).1) found
        ∙ second_driven k s' (grants s'.reset_line).0 (grants s'.wake_line).0
            (grants s'.reset_line).1 (grants s'.wake_line).1
        ∙ ap
            (λ n.
              (s'.reset_line, true)
              ∷ (n, true)
              ∷ (open_rest k s' (grants s'.reset_line).0 (grants s'.wake_line).0).1)
            at_29
