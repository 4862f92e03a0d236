-- ===== src/Join/Watch.antt =====
-- The waits of `cmd_join` and `cmd_leave` against the callbacks that they hear
-- (package/ezsp-spi/src/zcl.c).
use openwrt_ezsp_spi.Prelude.{
  ℕ, zero, suc, ◌≡◌, refl, Bool, true, false, ◌&&◌, Option, none, some, List, [], ◌∷◌, get_or, ◌==◌,
  if◌then◌else◌, arith,
}
use openwrt_ezsp_spi.Config.{
  Cfg, Pins, ember_network_up, ember_network_down, ezsp_stack_status_handler,
}
use openwrt_ezsp_spi.Host.{Host, ok, M, pure, pause}
use openwrt_ezsp_spi.Host.Run.{Ensures, returns, Ensures-all, Ensures->>=, Ensures-after}
use openwrt_ezsp_spi.Ezsp.{ezsp_poll_callback}
use openwrt_ezsp_spi.Join.{Ending, up, expired, verdict_of, judge, wait_join, wait_leave}

-- The id of a callback, and the buffer behind it.
abbrev pub Callback : Type 0
Callback = ℕ × List ℕ

-- The process behind `usleep(250000)`.
abbrev pub rested : Host → Host
rested h = record h { wire = pause 250000 ∷ h.wire }

-- From `h` to `h'` the process slept and polled for each of these callbacks, and did no more.
abbrev pub Polled : Cfg → Pins → List Callback → List ℕ → Host → Host → Type 0
Polled c p [] out h h' = h' ≡ h
Polled c p (cb ∷ cbs) out h h' =
    (h₁ : Host) × (ezsp_poll_callback c p 64 out (rested h) ≡ ok cb h₁)
    × Polled c p cbs (cb.1) h₁ h'

-- The protocol: in how many rounds, on which callbacks, an attempt ends how. It goes on as long as
-- no callback decides, and ends with the first that does.
pub data Watch : ℕ → List Callback → Ending → Type 0 where
  expire : Watch zero [] expired
  decide :
      (n : ℕ) (cb : Callback) (v : Ending)
      → judge (cb.0) (cb.1) ≡ some v
      → Watch (suc n) (cb ∷ []) v
  wait :
      (n : ℕ) (cb : Callback) (cbs : List Callback) (v : Ending)
      → judge (cb.0) (cb.1) ≡ none
      → Watch n cbs v
      → Watch (suc n) (cb ∷ cbs) v

-- A run that the protocol allows.
pub record Watched (c : Cfg) (p : Pins) (n : ℕ) (out : List ℕ) (h : Host) (r : Ending × List ℕ)
    (h' : Host) : Type 0 where
  pub heard : List Callback
  pub polled : Polled c p heard out h h'
  pub allowed : Watch n heard (r.0)

pub wait_join-Watched :
    (n : ℕ) (c : Cfg) (p : Pins) (out : List ℕ) (h : Host)
    → Ensures (Watched c p n out h) (wait_join n c p out h)
unfolding wait_join
wait_join-Watched zero c p out h = returns (record { heard = []; polled = refl; allowed = expire })
wait_join-Watched (suc n) c p out h =
    Ensures->>= (ezsp_poll_callback c p 64 out) _ (rested h)
      (Ensures-all (ezsp_poll_callback c p 64 out (rested h)) (λ cb h₁ e. e))
      (λ cb h₁ e. judged cb h₁ e (judge (cb.0) (cb.1)) refl (wait_join-Watched n c p (cb.1) h₁))
  where
    judged :
        (cb : Callback) (h₁ : Host)
        → ezsp_poll_callback c p 64 out (rested h) ≡ ok cb h₁
        → (o : Option Ending) → judge (cb.0) (cb.1) ≡ o
        → Ensures (Watched c p n (cb.1) h₁) (wait_join n c p (cb.1) h₁)
        → Ensures (Watched c p (suc n) out h) (
            (elim o as (λ _. M (Ending × List ℕ)) [
              | none ↦ wait_join n c p (cb.1)
              | some v ↦ pure (v, cb.1)
            ])
              h₁)
    judged cb h₁ e none open_ later = Ensures-after (wait_join n c p (cb.1) h₁) later (λ r h' w.
        record {
          heard = cb ∷ w.heard;
          polled = (h₁, e, w.polled);
          allowed = wait n cb w.heard (r.0) open_ w.allowed;
        })
    judged cb h₁ e (some v) decided later =
        returns
          (record { heard = cb ∷ []; polled = (h₁, e, refl); allowed = decide n cb v decided })

-- The last callback that the process asked for reports this stack status.
pub record Reported (c : Cfg) (p : Pins) (status : ℕ) (h' : Host) : Type 0 where
  pub before : Host
  pub given : List ℕ
  pub answered : List ℕ
  pub poll : ezsp_poll_callback c p 64 given before ≡ ok (ezsp_stack_status_handler, answered) h'
  pub says : get_or answered 0 0 ≡ status

pub wait_leave-Reported :
    (n : ℕ) (c : Cfg) (p : Pins) (out : List ℕ) (h : Host)
    → Ensures (λ left h'. left ≡ true → Reported c p ember_network_down h') (wait_leave n c p out h)
unfolding wait_leave
wait_leave-Reported zero c p out h = returns (λ e. cc)
wait_leave-Reported (suc n) c p out h =
    Ensures->>= (ezsp_poll_callback c p 64 out) _ (rested h)
      (Ensures-all (ezsp_poll_callback c p 64 out (rested h)) (λ cb h₁ e. e))
      (λ cb h₁ e.
        judged cb h₁ e
          (cb.0 == ezsp_stack_status_handler && get_or (cb.1) 0 0 == ember_network_down) refl
          (wait_leave-Reported n c p (cb.1) h₁))
  where
    judged :
        (cb : Callback) (h₁ : Host)
        → ezsp_poll_callback c p 64 out (rested h) ≡ ok cb h₁
        → (down : Bool)
        → (cb.0 == ezsp_stack_status_handler && get_or (cb.1) 0 0 == ember_network_down) ≡ down
        → Ensures
            (λ left h'. left ≡ true → Reported c p ember_network_down h')
            (wait_leave n c p (cb.1) h₁)
        → Ensures
            (λ left h'. left ≡ true → Reported c p ember_network_down h')
            ((if down then pure true else wait_leave n c p (cb.1)) h₁)
    judged cb h₁ e true hit later = returns (λ _. record {
      before = rested h;
      given = out;
      answered = cb.1;
      poll = rw (← id_of) e;
      says = ground (arith, hit);
    })
      where
        id_of : cb.0 ≡ ezsp_stack_status_handler
        id_of = ground (arith, hit)
    judged cb h₁ e false miss later = later

up_alone : (status : ℕ) → verdict_of status ≡ some up → status ≡ ember_network_up
unfolding verdict_of
up_alone status e = ground arith

judge-up :
    (cb : Callback)
    → judge (cb.0) (cb.1) ≡ some up
    → (cb.0 ≡ ezsp_stack_status_handler) × (get_or (cb.1) 0 0 ≡ ember_network_up)
unfolding judge
judge-up cb e = ground (arith, up_alone (get_or (cb.1) 0 0))

-- An attempt that ends with NETWORK_UP ended on the poll that reported it.
pub Watch-up :
    (c : Cfg) (p : Pins) {n : ℕ} {cbs : List Callback} {v : Ending}
    → Watch n cbs v
    → v ≡ up
    → (out : List ℕ) (h h' : Host) → Polled c p cbs out h h'
    → Reported c p ember_network_up h'
Watch-up c p expire e out h h' polled = cc
Watch-up c p (decide n cb v verdict) e out h h' (h₁, poll, same) = record {
  before = rested h;
  given = out;
  answered = cb.1;
  poll = rw (same, ← (judge-up cb (rw (← e) verdict)).0) poll;
  says = (judge-up cb (rw (← e) verdict)).1;
}
Watch-up c p (wait n cb cbs v _ more) e out h h' (h₁, poll, polled) =
    Watch-up c p more e (cb.1) h₁ h' polled
