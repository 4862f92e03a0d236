-- ===== src/Join/Campaign.antt =====
-- The attempts of `cmd_join` and their retries (package/ezsp-spi/src/zcl.c).
use openwrt_ezsp_spi.Prelude.{
  ℕ, suc, ◌*◌, ◌≡◌, ◌⊎◌, refl, sym, ◌∙◌, Bool, true, false, not, Option, List, ◌∷◌, if◌then◌else◌,
  arith, inl, inr,
}
use openwrt_ezsp_spi.Config.{Cfg, Pins, ember_network_up, ezsp_join_network}
use openwrt_ezsp_spi.Host.{Host, ok, pure, pause}
use openwrt_ezsp_spi.Host.Run.{Ensures, returns, Ensures-all, Ensures->>=, Ensures-after}
use openwrt_ezsp_spi.Ezsp.{ezsp_cmd, succeeded}
use openwrt_ezsp_spi.Join.{Ending, up, rejected, stored, wait_join, join_once, is_up, is_transient}
use openwrt_ezsp_spi.Join.Watch.{Watched, wait_join-Watched, Reported, Watch-up}

-- One attempt: the command, and, if the NCP takes it, the wait.
pub record Tried (c : Cfg) (p : Pins) (params out : List ℕ) (h : Host) (r : Ending × List ℕ)
    (h' : Host) : Type 0 where
  pub reply : Option (List ℕ)
  pub asked : Host
  pub command : ezsp_cmd c p ezsp_join_network params 64 h ≡ ok reply asked
  pub outcome :
      ((succeeded reply ≡ false) × (r.0 ≡ rejected))
      ⊎ ((succeeded reply ≡ true) × Watched c p (c.join_timeout * 4) (stored reply out) asked r h')

pub join_once-Tried :
    (c : Cfg) (p : Pins) (params out : List ℕ) (h : Host)
    → Ensures (Tried c p params out h) (join_once c p params out h)
unfolding join_once
join_once-Tried c p params out h =
    Ensures->>= (ezsp_cmd c p ezsp_join_network params 64) _ h
      (Ensures-all (ezsp_cmd c p ezsp_join_network params 64 h) (λ reply h₁ e. e))
      (λ reply h₁ e. judged reply h₁ e (succeeded reply) refl)
  where
    judged :
        (reply : Option (List ℕ)) (h₁ : Host)
        → ezsp_cmd c p ezsp_join_network params 64 h ≡ ok reply h₁
        → (taken : Bool) → succeeded reply ≡ taken
        → Ensures (Tried c p params out h) (
            (if not taken
                then pure (rejected, stored reply out)
                else wait_join (c.join_timeout * 4) c p (stored reply out))
              h₁)
    judged reply h₁ e false refused =
        returns (record { reply = reply; asked = h₁; command = e; outcome = inl (refused, refl) })
    judged reply h₁ e true taken =
        Ensures-after (wait_join (c.join_timeout * 4) c p (stored reply out) h₁)
          (wait_join-Watched (c.join_timeout * 4) c p (stored reply out) h₁)
          (λ r h' w. record { reply = reply; asked = h₁; command = e; outcome = inr (taken, w) })

-- The process behind `sleep(5)`.
abbrev pub napped : Host → Host
napped h = record h { wire = pause 5000000 ∷ h.wire }

-- Attempts with so many retries left: another one follows an attempt that ended in a transient
-- status, and only such a one, for as long as there are retries.
pub data Campaign (c : Cfg) (p : Pins) (params : List ℕ) (joined : Bool) (h' : Host)
    : ℕ → List ℕ → Host → Type 0 where
  settled :
      (left : ℕ) (out : List ℕ) (h : Host) (r : Ending × List ℕ)
      → Tried c p params out h r h'
      → (is_transient (r.0) ≡ true → left ≡ 0)
      → joined ≡ is_up (r.0)
      → Campaign c p params joined h' left out h
  again :
      (left : ℕ) (out : List ℕ) (h h₁ : Host) (r : Ending × List ℕ)
      → Tried c p params out h r h₁
      → is_transient (r.0) ≡ true
      → Campaign c p params joined h' left (r.1) (napped h₁)
      → Campaign c p params joined h' (suc left) out h

-- How many joinNetwork commands were given.
unfoldable pub commands :
    {c : Cfg} {p : Pins} {params : List ℕ} {joined : Bool} {h' : Host} {left : ℕ} {out : List ℕ}
    {h : Host}
    → Campaign c p params joined h' left out h
    → ℕ
commands (settled left out h r tried last ended) = 1
commands (again left out h h₁ r tried more rest) = suc (commands rest)

up_of : (e : Ending) → is_up e ≡ true → e ≡ up
unfolding is_up
up_of e h = ground arith

Tried-up :
    {c : Cfg} {p : Pins} {params out : List ℕ} {h h' : Host} {r : Ending × List ℕ}
    → Tried c p params out h r h'
    → r.0 ≡ up
    → Reported c p ember_network_up h'
Tried-up {c} {p} {params} {out} {h} {h'} {r} tried e = elim tried.outcome [
  | inl refused ↦ absurd (rejected-ne-up (sym refused.1 ∙ e))
  | inr taken ↦
      Watch-up c p (taken.1).allowed e (stored tried.reply out) tried.asked h' (taken.1).polled
]
  where
    rejected-ne-up : rejected ≡ up → ⊥
    rejected-ne-up x = cc

pub Campaign-up :
    {c : Cfg} {p : Pins} {params : List ℕ} {joined : Bool} {h' : Host} {left : ℕ} {out : List ℕ}
    {h : Host}
    → Campaign c p params joined h' left out h
    → joined ≡ true
    → Reported c p ember_network_up h'
Campaign-up (settled left out h r tried last ended) e = Tried-up tried (up_of (r.0) (sym ended ∙ e))
Campaign-up (again left out h h₁ r tried more rest) e = Campaign-up rest e
