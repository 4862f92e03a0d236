-- ===== src/Main/ExtPanId.antt =====
-- The ext pan id that a command starts with, whatever the order of the options
-- (package/ezsp-spi/src/main.c).
use openwrt_ezsp_spi.Prelude.{
  ℕ, ◌≡◌, ◌≢◌, refl, sym, subst, ap, ◌∙◌, Bool, true, false, ◌||◌, Option, none, some, Bool-cases,
  inl, inr, List, [], ◌∷◌, ◌++◌, length, All, if◌then◌else◌, arith,
}
use openwrt_ezsp_spi.Control.{parse_ext_pan_id}
use openwrt_ezsp_spi.Control.Serve.{Longs}
use openwrt_ezsp_spi.Control.Stored.{length-parse_ext_pan_id}
use openwrt_ezsp_spi.Main.{
  Setup, Parsed, dead, usage, go, Opt, opt_ext_pan_id, set_option, store_ext_pan_id, read_options,
  swap, reversed, turned, Command, run_probe, run_info, run_status, run_config, run_policy,
  run_keys, run_neighbors, run_permit, run_power, run_bootloader, run_verify, run_scan, run_join,
  run_bridge, run_run, run_leave, command_of, Started, starts, start, main,
}
use openwrt_ezsp_spi.Main.Options.{
  OnGo, OnGo-next, OnGo-any, gives_ext_pan_id, is_reverse, has_reverse, set_option-reverse,
  set_option-ext,
}

ext_unmoved :
    (l : Longs) (s : Setup) (os : List Opt)
    → All (λ o. gives_ext_pan_id o ≡ false) os
    → OnGo (λ s'. s'.cfg.ext_pan_id ≡ s.cfg.ext_pan_id) (read_options l s os)
unfolding read_options
ext_unmoved l s [] others = refl
ext_unmoved l s (o ∷ os) others =
    OnGo-next (λ s'. s'.cfg.ext_pan_id ≡ s.cfg.ext_pan_id) _ (set_option l s o)
      (λ s'. read_options l s' os) (set_option-ext l s o (others.0))
      (λ s' e.
        subst (λ ext. OnGo (λ s''. s''.cfg.ext_pan_id ≡ ext) (read_options l s' os)) e
          (ext_unmoved l s' os (others.1)))

-- A flag counts wherever it stands.
or_swap : (a b c : Bool) → b || (a || c) ≡ (a || b) || c
or_swap true true c = refl
or_swap true false c = refl
or_swap false true c = refl
or_swap false false c = refl

read_options-reverse :
    (l : Longs) (s : Setup) (os : List Opt)
    → OnGo
        (λ s'. s'.reverse_ext_pan_id ≡ has_reverse os || s.reverse_ext_pan_id)
        (read_options l s os)
unfolding read_options
read_options-reverse l s [] = refl
read_options-reverse l s (o ∷ os) =
    OnGo-next (λ s'. s'.reverse_ext_pan_id ≡ is_reverse o || s.reverse_ext_pan_id) _
      (set_option l s o) (λ s'. read_options l s' os) (set_option-reverse l s o)
      (λ s' e.
        subst (λ flag. OnGo (λ s''. s''.reverse_ext_pan_id ≡ flag) (read_options l s' os))
          (ap (λ flag. has_reverse os || flag) e
            ∙ or_swap (is_reverse o) (has_reverse os) s.reverse_ext_pan_id)
          (read_options-reverse l s' os))

set_ext :
    (l : Longs) (s : Setup) (text bytes : List ℕ)
    → parse_ext_pan_id l.ulong_max text ≡ some bytes
    → OnGo (λ s'. s'.cfg.ext_pan_id ≡ bytes) (set_option l s (opt_ext_pan_id text))
unfolding set_option store_ext_pan_id
set_ext l s text bytes e =
    subst (λ r. OnGo (λ s'. s'.cfg.ext_pan_id ≡ bytes) (store_ext_pan_id s r)) (sym e) refl

last_kept :
    (l : Longs) (s : Setup) (before after : List Opt) (text bytes : List ℕ)
    → parse_ext_pan_id l.ulong_max text ≡ some bytes
    → All (λ o. gives_ext_pan_id o ≡ false) after
    → OnGo
        (λ s'. s'.cfg.ext_pan_id ≡ bytes)
        (read_options l s (before ++ opt_ext_pan_id text ∷ after))
unfolding read_options
last_kept l s [] after text bytes e others =
    OnGo-next (λ s'. s'.cfg.ext_pan_id ≡ bytes) _ (set_option l s (opt_ext_pan_id text))
      (λ s'. read_options l s' after) (set_ext l s text bytes e)
      (λ s' kept.
        subst (λ ext. OnGo (λ s''. s''.cfg.ext_pan_id ≡ ext) (read_options l s' after)) kept
          (ext_unmoved l s' after others))
last_kept l s (o ∷ before) after text bytes e others =
    OnGo-next (λ s'. Unit) _ (set_option l s o)
      (λ s'. read_options l s' (before ++ opt_ext_pan_id text ∷ after))
      (OnGo-any (set_option l s o)) (λ s' any. last_kept l s' before after text bytes e others)

abbrev pub reverse : List ℕ → List ℕ
reverse [] = []
reverse (x ∷ xs) = reverse xs ++ x ∷ []

reversed-reverse : (bytes : List ℕ) → length bytes ≡ 8 → reversed bytes ≡ reverse bytes
unfolding reversed swap
reversed-reverse (a ∷ b ∷ c ∷ d ∷ e ∷ f ∷ g ∷ h ∷ []) eight = refl
reversed-reverse [] eight = absurd (omega arith)
reversed-reverse (a ∷ []) eight = absurd (omega arith)
reversed-reverse (a ∷ b ∷ []) eight = absurd (omega arith)
reversed-reverse (a ∷ b ∷ c ∷ []) eight = absurd (omega arith)
reversed-reverse (a ∷ b ∷ c ∷ d ∷ []) eight = absurd (omega arith)
reversed-reverse (a ∷ b ∷ c ∷ d ∷ e ∷ []) eight = absurd (omega arith)
reversed-reverse (a ∷ b ∷ c ∷ d ∷ e ∷ f ∷ []) eight = absurd (omega arith)
reversed-reverse (a ∷ b ∷ c ∷ d ∷ e ∷ f ∷ g ∷ []) eight = absurd (omega arith)
reversed-reverse (a ∷ b ∷ c ∷ d ∷ e ∷ f ∷ g ∷ h ∷ i ∷ rest) eight = absurd (omega arith)

-- What a command starts with, if one starts.
abbrev pub OnStart : (Command → Setup → Type 0) → Started → Type 0
OnStart P dead = Unit
OnStart P (usage status) = Unit
OnStart P (starts command s) = P command s

-- The ext pan id that a command other than `probe` works with.
abbrev pub HasExt : Bool → List ℕ → Command → Setup → Type 0
HasExt turns bytes command s =
    command ≢ run_probe → s.cfg.ext_pan_id ≡ (if turns then reverse bytes else bytes)

turned-ext :
    (s : Setup) (bytes : List ℕ)
    → length bytes ≡ 8
    → s.cfg.ext_pan_id ≡ bytes
    → (turned s).cfg.ext_pan_id ≡ (if s.reverse_ext_pan_id then reverse bytes else bytes)
unfolding turned
turned-ext s bytes eight e = elim (Bool-cases s.reverse_ext_pan_id) [
  | inl flag ↦ rw flag (ap reversed e ∙ reversed-reverse bytes eight)
  | inr plain ↦ rw plain e
]

OnStart-ok :
    (P : Command → Setup → Type 0) (r : Started) {command : Command} {s : Setup}
    → OnStart P r
    → r ≡ starts command s
    → P command s
OnStart-ok P r holds e = subst (OnStart P) e holds

chosen :
    (s : Setup) (bytes : List ℕ) (choice : Option Command)
    → (turned s).cfg.ext_pan_id ≡ bytes
    → OnStart
        (λ command s'. command ≢ run_probe → s'.cfg.ext_pan_id ≡ bytes)
        (elim choice [
          | none ↦ usage 1
          | some run_probe ↦ starts run_probe s
          | some other ↦ starts other (turned s)
        ])
chosen s bytes none e = tt
chosen s bytes (some run_probe) e = λ other. absurd (other refl)
chosen s bytes (some run_info) e = λ other. e
chosen s bytes (some run_status) e = λ other. e
chosen s bytes (some run_config) e = λ other. e
chosen s bytes (some run_policy) e = λ other. e
chosen s bytes (some run_keys) e = λ other. e
chosen s bytes (some run_neighbors) e = λ other. e
chosen s bytes (some run_permit) e = λ other. e
chosen s bytes (some run_power) e = λ other. e
chosen s bytes (some run_bootloader) e = λ other. e
chosen s bytes (some run_verify) e = λ other. e
chosen s bytes (some run_scan) e = λ other. e
chosen s bytes (some run_join) e = λ other. e
chosen s bytes (some run_bridge) e = λ other. e
chosen s bytes (some run_run) e = λ other. e
chosen s bytes (some run_leave) e = λ other. e

start-ext :
    (cmd : List ℕ) (s : Setup) (bytes : List ℕ) (turns : Bool)
    → length bytes ≡ 8
    → s.cfg.ext_pan_id ≡ bytes
    → s.reverse_ext_pan_id ≡ turns
    → OnStart (HasExt turns bytes) (start cmd s)
unfolding start
start-ext cmd s bytes turns eight e flag =
    chosen s (if turns then reverse bytes else bytes) (command_of cmd)
      (turned-ext s bytes eight e ∙ ap (λ t. if t then reverse bytes else bytes) flag)

parsed-ext :
    (cmd : List ℕ) (bytes : List ℕ) (turns : Bool) (r : Parsed)
    → length bytes ≡ 8
    → OnGo (λ s'. s'.cfg.ext_pan_id ≡ bytes) r
    → OnGo (λ s'. s'.reverse_ext_pan_id ≡ turns) r
    → OnStart
        (HasExt turns bytes)
        (elim r [ dead ↦ dead | usage status ↦ usage status | go s' ↦ start cmd s' ])
parsed-ext cmd bytes turns dead eight e flag = tt
parsed-ext cmd bytes turns (usage status) eight e flag = tt
parsed-ext cmd bytes turns (go s') eight e flag = start-ext cmd s' bytes turns eight e flag

-- A command other than `probe` starts with the bytes of the last --ext-pan-id, and in the opposite
-- order exactly if --reverse-ext-pan-id is given anywhere, once or more often, before that option
-- or behind it; every other option leaves them alone.
pub main-ext_pan_id :
    (l : Longs) (s : Setup) (cmd : List ℕ) (before after : List Opt) (text bytes : List ℕ)
    → parse_ext_pan_id l.ulong_max text ≡ some bytes
    → All (λ o. gives_ext_pan_id o ≡ false) after
    → {command : Command} {s' : Setup}
    → main l s (some cmd) (before ++ opt_ext_pan_id text ∷ after) ≡ starts command s'
    → command ≢ run_probe
    → s'.cfg.ext_pan_id ≡ (
        if has_reverse (before ++ opt_ext_pan_id text ∷ after) || s.reverse_ext_pan_id
        then reverse bytes
        else bytes)
unfolding main
main-ext_pan_id l s cmd before after text bytes e others {command} {s'} started other =
    let os = before ++ opt_ext_pan_id text ∷ after in
    let turns = has_reverse os || s.reverse_ext_pan_id in
    OnStart-ok (HasExt turns bytes) (main l s (some cmd) os)
      (parsed-ext cmd bytes turns (read_options l s os)
        (length-parse_ext_pan_id l.ulong_max text bytes e).1
        (last_kept l s before after text bytes e others) (read_options-reverse l s os))
      started other
