-- ===== src/Responder/Calls.antt =====
-- The requests that the responder makes: of whom, when, and in which mode.
use mathlib.Core.List.{append_assoc}
use xodusmile.Prelude.{
  ℕ, String, ◌≡◌, ◌≢◌, inl, inr, refl, sym, ap, ◌∙◌, Bool, true, false, not, ◌&&◌, Option, none,
  some, List, [], ◌∷◌, ◌++◌, arith, ◌==◌, mem, All, All-append, All-imp, Bool-cases,
}
use xodusmile.Signal.{Answer, returned, raised}
use xodusmile.Protection.{is_never_kill}
use xodusmile.Responder.Types.{
  Mode, is_off, is_kill, Reason, Note, Failure, KillAction, Minifilter, Os, Call,
  quarantine_request, terminate_request, release_request, Responder, look_up, allowlisted,
  terminate,
}
use xodusmile.Responder.{
  record_action, noop, quarantine_answer, quarantine_by, quarantine_step, kill_answer, kill_step,
  act, fully_handled, respond_to_pid,
}

abbrev pub target : Call → ℕ
target (quarantine_request p) = p
target (terminate_request p) = p
target (release_request p) = p

-- The requests that a mode allows the responder to make by itself.
abbrev pub permitted : Mode → Call → Bool
permitted m (quarantine_request p) = not (is_off m)
permitted m (terminate_request p) = is_kill m
permitted m (release_request p) = false

-- A request that the rules allow: not of the agent itself, not of a protected or allowlisted
-- process, and of a kind that the mode allows.
pub record IsJustified (os : Os) (own : ℕ) (mode : Mode) (c : Call) : Type 0 where
  pub not_own : target c ≢ own
  pub killable :
      is_never_kill os.root (look_up os (target c)).name (look_up os (target c)).exe ≡ false
  pub not_allowed : allowlisted os (target c) ≡ false
  pub armed : permitted mode c ≡ true

-- The calls of `r'` are those of `r` with some in front that all satisfy `P`.
abbrev pub Extends : (Call → Type 0) → Responder → Responder → Type 0
Extends P r r' = (new : List Call) × (r'.calls ≡ new ++ r.calls) × All P new

pub Extends-trans :
    (P : Call → Type 0) (r s t : Responder) → Extends P r s → Extends P s t → Extends P r t
Extends-trans P r s t (new, e, all) (new', e', all') = (
  new' ++ new,
  e' ∙ ap (◌++◌ new') e ∙ sym (append_assoc new' new r.calls),
  All-append P new' new all' all,
)

pub Extends-imp :
    (P Q : Call → Type 0) (r s : Responder)
    → ((c : Call) → P c → Q c)
    → Extends P r s
    → Extends Q r s
Extends-imp P Q r s f (new, e, all) = (new, e, All-imp P Q f new all)

-- What a step leaves alone: the mode and the agent's own PID.
pub record SameSetup (r r' : Responder) : Type 0 where
  pub mode : r'.mode ≡ r.mode
  pub own : r'.own_pid ≡ r.own_pid

quarantine_answer-SameSetup :
    (pid : ℕ) (a : Answer) (r : Responder)
    → SameSetup r (quarantine_answer pid a r).0 × ((quarantine_answer pid a r).0.calls ≡ r.calls)
unfolding quarantine_answer
quarantine_answer-SameSetup pid (returned true) r = (record { mode = refl; own = refl }, refl)
quarantine_answer-SameSetup pid (returned false) r = (record { mode = refl; own = refl }, refl)
quarantine_answer-SameSetup pid raised r = (record { mode = refl; own = refl }, refl)

quarantine_by-Extends :
    (P : Call → Type 0) (m : Option Minifilter) (pid : ℕ) (r : Responder)
    → P (quarantine_request pid)
    → SameSetup r (quarantine_by m pid r).0 × Extends P r (quarantine_by m pid r).0
unfolding quarantine_by
quarantine_by-Extends P none pid r p = (record { mode = refl; own = refl }, ([], refl, tt))
quarantine_by-Extends P (some m) pid r p =
    let r' : Responder = record r { calls = quarantine_request pid ∷ r.calls } in
    let (same, e) = quarantine_answer-SameSetup pid (m.quarantine_pid pid) r' in
    (record { mode = same.mode; own = same.own }, (quarantine_request pid ∷ [], e, (p, tt)))

quarantine_step-Extends :
    (P : Call → Type 0) (os : Os) (pid : ℕ) (r : Responder)
    → P (quarantine_request pid)
    → SameSetup r (quarantine_step os pid r).0 × Extends P r (quarantine_step os pid r).0
unfolding quarantine_step
quarantine_step-Extends P os pid r p = elim (Bool-cases (mem pid r.already_quarantined)) [
  | inl e ↦ rw e (record { mode = refl; own = refl }, ([], refl, tt))
  | inr e ↦ rw e (quarantine_by-Extends P os.minifilter pid r p)
]

kill_answer-SameSetup :
    (pid : ℕ) (n : Option Note) (f : Option Failure) (r : Responder)
    → SameSetup r (kill_answer pid n f r).0 × ((kill_answer pid n f r).0.calls ≡ r.calls)
unfolding kill_answer
kill_answer-SameSetup pid n none r = (record { mode = refl; own = refl }, refl)
kill_answer-SameSetup pid n (some f) r = (record { mode = refl; own = refl }, refl)

kill_step-Extends :
    (P : Call → Type 0) (os : Os) (pid : ℕ) (n : Option Note) (r : Responder)
    → (is_kill r.mode ≡ true → P (terminate_request pid))
    → SameSetup r (kill_step os pid n r).0 × Extends P r (kill_step os pid n r).0
unfolding kill_step
kill_step-Extends P os pid n r p =
    elim (Bool-cases (is_kill r.mode && not (mem pid r.already_killed))) [
      | inl e ↦
          let r' : Responder = record r { calls = terminate_request pid ∷ r.calls } in
          let (same, e') = kill_answer-SameSetup pid n (terminate os pid) r' in
          rw e (
            record { mode = same.mode; own = same.own },
            (terminate_request pid ∷ [], e', (p (ground arith), tt)),
          )
      | inr e ↦ rw e (record { mode = refl; own = refl }, ([], refl, tt))
    ]

pub SameSetup-refl : (r : Responder) → SameSetup r r
SameSetup-refl r = record { mode = refl; own = refl }

SameSetup-trans : (r s t : Responder) → SameSetup r s → SameSetup s t → SameSetup r t
SameSetup-trans r s t h k = record { mode = k.mode ∙ h.mode; own = k.own ∙ h.own }

pub record_action-SameSetup :
    (a : KillAction) (r : Responder)
    → SameSetup r (record_action a r).0 × ((record_action a r).0.calls ≡ r.calls)
unfolding record_action
record_action-SameSetup a r = (record { mode = refl; own = refl }, refl)

-- A step that keeps the setup and makes only requests that satisfy `P`.
abbrev pub Lawful : (Call → Type 0) → Responder → Responder → Type 0
Lawful P r r' = SameSetup r r' × Extends P r r'

pub Lawful-trans :
    (P : Call → Type 0) (r s t : Responder) → Lawful P r s → Lawful P s t → Lawful P r t
Lawful-trans P r s t (h, x) (k, y) = (SameSetup-trans r s t h k, Extends-trans P r s t x y)

pub record_action-Lawful :
    (P : Call → Type 0) (a : KillAction) (r : Responder) → Lawful P r (record_action a r).0
record_action-Lawful P a r = let (same, e) = record_action-SameSetup a r in (same, ([], e, tt))

act-Lawful :
    (P : Call → Type 0) (os : Os) (pid : ℕ) (reason : Reason) (name cmd : String) (r : Responder)
    → (is_off r.mode ≡ false → P (quarantine_request pid))
    → (is_kill r.mode ≡ true → P (terminate_request pid))
    → Lawful P r (act os pid reason name cmd r).0
unfolding act
act-Lawful P os pid reason name cmd r q t = elim (Bool-cases (fully_handled pid r)) [
  | inl done ↦ rw done (SameSetup-refl r, ([], refl, tt))
  | inr todo ↦ elim (Bool-cases (is_off r.mode)) [
    | inl o ↦ rw (todo, o) (record_action-Lawful P _ r)
    | inr on ↦
        let (r₁, quarantined, n₁) = quarantine_step os pid r in
        let first : Lawful P r r₁ = quarantine_step-Extends P os pid r (q on) in
        let (r₂, terminated, n₂) = kill_step os pid n₁ r₁ in
        let second : Lawful P r₁ r₂ =
          kill_step-Extends P os pid n₁ r₁ (λ k. t (rw first.0.mode at k)) in
        rw (todo, on)
          (Lawful-trans P r r₂ _ (Lawful-trans P r r₁ r₂ first second)
            (record_action-Lawful P _ r₂))
  ]
]

-- What `_respond_to_pid` has checked when it acts.
pub record MayAct (os : Os) (pid : ℕ) (r : Responder) : Type 0 where
  pub other : pid ≢ r.own_pid
  pub killable : is_never_kill os.root (look_up os pid).name (look_up os pid).exe ≡ false
  pub not_allowed : allowlisted os pid ≡ false

respond_to_pid-Lawful :
    (P : Call → Type 0) (os : Os) (pid : ℕ) (reason : Reason) (name cmd : String) (r : Responder)
    → (MayAct os pid r → is_off r.mode ≡ false → P (quarantine_request pid))
    → (MayAct os pid r → is_kill r.mode ≡ true → P (terminate_request pid))
    → Lawful P r (respond_to_pid os pid reason name cmd r).0
unfolding respond_to_pid noop
respond_to_pid-Lawful P os pid reason name cmd r q t = elim (Bool-cases (pid == r.own_pid)) [
  | inl self ↦ rw self (record_action-Lawful P _ r)
  | inr other ↦
      let view = look_up os pid in
      elim (Bool-cases (is_never_kill os.root view.name view.exe)) [
        | inl safe ↦ rw (other, safe) (record_action-Lawful P _ r)
        | inr killable ↦ elim (Bool-cases (allowlisted os pid)) [
          | inl allowed ↦ rw (other, killable, allowed) (record_action-Lawful P _ r)
          | inr not_allowed ↦
              let may : MayAct os pid r = record {
                other = ground arith;
                killable = killable;
                not_allowed = not_allowed;
              } in
              rw (other, killable, not_allowed) (act-Lawful P os pid reason _ _ r (q may) (t may))
        ]
      ]
]

pub respond_to_pid-IsJustified :
    (os : Os) (pid : ℕ) (reason : Reason) (name cmd : String) (r : Responder)
    → Lawful
        (λ c. IsJustified os r.own_pid r.mode c × (target c ≡ pid))
        r
        (respond_to_pid os pid reason name cmd r).0
respond_to_pid-IsJustified os pid reason name cmd r =
    respond_to_pid-Lawful (λ c. IsJustified os r.own_pid r.mode c × (target c ≡ pid)) os pid reason
      name cmd r
      (λ may on. (
        record {
          not_own = may.other;
          killable = may.killable;
          not_allowed = may.not_allowed;
          armed = ap not on;
        },
        refl,
      ))
      (λ may on. (
        record {
          not_own = may.other;
          killable = may.killable;
          not_allowed = may.not_allowed;
          armed = on;
        },
        refl,
      ))
