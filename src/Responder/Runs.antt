-- ===== src/Responder/Runs.antt =====
-- Whole runs of the responder: signals, the operator's orders, changes of mode, and what others do
-- to the engine, in any order.
use xodusmile.Prelude.{
  ℕ, String, ◌≡◌, ◌≢◌, ◌≤◌, sym, ◌∙◌, Bool, true, false, not, ◌&&◌, ◌||◌, Option, none, some, [],
  ◌∷◌, ◌++◌, arith, ◌==◌, length, length-last_slice-le, All, All-append, All-imp, Bool-cases,
  Option-cases, subst, inl, inr,
}
use xodusmile.Signal.{Signal}
use xodusmile.Scoring.{Engine}
use xodusmile.Protection.{is_never_kill}
use xodusmile.Responder.Types.{
  Mode, is_off, Reason, parent_of, manual, KillAction, Os, Call, quarantine_request,
  terminate_request, release_request, Responder, look_up, allowlisted,
}
use xodusmile.Responder.{
  record_action, noop, act, fully_handled, respond_to_pid, detected, max_actions, quarantine_step,
  kill_step,
}
use xodusmile.Responder.Listener.{
  record_observed, is_confident, escalate, dispatch_pid, dispatch, extract_pid, extract_parent_pid,
  is_lolbin_signal, is_critical, is_high, manual_kill, manual_release, release_by, set_mode,
}
use xodusmile.Responder.Calls.{target, IsJustified, Extends, respond_to_pid-IsJustified}
use xodusmile.Responder.Dispatch.{Accused, dispatch-Accused}

-- One step of a run. The answers of the system and of the driver are chosen anew in each.
pub data Step : Responder → Responder → Type 0 where
  signalled : (os : Os) (sig : Signal) (r : Responder) → Step r (dispatch os sig r)
  ordered : (os : Os) (pid : ℕ) (why : String) (r : Responder) → Step r (manual_kill os pid why r).0
  released : (os : Os) (pid : ℕ) (r : Responder) → Step r (manual_release os pid r).0
  switched : (mode : Mode) (r : Responder) → Step r (set_mode mode r)
  scored : (e : Engine) (r : Responder) → Step r (record r { engine = e })

pub data Reach (r : Responder) : Responder → Type 0 where
  here : Reach r r
  next : {s t : Responder} → Reach r s → Step s t → Reach r t

-- A request that harms a process.
abbrev pub harms : Call → Bool
harms (quarantine_request p) = true
harms (terminate_request p) = true
harms (release_request p) = false

abbrev Spares : ℕ → Call → Type 0
Spares own c = harms c ≡ true → target c ≢ own

-- No harmful request was ever made of `own`, which is the responder's own PID, and the history is
-- bounded.
pub record IsSafe (own : ℕ) (r : Responder) : Type 0 where
  pub self : r.own_pid ≡ own
  pub spared : All (Spares own) r.calls
  pub bounded : length r.actions ≤ max_actions

abbrev Bounded : Responder → Type 0
Bounded r = length r.actions ≤ max_actions

record_action-Bounded : (a : KillAction) (r : Responder) → Bounded (record_action a r).0
unfolding record_action
record_action-Bounded a r =
    ground (arith, length-last_slice-le max_actions (r.actions ++ a ∷ []) (omega arith))

act-Bounded :
    (os : Os) (pid : ℕ) (reason : Reason) (name cmd : String) (r : Responder)
    → Bounded r
    → Bounded (act os pid reason name cmd r).0
unfolding act
act-Bounded os pid reason name cmd r h = elim (Bool-cases (fully_handled pid r)) [
  | inl done ↦ rw done h
  | inr todo ↦ elim (Bool-cases (is_off r.mode)) [
    | inl o ↦ rw (todo, o) (record_action-Bounded _ r)
    | inr on ↦
        let (r₁, quarantined, n₁) = quarantine_step os pid r in
        let (r₂, terminated, n₂) = kill_step os pid n₁ r₁ in
        rw (todo, on) (record_action-Bounded _ r₂)
  ]
]

respond_to_pid-Bounded :
    (os : Os) (pid : ℕ) (reason : Reason) (name cmd : String) (r : Responder)
    → Bounded r
    → Bounded (respond_to_pid os pid reason name cmd r).0
unfolding respond_to_pid noop
respond_to_pid-Bounded os pid reason name cmd r h = elim (Bool-cases (pid == r.own_pid)) [
  | inl self ↦ rw self (record_action-Bounded _ r)
  | inr other ↦
      let view = look_up os pid in
      elim (Bool-cases (is_never_kill os.root view.name view.exe)) [
        | inl safe ↦ rw (other, safe) (record_action-Bounded _ r)
        | inr killable ↦ elim (Bool-cases (allowlisted os pid)) [
          | inl allowed ↦ rw (other, killable, allowed) (record_action-Bounded _ r)
          | inr not_allowed ↦ rw (other, killable, not_allowed) (act-Bounded os pid reason _ _ r h)
        ]
      ]
]

escalate-Bounded :
    (os : Os) (pid : ℕ) (parent : Option ℕ) (reason : Reason) (sig : Signal) (r : Responder)
    → Bounded r
    → Bounded (escalate os pid parent reason sig r)
unfolding escalate
escalate-Bounded os pid none reason sig r h = h
escalate-Bounded os pid (some ppid) reason sig r h =
    elim (Bool-cases (not (ppid == pid) && is_lolbin_signal sig)) [
      | inl up ↦ rw up (respond_to_pid-Bounded os ppid (parent_of reason pid) "" "" r h)
      | inr stay ↦ rw stay h
    ]

dispatch_pid-Bounded :
    (os : Os) (pid : ℕ) (sig : Signal) (r : Responder)
    → Bounded r
    → Bounded (dispatch_pid os pid sig r)
unfolding dispatch_pid record_observed
dispatch_pid-Bounded os pid sig r h =
    let r₁ : Responder = record r { engine = (is_confident os pid sig r.engine).0 } in
    let reason = detected sig.detector sig.name in
    elim (Bool-cases (is_confident os pid sig r.engine).1) [
      | inl sure ↦ rw sure (
          escalate-Bounded os pid (extract_parent_pid sig) reason sig _
            (respond_to_pid-Bounded os pid reason _ _ r₁ h))
      | inr unsure ↦ rw unsure (record_action-Bounded _ r₁)
    ]

dispatch-Bounded :
    (os : Os) (sig : Signal) (r : Responder) → Bounded r → Bounded (dispatch os sig r)
unfolding dispatch
dispatch-Bounded os sig r h = elim (Option-cases (extract_pid sig)) [
  | inl e ↦ rw (e, dispatch) h
  | inr (pid, e) ↦
      rw (e, dispatch)
        (elim (Bool-cases (is_high sig.severity || is_critical sig.severity)) [
          | inl grave ↦ rw grave (dispatch_pid-Bounded os pid sig r h)
          | inr mild ↦ rw mild h
        ])
]

Extends-spared :
    (P : Call → Type 0) (own : ℕ) (r r' : Responder)
    → ((c : Call) → P c → Spares own c)
    → Extends P r r'
    → All (Spares own) r.calls
    → All (Spares own) r'.calls
Extends-spared P own r r' f (new, e, all) h =
    subst (All (Spares own)) (sym e)
      (All-append (Spares own) new r.calls (All-imp P (Spares own) f new all) h)

Step-IsSafe : {own : ℕ} {r r' : Responder} → Step r r' → IsSafe own r → IsSafe own r'
unfolding manual_kill manual_release release_by set_mode
Step-IsSafe {own} (signalled os sig r) h =
    let (same, more) = dispatch-Accused os sig r in
    record {
      self = same.own ∙ h.self;
      spared =
          Extends-spared (Accused os sig r) own r (dispatch os sig r)
            (λ c a _ e. a.justified.not_own (e ∙ sym h.self)) more h.spared;
      bounded = dispatch-Bounded os sig r h.bounded;
    }
Step-IsSafe {own} (ordered os pid why r) h =
    let (same, more) = respond_to_pid-IsJustified os pid (manual why) "" "" r in
    record {
      self = same.own ∙ h.self;
      spared =
          Extends-spared (λ c. IsJustified os r.own_pid r.mode c × (target c ≡ pid)) own r
            (respond_to_pid os pid (manual why) "" "" r).0 (λ c a _ e. a.0.not_own (e ∙ sym h.self))
            more h.spared;
      bounded = respond_to_pid-Bounded os pid (manual why) "" "" r h.bounded;
    }
Step-IsSafe {own} (released os pid r) h = elim (Option-cases os.minifilter) [
  | inl e ↦ rw (e, release_by) (record { self = h.self; spared = h.spared; bounded = h.bounded })
  | inr (m, e) ↦
      rw (e, release_by)
        (record { self = h.self; spared = (λ k. absurd (cc k), h.spared); bounded = h.bounded })
]
Step-IsSafe (switched mode r) h = record { self = h.self; spared = h.spared; bounded = h.bounded }
Step-IsSafe (scored e r) h = record { self = h.self; spared = h.spared; bounded = h.bounded }

-- In every state that a run reaches, the agent itself was never asked to be quarantined or ended,
-- and the history holds at most 1000 actions.
pub Reach-IsSafe : {own : ℕ} {r r' : Responder} → IsSafe own r → Reach r r' → IsSafe own r'
Reach-IsSafe h here = h
Reach-IsSafe h (next reach step) = Step-IsSafe step (Reach-IsSafe h reach)
