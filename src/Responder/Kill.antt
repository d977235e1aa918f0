-- ===== src/Responder/Kill.antt =====
-- What a termination changes: the killed set, the live score, and the next response.
use xodusmile.Prelude.{
  ℕ, String, Bool, ◌≡◌, inl, inr, refl, ap, ◌∙◌, true, false, not, ◌&&◌, Option, none, some, List,
  ◌∷◌, arith, mem, add, Bool-cases,
}
use xodusmile.Signal.{Answer, returned, raised}
use xodusmile.Scoring.{Engine, forget_pid}
use xodusmile.Responder.Types.{
  is_off, is_kill, Reason, Note, Failure, KillAction, Minifilter, Os, Call, quarantine_request,
  terminate_request, Responder, terminate,
}
use xodusmile.Responder.{
  record_action, quarantine_answer, quarantine_by, quarantine_step, kill_answer, kill_step, act,
  fully_handled, respond_to_pid,
}
use xodusmile.Responder.Outcome.{
  SameButActions, refuses, respond_to_pid_refused, respond_to_pid-act,
}

quarantine_answer-keeps :
    (pid : ℕ) (a : Answer) (r : Responder)
    → ((quarantine_answer pid a r).0.already_killed ≡ r.already_killed)
      × ((quarantine_answer pid a r).0.engine ≡ r.engine)
      × ((quarantine_answer pid a r).0.mode ≡ r.mode)
unfolding quarantine_answer
quarantine_answer-keeps pid (returned true) r = (refl, refl, refl)
quarantine_answer-keeps pid (returned false) r = (refl, refl, refl)
quarantine_answer-keeps pid raised r = (refl, refl, refl)

quarantine_by-keeps :
    (m : Option Minifilter) (pid : ℕ) (r : Responder)
    → ((quarantine_by m pid r).0.already_killed ≡ r.already_killed)
      × ((quarantine_by m pid r).0.engine ≡ r.engine)
      × ((quarantine_by m pid r).0.mode ≡ r.mode)
unfolding quarantine_by
quarantine_by-keeps none pid r = (refl, refl, refl)
quarantine_by-keeps (some m) pid r =
    quarantine_answer-keeps pid (m.quarantine_pid pid)
      (record r { calls = quarantine_request pid ∷ r.calls })

pub quarantine_step-keeps :
    (os : Os) (pid : ℕ) (r : Responder)
    → ((quarantine_step os pid r).0.already_killed ≡ r.already_killed)
      × ((quarantine_step os pid r).0.engine ≡ r.engine)
      × ((quarantine_step os pid r).0.mode ≡ r.mode)
unfolding quarantine_step
quarantine_step-keeps os pid r = elim (Bool-cases (mem pid r.already_quarantined)) [
  | inl e ↦ rw e (refl, refl, refl)
  | inr e ↦ rw e (quarantine_by-keeps os.minifilter pid r)
]

-- The kill succeeded: the PID counts as killed, and the live score forgot it.
pub record IsKilled (pid : ℕ) (r : Responder) (r' : Responder) (a : KillAction) : Type 0 where
  pub recorded : r'.already_killed ≡ add pid r.already_killed
  pub forgotten : r'.engine ≡ (forget_pid pid r.engine).0
  pub asked : (rest : List Call) × (r'.calls ≡ terminate_request pid ∷ rest)
  pub shown : a.terminated ≡ true
  pub same_mode : r'.mode ≡ r.mode

pub kill_step_done :
    (os : Os) (pid : ℕ) (n : Option Note) (r : Responder)
    → is_kill r.mode ≡ true
    → mem pid r.already_killed ≡ false
    → terminate os pid ≡ none
    → kill_step os pid n r ≡ (
      record r {
        calls = terminate_request pid ∷ r.calls;
        already_killed = add pid r.already_killed;
        engine = (forget_pid pid r.engine).0;
      },
      true,
      n,
    )
unfolding kill_step kill_answer
kill_step_done os pid n r k fresh ok = rw (k, fresh, ok, kill_answer) refl

act-IsKilled :
    (os : Os) (pid : ℕ) (reason : Reason) (name cmd : String) (r : Responder)
    → is_kill r.mode ≡ true
    → mem pid r.already_killed ≡ false
    → terminate os pid ≡ none
    → IsKilled pid r (act os pid reason name cmd r).0 (act os pid reason name cmd r).1
unfolding act record_action
act-IsKilled os pid reason name cmd r k fresh ok =
    let todo : fully_handled pid r ≡ false = unfold fully_handled in ground arith in
    let on : is_off r.mode ≡ false = ground arith in
    let (r₁, quarantined, n₁) = quarantine_step os pid r in
    let (same_killed, same_engine, same_mode) = quarantine_step-keeps os pid r in
    let step = kill_step_done os pid n₁ r₁ (rw same_mode k) (rw same_killed fresh) ok in
    rw (todo, on, step)
      (record {
        recorded = ap (add pid) same_killed;
        forgotten = ap (λ (e : Engine). (forget_pid pid e).0) same_engine;
        asked = (r₁.calls, refl);
        shown = refl;
        same_mode = same_mode;
      })

-- In KILL mode a process that may be acted on, was not killed before, and that the system ends, is
-- recorded as killed, its signals leave the engine, the last request made is its termination, the
-- action shows it, and the mode stays.
pub respond_to_pid-IsKilled :
    (os : Os) (pid : ℕ) (reason : Reason) (name cmd : String) (r : Responder)
    → refuses os pid r ≡ false
    → is_kill r.mode ≡ true
    → mem pid r.already_killed ≡ false
    → terminate os pid ≡ none
    → IsKilled pid r
        (respond_to_pid os pid reason name cmd r).0
        (respond_to_pid os pid reason name cmd r).1
respond_to_pid-IsKilled os pid reason name cmd r h k fresh ok =
    let (n, c, e) = respond_to_pid-act os pid reason name cmd r h in
    rw e (act-IsKilled os pid reason n c r k fresh ok)

-- What a response to a handled PID leaves: the same state if the process may be acted on, and else all of
-- it but the history of actions; the answer to a refused one shows neither quarantine nor termination.
abbrev pub IsIdle : (refused : Bool) → Responder → Responder × KillAction → Type 0
IsIdle false r (r', a) = r' ≡ r
IsIdle true r (r', a) = SameButActions r r' × (a.quarantined ≡ false) × (a.terminated ≡ false)

kill_step_failed :
    (os : Os) (pid : ℕ) (n : Option Note) (f : Failure) (r : Responder)
    → terminate os pid ≡ some f
    → ((kill_step os pid n r).0.already_killed ≡ r.already_killed)
      × ((kill_step os pid n r).0.engine ≡ r.engine)
unfolding kill_step kill_answer
kill_step_failed os pid n f r failed =
    elim (Bool-cases (is_kill r.mode && not (mem pid r.already_killed))) [
      | inl e ↦ rw (e, failed, kill_answer) (refl, refl)
      | inr e ↦ rw e (refl, refl)
    ]

act_failed :
    (os : Os) (pid : ℕ) (reason : Reason) (name cmd : String) (f : Failure) (r : Responder)
    → terminate os pid ≡ some f
    → ((act os pid reason name cmd r).0.already_killed ≡ r.already_killed)
      × ((act os pid reason name cmd r).0.engine ≡ r.engine)
unfolding act record_action
act_failed os pid reason name cmd f r failed = elim (Bool-cases (fully_handled pid r)) [
  | inl done ↦ rw done (refl, refl)
  | inr todo ↦ elim (Bool-cases (is_off r.mode)) [
    | inl o ↦ rw (todo, o) (refl, refl)
    | inr on ↦
        let (r₁, quarantined, n₁) = quarantine_step os pid r in
        let (same_killed, same_engine, same_mode) = quarantine_step-keeps os pid r in
        let (k, e) = kill_step_failed os pid n₁ f r₁ failed in
        rw (todo, on) (k ∙ same_killed, e ∙ same_engine)
  ]
]

-- Where the system does not end the process, it does not count as killed and the engine keeps its
-- signals, so that the next signal can bring a new attempt.
pub respond_to_pid_failed :
    (os : Os) (pid : ℕ) (reason : Reason) (name cmd : String) (f : Failure) (r : Responder)
    → terminate os pid ≡ some f
    → ((respond_to_pid os pid reason name cmd r).0.already_killed ≡ r.already_killed)
      × ((respond_to_pid os pid reason name cmd r).0.engine ≡ r.engine)
respond_to_pid_failed os pid reason name cmd f r failed = elim (Bool-cases (refuses os pid r)) [
  | inl no_action ↦
      let (same, q, t) = respond_to_pid_refused os pid reason name cmd r no_action in
      (same.killed, same.engine)
  | inr go ↦
      let (n, c, e) = respond_to_pid-act os pid reason name cmd r go in
      rw e (act_failed os pid reason n c f r failed)
]
