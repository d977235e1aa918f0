-- ===== src/Responder/Reporting.antt =====
-- responder.py: the callback of `_record`, to which agent.py gives the reporter's on_action; and the
-- engine that both share, as a termination leaves it.
use xodusmile.Prelude.{
  ℕ, String, ◌≡◌, inl, inr, refl, sym, ap, ◌∙◌, Bool, true, false, Option, none, some, [], ◌∷◌,
  arith, mem, All, Bool-cases, subst, if◌then◌else◌,
}
use xodusmile.Signal.{Answer, returned, raised, pid_of}
use xodusmile.Scoring.{Engine, forget_pid}
use xodusmile.Responder.Types.{
  is_off, is_kill, Reason, Note, already_handled, KillAction, Minifilter, Os, quarantine_request,
  Responder, terminate,
}
use xodusmile.Responder.{
  record_action, quarantine_answer, quarantine_by, quarantine_step, act, fully_handled,
  respond_to_pid,
}
use xodusmile.Responder.Outcome.{refuses, respond_to_pid-act}
use xodusmile.Responder.Kill.{respond_to_pid-IsKilled, kill_step_done, quarantine_step-keeps}
use xodusmile.Reporter.Joining.{Machine, signal_pid}
use xodusmile.Reporter.{Reporter, on_action}
use xodusmile.Reporter.Others.{IsOther, forget_pid-IsOther, on_action-other}

-- The callback, after which both see the same engine.
unfoldable pub call_back : Machine → KillAction → Responder × Reporter → Responder × Reporter
call_back m action (r, reporter) =
    let reporter' = on_action m action (record reporter { engine = r.engine }) in
    (record r { engine = reporter'.engine }, reporter')

abbrev pub is_handled : Option Note → Bool
is_handled (some already_handled) = true
is_handled _ = false

-- `_respond_to_pid` with the callback of `_record`, which an action that is already handled does not
-- reach.
unfoldable pub respond_and_report :
    Os → Machine → ℕ → Reason → String → String → Responder × Reporter → Responder × Reporter
unfolding call_back
respond_and_report os m pid reason name cmd (r, reporter) =
    let (r', action) = respond_to_pid os pid reason name cmd r in
    if is_handled action.error then (r', reporter) else call_back m action (r', reporter)

quarantine_answer-is_handled :
    (pid : ℕ) (a : Answer) (r : Responder) → is_handled (quarantine_answer pid a r).2 ≡ false
unfolding quarantine_answer
quarantine_answer-is_handled pid (returned true) r = refl
quarantine_answer-is_handled pid (returned false) r = refl
quarantine_answer-is_handled pid raised r = refl

quarantine_by-is_handled :
    (m : Option Minifilter) (pid : ℕ) (r : Responder) → is_handled (quarantine_by m pid r).2 ≡ false
unfolding quarantine_by
quarantine_by-is_handled none pid r = refl
quarantine_by-is_handled (some m) pid r =
    quarantine_answer-is_handled pid (m.quarantine_pid pid)
      (record r { calls = quarantine_request pid ∷ r.calls })

quarantine_step-is_handled :
    (os : Os) (pid : ℕ) (r : Responder) → is_handled (quarantine_step os pid r).2 ≡ false
unfolding quarantine_step
quarantine_step-is_handled os pid r = elim (Bool-cases (mem pid r.already_quarantined)) [
  | inl e ↦ rw e refl
  | inr e ↦ rw e (quarantine_by-is_handled os.minifilter pid r)
]

-- The action of a kill is about the process, and it reaches the callback.
abbrev IsCalledBack : ℕ → Responder × KillAction → Type 0
IsCalledBack pid (r, action) = (action.pid ≡ pid) × (is_handled action.error ≡ false)

module _ (os : Os) (pid : ℕ) (reason : Reason) (name cmd : String) (r : Responder)
    (k : is_kill r.mode ≡ true) (fresh : mem pid r.already_killed ≡ false)
    (ok : terminate os pid ≡ none) where
  act-IsCalledBack : (n c : String) → IsCalledBack pid (act os pid reason n c r)
  unfolding act record_action
  act-IsCalledBack n c =
      let todo : fully_handled pid r ≡ false = unfold fully_handled in ground arith in
      let on : is_off r.mode ≡ false = ground arith in
      let (r₁, quarantined, n₁) = quarantine_step os pid r in
      let (same_killed, same_engine, same_mode) = quarantine_step-keeps os pid r in
      let step = kill_step_done os pid n₁ r₁ (rw same_mode k) (rw same_killed fresh) ok in
      rw (todo, on, step) (refl, quarantine_step-is_handled os pid r)

  respond_to_pid-IsCalledBack :
      refuses os pid r ≡ false → IsCalledBack pid (respond_to_pid os pid reason name cmd r)
  respond_to_pid-IsCalledBack h =
      let (n, c, e) = respond_to_pid-act os pid reason name cmd r h in rw e (act-IsCalledBack n c)

  -- In KILL mode, where a process that may be acted on and was not killed before is ended by the system,
  -- the incident joins its campaign as if the engine had no signals: none of the process's is captured,
  -- since they are forgotten before the reporter is called. It is assumed that no signal of the window
  -- names different processes to the engine and to the reporter.
  pub respond_and_report_killed :
      (m : Machine) (reporter : Reporter)
      → refuses os pid r ≡ false
      → All (λ s. signal_pid s ≡ pid_of s) r.engine.signals
      → (respond_and_report os m pid reason name cmd (r, reporter)).1.campaigns
        ≡ (on_action m
            (respond_to_pid os pid reason name cmd r).1
            (record reporter { engine = record r.engine { signals = [] } })).campaigns
  unfolding respond_and_report forget_pid
  respond_and_report_killed m reporter h agree =
      let killed = respond_to_pid-IsKilled os pid reason name cmd r h k fresh ok in
      let (same_pid, called) = respond_to_pid-IsCalledBack h in
      let action = (respond_to_pid os pid reason name cmd r).1 in
      let left = (forget_pid pid r.engine).0 in
      let other : All (IsOther action.pid) left.signals =
        subst (λ q. All (IsOther q) left.signals) (sym same_pid)
          (forget_pid-IsOther pid r.engine.signals agree) in
      rw called (
        ap (λ (e : Engine). (on_action m action (record reporter { engine = e })).campaigns)
          killed.forgotten
        ∙ on_action-other m action reporter left other)
