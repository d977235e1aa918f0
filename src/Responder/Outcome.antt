-- ===== src/Responder/Outcome.antt =====
-- What one `_respond_to_pid` comes to: refused, already handled, failed, or done.
use xodusmile.Prelude.{
  ℕ, String, ◌≡◌, inl, inr, refl, Bool, true, false, ◌||◌, some, arith, ◌==◌, Bool-cases,
}
use xodusmile.Protection.{is_never_kill}
use xodusmile.Responder.Types.{
  Reason, KillAction, Os, Responder, look_up, allowlisted, already_handled,
}
use xodusmile.Responder.{record_action, noop, act, fully_handled, respond_to_pid, or_hint}

-- Everything but the history of actions.
pub record SameButActions (r r' : Responder) : Type 0 where
  pub mode : r'.mode ≡ r.mode
  pub killed : r'.already_killed ≡ r.already_killed
  pub quarantined : r'.already_quarantined ≡ r.already_quarantined
  pub own : r'.own_pid ≡ r.own_pid
  pub engine : r'.engine ≡ r.engine
  pub calls : r'.calls ≡ r.calls

pub record_action-SameButActions :
    (a : KillAction) (r : Responder) → SameButActions r (record_action a r).0
unfolding record_action
record_action-SameButActions a r = record {
  mode = refl;
  killed = refl;
  quarantined = refl;
  own = refl;
  engine = refl;
  calls = refl;
}

-- The process is the agent itself, or on the never-kill list, or allowlisted.
abbrev pub refuses : Os → ℕ → Responder → Bool
refuses os pid r =
    pid == r.own_pid
    || (is_never_kill os.root (look_up os pid).name (look_up os pid).exe || allowlisted os pid)

-- A refusal touches nothing but the history, and its action says that nothing was done.
pub respond_to_pid_refused :
    (os : Os) (pid : ℕ) (reason : Reason) (name cmd : String) (r : Responder)
    → refuses os pid r ≡ true
    → SameButActions r (respond_to_pid os pid reason name cmd r).0
      × ((respond_to_pid os pid reason name cmd r).1.quarantined ≡ false)
      × ((respond_to_pid os pid reason name cmd r).1.terminated ≡ false)
unfolding respond_to_pid noop
respond_to_pid_refused os pid reason name cmd r h = elim (Bool-cases (pid == r.own_pid)) [
  | inl self ↦
      rw self (
        record_action-SameButActions _ r,
        unfold record_action in refl,
        unfold record_action in refl,
      )
  | inr other ↦
      let view = look_up os pid in
      elim (Bool-cases (is_never_kill os.root view.name view.exe)) [
        | inl safe ↦
            rw (other, safe)
              (
                record_action-SameButActions _ r,
                unfold record_action in refl,
                unfold record_action in refl,
              )
        | inr killable ↦
            let allowed : allowlisted os pid ≡ true = ground arith in
            rw (other, killable, allowed)
              (
                record_action-SameButActions _ r,
                unfold record_action in refl,
                unfold record_action in refl,
              )
      ]
]

-- Past the refusals `_respond_to_pid` is `act`.
pub respond_to_pid-act :
    (os : Os) (pid : ℕ) (reason : Reason) (name cmd : String) (r : Responder)
    → refuses os pid r ≡ false
    → (n c : String) × (respond_to_pid os pid reason name cmd r ≡ act os pid reason n c r)
unfolding respond_to_pid
respond_to_pid-act os pid reason name cmd r h =
    let other : (pid == r.own_pid) ≡ false = ground arith in
    let killable : is_never_kill os.root (look_up os pid).name (look_up os pid).exe ≡ false =
      ground arith in
    let not_allowed : allowlisted os pid ≡ false = ground arith in
    (
      or_hint (look_up os pid).name name,
      or_hint (look_up os pid).cmdline cmd,
      rw (other, killable, not_allowed) refl,
    )

-- A PID on which the mode's work is done is left alone: state, history and requests.
pub respond_to_pid_handled :
    (os : Os) (pid : ℕ) (reason : Reason) (name cmd : String) (r : Responder)
    → refuses os pid r ≡ false
    → fully_handled pid r ≡ true
    → ((respond_to_pid os pid reason name cmd r).0 ≡ r)
      × ((respond_to_pid os pid reason name cmd r).1.error ≡ some already_handled)
respond_to_pid_handled os pid reason name cmd r h done =
    let (n, c, e) = respond_to_pid-act os pid reason name cmd r h in
    rw e (unfold act in rw done (refl, refl))
