-- ===== src/Responder.antt =====
-- responder.py: the process responder. Its state is the object's fields and the engine that it
-- refers to; `calls` lists, newest first, the requests that it made of the kernel and of the system.
-- What psutil, Win32, the driver and the allowlist answer are arguments (`Os`), one per handler call,
-- so nothing is assumed of them, and they may answer anything else at the next call.
pub mod Types
pub mod Listener
pub mod Calls
pub mod Dispatch
pub mod Outcome
pub mod Kill
pub mod Reporting
pub mod Runs
pub mod Evidence
mod Tests
pub use Types.*
use xodusmile.Prelude.{
  ℕ, zero, suc, String, Bool, true, false, not, ◌&&◌, ◌||◌, Option, none, some, List, [], ◌∷◌, ◌++◌,
  ltb, leb, ◌==◌, if◌then◌else◌, lookup, elem, mem, add, discard, lower, length, last_slice,
  is_empty,
}
use xodusmile.Signal.{
  Signal, Severity, high, critical, Metadata, Value, text, first_positive, Answer, returned, raised,
  answered,
}
use xodusmile.Scoring.{Engine, has_encryption_activity, recent_signals, forget_pid}
use xodusmile.Protection.{is_never_kill, escalate_child_names}

abbrev pub max_actions : ℕ
max_actions = 1000

-- `_record`: the history is cut to its last 1000 entries.
unfoldable pub record_action : KillAction → Responder → Responder × KillAction
record_action action r =
    let actions = r.actions ++ action ∷ [] in
    (
      record r {
        actions =
            if ltb max_actions (length actions) then last_slice max_actions actions else actions;
      },
      action,
    )

unfoldable pub noop : Os → ℕ → Reason → Note → Responder → Responder × KillAction
unfolding record_action
noop os pid reason why r =
    record_action
      (record {
        timestamp = os.now;
        pid = pid;
        process_name = "";
        cmdline = "";
        reason = reason;
        mode = r.mode;
        quarantined = false;
        terminated = false;
        error = some why;
      })
      r

quarantine_answer : ℕ → Answer → Responder → Responder × Bool × Option Note
quarantine_answer pid (returned true) r =
    (record r { already_quarantined = add pid r.already_quarantined }, true, none)
quarantine_answer pid (returned false) r = (r, false, none)
quarantine_answer pid raised r = (r, false, some quarantine_failed)

quarantine_by : Option Minifilter → ℕ → Responder → Responder × Bool × Option Note
unfolding quarantine_answer
quarantine_by none pid r = (r, false, none)
quarantine_by (some m) pid r =
    quarantine_answer pid (m.quarantine_pid pid)
      (record r { calls = quarantine_request pid ∷ r.calls })

-- The quarantine part of `_respond_to_pid`, with the flag and the error that it leaves.
unfoldable pub quarantine_step : Os → ℕ → Responder → Responder × Bool × Option Note
unfolding quarantine_by
quarantine_step os pid r =
    if mem pid r.already_quarantined then (r, true, none) else quarantine_by os.minifilter pid r

abbrev and_note : Option Note → Failure → Note
and_note none f = kill_failed f
and_note (some n) f = both n f

kill_answer : ℕ → Option Note → Option Failure → Responder → Responder × Bool × Option Note
kill_answer pid error none r = (
  record r { already_killed = add pid r.already_killed; engine = (forget_pid pid r.engine).0 },
  true,
  error,
)
kill_answer pid error (some f) r = (r, false, some (and_note error f))

-- The terminating part, with the call of `forget_pid` that follows a success.
unfoldable pub kill_step : Os → ℕ → Option Note → Responder → Responder × Bool × Option Note
unfolding kill_answer
kill_step os pid error r =
    if is_kill r.mode && not (mem pid r.already_killed)
    then kill_answer pid error (terminate os pid)
        (record r { calls = terminate_request pid ∷ r.calls })
    else (r, mem pid r.already_killed, error)

abbrev action_of : Os → ℕ → Reason → String → String → Mode → Bool → Bool → Option Note → KillAction
action_of os pid reason name cmdline mode quarantined terminated error = record {
  timestamp = os.now;
  pid = pid;
  process_name = name;
  cmdline = cmdline;
  reason = reason;
  mode = mode;
  quarantined = quarantined;
  terminated = terminated;
  error = error;
}

unfoldable pub fully_handled : ℕ → Responder → Bool
fully_handled pid r =
    is_kill r.mode && mem pid r.already_killed
    || is_quarantine r.mode && mem pid r.already_quarantined

-- `_respond_to_pid` behind its refusals.
unfoldable pub act : Os → ℕ → Reason → String → String → Responder → Responder × KillAction
unfolding fully_handled record_action
act os pid reason name cmdline r =
    if fully_handled pid r
    then (
      r,
      action_of os pid reason name cmdline r.mode (mem pid r.already_quarantined)
          (mem pid r.already_killed) (some already_handled),
    )
    else if is_off r.mode
    then record_action (action_of os pid reason name cmdline r.mode false false (some mode_off)) r
    else (let (r₁, quarantined, error₁) = quarantine_step os pid r in
        let (r₂, terminated, error₂) = kill_step os pid error₁ r₁ in
        record_action (action_of os pid reason name cmdline r₂.mode quarantined terminated error₂)
          r₂)

abbrev or_hint : String → String → String
or_hint s hint = if is_empty s then hint else s

-- `_respond_to_pid`
unfoldable pub respond_to_pid :
    Os → ℕ → Reason → String → String → Responder → Responder × KillAction
unfolding noop
respond_to_pid os pid reason name_hint cmd_hint r =
    if pid == r.own_pid
    then noop os pid reason self_kill r
    else (let view = look_up os pid in
        if is_never_kill os.root view.name view.exe
        then noop os pid reason (protected view.name) r
        else if allowlisted os pid
        then noop os pid reason (on_allowlist view.name) r
        else act os pid reason (or_hint view.name name_hint) (or_hint view.cmdline cmd_hint) r)
