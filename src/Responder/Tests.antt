-- ===== src/Responder/Tests.antt =====
-- The responder's and the never-kill rules' theorems at concrete inputs, and test runs.
use mathlib.Core.List.{Memᴰ}
use xodusmile.Prelude.{
  ℕ, String, ◌≡◌, ◌↔◌, ◌⊎◌, refl, true, false, Option, none, some, List, [], ◌∷◌, arith, elem,
  lower, normcase, normcase_char, begins_with, is_empty, ends_with_separator, mem, add, discard,
  lookup, join_words, first_chars, keep, All, last_slice, map, strip,
}
use xodusmile.Signal.{
  Signal, high, critical, int, text, pos, returned, raised, positive_int, first_positive, truthy,
  pid_of,
}
use xodusmile.Scoring.{
  names_pid, forget_pid, signal_window, evict, evict_old, has_encryption_activity, recent_signals,
  activity_in, trusted,
}
use xodusmile.Scoring.Submit.{IsActivity}
use xodusmile.Protection.{
  default_root, join_path, trusted_dirs, under_any, path_is_untrusted, is_never_kill,
  is_masquerading,
}
use xodusmile.Protection.Laws.{is_never_kill-masquerading}
use xodusmile.Responder.Types.{
  kill, Reason, manual, detected, open_failed, kill_raised, gone, failed, no_handle, done, Os, Call,
  terminate_request, Responder, look_up, allowlisted, terminate,
}
use xodusmile.Responder.{
  respond_to_pid, act, noop, record_action, fully_handled, quarantine_step, quarantine_by,
  quarantine_answer, kill_step, kill_answer,
}
use xodusmile.Responder.Listener.{
  dispatch, is_confident, is_critical, extract_pid, dispatch_pid, two_detectors, extract_parent_pid,
  is_lolbin_signal, escalate, record_observed,
}
use xodusmile.Responder.Calls.{SameSetup, Extends}
use xodusmile.Responder.Dispatch.{Accused, dispatch-Accused}
use xodusmile.Responder.Evidence.{TwoDetectors, is_confident_iff}
use xodusmile.Responder.Outcome.{refuses}
use xodusmile.Responder.Reporting.{respond_and_report, respond_and_report_killed}
use xodusmile.Reporter.Joining.{Machine, Campaign, signal_pid}
use xodusmile.Reporter.{Reporter, on_action, find_state}
use xodusmile.Reporter.Behaviors.{signame_from_reason, behind_slash, reason_text}
use xodusmile.Responder.Runs.{here, next, signalled, IsSafe, Reach-IsSafe}

-- PID 42 is a dropper, PID 7 the genuine lsass, PID 100 the agent.
abbrev process : ℕ → Option (String × List String)
process pid = elim (mem pid (7 ∷ [])) [
  | true ↦ some ("lsass.exe", [])
  | false ↦ some ("dropper.exe", "dropper.exe" ∷ "/quiet" ∷ [])
]

abbrev os : Os
os = record {
  now = 500;
  root = default_root;
  has_psutil = true;
  process = process;
  exe = λ pid. none;
  psutil_kill = λ pid. gone;
  windows = true;
  win32_kill = λ pid. done;
  minifilter = some (record { quarantine_pid = λ pid. returned true; release_pid = λ pid. true });
  pid_allowed = some (λ pid. raised);
}

abbrev locked_os : Os
locked_os = record os { psutil_kill = λ pid. failed; win32_kill = λ pid. no_handle }

-- PID 42 is now a process that may not be acted on.
abbrev reused_os : Os
reused_os = record os { process = λ pid. some ("lsass.exe", []) }

abbrev wipe : Signal
wipe = record {
  ident = 1;
  detector = "process_cmdline";
  name = "vss_delete";
  weight = 70;
  severity = critical;
  metadata = ("pid", int (pos 42)) ∷ ("ppid", int (pos 41)) ∷ ("process", text "vssadmin.exe") ∷ [];
  timestamp = 450;
}

abbrev fanout : Signal
fanout = record wipe {
  ident = 2;
  detector = "process_watcher";
  name = "child_fanout";
  severity = high;
}

abbrev start : Responder
start = record {
  mode = kill;
  actions = [];
  already_killed = [];
  already_quarantined = [];
  own_pid = 100;
  engine = record { signals = wipe ∷ fanout ∷ []; window = signal_window };
  calls = [];
}

program : Unit {0}
unfolding respond_to_pid dispatch dispatch_pid is_confident extract_pid extract_parent_pid
    is_lolbin_signal two_detectors act noop record_action fully_handled quarantine_step
    quarantine_by quarantine_answer kill_step kill_answer escalate record_observed look_up
    allowlisted terminate is_never_kill is_masquerading path_is_untrusted trusted_dirs under_any
    join_path ends_with_separator lower normcase normcase_char begins_with is_empty elem mem add
    discard lookup join_words first_chars positive_int first_positive truthy forget_pid names_pid
    keep evict evict_old has_encryption_activity activity_in recent_signals trusted last_slice
program = tt

-- A CRITICAL signal of a tool: the tool and its parent are quarantined and ended.
calls-dispatch :
    (dispatch os wipe start).calls
    ≡ terminate_request 41
      ∷ Call.quarantine_request 41
      ∷ terminate_request 42
      ∷ Call.quarantine_request 42
      ∷ []
unfolding program
calls-dispatch = refl

dropper_not_refused : refuses os 42 start ≡ false
unfolding program
dropper_not_refused = refl

lsass_refused : refuses os 7 start ≡ true
unfolding program
lsass_refused = refl

nothing_killed : mem 42 start.already_killed ≡ false
unfolding program
nothing_killed = refl

os_terminates : terminate os 42 ≡ none
unfolding program
os_terminates = refl

reused_refused :
    refuses reused_os 42 (respond_to_pid os 42 (manual "operator") "" "" start).0 ≡ true
unfolding program
reused_refused = refl

locked_fails : terminate locked_os 42 ≡ some (open_failed kill_raised)
unfolding program
locked_fails = refl

dispatch-Accused_example :
    SameSetup start (dispatch os wipe start)
    × Extends (Accused os wipe start) start (dispatch os wipe start)
dispatch-Accused_example = dispatch-Accused os wipe start

is_confident_iff_example : ((is_confident os 42 fanout start.engine).1 ≡ true) ↔ (
    (is_critical fanout.severity ≡ true)
    ⊎ ((s : Signal) × Memᴰ s (evict_old os.now start.engine).signals × IsActivity (some fanout) s)
    ⊎ TwoDetectors 42
        (recent_signals os.now 200 (has_encryption_activity os.now (some fanout) start.engine).0).1)
is_confident_iff_example = is_confident_iff os 42 fanout start.engine

abbrev order : Reason
order = manual "operator"

start-IsSafe : IsSafe 100 start
start-IsSafe = record { self = refl; spared = tt; bounded = omega arith }

Reach-IsSafe_example : IsSafe 100 (dispatch os wipe start)
Reach-IsSafe_example = Reach-IsSafe start-IsSafe (next here (signalled os wipe start))

impostor_masquerades : is_masquerading default_root "svchost.exe" "C:\\Temp\\svchost.exe" ≡ true
unfolding program
impostor_masquerades = refl

is_never_kill-masquerading_example :
    is_never_kill default_root "svchost.exe" "C:\\Temp\\svchost.exe" ≡ false
is_never_kill-masquerading_example =
    is_never_kill-masquerading default_root "svchost.exe" "C:\\Temp\\svchost.exe"
      impostor_masquerades

abbrev machine : Machine
machine = record { now = 500; stamp = λ t. "20260101_120000"; writable = λ file. true }

abbrev detection : Reason
detection = detected "process_cmdline" "vss_delete"

abbrev reporter : Reporter
reporter = record {
  engine = start.engine;
  notify = true;
  reported_states = [];
  records = [];
  campaigns = [];
  window = [];
  popups = 0;
  files = [];
  stopped = false;
}

signals_agree : All (λ s. signal_pid s ≡ pid_of s) start.engine.signals
unfolding program pid_of signal_pid
signals_agree = (refl, (refl, tt))

respond_and_report_killed_example :
    (respond_and_report os machine 42 detection "" "" (start, reporter)).1.campaigns
    ≡ (on_action machine
        (respond_to_pid os 42 detection "" "" start).1
        (record reporter { engine = record start.engine { signals = [] } })).campaigns
respond_and_report_killed_example =
    respond_and_report_killed os 42 detection "" "" start refl nothing_killed os_terminates machine
      reporter dropper_not_refused signals_agree

-- The report of the kill has none of the two signals that led to it.
report_empty :
    map
      (λ (c : Campaign). c.signals)
      (respond_and_report os machine 42 detection "" "" (start, reporter)).1.campaigns
    ≡ [] ∷ []
unfolding program respond_and_report on_action find_state signame_from_reason behind_slash
    reason_text strip pid_of
report_empty = refl
