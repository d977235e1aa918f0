-- ===== src/Responder/Types.antt =====
-- The data of responder.py, and what psutil, Win32, the driver and the allowlist answer.
use xodusmile.Prelude.{
  ℕ, String, Bool, true, false, Option, none, some, List, if◌then◌else◌, join_words, first_chars,
}
use xodusmile.Signal.{Answer, answered}
use xodusmile.Scoring.{Engine}

-- `ResponderMode`
pub data Mode : Type 0 where
  off quarantine kill : Mode

abbrev pub is_off : Mode → Bool
is_off off = true
is_off _ = false

abbrev pub is_quarantine : Mode → Bool
is_quarantine quarantine = true
is_quarantine _ = false

abbrev pub is_kill : Mode → Bool
is_kill kill = true
is_kill _ = false

-- The `reason` texts: `detector/name`, the parent's suffix, and an operator's reason.
pub data Reason : Type 0 where
  detected : (detector name : String) → Reason
  parent_of : Reason → ℕ → Reason
  manual : String → Reason

-- Why psutil did not end the process.
pub data FirstError : Type 0 where
  kill_raised did_not_exit no_psutil : FirstError

-- The error texts of `_terminate`, each behind psutil's.
pub data Failure : Type 0 where
  not_windows open_failed not_terminated win32_raised : FirstError → Failure

-- The `error` texts of an action.
pub data Note : Type 0 where
  self_kill already_handled mode_off observed_only quarantine_failed : Note
  protected : (name : String) → Note
  on_allowlist : (name : String) → Note
  kill_failed : Failure → Note
  both : Note → Failure → Note

pub record KillAction : Type 0 where
  pub timestamp : ℕ
  pub pid : ℕ
  pub process_name : String
  pub cmdline : String
  pub reason : Reason
  pub mode : Mode
  pub quarantined : Bool
  pub terminated : Bool
  pub error : Option Note

-- What `psutil.Process(pid).kill()` and the wait after it come to.
pub data PsutilKill : Type 0 where
  gone still_running no_such_process failed : PsutilKill

-- What `OpenProcess` and `TerminateProcess` come to.
pub data Win32Kill : Type 0 where
  no_handle refused done excepted : Win32Kill

-- The bridge to the driver, as the responder uses it.
pub record Minifilter : Type 0 where
  pub quarantine_pid : ℕ → Answer
  pub release_pid : ℕ → Bool

-- `process` gives the name and the command line, or nothing where psutil raises; so does `exe`.
pub record Os : Type 0 where
  pub now : ℕ
  pub root : String
  pub has_psutil : Bool
  pub process : ℕ → Option (String × List String)
  pub exe : ℕ → Option String
  pub psutil_kill : ℕ → PsutilKill
  pub windows : Bool
  pub win32_kill : ℕ → Win32Kill
  pub minifilter : Option Minifilter
  pub pid_allowed : Option (ℕ → Answer)

-- The requests that leave the responder.
pub data Call : Type 0 where
  quarantine_request terminate_request release_request : ℕ → Call

pub record Responder : Type 0 where
  pub mode : Mode
  pub actions : List KillAction
  pub already_killed : List ℕ
  pub already_quarantined : List ℕ
  pub own_pid : ℕ
  pub engine : Engine
  pub calls : List Call

pub record View : Type 0 where
  pub name : String
  pub cmdline : String
  pub exe : String

abbrev or_empty : Option String → String
or_empty none = ""
or_empty (some s) = s

abbrev view_of : Option (String × List String) → Option String → View
view_of none exe = record { name = ""; cmdline = ""; exe = "" }
view_of (some (name, cmdline)) exe = record {
  name = name;
  cmdline = first_chars 512 (join_words cmdline);
  exe = or_empty exe;
}

-- `_lookup`: an unreadable path leaves the name.
unfoldable pub look_up : Os → ℕ → View
look_up os pid =
    if os.has_psutil
    then view_of (os.process pid) (os.exe pid)
    else record { name = ""; cmdline = ""; exe = "" }

abbrev allowed_by : Option (ℕ → Answer) → ℕ → Bool
allowed_by none pid = false
allowed_by (some f) pid = answered (f pid)

-- The allowlist's answer; its exceptions are caught and count as "no".
unfoldable pub allowlisted : Os → ℕ → Bool
allowlisted os pid = allowed_by os.pid_allowed pid

abbrev win32_result : FirstError → Win32Kill → Option Failure
win32_result first no_handle = some (open_failed first)
win32_result first refused = some (not_terminated first)
win32_result first done = none
win32_result first excepted = some (win32_raised first)

win32_path : Os → ℕ → FirstError → Option Failure
win32_path os pid first =
    if os.windows then win32_result first (os.win32_kill pid) else some (not_windows first)

psutil_result : Os → ℕ → PsutilKill → Option Failure
unfolding win32_path
psutil_result os pid gone = none
psutil_result os pid no_such_process = none
psutil_result os pid still_running = win32_path os pid did_not_exit
psutil_result os pid failed = win32_path os pid kill_raised

-- `_terminate`: `none` is the success `(True, None)`.
unfoldable pub terminate : Os → ℕ → Option Failure
unfolding psutil_result win32_path
terminate os pid =
    if os.has_psutil then psutil_result os pid (os.psutil_kill pid) else win32_path os pid no_psutil
