-- ===== src/Minifilter/Tests.antt =====
-- The bridge's theorems at concrete inputs.
use Prim.Native.String.{◌++◌}
use xodusmile.Prelude.{
  ℕ, ◌*◌, ◌≡◌, refl, String, true, false, [], ◌∷◌, arith, any, elem, lower, contains, begins_with,
  first_chars, is_empty, lookup, length, All,
}
use xodusmile.Signal.{second, pid_of, positive_int, first_positive}
use xodusmile.Scoring.{names_pid}
use xodusmile.Detector.{emit}
use xodusmile.Minifilter.{Event, new_bridge, noisy_paths}
use xodusmile.Minifilter.Kind
use xodusmile.Minifilter.Accounting.{
  account_write, account_rename, expire, write_signal, rename_signal,
}
use xodusmile.Minifilter.Handling.{handle_event, event_path, is_noisy}
use xodusmile.Minifilter.History.{History, handle_all}
use xodusmile.Minifilter.Backing.{IsReal}
use xodusmile.Minifilter.Bursts.{handle_all-IsReal}
use xodusmile.Minifilter.Detection.{account_writes}

program : Unit {0}
unfolding handle_event account_write account_rename expire rename_signal write_signal event_path
    is_noisy emit any elem lower contains begins_with first_chars is_empty lookup account_writes
    names_pid pid_of positive_int first_positive
program = tt

abbrev megabyte : ℕ
megabyte = 1024 * 1024

abbrev pub event : ℕ → ℕ → String → Event
event kind bytes path = record {
  kind = kind;
  sub_kind = 0;
  process_id = 42;
  parent_process_id = 7;
  status = 0;
  desired_access = 0;
  write_bytes = bytes;
  path_length = 30;
  extra_length = 0;
  path = path;
  extra = "";
}

-- Two writes of 40 MB in 3 seconds, the newest first.
abbrev history : History
history =
    (13 * second, event Kind.write (40 * megabyte) "D:\\a.txt")
    ∷ (10 * second, event Kind.write (40 * megabyte) "D:\\a.txt")
    ∷ []

history_run : length (handle_all history (new_bridge 4)).emitted ≡ 1
unfolding program
history_run = refl

handle_all-IsReal_example : All (IsReal history) (handle_all history (new_bridge 4)).emitted
handle_all-IsReal_example = handle_all-IsReal 4 history ((omega arith, tt), (tt, tt))

abbrev temp_path : String
temp_path = "D:\\Windows\\Temp\\payroll.xlsx"

abbrev blocked : Event
blocked = event Kind.blocked 0 temp_path

blocked_path : is_empty (event_path blocked) ≡ false
unfolding program
blocked_path = refl

temp_elem : elem "\\windows\\temp\\" noisy_paths ≡ true
unfolding program
temp_elem = refl

blocked-lower : lower (event_path blocked) ≡ "d:" ++ ("\\windows\\temp\\" ++ "payroll.xlsx")
unfolding program
blocked-lower = refl
