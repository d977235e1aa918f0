-- ===== src/Minifilter.antt =====
-- detectors/minifilter_bridge.py: the bridge to the kernel driver. This file has its data;
-- Accounting counts writes and renames, Handling takes an event, and Port has the connection and the
-- commands. A map with a default is a function. One clock reading serves an event.
pub mod Kind
pub mod Accounting
pub mod Handling
pub mod History
pub mod Windows
pub mod Backing
pub mod Bursts
pub mod Detection
pub mod Filters
pub mod Port
pub mod Sessions
pub mod Receiving
mod Tests
mod PortTests
use xodusmile.Prelude.{
  ℕ, zero, suc, ◌+◌, ◌-◌, ◌*◌, String, Bool, true, false, not, ◌&&◌, ◌||◌, Option, none, some, List,
  [], ◌∷◌, ◌++◌, ◌==◌, ltb, leb, if◌then◌else◌, any, length, lower, contains, is_empty, first_chars,
  map,
}
use xodusmile.Signal.{Signal, Severity, low, high, Value, int, pos, text, real, Metadata, second}
use xodusmile.Detector.{emit}

abbrev pub setinfo_rename : ℕ
setinfo_rename = 1

abbrev pub setinfo_delete : ℕ
setinfo_delete = 2

abbrev pub pid_write_burst_bytes : ℕ
pid_write_burst_bytes = 75 * 1024 * 1024

abbrev pub pid_write_burst_window : ℕ
pid_write_burst_window = 4 * second

abbrev pub pid_rename_burst_count : ℕ
pid_rename_burst_count = 20

abbrev pub pid_rename_burst_window : ℕ
pid_rename_burst_window = 5 * second

abbrev pub noisy_paths : List String
noisy_paths =
    "\\appdata\\local\\google\\chrome\\" ∷ "\\appdata\\local\\microsoft\\edge\\"
    ∷ "\\appdata\\local\\microsoft\\windows\\" ∷ "\\appdata\\roaming\\microsoft\\windows\\recent\\"
    ∷ "\\windows\\softwaredistribution\\" ∷ "\\windows\\system32\\config\\" ∷ "\\windows\\temp\\"
    ∷ "\\windows\\winsxs\\" ∷ "\\$recycle.bin\\" ∷ "\\system volume information\\" ∷ "\\indexeddb\\"
    ∷ "\\cache_data\\" ∷ "\\jumplisticons" ∷ "\\customdestinations" ∷ "\\appdata\\local\\comms\\"
    ∷ "\\appdata\\local\\packages\\" ∷ "__psscriptpolicytest" ∷ "\\symbols\\"
    ∷ "\\programdata\\usoprivate\\" ∷ "\\programdata\\microsoft\\windows defender\\"
    ∷ "\\appdata\\local\\temp\\" ∷ []

-- The fields of `RG_EVENT` that the bridge reads.
pub record Event : Type 0 where
  pub kind : ℕ
  pub sub_kind : ℕ
  pub process_id : ℕ
  pub parent_process_id : ℕ
  pub status : ℕ
  pub desired_access : ℕ
  pub write_bytes : ℕ
  pub path_length : ℕ
  pub extra_length : ℕ
  pub path : String
  pub extra : String

-- `_PidIoState`
pub record PidIoState : Type 0 where
  pub write_total : ℕ
  pub write_window_start : ℕ
  pub rename_times : List ℕ

-- The keys of `_burst_alerted`: `pid` and `(pid, "rename")`.
pub data BurstKey : Type 0 where
  writes : ℕ → BurstKey
  renames : ℕ → BurstKey

-- A call of a subscriber.
pub record Delivery : Type 0 where
  pub subscriber : ℕ
  pub event : Event

pub record Bridge : Type 0 where
  pub own_pid : ℕ
  pub pids : ℕ → PidIoState
  pub burst_alerted : BurstKey → ℕ
  pub known_paths : ℕ → String
  pub process_subs : List ℕ
  pub registry_subs : List ℕ
  pub tamper_subs : List ℕ
  pub delivered : List Delivery
  pub emitted : List Signal

abbrev pub new_bridge : ℕ → Bridge
new_bridge own_pid = record {
  own_pid = own_pid;
  pids = λ pid. record { write_total = 0; write_window_start = 0; rename_times = [] };
  burst_alerted = λ key. 0;
  known_paths = λ pid. "";
  process_subs = [];
  registry_subs = [];
  tamper_subs = [];
  delivered = [];
  emitted = [];
}

-- `subscribe_process`, `subscribe_registry`, `subscribe_tamper`
unfoldable pub subscribe_process : ℕ → Bridge → Bridge
subscribe_process fn b = record b { process_subs = b.process_subs ++ fn ∷ [] }

unfoldable pub subscribe_registry : ℕ → Bridge → Bridge
subscribe_registry fn b = record b { registry_subs = b.registry_subs ++ fn ∷ [] }

unfoldable pub subscribe_tamper : ℕ → Bridge → Bridge
subscribe_tamper fn b = record b { tamper_subs = b.tamper_subs ++ fn ∷ [] }
