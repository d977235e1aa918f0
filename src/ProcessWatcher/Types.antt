-- ===== src/ProcessWatcher/Types.antt =====
-- detectors/process_watcher.py: what psutil says of a process, its snapshot, and the watcher's state.
use xodusmile.Prelude.{
  ℕ, String, Option, none, some, List, [], ◌==◌, if◌then◌else◌, strip, join_words,
}
use xodusmile.Signal.{Signal}

abbrev pub or_else {ℓ} : {A : Type ℓ} → A → Option A → A
or_else a none = a
or_else a (some b) = b

-- `info.get("create_time") or now`
abbrev pub time_or : ℕ → Option ℕ → ℕ
time_or now none = now
time_or now (some time) = if time == 0 then now else time

-- `proc.info`. The command line is a list of words, and `write_bytes` and `rss_bytes` are 0 where psutil
-- gives no counters.
pub record Info : Type 0 where
  pub pid : Option ℕ
  pub ppid : Option ℕ
  pub name : Option String
  pub words : Option (List String)
  pub username : Option String
  pub exe : Option String
  pub create_time : Option ℕ
  pub cpu_percent : Option ℕ
  pub rss_bytes : ℕ
  pub write_bytes : ℕ

pub record Snapshot : Type 0 where
  pub pid : ℕ
  pub ppid : ℕ
  pub name : String
  pub cmdline : String
  pub user : String
  pub started_at : ℕ
  pub exe : String
  pub cpu_percent : ℕ
  pub rss_bytes : ℕ
  pub write_bytes : ℕ
  pub last_seen : ℕ

pub record Watcher : Type 0 where
  pub seen : List (ℕ × Snapshot)
  pub last_io : List (ℕ × (ℕ × ℕ))
  pub fanout : List (ℕ × List ℕ)
  pub own_pid : ℕ
  pub emitted : List Signal

abbrev pub new_watcher : ℕ → Watcher
new_watcher own_pid = record {
  seen = [];
  last_io = [];
  fanout = [];
  own_pid = own_pid;
  emitted = [];
}

-- The snapshot of a new process.
unfoldable pub take_snapshot : ℕ → ℕ → Info → Snapshot
take_snapshot now pid info = record {
  pid = pid;
  ppid = or_else 0 info.ppid;
  name = strip (or_else "" info.name);
  cmdline = join_words (or_else [] info.words);
  user = strip (or_else "" info.username);
  started_at = time_or now info.create_time;
  exe = strip (or_else "" info.exe);
  cpu_percent = or_else 0 info.cpu_percent;
  rss_bytes = info.rss_bytes;
  write_bytes = info.write_bytes;
  last_seen = now;
}

abbrev pub refresh : ℕ → Info → Snapshot → Snapshot
refresh now info snap = record snap {
  cpu_percent = or_else 0 info.cpu_percent;
  rss_bytes = info.rss_bytes;
  last_seen = now;
  write_bytes = info.write_bytes;
}

abbrev pub name_of : Option Snapshot → String
name_of none = ""
name_of (some snap) = snap.name
