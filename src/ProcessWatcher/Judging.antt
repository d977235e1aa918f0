-- ===== src/ProcessWatcher/Judging.antt =====
-- detectors/process_watcher.py: what a new process and the written bytes are judged by.
use xodusmile.Prelude.{
  ℕ, ◌+◌, ◌-◌, ◌*◌, String, Bool, false, ◌||◌, Option, none, some, List, [], ◌∷◌, ◌++◌, ltb, leb,
  if◌then◌else◌, elem, lookup, lower, length, first_chars,
}
use xodusmile.Signal.{Signal, medium, high, int, pos, text, real, second}
use xodusmile.Detector.{emit}
use xodusmile.Deque.{pop_old}
use xodusmile.PidTable.{find, put}
use xodusmile.Protection.{is_masquerading}
use xodusmile.CommandLine.{Search, Process, evaluate_cmdline, emit_all}
use xodusmile.ProcessWatcher.Chains.{suspicious_chains}
use xodusmile.ProcessWatcher.Types.{or_else, Snapshot, Watcher, name_of}

abbrev pub write_burst_bytes : ℕ
write_burst_bytes = 52428800

abbrev pub write_burst_window : ℕ
write_burst_window = 2 * second

abbrev pub fanout_threshold : ℕ
fanout_threshold = 12

abbrev pub fanout_window : ℕ
fanout_window = 5 * second

-- Part 1 of `_on_new_process`: the rules on command lines.
unfoldable pub apply_rules : Search → ℕ → Snapshot → Watcher → Watcher
apply_rules search now snap w =
    let p : Process = record {
      name = snap.name;
      cmdline = snap.cmdline;
      pid = some snap.pid;
      ppid = some snap.ppid;
    } in
    record w {
      emitted =
          emit_all (evaluate_cmdline search "process_watcher" p now (length w.emitted)) w.emitted;
    }

-- Part 1b: a system name outside the system's folders.
unfoldable pub check_masquerade : String → ℕ → Snapshot → Watcher → Watcher
unfolding emit
check_masquerade root now snap w =
    if is_masquerading root snap.name snap.exe
    then record w {
      emitted =
          emit "process_watcher" "process_masquerade" 60 high
            (("pid", int (pos snap.pid))
              ∷ ("ppid", int (pos snap.ppid))
              ∷ ("process", text snap.name)
              ∷ ("image", text snap.exe)
              ∷ ("cmdline", text (first_chars 256 snap.cmdline))
              ∷ [])
            now w.emitted;
    }
    else w

-- `suspect_children and child_name in suspect_children`
abbrev pub suspects : Option (List String) → String → Bool
suspects none child = false
suspects (some children) child = elem child children

-- Part 2: the chain of parent and child.
unfoldable pub check_chain : ℕ → Snapshot → Watcher → Watcher
unfolding emit
check_chain now snap w =
    let parent = lower (name_of (find snap.ppid w.seen)) in
    let child = lower snap.name in
    if suspects (lookup parent suspicious_chains) child
    then record w {
      emitted =
          emit "process_watcher" "suspicious_parent_child" 40 high
            (("parent", text parent)
              ∷ ("parent_pid", int (pos snap.ppid))
              ∷ ("child", text child)
              ∷ ("child_pid", int (pos snap.pid))
              ∷ ("cmdline", text (first_chars 256 snap.cmdline))
              ∷ [])
            now w.emitted;
    }
    else w

unfoldable pub fanout_signal : ℕ → ℕ → String → ℕ → List Signal → List Signal
unfolding emit
fanout_signal now ppid parent children emitted =
    emit "process_watcher" "child_fanout" 40 high
      (("pid", int (pos ppid))
        ∷ ("parent_pid", int (pos ppid))
        ∷ ("parent", text parent)
        ∷ ("children", int (pos children))
        ∷ ("window_sec", real fanout_window)
        ∷ [])
      now emitted

-- Part 3: the children of a parent in the last seconds.
unfoldable pub check_fanout : ℕ → Snapshot → Watcher → Watcher
unfolding fanout_signal
check_fanout now snap w =
    let parent = lower (name_of (find snap.ppid w.seen)) in
    let bucket = pop_old (now - fanout_window) (or_else [] (find snap.ppid w.fanout) ++ now ∷ []) in
    if leb fanout_threshold (length bucket)
    then record w {
      fanout = put snap.ppid [] w.fanout;
      emitted = fanout_signal now snap.ppid parent (length bucket) w.emitted;
    }
    else record w { fanout = put snap.ppid bucket w.fanout }

-- `_on_new_process`
unfoldable pub on_new_process : Search → String → ℕ → Snapshot → Watcher → Watcher
unfolding apply_rules check_masquerade check_chain check_fanout
on_new_process search root now snap w =
    check_fanout now snap
      (check_chain now snap (check_masquerade root now snap (apply_rules search now snap w)))

-- `_check_write_burst` behind the entry of the last reading.
unfoldable pub report_burst :
    Option (ℕ × ℕ) → ℕ → String → String → ℕ → ℕ → List Signal → List Signal
unfolding emit
report_burst none pid name cmdline bytes now emitted = emitted
report_burst (some (prev_ts, prev_bytes)) pid name cmdline bytes now emitted =
    if leb now prev_ts || ltb write_burst_window (now - prev_ts)
    then emitted
    else if leb (prev_bytes + write_burst_bytes) bytes
    then emit "process_watcher" "process_write_burst" 20 medium
        (("pid", int (pos pid))
          ∷ ("process", text name)
          ∷ ("cmdline", text (first_chars 256 cmdline))
          ∷ ("bytes", int (pos (bytes - prev_bytes)))
          ∷ ("window_sec", real (now - prev_ts))
          ∷ [])
        now emitted
    else emitted

-- `_check_write_burst`
unfoldable pub check_write_burst : ℕ → String → String → ℕ → ℕ → Watcher → Watcher
unfolding report_burst
check_write_burst pid name cmdline bytes now w = record w {
  last_io = put pid (now, bytes) w.last_io;
  emitted = report_burst (find pid w.last_io) pid name cmdline bytes now w.emitted;
}
