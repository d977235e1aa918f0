-- ===== src/ProcessWatcher.antt =====
-- detectors/process_watcher.py: ProcessWatcher. What psutil lists is an argument of a scan, and one scan
-- reads the clock once.
pub mod Chains
pub mod Types
pub mod Judging
pub mod Tracking
pub mod Known
pub mod Once
mod Tests
use xodusmile.Prelude.{
  ℕ, ◌+◌, ◌-◌, ◌*◌, String, Bool, true, false, not, ◌&&◌, ◌||◌, Option, none, some, List, [], ◌∷◌,
  ◌++◌, ◌==◌, ltb, leb, if◌then◌else◌, elem, lookup, lower, strip, length, join_words, first_chars,
  mem, add, take,
}
use xodusmile.Signal.{Signal, Severity, medium, high, Metadata, int, pos, text, real, second}
use xodusmile.Detector.{emit}
use xodusmile.Deque.{pop_old}
use xodusmile.PidTable.{find, put, keys_outside, pop_all}
use xodusmile.Protection.{is_masquerading}
use xodusmile.CommandLine.{Search, Process, evaluate_cmdline, emit_all}
use xodusmile.ProcessWatcher.Chains.{suspicious_chains}
use xodusmile.Ranking.{rank}
use xodusmile.ProcessWatcher.Types.{
  or_else, time_or, Info, Snapshot, Watcher, new_watcher, take_snapshot, refresh, name_of,
}
use xodusmile.ProcessWatcher.Judging.{
  apply_rules, check_masquerade, suspects, check_chain, fanout_signal, check_fanout, on_new_process,
  report_burst, check_write_burst, write_burst_bytes, write_burst_window, fanout_threshold,
  fanout_window,
}

-- A process of the list with its PID: its snapshot is made anew or brought up to date.
unfoldable pub track : Search → String → ℕ → Bool → ℕ → Info → Option Snapshot → Watcher → Watcher
track search root now initial pid info none w =
    let snap = take_snapshot now pid info in
    let w' = record w { seen = put pid snap w.seen } in
    if initial then w' else on_new_process search root now snap w'
track search root now initial pid info (some old) w =
    let snap = take_snapshot now pid info in
    let w' = record w { seen = put pid snap w.seen } in
    if not (old.started_at == snap.started_at)
    then (if initial then w' else on_new_process search root now snap w')
    else record w { seen = put pid (refresh now info old) w.seen }

-- One round of the loop of `_scan`, which collects the listed PIDs. `none` is a process that is gone
-- by then.
unfoldable pub scan_pid :
    Search → String → ℕ → Bool → Info → Option ℕ → List ℕ × Watcher → List ℕ × Watcher
scan_pid search root now initial info none (pids, w) = (pids, w)
scan_pid search root now initial info (some pid) (pids, w) =
    if pid == w.own_pid
    then (pids, w)
    else (let w' = track search root now initial pid info (find pid w.seen) w in
        let snap = take_snapshot now pid info in
        (
          add pid pids,
          (if initial
              then w'
              else check_write_burst pid snap.name snap.cmdline info.write_bytes now w'),
        ))

unfoldable pub scan_one :
    Search → String → ℕ → Bool → Option Info → List ℕ × Watcher → List ℕ × Watcher
unfolding scan_pid
scan_one search root now initial none state = state
scan_one search root now initial (some info) state =
    scan_pid search root now initial info info.pid state

abbrev pub scan_all :
    Search → String → ℕ → Bool → List (Option Info) → List ℕ × Watcher → List ℕ × Watcher
scan_all search root now initial [] state = state
scan_all search root now initial (i ∷ infos) state =
    scan_all search root now initial infos (scan_one search root now initial i state)

-- The processes that are gone are forgotten.
unfoldable pub forget : List ℕ → Watcher → Watcher
forget pids w =
    let gone = keys_outside pids w.seen in
    record w {
      seen = pop_all gone w.seen;
      last_io = pop_all gone w.last_io;
      fanout = pop_all gone w.fanout;
    }

-- `_scan`
unfoldable pub scan : Search → String → ℕ → Bool → List (Option Info) → Watcher → Watcher
scan search root now initial infos w =
    let (pids, w') = scan_all search root now initial infos ([], w) in forget pids w'

abbrev pub fresher : Snapshot → Snapshot → Bool
fresher a b =
    ltb b.last_seen a.last_seen || a.last_seen == b.last_seen && leb b.started_at a.started_at

abbrev pub snapshots : List (ℕ × Snapshot) → List Snapshot
snapshots [] = []
snapshots ((pid, snap) ∷ seen) = snap ∷ snapshots seen

-- `snapshot`: the processes that it shows.
unfoldable pub snapshot : ℕ → Watcher → List Snapshot
snapshot limit w = take limit (rank fresher (snapshots w.seen))
