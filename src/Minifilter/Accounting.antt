-- ===== src/Minifilter/Accounting.antt =====
-- The per-PID accounting of the bridge: write bursts and rename bursts.
use xodusmile.Prelude.{
  ℕ, ◌+◌, ◌-◌, String, Bool, true, false, ◌||◌, List, [], ◌∷◌, ◌++◌, ◌==◌, ltb, if◌then◌else◌,
  length, is_empty,
}
use xodusmile.Signal.{Signal, high, int, pos, text, real}
use xodusmile.Detector.{emit}
use xodusmile.Minifilter.{
  PidIoState, BurstKey, writes, renames, Bridge, pid_write_burst_bytes, pid_write_burst_window,
  pid_rename_burst_count, pid_rename_burst_window,
}

abbrev pub same_burst : BurstKey → BurstKey → Bool
same_burst (writes p) (writes q) = p == q
same_burst (renames p) (renames q) = p == q
same_burst (writes p) (renames q) = false
same_burst (renames p) (writes q) = false

-- `self._pids[pid] = state`, where the state is a mutable object in Python.
abbrev pub set_state : ℕ → PidIoState → Bridge → Bridge
set_state pid state b = record b { pids = λ q. if pid == q then state else b.pids q }

abbrev pub set_alerted : BurstKey → ℕ → Bridge → Bridge
set_alerted key now b = record b {
  burst_alerted = λ k. if same_burst key k then now else b.burst_alerted k;
}

abbrev pub or_known : String → String → String
or_known path known = if is_empty path then known else path

-- The window of a write: a new one where there was none, or where the old one has passed.
unfoldable pub write_state : ℕ → ℕ → PidIoState → PidIoState
write_state now bytes_written state =
    if state.write_window_start == 0 || ltb pid_write_burst_window (now - state.write_window_start)
    then record state { write_window_start = now; write_total = bytes_written }
    else record state { write_total = state.write_total + bytes_written }

unfoldable pub write_signal : ℕ → ℕ → ℕ → String → Bridge → List Signal
unfolding emit
write_signal now pid total path b =
    emit "minifilter" "kernel_write_burst" 35 high
      (("pid", int (pos pid))
        ∷ ("bytes", int (pos total))
        ∷ ("window_sec", real pid_write_burst_window)
        ∷ ("last_path", text (or_known path (b.known_paths pid)))
        ∷ [])
      now b.emitted

-- The burst is alerted, and the window starts again.
unfoldable pub alert_write : ℕ → ℕ → String → PidIoState → Bridge → Bridge
unfolding write_signal
alert_write now pid path state b =
    let alerted = set_alerted (writes pid) now b in
    set_state pid (record state { write_total = 0; write_window_start = now })
      (record alerted { emitted = write_signal now pid state.write_total path b })

-- `_account_write`
unfoldable pub account_write : ℕ → ℕ → ℕ → String → Bridge → Bridge
unfolding write_state alert_write
account_write now pid bytes_written path b =
    let state = write_state now bytes_written (b.pids pid) in
    if ltb state.write_total pid_write_burst_bytes
    then set_state pid state b
    else if ltb (now - b.burst_alerted (writes pid)) pid_write_burst_window
    then set_state pid state b
    else alert_write now pid path state b

-- `while times and times[0] < cutoff: times.popleft()`
unfoldable pub expire : ℕ → List ℕ → List ℕ
expire cutoff [] = []
expire cutoff (t ∷ ts) = elim (ltb t cutoff) [ true ↦ expire cutoff ts | false ↦ t ∷ ts ]

unfoldable pub rename_state : ℕ → PidIoState → PidIoState
unfolding expire
rename_state now state = record state {
  rename_times = expire (now - pid_rename_burst_window) (state.rename_times ++ now ∷ []);
}

unfoldable pub rename_signal : ℕ → ℕ → ℕ → String → Bridge → List Signal
unfolding emit
rename_signal now pid count path b =
    emit "minifilter" "kernel_rename_burst" 40 high
      (("pid", int (pos pid))
        ∷ ("count", int (pos count))
        ∷ ("window_sec", real pid_rename_burst_window)
        ∷ ("last_path", text (or_known path (b.known_paths pid)))
        ∷ [])
      now b.emitted

unfoldable pub alert_rename : ℕ → ℕ → String → PidIoState → Bridge → Bridge
unfolding rename_signal
alert_rename now pid path state b =
    let alerted = set_alerted (renames pid) now b in
    set_state pid (record state { rename_times = [] })
      (record alerted { emitted = rename_signal now pid (length state.rename_times) path b })

-- `_account_rename`
unfoldable pub account_rename : ℕ → ℕ → String → Bridge → Bridge
unfolding rename_state alert_rename
account_rename now pid path b =
    let state = rename_state now (b.pids pid) in
    if ltb (length state.rename_times) pid_rename_burst_count
    then set_state pid state b
    else if ltb (now - b.burst_alerted (renames pid)) pid_rename_burst_window
    then set_state pid state b
    else alert_rename now pid path state b
