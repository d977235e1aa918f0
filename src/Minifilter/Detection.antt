-- ===== src/Minifilter/Detection.antt =====
-- A process that writes enough in one window is reported, however it spreads its writes. The windows
-- follow on one another, and bytes on both sides of a window's end are not added up.
use xodusmile.Prelude.{
  ℕ, ◌+◌, ◌-◌, ◌≤◌, ◌<◌, ◌≡◌, String, Bool, ◌&&◌, ◌||◌, List, [], ◌∷◌, ◌==◌, ltb, All, keep, length,
  same,
}
use xodusmile.Signal.{Signal}
use xodusmile.Scoring.{names_pid}
use xodusmile.Minifilter.{Bridge, pid_write_burst_bytes, pid_write_burst_window, writes}
use xodusmile.Minifilter.Accounting.{account_write, write_state}

-- The writes of one process, the oldest first, each with its time and its bytes.
abbrev pub Writes : Type 0
Writes = List (ℕ × ℕ)

unfoldable pub account_writes : ℕ → String → Writes → Bridge → Bridge
account_writes pid path [] b = b
account_writes pid path ((now, bytes) ∷ ws) b =
    account_writes pid path ws (account_write now pid bytes path b)

abbrev pub bytes_of : Writes → ℕ
bytes_of [] = 0
bytes_of ((now, bytes) ∷ ws) = bytes + bytes_of ws

-- All at or after a time and at most a window later.
abbrev pub Within : ℕ → Writes → Type 0
Within start ws = All (λ (w : ℕ × ℕ). (start ≤ w.0) × (w.0 ≤ start + pid_write_burst_window)) ws

abbrev pub is_burst : ℕ → Signal → Bool
is_burst pid s = same s.name "kernel_write_burst" && names_pid pid s

-- How many bursts of the process were reported.
abbrev pub bursts : ℕ → Bridge → ℕ
bursts pid b = length (keep (is_burst pid) b.emitted)

-- The process has a window open since `start` with `total` bytes, and its last alert is long ago.
record IsOpen (pid start total : ℕ) (b : Bridge) : Type 0 where
  opened : (b.pids pid).write_window_start ≡ start
  positive : 0 < start
  summed : (b.pids pid).write_total ≡ total
  below : total < pid_write_burst_bytes
  quiet : b.burst_alerted (writes pid) + pid_write_burst_window ≤ start

-- The bytes of a write, in the window that it opens or in the one that it falls into.
record IsCounted (pid start total now bytes : ℕ) (b : Bridge) : Type 0 where
  state_start : (write_state now bytes (b.pids pid)).write_window_start ≡ start
  state_total : (write_state now bytes (b.pids pid)).write_total ≡ total
  positive : 0 < start
  quiet : b.burst_alerted (writes pid) + pid_write_burst_window ≤ start
  later : start ≤ now

-- The process has no window, or the one that it had is over when it writes at the time.
abbrev pub is_closed : (now pid : ℕ) → Bridge → Bool
is_closed now pid b =
    (b.pids pid).write_window_start == 0
    || ltb pid_write_burst_window (now - (b.pids pid).write_window_start)
