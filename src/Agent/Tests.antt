-- ===== src/Agent/Tests.antt =====
-- The breakdown's theorems at concrete inputs.
use xodusmile.Prelude.{
  ℕ, ◌+◌, ◌≤◌, ◌≡◌, refl, [], ◌∷◌, String, elem, lookup, mem, add, length, last_slice, is_empty,
  any,
}
use xodusmile.Signal.{Signal, high, int, pos, pid_of, positive_int, first_positive, truthy}
use xodusmile.Scoring.{
  Engine, signal_window, evict, evict_old, recent_signals, current_score, current_level, score_of,
  enc_pids, enc_pids_from, correlate, correlated, contribution, total_from, trusted,
  level_for_score,
}
use xodusmile.Agent.{contributes, file_signal, file_all, sort_rows, threat_breakdown}
use xodusmile.Agent.Breakdown.{sum_rows, score_at, share}
use xodusmile.Agent.Reconciling.{window_at, shown_at, threat_breakdown-sum}

abbrev signal : ℕ → String → ℕ → ℕ → Signal
signal ident name weight pid = record {
  ident = ident;
  detector = "minifilter";
  name = name;
  weight = weight;
  severity = high;
  metadata = ("pid", int (pos pid)) ∷ [];
  timestamp = 100 + ident;
}

abbrev engine : Engine
engine = record {
  signals =
      signal 1 "file_delete" 3 7
      ∷ signal 2 "kernel_write_burst" 35 42
      ∷ signal 3 "file_delete" 3 42
      ∷ [];
  window = signal_window;
}

program : Unit {0}
unfolding threat_breakdown contributes file_signal file_all sort_rows evict evict_old recent_signals
    current_score current_level score_of enc_pids enc_pids_from correlate correlated contribution
    total_from trusted level_for_score elem lookup mem add last_slice is_empty any pid_of
    positive_int first_positive truthy
program = tt

-- The process of the burst comes first, the isolated deletion scores nothing.
threat_breakdown_run :
    (score_at 42 (threat_breakdown 200 200 engine).1.threats ≡ 38)
    × (score_at 7 (threat_breakdown 200 200 engine).1.threats ≡ 0)
    × ((threat_breakdown 200 200 engine).1.total_score ≡ 38)
unfolding program
threat_breakdown_run = (refl, refl, refl)

-- With room for one signal the burst that links the deletion is not shown, and the rows show less.
threat_breakdown_limited :
    (sum_rows (threat_breakdown 200 1 engine).1.threats ≡ 0)
    × ((threat_breakdown 200 1 engine).1.total_score ≡ 38)
unfolding program
threat_breakdown_limited = (refl, refl)

threat_breakdown-sum_example :
    (sum_rows (threat_breakdown 200 200 engine).1.threats ≡ score_of (shown_at 200 200 engine))
    × ((q : ℕ)
        → score_at q (threat_breakdown 200 200 engine).1.threats
          ≡ share (enc_pids (shown_at 200 200 engine)) q (shown_at 200 200 engine))
    × ((threat_breakdown 200 200 engine).1.total_score ≡ score_of (window_at 200 engine))
    × (sum_rows (threat_breakdown 200 200 engine).1.threats
        ≤ (threat_breakdown 200 200 engine).1.total_score)
    × (length (window_at 200 engine) ≤ 200
        → sum_rows (threat_breakdown 200 200 engine).1.threats
          ≡ (threat_breakdown 200 200 engine).1.total_score)
threat_breakdown-sum_example = threat_breakdown-sum 200 200 engine
