-- ===== src/Scoring/Tests.antt =====
-- The engine's theorems at concrete windows, and test runs.
use xodusmile.Prelude.{
  ℕ, ◌+◌, ◌≤◌, ◌≡◌, refl, true, false, none, some, [], ◌∷◌, arith, String, keep, elem, lookup,
  insert, mem, add, any, last_slice,
}
use xodusmile.Signal.{
  Signal, Severity, low, high, critical, int, text, pos, pid_of, Answer, returned, positive_int,
  first_positive, truthy,
}
use xodusmile.Scoring.{
  Engine, score_of, enc_pids, enc_pids_from, correlate, correlated, contribution, total_from,
  trusted, evict, evict_old, names_pid, forget_pid, current_score, current_level, submit_locked,
  stamp, signal_window, has_encryption_activity, activity_in, level_for_score, recent_signals,
  reset,
}
use xodusmile.Scoring.Spec.{worth, sum_of, score_of-eq-sum}
use xodusmile.Scoring.Forget.{score-forget_pid}
use xodusmile.Scoring.Submit.{submit-ground_truth}

abbrev signal : ℕ → String → ℕ → Severity → ℕ → ℕ → Signal
signal ident name weight severity pid timestamp = record {
  ident = ident;
  detector = "minifilter";
  name = name;
  weight = weight;
  severity = severity;
  metadata = ("pid", int (pos pid)) ∷ [];
  timestamp = timestamp;
}

abbrev burst : Signal
burst = signal 1 "kernel_write_burst" 35 high 42 100

abbrev deletion : Signal
deletion = signal 2 "file_delete" 3 low 42 200

abbrev other_deletion : Signal
other_deletion = signal 3 "file_delete" 3 low 7 300

abbrev canary : Signal
canary = record {
  ident = 4;
  detector = "canary";
  name = "canary_modified";
  weight = 80;
  severity = critical;
  metadata = ("path", text "C:\\Users\\a\\zzz_old_records.txt") ∷ [];
  timestamp = 400;
}

abbrev engine : Engine
engine = record {
  signals = burst ∷ deletion ∷ other_deletion ∷ canary ∷ [];
  window = signal_window;
}

-- What a run of the engine computes with.
program : Unit {0}
unfolding score_of enc_pids enc_pids_from correlate correlated contribution total_from trusted evict
    evict_old names_pid forget_pid current_score current_level submit_locked stamp
    has_encryption_activity activity_in level_for_score recent_signals reset pid_of positive_int
    first_positive truthy elem lookup insert mem add any last_slice keep
program = tt

-- The isolated deletion of PID 7 scores nothing, the one beside the burst of PID 42 does.
score-engine : score_of engine.signals ≡ 118
unfolding program
score-engine = refl

level-engine : (current_level 500 engine).1 ≡ high
unfolding program
level-engine = refl

after_forget : score_of (forget_pid 42 engine).0.signals ≡ 80
unfolding program
after_forget = refl

score_of-eq-sum_example : score_of engine.signals ≡ sum_of (worth engine.signals) engine.signals
score_of-eq-sum_example = score_of-eq-sum engine.signals

score-forget_pid_example :
    score_of engine.signals
    ≡ score_of (keep (names_pid 42) engine.signals) + score_of (forget_pid 42 engine).0.signals
score-forget_pid_example = score-forget_pid 42 engine

abbrev exempt : Signal → Answer
exempt s = returned true

trusted-stamp-burst : trusted (stamp (some exempt) burst) ≡ true
unfolding program
trusted-stamp-burst = refl

deletion_gated : elem deletion.name ("file_delete" ∷ []) ≡ true
unfolding program
deletion_gated = refl

canary_ground_truth :
    elem canary.name (
      "canary_modified" ∷ "canary_deleted" ∷ "magic_bytes_lost" ∷ "suspicious_extension"
      ∷ "ransom_note_spread" ∷ "kernel_blocked_op" ∷ [])
    ≡ true
unfolding program
canary_ground_truth = refl

submit-ground_truth_example :
    score_of (evict_old 500 engine).signals + 80
    ≤ (submit_locked 500 (stamp (some exempt) canary) engine).1
submit-ground_truth_example =
    submit-ground_truth (some exempt) 500 canary engine canary_ground_truth (omega arith)

burst_unstamped : lookup "actor_trusted" burst.metadata ≡ none
unfolding program
burst_unstamped = refl

burst_not_ground_truth :
    elem burst.name (
      "canary_modified" ∷ "canary_deleted" ∷ "magic_bytes_lost" ∷ "suspicious_extension"
      ∷ "ransom_note_spread" ∷ "kernel_blocked_op" ∷ [])
    ≡ false
unfolding program
burst_not_ground_truth = refl
