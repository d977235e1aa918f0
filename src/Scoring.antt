-- ===== src/Scoring.antt =====
-- scoring.py: the scoring engine. A method takes the clock's reading and returns the new engine.
-- The engine's lock makes each method one step.
pub mod Spec
pub mod Forget
pub mod Window
pub mod Order
pub mod Submit
mod Tests
use xodusmile.Prelude.{
  ℕ, ◌+◌, ◌-◌, ◌*◌, String, Bool, true, false, not, Option, none, some, List, [], ◌∷◌, ◌++◌, ltb,
  leb, ◌==◌, if◌then◌else◌, lookup, insert, elem, mem, add, length, keep, last_slice, is_some,
}
use xodusmile.Signal.{
  Severity, info, low, medium, high, critical, Signal, Value, flag, Answer, answered, second,
  pid_of, truthy,
}

abbrev pub threshold_low : ℕ
threshold_low = 30

abbrev pub threshold_medium : ℕ
threshold_medium = 60

abbrev pub threshold_high : ℕ
threshold_high = 100

abbrev pub threshold_critical : ℕ
threshold_critical = 150

abbrev pub signal_window : ℕ
signal_window = 120 * second

abbrev pub encryption_signal_names : List String
encryption_signal_names =
    "magic_bytes_lost" ∷ "high_entropy_write" ∷ "modify_burst" ∷ "suspicious_extension"
    ∷ "canary_modified" ∷ "canary_deleted" ∷ "ransom_note_dropped" ∷ "ransom_note_spread"
    ∷ "kernel_write_burst" ∷ "kernel_rename_burst" ∷ "kernel_blocked_op" ∷ []

abbrev pub correlation_gated_names : List String
correlation_gated_names = "file_delete" ∷ []

abbrev pub ground_truth_encryption : List String
ground_truth_encryption =
    "canary_modified" ∷ "canary_deleted" ∷ "magic_bytes_lost" ∷ "suspicious_extension"
    ∷ "ransom_note_spread" ∷ "kernel_blocked_op" ∷ []

-- `_signals` and `_window`. The list of the listeners is not kept: each listener has a model of its own.
pub record Engine : Type 0 where
  pub signals : List Signal
  pub window : ℕ

abbrev pub new_engine : ℕ → Engine
new_engine window = record { signals = []; window = window }

-- The `while` loop of `_evict_old`: only the head is looked at.
unfoldable pub evict : ℕ → List Signal → List Signal
evict cutoff [] = []
evict cutoff (s ∷ rest) = elim (ltb s.timestamp cutoff) [
  | true ↦ evict cutoff rest
  | false ↦ s ∷ rest
]

unfoldable pub evict_old : ℕ → Engine → Engine
evict_old now e = record e { signals = evict (now - e.window) e.signals }

-- `bool(meta.get("actor_trusted"))`
abbrev stamped_trusted : Option Value → Bool
stamped_trusted none = false
stamped_trusted (some v) = truthy v

unfoldable pub trusted : Signal → Bool
trusted sig =
    if elem sig.name ground_truth_encryption
    then false
    else stamped_trusted (lookup "actor_trusted" sig.metadata)

abbrev add_pid : Option ℕ → List ℕ → List ℕ
add_pid none pids = pids
add_pid (some p) pids = add p pids

-- One round of the first loop of `_current_score_locked`.
unfoldable pub correlate : Signal → List ℕ → List ℕ
correlate s pids =
    if trusted s
    then pids
    else if elem s.name encryption_signal_names
    then add_pid (pid_of s) pids
    else pids

-- The PIDs with encryption activity that is not trusted, in the order of the loop.
unfoldable pub enc_pids_from : List ℕ → List Signal → List ℕ
enc_pids_from pids [] = pids
enc_pids_from pids (s ∷ rest) = enc_pids_from (correlate s pids) rest

unfoldable pub enc_pids : List Signal → List ℕ
enc_pids signals = enc_pids_from [] signals

-- `self._pid_of(s) in enc_pids`: `None` is never in the set.
unfoldable pub correlated : Option ℕ → List ℕ → Bool
correlated none pids = false
correlated (some p) pids = mem p pids

-- What one round of the second loop adds to `total`.
unfoldable pub contribution : List ℕ → Signal → ℕ
contribution pids s =
    if trusted s
    then 0
    else if elem s.name correlation_gated_names
    then (if correlated (pid_of s) pids then s.weight else 0)
    else s.weight

unfoldable pub total_from : List ℕ → ℕ → List Signal → ℕ
total_from pids total [] = total
total_from pids total (s ∷ rest) = total_from pids (total + contribution pids s) rest

unfoldable pub score_of : List Signal → ℕ
score_of signals = total_from (enc_pids signals) 0 signals

unfoldable pub level_for_score : ℕ → Severity
level_for_score score =
    if leb threshold_critical score
    then critical
    else if leb threshold_high score
    then high
    else if leb threshold_medium score
    then medium
    else if leb threshold_low score
    then low
    else info

unfoldable pub current_score : ℕ → Engine → Engine × ℕ
current_score now e = let e' = evict_old now e in (e', score_of e'.signals)

unfoldable pub current_level : ℕ → Engine → Engine × Severity
current_level now e = let (e', score) = current_score now e in (e', level_for_score score)

unfoldable pub recent_signals : ℕ → ℕ → Engine → Engine × List Signal
recent_signals now limit e = let e' = evict_old now e in (e', last_slice limit e'.signals)

abbrev is_excluded : Option Signal → Signal → Bool
is_excluded none s = false
is_excluded (some x) s = x.ident == s.ident

-- The loop of `has_encryption_activity`, with its two `continue`s.
unfoldable pub activity_in : Option Signal → List Signal → Bool
activity_in exclude [] = false
activity_in exclude (s ∷ rest) =
    let later = activity_in exclude rest in
    if is_excluded exclude s
    then later
    else if trusted s
    then later
    else if elem s.name encryption_signal_names
    then true
    else later

unfoldable pub has_encryption_activity : ℕ → Option Signal → Engine → Engine × Bool
has_encryption_activity now exclude e =
    let e' = evict_old now e in (e', activity_in exclude e'.signals)

unfoldable pub reset : Engine → Engine
reset e = record e { signals = [] }

unfoldable pub names_pid : ℕ → Signal → Bool
names_pid pid s = elim (pid_of s) [ none ↦ false | some p ↦ p == pid ]

-- The number of signals removed comes back with the engine.
unfoldable pub forget_pid : ℕ → Engine → Engine × ℕ
forget_pid pid e =
    let kept = keep (λ s. not (names_pid pid s)) e.signals in
    (record e { signals = kept }, length e.signals - length kept)

-- The first step of `submit`, before the lock: the actor is classified once.
unfoldable pub stamp : Option (Signal → Answer) → Signal → Signal
stamp none sig = sig
stamp (some classify) sig =
    if is_some (lookup "actor_trusted" sig.metadata) then sig else record sig {
      metadata = insert "actor_trusted" (flag (answered (classify sig))) sig.metadata;
    }

-- The locked part of `submit`: the score and the level are what the listeners are called with.
unfoldable pub submit_locked : ℕ → Signal → Engine → Engine × ℕ × Severity
submit_locked now sig e =
    let e' = evict_old now (record e { signals = e.signals ++ sig ∷ [] }) in
    let score = score_of e'.signals in (e', score, level_for_score score)
