-- ===== src/Postmortem.antt =====
-- postmortem.py: isolate_last_session and build_timeline; and scan_damage.py: last_session. A signal of
-- the database is given by what these read, and what `re` finds in it is an argument.
pub mod Sessions
pub mod Delays
mod Tests
use xodusmile.Prelude.{
  ℕ, zero, suc, ◌+◌, ◌-◌, ◌*◌, String, Bool, true, false, not, ◌&&◌, ◌||◌, Option, none, some, List,
  [], ◌∷◌, ◌++◌, ltb, leb, same, if◌then◌else◌, length, drop,
}
use xodusmile.Signal.{second}

abbrev pub session_gap : ℕ
session_gap = 300 * second

pub record Logged : Type 0 where
  pub timestamp : ℕ
  pub text : String
  pub level_after : String
  pub score_after : ℕ

-- The gap between a signal and the one before it is a session's end.
abbrev pub is_break : Logged → Logged → Bool
is_break before s = ltb session_gap (s.timestamp - before.timestamp)

-- The loop of `isolate_last_session`, from the signal at an index: the last break's index wins.
unfoldable pub last_break : Logged → ℕ → ℕ → List Logged → ℕ
last_break before i start [] = start
last_break before i start (s ∷ signals) =
    last_break s (i + 1) (if is_break before s then i else start) signals

unfoldable pub isolate_last_session : List Logged → List Logged
unfolding last_break
isolate_last_session [] = []
isolate_last_session (s ∷ signals) = drop (last_break s 1 0 signals) (s ∷ signals)

-- The signals from the last to the first.
abbrev pub backwards : List Logged → List Logged
backwards [] = []
backwards (s ∷ signals) = backwards signals ++ s ∷ []

-- The loop of `last_session` down from an index, over the signals before: the first break ends it.
unfoldable pub cut_at : ℕ → Logged → List Logged → ℕ
cut_at i s [] = 0
cut_at i s (before ∷ earlier) =
    let rest = cut_at (i - 1) before earlier in if is_break before s then i else rest

abbrev pub cut_of : List Logged → ℕ
cut_of [] = 0
cut_of (s ∷ earlier) = cut_at (length earlier) s earlier

unfoldable pub last_session : List Logged → List Logged
unfolding cut_at
last_session signals = drop (cut_of (backwards signals)) signals

-- `SEV_ORDER.get(level, 0)`
unfoldable pub severity_order : String → ℕ
severity_order level =
    if same level "LOW"
    then 1
    else if same level "MEDIUM"
    then 2
    else if same level "HIGH"
    then 3
    else if same level "CRITICAL"
    then 4
    else 0

unfoldable pub first_where : (Logged → Bool) → List Logged → Option Logged
first_where pred [] = none
first_where pred (s ∷ signals) =
    let rest = first_where pred signals in if pred s then some s else rest

-- `max(signals, key=score_after)`: the first of the highest.
unfoldable pub peak_of : Logged → List Logged → Logged
peak_of best [] = best
peak_of best (s ∷ signals) =
    peak_of (if ltb best.score_after s.score_after then s else best) signals

abbrev pub end_of : Logged → List Logged → Logged
end_of s [] = s
end_of s (t ∷ signals) = end_of t signals

pub record Timeline : Type 0 where
  pub t0 : ℕ
  pub t_end : ℕ
  pub anchor : ℕ
  pub attack_start : ℕ
  pub first_enc : Option Logged
  pub first_high : Option Logged
  pub first_crit : Option Logged
  pub peak_score : ℕ
  pub peak_at : ℕ
  pub duration : ℕ

abbrev pub is_high : Logged → Bool
is_high s = leb (severity_order "HIGH") (severity_order s.level_after)

abbrev pub is_critical : Logged → Bool
is_critical s = same s.level_after "CRITICAL"

-- `build_timeline`, with what `ENCRYPTION_HINT` finds; none of no signals.
unfoldable pub build_timeline : (String → Bool) → List Logged → Option Timeline
unfolding first_where peak_of severity_order
build_timeline hinted [] = none
build_timeline hinted (s ∷ signals) =
    let peak = peak_of s signals in
    let last = end_of s signals in
    some (record {
      t0 = s.timestamp;
      t_end = last.timestamp;
      anchor = s.timestamp;
      attack_start = s.timestamp;
      first_enc = first_where (λ (x : Logged). hinted x.text) (s ∷ signals);
      first_high = first_where is_high (s ∷ signals);
      first_crit = first_where is_critical (s ∷ signals);
      peak_score = peak.score_after;
      peak_at = peak.timestamp;
      duration = last.timestamp - s.timestamp;
    })
