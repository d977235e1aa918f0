-- ===== src/Agent.antt =====
-- agent.py: the administrator's view of the threat by process, `Agent.threat_breakdown`, and what
-- `Agent._on_signal` keeps and forwards. The ATT&CK tags and the texts of a row are left out.
pub mod Breakdown
pub mod Reconciling
mod Tests
use xodusmile.Prelude.{
  ℕ, ◌+◌, String, Bool, true, false, not, ◌&&◌, Option, none, some, List, [], ◌∷◌, ◌++◌, ◌==◌, ltb,
  if◌then◌else◌, elem, lookup, is_empty,
}
use xodusmile.Signal.{
  Signal, Severity, info, low, medium, high, critical, Value, text, Metadata, pid_of,
}
use xodusmile.Scoring.{
  Engine, trusted, correlated, enc_pids, correlation_gated_names, recent_signals, current_score,
  current_level,
}

-- `_SEV_ORDER`
abbrev pub sev_order : Severity → ℕ
sev_order info = 0
sev_order low = 1
sev_order medium = 2
sev_order high = 3
sev_order critical = 4

-- A row of the breakdown. A member is a signal with what it contributes.
pub record Row : Type 0 where
  pub key : ℕ
  pub pid : Option ℕ
  pub score : ℕ
  pub members : List (Signal × ℕ)
  pub process : String
  pub max_severity : Severity
  pub trusted : Bool

-- `contributes`, with the PIDs of the correlation set.
unfoldable pub contributes : List ℕ → Signal → ℕ
contributes pids s =
    if trusted s
    then 0
    else if elem s.name correlation_gated_names && not (correlated (pid_of s) pids)
    then 0
    else s.weight

abbrev pub or_zero : Option ℕ → ℕ
or_zero none = 0
or_zero (some p) = p

-- `pid if pid is not None else 0`
abbrev pub key_of : Signal → ℕ
key_of s = or_zero (pid_of s)

-- `meta.get("process") or ""`
abbrev process_text : Option Value → String
process_text (some (text s)) = s
process_text _ = ""

-- What a signal changes in its row.
unfoldable pub extend : List ℕ → Signal → Row → Row
extend pids s r = record r {
  score = r.score + contributes pids s;
  members = r.members ++ (s, contributes pids s) ∷ [];
  process = if is_empty r.process then process_text (lookup "process" s.metadata) else r.process;
  max_severity =
      if ltb (sev_order r.max_severity) (sev_order s.severity) then s.severity else r.max_severity;
}

abbrev new_row : Signal → Row
new_row s = record {
  key = key_of s;
  pid = pid_of s;
  score = 0;
  members = [];
  process = "";
  max_severity = info;
  trusted = trusted s;
}

-- `buckets.setdefault(key, …)` and the changes of the row.
unfoldable pub file_signal : List ℕ → Signal → List Row → List Row
unfolding extend
file_signal pids s [] = extend pids s (new_row s) ∷ []
file_signal pids s (r ∷ rows) =
    if r.key == key_of s then extend pids s r ∷ rows else r ∷ file_signal pids s rows

unfoldable pub file_all : List ℕ → List Signal → List Row → List Row
file_all pids [] rows = rows
file_all pids (s ∷ sigs) rows = file_all pids sigs (file_signal pids s rows)

-- `rows.sort(key=score, reverse=True)`, which is stable.
unfoldable pub insert_row : Row → List Row → List Row
insert_row r [] = r ∷ []
insert_row r (q ∷ rows) = if ltb r.score q.score then q ∷ insert_row r rows else r ∷ q ∷ rows

unfoldable pub sort_rows : List Row → List Row
unfolding insert_row
sort_rows [] = []
sort_rows (r ∷ rows) = insert_row r (sort_rows rows)

pub record Report : Type 0 where
  pub total_score : ℕ
  pub level : Severity
  pub threats : List Row

-- `threat_breakdown` at one clock reading, while no other thread submits.
unfoldable pub threat_breakdown : ℕ → ℕ → Engine → Engine × Report
threat_breakdown now limit e =
    let (e₁, sigs) = recent_signals now limit e in
    let rows = sort_rows (file_all (enc_pids sigs) sigs []) in
    let (e₂, total) = current_score now e₁ in
    let (e₃, level) = current_level now e₂ in
    (e₃, record { total_score = total; level = level; threats = rows })
