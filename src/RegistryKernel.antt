-- ===== src/RegistryKernel.antt =====
-- detectors/registry_kernel.py: the scoring of registry events that the driver reports.
pub mod Laws
mod Tests
use xodusmile.Prelude.{
  ℕ, String, Bool, true, false, not, ◌&&◌, ◌||◌, Option, none, some, List, [], ◌∷◌, ◌==◌,
  if◌then◌else◌, lookup, elem, lower, contains, is_empty,
}
use xodusmile.Signal.{Signal, Severity, low, medium, high, critical, int, pos, text}
use xodusmile.Detector.{emit}
use xodusmile.Minifilter.{Event}
use xodusmile.Minifilter.Handling.{event_path, event_extra}

-- A row of `_PATTERNS`, without its message.
pub record Label : Type 0 where
  pub name : String
  pub weight : ℕ
  pub severity : Severity

abbrev pub label : String → ℕ → Severity → Label
label name weight severity = record { name = name; weight = weight; severity = severity }

abbrev pub patterns : List (String × Label)
patterns =
    (
      "\\system\\currentcontrolset\\services\\ransomguard",
      label "ransomguard_service_tamper" 80 critical,
    )
    ∷ ("\\windefend", label "defender_service_tamper" 70 critical)
    ∷ ("\\wdfilter", label "defender_filter_tamper" 70 critical)
    ∷ ("\\sense", label "mdatp_sense_tamper" 60 high)
    ∷ ("\\software\\microsoft\\windows defender", label "defender_settings_tamper" 55 high)
    ∷ ("\\software\\policies\\microsoft\\windows defender", label "defender_policy_tamper" 60 high)
    ∷ ("\\control\\safeboot", label "safeboot_tamper" 55 high)
    ∷ ("\\currentversion\\runonce", label "runonce_persistence" 35 medium)
    ∷ ("\\currentversion\\run", label "run_key_persistence" 35 medium)
    ∷ ("\\currentversion\\policies\\system", label "system_policy_tamper" 40 medium)
    ∷ []

abbrev pub unmatched : Label
unmatched = label "registry_watched" 5 low

-- The loop of `_classify`: the first needle in the key wins.
unfoldable pub classify_in : List (String × Label) → String → Label
classify_in [] key = unmatched
classify_in ((needle, l) ∷ rows) key = if contains key needle then l else classify_in rows key

unfoldable pub classify : String → Label
classify key = classify_in patterns key

abbrev pub benign_values : List (String × List String)
benign_values =
    ("run_key_persistence", "internat.exe" ∷ [])
    ∷ ("runonce_persistence", "internat.exe" ∷ [])
    ∷ (
      "defender_settings_tamper",
      "sigupdatetimestampssincelasthb" ∷ "lastmapssuccesstime" ∷ "lastmapsfailuretime" ∷ [],
    )
    ∷ []

abbrev in_set : Option (List String) → String → Bool
in_set none v = false
in_set (some values) v = elem v values

-- `benign and value and value.lower() in benign`
unfoldable pub is_benign : String → String → Bool
is_benign name value = not (is_empty value) && in_set (lookup name benign_values) (lower value)

-- The names of the sub-kinds; no other sub-kind is handled.
abbrev pub op_of : ℕ → Option String
op_of sub =
    if sub == 1
    then some "set"
    else if sub == 2
    then some "delete-value"
    else if sub == 3
    then some "create-key"
    else if sub == 4
    then some "delete-key"
    else if sub == 5
    then some "rename-key"
    else none

unfoldable pub report : ℕ → Event → String → Label → List Signal → List Signal
unfolding emit
report now evt op l emitted =
    emit "registry_kernel" l.name l.weight l.severity
      (("pid", int (pos evt.process_id))
        ∷ ("key", text (event_path evt))
        ∷ ("value", text (event_extra evt))
        ∷ ("op", text op)
        ∷ [])
      now emitted

unfoldable pub on_op : ℕ → Event → Option String → List Signal → List Signal
on_op now evt none emitted = emitted
on_op now evt (some op) emitted =
    let l = classify (lower (event_path evt)) in
    if is_empty (event_path evt)
    then emitted
    else if is_benign l.name (event_extra evt)
    then emitted
    else report now evt op l emitted

-- `_on_event`, with the signals emitted so far.
unfoldable pub on_event : ℕ → Event → List Signal → List Signal
unfolding on_op
on_event now evt emitted = on_op now evt (op_of evt.sub_kind) emitted
