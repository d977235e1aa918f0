-- ===== src/Responder/Listener.antt =====
-- The listener of responder.py and the operator's orders: `_dispatch`, `_is_confident`,
-- `manual_kill`, `manual_release`, `set_mode`.
use xodusmile.Prelude.{
  ℕ, String, Bool, true, false, not, ◌&&◌, ◌||◌, Option, none, some, List, [], ◌∷◌, leb, ◌==◌,
  if◌then◌else◌, lookup, elem, discard, lower, length,
}
use xodusmile.Signal.{Signal, Severity, high, critical, Value, text, first_positive}
use xodusmile.Responder.Types.{
  Mode, detected, parent_of, manual, Reason, observed_only, Minifilter, Os, release_request,
  Responder, KillAction, look_up,
}
use xodusmile.Responder.{record_action, action_of, or_hint, respond_to_pid}
use xodusmile.Scoring.{Engine, has_encryption_activity, recent_signals}
use xodusmile.Protection.{escalate_child_names}

abbrev pub pid_keys : List String
pid_keys = "pid" ∷ "ProcessId" ∷ "child_pid" ∷ "process_id" ∷ []

abbrev pub parent_keys : List String
parent_keys = "ppid" ∷ "parent_pid" ∷ "ParentProcessId" ∷ []

unfoldable pub extract_pid : Signal → Option ℕ
extract_pid sig = first_positive pid_keys sig.metadata

unfoldable pub extract_parent_pid : Signal → Option ℕ
extract_parent_pid sig = first_positive parent_keys sig.metadata

-- `meta.get(key) or ""`, for the keys whose values are texts.
abbrev text_or_empty : Option Value → String
text_or_empty (some (text s)) = s
text_or_empty _ = ""

abbrev pub text_at : String → Signal → String
text_at key sig = text_or_empty (lookup key sig.metadata)

unfoldable pub is_lolbin_signal : Signal → Bool
is_lolbin_signal sig = elem (lower (text_at "process" sig)) escalate_child_names

-- `_record_observed`
unfoldable pub record_observed :
    Os → ℕ → Reason → String → String → Responder → Responder × KillAction
unfolding record_action
record_observed os pid reason name_hint cmd_hint r =
    let view = look_up os pid in
    record_action
      (action_of os pid reason (or_hint view.name name_hint) (or_hint view.cmdline cmd_hint) r.mode
        false false (some observed_only))
      r

abbrev pub names_this : ℕ → Signal → Bool
names_this pid other = elim (extract_pid other) [ none ↦ false | some p ↦ p == pid ]

abbrev add_name : String → List String → List String
add_name s seen = if elem s seen then seen else s ∷ seen

-- The loop of `_is_confident`: it returns at the second distinct detector.
unfoldable pub two_detectors : ℕ → List String → List Signal → Bool
two_detectors pid seen [] = false
two_detectors pid seen (other ∷ rest) =
    let seen' = if names_this pid other then add_name other.detector seen else seen in
    let later = two_detectors pid seen' rest in if leb 2 (length seen') then true else later

abbrev pub is_critical : Severity → Bool
is_critical critical = true
is_critical _ = false

abbrev pub is_high : Severity → Bool
is_high high = true
is_high _ = false

-- `_is_confident`: the engine comes back, since its reads evict old signals.
unfoldable pub is_confident : Os → ℕ → Signal → Engine → Engine × Bool
is_confident os pid sig e =
    if is_critical sig.severity
    then (e, true)
    else (let (e₁, activity) = has_encryption_activity os.now (some sig) e in
        if activity
        then (e₁, true)
        else (let (e₂, others) = recent_signals os.now 200 e₁ in (e₂, two_detectors pid [] others)))

unfoldable pub escalate : Os → ℕ → Option ℕ → Reason → Signal → Responder → Responder
escalate os pid none reason sig r = r
escalate os pid (some ppid) reason sig r =
    if not (ppid == pid) && is_lolbin_signal sig
    then (respond_to_pid os ppid (parent_of reason pid) "" "" r).0
    else r

-- `_dispatch` for a signal of sufficient severity that names `pid`.
unfoldable pub dispatch_pid : Os → ℕ → Signal → Responder → Responder
dispatch_pid os pid sig r =
    let reason = detected sig.detector sig.name in
    let hint = text_at "process" sig in
    let cmd_hint = text_at "cmdline" sig in
    let (e, confident) = is_confident os pid sig r.engine in
    let r₁ = record r { engine = e } in
    if confident
    then escalate os pid (extract_parent_pid sig) reason sig
        (respond_to_pid os pid reason hint cmd_hint r₁).0
    else (record_observed os pid reason hint cmd_hint r₁).0

-- `_dispatch`, the listener that `attach` subscribes.
unfoldable pub dispatch : Os → Signal → Responder → Responder
dispatch os sig r = elim (extract_pid sig) [
  | none ↦ r
  | some pid ↦
      if is_high sig.severity || is_critical sig.severity then dispatch_pid os pid sig r else r
]

-- The new mode touches no process and no record.
unfoldable pub set_mode : Mode → Responder → Responder
set_mode mode r = record r { mode = mode }

unfoldable pub manual_kill : Os → ℕ → String → Responder → Responder × KillAction
manual_kill os pid why r = respond_to_pid os pid (manual why) "" "" r

unfoldable pub release_by : Option Minifilter → ℕ → Responder → Responder × Bool
release_by none pid r = (r, true)
release_by (some m) pid r = (record r { calls = release_request pid ∷ r.calls }, m.release_pid pid)

unfoldable pub manual_release : Os → ℕ → Responder → Responder × Bool
manual_release os pid r = release_by os.minifilter pid (record r {
  already_killed = discard pid r.already_killed;
  already_quarantined = discard pid r.already_quarantined;
})
