-- ===== src/Reporter.antt =====
-- incident_report.py: IncidentReporter. A call reads the clock once; what the reports say besides the
-- facts that they are made from, the printed lines and the popups' texts are
-- left out; what `_build_markdown` reads of the engine does not change the score.
pub mod FileNames
pub mod Joining
pub mod Grouping
pub mod Runs
pub mod Dedup
pub mod Guard
pub mod Reading
pub mod Notify
pub mod Campaigns
pub mod Closing
pub mod Listing
pub mod Behaviors
pub mod Reports
pub mod Others
mod Tests
use xodusmile.Prelude.{
  ℕ, zero, suc, ◌+◌, ◌-◌, ◌*◌, ◌≤◌, String, Bool, true, false, not, ◌&&◌, ◌||◌, Option, none, some,
  List, [], ◌∷◌, ◌++◌, arith, leb, ltb, ◌==◌, same, if◌then◌else◌, keep, any, length, take,
  last_slice, mem, add, insert, lookup, map, begins_with, is_some, is_empty, ◌/◌, ◌%◌,
}
use xodusmile.Signal.{Signal, second, first_positive}
use xodusmile.Scoring.{Engine, recent_signals}
use xodusmile.Responder.Types.{KillAction, Reason}
use xodusmile.Deque.{pop_old}
use xodusmile.Ranking.{rank}
use xodusmile.Reporter.Joining.{Member, Campaign, Machine, campaign_gap, place_member}
use xodusmile.Reporter.FileNames.{name_or_unknown, incident_file, campaign_file, is_plain}
use xodusmile.Damage.{sig_paths, max}
use xodusmile.Reporter.Behaviors.{signame_from_reason, campaign_behaviors}

abbrev pub notify_max : ℕ
notify_max = 3

abbrev pub notify_window : ℕ
notify_window = 30 * second

abbrev pub report_dedup : ℕ
report_dedup = 60 * second

abbrev pub report_dedup_max : ℕ
report_dedup_max = 2048

abbrev pub campaign_max : ℕ
campaign_max = 200

abbrev pub records_max : ℕ
records_max = 500

-- `(action.pid, action.terminated, action.quarantined)`
abbrev pub State : Type 0
State = ℕ × (Bool × Bool)

abbrev differ : Bool → Bool → Bool
differ true b = not b
differ false b = b

abbrev pub same_state : State → State → Bool
same_state (p, (t, q)) (p', (t', q')) = p == p' && not (differ t t') && not (differ q q')

-- `self._reported_states.get(state)`
unfoldable pub find_state : State → List (State × ℕ) → Option ℕ
find_state state [] = none
find_state state ((s, time) ∷ states) =
    if same_state s state then some time else find_state state states

-- `self._reported_states[state] = now`
unfoldable pub put_state : State → ℕ → List (State × ℕ) → List (State × ℕ)
put_state state now [] = (state, now) ∷ []
put_state state now ((s, time) ∷ states) =
    if same_state s state then (s, now) ∷ states else (s, time) ∷ put_state state now states

-- The map is pruned when it has grown too large.
unfoldable pub prune_states : ℕ → List (State × ℕ) → List (State × ℕ)
prune_states now states =
    if ltb report_dedup_max (length states)
    then keep (λ (x : State × ℕ). leb now (x.1 + report_dedup)) states
    else states

pub record IncidentRecord : Type 0 where
  pub timestamp : ℕ
  pub pid : ℕ
  pub process_name : String
  pub reason : Reason
  pub terminated : Bool
  pub quarantined : Bool
  pub filename : String

-- What is written: the report of an action, or of a campaign.
pub data ReportFile : Type 0 where
  of_action : KillAction → ReportFile
  of_campaign : Campaign → ReportFile

-- `popups` is how many notification threads were started. `files` is the folder of the reports.
pub record Reporter : Type 0 where
  pub engine : Engine
  pub notify : Bool
  pub reported_states : List (State × ℕ)
  pub records : List IncidentRecord
  pub campaigns : List Campaign
  pub window : List ℕ
  pub popups : ℕ
  pub files : List (String × ReportFile)
  pub stopped : Bool

-- `_notify_rate_ok`: the answer, and the window after it.
unfoldable pub notify_rate_ok : ℕ → List ℕ → Bool × List ℕ
notify_rate_ok now window =
    let recent = pop_old (now - notify_window) window in
    if leb notify_max (length recent)
    then (false, (if length recent == notify_max then recent ++ now ∷ [] else recent))
    else (true, recent ++ now ∷ [])

unfoldable pub member_of : KillAction → String → Member
member_of action file = record {
  ts = action.timestamp;
  pid = action.pid;
  name = name_or_unknown action.process_name;
  reason = action.reason;
  terminated = action.terminated;
  quarantined = action.quarantined;
  incident_file = file;
}

-- `_update_campaign`
unfoldable pub update_campaign : Machine → KillAction → String → Reporter → Reporter
unfolding place_member member_of
update_campaign m action file r =
    let (engine, recent) = recent_signals m.now 500 r.engine in
    record r {
      engine = engine;
      campaigns =
          last_slice campaign_max (place_member m (member_of action file) recent r.campaigns);
    }

-- What follows the dedup: the report is written and recorded, the campaign is brought up to date, and a
-- popup is started. An exception of `_build_markdown`, where the reason names no signal, or of `write_text`
-- leaves the call.
unfoldable pub file_report : Machine → KillAction → Reporter → Reporter
unfolding update_campaign notify_rate_ok
file_report m action r =
    let file = incident_file (m.stamp action.timestamp) action.pid action.process_name in
    let entry : IncidentRecord = record {
      timestamp = action.timestamp;
      pid = action.pid;
      process_name = name_or_unknown action.process_name;
      reason = action.reason;
      terminated = action.terminated;
      quarantined = action.quarantined;
      filename = file;
    } in
    let r' = record r {
      files = insert file (of_action action) r.files;
      records = last_slice records_max (r.records ++ entry ∷ []);
    } in
    let r'' = update_campaign m action file r' in
    let (ok, window) = notify_rate_ok m.now r''.window in
    if not (is_some (signame_from_reason action.reason) && m.writable file)
    then r
    else if not r.notify
    then r''
    else record r'' { window = window; popups = if ok then r''.popups + 1 else r''.popups }

-- `last is not None and (now - last) < _REPORT_DEDUP_SECS`
abbrev pub is_repeated : ℕ → Option ℕ → Bool
is_repeated now none = false
is_repeated now (some last) = ltb now (last + report_dedup)

abbrev pub state_of : KillAction → State
state_of action = (action.pid, (action.terminated, action.quarantined))

unfoldable pub on_action : Machine → KillAction → Reporter → Reporter
unfolding file_report
on_action m action r =
    let states = prune_states m.now (put_state (state_of action) m.now r.reported_states) in
    if not (action.terminated || action.quarantined)
    then r
    else if is_repeated m.now (find_state (state_of action) r.reported_states)
    then r
    else file_report m action (record r { reported_states = states })

-- One round of the loop of `_finalize_due`.
unfoldable pub finalize : ℕ → Bool → Campaign → Campaign
finalize now force c =
    if c.finalized
    then c
    else if force || ltb (c.last_ts + campaign_gap) now
    then record c { finalized = true; finalized_ts = now }
    else c

abbrev pub is_due : ℕ → Bool → Campaign → Bool
is_due now force c = not c.finalized && (force || ltb (c.last_ts + campaign_gap) now)

-- The reports of the campaigns that are due. A file that cannot be written is passed over; where the
-- threats of a campaign's report cannot be made, which is no OSError, the campaigns after it get none.
unfoldable pub write_due :
    Machine → Bool → List Campaign → List (String × ReportFile) → List (String × ReportFile)
unfolding finalize
write_due m force [] files = files
write_due m force (c ∷ cs) files =
    let written = insert c.filename (of_campaign (finalize m.now force c)) files in
    let due = is_due m.now force c in
    let rest = write_due m force cs (if due && m.writable c.filename then written else files) in
    if due && not (is_some (campaign_behaviors c)) then files else rest

-- `_finalize_due`
unfoldable pub finalize_due : Machine → Bool → Reporter → Reporter
unfolding write_due finalize
finalize_due m force r = record r {
  campaigns = map (finalize m.now force) r.campaigns;
  files = write_due m force r.campaigns r.files;
}

unfoldable pub close : Machine → Reporter → Reporter
unfolding finalize_due
close m r = record (finalize_due m true r) { stopped = true }
