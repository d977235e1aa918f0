-- ===== src/Reporter/Joining.antt =====
-- incident_report.py: _Campaign, and how an incident joins one with the signals of its process.
use xodusmile.Prelude.{
  ℕ, ◌+◌, ◌*◌, String, Bool, false, not, ◌&&◌, Option, none, some, List, [], ◌∷◌, ◌++◌, leb, ltb,
  ◌==◌, same, if◌then◌else◌, any, length, add, ◌/◌, ◌%◌,
}
use xodusmile.Signal.{Signal, second, first_positive}
use xodusmile.Responder.Types.{Reason}
use xodusmile.Reporter.FileNames.{campaign_file}
use xodusmile.Damage.{sig_paths, max}

abbrev pub campaign_gap : ℕ
campaign_gap = 120 * second

-- What the machine gives: the clock, `strftime` of a time, and whether a file can be written.
pub record Machine : Type 0 where
  pub now : ℕ
  pub stamp : ℕ → String
  pub writable : String → Bool

pub record Member : Type 0 where
  pub ts : ℕ
  pub pid : ℕ
  pub name : String
  pub reason : Reason
  pub terminated : Bool
  pub quarantined : Bool
  pub incident_file : String

-- The key of a captured signal: milliseconds, detector, name, PID and paths.
abbrev pub SignalKey : Type 0
SignalKey = ℕ × (String × (String × (ℕ × List String)))

pub record Campaign : Type 0 where
  pub start_ts : ℕ
  pub last_ts : ℕ
  pub filename : String
  pub pids : List ℕ
  pub members : List Member
  pub signals : List Signal
  pub sig_keys : List SignalKey
  pub finalized : Bool
  pub finalized_ts : ℕ

-- `round(timestamp, 3)`, in milliseconds: a tie goes to the even neighbour.
unfoldable pub millis : ℕ → ℕ
millis time =
    let whole = time / 1000 in
    let rest = time % 1000 in
    if ltb rest 500 then whole else if rest == 500 then whole + whole % 2 else whole + 1

abbrev pub consed : String → Option (List String) → Option (List String)
consed t none = none
consed t (some ts) = some (t ∷ ts)

-- The list without one occurrence of the text.
abbrev pub remove_one : String → List String → Option (List String)
remove_one s [] = none
remove_one s (t ∷ ts) = let rest = remove_one s ts in if same s t then some ts else consed t rest

-- `sorted(ps) == sorted(qs)`
unfoldable pub same_bag : List String → List String → Bool
same_bag ps [] = length ps == 0
same_bag ps (q ∷ qs) = elim (remove_one q ps) [ none ↦ false | some rest ↦ same_bag rest qs ]

unfoldable pub same_signal_key : SignalKey → SignalKey → Bool
unfolding same_bag
same_signal_key (t, (d, (n, (p, paths)))) (t', (d', (n', (p', paths')))) =
    t == t' && same d d' && same n n' && p == p' && same_bag paths paths'

-- `IncidentReporter._signal_pid`
unfoldable pub signal_pid : Signal → Option ℕ
signal_pid sig = first_positive ("pid" ∷ "ProcessId" ∷ "child_pid" ∷ "process_id" ∷ []) sig.metadata

abbrev pub is_pid : ℕ → Option ℕ → Bool
is_pid pid none = false
is_pid pid (some p) = p == pid

-- One round of the loop that captures the signals of the process.
unfoldable pub capture : ℕ → Signal → Campaign → Campaign
unfolding signal_pid millis
capture pid s c =
    let key : SignalKey = (millis s.timestamp, (s.detector, (s.name, (pid, sig_paths s)))) in
    if not (is_pid pid (signal_pid s))
    then c
    else if any (same_signal_key key) c.sig_keys
    then c
    else record c { sig_keys = key ∷ c.sig_keys; signals = c.signals ++ s ∷ [] }

abbrev pub capture_all : ℕ → List Signal → Campaign → Campaign
capture_all pid [] c = c
capture_all pid (s ∷ recent) c = capture_all pid recent (capture pid s c)

unfoldable pub new_campaign : Machine → ℕ → Campaign
new_campaign m ts = record {
  start_ts = ts;
  last_ts = ts;
  filename = campaign_file (m.stamp ts);
  pids = [];
  members = [];
  signals = [];
  sig_keys = [];
  finalized = false;
  finalized_ts = 0;
}

-- The incident joins the campaign.
unfoldable pub join : Member → List Signal → Campaign → Campaign
join member recent c = capture_all member.pid recent (record c {
  last_ts = max c.last_ts member.ts;
  pids = add member.pid c.pids;
  members = c.members ++ member ∷ [];
})

-- The last campaign takes the incident if it is still open and near enough.
unfoldable pub is_ongoing : ℕ → Campaign → Bool
is_ongoing ts c = not c.finalized && leb ts (c.last_ts + campaign_gap)

-- The campaigns after an incident. The newest campaign stands last; a new one pushes the oldest out.
unfoldable pub place_member : Machine → Member → List Signal → List Campaign → List Campaign
unfolding new_campaign join is_ongoing
place_member m member recent [] = join member recent (new_campaign m member.ts) ∷ []
place_member m member recent (c ∷ []) =
    if is_ongoing member.ts c
    then join member recent c ∷ []
    else c ∷ join member recent (new_campaign m member.ts) ∷ []
place_member m member recent (c ∷ d ∷ cs) = c ∷ place_member m member recent (d ∷ cs)
