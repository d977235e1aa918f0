-- ===== src/Reporter/Behaviors.antt =====
-- incident_report.py: _campaign_behaviors, the threats that the report of a campaign lists, each with
-- the stopped processes behind it. The Korean texts `what` and `why` of a row are left out.
pub mod Searching
pub mod Words
pub mod Reasons
pub mod Buckets
pub mod Keys
pub mod Blame
pub mod Firsts
pub mod Times
mod Tests
use Prim.Native.Char.{Char, code}
use Prim.Native.String.{◌++◌ as text_append}
use xodusmile.Prelude.{
  ℕ, zero, suc, String, Bool, true, false, not, ◌&&◌, ◌||◌, Option, none, some, List, [], ◌∷◌, ◌++◌,
  leb, ltb, ◌==◌, same, if◌then◌else◌, keep, any, length, insert, lookup, map, is_empty, elem,
  lower, strip, is_space,
}
use xodusmile.Signal.{Signal}
use xodusmile.Scoring.{encryption_signal_names}
use xodusmile.Responder.Types.{Reason, detected, parent_of, manual}
use xodusmile.PidTable.{find, put}
use xodusmile.Ranking.{rank}
use xodusmile.Reporter.FileNames.{decimal, name_or_unknown}
use xodusmile.Reporter.Joining.{Member, Campaign, signal_pid}

abbrev pub sweep_reason : String
sweep_reason = "score_critical_sweep"

abbrev pub or_text : String → Option String → String
or_text s none = s
or_text s (some t) = t

-- The text of a reason.
unfoldable pub reason_text : Reason → String
reason_text (detected detector name) = text_append detector (text_append "/" name)
reason_text (parent_of reason pid) =
    text_append (reason_text reason)
      (text_append " (parent of pid=" (text_append (decimal pid) ")"))
reason_text (manual text) = text

-- What stands behind the first slash.
unfoldable pub behind_slash : String → Option String
behind_slash String.[] = none
behind_slash (String.◌∷◌ c s) = let rest = behind_slash s in if code c == b'/' then some s else rest

unfoldable pub up_to_space : String → String
up_to_space String.[] = String.[]
up_to_space (String.◌∷◌ c s) =
    let rest = up_to_space s in if is_space c then String.[] else String.◌∷◌ c rest

-- `sig.split()[0] if sig else ""`; `none` is the IndexError of a text that is white space only.
unfoldable pub first_word : String → Option String
first_word s =
    if is_empty s
    then some ""
    else if is_empty (strip s)
    then none
    else some (up_to_space (strip s))

-- `_signame_from_reason`
unfoldable pub signame_from_reason : Reason → Option String
unfolding first_word
signame_from_reason reason =
    first_word (or_text (reason_text reason) (behind_slash (reason_text reason)))

abbrev pub unknown_names : List String
unknown_names = "" ∷ "unknown" ∷ "알 수 없음" ∷ "?" ∷ "<unknown>" ∷ "n/a" ∷ []

-- `_is_unknown_name`
unfoldable pub is_unknown_name : String → Bool
is_unknown_name name = elem (lower (strip name)) unknown_names

-- `sn and sn != _SWEEP_REASON`
abbrev pub is_named : String → Bool
is_named name = not (is_empty name) && not (same name sweep_reason)

-- A member with the signal that its reason names.
abbrev pub Named : Type 0
Named = String × Member

abbrev pub add_reason : Member → Option String → Option (List Named) → Option (List Named)
add_reason m none rest = none
add_reason m (some name) none = none
add_reason m (some name) (some named) = some (if is_named name then (name, m) ∷ named else named)

-- The members whose reason names a signal; an exception of one ends the call.
unfoldable pub reasons : List Member → Option (List Named)
unfolding signame_from_reason
reasons [] = some []
reasons (m ∷ members) = add_reason m (signame_from_reason m.reason) (reasons members)

-- `_is_behavior`
unfoldable pub is_behavior : List Named → String → Bool
unfolding any
is_behavior named name =
    any (λ (x : Named). same x.0 name) named || elem name encryption_signal_names

-- `pid_to_name`
unfoldable pub pid_names : List Member → List (ℕ × String) → List (ℕ × String)
pid_names [] names = names
pid_names (m ∷ members) names = pid_names members (put m.pid (name_or_unknown m.name) names)

abbrev pub proc_of : List (ℕ × String) → Option ℕ → String
proc_of names none = ""
proc_of names (some pid) = or_text "" (find pid names)

-- The dicts `first_ts`, `procs` and `proc_first_ts`.
pub record Observed : Type 0 where
  pub first_ts : List (String × ℕ)
  pub procs : List (String × List String)
  pub proc_first_ts : List (String × List (String × ℕ))

abbrev pub or_nothing : {A : Type 0} → Option (List A) → List A
or_nothing none = []
or_nothing (some xs) = xs

abbrev pub is_earlier : ℕ → Option ℕ → Bool
is_earlier ts none = true
is_earlier ts (some old) = ltb ts old

-- `if name not in times or ts < times[name]: times[name] = ts`
unfoldable pub note_time : String → ℕ → List (String × ℕ) → List (String × ℕ)
note_time name ts times = if is_earlier ts (lookup name times) then insert name ts times else times

abbrev pub proc_label : String → String
proc_label proc = if is_unknown_name proc then "unknown" else proc

abbrev pub with_label : String → List String → List String
with_label label bucket = if elem label bucket then bucket else bucket ++ label ∷ []

-- `_consider`
unfoldable pub consider : String → ℕ → String → Observed → Observed
unfolding note_time
consider name ts proc o = record {
  first_ts = note_time name ts o.first_ts;
  procs = insert name (with_label (proc_label proc) (or_nothing (lookup name o.procs))) o.procs;
  proc_first_ts =
      insert name (note_time (proc_label proc) ts (or_nothing (lookup name o.proc_first_ts)))
        o.proc_first_ts;
}

-- `_note_ts`
unfoldable pub note_ts : String → ℕ → Observed → Observed
unfolding note_time
note_ts name ts o = record o {
  first_ts = note_time name ts o.first_ts;
  procs = insert name (or_nothing (lookup name o.procs)) o.procs;
}

-- One round of the loop over the captured signals.
unfoldable pub see_signal : List Named → List (ℕ × String) → Signal → Observed → Observed
unfolding consider note_ts
see_signal named names s o =
    let proc = proc_of names (signal_pid s) in
    if not (is_behavior named s.name)
    then o
    else if is_unknown_name proc
    then note_ts s.name s.timestamp o
    else consider s.name s.timestamp proc o

abbrev pub see_signals : List Named → List (ℕ × String) → List Signal → Observed → Observed
see_signals named names [] o = o
see_signals named names (s ∷ signals) o =
    see_signals named names signals (see_signal named names s o)

-- The loop over the members.
abbrev pub see_members : List Named → Observed → Observed
see_members [] o = o
see_members ((name, m) ∷ named) o =
    see_members named (consider name m.ts (name_or_unknown m.name) o)

abbrev pub nothing_observed : Observed
nothing_observed = record { first_ts = []; procs = []; proc_first_ts = [] }

unfoldable pub observe : List Named → Campaign → Observed
observe named c =
    see_members named (see_signals named (pid_names c.members []) c.signals nothing_observed)

pub record Behavior : Type 0 where
  pub ts : ℕ
  pub name : String
  pub procs : List String
  pub events : List (ℕ × String)

-- `xs or ["unknown"]`
abbrev pub or_one_unknown : List String → List String
or_one_unknown [] = "unknown" ∷ []
or_one_unknown (p ∷ ps) = p ∷ ps

-- The known names, and behind them one "unknown" for the others.
unfoldable pub proc_list : List String → List String
unfolding keep
proc_list bucket =
    let named = keep (λ p. not (is_unknown_name p)) bucket in
    or_one_unknown (named ++ (if length named == length bucket then [] else "unknown" ∷ []))

-- `s <= t` of two texts, by the codes of their characters.
unfoldable pub text_leb : String → String → Bool
text_leb String.[] t = true
text_leb (String.◌∷◌ c s) String.[] = false
text_leb (String.◌∷◌ c s) (String.◌∷◌ d t) =
    ltb (code c) (code d) || code c == code d && text_leb s t

abbrev pub comes_first : ℕ × String → ℕ × String → Bool
comes_first (ts, p) (ts', p') = ltb ts ts' || ts == ts' && text_leb p p'

abbrev pub swap_all : List (String × ℕ) → List (ℕ × String)
swap_all [] = []
swap_all ((p, ts) ∷ times) = (ts, p) ∷ swap_all times

abbrev pub or_event : ℕ → List (ℕ × String) → List (ℕ × String)
or_event ts [] = (ts, "unknown") ∷ []
or_event ts (e ∷ events) = e ∷ events

-- One round of the loop that makes the rows.
unfoldable pub row_of : Observed → String × ℕ → Behavior
unfolding proc_list text_leb
row_of o (name, ts) = record {
  ts = ts;
  name = name;
  procs = proc_list (or_one_unknown (or_nothing (lookup name o.procs)));
  events = or_event ts (rank comes_first (swap_all (or_nothing (lookup name o.proc_first_ts))));
}

abbrev pub is_first : String × ℕ → String × ℕ → Bool
is_first x y = leb x.1 y.1

unfoldable pub rows_of : Observed → List Behavior
unfolding row_of
rows_of o = map (row_of o) (rank is_first o.first_ts)

abbrev pub behaviors_of : Campaign → Option (List Named) → Option (List Behavior)
behaviors_of c none = none
behaviors_of c (some named) = some (rows_of (observe named c))

-- `_campaign_behaviors`
unfoldable pub campaign_behaviors : Campaign → Option (List Behavior)
unfolding reasons
campaign_behaviors c = behaviors_of c (reasons c.members)
