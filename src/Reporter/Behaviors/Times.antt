-- ===== src/Reporter/Behaviors/Times.antt =====
-- incident_report.py: the rows of _campaign_behaviors, their times and their order.
use xodusmile.Prelude.{
  All, Bool, List, Option, String, [], ap, arith, false, if◌then◌else◌, is_some, leb, lookup, map,
  none, not, refl, same, some, subst, sym, true, when, ℕ, ◌&&◌, ◌∙◌, ◌∷◌, ◌≡◌,
}
use xodusmile.Ranking.{IsRanked, rank, rank-IsRanked}
use xodusmile.Reporter.Behaviors.{
  Behavior, Named, Observed, add_reason, behaviors_of, campaign_behaviors, consider, is_behavior,
  is_first, is_unknown_name, note_time, note_ts, observe, nothing_observed, pid_names, proc_of,
  reasons, row_of, rows_of, see_members, see_signal, see_signals, signame_from_reason,
}
use xodusmile.Reporter.Behaviors.Blame.{
  is_behavior-is_threat, is_blamed, is_threat, observe-is_blamed,
}
use xodusmile.Reporter.Behaviors.Buckets.{accuses}
use xodusmile.Reporter.Behaviors.Firsts.{
  IsDistinct, earlier, earlier-none, earlier_assoc, lookup-note_time, lookup-rank,
  note_time-IsDistinct, rank-IsDistinct,
}
use xodusmile.Reporter.Behaviors.Reasons.{gives, names_signal, reasons-is_some}
use xodusmile.Reporter.Behaviors.Searching.{same-ap}
use xodusmile.Reporter.FileNames.{name_or_unknown}
use xodusmile.Reporter.Joining.{Campaign, Member, signal_pid}
use xodusmile.Signal.{Signal}

-- The first time at which a captured signal shows the threat,
unfoldable pub first_signal : (is_one : String → Bool) → List Signal → Option ℕ
first_signal is_one [] = none
first_signal is_one (s ∷ signals) =
    earlier (if is_one s.name then some s.timestamp else none) (first_signal is_one signals)

-- and at which a process was stopped for it.
unfoldable pub first_stop : String → List Member → Option ℕ
first_stop name [] = none
first_stop name (m ∷ members) =
    earlier (if gives name m then some m.ts else none) (first_stop name members)

unfoldable pub first_seen : String → Campaign → Option ℕ
first_seen name c =
    earlier (first_signal (λ n. same n name && is_threat c.members name) c.signals)
      (first_stop name c.members)

-- The time of the first row of a threat.
unfoldable pub time_of : String → List Behavior → Option ℕ
time_of name [] = none
time_of name (r ∷ rows) = if same r.name name then some r.ts else time_of name rows

-- What the loops leave in `first_ts`: one entry for each name, and at this name its earliest time.
abbrev IsFirst : String → Option ℕ → List (String × ℕ) → Type 0
IsFirst name time d = (lookup name d ≡ time) × IsDistinct d

module _ (name : String) where
  note_time-IsFirst :
      (n : String) (ts : ℕ) (time : Option ℕ) (d : List (String × ℕ))
      → IsFirst name time d
      → IsFirst name (earlier time (if same n name then some ts else none)) (note_time n ts d)
  note_time-IsFirst n ts time d (e, h) = (
    lookup-note_time name n ts d ∙ ap (λ o. earlier o (if same n name then some ts else none)) e,
    note_time-IsDistinct n ts d h,
  )

  see_signal-IsFirst :
      (named : List Named) (names : List (ℕ × String)) (s : Signal) (time : Option ℕ) (o : Observed)
      → IsFirst name time o.first_ts
      → IsFirst name
          (earlier time
            (if same s.name name && is_behavior named name then some s.timestamp else none))
          (see_signal named names s o).first_ts
  unfolding see_signal consider note_ts
  see_signal-IsFirst named names s time o h =
      let shown : Option ℕ =
        if same s.name name && is_behavior named name then some s.timestamp else none in
      let noted = note_time-IsFirst s.name s.timestamp time o.first_ts h in
      let same_test = same-ap (is_behavior named) s.name name in
      when (λ (o' : Observed). IsFirst name (earlier time shown) o'.first_ts)
        (not (is_behavior named s.name))
        (λ off.
          (h.0 ∙ sym (earlier-none time) ∙ ap (earlier time) (ground (arith, off, same_test)), h.1))
        (λ on.
          let t : IsFirst name (earlier time shown) (note_time s.name s.timestamp o.first_ts) =
            (noted.0 ∙ ap (earlier time) (ground (arith, on, same_test)), noted.1) in
          when (λ (o' : Observed). IsFirst name (earlier time shown) o'.first_ts)
            (is_unknown_name (proc_of names (signal_pid s))) (λ k. t) (λ k. t))

  see_signals-IsFirst :
      (named : List Named) (names : List (ℕ × String)) (signals : List Signal) (time : Option ℕ)
      (o : Observed)
      → IsFirst name time o.first_ts
      → IsFirst name
          (earlier time (first_signal (λ n. same n name && is_behavior named name) signals))
          (see_signals named names signals o).first_ts
  unfolding first_signal
  see_signals-IsFirst named names [] time o h = (h.0 ∙ sym (earlier-none time), h.1)
  see_signals-IsFirst named names (s ∷ signals) time o h =
      let shown : Option ℕ =
        if same s.name name && is_behavior named name then some s.timestamp else none in
      let rest = first_signal (λ n. same n name && is_behavior named name) signals in
      let (e, k) =
        see_signals-IsFirst named names signals (earlier time shown) (see_signal named names s o)
          (see_signal-IsFirst named names s time o h) in
      (e ∙ earlier_assoc time shown rest, k)

  abbrev first_named : List Named → Option ℕ
  first_named [] = none
  first_named ((n, m) ∷ named) =
      earlier (if same n name then some m.ts else none) (first_named named)

  see_members-IsFirst :
      (named : List Named) (time : Option ℕ) (o : Observed)
      → IsFirst name time o.first_ts
      → IsFirst name (earlier time (first_named named)) (see_members named o).first_ts
  unfolding consider
  see_members-IsFirst [] time o h = (h.0 ∙ sym (earlier-none time), h.1)
  see_members-IsFirst ((n, m) ∷ named) time o h =
      let shown : Option ℕ = if same n name then some m.ts else none in
      let (e, k) =
        see_members-IsFirst named (earlier time shown) (consider n m.ts (name_or_unknown m.name) o)
          (note_time-IsFirst n m.ts time o.first_ts h) in
      (e ∙ earlier_assoc time shown (first_named named), k)

  abbrev Matches : List Member → Option (List Named) → Type 0
  Matches members none = Unit
  Matches members (some named) = first_named named ≡ first_stop name members

  add_reason-Matches :
      (m : Member) (members : List Member) (sig : Option String) (rest : Option (List Named))
      → names_signal name sig ≡ gives name m
      → Matches members rest
      → Matches (m ∷ members) (add_reason m sig rest)
  unfolding first_stop
  add_reason-Matches m members none rest e k = tt
  add_reason-Matches m members (some n) none e k = tt
  add_reason-Matches m members (some n) (some named) e k = ground (arith, e, k)

  reasons-Matches : (members : List Member) → Matches members (reasons members)
  unfolding reasons first_stop gives
  reasons-Matches [] = refl
  reasons-Matches (m ∷ members) =
      add_reason-Matches m members (signame_from_reason m.reason) (reasons members) refl
        (reasons-Matches members)

  time_of-map :
      (o : Observed) (d : List (String × ℕ)) → time_of name (map (row_of o) d) ≡ lookup name d
  unfolding time_of lookup row_of
  time_of-map o [] = refl
  time_of-map o ((n, ts) ∷ d) = ap (λ t. if same n name then some ts else t) (time_of-map o d)

-- The rows rise in time.
abbrev pub IsInOrder : List Behavior → Type 0
IsInOrder rows = IsRanked (λ (r q : Behavior). leb r.ts q.ts) rows

-- No two rows are of one threat.
abbrev pub IsOnce : List Behavior → Type 0
IsOnce [] = Unit
IsOnce (r ∷ rows) = (time_of r.name rows ≡ none) × IsOnce rows

module _ (o : Observed) where
  All-row_of :
      (ts : ℕ) (d : List (String × ℕ))
      → All (λ (y : String × ℕ). leb ts y.1 ≡ true) d
      → All (λ (q : Behavior). leb ts q.ts ≡ true) (map (row_of o) d)
  unfolding row_of
  All-row_of ts [] h = tt
  All-row_of ts ((n, t) ∷ d) (h, hs) = (h, All-row_of ts d hs)

  map-IsInOrder : (d : List (String × ℕ)) → IsRanked is_first d → IsInOrder (map (row_of o) d)
  unfolding row_of
  map-IsInOrder [] h = tt
  map-IsInOrder ((n, ts) ∷ d) (h, hs) = (All-row_of ts d h, map-IsInOrder d hs)

  map-IsOnce : (d : List (String × ℕ)) → IsDistinct d → IsOnce (map (row_of o) d)
  unfolding row_of
  map-IsOnce [] h = tt
  map-IsOnce ((n, ts) ∷ d) (h, hs) = (time_of-map n o d ∙ h, map-IsOnce d hs)

  rows_of-IsInOrder : IsInOrder (rows_of o)
  unfolding rows_of
  rows_of-IsInOrder = map-IsInOrder (rank is_first o.first_ts) (
      rank-IsRanked is_first (λ x y h. ground (arith, h)) (λ x y z h k. ground (arith, h, k))
        o.first_ts)

  rows_of-IsOnce : IsDistinct o.first_ts → IsOnce (rows_of o)
  unfolding rows_of
  rows_of-IsOnce h = map-IsOnce (rank is_first o.first_ts) (rank-IsDistinct o.first_ts h)

module _ (c : Campaign) (name : String) (named : List Named)
    (e : reasons c.members ≡ some named) where
  observe-IsFirst : IsFirst name (first_seen name c) (observe named c).first_ts
  unfolding observe first_seen lookup
  observe-IsFirst =
      let names = pid_names c.members [] in
      let matches : Matches name c.members (some named) =
        subst (Matches name c.members) e (reasons-Matches name c.members) in
      let behavior = is_behavior-is_threat c name name named e in
      let seen = see_signals-IsFirst name named names c.signals none nothing_observed (refl, tt) in
      let (at, k) =
        see_members-IsFirst name named _ (see_signals named names c.signals nothing_observed)
          seen in
      (
        at
            ∙ ap (λ t. earlier t (first_named name named))
                (ap (λ b. first_signal (λ n. same n name && b) c.signals) behavior)
            ∙ ap (earlier (first_signal (λ n. same n name && is_threat c.members name) c.signals))
                matches,
        k,
      )

  rows_of-first_seen : time_of name (rows_of (observe named c)) ≡ first_seen name c
  unfolding rows_of
  rows_of-first_seen =
      let o = observe named c in
      time_of-map name o (rank is_first o.first_ts)
      ∙ lookup-rank name o.first_ts observe-IsFirst.1
      ∙ observe-IsFirst.0

-- The rows of the campaign's report are made, rise in time, and no threat has two. The threat has a row
-- if it has been seen, with the earliest time at which a captured signal shows it or a process was
-- stopped for it. Its row names the process exactly where it is to blame.
pub record IsReported (name proc : String) (c : Campaign) : Type 0 where
  pub rows : List Behavior
  pub made : campaign_behaviors c ≡ some rows
  pub in_order : IsInOrder rows
  pub once : IsOnce rows
  pub first : time_of name rows ≡ first_seen name c
  pub blamed : accuses name proc rows ≡ is_blamed name proc c

-- Every member's reason names a signal.
abbrev pub IsWorded : Campaign → Type 0
IsWorded c = All (λ (m : Member). is_some (signame_from_reason m.reason) ≡ true) c.members

pub campaign_behaviors-IsReported :
    (name p : String)
    → is_unknown_name p ≡ false
    → (c : Campaign) → IsWorded c
    → IsReported name p c
unfolding campaign_behaviors
campaign_behaviors-IsReported name p h c worded =
    let (named, e) = reasons-is_some c.members worded in
    let o = observe named c in
    record {
      rows = rows_of o;
      made = ap (behaviors_of c) e;
      in_order = rows_of-IsInOrder o;
      once = rows_of-IsOnce o (observe-IsFirst c name named e).1;
      first = rows_of-first_seen c name named e;
      blamed = observe-is_blamed c name p named e h;
    }
