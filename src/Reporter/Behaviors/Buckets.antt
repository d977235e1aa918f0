-- ===== src/Reporter/Behaviors/Buckets.antt =====
-- incident_report.py: the processes that _campaign_behaviors collects for each threat, and those of its
-- rows.
use text.Mathlib.TextEquality.{eq_iff}
use xodusmile.Prelude.{
  Bool, Bool-cases, List, Option, String, [], any, ap, arith, elem, false, if◌then◌else◌, inl, inr,
  insert, is_empty, is_some, keep, length, lookup, lookup-insert, lower, none, not, refl, same,
  some, strip, sym, true, when, ℕ, ◌&&◌, ◌==◌, ◌||◌, ◌∙◌, ◌∷◌, ◌≡◌,
}
use xodusmile.Ranking.{rank}
use xodusmile.Reporter.Behaviors.{
  Behavior, Named, Observed, consider, is_behavior, is_first, is_unknown_name, proc_label, note_ts,
  or_nothing, or_one_unknown, proc_list, proc_of, row_of, rows_of, see_members, see_signal,
  see_signals, with_label,
}
use xodusmile.Reporter.Behaviors.Searching.{
  any-lookup, any-map, any-rank, elem-append, elem-keep, same-ap,
}
use xodusmile.Reporter.FileNames.{name_or_unknown}
use xodusmile.Reporter.Joining.{signal_pid}
use xodusmile.Signal.{Signal}

-- What the rows of a report blame: the process for the threat.
unfoldable pub accuses : (name proc : String) → List Behavior → Bool
unfolding any
accuses name proc rows = any (λ (r : Behavior). same r.name name && elem proc r.procs) rows

-- A name that is not known differs from one that is.
apart_unknown :
    (u p : String) → is_unknown_name u ≡ true → is_unknown_name p ≡ false → same p u ≡ false
apart_unknown u p k h = elim (Bool-cases (same p u)) [
  | inl e ↦ let q = ap is_unknown_name ((eq_iff p u).0 e) in cc
  | inr e ↦ e
]

module _ (p : String) (h : is_unknown_name p ≡ false) where
  apart : same p "unknown" ≡ false
  unfolding is_unknown_name elem lower strip is_empty
  apart = apart_unknown "unknown" p refl h

  elem-or_one_unknown : (xs : List String) → elem p (or_one_unknown xs) ≡ elem p xs
  unfolding elem
  elem-or_one_unknown [] = ground (arith, apart)
  elem-or_one_unknown (x ∷ xs) = refl

  -- A known name stands in the list of a row exactly if it stands in the bucket.
  elem-proc_list : (bucket : List String) → elem p (proc_list bucket) ≡ elem p bucket
  unfolding proc_list elem
  elem-proc_list bucket =
      let named = keep (λ q. not (is_unknown_name q)) bucket in
      elem-or_one_unknown _
      ∙ elem-append p named (if length named == length bucket then [] else "unknown" ∷ [])
      ∙ ground (arith, elem-keep p (λ q. not (is_unknown_name q)) bucket, h, apart)

  pub apart_from : (proc : String) → is_unknown_name proc ≡ true → same proc p ≡ false
  apart_from proc k = ground (arith, apart_unknown proc p k h, eq_iff proc p, eq_iff p proc)

  same-proc_label : (proc : String) → same (proc_label proc) p ≡ same proc p
  same-proc_label proc = elim (Bool-cases (is_unknown_name proc)) [
    | inl k ↦ ground (arith, k, apart, eq_iff "unknown" p, eq_iff p "unknown", apart_from proc k)
    | inr k ↦ ground (arith, k)
  ]

  same-name_or_unknown : (name : String) → same (name_or_unknown name) p ≡ same name p
  unfolding name_or_unknown is_empty is_unknown_name elem lower strip
  same-name_or_unknown String.[] = apart_from "unknown" refl ∙ sym (apart_from "" refl)
  same-name_or_unknown (String.◌∷◌ c s) = refl

  elem-with_label :
      (label : String) (bucket : List String)
      → elem p (with_label label bucket) ≡ (elem p bucket || same label p)
  unfolding elem
  elem-with_label label bucket = elim (Bool-cases (same label p)) [
    | inl e ↦
        let q : label ≡ p = (eq_iff label p).0 e in
        ground (arith, elem-append p bucket (label ∷ []), eq_iff p label, ap (λ x. elem x bucket) q)
    | inr e ↦ ground (arith, elem-append p bucket (label ∷ []), eq_iff p label, eq_iff label p)
  ]

-- The bucket of a name has the process.
abbrev has : (name proc : String) → Observed → Bool
has name proc o = elem proc (or_nothing (lookup name o.procs))

-- An assignment to a bucket.
elem-insert :
    (p name n : String) (bucket : List String) (d : List (String × List String))
    → elem p (or_nothing (lookup name (insert n bucket d)))
      ≡ (if same n name then elem p bucket else elem p (or_nothing (lookup name d)))
elem-insert p name n bucket d =
    ap (λ x. elem p (or_nothing x)) (lookup-insert n name bucket d)
    ∙ elim (Bool-cases (same n name)) [ inl e ↦ ground (arith, e) | inr e ↦ ground (arith, e) ]

-- Nothing stands in a bucket that is not there.
elem_present :
    (p : String) (b : Bool) (bucket : Option (List String)) (present : Bool)
    → is_some bucket ≡ present
    → b ≡ elem p (or_nothing bucket)
    → (present && b) ≡ elem p (or_nothing bucket)
unfolding elem
elem_present p b none present h k = ground (arith, h, k)
elem_present p b (some xs) present h k = ground (arith, h, k)

module _ (name p : String) (h : is_unknown_name p ≡ false) where
  has-consider :
      (n proc : String) (ts : ℕ) (o : Observed)
      → has name p (consider n ts proc o) ≡ (has name p o || same n name && same proc p)
  unfolding consider
  has-consider n proc ts o =
      let at : String → Bool = λ x. elem p (or_nothing (lookup x o.procs)) in
      elem-insert p name n (with_label (proc_label proc) (or_nothing (lookup n o.procs))) o.procs
      ∙ elim (Bool-cases (same n name)) [
        | inl e ↦
            let q = ap at ((eq_iff n name).0 e) in
            ground (
              arith,
              e,
              q,
              elem-with_label p h (proc_label proc) (or_nothing (lookup n o.procs)),
              same-proc_label p h proc,
            )
        | inr e ↦ ground (arith, e)
      ]

  has-note_ts : (n : String) (ts : ℕ) (o : Observed) → has name p (note_ts n ts o) ≡ has name p o
  unfolding note_ts
  has-note_ts n ts o =
      let at : String → Bool = λ x. elem p (or_nothing (lookup x o.procs)) in
      elem-insert p name n (or_nothing (lookup n o.procs)) o.procs
      ∙ elim (Bool-cases (same n name)) [
        | inl e ↦ let q = ap at ((eq_iff n name).0 e) in ground (arith, e, q)
        | inr e ↦ ground (arith, e)
      ]

  -- The signal is one of this threat by this process.
  abbrev pub shows : List Named → List (ℕ × String) → Signal → Bool
  shows named names s =
      same s.name name && (is_behavior named name && same (proc_of names (signal_pid s)) p)

  has-see_signal :
      (named : List Named) (names : List (ℕ × String)) (s : Signal) (o : Observed)
      → has name p (see_signal named names s o) ≡ (has name p o || shows named names s)
  unfolding see_signal
  has-see_signal named names s o =
      let proc = proc_of names (signal_pid s) in
      when (λ o'. has name p o' ≡ (has name p o || shows named names s))
        (not (is_behavior named s.name))
        (λ off. ground (arith, off, same-ap (is_behavior named) s.name name))
        (λ on.
          when (λ o'. has name p o' ≡ (has name p o || shows named names s)) (is_unknown_name proc)
            (λ k. has-note_ts s.name s.timestamp o ∙ ground (arith, apart_from p h proc k))
            (λ k.
              has-consider s.name proc s.timestamp o
              ∙ ground (arith, on, same-ap (is_behavior named) s.name name)))

  pub has-see_signals :
      (named : List Named) (names : List (ℕ × String)) (signals : List Signal) (o : Observed)
      → has name p (see_signals named names signals o)
        ≡ (has name p o || any (shows named names) signals)
  unfolding any
  has-see_signals named names [] o = ground arith
  has-see_signals named names (s ∷ signals) o =
      has-see_signals named names signals (see_signal named names s o)
      ∙ ground (arith, has-see_signal named names s o)

  pub has-see_members :
      (named : List Named) (o : Observed)
      → has name p (see_members named o)
        ≡ (has name p o || any (λ (x : Named). same x.0 name && same x.1.name p) named)
  unfolding any
  has-see_members [] o = ground arith
  has-see_members ((n, m) ∷ named) o =
      has-see_members named (consider n m.ts (name_or_unknown m.name) o)
      ∙ ground
          (arith, has-consider n (name_or_unknown m.name) m.ts o, same-name_or_unknown p h m.name)

  pub accuses-rows_of :
      (o : Observed)
      → is_some (lookup name o.procs) ≡ is_some (lookup name o.first_ts)
      → accuses name p (rows_of o) ≡ has name p o
  unfolding accuses rows_of row_of
  accuses-rows_of o k =
      let in_row : String → Bool =
        λ x. elem p (proc_list (or_one_unknown (or_nothing (lookup x o.procs)))) in
      any-map (λ (r : Behavior). same r.name name && elem p r.procs) (row_of o)
        (rank is_first o.first_ts)
      ∙ any-rank (λ (x : String × ℕ). same x.0 name && in_row x.0) is_first o.first_ts
      ∙ any-lookup in_row name o.first_ts
      ∙ elem_present p (in_row name) (lookup name o.procs) (is_some (lookup name o.first_ts)) k (
          elem-proc_list p h (or_one_unknown (or_nothing (lookup name o.procs)))
          ∙ elem-or_one_unknown p h (or_nothing (lookup name o.procs)))
