-- ===== src/Reporter/Behaviors/Blame.antt =====
-- incident_report.py: which processes _campaign_behaviors blames for which threats.
use xodusmile.PidTable.{find, find-put, put}
use xodusmile.Prelude.{
  Bool, List, Option, String, [], any, ap, arith, elem, false, if◌then◌else◌, is_empty, lookup,
  lower, none, refl, same, some, strip, subst, true, ℕ, ◌&&◌, ◌==◌, ◌||◌, ◌∙◌, ◌∷◌, ◌≡◌,
}
use xodusmile.Reporter.Behaviors.{
  Named, is_behavior, is_unknown_name, observe, nothing_observed, or_text, pid_names, proc_of,
  reasons, rows_of, see_signals,
}
use xodusmile.Reporter.Behaviors.Buckets.{
  accuses, accuses-rows_of, apart_from, has-see_members, has-see_signals, shows,
}
use xodusmile.Reporter.Behaviors.Keys.{observe-first_ts}
use xodusmile.Reporter.Behaviors.Reasons.{Counts, gives, reasons-Counts}
use xodusmile.Reporter.Behaviors.Searching.{any-ext}
use xodusmile.Reporter.FileNames.{name_or_unknown}
use xodusmile.Reporter.Joining.{Campaign, Member, signal_pid}
use xodusmile.Scoring.{encryption_signal_names}
use xodusmile.Signal.{Signal}

abbrev pub or_other {ℓ} : {A : Type ℓ} → Option A → Option A → Option A
or_other none o = o
or_other (some a) o = some a

-- The name of the last member with the PID.
abbrev pub stopped_name : ℕ → List Member → Option String
stopped_name pid [] = none
stopped_name pid (m ∷ members) =
    or_other (stopped_name pid members)
      (if m.pid == pid then some (name_or_unknown m.name) else none)

or_other-if :
    (found : Option String) (b : Bool) (name : String) (old : Option String)
    → or_other found (if b then some name else old)
      ≡ or_other (or_other found (if b then some name else none)) old
or_other-if (some n) b name old = refl
or_other-if none true name old = refl
or_other-if none false name old = refl

find-pid_names :
    (pid : ℕ) (members : List Member) (names : List (ℕ × String))
    → find pid (pid_names members names) ≡ or_other (stopped_name pid members) (find pid names)
unfolding pid_names
find-pid_names pid [] names = refl
find-pid_names pid (m ∷ members) names =
    find-pid_names pid members (put m.pid (name_or_unknown m.name) names)
    ∙ ap (or_other (stopped_name pid members)) (find-put m.pid pid (name_or_unknown m.name) names)
    ∙ or_other-if (stopped_name pid members) (m.pid == pid) (name_or_unknown m.name)
        (find pid names)

-- The stopped process with the PID that a signal names is called so.
abbrev pub is_by : String → List Member → Option ℕ → Bool
is_by proc members none = false
is_by proc members (some pid) = same (or_text "" (stopped_name pid members)) proc

-- The signal's name is a threat of the report: a reason of a member, or encryption.
unfoldable pub is_threat : List Member → String → Bool
unfolding any
is_threat members name = any (gives name) members || elem name encryption_signal_names

-- A captured signal of the threat is by the process, or the process was stopped for it.
unfoldable pub is_blamed : (name proc : String) → Campaign → Bool
unfolding any
is_blamed name proc c =
    any
      (λ (s : Signal).
        same s.name name && (is_threat c.members name && is_by proc c.members (signal_pid s)))
      c.signals
    || any (λ (m : Member). gives name m && same m.name proc) c.members

or_other-none : (found : Option String) → or_other found none ≡ found
or_other-none none = refl
or_other-none (some n) = refl

proc_of-is_by :
    (p : String) (members : List Member) (pid : Option ℕ)
    → is_unknown_name p ≡ false
    → same (proc_of (pid_names members []) pid) p ≡ is_by p members pid
unfolding find is_unknown_name elem lower strip is_empty
proc_of-is_by p members none h = apart_from p h "" refl
proc_of-is_by p members (some pid) h =
    ap (λ x. same (or_text "" x) p)
      (find-pid_names pid members [] ∙ or_other-none (stopped_name pid members))

module _ (c : Campaign) (name p : String) (named : List Named)
    (e : reasons c.members ≡ some named) where
  pub counted : (q : Member → Bool) → Counts q name c.members (some named)
  counted q = subst (Counts q name c.members) e (reasons-Counts q name c.members)

  pub is_behavior-is_threat : is_behavior named name ≡ is_threat c.members name
  unfolding is_behavior is_threat
  is_behavior-is_threat =
      ap (λ b. b || elem name encryption_signal_names)
        (any-ext (λ (x : Named). same x.0 name) (λ x. same x.0 name && true) (λ x. ground arith)
            named
          ∙ counted (λ m. true)
          ∙ any-ext (λ m. gives name m && true) (gives name) (λ m. ground arith) c.members)

  pub observe-is_blamed :
      is_unknown_name p ≡ false → accuses name p (rows_of (observe named c)) ≡ is_blamed name p c
  unfolding observe is_blamed elem lookup
  observe-is_blamed h =
      let names = pid_names c.members [] in
      let seen = see_signals named names c.signals nothing_observed in
      accuses-rows_of name p h (observe named c) (observe-first_ts named c name)
      ∙ has-see_members name p h named seen
      ∙ ground (
        arith,
        has-see_signals name p h named names c.signals nothing_observed,
        any-ext (shows name p h named names)
            (λ (s : Signal).
              same s.name name && (is_threat c.members name && is_by p c.members (signal_pid s)))
            (λ s. ground (arith, is_behavior-is_threat, proc_of-is_by p c.members (signal_pid s) h))
            c.signals,
        counted (λ m. same m.name p),
      )
