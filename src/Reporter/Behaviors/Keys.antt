-- ===== src/Reporter/Behaviors/Keys.antt =====
-- incident_report.py: the names under which _campaign_behaviors keeps times and processes.
use xodusmile.Prelude.{
  List, Option, String, [], ap, arith, false, is_some, lookup, none, not, refl, same, some, sym,
  true, when, ℕ, ◌||◌, ◌∙◌, ◌∷◌, ◌≡◌,
}
use xodusmile.Reporter.Behaviors.{
  Named, Observed, consider, is_behavior, is_earlier, is_unknown_name, proc_label, note_time,
  note_ts, nothing_observed, observe, pid_names, or_nothing, proc_of, see_members, see_signal,
  see_signals, with_label,
}
use xodusmile.Reporter.Behaviors.Searching.{is_some-insert, same-ap}
use xodusmile.Reporter.FileNames.{name_or_unknown}
use xodusmile.Reporter.Joining.{Campaign, signal_pid}
use xodusmile.Signal.{Signal}

later-is_some : (ts : ℕ) (old : Option ℕ) → is_earlier ts old ≡ false → is_some old ≡ true
later-is_some ts none h = ground (arith, h)
later-is_some ts (some t) h = refl

is_some-note_time :
    (name n : String) (ts : ℕ) (d : List (String × ℕ))
    → is_some (lookup name (note_time n ts d)) ≡ (same n name || is_some (lookup name d))
unfolding note_time
is_some-note_time name n ts d =
    when
      (λ (d' : List (String × ℕ)).
        is_some (lookup name d') ≡ (same n name || is_some (lookup name d)))
      (is_earlier ts (lookup n d)) (λ e. is_some-insert name n ts d)
      (λ e.
        ground (arith, later-is_some ts (lookup n d) e, same-ap (λ x. is_some (lookup x d)) n name))

-- The names of `procs` are those of `first_ts`.
IsKeyed : Observed → Type 0
IsKeyed o = (name : String) → is_some (lookup name o.procs) ≡ is_some (lookup name o.first_ts)

nothing_observed-IsKeyed : IsKeyed nothing_observed
unfolding IsKeyed lookup
nothing_observed-IsKeyed name = refl

module _ (o : Observed) (k : IsKeyed o) where
  consider-IsKeyed : (n proc : String) (ts : ℕ) → IsKeyed (consider n ts proc o)
  unfolding consider IsKeyed
  consider-IsKeyed n proc ts name =
      is_some-insert name n (with_label (proc_label proc) (or_nothing (lookup n o.procs))) o.procs
      ∙ ap (λ b. same n name || b) (k name)
      ∙ sym (is_some-note_time name n ts o.first_ts)

  note_ts-IsKeyed : (n : String) (ts : ℕ) → IsKeyed (note_ts n ts o)
  unfolding note_ts IsKeyed
  note_ts-IsKeyed n ts name =
      is_some-insert name n (or_nothing (lookup n o.procs)) o.procs
      ∙ ap (λ b. same n name || b) (k name)
      ∙ sym (is_some-note_time name n ts o.first_ts)

  see_signal-IsKeyed :
      (named : List Named) (names : List (ℕ × String)) (s : Signal)
      → IsKeyed (see_signal named names s o)
  unfolding see_signal
  see_signal-IsKeyed named names s =
      when IsKeyed (not (is_behavior named s.name)) (λ e. k)
        (λ e.
          when IsKeyed (is_unknown_name (proc_of names (signal_pid s)))
            (λ u. note_ts-IsKeyed s.name s.timestamp)
            (λ u. consider-IsKeyed s.name (proc_of names (signal_pid s)) s.timestamp))

see_signals-IsKeyed :
    (named : List Named) (names : List (ℕ × String)) (signals : List Signal) (o : Observed)
    → IsKeyed o
    → IsKeyed (see_signals named names signals o)
see_signals-IsKeyed named names [] o k = k
see_signals-IsKeyed named names (s ∷ signals) o k =
    see_signals-IsKeyed named names signals (see_signal named names s o)
      (see_signal-IsKeyed o k named names s)

see_members-IsKeyed :
    (named : List Named) (o : Observed) → IsKeyed o → IsKeyed (see_members named o)
see_members-IsKeyed [] o k = k
see_members-IsKeyed ((n, m) ∷ named) o k =
    see_members-IsKeyed named (consider n m.ts (name_or_unknown m.name) o)
      (consider-IsKeyed o k n (name_or_unknown m.name) m.ts)

-- A threat that has a list of processes has a time, and conversely.
pub observe-first_ts :
    (named : List Named) (c : Campaign) (name : String)
    → is_some (lookup name (observe named c).procs)
      ≡ is_some (lookup name (observe named c).first_ts)
unfolding observe IsKeyed
observe-first_ts named c =
    let names = pid_names c.members [] in
    see_members-IsKeyed named (see_signals named names c.signals nothing_observed)
      (see_signals-IsKeyed named names c.signals nothing_observed nothing_observed-IsKeyed)
