-- ===== src/Postmortem/Delays.antt =====
-- The timeline's marks are the first of their kind and its peak is reached, with no negative delay.
use text.Mathlib.TextEquality.{eq_iff}
use mathlib.Core.List.{Memᴰ}
use mathlib.Core.Option.{some-injective}
use xodusmile.Prelude.{
  refl, sym, ◌++◌, subst, ◌+◌, ℕ, ◌≤◌, ◌≡◌, ap, String, Bool, true, false, Option, none, some, List,
  [], ◌∷◌, arith, if◌then◌else◌, ltb, leb, All, when, Bool-cases, inl, inr,
}
use xodusmile.Postmortem.{
  Logged, Timeline, first_where, peak_of, end_of, is_high, is_critical, severity_order,
  build_timeline,
}

-- The signals stand in the order of their times, none before the bound.
abbrev pub IsOrdered : ℕ → List Logged → Type 0
IsOrdered lo [] = Unit
IsOrdered lo (s ∷ signals) = (lo ≤ s.timestamp) × IsOrdered s.timestamp signals

-- The marker, if there is one, is not before the bound.
abbrev pub NotBefore : ℕ → Option Logged → Type 0
NotBefore lo none = Unit
NotBefore lo (some s) = lo ≤ s.timestamp

-- If there is a second marker there is a first, not after it.
abbrev pub Precedes : Option Logged → Option Logged → Type 0
Precedes first none = Unit
Precedes none (some s) = ⊥
Precedes (some f) (some s) = f.timestamp ≤ s.timestamp

NotBefore-weaken : (lo lo' : ℕ) (o : Option Logged) → lo ≤ lo' → NotBefore lo' o → NotBefore lo o
NotBefore-weaken lo lo' none h n = tt
NotBefore-weaken lo lo' (some s) h n = omega (arith, h, n)

first_where-NotBefore :
    (pred : Logged → Bool) (lo : ℕ) (signals : List Logged)
    → IsOrdered lo signals
    → NotBefore lo (first_where pred signals)
unfolding first_where
first_where-NotBefore pred lo [] ordered = tt
first_where-NotBefore pred lo (s ∷ signals) (h, hs) =
    when (NotBefore lo) (pred s) (λ _. h)
      (λ _.
        NotBefore-weaken lo s.timestamp (first_where pred signals) h
          (first_where-NotBefore pred s.timestamp signals hs))

critical_is_high : (s : Logged) → is_critical s ≡ true → is_high s ≡ true
unfolding severity_order
critical_is_high s h =
    let level : s.level_after ≡ "CRITICAL" = (eq_iff s.level_after "CRITICAL").0 h in
    ap (λ x. leb (severity_order "HIGH") (severity_order x)) level

Precedes-some : (s : Logged) (o : Option Logged) → NotBefore s.timestamp o → Precedes (some s) o
Precedes-some s none n = tt
Precedes-some s (some t) n = n

first_where-Precedes :
    (lo : ℕ) (signals : List Logged)
    → IsOrdered lo signals
    → Precedes (first_where is_high signals) (first_where is_critical signals)
unfolding first_where
first_where-Precedes lo [] ordered = tt
first_where-Precedes lo (s ∷ signals) (h, hs) = elim (Bool-cases (is_high s)) [
  | inl high ↦
      let rest = first_where-NotBefore is_critical s.timestamp signals hs in
      simp high (
        when (Precedes (some s)) (is_critical s) (λ _. omega arith)
          (λ _. Precedes-some s (first_where is_critical signals) rest))
  | inr low ↦
      let not_critical : is_critical s ≡ false = ground (arith, low, critical_is_high s) in
      simp (low, not_critical) (first_where-Precedes s.timestamp signals hs)
]

peak_of-highest :
    (best : Logged) (signals : List Logged)
    → (best.score_after ≤ (peak_of best signals).score_after)
      × All (λ s. s.score_after ≤ (peak_of best signals).score_after) signals
unfolding peak_of
peak_of-highest best [] = (omega arith, tt)
peak_of-highest best (s ∷ signals) =
    let next = if ltb best.score_after s.score_after then s else best in
    let rest = peak_of-highest next signals in
    let higher : best.score_after ≤ next.score_after = ground arith in
    let at_least : s.score_after ≤ next.score_after = ground arith in
    (omega (arith, higher, rest.0), (omega (arith, at_least, rest.0), rest.1))

end_of-latest :
    (s : Logged) (signals : List Logged)
    → IsOrdered s.timestamp signals
    → s.timestamp ≤ (end_of s signals).timestamp
end_of-latest s [] ordered = omega arith
end_of-latest s (t ∷ signals) (h, hs) = omega (arith, h, end_of-latest t signals hs)

-- A marker is the first signal with the property; without one, no signal has it.
abbrev pub Marks : (Logged → Bool) → List Logged → Option Logged → Type 0
Marks pred signals none = All (λ x. pred x ≡ false) signals
Marks pred signals (some m) =
    (before after_ : List Logged) × (signals ≡ before ++ m ∷ after_)
    × All (λ x. pred x ≡ false) before
    × (pred m ≡ true)

Marks-later :
    (pred : Logged → Bool) (s : Logged) (signals : List Logged) (o : Option Logged)
    → pred s ≡ false
    → Marks pred signals o
    → Marks pred (s ∷ signals) o
Marks-later pred s signals none h marks = (h, marks)
Marks-later pred s signals (some m) h (before, after_, split, none_before, holds) =
    (s ∷ before, after_, ap (λ xs. s ∷ xs) split, (h, none_before), holds)

first_where-Marks :
    (pred : Logged → Bool) (signals : List Logged) → Marks pred signals (first_where pred signals)
unfolding first_where
first_where-Marks pred [] = tt
first_where-Marks pred (s ∷ signals) =
    when (Marks pred (s ∷ signals)) (pred s) (λ h. ([], signals, refl, tt, h))
      (λ h.
        Marks-later pred s signals (first_where pred signals) h (first_where-Marks pred signals))

Memᴰ-skip :
    (best s x : Logged) (signals : List Logged)
    → Memᴰ x (best ∷ signals)
    → Memᴰ x (best ∷ s ∷ signals)
Memᴰ-skip best s x signals (Memᴰ.head e) = Memᴰ.head e
Memᴰ-skip best s x signals (Memᴰ.tail m) = Memᴰ.tail (Memᴰ.tail m)

peak_of-mem : (best : Logged) (signals : List Logged) → Memᴰ (peak_of best signals) (best ∷ signals)
unfolding peak_of
peak_of-mem best [] = Memᴰ.head refl
peak_of-mem best (s ∷ signals) = elim (Bool-cases (ltb best.score_after s.score_after)) [
  | inl higher ↦ simp higher (Memᴰ.tail (peak_of-mem s signals))
  | inr kept ↦
      simp kept (Memᴰ-skip best s (peak_of best signals) signals (peak_of-mem best signals))
]

-- A signal of the list has the score at the time.
abbrev pub IsReached : (score time : ℕ) → List Logged → Type 0
IsReached score time signals =
    (x : Logged) × Memᴰ x signals × (x.score_after ≡ score) × (x.timestamp ≡ time)

end_of-mem : (s : Logged) (signals : List Logged) → Memᴰ (end_of s signals) (s ∷ signals)
end_of-mem s [] = Memᴰ.head refl
end_of-mem s (t ∷ signals) = Memᴰ.tail (end_of-mem t signals)

end_of-bound :
    (s : Logged) (signals : List Logged)
    → IsOrdered s.timestamp signals
    → All (λ x. x.timestamp ≤ (end_of s signals).timestamp) signals
end_of-bound s [] ordered = tt
end_of-bound s (t ∷ signals) (h, hs) = (end_of-latest t signals hs, end_of-bound t signals hs)

-- What a timeline promises of the signals from the first on.
pub record IsTimely (hinted : String → Bool) (s : Logged) (signals : List Logged) (t : Timeline)
    : Type 0 where
  pub anchored : t.anchor ≡ s.timestamp
  pub attacked : t.attack_start ≡ s.timestamp
  pub began : t.t0 ≡ s.timestamp
  pub ended : t.anchor + t.duration ≡ t.t_end
  pub end_reached : (x : Logged) × Memᴰ x (s ∷ signals) × (x.timestamp ≡ t.t_end)
  pub end_latest : All (λ x. x.timestamp ≤ t.t_end) (s ∷ signals)
  pub enc_marks : Marks (λ (x : Logged). hinted x.text) (s ∷ signals) t.first_enc
  pub high_marks : Marks is_high (s ∷ signals) t.first_high
  pub crit_marks : Marks is_critical (s ∷ signals) t.first_crit
  pub enc_later : NotBefore t.anchor t.first_enc
  pub high_later : NotBefore t.anchor t.first_high
  pub crit_later : Precedes t.first_high t.first_crit
  pub peak_reached : IsReached t.peak_score t.peak_at (s ∷ signals)
  pub peak_later : t.anchor ≤ t.peak_at
  pub peak_highest : All (λ x. x.score_after ≤ t.peak_score) (s ∷ signals)

IsOrdered-Memᴰ :
    (lo : ℕ) (x : Logged) (signals : List Logged)
    → IsOrdered lo signals
    → Memᴰ x signals
    → lo ≤ x.timestamp
IsOrdered-Memᴰ lo x [] _ m = elim m [ ]
IsOrdered-Memᴰ lo x (s ∷ signals) (h, hs) (Memᴰ.head e) = subst (λ y. lo ≤ y.timestamp) (sym e) h
IsOrdered-Memᴰ lo x (s ∷ signals) (h, hs) (Memᴰ.tail m) =
    omega (arith, h, IsOrdered-Memᴰ s.timestamp x signals hs m)

-- Of signals in order, the timeline counts from the first signal, its anchor, and the duration leads from
-- there to the latest time of a signal. The first signs of encryption, of a high level and of a critical
-- one are the first signals that show them, and are missing just where no signal does. The peak is the
-- score of a signal at the time given for it, and no signal has a higher one. None of these is before the
-- anchor, and a critical level is preceded by a high one, so that no delay is negative.
pub build_timeline-IsTimely :
    (hinted : String → Bool) (s : Logged) (signals : List Logged) (t : Timeline)
    → IsOrdered s.timestamp signals
    → build_timeline hinted (s ∷ signals) ≡ some t
    → IsTimely hinted s signals t
unfolding build_timeline
build_timeline-IsTimely hinted s signals t ordered eq =
    let all_ordered : IsOrdered s.timestamp (s ∷ signals) = (omega arith, ordered) in
    let enc = λ (x : Logged). hinted x.text in
    subst (IsTimely hinted s signals) (some-injective _ t eq) (record {
      anchored = refl;
      attacked = refl;
      began = refl;
      ended = omega (arith, end_of-latest s signals ordered);
      end_reached = (end_of s signals, end_of-mem s signals, refl);
      end_latest = (end_of-latest s signals ordered, end_of-bound s signals ordered);
      enc_marks = first_where-Marks enc (s ∷ signals);
      high_marks = first_where-Marks is_high (s ∷ signals);
      crit_marks = first_where-Marks is_critical (s ∷ signals);
      enc_later = first_where-NotBefore enc s.timestamp (s ∷ signals) all_ordered;
      high_later = first_where-NotBefore is_high s.timestamp (s ∷ signals) all_ordered;
      crit_later = first_where-Precedes s.timestamp (s ∷ signals) all_ordered;
      peak_reached = (peak_of s signals, peak_of-mem s signals, refl, refl);
      peak_later =
          IsOrdered-Memᴰ s.timestamp (peak_of s signals) (s ∷ signals) all_ordered
            (peak_of-mem s signals);
      peak_highest = peak_of-highest s signals;
    })
