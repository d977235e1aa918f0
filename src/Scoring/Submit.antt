-- ===== src/Scoring/Submit.antt =====
-- Submitting a signal: evidence that no trust can silence, the levels, and the activity test.
use mathlib.Core.List.{Memᴰ, append-nil}
use xodusmile.Prelude.{
  ℕ, ◌+◌, ◌-◌, ◌≤◌, ◌≡◌, ◌↔◌, refl, ap, ◌∙◌, true, false, not, Option, none, some, List, [], ◌∷◌,
  ◌++◌, arith, if◌then◌else◌, elem, inl, inr, Bool-cases, every, every-elem, lookup, lookup-insert,
  subst,
}
use xodusmile.Signal.{
  Severity, info, low, medium, high, critical, Signal, Answer, answered, truthy, returned, raised,
}
use xodusmile.Scoring.{
  Engine, trusted, score_of, encryption_signal_names, correlation_gated_names,
  ground_truth_encryption, stamp, submit_locked, evict, evict_old, level_for_score, activity_in,
  is_excluded, has_encryption_activity, threshold_low, threshold_medium, threshold_high,
  threshold_critical,
}
use xodusmile.Scoring.Spec.{worth, sum_of}
use xodusmile.Scoring.Order.{score_of-append, score_of-trusted}
use xodusmile.Scoring.Window.{evict-snoc}

name-stamp : (c : Option (Signal → Answer)) (s : Signal) → (stamp c s).name ≡ s.name
unfolding stamp
name-stamp none s = refl
name-stamp (some f) s = ground arith

pub weight-stamp : (c : Option (Signal → Answer)) (s : Signal) → (stamp c s).weight ≡ s.weight
unfolding stamp
weight-stamp none s = refl
weight-stamp (some f) s = ground arith

timestamp-stamp : (c : Option (Signal → Answer)) (s : Signal) → (stamp c s).timestamp ≡ s.timestamp
unfolding stamp
timestamp-stamp none s = refl
timestamp-stamp (some f) s = ground arith

ground_truth_not_gated :
    every (λ n. not (elem n correlation_gated_names)) ground_truth_encryption ≡ true
unfolding every elem
ground_truth_not_gated = refl

worth-ground_truth :
    (es : List Signal) (s : Signal)
    → elem s.name ground_truth_encryption ≡ true
    → worth es s ≡ s.weight
unfolding worth trusted
worth-ground_truth es s h = ground (
  arith,
  every-elem (λ n. not (elem n correlation_gated_names)) s.name ground_truth_encryption
      ground_truth_not_gated h,
)

sum_of_single : (g : Signal → ℕ) (s : Signal) → sum_of g (s ∷ []) ≡ g s
unfolding sum_of
sum_of_single g s = omega arith

-- Whatever the trust classifier answers, or if it raises, a ground-truth signal that is not older
-- than the window is scored by its full weight, on top of the score of what stays in the window.
pub submit-ground_truth :
    (c : Option (Signal → Answer)) (now : ℕ) (s : Signal) (e : Engine)
    → elem s.name ground_truth_encryption ≡ true
    → now ≤ s.timestamp + e.window
    → score_of (evict_old now e).signals + s.weight ≤ (submit_locked now (stamp c s) e).1
unfolding submit_locked evict_old
submit-ground_truth c now s e h t =
    let s' = stamp c s in
    let old = evict (now - e.window) e.signals in
    let window_after : evict (now - e.window) (e.signals ++ s' ∷ []) ≡ old ++ s' ∷ [] =
      evict-snoc (now - e.window) e.signals s' (omega (arith, timestamp-stamp c s)) in
    rw window_after (
      omega (
        arith,
        score_of-append old (s' ∷ []),
        worth-ground_truth (old ++ s' ∷ []) s'
            (ap (λ n. elem n ground_truth_encryption) (name-stamp c s) ∙ h),
        weight-stamp c s,
        sum_of_single (worth (old ++ s' ∷ [])) s',
      ))

trusted-stamp :
    (f : Signal → Answer) (s : Signal)
    → lookup "actor_trusted" s.metadata ≡ none
    → trusted (stamp (some f) s)
      ≡ (if elem s.name ground_truth_encryption then false else answered (f s))
unfolding trusted stamp truthy
trusted-stamp f s h = simp (h, lookup-insert) (ground arith)

-- A signal that the classifier exempts, and that is no ground truth, leaves the score at that of the
-- window, though the signal stands in it; one on which the classifier raises is scored.
pub submit-exempt :
    (f : Signal → Answer) (now : ℕ) (s : Signal) (e : Engine)
    → lookup "actor_trusted" s.metadata ≡ none
    → elem s.name ground_truth_encryption ≡ false
    → now ≤ s.timestamp + e.window
    → ((f s ≡ returned true)
        → (submit_locked now (stamp (some f) s) e).1 ≡ score_of (evict_old now e).signals)
      × ((f s ≡ raised) → trusted (stamp (some f) s) ≡ false)
unfolding submit_locked evict_old
submit-exempt f now s e fresh_key plain t = (
  λ exempt.
      rw
        (evict-snoc (now - e.window) e.signals (stamp (some f) s)
          (omega (arith, timestamp-stamp (some f) s)))
        (score_of-trusted (evict (now - e.window) e.signals) [] (stamp (some f) s)
            (trusted-stamp f s fresh_key ∙ rw (plain, exempt) refl)
          ∙ ap score_of (append-nil _)),
  λ error. trusted-stamp f s fresh_key ∙ rw (plain, error) refl,
)

abbrev pub rank : Severity → ℕ
rank info = 0
rank low = 1
rank medium = 2
rank high = 3
rank critical = 4

abbrev pub threshold : Severity → ℕ
threshold info = 0
threshold low = threshold_low
threshold medium = threshold_medium
threshold high = threshold_high
threshold critical = threshold_critical

-- A score is at a level or above it exactly when it reaches the level's threshold.
pub level_for_score_iff :
    (level : Severity) (score : ℕ)
    → (rank level ≤ rank (level_for_score score)) ↔ (threshold level ≤ score)
unfolding level_for_score
level_for_score_iff info score = (λ h. omega arith, λ h. ground arith)
level_for_score_iff low score = (λ h. ground arith, λ h. ground arith)
level_for_score_iff medium score = (λ h. ground arith, λ h. ground arith)
level_for_score_iff high score = (λ h. ground arith, λ h. ground arith)
level_for_score_iff critical score = (λ h. ground arith, λ h. ground arith)

-- An encryption signal of an untrusted actor, other than the excluded object.
pub record IsActivity (exclude : Option Signal) (s : Signal) : Type 0 where
  pub other : is_excluded exclude s ≡ false
  pub untrusted : trusted s ≡ false
  pub encrypts : elem s.name encryption_signal_names ≡ true

activity_in_sound :
    (x : Option Signal) (es : List Signal)
    → activity_in x es ≡ true
    → (s : Signal) × Memᴰ s es × IsActivity x s
unfolding activity_in
activity_in_sound x [] h = cc
activity_in_sound x (s ∷ es) h = elim (Bool-cases (activity_in x es)) [
  | inl later ↦ let (a, m, p) = activity_in_sound x es later in (a, Memᴰ.tail m, p)
  | inr later ↦ (
    s,
    Memᴰ.head refl,
    record { other = ground arith; untrusted = ground arith; encrypts = ground arith },
  )
]

activity_in_complete :
    (x : Option Signal) (es : List Signal) (s : Signal)
    → Memᴰ s es
    → IsActivity x s
    → activity_in x es ≡ true
unfolding activity_in
activity_in_complete x [] s m p = elim m [ ]
activity_in_complete x (t ∷ es) s (Memᴰ.head e) p =
    subst (λ u. activity_in x (u ∷ es) ≡ true) e (rw (p.other, p.untrusted, p.encrypts) refl)
activity_in_complete x (t ∷ es) s (Memᴰ.tail m) p = ground (arith, activity_in_complete x es s m p)

-- The activity test passes exactly when the window, once old signals are evicted, holds an
-- encryption signal of an untrusted actor other than the excluded one.
pub has_encryption_activity_iff :
    (now : ℕ) (x : Option Signal) (e : Engine)
    → ((has_encryption_activity now x e).1 ≡ true)
      ↔ ((s : Signal) × Memᴰ s (evict_old now e).signals × IsActivity x s)
unfolding has_encryption_activity
has_encryption_activity_iff now x e = (
  activity_in_sound x (evict_old now e).signals,
  λ (s, m, p). activity_in_complete x (evict_old now e).signals s m p,
)
