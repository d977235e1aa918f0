-- ===== src/Scoring/Order.antt =====
-- How the score depends on the window: not on the order of the signals, never falling when a signal
-- is added, and not moved by trusted signals or by deletions alone.
use mathlib.Core.Logic.{∥∥₁_elim}
use mathlib.Core.List.{Perm, Permᴰ}
use native.Mathlib.Nat.{ℕ_set}
use xodusmile.Prelude.{
  ℕ, ◌+◌, ◌≤◌, ◌≡◌, refl, ap, ◌∙◌, Bool, true, false, not, ◌||◌, List, [], ◌∷◌, ◌++◌, arith, elem,
  any, inl, inr, Option-cases, All, every, every-elem,
}
use xodusmile.Signal.{Signal, pid_of}
use xodusmile.Scoring.{trusted, score_of, encryption_signal_names, correlation_gated_names}
use xodusmile.Scoring.Spec.{evidence, linked, worth, sum_of, score_of-eq-sum}

any-perm : (f : Signal → Bool) {es fs : List Signal} → Permᴰ es fs → any f es ≡ any f fs
unfolding any
any-perm f Permᴰ.nil = refl
any-perm f (Permᴰ.cons {a = a} {b = b} e d) = cc (any-perm f d, ap f e)
any-perm f (Permᴰ.swap {a = a} {b = b} {a' = a'} {b' = b'} e e') = ground (arith, ap f e, ap f e')
any-perm f (Permᴰ.trans d d') = any-perm f d ∙ any-perm f d'

sum_of-perm : (g : Signal → ℕ) {es fs : List Signal} → Permᴰ es fs → sum_of g es ≡ sum_of g fs
unfolding sum_of
sum_of-perm g Permᴰ.nil = refl
sum_of-perm g (Permᴰ.cons e d) = omega (arith, sum_of-perm g d, ap g e)
sum_of-perm g (Permᴰ.swap e e') = omega (arith, ap g e, ap g e')
sum_of-perm g (Permᴰ.trans d d') = sum_of-perm g d ∙ sum_of-perm g d'

-- Windows with the same evidence give each signal the same worth.
abbrev SameEvidence : List Signal → List Signal → Type 0
SameEvidence es fs = (q : ℕ) → any (evidence q) es ≡ any (evidence q) fs

worth-same : (es fs : List Signal) (s : Signal) → SameEvidence es fs → worth es s ≡ worth fs s
unfolding worth linked
worth-same es fs s h = elim (Option-cases (pid_of s)) [
  | inl e ↦ rw e
  | inr (q, e) ↦ rw e (rw (h q))
]

sum_of-same :
    (es fs all : List Signal) → SameEvidence es fs → sum_of (worth es) all ≡ sum_of (worth fs) all
unfolding sum_of
sum_of-same es fs [] h = refl
sum_of-same es fs (s ∷ all) h = omega (arith, worth-same es fs s h, sum_of-same es fs all h)

-- The score does not depend on the order in which the detectors' threads submitted the signals.
pub score_of-perm : (es fs : List Signal) → Perm es fs → score_of es ≡ score_of fs
score_of-perm es fs p = ∥∥₁_elim p (ℕ_set _ _) λ d. omega (
  arith,
  score_of-eq-sum es,
  score_of-eq-sum fs,
  sum_of-perm (worth es) d,
  sum_of-same es fs fs (λ q. any-perm (evidence q) d),
)

-- Less evidence gives no signal more worth.
abbrev LessEvidence : List Signal → List Signal → Type 0
LessEvidence es fs = (q : ℕ) → any (evidence q) es ≡ true → any (evidence q) fs ≡ true

worth_mono : (es fs : List Signal) (s : Signal) → LessEvidence es fs → worth es s ≤ worth fs s
unfolding worth linked
worth_mono es fs s h = elim (Option-cases (pid_of s)) [
  | inl e ↦ rw e (omega arith)
  | inr (q, e) ↦ rw e (ground (arith, h q))
]

sum_of_mono :
    (es fs all : List Signal) → LessEvidence es fs → sum_of (worth es) all ≤ sum_of (worth fs) all
unfolding sum_of
sum_of_mono es fs [] h = omega arith
sum_of_mono es fs (s ∷ all) h = omega (arith, worth_mono es fs s h, sum_of_mono es fs all h)

sum_of-append :
    (g : Signal → ℕ) (es fs : List Signal) → sum_of g (es ++ fs) ≡ sum_of g es + sum_of g fs
unfolding sum_of
sum_of-append g [] fs = omega arith
sum_of-append g (s ∷ es) fs = omega (arith, sum_of-append g es fs)

any-append : (f : Signal → Bool) (es fs : List Signal) → any f (es ++ fs) ≡ (any f es || any f fs)
unfolding any
any-append f [] fs = refl
any-append f (s ∷ es) fs = ground (arith, any-append f es fs)

-- More signals never lower the score, and each counts for what it is worth in the whole window.
pub score_of-append :
    (es fs : List Signal) → score_of es + sum_of (worth (es ++ fs)) fs ≤ score_of (es ++ fs)
score_of-append es fs = omega (
  arith,
  score_of-eq-sum es,
  score_of-eq-sum (es ++ fs),
  sum_of-append (worth (es ++ fs)) es fs,
  sum_of_mono es (es ++ fs) es
      (λ (q : ℕ) (k : any (evidence q) es ≡ true). rw (any-append (evidence q) es fs, k) refl),
)

evidence-trusted : (q : ℕ) (s : Signal) → trusted s ≡ true → evidence q s ≡ false
unfolding evidence
evidence-trusted q s h = rw h

-- A signal of a trusted actor moves neither its own points nor those of any other signal, wherever
-- in the window it stands.
pub score_of-trusted :
    (es fs : List Signal) (s : Signal)
    → trusted s ≡ true
    → score_of (es ++ s ∷ fs) ≡ score_of (es ++ fs)
score_of-trusted es fs s h = omega (
  arith,
  score_of-eq-sum (es ++ s ∷ fs),
  score_of-eq-sum (es ++ fs),
  sum_of-append (worth (es ++ s ∷ fs)) es (s ∷ fs),
  sum_of-append (worth (es ++ fs)) es fs,
  unworthy,
  sum_of-same (es ++ s ∷ fs) (es ++ fs) es same_evidence,
  sum_of-same (es ++ s ∷ fs) (es ++ fs) fs same_evidence,
)
  where
    same_evidence : SameEvidence (es ++ s ∷ fs) (es ++ fs)
    same_evidence q =
        rw (any-append (evidence q) es (s ∷ fs), any-append (evidence q) es fs)
          (unfold any in rw (evidence-trusted q s h))

    unworthy : sum_of (worth (es ++ s ∷ fs)) (s ∷ fs) ≡ sum_of (worth (es ++ s ∷ fs)) fs
    unworthy = unfold sum_of worth in rw h (omega arith)

gated_is_no_evidence :
    every (λ n. not (elem n encryption_signal_names)) correlation_gated_names ≡ true
unfolding every elem
gated_is_no_evidence = refl

evidence-gated :
    (q : ℕ) (s : Signal) → elem s.name correlation_gated_names ≡ true → evidence q s ≡ false
unfolding evidence
evidence-gated q s h = ground (
  arith,
  every-elem (λ n. not (elem n encryption_signal_names)) s.name correlation_gated_names
      gated_is_no_evidence h,
)

abbrev AllGated : List Signal → Type 0
AllGated es = All (λ s. elem s.name correlation_gated_names ≡ true) es

any-evidence_gated : (q : ℕ) (es : List Signal) → AllGated es → any (evidence q) es ≡ false
unfolding any
any-evidence_gated q [] h = refl
any-evidence_gated q (s ∷ es) h = rw (evidence-gated q s h.0) (any-evidence_gated q es h.1)

sum_of_gated :
    (all es : List Signal)
    → ((q : ℕ) → any (evidence q) all ≡ false)
    → AllGated es
    → sum_of (worth all) es ≡ 0
unfolding sum_of worth linked
sum_of_gated all [] h g = refl
sum_of_gated all (s ∷ es) h g = elim (Option-cases (pid_of s)) [
  | inl e ↦ rw (g.0, e) (ground (arith, sum_of_gated all es h g.1))
  | inr (q, e) ↦ rw (g.0, e) (ground (arith, h q, sum_of_gated all es h g.1))
]

-- File deletions alone, however many, score nothing.
pub score_of_gated : (es : List Signal) → AllGated es → score_of es ≡ 0
score_of_gated es h = score_of-eq-sum es ∙ sum_of_gated es es (λ q. any-evidence_gated q es h) h
