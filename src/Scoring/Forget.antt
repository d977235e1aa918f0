-- ===== src/Scoring/Forget.antt =====
-- What `forget_pid` takes out of the live score: exactly what the PID had put in.
use xodusmile.Prelude.{
  ℕ, sym, ◌+◌, ◌≡◌, refl, ◌∙◌, Bool, true, not, Option, none, some, List, [], ◌∷◌, arith, ◌==◌, any,
  keep, inl, inr, Bool-cases, Option-cases, All, length, length-keep-le, ap,
}
use xodusmile.Signal.{Signal, pid_of}
use xodusmile.Scoring.{Engine, score_of, names_pid, forget_pid}
use xodusmile.Scoring.Spec.{is_pid, evidence, linked, worth, sum_of, score_of-eq-sum}

-- Whether the signals that name `q` all pass the test `f`.
abbrev Covers : (Signal → Bool) → ℕ → Type 0
Covers f q = (s : Signal) → pid_of s ≡ some q → f s ≡ true

is_pid-eq : (o : Option ℕ) (q : ℕ) → is_pid o q ≡ true → o ≡ some q
is_pid-eq none q h = cc
is_pid-eq (some p) q h = ground arith

evidence-pid : (q : ℕ) (s : Signal) → evidence q s ≡ true → pid_of s ≡ some q
unfolding evidence
evidence-pid q s h = is_pid-eq (pid_of s) q (ground arith)

-- Dropping signals of other PIDs leaves the evidence against `q` as it is.
any-evidence-keep :
    (f : Signal → Bool) (q : ℕ) (es : List Signal)
    → Covers f q
    → any (evidence q) (keep f es) ≡ any (evidence q) es
unfolding any keep
any-evidence-keep f q [] h = refl
any-evidence-keep f q (s ∷ es) h = elim (Bool-cases (evidence q s)) [
  | inl e ↦ rw (h s (evidence-pid q s e)) (rw e)
  | inr e ↦ elim (Bool-cases (f s)) [
    | inl k ↦ rw (k, e) (any-evidence-keep f q es h)
    | inr k ↦ rw (k, e) (any-evidence-keep f q es h)
  ]
]

abbrev Separates : (Signal → Bool) → Type 0
Separates f = (s : Signal) (q : ℕ) → pid_of s ≡ some q → f s ≡ true → Covers f q

linked-keep :
    (f : Signal → Bool) (es : List Signal) (s : Signal)
    → Separates f
    → f s ≡ true
    → linked (keep f es) s ≡ linked es s
unfolding linked
linked-keep f es s sep k = elim (Option-cases (pid_of s)) [
  | inl e ↦ rw e
  | inr (q, e) ↦ rw e (any-evidence-keep f q es (sep s q e k))
]

worth-keep :
    (f : Signal → Bool) (es : List Signal) (s : Signal)
    → Separates f
    → f s ≡ true
    → worth (keep f es) s ≡ worth es s
unfolding worth
worth-keep f es s sep k = rw (linked-keep f es s sep k)

sum_of-keep :
    (f : Signal → Bool) (all es : List Signal)
    → Separates f
    → sum_of (worth (keep f all)) (keep f es) ≡ sum_of (worth all) (keep f es)
unfolding sum_of keep
sum_of-keep f all [] sep = refl
sum_of-keep f all (s ∷ es) sep = elim (Bool-cases (f s)) [
  | inl k ↦ rw k (omega (arith, worth-keep f all s sep k, sum_of-keep f all es sep))
  | inr k ↦ rw k (sum_of-keep f all es sep)
]

sum_of_split :
    (g : Signal → ℕ) (f : Signal → Bool) (es : List Signal)
    → sum_of g es ≡ sum_of g (keep f es) + sum_of g (keep (λ s. not (f s)) es)
unfolding sum_of keep
sum_of_split g f [] = omega arith
sum_of_split g f (s ∷ es) = elim (Bool-cases (f s)) [
  | inl k ↦ rw k (omega (arith, sum_of_split g f es))
  | inr k ↦ rw k (omega (arith, sum_of_split g f es))
]

names_pid_at : (pid q : ℕ) (s : Signal) → pid_of s ≡ some q → names_pid pid s ≡ (q == pid)
unfolding names_pid
names_pid_at pid q s e = rw (e, names_pid)

names_pid-Separates : (pid : ℕ) → Separates (names_pid pid)
names_pid-Separates pid s q e k t e' = names_pid_at pid q t e' ∙ sym (names_pid_at pid q s e) ∙ k

not-names_pid-Separates : (pid : ℕ) → Separates (λ s. not (names_pid pid s))
not-names_pid-Separates pid s q e k t e' =
    ap not (names_pid_at pid q t e' ∙ sym (names_pid_at pid q s e)) ∙ k

pub score_of_split :
    (pid : ℕ) (es : List Signal)
    → score_of es
      ≡ score_of (keep (names_pid pid) es) + score_of (keep (λ s. not (names_pid pid s)) es)
score_of_split pid es = omega (
  arith,
  score_of-eq-sum es,
  score_of-eq-sum (keep (names_pid pid) es),
  score_of-eq-sum (keep (λ s. not (names_pid pid s)) es),
  sum_of_split (worth es) (names_pid pid) es,
  sum_of-keep (names_pid pid) es es (names_pid-Separates pid),
  sum_of-keep (λ s. not (names_pid pid s)) es es (not-names_pid-Separates pid),
)

-- Forgetting a PID lowers the score by the score that the PID's own signals had alone: no other
-- PID's points change, those that depend on correlation included.
pub score-forget_pid :
    (pid : ℕ) (e : Engine)
    → score_of e.signals
      ≡ score_of (keep (names_pid pid) e.signals) + score_of (forget_pid pid e).0.signals
unfolding forget_pid
score-forget_pid pid e = score_of_split pid e.signals

pub All-keep {ℓ} : {A : Type ℓ} (f : A → Bool) (xs : List A) → All (λ x. f x ≡ true) (keep f xs)
unfolding keep
All-keep f [] = tt
All-keep f (x ∷ xs) = elim (Bool-cases (f x)) [
  | inl k ↦ rw k (k, All-keep f xs)
  | inr k ↦ rw k (All-keep f xs)
]

-- After it no signal of the window names the PID, and the count that comes back is the number of
-- signals by which the window got shorter.
pub forget_pid_lem :
    (pid : ℕ) (e : Engine)
    → All (λ s. not (names_pid pid s) ≡ true) (forget_pid pid e).0.signals
      × (length (forget_pid pid e).0.signals + (forget_pid pid e).1 ≡ length e.signals)
unfolding forget_pid
forget_pid_lem pid e = (
  All-keep (λ s. not (names_pid pid s)) e.signals,
  omega (arith, length-keep-le (λ s. not (names_pid pid s)) e.signals),
)
