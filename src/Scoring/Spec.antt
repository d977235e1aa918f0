-- ===== src/Scoring/Spec.antt =====
-- What the score of scoring.py means, without its two loops: each signal of the window is worth its
-- weight, nothing if its actor is trusted, and a gated signal is worth something only beside
-- evidence of encryption by its own PID.
use xodusmile.Prelude.{
  ℕ, ◌+◌, ◌≡◌, refl, Bool, false, not, ◌&&◌, ◌||◌, Option, none, some, List, [], ◌∷◌, arith, ◌==◌,
  if◌then◌else◌, elem, mem, mem-add, any, inl, inr, Option-cases,
}
use xodusmile.Signal.{Signal, pid_of}
use xodusmile.Scoring.{
  trusted, correlate, enc_pids_from, enc_pids, correlated, contribution, total_from, score_of,
  encryption_signal_names, correlation_gated_names,
}

abbrev pub is_pid : Option ℕ → ℕ → Bool
is_pid none q = false
is_pid (some p) q = q == p

-- An untrusted encryption signal that names `q`.
unfoldable pub evidence : ℕ → Signal → Bool
evidence q s = not (trusted s) && (elem s.name encryption_signal_names && is_pid (pid_of s) q)

abbrev linked_pid : List Signal → Option ℕ → Bool
linked_pid es none = false
linked_pid es (some q) = any (evidence q) es

-- The window holds evidence against the PID that the signal names.
unfoldable pub linked : List Signal → Signal → Bool
linked es s = linked_pid es (pid_of s)

unfoldable pub worth : List Signal → Signal → ℕ
worth es s =
    if trusted s
    then 0
    else if elem s.name correlation_gated_names
    then (if linked es s then s.weight else 0)
    else s.weight

unfoldable pub sum_of : (Signal → ℕ) → List Signal → ℕ
sum_of f [] = 0
sum_of f (s ∷ es) = f s + sum_of f es

mem-correlate :
    (q : ℕ) (s : Signal) (pids : List ℕ) → mem q (correlate s pids) ≡ (evidence q s || mem q pids)
unfolding correlate evidence
mem-correlate q s pids = elim (Option-cases (pid_of s)) [
  | inl e ↦ rw e (ground arith)
  | inr (p, e) ↦ rw e (ground (arith, mem-add p q pids))
]

swap_or : (a b c : Bool) → ((a || b) || c) ≡ (b || (a || c))
swap_or a b c = ground arith

mem-enc_pids_from :
    (q : ℕ) (pids : List ℕ) (es : List Signal)
    → mem q (enc_pids_from pids es) ≡ (mem q pids || any (evidence q) es)
unfolding enc_pids_from any
mem-enc_pids_from q pids [] = ground arith
mem-enc_pids_from q pids (s ∷ es) =
    rw (mem-enc_pids_from q (correlate s pids) es, mem-correlate q s pids)
      (swap_or (evidence q s) (mem q pids) (any (evidence q) es))

pub mem-enc_pids : (q : ℕ) (es : List Signal) → mem q (enc_pids es) ≡ any (evidence q) es
unfolding enc_pids mem
mem-enc_pids q es = mem-enc_pids_from q [] es

correlated-enc_pids :
    (o : Option ℕ) (es : List Signal) → correlated o (enc_pids es) ≡ linked_pid es o
unfolding correlated
correlated-enc_pids none es = refl
correlated-enc_pids (some q) es = mem-enc_pids q es

contribution-enc_pids : (es : List Signal) (s : Signal) → contribution (enc_pids es) s ≡ worth es s
unfolding contribution worth linked
contribution-enc_pids es s = rw (correlated-enc_pids (pid_of s) es)

total_from-eq :
    (all : List Signal) (acc : ℕ) (es : List Signal)
    → total_from (enc_pids all) acc es ≡ acc + sum_of (worth all) es
unfolding total_from sum_of
total_from-eq all acc [] = omega arith
total_from-eq all acc (s ∷ es) =
    omega (
      arith,
      total_from-eq all (acc + contribution (enc_pids all) s) es,
      contribution-enc_pids all s,
    )

-- The two loops of the score add up what each signal of the window is worth.
pub score_of-eq-sum : (es : List Signal) → score_of es ≡ sum_of (worth es) es
unfolding score_of
score_of-eq-sum es = omega (arith, total_from-eq es 0 es)
