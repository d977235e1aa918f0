-- ===== src/CommandLine/Sources.antt =====
-- What the responder makes of one command line that both detectors report.
use xodusmile.Prelude.{
  ℕ, suc, ◌<◌, ◌≡◌, ◌≢◌, refl, sym, subst, String, true, some, List, [], ◌∷◌, ◌++◌, arith, All,
  lookup, length, elem, when, is_empty,
}
use text.Mathlib.TextEquality.{eq_iff}
use xodusmile.Signal.{Signal, pid_of, first_positive, positive_int}
use xodusmile.Responder.Listener.{names_this, two_detectors, extract_pid}
use xodusmile.CommandLine.Rules.{Rule, rules}
use xodusmile.CommandLine.{Search, Process, rule_signal, evaluate_in, evaluate_cmdline}

-- The signal is of the detector and names the PID.
abbrev pub IsReport : ℕ → String → Signal → Type 0
IsReport pid detector s = (names_this pid s ≡ true) × (s.detector ≡ detector)

rule_signal-IsReport :
    (detector : String) (p : Process) (now ident n : ℕ) (r : Rule)
    → p.pid ≡ some (suc n)
    → IsReport (suc n) detector (rule_signal detector p now ident r)
unfolding rule_signal extract_pid pid_of first_positive positive_int lookup
rule_signal-IsReport detector p now ident n r h = simp h (ground arith, refl)

evaluate_in-IsReport :
    (search : Search) (detector : String) (p : Process) (now base n : ℕ) (rs : List Rule)
    → p.pid ≡ some (suc n)
    → All (IsReport (suc n) detector) (evaluate_in search detector p now base rs)
unfolding evaluate_in
evaluate_in-IsReport search detector p now base n [] h = tt
evaluate_in-IsReport search detector p now base n (r ∷ rs) h =
    when (All (IsReport (suc n) detector)) (search r.pattern p.cmdline)
      (λ _. (
        rule_signal-IsReport detector p now _ n r h,
        evaluate_in-IsReport search detector p now base n rs h,
      ))
      (λ _. evaluate_in-IsReport search detector p now base n rs h)

evaluate_cmdline-IsReport :
    (search : Search) (detector : String) (p : Process) (now base n : ℕ)
    → p.pid ≡ some (suc n)
    → All (IsReport (suc n) detector) (evaluate_cmdline search detector p now base)
unfolding evaluate_cmdline
evaluate_cmdline-IsReport search detector p now base n h =
    when (All (IsReport (suc n) detector)) (is_empty p.cmdline) (λ _. tt)
      (λ _. evaluate_in-IsReport search detector p now base n rules h)

length-evaluate_in :
    (search : Search) (d d' : String) (p : Process) (now now' base base' : ℕ) (rs : List Rule)
    → length (evaluate_in search d p now base rs) ≡ length (evaluate_in search d' p now' base' rs)
unfolding evaluate_in
length-evaluate_in search d d' p now now' base base' [] = refl
length-evaluate_in search d d' p now now' base base' (r ∷ rs) =
    ground (arith, length-evaluate_in search d d' p now now' base base' rs)

-- Both detectors report as many signals.
length-evaluate_cmdline :
    (search : Search) (d d' : String) (p : Process) (now now' base base' : ℕ)
    → length (evaluate_cmdline search d p now base)
      ≡ length (evaluate_cmdline search d' p now' base')
unfolding evaluate_cmdline
length-evaluate_cmdline search d d' p now now' base base' =
    ground (arith, length-evaluate_in search d d' p now now' base base' rules)

second_source :
    (pid : ℕ) (d₁ d₂ : String) (xs ys : List Signal)
    → d₁ ≢ d₂
    → All (IsReport pid d₁) xs
    → All (IsReport pid d₂) ys
    → 0 < length ys
    → two_detectors pid (d₁ ∷ []) (xs ++ ys) ≡ true
unfolding two_detectors elem
second_source pid d₁ d₂ [] [] apart _ _ h = absurd (omega (arith, h))
second_source pid d₁ d₂ [] (y ∷ ys) apart _ ((name, detector), _) h =
    ground (arith, name, detector, eq_iff y.detector d₁, apart)
second_source pid d₁ d₂ (x ∷ xs) ys apart ((name, detector), reports) more h = ground (
  arith,
  name,
  detector,
  eq_iff x.detector d₁,
  second_source pid d₁ d₂ xs ys apart reports more h,
)

both_sources :
    (pid : ℕ) (d₁ d₂ : String) (xs ys : List Signal)
    → d₁ ≢ d₂
    → All (IsReport pid d₁) xs
    → All (IsReport pid d₂) ys
    → 0 < length xs
    → 0 < length ys
    → two_detectors pid [] (xs ++ ys) ≡ true
unfolding two_detectors elem
both_sources pid d₁ d₂ [] ys apart _ _ h _ = absurd (omega (arith, h))
both_sources pid d₁ d₂ (x ∷ xs) ys apart ((name, detector), reports) more _ h =
    ground (arith, name, detector, seen_once)
  where
    seen_once : two_detectors pid (x.detector ∷ []) (xs ++ ys) ≡ true
    seen_once =
        subst (λ d. two_detectors pid (d ∷ []) (xs ++ ys) ≡ true) (sym detector)
          (second_source pid d₁ d₂ xs ys apart reports more h)

-- Where a rule fires on the command line of a process with a PID and both detectors report it, the
-- responder's test for two detectors holds of these signals alone: one observation of one command
-- line, seen from two sources, counts as its own confirmation.
pub evaluate_cmdline-corroborated :
    (search : Search) (p : Process) (now now' base base' n : ℕ)
    → p.pid ≡ some (suc n)
    → 0 < length (evaluate_cmdline search "process_cmdline" p now base)
    → two_detectors (suc n) [] (
        evaluate_cmdline search "process_cmdline" p now base
        ++ evaluate_cmdline search "process_kernel" p now' base')
      ≡ true
evaluate_cmdline-corroborated search p now now' base base' n h fired =
    both_sources (suc n) "process_cmdline" "process_kernel"
      (evaluate_cmdline search "process_cmdline" p now base)
      (evaluate_cmdline search "process_kernel" p now' base')
      (λ e. ground (arith, e, (eq_iff "process_cmdline" "process_kernel").1 e))
      (evaluate_cmdline-IsReport search "process_cmdline" p now base n h)
      (evaluate_cmdline-IsReport search "process_kernel" p now' base' n h) fired
      (omega (
        arith,
        fired,
        length-evaluate_cmdline search "process_cmdline" "process_kernel" p now now' base base',
      ))
