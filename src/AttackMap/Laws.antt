-- ===== src/AttackMap/Laws.antt =====
-- The signals that the command line rules raise, and those of encryption, are in the table.
use xodusmile.Prelude.{
  ℕ, ◌≡◌, refl, String, Bool, true, ◌&&◌, some, is_some, List, [], ◌∷◌, arith, All, any, elem,
  every, every-elem, is_empty, lookup, same, when, length, ◌+◌,
}
use xodusmile.Signal.{Signal}
use xodusmile.Scoring.{encryption_signal_names}
use xodusmile.CommandLine.Rules.{Rule, rules}
use xodusmile.CommandLine.{Search, Process, rule_signal, evaluate_in, evaluate_cmdline}
use xodusmile.AttackMap.Table.{Technique, signal_techniques}
use xodusmile.AttackMap.{techniques_for, primary_technique}

-- The signal's name has a technique.
unfoldable pub is_mapped : String → Bool
is_mapped name = is_some (primary_technique (some name))

-- One of its techniques is the encryption of data for impact.
unfoldable pub is_impact : String → Bool
is_impact name = any (λ (t : Technique). same t.tid "T1486") (techniques_for (some name))

all_mapped : List Rule → Bool
all_mapped [] = true
all_mapped (r ∷ rs) = is_mapped r.name && all_mapped rs

rules_mapped : all_mapped rules ≡ true
unfolding all_mapped is_mapped primary_technique techniques_for lookup signal_techniques is_empty
rules_mapped = refl

names_impact : every is_impact encryption_signal_names ≡ true
unfolding every is_impact techniques_for lookup signal_techniques is_empty any
names_impact = refl

evaluate_in_mapped :
    (search : Search) (detector : String) (p : Process) (now base : ℕ) (rs : List Rule)
    → all_mapped rs ≡ true
    → All (λ (s : Signal). is_mapped s.name ≡ true) (evaluate_in search detector p now base rs)
unfolding evaluate_in all_mapped rule_signal
evaluate_in_mapped find_ detector p now base [] h = tt
evaluate_in_mapped find_ detector p now base (r ∷ rs) h =
    let rest = evaluate_in find_ detector p now base rs in
    let here : is_mapped r.name ≡ true = ground (arith, h) in
    let others = evaluate_in_mapped find_ detector p now base rs (ground (arith, h)) in
    when (All (λ (s : Signal). is_mapped s.name ≡ true))
      {x = rule_signal detector p now (base + length rest) r ∷ rest} (find_ r.pattern p.cmdline)
      (λ _. (here, others)) (λ _. others)

-- Every signal that a command line raises, whatever the patterns find in it, has a technique that the
-- administrator sees.
pub evaluate_cmdline-is_mapped :
    (search : Search) (detector : String) (p : Process) (now base : ℕ)
    → All (λ (s : Signal). is_mapped s.name ≡ true) (evaluate_cmdline search detector p now base)
unfolding evaluate_cmdline
evaluate_cmdline-is_mapped find_ detector p now base =
    when (All (λ (s : Signal). is_mapped s.name ≡ true)) {x = []} (is_empty p.cmdline) (λ _. tt)
      (λ _. evaluate_in_mapped find_ detector p now base rules rules_mapped)

-- Every signal name that the engine counts as encryption has the technique of data encrypted for impact.
pub encryption_names-is_impact :
    (name : String) → elem name encryption_signal_names ≡ true → is_impact name ≡ true
encryption_names-is_impact name h = every-elem is_impact name encryption_signal_names names_impact h
