-- ===== src/Reporter/Behaviors/Reasons.antt =====
-- incident_report.py: the members of a campaign whose reason names a signal.
use mathlib.Core.Bool.{false≢true}
use xodusmile.Prelude.{
  All, Bool, List, Option, String, [], any, ap, arith, false, if◌then◌else◌, is_some, none, refl,
  same, some, true, ◌&&◌, ◌∷◌, ◌≡◌,
}
use xodusmile.Reporter.Behaviors.{Named, add_reason, is_named, reasons, signame_from_reason}
use xodusmile.Reporter.Joining.{Member}

-- The member's reason names this signal.
abbrev pub names_signal : String → Option String → Bool
names_signal name none = false
names_signal name (some n) = is_named n && same n name

unfoldable pub gives : String → Member → Bool
gives name m = names_signal name (signame_from_reason m.reason)

-- What is found among the members whose reason names a signal.
module _ (q : Member → Bool) (name : String) where
  abbrev pub Counts : List Member → Option (List Named) → Type 0
  Counts members none = Unit
  Counts members (some named) =
      any (λ (x : Named). same x.0 name && q x.1) named ≡ any (λ m. gives name m && q m) members

  add_reason-Counts :
      (m : Member) (members : List Member) (sig : Option String) (rest : Option (List Named))
      → names_signal name sig ≡ gives name m
      → Counts members rest
      → Counts (m ∷ members) (add_reason m sig rest)
  unfolding any
  add_reason-Counts m members none rest e k = tt
  add_reason-Counts m members (some n) none e k = tt
  add_reason-Counts m members (some n) (some named) e k = ground (arith, e, k)

  pub reasons-Counts : (members : List Member) → Counts members (reasons members)
  unfolding reasons any gives
  reasons-Counts [] = refl
  reasons-Counts (m ∷ members) =
      add_reason-Counts m members (signame_from_reason m.reason) (reasons members) refl
        (reasons-Counts members)

add_reason-is_some :
    (m : Member) (sig : Option String) (rest : Option (List Named)) (named : List Named)
    → is_some sig ≡ true
    → rest ≡ some named
    → (all : List Named) × (add_reason m sig rest ≡ some all)
add_reason-is_some m none rest named k e = absurd (false≢true k)
add_reason-is_some m (some n) rest named k e =
    ((if is_named n then (n, m) ∷ named else named), ap (add_reason m (some n)) e)

pub reasons-is_some :
    (members : List Member)
    → All (λ (m : Member). is_some (signame_from_reason m.reason) ≡ true) members
    → (named : List Named) × (reasons members ≡ some named)
unfolding reasons
reasons-is_some [] h = ([], refl)
reasons-is_some (m ∷ members) (h, hs) =
    let (named, e) = reasons-is_some members hs in
    add_reason-is_some m (signame_from_reason m.reason) (reasons members) named h e
