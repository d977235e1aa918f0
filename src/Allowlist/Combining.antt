-- ===== src/Allowlist/Combining.antt =====
-- The classifier that `combine_trust` makes.
use mathlib.Core.List.{Memᴰ}
use xodusmile.Prelude.{◌≡◌, ◌↔◌, refl, true, List, [], ◌∷◌, subst, Bool-cases, inl, inr, arith}
use xodusmile.Signal.{Signal, Answer, answered}
use xodusmile.Allowlist.{combine_trust}

-- The combined classifier exempts a signal exactly when one of its classifiers returns true on it:
-- a classifier that raises neither exempts nor keeps the others from being asked.
pub combine_trust_iff :
    (fs : List (Signal → Answer)) (sig : Signal)
    → (combine_trust fs sig ≡ true)
      ↔ ((f : Signal → Answer) × Memᴰ f fs × (answered (f sig) ≡ true))
unfolding combine_trust
combine_trust_iff [] sig = (λ h. cc h, λ (f, m, h). elim m [ ])
combine_trust_iff (f ∷ fs) sig = (
  λ h. elim (Bool-cases (answered (f sig))) [
    | inl exempt ↦ (f, Memᴰ.head refl, exempt)
    | inr passed ↦
        let (g, m, e) = (combine_trust_iff fs sig).0 (ground arith) in (g, Memᴰ.tail m, e)
  ],
  λ (g, m, e). elim m [
    | Memᴰ.head p ↦
        let asked : answered (f sig) ≡ true =
          subst (λ (x : Signal → Answer). answered (x sig) ≡ true) p e in
        ground arith
    | Memᴰ.tail later ↦ ground (arith, (combine_trust_iff fs sig).1 (g, later, e))
  ],
)
