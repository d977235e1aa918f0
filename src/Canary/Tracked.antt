-- ===== src/Canary/Tracked.antt =====
-- The tracked canaries: which are tampered with, and how the dictionary of hashes changes.
use text.Mathlib.TextEquality.{eq_iff}
use xodusmile.Prelude.{
  ℕ, ◌+◌, ◌≡◌, ◌≢◌, refl, ap, ◌∙◌, String, Bool, ◌&&◌, none, List, [], ◌∷◌, ◌++◌, arith,
  if◌then◌else◌, lookup, lookup-insert, insert, keep, same, Bool-cases, inl, inr,
}
use xodusmile.Canary.{World, pop, deploy}

abbrev pub Files : Type 0
Files = List (String × String)

-- The canary is there with the hash that is expected.
abbrev pub intact : World → String × String → Bool
intact w (path, expected) = w.exists path && same (w.hash path) expected

-- The number of canaries that are gone or changed.
abbrev pub tampered : World → Files → ℕ
tampered w [] = 0
tampered w (f ∷ fs) = let n = tampered w fs in if intact w f then n else 1 + n

-- The canaries that are still there, with their hashes.
abbrev pub settled : World → Files → Files
settled w [] = []
settled w ((path, expected) ∷ fs) =
    let rest = settled w fs in if w.exists path then (path, w.hash path) ∷ rest else rest

-- No path stands twice, and none of them in the first list.
abbrev pub IsUnique : Files → Files → Type 0
IsUnique pre [] = Unit {0}
IsUnique pre ((path, expected) ∷ fs) =
    (lookup path pre ≡ none) × (lookup path fs ≡ none) × IsUnique pre fs

pop-absent : (path : String) (fs : Files) → lookup path fs ≡ none → pop path fs ≡ fs
unfolding pop keep lookup
pop-absent path [] h = refl
pop-absent path ((p, e) ∷ fs) h = ground (arith, pop-absent path fs)

pub pop-middle :
    (path e : String) (pre fs : Files)
    → lookup path pre ≡ none
    → lookup path fs ≡ none
    → pop path (pre ++ (path, e) ∷ fs) ≡ pre ++ fs
unfolding pop keep lookup
pop-middle path e [] fs _ h = ground (arith, pop-absent path fs h, eq_iff path path)
pop-middle path e ((p, x) ∷ pre) fs h₁ h = ground (arith, pop-middle path e pre fs, h)

pub insert-middle :
    (path e h : String) (pre fs : Files)
    → lookup path pre ≡ none
    → insert path h (pre ++ (path, e) ∷ fs) ≡ pre ++ (path, h) ∷ fs
unfolding insert lookup
insert-middle path e h [] fs _ = ground (arith, eq_iff path path)
insert-middle path e h ((p, x) ∷ pre) fs out = ground (arith, insert-middle path e h pre fs)

pub append-cons : (pre fs : Files) (f : String × String) → (pre ++ f ∷ []) ++ fs ≡ pre ++ f ∷ fs
append-cons [] fs f = refl
append-cons (g ∷ pre) fs f = ap (λ x. g ∷ x) (append-cons pre fs f)

lookup-last :
    (path p h : String) (pre : Files)
    → lookup path pre ≡ none
    → p ≢ path
    → lookup path (pre ++ (p, h) ∷ []) ≡ none
unfolding lookup
lookup-last path p h [] _ apart = ground (arith, eq_iff p path, apart)
lookup-last path p h ((q, x) ∷ pre) out apart = ground (arith, lookup-last path p h pre)

pub IsUnique-last :
    (p h : String) (pre fs : Files)
    → IsUnique pre fs
    → lookup p fs ≡ none
    → IsUnique (pre ++ (p, h) ∷ []) fs
unfolding lookup
IsUnique-last p h pre [] u out = tt
IsUnique-last p h pre ((q, e) ∷ fs) (u₁, u₂, u) out = (
  lookup-last q p h pre u₁ (ground (arith, out, eq_iff q p)),
  u₂,
  IsUnique-last p h pre fs u (ground (arith, out)),
)

insert-apart :
    (p h q : String) (fs : Files) → lookup q fs ≡ none → p ≢ q → lookup q (insert p h fs) ≡ none
insert-apart p h q fs out apart = lookup-insert p q h fs ∙ ground (arith, eq_iff p q, out, apart)

insert-IsUnique : (p h : String) (fs : Files) → IsUnique [] fs → IsUnique [] (insert p h fs)
unfolding insert lookup
insert-IsUnique p h [] u = (refl, refl, tt)
insert-IsUnique p h ((q, e) ∷ fs) (u₁, u₂, u) = elim (Bool-cases (same q p)) [
  | inl at ↦ simp at (refl, u₂, u)
  | inr off ↦ simp off (
    refl,
    insert-apart p h q fs u₂ (λ r. ground (arith, r, eq_iff q p, off)),
    insert-IsUnique p h fs u,
  )
]

-- No path is tracked twice after a deployment.
pub deploy-IsUnique :
    (w : World) (paths : List String) (fs : Files)
    → IsUnique [] fs
    → IsUnique [] (deploy w paths fs)
unfolding deploy
deploy-IsUnique w [] fs u = u
deploy-IsUnique w (p ∷ paths) fs u =
    deploy-IsUnique w paths (insert p (w.hash p) fs) (insert-IsUnique p (w.hash p) fs u)
