-- ===== src/Reporter/Behaviors/Searching.antt =====
-- Tests of lists and dicts: what `in`, `any` and an assignment come to.
use text.Mathlib.TextEquality.{eq_iff}
use xodusmile.Prelude.{
  Bool, Bool-cases, List, String, [], any, ap, arith, elem, inl, inr, insert, is_some, keep, lookup,
  lookup-insert, map, refl, same, ℕ, ◌&&◌, ◌++◌, ◌||◌, ◌∙◌, ◌∷◌, ◌≡◌,
}
use xodusmile.Ranking.{place, rank}

pub elem-append : (p : String) (xs ys : List String) → elem p (xs ++ ys) ≡ (elem p xs || elem p ys)
unfolding elem
elem-append p [] ys = refl
elem-append p (x ∷ xs) ys = ground (arith, elem-append p xs ys)

pub elem-keep :
    (p : String) (f : String → Bool) (xs : List String) → elem p (keep f xs) ≡ (elem p xs && f p)
unfolding elem keep
elem-keep p f [] = refl
elem-keep p f (x ∷ xs) = elim (Bool-cases (same p x)) [
  | inl e ↦ let q : p ≡ x = (eq_iff p x).0 e in ground (arith, elem-keep p f xs, ap f q)
  | inr e ↦ ground (arith, elem-keep p f xs, e)
]

module _ {ℓ} {A : Type ℓ} (f : A → Bool) where
  any-place :
      (above : A → A → Bool) (x : A) (items : List A)
      → any f (place above x items) ≡ (f x || any f items)
  unfolding any
  any-place above x [] = refl
  any-place above x (y ∷ items) = ground (arith, any-place above x items)

  pub any-rank : (above : A → A → Bool) (items : List A) → any f (rank above items) ≡ any f items
  unfolding any
  any-rank above [] = refl
  any-rank above (x ∷ items) =
      any-place above x (rank above items) ∙ ap (λ b. f x || b) (any-rank above items)

pub any-map :
    {A B : Type 0} (f : B → Bool) (g : A → B) (xs : List A)
    → any f (map g xs) ≡ any (λ x. f (g x)) xs
unfolding any
any-map f g [] = refl
any-map f g (x ∷ xs) = ap (λ b. f (g x) || b) (any-map f g xs)

-- A dict has one entry at a key, if any.
pub any-lookup :
    (h : String → Bool) (name : String) (d : List (String × ℕ))
    → any (λ (x : String × ℕ). same x.0 name && h x.0) d ≡ (is_some (lookup name d) && h name)
unfolding any lookup
any-lookup h name [] = refl
any-lookup h name ((n, ts) ∷ d) = elim (Bool-cases (same n name)) [
  | inl e ↦ let q : n ≡ name = (eq_iff n name).0 e in ground (arith, any-lookup h name d, ap h q)
  | inr e ↦ ground (arith, any-lookup h name d, e)
]

-- A test of a text passes on an equal text.
pub same-ap : (f : String → Bool) (a b : String) → (same a b && f b) ≡ (same a b && f a)
same-ap f a b = elim (Bool-cases (same a b)) [
  | inl e ↦ let q = ap f ((eq_iff a b).0 e) in ground (arith, q)
  | inr e ↦ ground (arith, e)
]

pub any-ext :
    {A : Type 0} (f g : A → Bool) → ((x : A) → f x ≡ g x) → (xs : List A) → any f xs ≡ any g xs
unfolding any
any-ext f g e [] = refl
any-ext f g e (x ∷ xs) = ground (arith, e x, any-ext f g e xs)

pub is_some-insert :
    {V : Type 0} (name n : String) (v : V) (d : List (String × V))
    → is_some (lookup name (insert n v d)) ≡ (same n name || is_some (lookup name d))
is_some-insert name n v d =
    ap is_some (lookup-insert n name v d)
    ∙ elim (Bool-cases (same n name)) [ inl e ↦ ground (arith, e) | inr e ↦ ground (arith, e) ]
