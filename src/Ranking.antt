-- ===== src/Ranking.antt =====
-- `sorted(items, key=rank, reverse=True)[:limit]`, which the process watcher and the incident reporter
-- answer with: the highest rank first, equal ranks in the order in which they stood.
use mathlib.Core.List.{Perm}
use mathlib.Core.List.Perm
use xodusmile.Prelude.{
  ℕ, zero, suc, ◌≡◌, Bool, true, false, List, [], ◌∷◌, if◌then◌else◌, All, All-drop, All-imp, when,
  take, drop,
}

module _ {ℓ} {A : Type ℓ} (above : A → A → Bool) where
  -- The item goes before those that it is not below.
  abbrev pub place : A → List A → List A
  place x [] = x ∷ []
  place x (y ∷ items) = let rest = place x items in if above x y then x ∷ y ∷ items else y ∷ rest

  -- `sorted(…, reverse=True)`
  abbrev pub rank : List A → List A
  rank [] = []
  rank (x ∷ items) = place x (rank items)

  -- No item is below one that follows it.
  abbrev pub IsRanked : List A → Type ℓ
  IsRanked [] = Unit
  IsRanked (x ∷ items) = All (λ y. above x y ≡ true) items × IsRanked items

  place-Perm : (x : A) (items : List A) → Perm (x ∷ items) (place x items)
  place-Perm x [] = Perm.rfl
  place-Perm x (y ∷ items) =
      when (Perm (x ∷ y ∷ items)) (above x y) (λ _. Perm.rfl)
        (λ _. Perm.trans (Perm.swap y x items) (Perm.cons y (place-Perm x items)))

  pub rank-Perm : (items : List A) → Perm items (rank items)
  rank-Perm [] = Perm.rfl
  rank-Perm (x ∷ items) = Perm.trans (Perm.cons x (rank-Perm items)) (place-Perm x (rank items))

  All-place : (P : A → Type 0) (x : A) (items : List A) → P x → All P items → All P (place x items)
  All-place P x [] h hs = (h, tt)
  All-place P x (y ∷ items) h (k, ks) =
      when (All P) (above x y) (λ _. (h, (k, ks))) (λ _. (k, All-place P x items h ks))

  module _ (total : (x y : A) → above x y ≡ false → above y x ≡ true)
      (transitive : (x y z : A) → above x y ≡ true → above y z ≡ true → above x z ≡ true) where
    place-IsRanked : (x : A) (items : List A) → IsRanked items → IsRanked (place x items)
    place-IsRanked x [] r = (tt, tt)
    place-IsRanked x (y ∷ items) (r, rs) =
        when IsRanked (above x y)
          (λ h. (
            (
              h,
              All-imp (λ z. above y z ≡ true) (λ z. above x z ≡ true) (λ z. transitive x y z h)
                  items r,
            ),
            (r, rs),
          ))
          (λ h.
            (All-place (λ z. above y z ≡ true) x items (total x y h) r, place-IsRanked x items rs))

    pub rank-IsRanked : (items : List A) → IsRanked (rank items)
    rank-IsRanked [] = tt
    rank-IsRanked (x ∷ items) = place-IsRanked x (rank items) (rank-IsRanked items)

  -- Nothing that the limit cuts off ranks above what is answered.
  pub IsRanked-take :
      (n : ℕ) (items : List A)
      → IsRanked items
      → All (λ x. All (λ y. above x y ≡ true) (drop n items)) (take n items)
  IsRanked-take zero items r = tt
  IsRanked-take (suc n) [] r = tt
  IsRanked-take (suc n) (x ∷ items) (r, rs) =
      (All-drop (λ y. above x y ≡ true) n items r, IsRanked-take n items rs)
