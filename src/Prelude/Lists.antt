-- ===== src/Prelude/Lists.antt =====
-- Lists measured by native numbers, Boolean filters, and sets of PIDs as lists without duplicates.
use Prim.Native.Nat.{ℕ, zero, suc, ◌+◌, ◌-◌, ◌≤◌, ◌<◌}
use mathlib.Core.Path.{◌≡◌, refl, sym, ap, ◌∙◌}
use mathlib.Core.Bool.{Bool, false, not, ◌||◌}
use mathlib.Core.List.{List, [], ◌∷◌, ◌++◌, map}
use native.Mathlib.Omega.{arith}
use xodusmile.Prelude.Tests.{◌==◌, if◌then◌else◌}

module _ {ℓ} {A : Type ℓ} where
  abbrev pub length : List A → ℕ
  length [] = 0
  length (x ∷ xs) = suc (length xs)

  abbrev pub drop : ℕ → List A → List A
  drop zero xs = xs
  drop (suc n) [] = []
  drop (suc n) (x ∷ xs) = drop n xs

  abbrev pub take : ℕ → List A → List A
  take zero xs = []
  take (suc n) [] = []
  take (suc n) (x ∷ xs) = x ∷ take n xs

  pub length-append : (xs ys : List A) → length (xs ++ ys) ≡ length xs + length ys
  length-append [] ys = omega arith
  length-append (x ∷ xs) ys = omega (arith, length-append xs ys)

  pub length-drop : (n : ℕ) (xs : List A) → length (drop n xs) ≡ length xs - n
  length-drop zero xs = omega arith
  length-drop (suc n) [] = omega arith
  length-drop (suc n) (x ∷ xs) = omega (arith, length-drop n xs)

  -- Python's `xs[-n:]`, which is the whole list at `n = 0`.
  unfoldable pub last_slice : ℕ → List A → List A
  last_slice zero xs = xs
  last_slice (suc n) xs = drop (length xs - suc n) xs

  pub length-last_slice-le : (n : ℕ) (xs : List A) → 0 < n → length (last_slice n xs) ≤ n
  unfolding last_slice
  length-last_slice-le zero xs h = absurd (omega arith)
  length-last_slice-le (suc n) xs h = omega (arith, length-drop (length xs - suc n) xs)

  drop-append : (xs ys : List A) (n k : ℕ) → k ≡ length xs + n → drop k (xs ++ ys) ≡ drop n ys
  drop-append [] ys n k h = ap (λ j. drop j ys) (omega (arith, h))
  drop-append (x ∷ xs) ys n k h =
      let step : k ≡ suc (length xs + n) = omega (arith, h) in
      ap (λ j. drop j (x ∷ xs ++ ys)) step ∙ drop-append xs ys n (length xs + n) refl

  pub take-append-drop : (n : ℕ) (xs : List A) → take n xs ++ drop n xs ≡ xs
  take-append-drop zero xs = refl
  take-append-drop (suc n) [] = refl
  take-append-drop (suc n) (x ∷ xs) = ap (λ ys. x ∷ ys) (take-append-drop n xs)

  -- A slice at the end does not see what stands before it.
  pub last_slice-append :
      (n : ℕ) (xs ys : List A) → 0 < n → n ≤ length ys → last_slice n (xs ++ ys) ≡ last_slice n ys
  unfolding last_slice
  last_slice-append zero xs ys h k = absurd (omega (arith, h))
  last_slice-append (suc n) xs ys h k =
      drop-append xs ys (length ys - suc n) (length (xs ++ ys) - suc n)
        (omega (arith, k, length-append xs ys))

  pub last_slice_all : (n : ℕ) (xs : List A) → 0 < n → length xs ≤ n → last_slice n xs ≡ xs
  unfolding last_slice
  last_slice_all zero xs h k = refl
  last_slice_all (suc n) xs h k =
      let none_off : length xs - suc n ≡ 0 = omega (arith, k) in ap (λ j. drop j xs) none_off

  pub length-last_slice :
      (n : ℕ) (xs : List A) → 0 < n → n ≤ length xs → length (last_slice n xs) ≡ n
  unfolding last_slice
  length-last_slice zero xs h k = absurd (omega (arith, h))
  length-last_slice (suc n) xs h k = omega (arith, k, length-drop (length xs - suc n) xs)

  pub last_slice-eq :
      (n : ℕ) (xs : List A) → 0 < n → xs ≡ take (length xs - n) xs ++ last_slice n xs
  unfolding last_slice
  last_slice-eq zero xs h = absurd (omega (arith, h))
  last_slice-eq (suc n) xs h = sym (take-append-drop (length xs - suc n) xs)

  -- A list comprehension with a condition.
  unfoldable pub keep : (A → Bool) → List A → List A
  keep f [] = []
  keep f (x ∷ xs) = let rest = keep f xs in if f x then x ∷ rest else rest

  unfoldable pub any : (A → Bool) → List A → Bool
  any f [] = false
  any f (x ∷ xs) = f x || any f xs

  -- Every element satisfies `P`.
  abbrev pub All {κ} : (A → Type κ) → List A → Type κ
  All P [] = Unit
  All P (x ∷ xs) = P x × All P xs

  pub All-append : (P : A → Type 0) (xs ys : List A) → All P xs → All P ys → All P (xs ++ ys)
  All-append P [] ys h k = k
  All-append P (x ∷ xs) ys h k = (h.0, All-append P xs ys h.1 k)

  pub All-imp : (P Q : A → Type 0) → ((x : A) → P x → Q x) → (xs : List A) → All P xs → All Q xs
  All-imp P Q f [] h = tt
  All-imp P Q f (x ∷ xs) h = (f x h.0, All-imp P Q f xs h.1)

  pub All-drop : (P : A → Type 0) (n : ℕ) (xs : List A) → All P xs → All P (drop n xs)
  All-drop P zero xs h = h
  All-drop P (suc n) [] h = tt
  All-drop P (suc n) (x ∷ xs) h = All-drop P n xs h.1

  pub All-last_slice : (P : A → Type 0) (n : ℕ) (xs : List A) → All P xs → All P (last_slice n xs)
  unfolding last_slice
  All-last_slice P zero xs h = h
  All-last_slice P (suc n) xs h = All-drop P (length xs - suc n) xs h

  pub length-keep-le : (f : A → Bool) (xs : List A) → length (keep f xs) ≤ length xs
  unfolding keep
  length-keep-le f [] = omega arith
  length-keep-le f (x ∷ xs) = ground (arith, length-keep-le f xs)

module _ {A B : Type 0} (f : A → B) where
  map-drop : (n : ℕ) (xs : List A) → map f (drop n xs) ≡ drop n (map f xs)
  map-drop zero xs = refl
  map-drop (suc n) [] = refl
  map-drop (suc n) (x ∷ xs) = map-drop n xs

  length-map : (xs : List A) → length (map f xs) ≡ length xs
  length-map [] = refl
  length-map (x ∷ xs) = ap suc (length-map xs)

  pub map-last_slice : (n : ℕ) (xs : List A) → map f (last_slice n xs) ≡ last_slice n (map f xs)
  unfolding last_slice
  map-last_slice zero xs = refl
  map-last_slice (suc n) xs =
      map-drop (length xs - suc n) xs ∙ ap (λ k. drop (k - suc n) (map f xs)) (sym (length-map xs))

-- A set of numbers.
unfoldable pub mem : ℕ → List ℕ → Bool
mem a [] = false
mem a (x ∷ xs) = a == x || mem a xs

-- `s.add(a)`
unfoldable pub add : ℕ → List ℕ → List ℕ
add a xs = if mem a xs then xs else a ∷ xs

-- `s.discard(a)`
unfoldable pub discard : ℕ → List ℕ → List ℕ
discard a xs = keep (λ x. not (x == a)) xs

pub mem-add : (a b : ℕ) (xs : List ℕ) → mem b (add a xs) ≡ (b == a || mem b xs)
unfolding add mem
mem-add a b xs = ground arith

pub mem-discard :
    (a b : ℕ) (xs : List ℕ) → mem b (discard a xs) ≡ (if b == a then false else mem b xs)
unfolding discard keep mem
mem-discard a b [] = ground arith
mem-discard a b (x ∷ xs) = ground (arith, mem-discard a b xs)
