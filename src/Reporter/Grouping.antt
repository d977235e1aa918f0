-- ===== src/Reporter/Grouping.antt =====
-- The campaigns as their specification has them: the times of the incidents cut where a gap is wider
-- than `_CAMPAIGN_GAP_SECS`.
use xodusmile.Prelude.{
  ℕ, ◌+◌, ◌-◌, ◌≤◌, ◌<◌, ◌≡◌, refl, sym, ap, ◌∙◌, List, [], ◌∷◌, ◌++◌, arith, leb, if◌then◌else◌,
  length, take, last_slice, last_slice_all, length-last_slice, last_slice-eq, last_slice-append,
  when, Bool-cases, inl, inr, All,
}
use xodusmile.Reporter.Joining.{campaign_gap}

-- The time goes before the groups of the later times.
abbrev pub prepend : ℕ → List (List ℕ) → List (List ℕ)
prepend t [] = (t ∷ []) ∷ []
prepend t ([] ∷ groups) = (t ∷ []) ∷ groups
prepend t ((u ∷ us) ∷ groups) =
    if leb u (t + campaign_gap) then (t ∷ u ∷ us) ∷ groups else (t ∷ []) ∷ (u ∷ us) ∷ groups

-- Two neighbours are in one group just when they are at most the gap apart.
abbrev pub groups_of : List ℕ → List (List ℕ)
groups_of [] = []
groups_of (t ∷ times) = prepend t (groups_of times)

abbrev pub last_of : List ℕ → ℕ
last_of [] = 0
last_of (t ∷ []) = t
last_of (t ∷ u ∷ us) = last_of (u ∷ us)

-- The time goes after the groups of the earlier times.
abbrev pub attach : ℕ → List (List ℕ) → List (List ℕ)
attach t [] = (t ∷ []) ∷ []
attach t (g ∷ []) =
    if leb t (last_of g + campaign_gap) then (g ++ t ∷ []) ∷ [] else g ∷ (t ∷ []) ∷ []
attach t (g ∷ h ∷ groups) = g ∷ attach t (h ∷ groups)

pub last_of-append : (t : ℕ) (us : List ℕ) → last_of (us ++ t ∷ []) ≡ t
last_of-append t [] = refl
last_of-append t (u ∷ []) = refl
last_of-append t (u ∷ v ∷ us) = last_of-append t (v ∷ us)

-- No group is empty.
abbrev AreFull : List (List ℕ) → Type 0
AreFull groups = All (λ g. 0 < length g) groups

prepend-attach :
    (a t : ℕ) (groups : List (List ℕ))
    → AreFull groups
    → prepend a (attach t groups) ≡ attach t (prepend a groups)
prepend-attach a t [] full = ground arith
prepend-attach a t ([] ∷ groups) full = absurd (omega (arith, full.0))
prepend-attach a t ((u ∷ us) ∷ []) full = ground arith
prepend-attach a t ((u ∷ us) ∷ h ∷ groups) full = ground arith

prepend-full : (a : ℕ) (groups : List (List ℕ)) → AreFull groups → AreFull (prepend a groups)
prepend-full a [] full = (omega arith, tt)
prepend-full a ([] ∷ groups) (g, full) = (omega arith, full)
prepend-full a ((u ∷ us) ∷ groups) (g, full) =
    when AreFull (leb u (a + campaign_gap)) (λ _. (omega arith, full))
      (λ _. (omega arith, (omega arith, full)))

groups_of-full : (times : List ℕ) → AreFull (groups_of times)
groups_of-full [] = tt
groups_of-full (t ∷ times) = prepend-full t (groups_of times) (groups_of-full times)

-- One more time at the end is attached to the groups.
pub groups_of-append :
    (t : ℕ) (times : List ℕ) → groups_of (times ++ t ∷ []) ≡ attach t (groups_of times)
groups_of-append t [] = refl
groups_of-append t (a ∷ times) =
    ap (prepend a) (groups_of-append t times)
    ∙ prepend-attach a t (groups_of times) (groups_of-full times)

attach-append :
    (t : ℕ) (older groups : List (List ℕ))
    → 0 < length groups
    → attach t (older ++ groups) ≡ older ++ attach t groups
attach-append t [] groups h = refl
attach-append t (g ∷ []) [] h = absurd (omega (arith, h))
attach-append t (g ∷ []) (k ∷ groups) h = refl
attach-append t (g ∷ k ∷ older) groups h = ap (λ x. g ∷ x) (attach-append t (k ∷ older) groups h)

length-attach-ge : (t : ℕ) (groups : List (List ℕ)) → length groups ≤ length (attach t groups)
length-attach-ge t [] = omega arith
length-attach-ge t (g ∷ []) = ground arith
length-attach-ge t (g ∷ h ∷ groups) = omega (arith, length-attach-ge t (h ∷ groups))

-- To attach a time to the newest groups keeps the newest groups.
pub last_slice-attach :
    (n t : ℕ) (groups : List (List ℕ))
    → 0 < n
    → last_slice n (attach t (last_slice n groups)) ≡ last_slice n (attach t groups)
last_slice-attach n t groups h = elim (Bool-cases (leb (length groups) n)) [
  | inl short ↦
      ap (λ x. last_slice n (attach t x)) (last_slice_all n groups h (ground (arith, short)))
  | inr long ↦
      let older = take (length groups - n) groups in
      let newer = last_slice n groups in
      let size : length newer ≡ n = length-last_slice n groups h (ground (arith, long)) in
      let whole : groups ≡ older ++ newer = last_slice-eq n groups h in
      sym (
        ap (λ x. last_slice n (attach t x)) whole
        ∙ ap (last_slice n) (attach-append t older newer (omega (arith, size, h)))
        ∙ last_slice-append n older (attach t newer) h
            (omega (arith, size, length-attach-ge t newer)))
]
