-- ===== src/Scoring/Window.antt =====
-- The sliding window: what `_evict_old` drops and keeps, and how the score decays.
use xodusmile.Prelude.{
  ℕ, ◌+◌, ◌-◌, ◌≤◌, ◌<◌, ◌≡◌, refl, ap, Bool, not, List, [], ◌∷◌, ◌++◌, arith, ltb, keep, inl, inr,
  Bool-cases, All, All-imp,
}
use xodusmile.Signal.{Signal, info}
use xodusmile.Scoring.{
  Engine, evict, evict_old, score_of, total_from, level_for_score, current_score, current_level,
}

abbrev pub fresh : ℕ → Signal → Bool
fresh cutoff s = not (ltb s.timestamp cutoff)

-- The timestamps do not fall along the list, and none is below `t`.
abbrev pub IsSorted : ℕ → List Signal → Type 0
IsSorted t [] = Unit
IsSorted t (s ∷ es) = (t ≤ s.timestamp) × IsSorted s.timestamp es

keep-fresh_all :
    (cutoff t : ℕ) (es : List Signal) → cutoff ≤ t → IsSorted t es → keep (fresh cutoff) es ≡ es
unfolding keep
keep-fresh_all cutoff t [] h sorted = refl
keep-fresh_all cutoff t (s ∷ es) h sorted =
    ground (arith, keep-fresh_all cutoff s.timestamp es (omega arith) sorted.1)

-- On signals in the order of their timestamps the window is exactly the signals that are not older
-- than the cutoff.
pub evict_sorted :
    (cutoff t : ℕ) (es : List Signal) → IsSorted t es → evict cutoff es ≡ keep (fresh cutoff) es
unfolding evict keep
evict_sorted cutoff t [] sorted = refl
evict_sorted cutoff t (s ∷ es) sorted = elim (Bool-cases (ltb s.timestamp cutoff)) [
  | inl old ↦ rw (old, evict) (evict_sorted cutoff s.timestamp es sorted.1)
  | inr new ↦
      let h : cutoff ≤ s.timestamp = ground arith in
      rw (new, evict) (rw (keep-fresh_all cutoff s.timestamp es h sorted.1))
]

-- In any order: what is dropped is a prefix of old signals, and a fresh signal is never dropped.
pub evict_split :
    (cutoff : ℕ) (es : List Signal)
    → (old : List Signal) × (es ≡ old ++ evict cutoff es) × All (λ s. s.timestamp < cutoff) old
unfolding evict
evict_split cutoff [] = ([], refl, tt)
evict_split cutoff (s ∷ es) = elim (Bool-cases (ltb s.timestamp cutoff)) [
  | inl old ↦
      let (dropped, e, all) = evict_split cutoff es in
      (s ∷ dropped, rw (old, evict) (ap (◌∷◌ s) e), (ground arith, all))
  | inr new ↦ ([], rw (new, evict) refl, tt)
]

pub evict_old_only :
    (cutoff : ℕ) (es : List Signal) → All (λ s. s.timestamp < cutoff) es → evict cutoff es ≡ []
unfolding evict
evict_old_only cutoff [] h = refl
evict_old_only cutoff (s ∷ es) h = ground (arith, evict_old_only cutoff es h.1)

pub evict-snoc :
    (cutoff : ℕ) (es : List Signal) (s : Signal)
    → cutoff ≤ s.timestamp
    → evict cutoff (es ++ s ∷ []) ≡ evict cutoff es ++ s ∷ []
unfolding evict
evict-snoc cutoff [] s h = ground arith
evict-snoc cutoff (x ∷ es) s h = elim (Bool-cases (ltb x.timestamp cutoff)) [
  | inl old ↦ rw (old, evict) (evict-snoc cutoff es s h)
  | inr new ↦ rw (new, evict) refl
]

-- Once every signal is older than the window and none came in, the score is 0, the level INFO.
pub current_score_decays :
    (now : ℕ) (e : Engine)
    → All (λ s. s.timestamp + e.window < now) e.signals
    → (current_score now e ≡ (record e { signals = [] }, 0)) × ((current_level now e).1 ≡ info)
unfolding current_level current_score evict_old
current_score_decays now e h =
    let gone : evict (now - e.window) e.signals ≡ [] =
      evict_old_only _ e.signals
        (All-imp (λ s. s.timestamp + e.window < now) _ (λ s k. omega arith) _ h) in
    (
      rw gone (unfold score_of total_from in refl),
      rw gone (unfold score_of total_from level_for_score in refl),
    )
