-- ===== src/Agent/Reconciling.antt =====
-- The breakdown as it is shown, against the engine's score.
use mathlib.Core.List.{perm_append_comm}
use xodusmile.Prelude.{
  ℕ, zero, suc, ◌-◌, ◌≤◌, ◌≡◌, refl, sym, ap, ◌∙◌, List, [], ◌∷◌, ◌++◌, arith, ltb, length,
  last_slice, drop, Bool-cases, inl, inr,
}
use xodusmile.Signal.{Signal}
use xodusmile.Scoring.{
  Engine, enc_pids, score_of, evict_old, evict, recent_signals, current_score, current_level,
}
use xodusmile.Scoring.Order.{score_of-append, score_of-perm}
use xodusmile.Agent.{file_all, sort_rows, threat_breakdown}
use xodusmile.Agent.Breakdown.{
  sum_rows, score_at, share, sum-file_all, score_at-file_all, sum-sort_rows, score_at-sort_rows,
}

evict-evict : (cutoff : ℕ) (es : List Signal) → evict cutoff (evict cutoff es) ≡ evict cutoff es
unfolding evict
evict-evict cutoff [] = refl
evict-evict cutoff (s ∷ es) = elim (Bool-cases (ltb s.timestamp cutoff)) [
  | inl old ↦ rw (old, evict) (evict-evict cutoff es)
  | inr new ↦ rw (new, evict) (rw (new, evict) refl)
]

drop_split : (n : ℕ) (es : List Signal) → (before : List Signal) × (es ≡ before ++ drop n es)
drop_split zero es = ([], refl)
drop_split (suc n) [] = ([], refl)
drop_split (suc n) (s ∷ es) = let (before, e) = drop_split n es in (s ∷ before, ap (◌∷◌ s) e)

last_slice_split :
    (n : ℕ) (es : List Signal) → (before : List Signal) × (es ≡ before ++ last_slice n es)
unfolding last_slice
last_slice_split zero es = ([], refl)
last_slice_split (suc n) es = drop_split (length es - suc n) es

last_slice_whole : (n : ℕ) (es : List Signal) → length es ≤ n → last_slice n es ≡ es
unfolding last_slice
last_slice_whole zero es h = refl
last_slice_whole (suc n) es h =
    let none_dropped : length es - suc n ≡ 0 = omega arith in rw none_dropped refl

-- The score of the last signals is at most that of all.
score-last_slice-le : (n : ℕ) (es : List Signal) → score_of (last_slice n es) ≤ score_of es
score-last_slice-le n es =
    let (before, e) = last_slice_split n es in
    let shown = last_slice n es in
    omega (
      arith,
      ap score_of e,
      score_of-perm (before ++ shown) (shown ++ before) (perm_append_comm before shown),
      score_of-append shown before,
    )

-- What the window holds at a time, and what of it the breakdown shows.
abbrev pub window_at : ℕ → Engine → List Signal
window_at now e = evict (now - e.window) e.signals

abbrev pub shown_at : ℕ → ℕ → Engine → List Signal
shown_at now limit e = last_slice limit (window_at now e)

-- The scores of the rows add up to the score of the signals that are shown, and the rows of a
-- process to what its own signals contribute there. The total is the score of the whole window: the
-- rows never exceed it, and make it up where the window holds no more signals than the limit.
pub threat_breakdown-sum :
    (now limit : ℕ) (e : Engine)
    → (sum_rows (threat_breakdown now limit e).1.threats ≡ score_of (shown_at now limit e))
      × ((q : ℕ)
          → score_at q (threat_breakdown now limit e).1.threats
            ≡ share (enc_pids (shown_at now limit e)) q (shown_at now limit e))
      × ((threat_breakdown now limit e).1.total_score ≡ score_of (window_at now e))
      × (sum_rows (threat_breakdown now limit e).1.threats
          ≤ (threat_breakdown now limit e).1.total_score)
      × (length (window_at now e) ≤ limit
          → sum_rows (threat_breakdown now limit e).1.threats
            ≡ (threat_breakdown now limit e).1.total_score)
unfolding threat_breakdown recent_signals current_score current_level evict_old
threat_breakdown-sum now limit e =
    let shown = shown_at now limit e in
    let pids = enc_pids shown in
    let rows = file_all pids shown [] in
    let total : score_of (evict (now - e.window) (window_at now e)) ≡ score_of (window_at now e) =
      ap score_of (evict-evict (now - e.window) e.signals) in
    let sum : sum_rows (sort_rows rows) ≡ score_of shown =
      sum-sort_rows rows ∙ unfold score_of in sym (sum-file_all pids shown []) in
    (
      sum,
      λ q. score_at-sort_rows q rows ∙ score_at-file_all pids q shown [] ∙ omega arith,
      total,
      omega (arith, score-last_slice-le limit (window_at now e)),
      λ few. omega (arith, ap score_of (last_slice_whole limit (window_at now e) few)),
    )
