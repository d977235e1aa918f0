-- ===== src/Agent/Breakdown.antt =====
-- The rows of the breakdown against the score: each holds what its process contributes, and together
-- they make up the score of the signals that are shown.
use xodusmile.Prelude.{
  ℕ, ◌+◌, ◌≡◌, refl, ap, ◌∙◌, List, [], ◌∷◌, arith, ◌==◌, if◌then◌else◌, Bool-cases, inl, inr,
}
use xodusmile.Signal.{Signal}
use xodusmile.Scoring.{contribution, total_from}
use xodusmile.Agent.{Row, contributes, key_of, file_signal, file_all, insert_row, sort_rows}

pub contributes-contribution :
    (pids : List ℕ) (s : Signal) → contributes pids s ≡ contribution pids s
unfolding contributes contribution
contributes-contribution pids s = ground arith

abbrev pub sum_rows : List Row → ℕ
sum_rows [] = 0
sum_rows (r ∷ rows) = r.score + sum_rows rows

-- The score shown for a key.
abbrev pub score_at : ℕ → List Row → ℕ
score_at q [] = 0
score_at q (r ∷ rows) = (if r.key == q then r.score else 0) + score_at q rows

-- What the signals with a key contribute.
abbrev pub share : List ℕ → ℕ → List Signal → ℕ
share pids q [] = 0
share pids q (s ∷ sigs) = (if key_of s == q then contributes pids s else 0) + share pids q sigs

sum-file_signal :
    (pids : List ℕ) (s : Signal) (rows : List Row)
    → sum_rows (file_signal pids s rows) ≡ sum_rows rows + contributes pids s
unfolding file_signal
sum-file_signal pids s [] = omega arith
sum-file_signal pids s (r ∷ rows) = elim (Bool-cases (r.key == key_of s)) [
  | inl e ↦ rw e (omega arith)
  | inr e ↦ rw e (omega (arith, sum-file_signal pids s rows))
]

score_at-file_signal :
    (pids : List ℕ) (q : ℕ) (s : Signal) (rows : List Row)
    → score_at q (file_signal pids s rows)
      ≡ score_at q rows + (if key_of s == q then contributes pids s else 0)
unfolding file_signal
score_at-file_signal pids q s [] = ground arith
score_at-file_signal pids q s (r ∷ rows) = ground (arith, score_at-file_signal pids q s rows)

pub sum-file_all :
    (pids : List ℕ) (sigs : List Signal) (rows : List Row)
    → total_from pids (sum_rows rows) sigs ≡ sum_rows (file_all pids sigs rows)
unfolding file_all total_from
sum-file_all pids [] rows = refl
sum-file_all pids (s ∷ sigs) rows =
    let step : sum_rows rows + contribution pids s ≡ sum_rows (file_signal pids s rows) =
      omega (arith, sum-file_signal pids s rows, contributes-contribution pids s) in
    ap (λ t. total_from pids t sigs) step ∙ sum-file_all pids sigs (file_signal pids s rows)

pub score_at-file_all :
    (pids : List ℕ) (q : ℕ) (sigs : List Signal) (rows : List Row)
    → score_at q (file_all pids sigs rows) ≡ score_at q rows + share pids q sigs
unfolding file_all
score_at-file_all pids q [] rows = omega arith
score_at-file_all pids q (s ∷ sigs) rows = omega (
  arith,
  score_at-file_all pids q sigs (file_signal pids s rows),
  score_at-file_signal pids q s rows,
)

sum-insert_row :
    (r : Row) (rows : List Row) → sum_rows (insert_row r rows) ≡ r.score + sum_rows rows
unfolding insert_row
sum-insert_row r [] = refl
sum-insert_row r (q ∷ rows) = ground (arith, sum-insert_row r rows)

pub sum-sort_rows : (rows : List Row) → sum_rows (sort_rows rows) ≡ sum_rows rows
unfolding sort_rows
sum-sort_rows [] = refl
sum-sort_rows (r ∷ rows) = omega (arith, sum-insert_row r (sort_rows rows), sum-sort_rows rows)

score_at-insert_row :
    (q : ℕ) (r : Row) (rows : List Row) → score_at q (insert_row r rows) ≡ score_at q (r ∷ rows)
unfolding insert_row
score_at-insert_row q r [] = refl
score_at-insert_row q r (p ∷ rows) = ground (arith, score_at-insert_row q r rows)

pub score_at-sort_rows : (q : ℕ) (rows : List Row) → score_at q (sort_rows rows) ≡ score_at q rows
unfolding sort_rows
score_at-sort_rows q [] = refl
score_at-sort_rows q (r ∷ rows) =
    omega (arith, score_at-insert_row q r (sort_rows rows), score_at-sort_rows q rows)
