-- ===== src/Reporter/Listing.antt =====
-- incident_report.py: what recent answers.
use mathlib.Core.List.{Perm}
use xodusmile.Prelude.{ℕ, ◌≡◌, sym, subst, true, false, ◌++◌, arith, drop, take-append-drop, All}
use xodusmile.Ranking.{rank, rank-Perm, rank-IsRanked, IsRanked-take}
use xodusmile.Reporter.{Reporter}
use xodusmile.Reporter.Reading.{ListRow, newer, items, recent}

newer-total : (x y : ListRow) → newer x y ≡ false → newer y x ≡ true
newer-total x y h = ground (arith, h)

newer-transitive : (x y z : ListRow) → newer x y ≡ true → newer y z ≡ true → newer x z ≡ true
newer-transitive x y z h k = ground (arith, h, k)

-- What `recent` answers and what it leaves out are together, in some order, the incidents and the final
-- campaigns of two processes or more; and nothing that it leaves out is newer than what it answers.
pub recent-newest :
    (limit : ℕ) (r : Reporter)
    → Perm (items r) (recent limit r ++ drop limit (rank newer (items r)))
      × All (λ x. All (λ y. newer x y ≡ true) (drop limit (rank newer (items r)))) (recent limit r)
unfolding recent
recent-newest limit r = (
  subst (Perm (items r)) (sym (take-append-drop limit (rank newer (items r))))
      (rank-Perm newer (items r)),
  IsRanked-take newer limit (rank newer (items r))
      (rank-IsRanked newer newer-total newer-transitive (items r)),
)
