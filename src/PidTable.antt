-- ===== src/PidTable.antt =====
-- A Python `dict` whose keys are PIDs, as an association list.
use xodusmile.Prelude.{
  ℕ, ◌≡◌, refl, true, not, Option, none, some, is_some, List, [], ◌∷◌, arith, ◌==◌, mem, keep,
  ==_iff, ap, ◌&&◌, if◌then◌else◌,
}

mem_same : (p q : ℕ) (pids : List ℕ) → (p == q) ≡ true → mem p pids ≡ mem q pids
mem_same p q pids h = ap (λ x. mem x pids) ((==_iff p q).0 h)

module _ {V : Type 0} where
  -- `table.get(pid)`
  unfoldable pub find : ℕ → List (ℕ × V) → Option V
  find pid [] = none
  find pid ((p, v) ∷ table) = if p == pid then some v else find pid table

  -- `table[pid] = v`
  unfoldable pub put : ℕ → V → List (ℕ × V) → List (ℕ × V)
  put pid v [] = (pid, v) ∷ []
  put pid v ((p, w) ∷ table) = if p == pid then (p, v) ∷ table else (p, w) ∷ put pid v table

  -- The keys that are not in the list.
  unfoldable pub keys_outside : List ℕ → List (ℕ × V) → List ℕ
  keys_outside pids [] = []
  keys_outside pids ((p, v) ∷ table) =
      let rest = keys_outside pids table in if mem p pids then rest else p ∷ rest

  -- `table.pop(pid, None)` for each PID of the list.
  unfoldable pub pop_all : List ℕ → List (ℕ × V) → List (ℕ × V)
  pop_all gone table = keep (λ (x : ℕ × V). not (mem x.0 gone)) table

  pub find-put :
      (pid q : ℕ) (v : V) (table : List (ℕ × V))
      → find q (put pid v table) ≡ (if pid == q then some v else find q table)
  unfolding find put
  find-put pid q v [] = refl
  find-put pid q v ((p, w) ∷ table) = ground (arith, find-put pid q v table)

  pub find-pop_all :
      (q : ℕ) (gone : List ℕ) (table : List (ℕ × V))
      → find q (pop_all gone table) ≡ (if mem q gone then none else find q table)
  unfolding find pop_all keep
  find-pop_all q gone [] = ground arith
  find-pop_all q gone ((p, w) ∷ table) =
      ground (arith, find-pop_all q gone table, mem_same p q gone)

  -- The keys outside a list are the keys of the table that are not in it.
  pub mem-keys_outside :
      (q : ℕ) (pids : List ℕ) (table : List (ℕ × V))
      → mem q (keys_outside pids table) ≡ (is_some (find q table) && not (mem q pids))
  unfolding find keys_outside mem
  mem-keys_outside q pids [] = refl
  mem-keys_outside q pids ((p, w) ∷ table) =
      ground (arith, mem-keys_outside q pids table, mem_same p q pids)
