-- ===== src/PidCache.antt =====
-- The PID caches of allowlist.py and actor_trust.py: an answer for each PID, kept with the creation
-- time of the process, since a PID is reused.
use xodusmile.Prelude.{
  ℕ, ◌≤◌, ◌+◌, ◌≡◌, refl, Option, none, some, List, [], ◌∷◌, arith, ◌==◌, leb, if◌then◌else◌,
  length, Bool-cases, Option-cases, inl, inr,
}

abbrev pub cache_cap : ℕ
cache_cap = 4096

abbrev pub PidCache : Type 0 → Type 0
PidCache V = List (ℕ × ℕ × V)

module _ {V : Type 0} where
  -- `_cache.get(pid)`
  unfoldable pub get : ℕ → PidCache V → Option (ℕ × V)
  get pid [] = none
  get pid ((p, time, v) ∷ rest) = if p == pid then some (time, v) else get pid rest

  -- `_cache[pid] = (create_time, v)`
  unfoldable pub put : ℕ → ℕ → V → PidCache V → PidCache V
  put pid time v [] = (pid, time, v) ∷ []
  put pid time v ((p, t, w) ∷ rest) =
      if p == pid then (p, time, v) ∷ rest else (p, t, w) ∷ put pid time v rest

  -- The cache is emptied when it is full.
  unfoldable pub store : ℕ → ℕ → V → PidCache V → PidCache V
  store pid time v cache = put pid time v (if leb cache_cap (length cache) then [] else cache)

  -- A hit is an entry with the same creation time.
  unfoldable pub hit : ℕ → Option (ℕ × V) → Option V
  hit time none = none
  hit time (some (t, v)) = if t == time then some v else none

  consult_found : ℕ → ℕ → V → Option V → PidCache V → PidCache V × V
  consult_found pid time fresh (some v) cache = (cache, v)
  consult_found pid time fresh none cache = (store pid time fresh cache, fresh)

  -- Look the PID up; on a miss, store and return the fresh answer.
  unfoldable pub consult : ℕ → ℕ → V → PidCache V → PidCache V × V
  unfolding consult_found
  consult pid time fresh cache = consult_found pid time fresh (hit time (get pid cache)) cache

  pub get-put :
      (pid q time : ℕ) (v : V) (cache : PidCache V)
      → get q (put pid time v cache) ≡ (if pid == q then some (time, v) else get q cache)
  unfolding get put
  get-put pid q time v [] = refl
  get-put pid q time v ((p, t, w) ∷ rest) = ground (arith, get-put pid q time v rest)

  length-put-le :
      (pid time : ℕ) (v : V) (cache : PidCache V) → length (put pid time v cache) ≤ length cache + 1
  unfolding put
  length-put-le pid time v [] = omega arith
  length-put-le pid time v ((p, t, w) ∷ rest) = ground (arith, length-put-le pid time v rest)

  -- Each entry holds the true answer about the process of that PID and creation time.
  pub record IsSound (fact : ℕ → ℕ → V) (cache : PidCache V) : Type 0 where
    pub sound : (pid time : ℕ) (v : V) → get pid cache ≡ some (time, v) → v ≡ fact pid time
    pub bounded : length cache ≤ cache_cap

  pub IsSound-nil : (fact : ℕ → ℕ → V) → IsSound fact []
  unfolding get
  IsSound-nil fact = record { sound = λ pid time v e. cc; bounded = omega arith }

  put-IsSound :
      (fact : ℕ → ℕ → V) (pid time : ℕ) (cache : PidCache V)
      → IsSound fact cache
      → length cache + 1 ≤ cache_cap
      → IsSound fact (put pid time (fact pid time) cache)
  put-IsSound fact pid time cache h room = record {
    sound = λ q t v e. ground (arith, get-put pid q time (fact pid time) cache, h.sound q t v);
    bounded = omega (arith, length-put-le pid time (fact pid time) cache);
  }

  pub store-IsSound :
      (fact : ℕ → ℕ → V) (pid time : ℕ) (cache : PidCache V)
      → IsSound fact cache
      → IsSound fact (store pid time (fact pid time) cache)
  unfolding store
  store-IsSound fact pid time cache h = elim (Bool-cases (leb cache_cap (length cache))) [
    | inl full ↦ rw full (put-IsSound fact pid time [] (IsSound-nil fact) (omega arith))
    | inr room ↦ rw room (put-IsSound fact pid time cache h (ground arith))
  ]

  -- With a sound cache the answer is the fresh one, and the cache stays sound.
  pub consult_lem :
      (fact : ℕ → ℕ → V) (pid time : ℕ) (cache : PidCache V)
      → IsSound fact cache
      → ((consult pid time (fact pid time) cache).1 ≡ fact pid time)
        × IsSound fact (consult pid time (fact pid time) cache).0
  unfolding consult hit
  consult_lem fact pid time cache h = elim (Option-cases (get pid cache)) [
    | inl e ↦ rw (e, hit) (refl, store-IsSound fact pid time cache h)
    | inr ((t, v), e) ↦ elim (Bool-cases (t == time)) [
      | inl same_time ↦ rw (e, hit, same_time) (h.sound pid time v (ground arith), h)
      | inr other ↦ rw (e, hit, other) (refl, store-IsSound fact pid time cache h)
    ]
  ]

  -- What was stored is found, whatever the cache was.
  pub get-store :
      (pid time : ℕ) (v : V) (cache : PidCache V)
      → get pid (store pid time v cache) ≡ some (time, v)
  unfolding store
  get-store pid time v cache =
      ground (arith, get-put pid pid time v (if leb cache_cap (length cache) then [] else cache))
