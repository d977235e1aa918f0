-- ===== src/Allowlist/Races.antt =====
-- `Allowlist.pid_allowed` in the two steps between which it releases the lock: the check, and the
-- store of its answer in the cache. Another thread may change the list between them.
use xodusmile.Prelude.{
  ℕ, ◌≡◌, refl, ap, Bool, false, not, ◌||◌, Option, none, some, arith, ◌==◌, if◌then◌else◌,
  Bool-cases, Option-cases, inl, inr,
}
use xodusmile.PidCache.{consult, store, get, hit, get-store}
use xodusmile.Allowlist.{Allowlist, Facts, or_empty, matches, pid_allowed, allowed_at, no_entries}

-- What the check comes to: an answer, or a fresh one that is still to be stored.
pub data Ask : Type 0 where
  answer : Bool → Ask
  fresh : ℕ → Bool → Ask

ask_found : ℕ → Bool → Option Bool → Ask
ask_found time allowed (some v) = answer v
ask_found time allowed none = fresh time allowed

ask_at : Facts → ℕ → Option ℕ → Allowlist → Ask
unfolding ask_found
ask_at facts pid none a = answer false
ask_at facts pid (some time) a =
    ask_found time (matches (or_empty (facts.name pid)) (or_empty (facts.exe pid)) a.entries)
      (hit time (get pid a.cache))

-- `pid_allowed` up to the call of `matches`.
unfoldable pub pid_ask : Facts → ℕ → Allowlist → Ask
unfolding ask_at
pid_ask facts pid a =
    if pid == 0 || not facts.has_psutil
    then answer false
    else if no_entries a.entries
    then answer false
    else ask_at facts pid (facts.create_time pid) a

-- The last locked block of `pid_allowed`.
unfoldable pub pid_answer : ℕ → Ask → Allowlist → Allowlist × Bool
pid_answer pid (answer v) a = (a, v)
pid_answer pid (fresh time v) a = (record a { cache = store pid time v a.cache }, v)

ask_at-allowed_at :
    (facts : Facts) (pid : ℕ) (time : Option ℕ) (a : Allowlist)
    → pid_answer pid (ask_at facts pid time a) a ≡ allowed_at facts pid time a
unfolding pid_answer ask_at allowed_at consult
ask_at-allowed_at facts pid none a = refl
ask_at-allowed_at facts pid (some time) a = elim (Option-cases (hit time (get pid a.cache))) [
  | inl e ↦ rw e refl
  | inr (v, e) ↦ rw e refl
]

-- With nothing between them the two steps are `pid_allowed`.
pub pid_answer-pid_ask :
    (facts : Facts) (pid : ℕ) (a : Allowlist)
    → pid_answer pid (pid_ask facts pid a) a ≡ pid_allowed facts pid a
unfolding pid_ask pid_allowed
pid_answer-pid_ask facts pid a = elim (Bool-cases (pid == 0 || not facts.has_psutil)) [
  | inl blind ↦ rw blind (unfold pid_answer in refl)
  | inr can ↦ elim (Bool-cases (no_entries a.entries)) [
    | inl empty ↦ rw (can, empty) (unfold pid_answer in refl)
    | inr filled ↦ rw (can, filled) (ask_at-allowed_at facts pid (facts.create_time pid) a)
  ]
]

-- What a check that ends in a store has seen.
record HasAsked (facts : Facts) (pid time : ℕ) (v : Bool) (a : Allowlist) : Type 0 where
  able : (pid == 0 || not facts.has_psutil) ≡ false
  started : facts.create_time pid ≡ some time
  decided : v ≡ matches (or_empty (facts.name pid)) (or_empty (facts.exe pid)) a.entries

ask_found-fresh :
    (time t : ℕ) (allowed v : Bool) (found : Option Bool)
    → ask_found time allowed found ≡ fresh t v
    → (time ≡ t) × (v ≡ allowed)
unfolding ask_found
ask_found-fresh time t allowed v (some w) h = absurd (cc h)
ask_found-fresh time t allowed v none h = (ground arith, ground arith)

ask_at-fresh :
    (facts : Facts) (pid t : ℕ) (v : Bool) (time : Option ℕ) (a : Allowlist)
    → ask_at facts pid time a ≡ fresh t v
    → (time ≡ some t)
      × (v ≡ matches (or_empty (facts.name pid)) (or_empty (facts.exe pid)) a.entries)
unfolding ask_at
ask_at-fresh facts pid t v none a h = absurd (cc h)
ask_at-fresh facts pid t v (some time) a h =
    let (p, q) =
      ask_found-fresh time t
        (matches (or_empty (facts.name pid)) (or_empty (facts.exe pid)) a.entries) v
        (hit time (get pid a.cache)) h in
    (ap some p, q)

fresh-HasAsked :
    (facts : Facts) (pid t : ℕ) (v : Bool) (a : Allowlist)
    → pid_ask facts pid a ≡ fresh t v
    → HasAsked facts pid t v a
unfolding pid_ask
fresh-HasAsked facts pid t v a h = elim (Bool-cases (pid == 0 || not facts.has_psutil)) [
  | inl blind ↦ let h' : answer false ≡ fresh t v = rw blind at h in absurd (cc h')
  | inr can ↦ elim (Bool-cases (no_entries a.entries)) [
    | inl empty ↦ let h' : answer false ≡ fresh t v = rw (can, empty) at h in absurd (cc h')
    | inr filled ↦
        let h' : ask_at facts pid (facts.create_time pid) a ≡ fresh t v = rw (can, filled) at h in
        let (p, q) = ask_at-fresh facts pid t v (facts.create_time pid) a h' in
        record { able = can; started = p; decided = q }
  ]
]

-- Where another thread changes the list between the check of `pid_allowed` and its store, and leaves
-- some entry, the stored answer is that of the old list, and the next call gives it again, whatever
-- the new list says about the process.
pub pid_answer_stale :
    (facts : Facts) (pid time : ℕ) (v : Bool) (a b : Allowlist)
    → pid_ask facts pid a ≡ fresh time v
    → no_entries b.entries ≡ false
    → (v ≡ matches (or_empty (facts.name pid)) (or_empty (facts.exe pid)) a.entries)
      × ((pid_allowed facts pid (pid_answer pid (pid_ask facts pid a) b).0).1 ≡ v)
unfolding pid_allowed
pid_answer_stale facts pid time v a b asked filled =
    let seen = fresh-HasAsked facts pid time v a asked in
    (
      seen.decided,
      rw asked (
          unfold pid_answer in
          rw (seen.able, filled, seen.started)
            (unfold allowed_at consult in
              rw (get-store pid time v b.cache) (unfold hit in ground arith))),
    )
