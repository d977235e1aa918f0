-- ===== src/Reporter/Notify.antt =====
-- incident_report.py: the limit on the native popups.
use xodusmile.Prelude.{
  ℕ, zero, suc, ◌+◌, ◌-◌, ◌*◌, ◌≤◌, ◌≡◌, refl, sym, ap, subst, ◌∙◌, true, false, List, [], ◌∷◌,
  ◌++◌, arith, leb, ltb, if◌then◌else◌, length, Bool-cases, inl, inr, All,
}
use xodusmile.Deque.{pop_old, IsBetween}
use xodusmile.Signal.{second}
use xodusmile.Reporter.{notify_rate_ok, notify_window, notify_max}

-- The times of the popups among the calls at these times.
abbrev pub popup_times : List ℕ → List ℕ → List ℕ
popup_times [] window = []
popup_times (t ∷ times) window =
    let rest = popup_times times (notify_rate_ok t window).1 in
    if (notify_rate_ok t window).0 then t ∷ rest else rest

-- How many of the times are not before the cutoff.
abbrev pub count_since : ℕ → List ℕ → ℕ
count_since cutoff [] = 0
count_since cutoff (x ∷ xs) = let n = count_since cutoff xs in if leb cutoff x then 1 + n else n

-- Whenever a popup is started, at most two were started in the window before it.
abbrev pub IsLimited : List ℕ → List ℕ → Type 0
IsLimited before [] = Unit
IsLimited before (t ∷ times) =
    (count_since (t - notify_window) before ≤ 2) × IsLimited (before ++ t ∷ []) times

count_since-pop_old :
    (cutoff later : ℕ) (xs : List ℕ)
    → cutoff ≤ later
    → count_since later (pop_old cutoff xs) ≡ count_since later xs
count_since-pop_old cutoff later [] h = refl
count_since-pop_old cutoff later (x ∷ xs) h = ground (arith, count_since-pop_old cutoff later xs h)

count_since-le : (cutoff : ℕ) (xs : List ℕ) → count_since cutoff xs ≤ length xs
count_since-le cutoff [] = omega arith
count_since-le cutoff (x ∷ xs) = ground (arith, count_since-le cutoff xs)

count_since-append :
    (cutoff t : ℕ) (xs : List ℕ)
    → count_since cutoff (xs ++ t ∷ []) ≡ count_since cutoff xs + (if leb cutoff t then 1 else 0)
count_since-append cutoff t [] = ground arith
count_since-append cutoff t (x ∷ xs) = ground (arith, count_since-append cutoff t xs)

-- From a time on, the window counts every popup that counts.
abbrev Counts : ℕ → List ℕ → List ℕ → Type 0
Counts now before window =
    (t : ℕ)
    → now ≤ t
    → count_since (t - notify_window) before ≤ count_since (t - notify_window) window

Counts-refused :
    (now t : ℕ) (before window : List ℕ)
    → Counts now before window
    → now ≤ t
    → Counts t before (notify_rate_ok t window).1
unfolding notify_rate_ok
Counts-refused now t before window c h later k = ground (
  arith,
  k,
  c later (omega (arith, h, k)),
  count_since-pop_old (t - notify_window) (later - notify_window) window (omega (arith, k)),
  count_since-append (later - notify_window) t (pop_old (t - notify_window) window),
)

Counts-accepted :
    (now t : ℕ) (before window : List ℕ)
    → Counts now before window
    → now ≤ t
    → (notify_rate_ok t window).0 ≡ true
    → (count_since (t - notify_window) before ≤ 2)
      × Counts t (before ++ t ∷ []) (notify_rate_ok t window).1
unfolding notify_rate_ok
Counts-accepted now t before window c h ok =
    let recent = pop_old (t - notify_window) window in
    (
      ground (
        arith,
        ok,
        c t h,
        count_since-le (t - notify_window) recent,
        count_since-pop_old (t - notify_window) (t - notify_window) window (omega arith),
      ),
      (λ later k. ground (
        arith,
        ok,
        k,
        c later (omega (arith, h, k)),
        count_since-pop_old (t - notify_window) (later - notify_window) window (omega (arith, k)),
        count_since-append (later - notify_window) t recent,
        count_since-append (later - notify_window) t before,
      )),
    )

popup_times_after :
    (now hi : ℕ) (times before window : List ℕ)
    → IsBetween now times hi
    → Counts now before window
    → IsLimited before (popup_times times window)
popup_times_after now hi [] before window b c = tt
popup_times_after now hi (t ∷ times) before window (b, bs) c =
    elim (Bool-cases (notify_rate_ok t window).0) [
      | inl ok ↦
          let accepted = Counts-accepted now t before window c b ok in
          simp ok (
            accepted.0,
            popup_times_after t hi times (before ++ t ∷ []) (notify_rate_ok t window).1 bs
                accepted.1,
          )
      | inr refused ↦ simp refused (
          popup_times_after t hi times before (notify_rate_ok t window).1 bs
            (Counts-refused now t before window c b))
    ]

-- Of any calls at times in order, from an empty window, no popup is started when three or more were
-- started in the 30 s before it.
pub popup_times-IsLimited :
    (lo hi : ℕ) (times : List ℕ) → IsBetween lo times hi → IsLimited [] (popup_times times [])
popup_times-IsLimited lo hi times b = popup_times_after lo hi times [] [] b (λ t h. omega arith)

-- Calls at a steady pace.
abbrev pub paced : ℕ → ℕ → ℕ → List ℕ
paced zero t step = []
paced (suc n) t step = t ∷ paced n (t + step) step

-- The window is full, at most its oldest time will have gone by the next call.
abbrev IsFull : ℕ → ℕ → List ℕ → Type 0
IsFull t step window =
    (a b c d : ℕ) × (window ≡ a ∷ b ∷ c ∷ d ∷ [])
    × (a + step ≤ b)
    × (b + step ≤ c)
    × (c + step ≤ d)
    × (d + step ≤ t)
    × (t ≤ a + step + notify_window)

saturated_refuses :
    (a b c d t step : ℕ)
    → a + step ≤ b
    → b + step ≤ c
    → c + step ≤ d
    → d + step ≤ t
    → t ≤ a + step + notify_window
    → ((notify_rate_ok t (a ∷ b ∷ c ∷ d ∷ [])).0 ≡ false)
      × IsFull (t + step) step (notify_rate_ok t (a ∷ b ∷ c ∷ d ∷ [])).1
unfolding notify_rate_ok
saturated_refuses a b c d t step p q r u v = elim (Bool-cases (ltb a (t - notify_window))) [
  | inl old ↦
      let rest : pop_old (t - notify_window) (a ∷ b ∷ c ∷ d ∷ []) ≡ b ∷ c ∷ d ∷ [] =
        ground (arith, old, p, q, r, u, v) in
      simp rest (refl, (b, c, d, t, refl, q, r, u, omega arith, omega (arith, p, v)))
  | inr recent ↦
      let all_four : pop_old (t - notify_window) (a ∷ b ∷ c ∷ d ∷ []) ≡ a ∷ b ∷ c ∷ d ∷ [] =
        ground (arith, recent) in
      let young : t ≤ a + notify_window = ground (arith, recent) in
      simp all_four (refl, (a, b, c, d, refl, p, q, r, omega (arith, u), omega (arith, young)))
]

saturated_stays :
    (n t step : ℕ) (window : List ℕ)
    → IsFull t step window
    → popup_times (paced n t step) window ≡ []
saturated_stays zero t step window full = refl
saturated_stays (suc n) t step window (a, b, c, d, eq, p, q, r, u, v) =
    let next = saturated_refuses a b c d t step p q r u v in
    let here : (notify_rate_ok t window).0 ≡ false = ap (λ w. (notify_rate_ok t w).0) eq ∙ next.0 in
    let full = subst (λ w. IsFull (t + step) step (notify_rate_ok t w).1) (sym eq) next.1 in
    simp here (saturated_stays n (t + step) step (notify_rate_ok t window).1 full)

-- A call that finds the window fresh.
none_old :
    (t : ℕ) (window : List ℕ)
    → All (λ x. t ≤ x + notify_window) window
    → pop_old (t - notify_window) window ≡ window
none_old t [] h = refl
none_old t (x ∷ window) (h, hs) = ground (arith, h, none_old t window hs)

three_then_none :
    (n t step : ℕ)
    → step ≤ 10 * second
    → popup_times (paced n (t + step + step + step) step) (t ∷ (t + step) ∷ (t + step + step) ∷ [])
      ≡ []
unfolding notify_rate_ok
three_then_none zero t step h = refl
three_then_none (suc n) t step h =
    let fresh =
      none_old (t + step + step + step) (t ∷ (t + step) ∷ (t + step + step) ∷ [])
        (omega (arith, h), (omega (arith, h), (omega (arith, h), tt))) in
    let full =
      saturated_stays n (t + step + step + step + step) step
        (t ∷ (t + step) ∷ (t + step + step) ∷ (t + step + step + step) ∷ [])
        (
          t,
          t + step,
          t + step + step,
          t + step + step + step,
          refl,
          omega arith,
          omega arith,
          omega arith,
          omega arith,
          omega (arith, h),
        ) in
    simp fresh full

accepts :
    (t : ℕ) (window : List ℕ)
    → All (λ x. t ≤ x + notify_window) window
    → length window ≤ 2
    → notify_rate_ok t window ≡ (true, window ++ t ∷ [])
unfolding notify_rate_ok
accepts t window fresh h =
    let few : leb notify_max (length window) ≡ false = ground (arith, h) in
    simp (none_old t window fresh, few) refl

-- Of calls that come every `step`, at most ten seconds apart, the first three start popups and none of
-- the others ever does, however many follow.
pub popup_times-paced :
    (n t step : ℕ)
    → step ≤ 10 * second
    → popup_times (paced (suc (suc (suc n))) t step) [] ≡ t ∷ (t + step) ∷ (t + step + step) ∷ []
popup_times-paced n t step h =
    let first = accepts t [] tt (omega arith) in
    let second_ = accepts (t + step) (t ∷ []) (omega (arith, h), tt) (omega arith) in
    let third =
      accepts (t + step + step) (t ∷ (t + step) ∷ []) (omega (arith, h), (omega (arith, h), tt))
        (omega arith) in
    simp (first, second_, third, three_then_none n t step h) refl
