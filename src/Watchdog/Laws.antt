-- ===== src/Watchdog/Laws.antt =====
-- When the watchdog starts the agent, and when it bounces it.
use xodusmile.Prelude.{
  ℕ, zero, suc, ◌+◌, ◌≤◌, ◌<◌, ◌≡◌, refl, Bool, true, false, not, ◌&&◌, ◌||◌, List, [], ◌∷◌, arith,
  leb, if◌then◌else◌,
}
use xodusmile.Watchdog.{
  Round, Order, start_agent, stop_agent, is_up, round, main, heartbeat_miss_threshold,
}

abbrev pub is_stop : Order → Bool
is_stop stop_agent = true
is_stop start_agent = false

abbrev pub bounces : List Order → Bool
bounces [] = false
bounces (o ∷ os) = is_stop o || bounces os

-- The agent runs and does not answer.
abbrev pub is_hung : Round → Bool
is_hung r = is_up r.state && not r.beat

-- The number of rounds, from the last one back, in which the agent hung and was not bounced. The
-- rounds stand the newest first.
abbrev pub streak : List Round → ℕ
streak [] = 0
streak (r ∷ rs) = let n = streak rs in if is_hung r then (if leb 3 (n + 1) then 0 else n + 1) else 0

-- The misses after rounds without a stop, the newest first.
unfoldable pub misses_after : List Round → ℕ
misses_after [] = 0
misses_after (r ∷ rs) = (round true r (misses_after rs)).0

misses_after-streak : (rs : List Round) → misses_after rs ≡ streak rs
unfolding misses_after round
misses_after-streak [] = refl
misses_after-streak (r ∷ rs) = ground (arith, misses_after-streak rs)

streak_bound : (rs : List Round) → streak rs < 3
streak_bound [] = omega arith
streak_bound (r ∷ rs) = ground (arith, streak_bound rs)

-- The last three rounds were hung.
abbrev pub ThreeHung : List Round → Type 0
ThreeHung [] = ⊥
ThreeHung (a ∷ []) = ⊥
ThreeHung (a ∷ b ∷ []) = ⊥
ThreeHung (a ∷ b ∷ c ∷ rs) = (is_hung a ≡ true) × (is_hung b ≡ true) × (is_hung c ≡ true)

streak_two :
    (a b : Round) (rs : List Round)
    → streak (a ∷ b ∷ rs) ≡ 2
    → (is_hung a ≡ true) × (is_hung b ≡ true)
streak_two a b rs h = ground arith

streak_one : (a : Round) → streak (a ∷ []) < 2
streak_one a = ground arith

bounce_needs :
    (r : Round) (misses : ℕ)
    → bounces (round true r misses).1 ≡ true
    → (is_hung r ≡ true) × (3 ≤ misses + 1)
unfolding round
bounce_needs r misses h = ground arith

bounced_hung : (r : Round) (rs : List Round) → is_hung r ≡ true → 2 ≤ streak rs → ThreeHung (r ∷ rs)
bounced_hung r [] h two = absurd (omega arith)
bounced_hung r (a ∷ []) h two = absurd (omega (arith, streak_one a))
bounced_hung r (a ∷ b ∷ rs) h two =
    let (p, q) = streak_two a b rs (omega (arith, streak_bound (a ∷ b ∷ rs))) in (h, p, q)

-- After any rounds, the next one bounces the agent only if the service was up and its heartbeat
-- silent in that round and in the two before it; a round in which the service is not up starts it,
-- and asks for nothing else.
pub round_bounce :
    (r : Round) (rs : List Round)
    → (bounces (round true r (misses_after rs)).1 ≡ true → ThreeHung (r ∷ rs))
      × (is_up r.state ≡ false → (round true r (misses_after rs)).1 ≡ start_agent ∷ [])
round_bounce r rs = (
  λ h.
      let (hung, three) = bounce_needs r (misses_after rs) h in
      bounced_hung r rs hung (omega (arith, misses_after-streak rs)),
  λ down. unfold round in rw down refl,
)

-- A hung round: the misses after it, and whether it bounces.
round_hung :
    (r : Round) (misses : ℕ)
    → is_hung r ≡ true
    → round true r misses ≡ (if leb 3 (misses + 1) then (0, stop_agent ∷ []) else (misses + 1, []))
unfolding round
round_hung r misses h = ground arith

three_hung :
    (a b c : Round) (misses : ℕ)
    → misses < 3
    → is_hung a ≡ true
    → is_hung b ≡ true
    → is_hung c ≡ true
    → let x = round true a misses in
      let y = round true b x.0 in
      let z = round true c y.0 in ((bounces x.1 || (bounces y.1 || bounces z.1)) ≡ true) × (z.0 < 3)
three_hung a b c zero low ha hb hc =
    rw (round_hung a 0 ha) (rw (round_hung b 1 hb) (rw (round_hung c 2 hc) (refl, omega arith)))
three_hung a b c (suc zero) low ha hb hc =
    rw (round_hung a 1 ha) (rw (round_hung b 2 hb) (rw (round_hung c 0 hc) (refl, omega arith)))
three_hung a b c (suc (suc zero)) low ha hb hc =
    rw (round_hung a 2 ha) (rw (round_hung b 0 hb) (rw (round_hung c 1 hc) (refl, omega arith)))
three_hung a b c (suc (suc (suc m))) low ha hb hc = absurd (omega arith)

-- With the heartbeat check on, an agent that hangs for three rounds in a row, from a count of misses below
-- the threshold and with no stop request, is bounced in one of them, and the next round counts from below
-- the threshold again.
pub main_detects :
    (a b c : Round) (rs : List Round) (misses : ℕ)
    → misses < heartbeat_miss_threshold
    → (is_hung a ≡ true) × (a.stopped ≡ false)
    → (is_hung b ≡ true) × (b.stopped ≡ false)
    → (is_hung c ≡ true) × (c.stopped ≡ false)
    → (x : List Order) × (y : List Order) × (z : List Order) × (m : ℕ) × (main true
          (a ∷ b ∷ c ∷ rs)
          misses
        ≡ x ∷ y ∷ z ∷ main true rs m)
      × ((bounces x || (bounces y || bounces z)) ≡ true)
      × (m < heartbeat_miss_threshold)
unfolding main
main_detects a b c rs misses low (ha, ra) (hb, rb) (hc, rc) =
    let x = round true a misses in
    let y = round true b x.0 in
    let z = round true c y.0 in
    let (bounced, below) = three_hung a b c misses low ha hb hc in
    (x.1, y.1, z.1, z.0, rw (ra, rb, rc) refl, bounced, below)
