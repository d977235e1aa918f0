-- ===== src/Minifilter/Receiving.antt =====
-- The loops of the bridge's thread: what `_receive_loop` makes of the messages, and how `run` backs
-- off while there is no driver.
use Prim.Native.Nat.{min}
use native.Mathlib.Nat.{pow-suc, one-le-pow}
use native.Mathlib.Decide.{dec_le}
use xodusmile.Prelude.{
  ℕ, zero, suc, ◌*◌, ◌^◌, ◌≤◌, ◌≡◌, refl, ◌∙◌, Bool, true, false, List, [], ◌∷◌, ◌++◌, arith, ◌==◌,
  if◌then◌else◌, All, Bool-cases, inl, inr,
}
use xodusmile.Minifilter.{Bridge}
use xodusmile.Minifilter.History.{History, handle_all}
use xodusmile.Minifilter.Port.{
  Message, failed, received, protocol_version, receive_loop, max_backoff, run,
}

-- The events that are heard, the newest first: those of the right version, up to the first failure.
abbrev pub heard : List Message → History → History
heard [] h = h
heard (failed hr ∷ ms) h = h
heard (received version now evt ∷ ms) h =
    heard ms (if version == protocol_version then (now, evt) ∷ h else h)

-- The loop handles the messages of the right version up to the first failure, in their order, each
-- once, and skips those of other versions.
pub receive_loop-heard :
    (ms : List Message) (h : History) (b : Bridge)
    → receive_loop ms (handle_all h b) ≡ handle_all (heard ms h) b
unfolding receive_loop
receive_loop-heard [] h b = refl
receive_loop-heard (failed hr ∷ ms) h b = refl
receive_loop-heard (received version now evt ∷ ms) h b =
    elim (Bool-cases (version == protocol_version)) [
      | inl known ↦ rw known (receive_loop-heard ms ((now, evt) ∷ h) b)
      | inr other ↦ rw other (receive_loop-heard ms h b)
    ]

abbrev pub failures : ℕ → List Bool
failures zero = []
failures (suc n) = false ∷ failures n

abbrev pub IsWait : ℕ → Type 0
IsWait w = (1 ≤ w) × (w ≤ max_backoff)

-- What a run leaves behind any rounds, from bounded waits and a bounded backoff.
run_bounds :
    (rounds : List Bool) (backoff : ℕ) (waits : List ℕ)
    → IsWait backoff
    → All IsWait waits
    → All IsWait (run rounds backoff waits).0 × IsWait (run rounds backoff waits).1
unfolding run
run_bounds [] backoff waits b ws = (ws, b)
run_bounds (true ∷ rounds) backoff waits b ws = run_bounds rounds 1 waits (omega arith) ws
run_bounds (false ∷ rounds) backoff waits (b, b') ws =
    run_bounds rounds (min (backoff * 2) max_backoff) (min backoff max_backoff ∷ waits)
      (omega arith) ((omega arith, omega arith), ws)

capped_small : (b p : ℕ) → b * 2 ≤ 30 → min (min (b * 2) 30 * p) 30 ≡ min (b * (p * 2)) 30
capped_small b p h = let e : min (b * 2) 30 ≡ b * 2 = omega arith in rw e (omega arith)

capped_large : (b p : ℕ) → 1 ≤ p → 30 ≤ b * 2 → min (min (b * 2) 30 * p) 30 ≡ min (b * (p * 2)) 30
capped_large b p one h =
    let e : min (b * 2) 30 ≡ 30 = omega arith in
    let many : 30 * p ≤ b * 2 * p = grind arith in rw e (omega arith)

-- Doubling and capping at 30 each time comes to capping once.
capped : (b p : ℕ) → 1 ≤ p → min (min (b * 2) 30 * p) 30 ≡ min (b * (p * 2)) 30
capped b p one = elim (dec_le (b * 2) 30) [
  | yes h ↦ capped_small b p h
  | no h ↦ capped_large b p one (omega arith)
]

run-failures :
    (n backoff : ℕ) (waits : List ℕ)
    → backoff ≤ max_backoff
    → (run (failures n) backoff waits).1 ≡ min (backoff * 2 ^ n) max_backoff
unfolding run
run-failures zero backoff waits h = omega arith
run-failures (suc n) backoff waits h =
    run-failures n (min (backoff * 2) max_backoff) (min backoff max_backoff ∷ waits) (omega arith)
    ∙ rw (pow-suc 2 n) (capped backoff (2 ^ n) (one-le-pow n 2 (omega arith)))

run-append :
    (rounds more : List Bool) (backoff : ℕ) (waits : List ℕ)
    → run (rounds ++ more) backoff waits
      ≡ run more (run rounds backoff waits).1 (run rounds backoff waits).0
unfolding run
run-append [] more backoff waits = refl
run-append (false ∷ rounds) more backoff waits =
    run-append rounds more (min (backoff * 2) max_backoff) (min backoff max_backoff ∷ waits)
run-append (true ∷ rounds) more backoff waits = run-append rounds more 1 waits

-- Every wait of a run is between 1 and 30 seconds, and after a connection and then n failures the
-- next wait is 2 to the n seconds, or 30 if that is less.
pub run_backoff :
    (rounds : List Bool) (n : ℕ)
    → All IsWait (run (rounds ++ true ∷ failures n) 1 []).0
      × ((run (rounds ++ true ∷ failures n) 1 []).1 ≡ min (2 ^ n) max_backoff)
run_backoff rounds n = (
  (run_bounds (rounds ++ true ∷ failures n) 1 [] (omega arith) tt).0,
  rw (run-append rounds (true ∷ failures n) 1 [])
      (unfold run in run-failures n 1 (run rounds 1 []).0 (omega arith) ∙ omega arith),
)
