-- ===== src/Watchdog.antt =====
-- watchdog_service.py: the loop of the watchdog service. What the service manager and the heartbeat
-- answer in a round is an argument.
pub mod Laws
mod Tests
use xodusmile.Prelude.{
  ℕ, zero, suc, ◌+◌, Bool, true, false, not, ◌&&◌, ◌||◌, List, [], ◌∷◌, ◌++◌, ◌==◌, leb,
  if◌then◌else◌,
}

abbrev pub heartbeat_miss_threshold : ℕ
heartbeat_miss_threshold = 3

-- What a round of the loop sees: whether the stop event is set, the agent's service state (0 where
-- the query fails), and whether the heartbeat answers 200 in time.
pub record Round : Type 0 where
  pub stopped : Bool
  pub state : ℕ
  pub beat : Bool

-- What it asks of the service manager.
pub data Order : Type 0 where
  start_agent stop_agent : Order

-- `state in (2, 4)`: start pending or running.
abbrev pub is_up : ℕ → Bool
is_up state = state == 2 || state == 4

-- One round of the loop of `_main` behind the wait: the misses after it, and its orders.
unfoldable pub round : Bool → Round → ℕ → ℕ × List Order
round heartbeat r misses =
    if not (is_up r.state)
    then (0, start_agent ∷ [])
    else if not heartbeat
    then (misses, [])
    else if r.beat
    then (0, [])
    else if leb heartbeat_miss_threshold (misses + 1)
    then (0, stop_agent ∷ [])
    else (misses + 1, [])

-- The loop of `_main`: the orders of each round, up to the stop event.
unfoldable pub main : Bool → List Round → ℕ → List (List Order)
main heartbeat [] misses = []
main heartbeat (r ∷ rs) misses =
    let (misses', orders) = round heartbeat r misses in
    let rest = main heartbeat rs misses' in if r.stopped then [] else orders ∷ rest
