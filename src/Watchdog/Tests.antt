-- ===== src/Watchdog/Tests.antt =====
-- The watchdog's theorems at concrete inputs.
use xodusmile.Prelude.{ℕ, ◌<◌, ◌≡◌, ◌||◌, refl, true, false, List, [], ◌∷◌, arith}
use xodusmile.Watchdog.{
  Round, Order, start_agent, stop_agent, round, main, heartbeat_miss_threshold,
}
use xodusmile.Watchdog.Laws.{bounces, main_detects}

abbrev hung : Round
hung = record { stopped = false; state = 4; beat = false }

abbrev down : Round
down = record { stopped = false; state = 1; beat = false }

abbrev well : Round
well = record { stopped = false; state = 4; beat = true }

-- Two misses, an answer, three misses, and the restart of the stopped service.
main_run :
    main true (hung ∷ hung ∷ well ∷ hung ∷ hung ∷ hung ∷ down ∷ []) 0
    ≡ [] ∷ [] ∷ [] ∷ [] ∷ [] ∷ (stop_agent ∷ []) ∷ (start_agent ∷ []) ∷ []
unfolding main round
main_run = refl

main_detects_example :
    (x : List Order) × (y : List Order) × (z : List Order) × (m : ℕ) × (main true
        (hung ∷ hung ∷ hung ∷ down ∷ [])
        0
      ≡ x ∷ y ∷ z ∷ main true (down ∷ []) m)
    × ((bounces x || (bounces y || bounces z)) ≡ true)
    × (m < heartbeat_miss_threshold)
main_detects_example =
    main_detects hung hung hung (down ∷ []) 0 (omega arith) (refl, refl) (refl, refl) (refl, refl)
