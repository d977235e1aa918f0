-- ===== src/Reporter/Runs.antt =====
-- incident_report.py: what reaches the reporter, in the order of its lock: the responder's actions and
-- the wake-ups of the thread that finalizes campaigns (`_finalizer_loop`).
use xodusmile.Prelude.{ℕ, ◌<◌, false, List, [], ◌∷◌}
use xodusmile.Responder.Types.{KillAction}
use xodusmile.Reporter.Joining.{Machine}
use xodusmile.Reporter.{Reporter, on_action, finalize_due}

pub data Event : Type 0 where
  acted : Machine → KillAction → Event
  woken : Machine → Event

abbrev pub clock : Event → ℕ
clock (acted m action) = m.now
clock (woken m) = m.now

unfoldable pub step : Event → Reporter → Reporter
step (acted m action) r = on_action m action r
step (woken m) r = finalize_due m false r

abbrev pub run : List Event → Reporter → Reporter
run [] r = r
run (e ∷ events) r = run events (step e r)

-- Each event happens before the time.
abbrev pub AreBefore : ℕ → List Event → Type 0
AreBefore hi [] = Unit
AreBefore hi (e ∷ events) = (clock e < hi) × AreBefore hi events
