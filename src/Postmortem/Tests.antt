-- ===== src/Postmortem/Tests.antt =====
-- Two sessions of a log.
use xodusmile.Prelude.{◌≡◌, ◌*◌, refl, true, some, [], ◌∷◌, arith}
use xodusmile.Signal.{second}
use xodusmile.Postmortem.{
  Logged, Timeline, isolate_last_session, last_session, last_break, build_timeline, first_where,
  peak_of, severity_order,
}
use xodusmile.Postmortem.Sessions.{isolate_last_session-eq-last_session}
use xodusmile.Postmortem.Delays.{IsTimely, build_timeline-IsTimely}

abbrev low : Logged
low = record { timestamp = 0; text = "mass_io"; level_after = "LOW"; score_after = 20 }

abbrev high : Logged
high = record { timestamp = 400 * second; text = "canary"; level_after = "HIGH"; score_after = 80 }

abbrev critical : Logged
critical = record {
  timestamp = 401 * second;
  text = "entropy";
  level_after = "CRITICAL";
  score_after = 120;
}

session_run : isolate_last_session (low ∷ high ∷ critical ∷ []) ≡ high ∷ critical ∷ []
unfolding isolate_last_session last_break
session_run = refl

isolate_last_session-eq-last_session_example :
    isolate_last_session (low ∷ high ∷ critical ∷ []) ≡ last_session (low ∷ high ∷ critical ∷ [])
isolate_last_session-eq-last_session_example =
    isolate_last_session-eq-last_session (low ∷ high ∷ critical ∷ [])

abbrev seen : Timeline
seen = record {
  t0 = 400 * second;
  t_end = 401 * second;
  anchor = 400 * second;
  attack_start = 400 * second;
  first_enc = some high;
  first_high = some high;
  first_crit = some critical;
  peak_score = 120;
  peak_at = 401 * second;
  duration = second;
}

seen_run : build_timeline (λ s. true) (high ∷ critical ∷ []) ≡ some seen
unfolding build_timeline first_where peak_of severity_order
seen_run = refl

build_timeline-IsTimely_example : IsTimely (λ x. true) high (critical ∷ []) seen
build_timeline-IsTimely_example =
    build_timeline-IsTimely (λ s. true) high (critical ∷ []) seen (omega arith, tt) seen_run
