-- ===== src/MassIo/Burst.antt =====
-- When the mass I/O detector reports a burst.
use xodusmile.Prelude.{
  ℕ, suc, ◌-◌, ◌≤◌, ◌≡◌, ◌↔◌, not, Option, none, some, List, [], ◌∷◌, arith, leb, when,
  if◌then◌else◌, elem, lower, lookup, ◌&&◌, ◌||◌, same, String, keep, length,
}
use xodusmile.Deque.{
  pop_old, IsBetween, IsBetween-append, IsBetween-later, pop_old-IsBetween, pop_old-keep,
}
use xodusmile.MassIo.{
  Target, MassIo, known_before, is_nothing, is_noise, entropy_bar, detect_magic, new_mass_io,
  on_modified, on_head, on_moved, check_burst, on_engine_signal, report_lost, report_entropy,
  count_encryption_event, burst_window,
}
use xodusmile.MassIo.Quiet.{Event, modified, moved, checked, signalled, step, is_user_file}
use xodusmile.MassIo.Tables.{suspicious_extensions}

-- Runs in which the clock does not go back: the time of the last event and the state.
pub data Reach : ℕ → MassIo → Type 0 where
  start : Reach 0 new_mass_io
  next :
      {then_ now : ℕ} {m : MassIo} (e : Event)
      → Reach then_ m
      → then_ ≤ now
      → Reach now (step now e m)

abbrev Ordered : ℕ → MassIo → Type 0
Ordered now m = IsBetween 0 m.modify_times now

report_lost-Ordered :
    (now : ℕ) (t : Target) (before magic : Option String) (m : MassIo)
    → Ordered now m
    → Ordered now (report_lost now t before magic m)
unfolding report_lost count_encryption_event
report_lost-Ordered now t before magic m b =
    when (Ordered now) (known_before before && is_nothing magic)
      (λ _. IsBetween-append 0 m.modify_times now now b (omega arith)) (λ _. b)

report_entropy-Ordered :
    (now : ℕ) (t : Target) (magic : Option String) (m : MassIo)
    → Ordered now m
    → Ordered now (report_entropy now t magic m)
unfolding report_entropy count_encryption_event
report_entropy-Ordered now t magic m b =
    when (Ordered now) (leb (entropy_bar now m) t.entropy && is_nothing magic && is_user_file t)
      (λ _. IsBetween-append 0 m.modify_times now now b (omega arith)) (λ _. b)

on_head-Ordered :
    (now : ℕ) (t : Target) (head : Option (List ℕ)) (m : MassIo)
    → Ordered now m
    → Ordered now (on_head now t head m)
unfolding on_head
on_head-Ordered now t none m b = b
on_head-Ordered now t (some []) m b = b
on_head-Ordered now t (some (x ∷ xs)) m b =
    report_entropy-Ordered now t (detect_magic (x ∷ xs)) _
      (report_lost-Ordered now t (lookup t.path m.last_magic) (detect_magic (x ∷ xs)) _ b)

-- An event leaves the times in order.
step-IsBetween :
    (now hi : ℕ) (e : Event) (m : MassIo)
    → IsBetween 0 m.modify_times hi
    → hi ≤ now
    → IsBetween 0 (step now e m).modify_times now
unfolding on_modified on_moved check_burst on_engine_signal count_encryption_event
step-IsBetween now hi (modified t) m b h =
    let b' = IsBetween-later 0 m.modify_times hi now b h in
    when (Ordered now) (not t.is_file || is_noise t) (λ _. b')
      (λ _. on_head-Ordered now t t.head m b')
step-IsBetween now hi (moved src dest) m b h =
    when (Ordered now) (elem (lower dest.suffix) suspicious_extensions)
      (λ _. IsBetween-append 0 m.modify_times hi now b h)
      (λ _. IsBetween-later 0 m.modify_times hi now b h)
step-IsBetween now hi checked m b h =
    let b' = IsBetween-later 0 m.modify_times hi now b h in
    when (Ordered now) (leb 15 (length (pop_old (now - burst_window) m.modify_times)))
      (λ _. omega arith) (λ _. pop_old-IsBetween (now - burst_window) 0 m.modify_times now b')
step-IsBetween now hi (signalled sig) m b h =
    let b' = IsBetween-later 0 m.modify_times hi now b h in
    when (Ordered now) (same sig.detector "canary") (λ _. b') (λ _. b')

Reach-IsBetween : (now : ℕ) (m : MassIo) → Reach now m → IsBetween 0 m.modify_times now
Reach-IsBetween _ _ start = omega arith
Reach-IsBetween _ _ (next {then_} {now} {m} e r h) =
    step-IsBetween now then_ e m (Reach-IsBetween then_ m r) h

-- In a state that a run reaches whose clock does not go back, a check raises a signal exactly where
-- at least 15 of the counted events are at most 10 seconds old; it then starts the count again, and
-- else keeps just these events.
pub check_burst_iff :
    (before now : ℕ) (m : MassIo)
    → Reach before m
    → ((length (check_burst now m).emitted ≡ suc (length m.emitted))
        ↔ (15 ≤ length (keep (λ t. leb (now - burst_window) t) m.modify_times)))
      × ((check_burst now m).modify_times ≡ (
          if leb 15 (length (keep (λ t. leb (now - burst_window) t) m.modify_times))
          then []
          else keep (λ t. leb (now - burst_window) t) m.modify_times))
unfolding check_burst
check_burst_iff before now m r =
    let same_times =
      pop_old-keep (now - burst_window) 0 m.modify_times before (Reach-IsBetween before m r) in
    ground (arith, same_times)
