-- ===== src/Reporter/Dedup.antt =====
-- incident_report.py: an incident of a process in the same state is reported once in a minute.
use xodusmile.Prelude.{
  ℕ, ◌+◌, ◌≤◌, ◌<◌, ◌≡◌, refl, sym, ap, ◌∙◌, subst, true, false, not, ◌||◌, ◌&&◌, is_some, some,
  List, [], ◌∷◌, arith, leb, ltb, if◌then◌else◌, length, keep, Bool-cases, inl, inr, when,
}
use xodusmile.Responder.Types.{KillAction}
use xodusmile.Reporter.Joining.{Machine}
use xodusmile.Reporter.FileNames.{incident_file}
use xodusmile.Reporter.Behaviors.{signame_from_reason}
use xodusmile.Reporter.Runs.{Event, acted, woken, clock, run, step, AreBefore}
use xodusmile.Reporter.{
  State, same_state, find_state, put_state, prune_states, Reporter, file_report, on_action,
  is_repeated, state_of, report_dedup, report_dedup_max, update_campaign, finalize_due,
}

same_state-eq : (s t : State) → same_state s t ≡ true → s ≡ t
same_state-eq (p, (true, true)) (p', (true, true)) h =
    ap (λ x. (x, (true, true))) (ground (arith, h))
same_state-eq (p, (true, false)) (p', (true, false)) h =
    ap (λ x. (x, (true, false))) (ground (arith, h))
same_state-eq (p, (false, true)) (p', (false, true)) h =
    ap (λ x. (x, (false, true))) (ground (arith, h))
same_state-eq (p, (false, false)) (p', (false, false)) h =
    ap (λ x. (x, (false, false))) (ground (arith, h))
same_state-eq (p, (true, true)) (p', (true, false)) h = ground (arith, h)
same_state-eq (p, (true, true)) (p', (false, q')) h = ground (arith, h)
same_state-eq (p, (true, false)) (p', (true, true)) h = ground (arith, h)
same_state-eq (p, (true, false)) (p', (false, q')) h = ground (arith, h)
same_state-eq (p, (false, q)) (p', (true, q')) h = ground (arith, h)
same_state-eq (p, (false, true)) (p', (false, false)) h = ground (arith, h)
same_state-eq (p, (false, false)) (p', (false, true)) h = ground (arith, h)

same_state_refl : (s : State) → same_state s s ≡ true
same_state_refl (p, (true, true)) = ground arith
same_state_refl (p, (true, false)) = ground arith
same_state_refl (p, (false, true)) = ground arith
same_state_refl (p, (false, false)) = ground arith

-- Equal states are the same state, to any third.
same_state-ap : (s t u : State) → same_state s t ≡ true → same_state s u ≡ same_state t u
same_state-ap s t u h = ap (λ x. same_state x u) (same_state-eq s t h)

find_state-put_state :
    (s u : State) (now : ℕ) (states : List (State × ℕ))
    → find_state u (put_state s now states)
      ≡ (if same_state s u then some now else find_state u states)
unfolding find_state put_state
find_state-put_state s u now [] = refl
find_state-put_state s u now ((v, time) ∷ states) = elim (Bool-cases (same_state v s)) [
  | inl here ↦ let e = same_state-ap v s u here in ground (arith, here, e)
  | inr there ↦ elim (Bool-cases (same_state v u)) [
    | inl at ↦
        let other : same_state s u ≡ false = elim (Bool-cases (same_state s u)) [
          | inl e ↦
              let p = same_state-eq v u at in
              let q = same_state-eq s u e in
              sym (
                ground (
                  arith,
                  there,
                  ap (λ x. same_state x s) p,
                  ap (λ x. same_state u x) q,
                  same_state_refl u,
                ))
          | inr e ↦ e
        ] in
        ground (arith, there, at, other)
    | inr not_at ↦ ground (arith, there, not_at, find_state-put_state s u now states)
  ]
]

find_state-keep :
    (u : State) (now t : ℕ) (states : List (State × ℕ))
    → find_state u states ≡ some t
    → now ≤ t + report_dedup
    → find_state u (keep (λ (x : State × ℕ). leb now (x.1 + report_dedup)) states) ≡ some t
unfolding find_state keep
find_state-keep u now t [] at h = at
find_state-keep u now t ((v, time) ∷ states) at h = elim (Bool-cases (same_state v u)) [
  | inl here ↦ ground (arith, at, here, h)
  | inr there ↦ ground (arith, at, there, find_state-keep u now t states)
]

file_report-states :
    (m : Machine) (action : KillAction) (r : Reporter)
    → (file_report m action r).reported_states ≡ r.reported_states
unfolding file_report update_campaign
file_report-states m action r =
    let P : Reporter → Type 0 = λ x. x.reported_states ≡ r.reported_states in
    let file = incident_file (m.stamp action.timestamp) action.pid action.process_name in
    when P (not (is_some (signame_from_reason action.reason) && m.writable file)) (λ _. refl)
      (λ _. when P (not r.notify) (λ _. refl) (λ _. refl))

on_action-cases :
    (P : Reporter → Type 0) (m : Machine) (action : KillAction) (r : Reporter)
    → P r
    → (is_repeated m.now (find_state (state_of action) r.reported_states) ≡ false
        → P (
            file_report m action (record r {
              reported_states =
                  prune_states m.now (put_state (state_of action) m.now r.reported_states);
            })))
    → P (on_action m action r)
unfolding on_action
on_action-cases P m action r old new =
    when P (not (action.terminated || action.quarantined)) (λ _. old)
      (λ _.
        when P (is_repeated m.now (find_state (state_of action) r.reported_states)) (λ _. old) new)

-- The time of a state's report.
abbrev pub LastReport : State → ℕ → Reporter → Type 0
LastReport state t r = find_state state r.reported_states ≡ some t

find_state-prune_states :
    (u : State) (now t : ℕ) (states : List (State × ℕ))
    → find_state u states ≡ some t
    → now ≤ t + report_dedup
    → find_state u (prune_states now states) ≡ some t
unfolding prune_states
find_state-prune_states u now t states at h =
    when (λ x. find_state u x ≡ some t) (ltb report_dedup_max (length states))
      (λ _. find_state-keep u now t states at h) (λ _. at)

on_action-LastReport :
    (m : Machine) (action : KillAction) (state : State) (t : ℕ) (r : Reporter)
    → LastReport state t r
    → m.now < t + report_dedup
    → LastReport state t (on_action m action r)
on_action-LastReport m action state t r at h =
    on_action-cases (LastReport state t) m action r at (λ new.
      ap (find_state state) (
        file_report-states m action (record r {
          reported_states =
              prune_states m.now (put_state (state_of action) m.now r.reported_states);
        }))
      ∙ find_state-prune_states state m.now t (put_state (state_of action) m.now r.reported_states)
          (kept new) (omega (arith, h)))
  where
    kept :
        is_repeated m.now (find_state (state_of action) r.reported_states) ≡ false
        → find_state state (put_state (state_of action) m.now r.reported_states) ≡ some t
    kept new = elim (Bool-cases (same_state (state_of action) state)) [
      | inl here ↦
          let at_state =
            ap (λ s. is_repeated m.now (find_state s r.reported_states))
              (same_state-eq (state_of action) state here) in
          let repeated : is_repeated m.now (find_state state r.reported_states) ≡ true =
            simp at (ground (arith, h)) in
          ground (arith, new, at_state, repeated)
      | inr there ↦
          find_state-put_state (state_of action) state m.now r.reported_states ∙ simp there at
    ]

step-LastReport :
    (e : Event) (state : State) (t : ℕ) (r : Reporter)
    → LastReport state t r
    → clock e < t + report_dedup
    → LastReport state t (step e r)
unfolding step finalize_due
step-LastReport (acted m action) state t r at h = on_action-LastReport m action state t r at h
step-LastReport (woken m) state t r at h = at

run-LastReport :
    (state : State) (t : ℕ) (events : List Event) (r : Reporter)
    → LastReport state t r
    → AreBefore (t + report_dedup) events
    → LastReport state t (run events r)
run-LastReport state t [] r at h = at
run-LastReport state t (e ∷ events) r at (k, hs) =
    run-LastReport state t events (step e r) (step-LastReport e state t r at k) hs

-- Once an incident of a process is reported, no event of the next minute changes that, and another of the
-- same process in the same state changes nothing at all: no report, record, campaign or popup.
pub run-on_action_repeated :
    (m : Machine) (action : KillAction) (t : ℕ) (events : List Event) (r : Reporter)
    → LastReport (state_of action) t r
    → AreBefore (t + report_dedup) events
    → m.now < t + report_dedup
    → on_action m action (run events r) ≡ run events r
unfolding on_action
run-on_action_repeated m action t events r at within h =
    let repeated : is_repeated m.now (find_state (state_of action) (run events r).reported_states)
        ≡ true =
      simp (run-LastReport (state_of action) t events r at within) (ground (arith, h)) in
    ground (arith, repeated)

put_state-LastReport :
    (m : Machine) (action : KillAction) (r : Reporter)
    → LastReport (state_of action) m.now (record r {
      reported_states = prune_states m.now (put_state (state_of action) m.now r.reported_states);
    })
put_state-LastReport m action r =
    find_state-prune_states (state_of action) m.now m.now
      (put_state (state_of action) m.now r.reported_states)
      (find_state-put_state (state_of action) (state_of action) m.now r.reported_states
        ∙ simp (same_state_refl (state_of action)) refl)
      (omega arith)

-- An incident that is not reported yet, and whose report cannot be made or written, leaves no record, no
-- file, no campaign and no popup: the reason's text names no signal, or the file cannot be written. And
-- yet another of the same process in the same state changes nothing in the minute after it, whether its
-- report can be written or not.
pub on_action_unwritten :
    (m m' : Machine) (action : KillAction) (events : List Event) (r : Reporter)
    → (action.terminated || action.quarantined) ≡ true
    → is_repeated m.now (find_state (state_of action) r.reported_states) ≡ false
    → (is_some (signame_from_reason action.reason)
        && m.writable (incident_file (m.stamp action.timestamp) action.pid action.process_name))
      ≡ false
    → AreBefore (m.now + report_dedup) events
    → m'.now < m.now + report_dedup
    → (on_action m action r ≡ record r {
      reported_states = prune_states m.now (put_state (state_of action) m.now r.reported_states);
    })
      × (on_action m' action (run events (on_action m action r))
          ≡ run events (on_action m action r))
unfolding on_action file_report
on_action_unwritten m m' action events r active new unwritable before h =
    let after_ = record r {
      reported_states = prune_states m.now (put_state (state_of action) m.now r.reported_states);
    } in
    let left : on_action m action r ≡ after_ = ground (arith, active, new, unwritable) in
    (
      left,
      subst (λ x. on_action m' action (run events x) ≡ run events x) (sym left)
          (run-on_action_repeated m' action m.now events after_ (put_state-LastReport m action r)
            before h),
    )
