-- ===== src/Minifilter/Backing.antt =====
-- Counting a write or a rename keeps what the bridge holds, and what it has emitted, backed by the
-- history.
use xodusmile.Prelude.{
  ℕ, ◌-◌, ◌≤◌, ◌≡◌, refl, String, true, false, [], ◌∷◌, some, arith, ◌==◌, ltb, All, All-imp, subst,
  ◌++◌, length, Bool-cases, inl, inr, same, lookup,
}
use xodusmile.Signal.{Signal, int, pos}
use xodusmile.Detector.{emit}
use xodusmile.Minifilter.{
  Event, Bridge, PidIoState, pid_write_burst_bytes, pid_write_burst_window, pid_rename_burst_count,
  pid_rename_burst_window, writes, renames,
}
use xodusmile.Minifilter.Accounting.{
  set_state, set_alerted, account_write, account_rename, write_state, rename_state, alert_write,
  alert_rename, write_signal, rename_signal,
}
use xodusmile.Minifilter.History.{
  History, IsUntil, is_write, is_rename, written, renamed, written-cons, renamed-cons,
  written-earlier,
}
use xodusmile.Minifilter.Windows.{
  Covers, Covers-cons, Covers-write_state, Covers-rename_state, CoversWrites-restart,
  CoversRenames-nil, count_from-expire_same, count_from, IsAscending, IsAscending-snoc,
}

abbrev pub Names : Signal → ℕ → Type 0
Names s pid = lookup "pid" s.metadata ≡ some (int (pos pid))

-- A write burst names a process that wrote 75 MB in the 4 seconds up to the signal, and a rename
-- burst one that renamed 20 files in the 5 seconds up to it.
pub record IsReal (h : History) (s : Signal) : Type 0 where
  pub wrote :
      same s.name "kernel_write_burst" ≡ true
      → (pid : ℕ) × Names s pid
        × (pid_write_burst_bytes ≤ written pid (s.timestamp - pid_write_burst_window) s.timestamp h)
  pub moved :
      same s.name "kernel_rename_burst" ≡ true
      → (pid : ℕ) × Names s pid
        × (pid_rename_burst_count
            ≤ renamed pid (s.timestamp - pid_rename_burst_window) s.timestamp h)

IsReal-cons : (h : History) (x : ℕ × Event) (s : Signal) → IsReal h s → IsReal (x ∷ h) s
IsReal-cons h x s r = record {
  wrote = λ e.
      let (pid, named, le) = r.wrote e in
      (
        pid,
        named,
        omega (arith, le, written-cons pid (s.timestamp - pid_write_burst_window) s.timestamp x h),
      );
  moved = λ e.
      let (pid, named, le) = r.moved e in
      (
        pid,
        named,
        omega (arith, le, renamed-cons pid (s.timestamp - pid_rename_burst_window) s.timestamp x h),
      );
}

pub record Tracks (h : History) (b : Bridge) : Type 0 where
  pub states : (pid : ℕ) → Covers h pid (b.pids pid)
  pub signals : All (IsReal h) b.emitted

pub Tracks-cons : (h : History) (x : ℕ × Event) (b : Bridge) → Tracks h b → Tracks (x ∷ h) b
Tracks-cons h x b t = record {
  states = λ pid. Covers-cons h pid (b.pids pid) x (t.states pid);
  signals = All-imp (IsReal h) (IsReal (x ∷ h)) (λ s r. IsReal-cons h x s r) b.emitted t.signals;
}

-- One process's state is replaced.
Tracks-set_state :
    (h : History) (pid : ℕ) (state : PidIoState) (b : Bridge)
    → Tracks h b
    → Covers h pid state
    → Tracks h (set_state pid state b)
Tracks-set_state h pid state b t c = record {
  states = λ q. elim (Bool-cases (pid == q)) [
    | inl e ↦ let p : pid ≡ q = ground arith in rw e (subst (λ r. Covers h r state) p c)
    | inr e ↦ rw e (t.states q)
  ];
  signals = t.signals;
}

-- A signal of another name is no burst.
pub other_IsReal :
    (h : History) (s : Signal)
    → same s.name "kernel_write_burst" ≡ false
    → same s.name "kernel_rename_burst" ≡ false
    → IsReal h s
other_IsReal h s w r = record { wrote = λ e. cc (w, e); moved = λ e. cc (r, e) }

window_start :
    (now bytes : ℕ) (state : PidIoState)
    → now - pid_write_burst_window ≤ (write_state now bytes state).write_window_start
unfolding write_state
window_start now bytes state = ground arith

write_burst_IsReal :
    (h : History) (now pid : ℕ) (path : String) (state : PidIoState) (b : Bridge)
    → IsUntil now h
    → Covers h pid state
    → now - pid_write_burst_window ≤ state.write_window_start
    → pid_write_burst_bytes ≤ state.write_total
    → All (IsReal h) b.emitted
    → All (IsReal h) (write_signal now pid state.write_total path b)
unfolding write_signal emit lookup
write_burst_IsReal h now pid path state b until_now c start_le many real_so_far = (
  record {
    wrote = λ e. (
      pid,
      refl,
      omega (
        arith,
        c.0.total now until_now,
        written-earlier pid state.write_window_start (now - pid_write_burst_window) now h start_le,
      ),
    );
    moved = λ e. cc e;
  },
  real_so_far,
)

-- All the renames that are left are in the window.
recent_renames :
    (now : ℕ) (state : PidIoState)
    → IsAscending (state.rename_times ++ now ∷ [])
    → count_from (now - pid_rename_burst_window) (rename_state now state).rename_times
      ≡ length (rename_state now state).rename_times
unfolding rename_state
recent_renames now state up =
    count_from-expire_same (now - pid_rename_burst_window) (state.rename_times ++ now ∷ []) up

rename_burst_IsReal :
    (h : History) (now pid : ℕ) (path : String) (state : PidIoState) (b : Bridge)
    → IsUntil now h
    → Covers h pid (rename_state now state)
    → IsAscending (state.rename_times ++ now ∷ [])
    → pid_rename_burst_count ≤ length (rename_state now state).rename_times
    → All (IsReal h) b.emitted
    → All (IsReal h) (rename_signal now pid (length (rename_state now state).rename_times) path b)
unfolding rename_signal emit lookup
rename_burst_IsReal h now pid path state b until_now c up many real_so_far = (
  record {
    wrote = λ e. cc e;
    moved = λ e. (
      pid,
      refl,
      omega (
        arith,
        c.1.counted (now - pid_rename_burst_window) now until_now,
        recent_renames now state up,
      ),
    );
  },
  real_so_far,
)

pub account_write_lem :
    (h : History) (now pid : ℕ) (evt : Event) (path : String) (b : Bridge)
    → IsUntil now h
    → is_write pid evt ≡ true
    → Tracks h b
    → Tracks ((now, evt) ∷ h) (account_write now pid evt.write_bytes path b)
unfolding account_write alert_write
account_write_lem h now pid evt path b until_now is t =
    let self : now ≤ now = omega arith in
    let state = write_state now evt.write_bytes (b.pids pid) in
    let later = Tracks-cons h (now, evt) b t in
    let c = Covers-write_state h pid now evt (b.pids pid) until_now is (t.states pid) in
    let kept = Tracks-set_state ((now, evt) ∷ h) pid state b later c in
    elim (Bool-cases (ltb state.write_total pid_write_burst_bytes)) [
      | inl few ↦ rw few kept
      | inr many ↦
          elim (Bool-cases (ltb (now - b.burst_alerted (writes pid)) pid_write_burst_window)) [
            | inl soon ↦ rw (many, soon) kept
            | inr due ↦
                let signalled =
                  write_burst_IsReal ((now, evt) ∷ h) now pid path state b (self, until_now) c
                    (window_start now evt.write_bytes (b.pids pid)) (ground arith) later.signals in
                rw (many, due)
                  (Tracks-set_state ((now, evt) ∷ h) pid
                    (record state { write_total = 0; write_window_start = now })
                    (record (set_alerted (writes pid) now b) {
                      emitted = write_signal now pid state.write_total path b;
                    })
                    (record { states = later.states; signals = signalled })
                    (CoversWrites-restart h pid now evt, c.1))
          ]
    ]

pub account_rename_lem :
    (h : History) (now pid : ℕ) (evt : Event) (path : String) (b : Bridge)
    → IsUntil now h
    → is_rename pid evt ≡ true
    → Tracks h b
    → Tracks ((now, evt) ∷ h) (account_rename now pid path b)
unfolding account_rename alert_rename
account_rename_lem h now pid evt path b until_now is t =
    let self : now ≤ now = omega arith in
    let state = rename_state now (b.pids pid) in
    let later = Tracks-cons h (now, evt) b t in
    let c = Covers-rename_state h pid now evt (b.pids pid) until_now is (t.states pid) in
    let kept = Tracks-set_state ((now, evt) ∷ h) pid state b later c in
    elim (Bool-cases (ltb (length state.rename_times) pid_rename_burst_count)) [
      | inl few ↦ rw few kept
      | inr many ↦
          elim (Bool-cases (ltb (now - b.burst_alerted (renames pid)) pid_rename_burst_window)) [
            | inl soon ↦ rw (many, soon) kept
            | inr due ↦
                let r = (t.states pid).1 in
                let signalled =
                  rename_burst_IsReal ((now, evt) ∷ h) now pid path (b.pids pid) b (self, until_now)
                    c
                    (IsAscending-snoc now (b.pids pid).rename_times r.ascending
                      (r.until now until_now))
                    (ground arith) later.signals in
                rw (many, due)
                  (Tracks-set_state ((now, evt) ∷ h) pid (record state { rename_times = [] })
                    (record (set_alerted (renames pid) now b) {
                      emitted = rename_signal now pid (length state.rename_times) path b;
                    })
                    (record { states = later.states; signals = signalled })
                    (c.0, CoversRenames-nil ((now, evt) ∷ h) pid))
          ]
    ]
