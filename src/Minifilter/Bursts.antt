-- ===== src/Minifilter/Bursts.antt =====
-- A burst signal of the bridge is backed by what the process did in the window before it.
use xodusmile.Prelude.{
  ℕ, refl, String, ◌||◌, List, [], ◌∷◌, arith, ◌==◌, All, Bool-cases, inl, inr, is_empty,
}
use xodusmile.Detector.{emit}
use xodusmile.Minifilter.{Event, Bridge, setinfo_rename, setinfo_delete, new_bridge}
use xodusmile.Minifilter.Kind
use xodusmile.Minifilter.Handling.{
  handle_event, fan_out, file_event, event_path, is_noisy, note_path, emit_tamper, emit_blocked,
  emit_delete,
}
use xodusmile.Minifilter.History.{History, handle_all, IsUntil, IsTimed}
use xodusmile.Minifilter.Windows.{CoversRenames-nil}
use xodusmile.Minifilter.Backing.{
  IsReal, Tracks, Tracks-cons, account_write_lem, account_rename_lem, other_IsReal,
}

fan_out_lem :
    (h : History) (subs : List ℕ) (evt : Event) (b : Bridge)
    → Tracks h b
    → Tracks h (fan_out subs evt b)
unfolding fan_out
fan_out_lem h [] evt b t = t
fan_out_lem h (sub ∷ subs) evt b t =
    fan_out_lem h subs evt _ (record { states = t.states; signals = t.signals })

file_event_lem :
    (h : History) (now : ℕ) (evt : Event) (path : String) (b : Bridge)
    → IsUntil now h
    → Tracks h b
    → Tracks ((now, evt) ∷ h) (file_event now evt path b)
unfolding file_event emit_blocked emit_delete emit
file_event_lem h now evt path b until_now t =
    let later = Tracks-cons h (now, evt) b t in
    elim (Bool-cases (evt.kind == Kind.blocked)) [
      | inl e ↦
          rw e (record {
            states = later.states;
            signals = (other_IsReal _ _ refl refl, later.signals);
          })
      | inr e ↦ elim (Bool-cases (evt.kind == Kind.write)) [
        | inl w ↦
            rw (e, w) (account_write_lem h now evt.process_id evt path b until_now (ground arith) t)
        | inr w ↦ elim (Bool-cases (evt.kind == Kind.setinfo)) [
          | inl s ↦ elim (Bool-cases (evt.sub_kind == setinfo_rename)) [
            | inl r ↦
                rw (e, w, s, r)
                  (account_rename_lem h now evt.process_id evt path b until_now (ground arith) t)
            | inr r ↦ elim (Bool-cases (evt.sub_kind == setinfo_delete)) [
              | inl d ↦
                  rw (e, w, s, r, d)
                    (record {
                      states = later.states;
                      signals = (other_IsReal _ _ refl refl, later.signals);
                    })
              | inr d ↦ rw (e, w, s, r, d) later
            ]
          ]
          | inr s ↦ rw (e, w, s) later
        ]
      ]
    ]

note_path_lem :
    (h : History) (pid : ℕ) (path : String) (b : Bridge)
    → Tracks h b
    → Tracks h (note_path pid path b)
note_path_lem h pid path b t = elim (Bool-cases (is_empty path)) [
  | inl e ↦ rw e t
  | inr e ↦ rw e (record { states = t.states; signals = t.signals })
]

handle_event_lem :
    (h : History) (now : ℕ) (evt : Event) (b : Bridge)
    → IsUntil now h
    → Tracks h b
    → Tracks ((now, evt) ∷ h) (handle_event now evt b)
unfolding handle_event emit_tamper emit
handle_event_lem h now evt b until_now t =
    let later = Tracks-cons h (now, evt) b t in
    let path = event_path evt in
    let noted = note_path evt.process_id path b in
    elim (Bool-cases (evt.kind == Kind.process_start || evt.kind == Kind.process_exit)) [
      | inl p ↦ rw p (fan_out_lem _ b.process_subs evt b later)
      | inr p ↦ elim (Bool-cases (evt.kind == Kind.registry)) [
        | inl r ↦ rw (p, r) (fan_out_lem _ b.registry_subs evt b later)
        | inr r ↦ elim (Bool-cases (evt.kind == Kind.tamper_blocked)) [
          | inl a ↦
              let told = fan_out_lem _ b.tamper_subs evt b later in
              rw (p, r, a)
                (record {
                  states = told.states;
                  signals = (other_IsReal _ _ refl refl, told.signals);
                })
          | inr a ↦ elim (Bool-cases (evt.process_id == b.own_pid || evt.process_id == 0)) [
            | inl self ↦ rw (p, r, a, self) later
            | inr others ↦ elim (Bool-cases (is_noisy path)) [
              | inl n ↦ rw (p, r, a, others, n) (note_path_lem _ evt.process_id path b later)
              | inr n ↦
                  rw (p, r, a, others, n)
                    (file_event_lem h now evt path noted until_now
                      (note_path_lem h evt.process_id path b t))
            ]
          ]
        ]
      ]
    ]

new_bridge-Tracks : (own_pid : ℕ) → Tracks [] (new_bridge own_pid)
new_bridge-Tracks own_pid = record {
  states = λ pid. (
    record { total = λ to u. omega arith; started = λ to u. omega arith },
    CoversRenames-nil [] pid,
  );
  signals = tt;
}

handle_all-Tracks :
    (own_pid : ℕ) (h : History) → IsTimed h → Tracks h (handle_all h (new_bridge own_pid))
handle_all-Tracks own_pid [] timed = new_bridge-Tracks own_pid
handle_all-Tracks own_pid ((now, evt) ∷ h) timed =
    handle_event_lem h now evt (handle_all h (new_bridge own_pid)) timed.0
      (handle_all-Tracks own_pid h timed.1)

-- After any history of driver events whose times do not go back, every burst signal that the bridge
-- has emitted is real: a write burst names a process that wrote at least 75 MB in the 4 seconds up
-- to the signal, and a rename burst one that renamed at least 20 files in the 5 seconds up to it.
pub handle_all-IsReal :
    (own_pid : ℕ) (h : History)
    → IsTimed h
    → All (IsReal h) (handle_all h (new_bridge own_pid)).emitted
handle_all-IsReal own_pid h timed = (handle_all-Tracks own_pid h timed).signals
