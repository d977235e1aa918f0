-- ===== src/Minifilter/Handling.antt =====
-- The handling of a driver's event: the fan-out, the filters, and the signals.
use xodusmile.Prelude.{
  ℕ, ◌-◌, String, Bool, not, ◌&&◌, ◌||◌, List, [], ◌∷◌, ◌==◌, if◌then◌else◌, any, lower, contains,
  is_empty, first_chars,
}
use xodusmile.Signal.{low, high, int, pos, text}
use xodusmile.Detector.{emit}
use xodusmile.Minifilter.{Event, Bridge, setinfo_rename, setinfo_delete, noisy_paths}
use xodusmile.Minifilter.Kind
use xodusmile.Minifilter.Accounting.{account_write, account_rename}

-- `for sub in subs`: each is called; one that raises is only printed.
unfoldable pub fan_out : List ℕ → Event → Bridge → Bridge
fan_out [] evt b = b
fan_out (sub ∷ subs) evt b =
    fan_out subs evt
      (record b { delivered = record { subscriber = sub; event = evt } ∷ b.delivered })

unfoldable pub emit_tamper : ℕ → Event → Bridge → Bridge
unfolding emit
emit_tamper now evt b = record b {
  emitted =
      emit "minifilter" "tamper_attempt" 50 high
        (("target_pid", int (pos evt.process_id))
          ∷ ("requester_pid", int (pos evt.parent_process_id))
          ∷ ("desired_access", int (pos evt.desired_access))
          ∷ ("stripped", int (pos evt.status))
          ∷ ("subkind", int (pos evt.sub_kind))
          ∷ [])
        now b.emitted;
}

unfoldable pub emit_blocked : ℕ → Event → String → Bridge → Bridge
unfolding emit
emit_blocked now evt path b = record b {
  emitted =
      emit "minifilter" "kernel_blocked_op" 60 high
        (("pid", int (pos evt.process_id))
          ∷ ("path", text path)
          ∷ ("subkind", int (pos evt.sub_kind))
          ∷ [])
        now b.emitted;
}

unfoldable pub emit_delete : ℕ → Event → String → Bridge → Bridge
unfolding emit
emit_delete now evt path b = record b {
  emitted =
      emit "minifilter" "file_delete" 3 low
        (("pid", int (pos evt.process_id)) ∷ ("path", text path) ∷ []) now b.emitted;
}

-- `evt.Path[:max(0, evt.PathLength - 1)] if evt.PathLength else ""`
unfoldable pub event_path : Event → String
event_path evt = if evt.path_length == 0 then "" else first_chars (evt.path_length - 1) evt.path

-- `evt.Extra[:max(0, evt.ExtraLength - 1)] if evt.ExtraLength else ""`, as the subscribers read it.
unfoldable pub event_extra : Event → String
event_extra evt = if evt.extra_length == 0 then "" else first_chars (evt.extra_length - 1) evt.extra

unfoldable pub is_noisy : String → Bool
is_noisy path =
    let path_lower = lower path in
    not (is_empty path) && any (λ noisy. contains path_lower noisy) noisy_paths

abbrev pub note_path : ℕ → String → Bridge → Bridge
note_path pid path b =
    if is_empty path
    then b
    else record b { known_paths = λ q. if pid == q then path else b.known_paths q }

-- The part of `_handle_event` for the events of files, behind the noise filter.
unfoldable pub file_event : ℕ → Event → String → Bridge → Bridge
unfolding emit_blocked emit_delete
file_event now evt path b =
    if evt.kind == Kind.blocked
    then emit_blocked now evt path b
    else if evt.kind == Kind.write
    then account_write now evt.process_id evt.write_bytes path b
    else if evt.kind == Kind.setinfo
    then (if evt.sub_kind == setinfo_rename
        then account_rename now evt.process_id path b
        else if evt.sub_kind == setinfo_delete
        then emit_delete now evt path b
        else b)
    else b

-- `_handle_event`
unfoldable pub handle_event : ℕ → Event → Bridge → Bridge
unfolding emit_tamper file_event
handle_event now evt b =
    if evt.kind == Kind.process_start || evt.kind == Kind.process_exit
    then fan_out b.process_subs evt b
    else if evt.kind == Kind.registry
    then fan_out b.registry_subs evt b
    else if evt.kind == Kind.tamper_blocked
    then emit_tamper now evt (fan_out b.tamper_subs evt b)
    else if evt.process_id == b.own_pid || evt.process_id == 0
    then b
    else (let path = event_path evt in
        let noted = note_path evt.process_id path b in
        if is_noisy path then noted else file_event now evt path noted)
