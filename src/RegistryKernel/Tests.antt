-- ===== src/RegistryKernel/Tests.antt =====
-- The registry detector's theorems at concrete inputs.
use Prim.Native.String.{◌++◌}
use xodusmile.Prelude.{
  String, ◌≡◌, refl, false, [], lower, contains, begins_with, first_chars, is_empty, length, lookup,
  elem,
}
use xodusmile.Detector.{emit}
use xodusmile.Minifilter.{Event}
use xodusmile.Minifilter.Kind
use xodusmile.Minifilter.Handling.{event_path, event_extra}
use xodusmile.RegistryKernel.{classify, classify_in, is_benign, report, on_event}
use xodusmile.RegistryKernel.Laws.{own_needle}

program : Unit {0}
unfolding classify classify_in is_benign on_event report event_path event_extra emit lower contains
    begins_with first_chars is_empty lookup elem
program = tt

abbrev event : String → String → Event
event key value = record {
  kind = Kind.registry;
  sub_kind = 1;
  process_id = 42;
  parent_process_id = 7;
  status = 0;
  desired_access = 0;
  write_bytes = 0;
  path_length = 200;
  extra_length = 50;
  path = key;
  extra = value;
}

abbrev own : Event
own = event "\\REGISTRY\\MACHINE\\SYSTEM\\CurrentControlSet\\Services\\RansomGuardAgent" "Start"

-- The input switcher's value is dropped, another one is not.
on_event_run :
    (length (on_event 5 (event "\\CurrentVersion\\Run" "Internat.exe") []) ≡ 0)
    × (length (on_event 5 (event "\\CurrentVersion\\Run" "UpdateTask") []) ≡ 1)
unfolding program
on_event_run = (refl, refl)

own_key : is_empty (event_path own) ≡ false
unfolding program
own_key = refl

own-lower : lower (event_path own) ≡ "\\registry\\machine" ++ (own_needle ++ "agent")
unfolding program
own-lower = refl
