-- ===== src/CommandLine.antt =====
-- detectors/process_cmdline.py and detectors/process_kernel.py: the rules on command lines, and the two
-- detectors that apply them. What `re` finds is an argument.
pub mod Rules
pub mod Sources
mod Tests
use xodusmile.Prelude.{
  ℕ, ◌+◌, String, Bool, true, false, Option, none, some, List, [], ◌∷◌, ◌==◌, ◌||◌, if◌then◌else◌,
  length, is_empty, first_chars,
}
use xodusmile.Signal.{Signal, Severity, info, Metadata, text, int, pos}
use xodusmile.Detector.{emit}
use xodusmile.CommandLine.Rules.{Rule, rules}

-- `rule.pattern.search(cmdline)`
abbrev pub Search : Type 0
Search = String → String → Bool

-- A process as the detectors see it. A PID that is `None` has no entry in the metadata, where a lookup
-- finds the same.
pub record Process : Type 0 where
  pub name : String
  pub cmdline : String
  pub pid : Option ℕ
  pub ppid : Option ℕ

abbrev pub pid_entry : String → Option ℕ → Metadata → Metadata
pid_entry key none m = m
pid_entry key (some pid) m = (key, int (pos pid)) ∷ m

unfoldable pub rule_signal : String → Process → ℕ → ℕ → Rule → Signal
rule_signal detector p now ident r = record {
  ident = ident;
  detector = detector;
  name = r.name;
  weight = r.weight;
  severity = r.severity;
  metadata =
      ("process", text p.name)
      ∷ ("cmdline", text (first_chars 512 p.cmdline))
      ∷ pid_entry "pid" p.pid (pid_entry "ppid" p.ppid []);
  timestamp = now;
}

-- The loop of `evaluate_cmdline`. The new objects are numbered from `base` on.
unfoldable pub evaluate_in : Search → String → Process → ℕ → ℕ → List Rule → List Signal
evaluate_in search detector p now base [] = []
evaluate_in search detector p now base (r ∷ rs) =
    let rest = evaluate_in search detector p now base rs in
    if search r.pattern p.cmdline
    then rule_signal detector p now (base + length rest) r ∷ rest
    else rest

unfoldable pub evaluate_cmdline : Search → String → Process → ℕ → ℕ → List Signal
evaluate_cmdline search detector p now base =
    if is_empty p.cmdline then [] else evaluate_in search detector p now base rules

-- Emits the signals in their order; the newest one is in front.
abbrev pub emit_all : List Signal → List Signal → List Signal
emit_all [] emitted = emitted
emit_all (s ∷ ss) emitted = emit_all ss (s ∷ emitted)

-- `ProcessCmdlineDetector._evaluate`
unfoldable pub evaluate : Search → Process → ℕ → List Signal → List Signal
evaluate search p now emitted =
    emit_all (evaluate_cmdline search "process_cmdline" p now (length emitted)) emitted

-- An event of the driver. `image` and `cmdline` are the texts without their last character, the end
-- mark, and `image_name` is the last part of the image's path.
pub record ProcessEvent : Type 0 where
  pub kind : ℕ
  pub pid : ℕ
  pub ppid : ℕ
  pub image : String
  pub image_name : String
  pub cmdline : String

abbrev pub process_of : ProcessEvent → Process
process_of evt = record {
  name = evt.image_name;
  cmdline = evt.cmdline;
  pid = some evt.pid;
  ppid = some evt.ppid;
}

-- `ProcessKernelDetector._on_process_event`
unfoldable pub on_process_event : Search → ℕ → ProcessEvent → List Signal → List Signal
unfolding emit
on_process_event search now evt emitted =
    if evt.pid == 0 || evt.kind == 6
    then emitted
    else emit "process_kernel" "process_create" 1 info
        (("pid", int (pos evt.pid))
          ∷ ("ppid", int (pos evt.ppid))
          ∷ ("image", text evt.image)
          ∷ ("cmdline", text (first_chars 512 evt.cmdline))
          ∷ [])
        now
        (emit_all (evaluate_cmdline search "process_kernel" (process_of evt) now (length emitted))
          emitted)
