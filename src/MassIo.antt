-- ===== src/MassIo.antt =====
-- detectors/mass_io.py: the detector of mass changes of files. The beginning of a file and its entropy
-- in whole thousandths of a bit are given with the file: `shannon_entropy` itself, a sum of logarithms
-- of floats, is not modelled.
pub mod Tables
pub mod Quiet
pub mod Loss
pub mod Burst
mod Tests
use xodusmile.Prelude.{
  ℕ, ◌+◌, ◌-◌, ◌*◌, ◌/◌, ◌%◌, String, Bool, true, false, not, ◌&&◌, ◌||◌, Option, none, some, List,
  [], ◌∷◌, ◌++◌, ◌==◌, ltb, leb, if◌then◌else◌, any, elem, lookup, insert, lower, contains, length,
  is_empty, same,
}
use xodusmile.Signal.{Signal, Severity, medium, high, int, pos, text, real, second}
use xodusmile.Detector.{emit}
use xodusmile.Deque.{pop_old}
use xodusmile.MassIo.Tables.{
  magic_signatures, target_extensions, native_high_entropy_exts, suspicious_extensions,
  noise_path_fragments, noise_extensions,
}

abbrev pub w_high_entropy_write : ℕ
w_high_entropy_write = 8

abbrev pub w_magic_lost : ℕ
w_magic_lost = 12

abbrev pub w_burst_modify : ℕ
w_burst_modify = 25

abbrev pub w_suspicious_ext : ℕ
w_suspicious_ext = 5

-- In thousandths, as `entropy` is.
abbrev pub entropy_threshold : ℕ
entropy_threshold = 7500

abbrev pub entropy_threshold_boost : ℕ
entropy_threshold_boost = 6800

abbrev pub burst_window : ℕ
burst_window = 10 * second

abbrev pub burst_threshold : ℕ
burst_threshold = 15

abbrev pub canary_boost_window : ℕ
canary_boost_window = 30 * second

-- A file at a look. `head` is its first 4096 bytes, or nothing where it cannot be opened.
pub record Target : Type 0 where
  pub path : String
  pub suffix : String
  pub is_file : Bool
  pub head : Option (List ℕ)
  pub entropy : ℕ

pub record MassIo : Type 0 where
  pub modify_times : List ℕ
  pub last_magic : List (String × String)
  pub canary_tripped_at : ℕ
  pub emitted : List Signal

abbrev pub new_mass_io : MassIo
new_mass_io = record { modify_times = []; last_magic = []; canary_tripped_at = 0; emitted = [] }

-- `data.startswith(sig)`
abbrev pub starts_with : List ℕ → List ℕ → Bool
starts_with bytes [] = true
starts_with [] (b ∷ sig) = false
starts_with (a ∷ bytes) (b ∷ sig) = a == b && starts_with bytes sig

abbrev pub magic_in : List (List ℕ × String) → List ℕ → Option String
magic_in [] bytes = none
magic_in ((sig, label) ∷ rest) bytes =
    if starts_with bytes sig then some label else magic_in rest bytes

unfoldable pub detect_magic : List ℕ → Option String
detect_magic bytes = magic_in magic_signatures bytes

-- `_is_noise`
unfoldable pub is_noise : Target → Bool
is_noise t =
    elem (lower t.suffix) noise_extensions
    || any (λ frag. contains (lower t.path) frag) noise_path_fragments

-- `_count_encryption_event`
unfoldable pub count_encryption_event : ℕ → MassIo → MassIo
count_encryption_event now m = record m { modify_times = m.modify_times ++ now ∷ [] }

-- `_on_engine_signal`
unfoldable pub on_engine_signal : ℕ → Signal → MassIo → MassIo
on_engine_signal now sig m =
    if same sig.detector "canary" then record m { canary_tripped_at = now } else m

-- `_boost_active`
unfoldable pub boost_active : ℕ → MassIo → Bool
boost_active now m = ltb (now - m.canary_tripped_at) canary_boost_window

-- `_entropy_bar`
unfoldable pub entropy_bar : ℕ → MassIo → ℕ
entropy_bar now m = if boost_active now m then entropy_threshold_boost else entropy_threshold

-- `int(round(weight * 1.5))`: a half is rounded to the even number.
abbrev pub boosted : ℕ → ℕ
boosted weight = let q = 3 * weight / 2 in if 3 * weight % 2 == 1 && q % 2 == 1 then q + 1 else q

-- `_w`
unfoldable pub weigh : ℕ → ℕ → MassIo → ℕ
weigh weight now m = if boost_active now m then boosted weight else weight

abbrev pub or_unknown : Option String → String
or_unknown none = "UNKNOWN"
or_unknown (some label) = label

-- `prev_magic and prev_magic != "UNKNOWN"`
abbrev pub known_before : Option String → Bool
known_before none = false
known_before (some label) = not (is_empty label) && not (same label "UNKNOWN")

abbrev pub is_nothing : Option String → Bool
is_nothing none = true
is_nothing (some label) = false

-- Signal 1 of `on_modified`: the magic bytes are gone.
unfoldable pub report_lost : ℕ → Target → Option String → Option String → MassIo → MassIo
unfolding count_encryption_event emit
report_lost now t before magic m =
    let c = count_encryption_event now m in
    if known_before before && is_nothing magic
    then record c {
      emitted =
          emit "mass_io" "magic_bytes_lost" (weigh w_magic_lost now c) high
            (("path", text t.path)
              ∷ ("previous_magic", text (or_unknown before))
              ∷ ("entropy", real t.entropy)
              ∷ [])
            now c.emitted;
    }
    else m

-- Signal 2 of `on_modified`: high entropy in a file that should not have it.
unfoldable pub report_entropy : ℕ → Target → Option String → MassIo → MassIo
unfolding count_encryption_event emit
report_entropy now t magic m =
    let c = count_encryption_event now m in
    if leb (entropy_bar now m) t.entropy
      && is_nothing magic
      && (elem (lower t.suffix) target_extensions
          && not (elem (lower t.suffix) native_high_entropy_exts))
    then record c {
      emitted =
          emit "mass_io" "high_entropy_write" (weigh w_high_entropy_write now c) medium
            (("path", text t.path) ∷ ("entropy", real t.entropy) ∷ []) now c.emitted;
    }
    else m

unfoldable pub on_head : ℕ → Target → Option (List ℕ) → MassIo → MassIo
on_head now t none m = m
on_head now t (some []) m = m
on_head now t (some (b ∷ bytes)) m =
    let magic = detect_magic (b ∷ bytes) in
    let before = lookup t.path m.last_magic in
    report_entropy now t magic (
      report_lost now t before magic
        (record m { last_magic = insert t.path (or_unknown magic) m.last_magic }))

unfoldable pub on_modified : ℕ → Target → MassIo → MassIo
unfolding on_head
on_modified now t m = if not t.is_file || is_noise t then m else on_head now t t.head m

-- `on_moved`, from a path to a file.
unfoldable pub on_moved : ℕ → String → Target → MassIo → MassIo
unfolding count_encryption_event emit
on_moved now src dest m =
    let c = count_encryption_event now m in
    if elem (lower dest.suffix) suspicious_extensions
    then record c {
      emitted =
          emit "mass_io" "suspicious_extension" (weigh (w_suspicious_ext * 3) now c) high
            (("src", text src) ∷ ("dest", text dest.path) ∷ []) now c.emitted;
    }
    else m

-- `_check_burst`
unfoldable pub check_burst : ℕ → MassIo → MassIo
unfolding emit
check_burst now m =
    let times = pop_old (now - burst_window) m.modify_times in
    if leb burst_threshold (length times)
    then record m {
      modify_times = [];
      emitted =
          emit "mass_io" "modify_burst" (weigh w_burst_modify now m) high
            (("count", int (pos (length times))) ∷ ("window_sec", int (pos 10)) ∷ []) now m.emitted;
    }
    else record m { modify_times = times }
