-- ===== src/MassIo/Loss.antt =====
-- What the mass I/O detector says of a file that loses its magic bytes.
use text.Mathlib.TextEquality.{eq_iff}
use xodusmile.Prelude.{
  when, ℕ, suc, ◌+◌, ◌≤◌, ◌<◌, String, ◌≡◌, ◌≢◌, refl, ap, sym, ◌∙◌, subst, true, false, not, ◌&&◌,
  ◌||◌, Option, none, some, List, [], ◌∷◌, arith, leb, All, lookup, lookup-insert, insert, same,
  is_empty, if◌then◌else◌, length, length-append,
}
use xodusmile.Signal.{Signal}
use xodusmile.Detector.{emit}
use xodusmile.MassIo.Tables.{magic_signatures}
use xodusmile.MassIo.{
  Target, MassIo, detect_magic, magic_in, on_modified, on_head, on_moved, check_burst,
  on_engine_signal, or_unknown, known_before, report_lost, report_entropy, count_encryption_event,
  is_noise, weigh, w_magic_lost,
}
use xodusmile.MassIo.Quiet.{Event, modified, moved, checked, signalled, step, run}

-- The signals of lost magic bytes, of at least the plain weight.
abbrev pub losses : List Signal → ℕ
losses [] = 0
losses (s ∷ rest) =
    let n = losses rest in
    if same s.name "magic_bytes_lost" && leb w_magic_lost s.weight then 1 + n else n

-- An event that is no write of the path.
abbrev pub Avoids : String → ℕ × Event → Type 0
Avoids path (now, modified t) = t.path ≢ path
Avoids path (now, moved src dest) = Unit {0}
Avoids path (now, checked) = Unit {0}
Avoids path (now, signalled sig) = Unit {0}

abbrev AllKnown : List (List ℕ × String) → Type 0
AllKnown = All (λ (x : List ℕ × String). known_before (some x.1) ≡ true)

magic_in-known :
    (table : List (List ℕ × String)) (bytes : List ℕ) (label : String)
    → AllKnown table
    → magic_in table bytes ≡ some label
    → known_before (some label) ≡ true
magic_in-known [] bytes label _ h = ground arith
magic_in-known ((sig, l) ∷ table) bytes label (k, ks) h =
    ground (arith, magic_in-known table bytes label ks, k, h)

detect_magic-known :
    (bytes : List ℕ) (label : String)
    → detect_magic bytes ≡ some label
    → known_before (some label) ≡ true
unfolding detect_magic is_empty
detect_magic-known bytes label h =
    magic_in-known magic_signatures bytes label
      (refl, (refl, (refl, (refl, (refl, (refl, (refl, (refl, (refl, (refl, tt)))))))))) h

report-last_magic :
    (now : ℕ) (t : Target) (before magic : Option String) (m : MassIo)
    → (report_entropy now t magic (report_lost now t before magic m)).last_magic ≡ m.last_magic
unfolding report_entropy report_lost count_encryption_event
report-last_magic now t before magic m = ground arith

on_head-other :
    (path : String) (now : ℕ) (t : Target) (head : Option (List ℕ)) (m : MassIo)
    → t.path ≢ path
    → lookup path (on_head now t head m).last_magic ≡ lookup path m.last_magic
unfolding on_head
on_head-other path now t none m off = refl
on_head-other path now t (some []) m off = refl
on_head-other path now t (some (b ∷ bytes)) m off =
    ap (lookup path) (
      report-last_magic now t (lookup t.path m.last_magic) (detect_magic (b ∷ bytes)) (record m {
        last_magic = insert t.path (or_unknown (detect_magic (b ∷ bytes))) m.last_magic;
      }))
    ∙ lookup-insert t.path path (or_unknown (detect_magic (b ∷ bytes))) m.last_magic
    ∙ ground (arith, eq_iff t.path path, off)

on_head-own :
    (now : ℕ) (t : Target) (b : ℕ) (bytes : List ℕ) (m : MassIo)
    → lookup t.path (on_head now t (some (b ∷ bytes)) m).last_magic
      ≡ some (or_unknown (detect_magic (b ∷ bytes)))
unfolding on_head
on_head-own now t b bytes m =
    ap (lookup t.path) (
      report-last_magic now t (lookup t.path m.last_magic) (detect_magic (b ∷ bytes)) (record m {
        last_magic = insert t.path (or_unknown (detect_magic (b ∷ bytes))) m.last_magic;
      }))
    ∙ lookup-insert t.path t.path (or_unknown (detect_magic (b ∷ bytes))) m.last_magic
    ∙ ground (arith, eq_iff t.path t.path)

step-Avoids :
    (path : String) (now : ℕ) (e : Event) (m : MassIo)
    → Avoids path (now, e)
    → lookup path (step now e m).last_magic ≡ lookup path m.last_magic
unfolding on_modified on_moved check_burst on_engine_signal count_encryption_event
step-Avoids path now (modified t) m off =
    when (λ (x : MassIo). lookup path x.last_magic ≡ lookup path m.last_magic)
      (not t.is_file || is_noise t) (λ _. refl) (λ _. on_head-other path now t t.head m off)
step-Avoids path now (moved src dest) m off = ground arith
step-Avoids path now checked m off = ground arith
step-Avoids path now (signalled sig) m off = ground arith

run-Avoids :
    (path : String) (events : List (ℕ × Event)) (m : MassIo)
    → All (Avoids path) events
    → lookup path (run events m).last_magic ≡ lookup path m.last_magic
run-Avoids path [] m _ = refl
run-Avoids path ((now, e) ∷ events) m (o, os) =
    run-Avoids path events (step now e m) os ∙ step-Avoids path now e m o

-- A file that the detector looks at.
abbrev pub IsSeen : Target → List ℕ → Type 0
IsSeen t bytes = (t.is_file ≡ true) × (is_noise t ≡ false) × (t.head ≡ some bytes)

on_modified-IsSeen :
    (now : ℕ) (t : Target) (bytes : List ℕ) (m : MassIo)
    → IsSeen t bytes
    → on_modified now t m ≡ on_head now t (some bytes) m
unfolding on_modified
on_modified-IsSeen now t bytes m (file, quiet, head) = simp (file, quiet, head) refl

-- Both counts after a state and before it.
abbrev OneMore : MassIo → MassIo → Type 0
OneMore m m' =
    (losses m'.emitted ≡ suc (losses m.emitted)) × (length m.modify_times < length m'.modify_times)

report_lost-OneMore :
    (now : ℕ) (t : Target) (label : String) (m : MassIo)
    → known_before (some label) ≡ true
    → OneMore m (report_lost now t (some label) none m)
unfolding report_lost count_encryption_event emit weigh
report_lost-OneMore now t label m h = ground (arith, h, length-append m.modify_times (now ∷ []))

report_entropy-losses :
    (now : ℕ) (t : Target) (magic : Option String) (m : MassIo)
    → (losses (report_entropy now t magic m).emitted ≡ losses m.emitted)
      × (length m.modify_times ≤ length (report_entropy now t magic m).modify_times)
unfolding report_entropy count_encryption_event emit
report_entropy-losses now t magic m = ground (arith, length-append m.modify_times (now ∷ []))

on_head-OneMore :
    (now : ℕ) (t : Target) (b : ℕ) (bytes : List ℕ) (label : String) (m : MassIo)
    → lookup t.path m.last_magic ≡ some label
    → known_before (some label) ≡ true
    → detect_magic (b ∷ bytes) ≡ none
    → OneMore m (on_head now t (some (b ∷ bytes)) m)
unfolding on_head
on_head-OneMore now t b bytes label m before known gone =
    let r = record m { last_magic = insert t.path (or_unknown none) m.last_magic } in
    let lost = report_lost-OneMore now t label r known in
    let more = report_entropy-losses now t none (report_lost now t (some label) none r) in
    simp (before, gone) (more.0 ∙ lost.0, omega (arith, more.1, lost.1))

-- A file is written with known magic bytes and later written with none; at both times it is readable and
-- not empty, and neither its path nor its extension is one that the detector passes over as noise. Whatever
-- happens to other files in between, with any number of checks and canaries, the second write raises one more signal of lost
-- magic bytes, of a weight of at least 12, and counts towards a burst.
pub run_lost :
    (now : ℕ) (t : Target) (b : ℕ) (bytes : List ℕ) (label : String) (m : MassIo)
    (events : List (ℕ × Event)) (now' : ℕ) (t' : Target) (b' : ℕ) (bytes' : List ℕ)
    → IsSeen t (b ∷ bytes)
    → detect_magic (b ∷ bytes) ≡ some label
    → All (Avoids t.path) events
    → t'.path ≡ t.path
    → IsSeen t' (b' ∷ bytes')
    → detect_magic (b' ∷ bytes') ≡ none
    → (losses (on_modified now' t' (run events (on_modified now t m))).emitted
        ≡ suc (losses (run events (on_modified now t m)).emitted))
      × (length (run events (on_modified now t m)).modify_times
          < length (on_modified now' t' (run events (on_modified now t m))).modify_times)
run_lost now t b bytes label m events now' t' b' bytes' seen kind off same_path seen' gone =
    let m' = run events (on_modified now t m) in
    let known = detect_magic-known (b ∷ bytes) label kind in
    let before =
      ap (λ p. lookup p m'.last_magic) same_path
      ∙ run-Avoids t.path events (on_modified now t m) off
      ∙ ap (λ (x : MassIo). lookup t.path x.last_magic)
          (on_modified-IsSeen now t (b ∷ bytes) m seen)
      ∙ on_head-own now t b bytes m
      ∙ ap (λ k. some (or_unknown k)) kind in
    subst (OneMore m') (sym (on_modified-IsSeen now' t' (b' ∷ bytes') m' seen'))
      (on_head-OneMore now' t' b' bytes' label m' before known gone)
