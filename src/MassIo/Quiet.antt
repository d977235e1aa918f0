-- ===== src/MassIo/Quiet.antt =====
-- Runs of the mass I/O detector on files that keep their kind.
use text.Mathlib.TextEquality.{eq_iff}
use xodusmile.Prelude.{
  ℕ, ◌<◌, String, ◌≡◌, refl, sym, subst, Bool, true, false, not, ◌&&◌, ◌||◌, Option, none, some,
  List, [], ◌∷◌, arith, All, when, elem, lookup, lookup-insert, insert, lower, same,
}
use xodusmile.Signal.{Signal}
use xodusmile.MassIo.Tables.{target_extensions, native_high_entropy_exts, suspicious_extensions}
use xodusmile.MassIo.{
  Target, MassIo, is_noise, new_mass_io, detect_magic, on_modified, on_head, on_moved, check_burst,
  on_engine_signal, or_unknown, known_before, is_nothing, report_lost, report_entropy, entropy_bar,
  entropy_threshold_boost,
}

pub data Event : Type 0 where
  modified : Target → Event
  moved : String → Target → Event
  checked : Event
  signalled : Signal → Event

abbrev pub step : ℕ → Event → MassIo → MassIo
step now (modified t) m = on_modified now t m
step now (moved src dest) m = on_moved now src dest m
step now checked m = check_burst now m
step now (signalled sig) m = on_engine_signal now sig m

abbrev pub run : List (ℕ × Event) → MassIo → MassIo
run [] m = m
run ((now, e) ∷ events) m = run events (step now e m)

-- A file of which high entropy is reported.
abbrev pub is_user_file : Target → Bool
is_user_file t =
    elem (lower t.suffix) target_extensions && not (elem (lower t.suffix) native_high_entropy_exts)

-- The beginning of the file has the magic bytes of the file's kind.
abbrev pub Keeps : Option String → Option (List ℕ) → Type 0
Keeps kind none = Unit {0}
Keeps kind (some []) = Unit {0}
Keeps kind (some (b ∷ bytes)) = detect_magic (b ∷ bytes) ≡ kind

-- An event of ordinary work: a write leaves the file's kind, and a user file without magic bytes has
-- an entropy below 6.8 bits; a rename does not take a suspicious extension.
abbrev pub IsOrdinary : (String → Option String) → ℕ × Event → Type 0
IsOrdinary kind (now, modified t) =
    Keeps (kind t.path) t.head
    × (kind t.path ≡ none → is_user_file t ≡ true → t.entropy < entropy_threshold_boost)
IsOrdinary kind (now, moved src dest) = elem (lower dest.suffix) suspicious_extensions ≡ false
IsOrdinary kind (now, checked) = Unit {0}
IsOrdinary kind (now, signalled sig) = Unit {0}

-- What is remembered of a path is its kind, and nothing was reported.
record IsQuiet (kind : String → Option String) (m : MassIo) : Type 0 where
  kinds : (p label : String) → lookup p m.last_magic ≡ some label → label ≡ or_unknown (kind p)
  uncounted : m.modify_times ≡ []
  silent : m.emitted ≡ []

known_kind :
    (before kind : Option String)
    → ((label : String) → before ≡ some label → label ≡ or_unknown kind)
    → (known_before before && is_nothing kind) ≡ false
known_kind none kind h = refl
known_kind (some label) (some k) h = ground arith
known_kind (some label) none h = ground (arith, h label refl, eq_iff label "UNKNOWN")

report_lost-quiet :
    (now : ℕ) (t : Target) (before magic : Option String) (m : MassIo)
    → (known_before before && is_nothing magic) ≡ false
    → report_lost now t before magic m ≡ m
unfolding report_lost
report_lost-quiet now t before magic m h = simp h refl

report_entropy-quiet :
    (now : ℕ) (t : Target) (kind : Option String) (m : MassIo)
    → (kind ≡ none → is_user_file t ≡ true → t.entropy < entropy_threshold_boost)
    → report_entropy now t kind m ≡ m
unfolding report_entropy entropy_bar
report_entropy-quiet now t (some k) m low = ground arith
report_entropy-quiet now t none m low = ground (arith, low refl)

on_head-IsQuiet :
    (kind : String → Option String) (now : ℕ) (t : Target) (head : Option (List ℕ)) (m : MassIo)
    → Keeps (kind t.path) head
    → (kind t.path ≡ none → is_user_file t ≡ true → t.entropy < entropy_threshold_boost)
    → IsQuiet kind m
    → IsQuiet kind (on_head now t head m)
unfolding on_head
on_head-IsQuiet kind now t none m keeps low q = q
on_head-IsQuiet kind now t (some []) m keeps low q = q
on_head-IsQuiet kind now t (some (b ∷ bytes)) m keeps low q =
    subst
      (λ magic.
        IsQuiet kind (report_entropy now t magic (report_lost now t before magic (remember magic))))
      (sym keeps)
      (subst (λ x. IsQuiet kind (report_entropy now t (kind t.path) x))
        (sym (
          report_lost-quiet now t before (kind t.path) (remember (kind t.path))
            (known_kind before (kind t.path) (q.kinds t.path))))
        (subst (IsQuiet kind)
          (sym (report_entropy-quiet now t (kind t.path) (remember (kind t.path)) low))
          (record { kinds = remembered; uncounted = q.uncounted; silent = q.silent })))
  where
    before : Option String
    before = lookup t.path m.last_magic

    remember : Option String → MassIo
    remember magic = record m { last_magic = insert t.path (or_unknown magic) m.last_magic }

    remembered :
        (p label : String)
        → lookup p (insert t.path (or_unknown (kind t.path)) m.last_magic) ≡ some label
        → label ≡ or_unknown (kind p)
    remembered p label h = ground (
      arith,
      lookup-insert t.path p (or_unknown (kind t.path)) m.last_magic,
      eq_iff t.path p,
      q.kinds p label,
      h,
    )

on_moved-plain :
    (now : ℕ) (src : String) (dest : Target) (m : MassIo)
    → elem (lower dest.suffix) suspicious_extensions ≡ false
    → on_moved now src dest m ≡ m
unfolding on_moved
on_moved-plain now src dest m h = simp h refl

step-IsQuiet :
    (kind : String → Option String) (now : ℕ) (e : Event) (m : MassIo)
    → IsOrdinary kind (now, e)
    → IsQuiet kind m
    → IsQuiet kind (step now e m)
unfolding on_modified check_burst on_engine_signal
step-IsQuiet kind now (modified t) m (keeps, low) q =
    when (IsQuiet kind) (not t.is_file || is_noise t) (λ _. q)
      (λ _. on_head-IsQuiet kind now t t.head m keeps low q)
step-IsQuiet kind now (moved src dest) m plain q =
    subst (IsQuiet kind) (sym (on_moved-plain now src dest m plain)) q
step-IsQuiet kind now checked m _ q = ground (arith, q.kinds)
step-IsQuiet kind now (signalled sig) m _ q =
    when (IsQuiet kind) (same sig.detector "canary")
      (λ _. record { kinds = q.kinds; uncounted = q.uncounted; silent = q.silent }) (λ _. q)

run-IsQuiet :
    (kind : String → Option String) (events : List (ℕ × Event)) (m : MassIo)
    → All (IsOrdinary kind) events
    → IsQuiet kind m
    → IsQuiet kind (run events m)
run-IsQuiet kind [] m _ q = q
run-IsQuiet kind ((now, e) ∷ events) m (o, os) q =
    run-IsQuiet kind events (step now e m) os (step-IsQuiet kind now e m o q)

-- However many files are written, at whatever rate and whether or not a canary was tripped: while
-- each write leaves the kind of its file, user files without magic bytes stay below 6.8 bits of
-- entropy and no file is renamed to a suspicious extension, the detector raises no signal and counts
-- no event towards a burst.
pub run_ordinary :
    (kind : String → Option String) (events : List (ℕ × Event))
    → All (IsOrdinary kind) events
    → ((run events new_mass_io).emitted ≡ []) × ((run events new_mass_io).modify_times ≡ [])
unfolding lookup
run_ordinary kind events os =
    let q =
      run-IsQuiet kind events new_mass_io os
        (record { kinds = λ p label h. ground (arith, h); uncounted = refl; silent = refl }) in
    (q.silent, q.uncounted)
