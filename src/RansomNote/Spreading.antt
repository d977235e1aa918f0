-- ===== src/RansomNote/Spreading.antt =====
-- What it takes to raise a CRITICAL signal of a ransom note, over whole runs of the detector.
use text.Mathlib.TextEquality.{eq_iff}
use xodusmile.Prelude.{
  when, ℕ, ◌≤◌, ◌<◌, String, ◌≡◌, ◌⊎◌, refl, Bool, true, false, Option, none, some, List, [], ◌∷◌,
  ◌||◌, arith, if◌then◌else◌, lower, length, elem, not, inl, inr, ap, ◌∙◌,
}
use xodusmile.Signal.{Signal}
use xodusmile.Detector.{emit}
use xodusmile.Scoring.{Engine, recent_signals}
use xodusmile.RansomNote.Corroboration.{Corroborated, corroborated}
use xodusmile.RansomNote.Backing.{
  Dirs, criticals, In, IsBacked, ThreeApart, IsBacked-more, keep-IsBacked, handle_note-IsBacked,
  ThreeApart-count,
}
use xodusmile.RansomNote.{
  Search, File, NoteDetector, ContentVerdict, new_detector, analyze_note_content, count_confirmed,
  spread_signal, single_signal, handle_note, consider_path, is_ransom_note_name, consider_body,
  note_seen, is_candidate, note_extensions, on_engine_signal, prune, boost_active,
  external_encryption_active,
}

abbrev body_is_note : Search → Option String → Bool
body_is_note search none = false
body_is_note search (some body) = (analyze_note_content search body).confirmed

-- The text of the file is a note by its content.
abbrev pub is_note : Search → File → Bool
is_note search file = body_is_note search file.body

abbrev pub noted : Search → File → List File → List File
noted search file notes = if is_note search file then file ∷ notes else notes

-- One step of a run; the list of the notes that were looked at, as far as their content is confirmed.
pub data Step (search : Search) : List File × NoteDetector → List File × NoteDetector → Type 0 where
  looked :
      (now : ℕ) (initial : Bool) (file : File) (e : Engine) (notes : List File) (d : NoteDetector)
      → Step search
          (notes, d)
          (noted search file notes, (consider_path search now initial file e d).1)
  signalled :
      (now : ℕ) (sig : Signal) (notes : List File) (d : NoteDetector)
      → Step search (notes, d) (notes, on_engine_signal now sig d)
  pruned :
      (now : ℕ) (notes : List File) (d : NoteDetector) → Step search (notes, d) (notes, prune now d)

pub data Reach (search : Search) : List File × NoteDetector → Type 0 where
  start : Reach search ([], new_detector)
  next : {s t : List File × NoteDetector} → Reach search s → Step search s t → Reach search t

-- What a CRITICAL signal of the handling takes.
handle_note-critical :
    (now : ℕ) (file : File) (content : ContentVerdict) (e : Engine) (d : NoteDetector)
    → criticals d.emitted < criticals (handle_note now file content e d).1.emitted
    → (3 ≤ count_confirmed (handle_note now file content e d).1.recent_dirs)
      ⊎ (((external_encryption_active now e).1 ≡ true)
          × (3 ≤ length (handle_note now file content e d).1.recent_dirs))
      ⊎ (boost_active now d ≡ true)
unfolding handle_note spread_signal single_signal emit
handle_note-critical now file content e d h = ground arith

IsBacked-noted :
    (search : Search) (file : File) (notes : List File) (d : Dirs)
    → IsBacked notes d
    → IsBacked (noted search file notes) d
IsBacked-noted search file notes d b =
    when (λ ns. IsBacked ns d) (is_note search file) (λ _. IsBacked-more file notes d b) (λ _. b)

-- What holds of a file that is passed over, of one that is only noted and of a note that is handled,
-- holds of each look.
consider_path-cases :
    (P : Engine × NoteDetector → Type 0) (search : Search) (now : ℕ) (initial : Bool) (file : File)
    (e : Engine) (d : NoteDetector)
    → P (e, d)
    → P (e, note_seen (lower file.path) d)
    → ((body : String)
        → file.body ≡ some body
        → P (
            handle_note now file
              (analyze_note_content search body)
              e
              (note_seen (lower file.path) d)))
    → P (consider_path search now initial file e d)
unfolding consider_path consider_body
consider_path-cases P search now initial file e d passed only_noted handled =
    when P (elem (lower file.path) d.seen_notes) (λ _. passed)
      (λ _.
        when P (not (elem (lower file.suffix) note_extensions)) (λ _. passed)
          (λ _. when P (not (is_candidate file.status)) (λ _. passed) (λ _. read file.body refl)))
  where
    read :
        (body : Option String)
        → file.body ≡ body
        → P (consider_body search now initial file body e d)
    read none eq = passed
    read (some body) eq =
        when P
          (not
            (is_ransom_note_name search file.name || (analyze_note_content search body).confirmed))
          (λ _. passed) (λ _. when P initial (λ _. only_noted) (λ _. handled body eq))

In-noted :
    (search : Search) (file : File) (notes : List File) (body : String)
    → file.body ≡ some body
    → (analyze_note_content search body).confirmed ≡ true
    → In file (noted search file notes)
In-noted search file notes body eq h =
    when (In file) (is_note search file) (λ _. inl refl) (λ out. ground (arith, h, out, eq))

consider_path-IsBacked :
    (search : Search) (now : ℕ) (initial : Bool) (file : File) (e : Engine) (d : NoteDetector)
    (notes : List File)
    → IsBacked notes d.recent_dirs
    → IsBacked (noted search file notes) (consider_path search now initial file e d).1.recent_dirs
unfolding note_seen
consider_path-IsBacked search now initial file e d notes b =
    let stays = IsBacked-noted search file notes d.recent_dirs b in
    consider_path-cases (λ r. IsBacked (noted search file notes) r.1.recent_dirs) search now initial
      file e d stays stays
      (λ body eq.
        handle_note-IsBacked now file (analyze_note_content search body) e
          (note_seen (lower file.path) d) (noted search file notes) stays
          (In-noted search file notes body eq))

Reach-IsBacked :
    (search : Search) (s : List File × NoteDetector) → Reach search s → IsBacked s.0 s.1.recent_dirs
unfolding on_engine_signal prune
Reach-IsBacked search _ start = tt
Reach-IsBacked search _ (next r (looked now initial file e notes d)) =
    consider_path-IsBacked search now initial file e d notes (Reach-IsBacked search (notes, d) r)
Reach-IsBacked search _ (next r (signalled now sig notes d)) =
    when (λ (x : NoteDetector). IsBacked notes x.recent_dirs) (elem sig.detector ("canary" ∷ []))
      (λ _. Reach-IsBacked search (notes, d) r) (λ _. Reach-IsBacked search (notes, d) r)
Reach-IsBacked search _ (next r (pruned now notes d)) =
    keep-IsBacked notes _ d.recent_dirs (Reach-IsBacked search (notes, d) r)

abbrev Raises : ℕ → Engine → NoteDetector → Engine × NoteDetector → Type 0
Raises now e d r =
    criticals d.emitted < criticals r.1.emitted
    → (3 ≤ count_confirmed r.1.recent_dirs)
      ⊎ (((external_encryption_active now e).1 ≡ true) × (3 ≤ length r.1.recent_dirs))
      ⊎ (boost_active now d ≡ true)

consider_path-Raises :
    (search : Search) (now : ℕ) (initial : Bool) (file : File) (e : Engine) (d : NoteDetector)
    → Raises now e d (consider_path search now initial file e d)
unfolding note_seen boost_active
consider_path-Raises search now initial file e d =
    consider_path-cases (Raises now e d) search now initial file e d (λ h. omega (arith, h))
      (λ h. omega (arith, h))
      (λ body eq h.
        handle_note-critical now file (analyze_note_content search body) e
          (note_seen (lower file.path) d) h)

-- A look that raises a CRITICAL signal, in a state that a run reaches, either has seen notes that
-- their content confirms in three different directories, or finds, among the last 120 signals of
-- the engine's window, an encryption signal of another kind and of an untrusted actor while the recent
-- notes stand in three directories or more, or comes within 30 seconds of the time that is noted for
-- the last canary signal.
pub consider_path-critical :
    (search : Search) (now : ℕ) (initial : Bool) (file : File) (e : Engine) (notes : List File)
    (d : NoteDetector)
    → Reach search (notes, d)
    → criticals d.emitted < criticals (consider_path search now initial file e d).1.emitted
    → ThreeApart (noted search file notes)
      ⊎ (Corroborated (recent_signals now 120 e).1
          × (3 ≤ length (consider_path search now initial file e d).1.recent_dirs))
      ⊎ (boost_active now d ≡ true)
consider_path-critical search now initial file e notes d r h =
    elim (consider_path-Raises search now initial file e d h) [
      | inl three ↦ inl (
          ThreeApart-count (noted search file notes)
            (consider_path search now initial file e d).1.recent_dirs
            (consider_path-IsBacked search now initial file e d notes
              (Reach-IsBacked search (notes, d) r))
            three)
      | inr others ↦ elim others [
        | inl (outside, spread) ↦ inr (inl (corroborated now e outside, spread))
        | inr boost ↦ inr (inr boost)
      ]
    ]

abbrev NotesPath : File → NoteDetector → Engine × NoteDetector → Type 0
NotesPath file d r =
    length d.emitted < length r.1.emitted → elem (lower file.path) r.1.seen_notes ≡ true

elem-note_seen : (key : String) (d : NoteDetector) → elem key (note_seen key d).seen_notes ≡ true
unfolding note_seen elem
elem-note_seen key d = ground (arith, eq_iff key key)

handle_note-seen_notes :
    (now : ℕ) (file : File) (content : ContentVerdict) (e : Engine) (d : NoteDetector)
    → (handle_note now file content e d).1.seen_notes ≡ d.seen_notes
unfolding handle_note
handle_note-seen_notes now file content e d = refl

seen_again :
    (search : Search) (now : ℕ) (initial : Bool) (file : File) (e : Engine) (d : NoteDetector)
    → elem (lower file.path) d.seen_notes ≡ true
    → consider_path search now initial file e d ≡ (e, d)
unfolding consider_path
seen_again search now initial file e d h = simp h refl

-- A file whose look raised a signal is not looked at again: the next look at its path, whatever the
-- file then holds and whatever the case of its letters, changes neither the detector nor the engine.
pub consider_path_once :
    (search : Search) (now : ℕ) (initial : Bool) (file : File) (e : Engine) (d : NoteDetector)
    (now' : ℕ) (initial' : Bool) (file' : File) (e' : Engine)
    → length d.emitted < length (consider_path search now initial file e d).1.emitted
    → lower file'.path ≡ lower file.path
    → consider_path search now' initial' file' e' (consider_path search now initial file e d).1
      ≡ (e', (consider_path search now initial file e d).1)
consider_path_once search now initial file e d now' initial' file' e' raised same_path =
    seen_again search now' initial' file' e' (consider_path search now initial file e d).1 (
      ap (λ k. elem k (consider_path search now initial file e d).1.seen_notes) same_path
      ∙ consider_path-cases (NotesPath file d) search now initial file e d
          (λ h. absurd (omega (arith, h))) (λ _. elem-note_seen (lower file.path) d)
          (λ body _ _.
            ap (λ ks. elem (lower file.path) ks)
              (handle_note-seen_notes now file (analyze_note_content search body) e
                (note_seen (lower file.path) d))
            ∙ elem-note_seen (lower file.path) d)
          raised)
