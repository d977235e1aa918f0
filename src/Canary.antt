-- ===== src/Canary.antt =====
-- detectors/canary.py: the tripwire files. Whether a file is there and what its hash is are answers of
-- the file system, the same through one round; an unreadable file has the empty hash.
pub mod Tracked
pub mod Rounds
mod Tests
use xodusmile.Prelude.{
  ℕ, String, Bool, true, false, not, List, [], ◌∷◌, if◌then◌else◌, insert, keep, same,
}
use xodusmile.Signal.{Signal, critical, text}
use xodusmile.Detector.{emit}

abbrev pub canary_filenames : List String
canary_filenames =
    "!!_DO_NOT_TOUCH_!!.docx" ∷ "0_important_notes.xlsx" ∷ "00_archive_index.pdf"
    ∷ "~$confidential_backup.docx" ∷ "zzz_old_records.txt" ∷ []

abbrev pub canary_weight : ℕ
canary_weight = 80

pub record World : Type 0 where
  pub exists : String → Bool
  pub hash : String → String
  pub parent : String → String

-- `_files` and the signals.
pub record Canary : Type 0 where
  pub files : List (String × String)
  pub emitted : List Signal

-- `_raise_alert`
unfoldable pub raise_alert : ℕ → World → String → String → Canary → Canary
unfolding emit
raise_alert now w path name c = record c {
  emitted =
      emit "canary" name canary_weight critical
        (("path", text path) ∷ ("directory", text (w.parent path)) ∷ []) now c.emitted;
}

-- The loop of `deploy` over the paths of the canaries, in the world after they were written.
unfoldable pub deploy : World → List String → List (String × String) → List (String × String)
deploy w [] files = files
deploy w (path ∷ paths) files = deploy w paths (insert path (w.hash path) files)

-- `self._files.pop(path, None)`
unfoldable pub pop : String → List (String × String) → List (String × String)
pop path files = keep (λ (x : String × String). not (same x.0 path)) files

-- The body of the loop of `run`.
unfoldable pub watch_one : ℕ → World → String → String → Canary → Canary
unfolding raise_alert pop
watch_one now w path expected c =
    let current = w.hash path in
    if not (w.exists path)
    then record (raise_alert now w path "canary_deleted" c) { files = pop path c.files }
    else if not (same current expected)
    then record (raise_alert now w path "canary_modified" c) { files = insert path current c.files }
    else c

-- The loop, over a copy of the entries.
abbrev pub watch_all : ℕ → World → List (String × String) → Canary → Canary
watch_all now w [] c = c
watch_all now w ((path, expected) ∷ entries) c =
    watch_all now w entries (watch_one now w path expected c)

-- One round of `run`.
unfoldable pub round : ℕ → World → Canary → Canary
round now w c = watch_all now w c.files c
