-- ===== src/Damage.antt =====
-- The tally of damaged files: summarize_damage and verify_damage_on_disk of incident_report.py, and
-- damage_from_signals and verify_on_disk of scan_damage.py. A Python set of paths is a list without
-- duplicates. What `re` makes of a device path (`_norm_disk_path`, `_norm_path`) is an argument.
pub mod Sets
pub mod Tally
pub mod Scan
mod Tests
use xodusmile.Prelude.{
  ℕ, zero, suc, ◌+◌, ◌-◌, ◌/◌, String, Bool, true, false, not, ◌&&◌, ◌||◌, Option, none, some, List,
  [], ◌∷◌, ◌++◌, leb, ltb, ◌==◌, same, elem, lower, if◌then◌else◌, lookup, is_empty, length,
}
use xodusmile.Signal.{second, Signal, Metadata, Value, text, int, flag, real, texts, pos, negsuc}

abbrev pub path_keys : List String
path_keys = "path" ∷ "dest" ∷ "src" ∷ "last_path" ∷ "new_path" ∷ "old_path" ∷ "target" ∷ []

abbrev pub damage_encrypt : List String
damage_encrypt =
    "high_entropy_write" ∷ "magic_bytes_lost" ∷ "modify_burst" ∷ "kernel_write_burst"
    ∷ "process_write_burst" ∷ "canary_modified" ∷ []

abbrev pub damage_rename : List String
damage_rename = "suspicious_extension" ∷ "kernel_rename_burst" ∷ []

abbrev pub damage_delete : List String
damage_delete = "file_delete" ∷ "canary_deleted" ∷ []

-- `isinstance(v, str) and v`
abbrev pub path_text : Option Value → List String
path_text none = []
path_text (some (text s)) = if is_empty s then [] else s ∷ []
path_text (some (int n)) = []
path_text (some (flag b)) = []
path_text (some (real x)) = []
path_text (some (texts ts)) = []

-- The loop of `_sig_paths`.
unfoldable pub paths_at : List String → Metadata → List String
paths_at [] meta = []
paths_at (k ∷ keys) meta = path_text (lookup k meta) ++ paths_at keys meta

unfoldable pub sig_paths : Signal → List String
unfolding paths_at
sig_paths sig = paths_at path_keys sig.metadata

-- `s.add(path)`
unfoldable pub add_path : String → List String → List String
add_path path paths = if elem path paths then paths else path ∷ paths

-- `s.update(paths)`
unfoldable pub add_paths : List String → List String → List String
add_paths [] set = set
add_paths (p ∷ paths) set = add_paths paths (add_path p set)

-- `int(meta.get(key, 0) or 0)`, of a float in microseconds. The detectors put integers there; a text or a
-- list, on which `int` can raise an error, is taken for 0.
abbrev pub count_of : Option Value → ℕ
count_of (some (int (pos n))) = n
count_of none = 0
count_of (some (int (negsuc n))) = 0
count_of (some (flag true)) = 1
count_of (some (flag false)) = 0
count_of (some (text s)) = 0
count_of (some (real x)) = x / second
count_of (some (texts ts)) = 0

abbrev pub is_yes : Option Bool → Bool
is_yes none = false
is_yes (some b) = b

abbrev pub is_no : Option Bool → Bool
is_no none = false
is_no (some b) = not b

abbrev pub max : ℕ → ℕ → ℕ
max a b = if ltb a b then b else a

pub record Damage : Type 0 where
  pub encrypted : List String
  pub renamed : List String
  pub deleted : List String
  pub max_modify_burst : ℕ
  pub max_rename_burst : ℕ
  pub max_write_bytes : ℕ
  pub canary : Bool

abbrev pub no_damage : Damage
no_damage = record {
  encrypted = [];
  renamed = [];
  deleted = [];
  max_modify_burst = 0;
  max_rename_burst = 0;
  max_write_bytes = 0;
  canary = false;
}

-- The first branch of the loop of `summarize_damage`.
unfoldable pub note_encryption : Signal → Damage → Damage
note_encryption s d =
    let d' = record d { encrypted = add_paths (sig_paths s) d.encrypted } in
    if same s.name "modify_burst"
    then record d' {
      max_modify_burst = max d.max_modify_burst (count_of (lookup "count" s.metadata));
    }
    else if same s.name "kernel_write_burst"
    then record d' {
      max_write_bytes = max d.max_write_bytes (count_of (lookup "bytes" s.metadata));
    }
    else if same s.name "canary_modified"
    then record d' { canary = true }
    else d'

unfoldable pub note_rename : Signal → Damage → Damage
note_rename s d =
    let d' = record d { renamed = add_paths (sig_paths s) d.renamed } in
    if same s.name "kernel_rename_burst"
    then record d' {
      max_rename_burst = max d.max_rename_burst (count_of (lookup "count" s.metadata));
    }
    else d'

unfoldable pub note_deletion : Signal → Damage → Damage
note_deletion s d =
    let d' = record d { deleted = add_paths (sig_paths s) d.deleted } in
    if same s.name "canary_deleted" then record d' { canary = true } else d'

-- One round of the loop of `summarize_damage`.
unfoldable pub note_signal : Signal → Damage → Damage
unfolding note_encryption note_rename note_deletion
note_signal s d =
    if elem s.name damage_encrypt
    then note_encryption s d
    else if elem s.name damage_rename
    then note_rename s d
    else if elem s.name damage_delete
    then note_deletion s d
    else d

abbrev pub note_signals : List Signal → Damage → Damage
note_signals [] d = d
note_signals (s ∷ signals) d = note_signals signals (note_signal s d)

unfoldable pub summarize_damage : List Signal → Damage
summarize_damage signals = note_signals signals no_damage

-- `encrypted | renamed | deleted`
unfoldable pub distinct : Damage → List String
distinct d = add_paths d.deleted (add_paths d.renamed d.encrypted)

-- What `Path.exists`, the suffix and the entropy of the first 4096 bytes of a file come to; `none` is
-- an OSError.
pub record Disk : Type 0 where
  pub exists : String → Option Bool
  pub suffix : String → String
  pub is_random : String → Option Bool

-- `_HIGH_ENTROPY_SKIP_EXTS`
abbrev pub high_entropy_exts : List String
high_entropy_exts =
    ".zip" ∷ ".rar" ∷ ".7z" ∷ ".gz" ∷ ".bz2" ∷ ".xz" ∷ ".jpg" ∷ ".jpeg" ∷ ".png" ∷ ".gif" ∷ ".mp4"
    ∷ ".mov" ∷ ".mkv" ∷ ".avi" ∷ ".mp3" ∷ ".pdf" ∷ ".docx" ∷ ".xlsx" ∷ ".pptx" ∷ []

pub record Findings : Type 0 where
  pub gone : List String
  pub encrypted_now : List String
  pub present : List String

-- A file that is there: its content is judged unless its extension is one of the skipped.
unfoldable pub check_present : Disk → List String → String → Findings → Findings
check_present disk skipped p c =
    let c' = record c { present = c.present ++ p ∷ [] } in
    if elem (lower (disk.suffix p)) skipped
    then c'
    else if is_yes (disk.is_random p)
    then record c' { encrypted_now = c.encrypted_now ++ p ∷ [] }
    else c'

-- One round of the loop over the touched paths.
unfoldable pub check_path : Disk → List String → String → Option Bool → Findings → Findings
unfolding check_present
check_path disk skipped p none c = c
check_path disk skipped p (some false) c = record c { gone = c.gone ++ p ∷ [] }
check_path disk skipped p (some true) c = check_present disk skipped p c

abbrev pub check_paths : Disk → List String → List String → Findings → Findings
check_paths disk skipped [] c = c
check_paths disk skipped (p ∷ paths) c =
    check_paths disk skipped paths (check_path disk skipped p (disk.exists p) c)

abbrev pub nothing_found : Findings
nothing_found = record { gone = []; encrypted_now = []; present = [] }

-- `{norm(p) for p in paths}`
unfoldable pub norm_paths : (String → String) → List String → List String
norm_paths norm [] = []
norm_paths norm (p ∷ paths) = add_path (norm p) (norm_paths norm paths)

-- The loop over the deleted paths, with `gone_set`.
unfoldable pub confirm_deleted : Disk → List String → List String → List String
confirm_deleted disk gone [] = []
confirm_deleted disk gone (p ∷ paths) =
    let rest = confirm_deleted disk gone paths in
    let confirmed = confirm_deleted disk (p ∷ gone) paths in
    if elem p gone then rest else if is_no (disk.exists p) then p ∷ confirmed else rest

pub record Verdict : Type 0 where
  pub checked : ℕ
  pub found : Findings
  pub deleted_confirmed : List String

unfoldable pub verify_damage_on_disk : (String → String) → Disk → Damage → Verdict
verify_damage_on_disk norm disk d =
    let touched = norm_paths norm (add_paths d.renamed d.encrypted) in
    let deleted = norm_paths norm d.deleted in
    let found = check_paths disk high_entropy_exts touched nothing_found in
    record {
      checked = length (add_paths deleted touched);
      found = found;
      deleted_confirmed = confirm_deleted disk found.gone deleted;
    }
