-- ===== src/Damage/Scan.antt =====
-- scan_damage.py: the tally by signals, the check on the disk, and the scan of folders. The counter
-- `by_pid`, which nothing reads, is left out.
use xodusmile.Prelude.{
  ℕ, ◌+◌, String, Bool, false, ◌&&◌, ◌||◌, Option, none, some, List, [], ◌∷◌, ◌++◌, ltb, elem,
  contains, if◌then◌else◌, lookup, insert, is_empty, length,
}
use xodusmile.Signal.{Signal, Metadata, Value, text}
use xodusmile.Damage.{add_paths, Disk, Findings, check_paths, nothing_found}

-- ENCRYPT_NAMES, RENAME_NAMES, DELETE_NAMES and PATH_KEYS of scan_damage.py
abbrev pub encrypt_names : List String
encrypt_names =
    "high_entropy_write" ∷ "magic_bytes_lost" ∷ "modify_burst" ∷ "kernel_write_burst"
    ∷ "process_write_burst" ∷ "canary_modified" ∷ []

abbrev pub rename_names : List String
rename_names = "suspicious_extension" ∷ "kernel_rename_burst" ∷ []

abbrev pub delete_names : List String
delete_names = "file_delete" ∷ "canary_deleted" ∷ []

abbrev pub scan_path_keys : List String
scan_path_keys = "path" ∷ "dest" ∷ "src" ∷ "last_path" ∷ "new_path" ∷ "old_path" ∷ "target" ∷ []

abbrev pub common_exts : List String
common_exts =
    ".txt" ∷ ".doc" ∷ ".docx" ∷ ".xls" ∷ ".xlsx" ∷ ".ppt" ∷ ".pptx" ∷ ".pdf" ∷ ".jpg" ∷ ".jpeg"
    ∷ ".png" ∷ ".gif" ∷ ".bmp" ∷ ".tif" ∷ ".tiff" ∷ ".webp" ∷ ".mp3" ∷ ".mp4" ∷ ".avi" ∷ ".mov"
    ∷ ".mkv" ∷ ".wav" ∷ ".zip" ∷ ".rar" ∷ ".7z" ∷ ".csv" ∷ ".json" ∷ ".xml" ∷ ".html" ∷ ".htm"
    ∷ ".md" ∷ ".rtf" ∷ ".odt" ∷ ".psd" ∷ ".ai" ∷ ".eps" ∷ ".dwg" ∷ ".sql" ∷ ".db" ∷ ".bak" ∷ ".log"
    ∷ []

abbrev pub note_name_hints : List String
note_name_hints =
    "readme" ∷ "decrypt" ∷ "restore" ∷ "recover" ∷ "how_to" ∷ "howto" ∷ "help_" ∷ "_help" ∷ "ransom"
    ∷ "unlock" ∷ "info" ∷ "your_files" ∷ "files_encrypted" ∷ []

abbrev pub note_exts : List String
note_exts = ".txt" ∷ ".html" ∷ ".htm" ∷ ".hta" ∷ []

-- The extensions that `verify_on_disk` skips.
abbrev pub skipped_exts : List String
skipped_exts =
    ".zip" ∷ ".rar" ∷ ".7z" ∷ ".jpg" ∷ ".jpeg" ∷ ".png" ∷ ".mp4" ∷ ".mov" ∷ ".mkv" ∷ ".gz" ∷ ".pdf"
    ∷ []

abbrev number : Option ℕ → ℕ
number none = 0
number (some n) = n

-- `counter[key] += 1`
unfoldable pub count_up : String → List (String × ℕ) → List (String × ℕ)
count_up key counter = insert key (1 + number (lookup key counter)) counter

-- `_suspicious_ext`, of a path whose lower-case name has the suffix.
unfoldable pub suspicious_ext : String → Option String
suspicious_ext suffix =
    if is_empty suffix then none else if elem suffix common_exts then none else some suffix

-- `if isinstance(v, str) and v: out.append(_norm_path(v))`
abbrev pub norm_text : (String → String) → Option Value → List String → List String
norm_text norm (some (text p)) out = if is_empty p then out else norm p ∷ out
norm_text norm _ out = out

-- The loop of `_sig_paths`.
unfoldable pub norm_paths_at : (String → String) → List String → Metadata → List String
norm_paths_at norm [] meta = []
norm_paths_at norm (k ∷ keys) meta = norm_text norm (lookup k meta) (norm_paths_at norm keys meta)

-- `_sig_paths`
unfoldable pub norm_sig_paths : (String → String) → Signal → List String
unfolding norm_paths_at
norm_sig_paths norm s = norm_paths_at norm scan_path_keys s.metadata

pub record ScanDamage : Type 0 where
  pub encrypted : List String
  pub renamed : List String
  pub deleted : List String
  pub susp_exts : List (String × ℕ)

abbrev pub count_ext : Option String → List (String × ℕ) → List (String × ℕ)
count_ext none counter = counter
count_ext (some ext) counter = count_up ext counter

-- `for p in paths: ext = … if ext: susp_exts[ext] += 1`
unfoldable pub count_exts : (String → String) → List String → List (String × ℕ) → List (String × ℕ)
count_exts suffix [] counter = counter
count_exts suffix (p ∷ paths) counter =
    count_exts suffix paths (count_ext (suspicious_ext (suffix p)) counter)

-- One round of the loop of `damage_from_signals`.
unfoldable pub scan_signal : (norm suffix : String → String) → Signal → ScanDamage → ScanDamage
scan_signal norm suffix s d =
    if elem s.name encrypt_names
    then record d { encrypted = add_paths (norm_sig_paths norm s) d.encrypted }
    else if elem s.name rename_names
    then record d {
      renamed = add_paths (norm_sig_paths norm s) d.renamed;
      susp_exts = count_exts suffix (norm_sig_paths norm s) d.susp_exts;
    }
    else if elem s.name delete_names
    then record d { deleted = add_paths (norm_sig_paths norm s) d.deleted }
    else d

abbrev pub scan_signals : (norm suffix : String → String) → List Signal → ScanDamage → ScanDamage
scan_signals norm suffix [] d = d
scan_signals norm suffix (s ∷ signals) d =
    scan_signals norm suffix signals (scan_signal norm suffix s d)

unfoldable pub damage_from_signals : (norm suffix : String → String) → List Signal → ScanDamage
damage_from_signals norm suffix signals =
    scan_signals norm suffix signals
      (record { encrypted = []; renamed = []; deleted = []; susp_exts = [] })

-- `verify_on_disk`
unfoldable pub verify_on_disk : Disk → List String → Findings
verify_on_disk disk paths = check_paths disk skipped_exts paths nothing_found

-- A file of the walk: its path, and its name and extension in lower case.
pub record File : Type 0 where
  pub path : String
  pub name : String
  pub suffix : String

pub record Folder : Type 0 where
  pub scanned : ℕ
  pub ext_hits : List (String × ℕ)
  pub notes : List String

-- `any(h in name for h in NOTE_NAME_HINTS)`
unfoldable pub hinted : List String → String → Bool
hinted [] name = false
hinted (h ∷ hints) name = contains name h || hinted hints name

abbrev pub is_note : File → Bool
is_note file = elem file.suffix note_exts && hinted note_name_hints file.name

-- One file of the walk.
unfoldable pub scan_file : List String → File → Folder → Folder
scan_file exts file f = record {
  scanned = f.scanned + 1;
  ext_hits = if elem file.suffix exts then count_up file.suffix f.ext_hits else f.ext_hits;
  notes = if is_note file && ltb (length f.notes) 50 then f.notes ++ file.path ∷ [] else f.notes;
}

-- `wd.rglob("*")`: `none` is an entry that is no file, or that raises an OSError.
abbrev pub scan_entries : List String → List (Option File) → Folder → Folder
scan_entries exts [] f = f
scan_entries exts (none ∷ entries) f = scan_entries exts entries f
scan_entries exts (some file ∷ entries) f = scan_entries exts entries (scan_file exts file f)

-- The folders; `none` is one that does not exist.
abbrev pub scan_dirs : List String → List (Option (List (Option File))) → Folder → Folder
scan_dirs exts [] f = f
scan_dirs exts (none ∷ dirs) f = scan_dirs exts dirs f
scan_dirs exts (some entries ∷ dirs) f = scan_dirs exts dirs (scan_entries exts entries f)

-- `scan_folder`, with the extensions in lower case.
unfoldable pub scan_folder : List String → List (Option (List (Option File))) → Folder
scan_folder exts dirs = scan_dirs exts dirs (record { scanned = 0; ext_hits = []; notes = [] })
