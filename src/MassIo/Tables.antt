-- ===== src/MassIo/Tables.antt =====
-- detectors/mass_io.py: the tables of magic bytes, extensions and paths.
use xodusmile.Prelude.{ℕ, String, List, [], ◌∷◌}

abbrev pub magic_signatures : List (List ℕ × String)
magic_signatures =
    (77 ∷ 90 ∷ [], "PE")
    ∷ (37 ∷ 80 ∷ 68 ∷ 70 ∷ [], "PDF")
    ∷ (80 ∷ 75 ∷ 3 ∷ 4 ∷ [], "ZIP/Office")
    ∷ (208 ∷ 207 ∷ 17 ∷ 224 ∷ [], "OLE/Office")
    ∷ (255 ∷ 216 ∷ 255 ∷ [], "JPEG")
    ∷ (137 ∷ 80 ∷ 78 ∷ 71 ∷ [], "PNG")
    ∷ (71 ∷ 73 ∷ 70 ∷ 56 ∷ [], "GIF")
    ∷ (82 ∷ 97 ∷ 114 ∷ 33 ∷ [], "RAR")
    ∷ (55 ∷ 122 ∷ 188 ∷ 175 ∷ [], "7Z")
    ∷ (31 ∷ 139 ∷ [], "GZIP")
    ∷ []

abbrev pub target_extensions : List String
target_extensions =
    ".doc" ∷ ".docx" ∷ ".xls" ∷ ".xlsx" ∷ ".ppt" ∷ ".pptx" ∷ ".pdf" ∷ ".txt" ∷ ".rtf" ∷ ".odt"
    ∷ ".jpg" ∷ ".jpeg" ∷ ".png" ∷ ".gif" ∷ ".bmp" ∷ ".mp3" ∷ ".mp4" ∷ ".avi" ∷ ".zip" ∷ ".rar"
    ∷ ".7z" ∷ ".sql" ∷ ".db" ∷ ".mdf" ∷ ".psd" ∷ ".dwg" ∷ []

abbrev pub native_high_entropy_exts : List String
native_high_entropy_exts =
    ".zip" ∷ ".rar" ∷ ".7z" ∷ ".gz" ∷ ".bz2" ∷ ".xz" ∷ ".cab" ∷ ".jar" ∷ ".apk" ∷ ".jpg" ∷ ".jpeg"
    ∷ ".png" ∷ ".gif" ∷ ".webp" ∷ ".heic" ∷ ".mp3" ∷ ".aac" ∷ ".ogg" ∷ ".flac" ∷ ".m4a" ∷ ".mp4"
    ∷ ".mov" ∷ ".mkv" ∷ ".avi" ∷ ".webm" ∷ ".m4v" ∷ []

abbrev pub suspicious_extensions : List String
suspicious_extensions =
    ".encrypted" ∷ ".enc" ∷ ".locked" ∷ ".crypted" ∷ ".crypt" ∷ ".wcry" ∷ ".wncry" ∷ ".wannacry"
    ∷ ".ryk" ∷ ".ryuk" ∷ ".lockbit" ∷ []

abbrev pub noise_path_fragments : List String
noise_path_fragments =
    "\\appdata\\local\\packages\\" ∷ "\\appdata\\local\\microsoft\\" ∷ "\\appdata\\locallow\\"
    ∷ "browsermetrics" ∷ "\\inetcache\\" ∷ "\\webcache" ∷ "\\temp\\" ∷ "\\tmp\\" ∷ "\\cache\\"
    ∷ "\\code cache\\" ∷ "\\gpucache\\" ∷ "\\cache_data\\" ∷ "\\indexeddb\\" ∷ "\\service worker\\"
    ∷ "\\crashpad" ∷ "\\crashdumps\\" ∷ "\\$recycle.bin\\" ∷ "\\system volume information\\" ∷ []

abbrev pub noise_extensions : List String
noise_extensions =
    ".tmp" ∷ ".temp" ∷ ".log" ∷ ".etl" ∷ ".ldb" ∷ ".lock" ∷ ".crdownload" ∷ ".part" ∷ ".partial"
    ∷ ".pma" ∷ ".dmp" ∷ []
