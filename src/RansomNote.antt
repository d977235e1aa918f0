-- ===== src/RansomNote.antt =====
-- detectors/ransom_note.py: the detector of ransom notes. What `re` finds in a text, and what the file
-- system shows of a file, are arguments.
pub mod Patterns
pub mod Laws
pub mod Backing
pub mod Corroboration
pub mod Spreading
mod Tests
use xodusmile.Prelude.{
  ℕ, ◌+◌, ◌-◌, ◌*◌, String, Bool, true, false, not, ◌&&◌, ◌||◌, Option, none, some, List, [], ◌∷◌,
  ◌++◌, ◌==◌, ltb, leb, if◌then◌else◌, any, elem, lookup, insert, lower, length, is_empty, keep,
}
use xodusmile.Signal.{
  Signal, Severity, medium, high, critical, Value, int, pos, flag, text, real, texts, Metadata,
  second, truthy,
}
use xodusmile.Detector.{emit}
use xodusmile.Scoring.{Engine, recent_signals, encryption_signal_names}
use xodusmile.RansomNote.Patterns.{
  note_patterns, crypto_patterns, onion_patterns, encrypted_phrases, decrypt_phrases, payment_terms,
  contact_terms, threat_terms,
}

-- `pattern.search(text)`, of a pattern compiled without regard to case.
abbrev pub Search : Type 0
Search = String → String → Bool

-- `any(p.search(text) for p in patterns)`
unfoldable pub finds : Search → List String → String → Bool
finds search patterns s = any (λ p. search p s) patterns

abbrev pub note_extensions : List String
note_extensions = ".txt" ∷ ".html" ∷ ".htm" ∷ ".hta" ∷ ".rtf" ∷ ".url" ∷ "" ∷ []

abbrev pub content_confirm_score : ℕ
content_confirm_score = 3

abbrev pub w_note_confirmed : ℕ
w_note_confirmed = 45

abbrev pub w_note_nameonly : ℕ
w_note_nameonly = 15

abbrev pub w_note_spread : ℕ
w_note_spread = 90

abbrev pub spread_dir_threshold : ℕ
spread_dir_threshold = 3

abbrev pub spread_window : ℕ
spread_window = 60 * second

abbrev pub max_note_bytes : ℕ
max_note_bytes = 65536

abbrev pub seen_cap : ℕ
seen_cap = 20000

pub record ContentVerdict : Type 0 where
  pub score : ℕ
  pub confirmed : Bool
  pub indicators : List String

-- One `if` of `analyze_note_content`: the score and the indicators after it.
abbrev pub score_hit : Bool → ℕ → String → ℕ × List String → ℕ × List String
score_hit hit points label v = if hit then (v.0 + points, v.1 ++ label ∷ []) else v

abbrev pub count_hit : Bool → ℕ → ℕ
count_hit hit n = if hit then n + 1 else n

unfoldable pub analyze_note_content : Search → String → ContentVerdict
unfolding finds
analyze_note_content search s =
    let crypto = finds search crypto_patterns s in
    let onion = finds search onion_patterns s in
    let strong = count_hit onion (count_hit crypto 0) in
    let v₁ = score_hit onion 2 "onion_url" (score_hit crypto 2 "crypto_address" (0, [])) in
    let v₂ = score_hit (finds search encrypted_phrases s) 1 "encryption_phrase" v₁ in
    let v₃ = score_hit (finds search decrypt_phrases s) 1 "decrypt_instruction" v₂ in
    let v₄ = score_hit (finds search payment_terms s) 1 "payment_terms" v₃ in
    let v₅ = score_hit (finds search contact_terms s) 1 "contact_channel" v₄ in
    let v₆ = score_hit (finds search threat_terms s) 1 "threat_language" v₅ in
    if is_empty s then record { score = 0; confirmed = false; indicators = [] } else record {
      score = v₆.0;
      confirmed = leb 1 strong && leb content_confirm_score v₆.0;
      indicators = v₆.1;
    }

unfoldable pub is_ransom_note_name : Search → String → Bool
unfolding finds
is_ransom_note_name search filename = finds search note_patterns (lower filename)

-- What the file system shows of a file. `status` is nothing where `OSError` is raised, `body` is the
-- decoded beginning of the file, or nothing where it cannot be opened.
pub record Status : Type 0 where
  pub is_symlink : Bool
  pub is_file : Bool
  pub size : ℕ

pub record File : Type 0 where
  pub path : String
  pub parent : String
  pub name : String
  pub suffix : String
  pub status : Option Status
  pub body : Option String

pub record NoteDetector : Type 0 where
  pub seen_notes : List String
  pub recent_dirs : List (String × (ℕ × Bool))
  pub canary_tripped_at : ℕ
  pub emitted : List Signal

abbrev pub new_detector : NoteDetector
new_detector = record { seen_notes = []; recent_dirs = []; canary_tripped_at = 0; emitted = [] }

-- `_on_engine_signal`
unfoldable pub on_engine_signal : ℕ → Signal → NoteDetector → NoteDetector
on_engine_signal now sig d =
    if elem sig.detector ("canary" ∷ []) then record d { canary_tripped_at = now } else d

-- `_boost_active`
unfoldable pub boost_active : ℕ → NoteDetector → Bool
boost_active now d = ltb (now - d.canary_tripped_at) (30 * second)

-- `(s.metadata or {}).get("actor_trusted")`
abbrev pub stamped : Option Value → Bool
stamped none = false
stamped (some v) = truthy v

abbrev pub note_names : List String
note_names = "ransom_note_dropped" ∷ "ransom_note_spread" ∷ []

-- The loop of `_external_encryption_active`.
unfoldable pub external_in : List Signal → Bool
external_in [] = false
external_in (s ∷ rest) =
    let later = external_in rest in
    if elem s.name note_names
    then later
    else if elem s.name encryption_signal_names && not (stamped (lookup "actor_trusted" s.metadata))
    then true
    else later

-- `_external_encryption_active`; its read of the engine evicts old signals.
unfoldable pub external_encryption_active : ℕ → Engine → Engine × Bool
external_encryption_active now e =
    let (e', sigs) = recent_signals now 120 e in (e', external_in sigs)

-- `_prune`
unfoldable pub prune : ℕ → NoteDetector → NoteDetector
prune now d = record d {
  recent_dirs = keep (λ (x : String × (ℕ × Bool)). leb (now - spread_window) x.1.0) d.recent_dirs;
}

abbrev pub confirmed_before : Option (ℕ × Bool) → Bool
confirmed_before none = false
confirmed_before (some (time, c)) = c

abbrev pub count_confirmed : List (String × (ℕ × Bool)) → ℕ
count_confirmed [] = 0
count_confirmed ((dir, (time, c)) ∷ rest) =
    if c then 1 + count_confirmed rest else count_confirmed rest

unfoldable pub spread_signal : ℕ → File → ℕ → ℕ → Bool → ContentVerdict → List Signal → List Signal
unfolding emit
spread_signal now file total confirmed by_content content emitted =
    emit "ransom_note" "ransom_note_spread" w_note_spread critical
      (("path", text file.path)
        ∷ ("directory", text file.parent)
        ∷ ("directories_affected", int (pos total))
        ∷ ("directories_confirmed", int (pos confirmed))
        ∷ ("trigger", text (if by_content then "content" else "correlated"))
        ∷ ("indicators", texts content.indicators)
        ∷ ("window_sec", real spread_window)
        ∷ [])
      now emitted

unfoldable pub single_signal : ℕ → File → Bool → ContentVerdict → List Signal → List Signal
unfolding emit
single_signal now file boosted content emitted =
    let meta = λ (boost confirmed : Bool).
      (("path", text file.path)
        ∷ ("directory", text file.parent)
        ∷ ("canary_boost", flag boost)
        ∷ ("content_confirmed", flag confirmed)
        ∷ ("content_score", int (pos content.score))
        ∷ ("indicators", texts content.indicators)
        ∷ []) in
    if content.confirmed || boosted
    then emit "ransom_note" "ransom_note_dropped"
        (if boosted then w_note_spread else w_note_confirmed) (if boosted then critical else high)
        (meta boosted content.confirmed) now emitted
    else emit "ransom_note" "ransom_note_dropped" w_note_nameonly medium (meta false false) now
        emitted

-- `_handle_note`. The engine is read only where the notes have spread.
unfoldable pub handle_note :
    ℕ → File → ContentVerdict → Engine → NoteDetector → Engine × NoteDetector
handle_note now file content e d =
    let directory = lower file.parent in
    let here = content.confirmed || confirmed_before (lookup directory d.recent_dirs) in
    let dirs = insert directory (now, here) d.recent_dirs in
    let d' = record d { recent_dirs = dirs } in
    let total = length dirs in
    let confirmed = count_confirmed dirs in
    let by_content = leb spread_dir_threshold confirmed in
    let (e', external) =
      if leb spread_dir_threshold total then external_encryption_active now e else (e, false) in
    (
      e',
      record d' {
        emitted =
            if by_content || external
            then spread_signal now file total confirmed by_content content d.emitted
            else single_signal now file (boost_active now d) content d.emitted;
      },
    )

-- The key is noted as seen; past the cap the set starts again.
unfoldable pub note_seen : String → NoteDetector → NoteDetector
note_seen key d =
    let seen = if elem key d.seen_notes then d.seen_notes else key ∷ d.seen_notes in
    record d { seen_notes = if ltb seen_cap (length seen) then key ∷ [] else seen }

-- A regular file of at most the largest size.
abbrev pub is_candidate : Option Status → Bool
is_candidate none = false
is_candidate (some s) = not s.is_symlink && (s.is_file && leb s.size max_note_bytes)

unfoldable pub consider_body :
    Search → ℕ → Bool → File → Option String → Engine → NoteDetector → Engine × NoteDetector
consider_body search now initial file none e d = (e, d)
consider_body search now initial file (some body) e d =
    let content = analyze_note_content search body in
    if not (is_ransom_note_name search file.name || content.confirmed)
    then (e, d)
    else if initial
    then (e, note_seen (lower file.path) d)
    else handle_note now file content e (note_seen (lower file.path) d)

-- `_consider_path`, by one thread.
unfoldable pub consider_path :
    Search → ℕ → Bool → File → Engine → NoteDetector → Engine × NoteDetector
unfolding consider_body
consider_path search now initial file e d =
    if elem (lower file.path) d.seen_notes
    then (e, d)
    else if not (elem (lower file.suffix) note_extensions)
    then (e, d)
    else if not (is_candidate file.status)
    then (e, d)
    else consider_body search now initial file file.body e d
