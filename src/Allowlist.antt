-- ===== src/Allowlist.antt =====
-- allowlist.py: the operator's allowlist. Its state is the entries, the PID cache and the file that
-- `save` writes; what psutil answers is an argument.
pub mod Matching
pub mod Entries
pub mod Adding
pub mod Cache
pub mod Combining
pub mod Races
mod Tests
use xodusmile.Prelude.{
  ℕ, zero, String, ◌≡◌, Bool, true, false, not, ◌&&◌, ◌||◌, Option, none, some, List, [], ◌∷◌, ◌++◌,
  ◌==◌, if◌then◌else◌, elem, same, any, keep, length, lower, normcase, strip, is_empty,
  rstrip_separators, begins_with, after, starts_with_separator, has_separator, has_drive, basename,
  map,
}
use xodusmile.Signal.{Signal, pid_of, Answer, returned, raised, answered}
use xodusmile.PidCache.{PidCache, consult, store, get, hit}

abbrev pub never_exempt_signals : List String
never_exempt_signals =
    "canary_modified" ∷ "canary_deleted" ∷ "ransom_note_spread" ∷ "defender_self_disable" ∷ []

pub record AllowEntry : Type 0 where
  pub kind : String
  pub value : String
  pub note : String
  pub added_at : ℕ

-- `AllowEntry.matches`
unfoldable pub entry_matches : AllowEntry → String → String → Bool
entry_matches e name_lower path_lower =
    if same e.kind "name"
    then not (is_empty name_lower) && same name_lower e.value
    else if same e.kind "path"
    then (if is_empty path_lower
        then false
        else (let prefix = rstrip_separators e.value in
            if is_empty prefix || not (begins_with path_lower prefix)
            then false
            else (let rest = after path_lower prefix in
                is_empty rest || starts_with_separator rest)))
    else false

-- `_normalize`: nothing where it raises `ValueError`.
unfoldable pub normalize : ℕ → String → String → Option AllowEntry
normalize now kind value =
    let v = strip value in
    let k = lower (strip kind) in
    let looks_like_path = has_separator v || has_drive v in
    if is_empty v
    then none
    else if same k "path" || not (elem k ("name" ∷ "path" ∷ [])) && looks_like_path
    then some (record { kind = "path"; value = normcase v; note = ""; added_at = now })
    else some (record { kind = "name"; value = lower (basename v); note = ""; added_at = now })

pub record Allowlist : Type 0 where
  pub entries : List AllowEntry
  pub cache : PidCache Bool
  -- The entries in the JSON file.
  pub file : List AllowEntry

-- An item of the JSON file: one that lacks a field, or has one of a wrong type, is skipped.
pub data Item : Type 0 where
  good : AllowEntry → Item
  bad : Item

read_items : List Item → List AllowEntry
read_items [] = []
read_items (good e ∷ items) = record e { kind = lower e.kind } ∷ read_items items
read_items (bad ∷ items) = read_items items

-- `load`, of the items in the file, or of nothing where it cannot be read or parsed.
unfoldable pub load : Option (List Item) → Allowlist → Allowlist
unfolding read_items
load none a = a
load (some items) a = record a { entries = read_items items; cache = [] }

-- `save`: a write that fails leaves the old file.
unfoldable pub save : Bool → Allowlist → Allowlist
save writable a = if writable then record a { file = a.entries } else a

unfoldable pub same_key : AllowEntry → AllowEntry → Bool
same_key x y = same x.kind y.kind && same x.value y.value

unfoldable pub find_key : AllowEntry → List AllowEntry → Option AllowEntry
find_key x [] = none
find_key x (e ∷ es) = if same_key e x then some e else find_key x es

add_entry : Bool → AllowEntry → Option AllowEntry → Allowlist → Allowlist × AllowEntry
add_entry writable entry (some old) a = (a, old)
add_entry writable entry none a =
    (save writable (record a { entries = a.entries ++ entry ∷ []; cache = [] }), entry)

add_normalized : Bool → String → Option AllowEntry → Allowlist → Allowlist × Option AllowEntry
unfolding add_entry
add_normalized writable note none a = (a, none)
add_normalized writable note (some e) a =
    let entry : AllowEntry = record e { note = strip note } in
    let (a', shown) = add_entry writable entry (find_key entry a.entries) a in (a', some shown)

-- `add`: no entry comes back where `_normalize` raises.
unfoldable pub add : Bool → ℕ → String → String → String → Allowlist → Allowlist × Option AllowEntry
unfolding add_normalized
add writable now value kind note a = add_normalized writable note (normalize now kind value) a

remove_entry : Bool → AllowEntry → Allowlist → Allowlist × Bool
remove_entry writable target a =
    let kept = keep (λ e. not (same_key e target)) a.entries in
    if length kept == length a.entries
    then (record a { entries = kept }, false)
    else (save writable (record a { entries = kept; cache = [] }), true)

remove_normalized : Bool → Option AllowEntry → Allowlist → Allowlist × Option Bool
unfolding remove_entry
remove_normalized writable none a = (a, none)
remove_normalized writable (some target) a =
    let (a', removed) = remove_entry writable target a in (a', some removed)

-- `remove`: nothing comes back where `_normalize` raises.
unfoldable pub remove : Bool → ℕ → String → String → Allowlist → Allowlist × Option Bool
unfolding remove_normalized
remove writable now value kind a = remove_normalized writable (normalize now kind value) a

unfoldable pub clear : Bool → Allowlist → Allowlist
clear writable a = save writable (record a { entries = []; cache = [] })

-- `matches`
unfoldable pub matches : String → String → List AllowEntry → Bool
matches name exe_path entries =
    let name_lower = lower name in
    let path_lower = normcase exe_path in any (λ e. entry_matches e name_lower path_lower) entries

-- What psutil answers: the creation time of the process, its name and its path, if it can be read.
pub record Facts : Type 0 where
  pub has_psutil : Bool
  pub create_time : ℕ → Option ℕ
  pub name : ℕ → Option String
  pub exe : ℕ → Option String

abbrev pub or_empty : Option String → String
or_empty none = ""
or_empty (some s) = s

allowed_at : Facts → ℕ → Option ℕ → Allowlist → Allowlist × Bool
allowed_at facts pid none a = (a, false)
allowed_at facts pid (some time) a =
    let (cache, allowed) =
      consult pid time (matches (or_empty (facts.name pid)) (or_empty (facts.exe pid)) a.entries)
        a.cache in
    (record a { cache = cache }, allowed)

abbrev no_entries : List AllowEntry → Bool
no_entries [] = true
no_entries (e ∷ es) = false

-- `pid_allowed`
unfoldable pub pid_allowed : Facts → ℕ → Allowlist → Allowlist × Bool
unfolding allowed_at
pid_allowed facts pid a =
    if pid == 0 || not facts.has_psutil
    then (a, false)
    else if no_entries a.entries
    then (a, false)
    else allowed_at facts pid (facts.create_time pid) a

exempt_pid : Facts → Option ℕ → Allowlist → Allowlist × Bool
exempt_pid facts none a = (a, false)
exempt_pid facts (some pid) a = pid_allowed facts pid a

-- `signal_exempt`
unfoldable pub signal_exempt : Facts → Signal → Allowlist → Allowlist × Bool
unfolding exempt_pid
signal_exempt facts sig a =
    if elem sig.name never_exempt_signals then (a, false) else exempt_pid facts (pid_of sig) a

-- `combine_trust`: a classifier that raises is passed over.
unfoldable pub combine_trust : List (Signal → Answer) → Signal → Bool
combine_trust [] sig = false
combine_trust (f ∷ fs) sig =
    let rest = combine_trust fs sig in if answered (f sig) then true else rest
