-- ===== src/Allowlist/Tests.antt =====
-- The allowlist's theorems at concrete inputs.
use xodusmile.Prelude.{
  ◌≡◌, ◌≤◌, ◌↔◌, refl, true, false, some, [], ◌∷◌, any, keep, length, lower, normcase,
  normcase_char, strip, is_empty, rstrip_separators, begins_with, after, starts_with_separator,
  has_separator, has_drive, basename, elem,
}
use xodusmile.Signal.{Signal, high, int, pos}
use xodusmile.PidCache.{consult, store, put, get, hit, cache_cap}
use xodusmile.Allowlist.{
  AllowEntry, entry_matches, normalize, Allowlist, load, save, same_key, find_key, add, remove,
  clear, matches, Facts, pid_allowed,
}
use xodusmile.Allowlist.Matching.{IsUnder, entry_matches-IsUnder}
use xodusmile.Allowlist.Entries.{IsUnique}
use xodusmile.Allowlist.Races.{fresh, pid_ask, pid_answer, pid_answer_stale}
use xodusmile.Allowlist.Cache.{
  Image, Reports, allowed_spec, here, next, added, asked, pid_allowed-Reach,
}

abbrev canary : Signal
canary = record {
  ident = 1;
  detector = "canary";
  name = "canary_modified";
  weight = 50;
  severity = high;
  metadata = ("pid", int (pos 42)) ∷ [];
  timestamp = 450;
}

program : Unit {0}
unfolding entry_matches normalize load save same_key find_key add remove clear matches pid_allowed
    elem any keep lower normcase normcase_char strip is_empty rstrip_separators begins_with after
    starts_with_separator has_separator has_drive basename consult store put get hit pid_ask
    pid_answer
program = tt

abbrev veeam : AllowEntry
veeam = record { kind = "path"; value = "c:\\veeam"; note = ""; added_at = 5 }

abbrev blank : Allowlist
blank = record { entries = []; cache = []; file = [] }

abbrev listed : Allowlist
listed = record { entries = veeam ∷ []; cache = []; file = veeam ∷ [] }

-- PID 42 is the backup agent, from its start at 7 on.
abbrev backup : Image
backup pid time = ("agent.exe", "C:\\Veeam\\agent.exe")

abbrev facts : Facts
facts = record {
  has_psutil = true;
  create_time = λ pid. some 7;
  name = λ pid. some "agent.exe";
  exe = λ pid. some "C:\\Veeam\\agent.exe";
}

facts-Reports : Reports backup facts
facts-Reports = record { name_of = λ pid time e. refl; exe_of = λ pid time e. refl }

-- A folder matches itself and what is below it, and not a sibling with a longer name.
entry_matches_run :
    (entry_matches veeam "" "c:\\veeam\\agent.exe" ≡ true)
    × (entry_matches veeam "" "c:\\veeamevil\\agent.exe" ≡ false)
unfolding program
entry_matches_run = (refl, refl)

normalize_run : normalize 5 "" " C:\\Veeam" ≡ some veeam
unfolding program
normalize_run = refl

-- The kind that is given wins over the look of the value, and a folder of a name is dropped.
normalize_name_run :
    normalize 5 "NAME" "C:\\tools\\Agent.EXE"
    ≡ some (record { kind = "name"; value = "agent.exe"; note = ""; added_at = 5 })
unfolding program
normalize_name_run = refl

pid_allowed_run :
    ((pid_allowed facts 42 listed).1 ≡ true)
    × ((pid_allowed facts 42 (remove true 9 "C:\\Veeam" "" (pid_allowed facts 42 listed).0).0).1
        ≡ false)
unfolding program
pid_allowed_run = (refl, refl)

entry_matches-IsUnder_example :
    (entry_matches veeam "" "c:\\veeam\\agent.exe" ≡ true)
    ↔ IsUnder "c:\\veeam" "c:\\veeam\\agent.exe"
entry_matches-IsUnder_example = entry_matches-IsUnder veeam "" "c:\\veeam\\agent.exe" refl

listed-IsUnique : IsUnique listed.entries
unfolding program
listed-IsUnique = (refl, tt)

pid_allowed-Reach_example :
    ((pid_allowed facts 42 (pid_allowed facts 42 (add true 5 " C:\\Veeam" "" "" blank).0).0).1
      ≡ allowed_spec backup facts 42
          (pid_allowed facts 42 (add true 5 " C:\\Veeam" "" "" blank).0).0.entries)
    × (length
          (pid_allowed facts 42
            (pid_allowed facts 42 (add true 5 " C:\\Veeam" "" "" blank).0).0).0.cache
        ≤ cache_cap)
pid_allowed-Reach_example =
    pid_allowed-Reach backup blank (pid_allowed facts 42 (add true 5 " C:\\Veeam" "" "" blank).0).0
      facts 42 refl
      (next (next here (added true 5 " C:\\Veeam" "" "" blank))
        (asked facts facts-Reports 42 (add true 5 " C:\\Veeam" "" "" blank).0))
      facts-Reports

abbrev zip_tool : AllowEntry
zip_tool = record { kind = "name"; value = "7z.exe"; note = ""; added_at = 6 }

-- Another thread has replaced the folder by another entry.
abbrev replaced : Allowlist
replaced = record { entries = zip_tool ∷ []; cache = []; file = zip_tool ∷ [] }

asked_fresh : pid_ask facts 42 listed ≡ fresh 7 true
unfolding program
asked_fresh = refl

-- The folder is off the list, and the process is still allowed.
pid_answer_stale_run :
    ((pid_allowed facts 42 replaced).1 ≡ false)
    × ((pid_allowed facts 42 (pid_answer 42 (pid_ask facts 42 listed) replaced).0).1 ≡ true)
unfolding program
pid_answer_stale_run = (refl, refl)

pid_answer_stale_example :
    (true ≡ matches "agent.exe" "C:\\Veeam\\agent.exe" listed.entries)
    × ((pid_allowed facts 42 (pid_answer 42 (pid_ask facts 42 listed) replaced).0).1 ≡ true)
pid_answer_stale_example = pid_answer_stale facts 42 7 true listed replaced asked_fresh refl
