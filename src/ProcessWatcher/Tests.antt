-- ===== src/ProcessWatcher/Tests.antt =====
-- A first scan of the agent itself and of a shell, and then the same list again.
use xodusmile.Prelude.{
  add, keep, mem, ◌≡◌, refl, true, false, some, none, [], ◌∷◌, is_some, ℕ, List,
}
use xodusmile.PidTable.{find, put, keys_outside, pop_all}
use xodusmile.CommandLine.{Search}
use xodusmile.ProcessWatcher.Types.{Info, Watcher, new_watcher, take_snapshot}
use xodusmile.ProcessWatcher.{scan, scan_all, scan_one, scan_pid, track, forget}
use xodusmile.ProcessWatcher.Tracking.{scan-IsTracked, IsTracked, listed}
use xodusmile.ProcessWatcher.Known.{judged, same_time}
use xodusmile.ProcessWatcher.Once.{scan_all-judged_once}

abbrev nothing : Search
nothing pattern s = false

abbrev shell : Info
shell = record {
  pid = some 7;
  ppid = some 3;
  name = some "cmd.exe";
  words = some ("cmd.exe" ∷ "/c" ∷ "dir" ∷ []);
  username = some "user";
  exe = some "C:\\Windows\\System32\\cmd.exe";
  create_time = some 1000;
  cpu_percent = none;
  rss_bytes = 0;
  write_bytes = 0;
}

abbrev agent : Info
agent = record shell { pid = some 4; name = some "python.exe" }

abbrev first_scan : Watcher
first_scan =
    scan nothing "c:\\windows" 2000 true (some agent ∷ none ∷ some shell ∷ []) (new_watcher 4)

scan-IsTracked_example :
    ((q : ℕ) → is_some (find q first_scan.seen) ≡ listed 4 q (some agent ∷ none ∷ some shell ∷ []))
    × IsTracked first_scan
unfolding find
scan-IsTracked_example =
    scan-IsTracked nothing "c:\\windows" 2000 true (some agent ∷ none ∷ some shell ∷ [])
      (new_watcher 4) (λ q h. h)

-- A process that the first scan did not list.
abbrev newcomer : Info
newcomer = record shell { pid = some 9; create_time = some 2500 }

shell_run : same_time (some 1000) (find 7 first_scan.seen) ≡ true
unfolding scan scan_one scan_pid track forget take_snapshot find put keys_outside pop_all keep mem
    add
shell_run = refl

abbrev newcomer_done : List ℕ × Watcher
newcomer_done = scan_all nothing "c:\\windows" 3000 false (some newcomer ∷ []) ([], first_scan)

scan_all-judged_once_example :
    (judged (scan_one nothing "c:\\windows" 3000 false (some shell) newcomer_done).1.emitted
      ≡ judged newcomer_done.1.emitted)
    × ((scan_one nothing "c:\\windows" 3000 false (some shell) newcomer_done).1.fanout
        ≡ newcomer_done.1.fanout)
    × (scan_all nothing "c:\\windows" 3000 false
          (some newcomer ∷ some shell ∷ some agent ∷ [])
          ([], first_scan)
        ≡ scan_all nothing "c:\\windows" 3000 false
            (some agent ∷ [])
            (scan_one nothing "c:\\windows" 3000 false (some shell) newcomer_done))
scan_all-judged_once_example =
    scan_all-judged_once nothing "c:\\windows" 3000 false 7 shell (some newcomer ∷ [])
      (some agent ∷ []) first_scan refl shell_run refl
