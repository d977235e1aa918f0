-- ===== src/CommandLine/Tests.antt =====
-- The rules on the command line of a deletion of shadow copies.
use xodusmile.Prelude.{◌≡◌, refl, some, length, same, is_empty}
use xodusmile.CommandLine.{Search, Process, evaluate_cmdline, evaluate_in}

abbrev found : Search
found pattern s = same pattern "vssadmin(\\.exe)?\\s+delete\\s+shadows"

abbrev deletion : Process
deletion = record {
  name = "vssadmin.exe";
  cmdline = "vssadmin delete shadows";
  pid = some 7;
  ppid = some 3;
}

fired_run : length (evaluate_cmdline found "process_cmdline" deletion 0 0) ≡ 1
unfolding evaluate_cmdline evaluate_in is_empty
fired_run = refl
