-- ===== src/AttackMap/Tests.antt =====
-- The labels of a technique, and the deletion of shadow copies.
use xodusmile.Prelude.{◌≡◌, refl, some, is_empty, lookup, same}
use xodusmile.CommandLine.{Search, Process}
use xodusmile.Reporter.FileNames.{decimal, decimal_within}
use xodusmile.AttackMap.{label_for, label_of, techniques_for}
use xodusmile.AttackMap.Table.{signal_techniques}

abbrev found : Search
found pattern s = same pattern "vssadmin(\\.exe)?\\s+delete\\s+shadows"

abbrev deletion : Process
deletion = record {
  name = "vssadmin.exe";
  cmdline = "vssadmin delete shadows";
  pid = some 7;
  ppid = some 3;
}

label_run : label_for (some "canary_deleted") ≡ "T1486 Data Encrypted for Impact (+1)"
unfolding label_for label_of techniques_for lookup signal_techniques is_empty decimal decimal_within
label_run = refl
