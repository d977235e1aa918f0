-- ===== src/Reporter/Behaviors/Tests.antt =====
-- The threats of a campaign in which a program and its helper are stopped.
use xodusmile.Prelude.{
  ℕ, ◌≡◌, refl, true, false, String, some, [], ◌∷◌, elem, is_empty, lower, strip, is_space, any,
  lookup, insert, keep, lstrip_by, rstrip_by,
}
use xodusmile.Signal.{Signal, int, pos, high, first_positive, positive_int}
use xodusmile.Responder.Types.{Reason, detected, parent_of}
use xodusmile.PidTable.{find, put}
use xodusmile.Reporter.FileNames.{name_or_unknown, decimal, decimal_within}
use xodusmile.Reporter.Joining.{Member, Campaign, signal_pid}
use xodusmile.Reporter.Behaviors.{
  Behavior, reason_text, behind_slash, up_to_space, first_word, signame_from_reason,
  is_unknown_name, campaign_behaviors, rows_of, observe, consider, see_signal, is_behavior,
  note_time, note_ts, pid_names, proc_list, reasons, row_of, text_leb,
}

abbrev stopped : String → Reason → Member
stopped name reason = record {
  ts = 20;
  pid = 7;
  name = name;
  reason = reason;
  terminated = true;
  quarantined = false;
  incident_file = "";
}

abbrev burst : Signal
burst = record {
  ident = 0;
  detector = "mass_io";
  name = "high_entropy_write";
  weight = 10;
  severity = high;
  metadata = ("pid", int (pos 7)) ∷ [];
  timestamp = 10;
}

abbrev by_tool : Reason
by_tool = parent_of (detected "process_cmdline" "vssadmin_delete_shadows") 9

abbrev attack : Campaign
attack = record {
  start_ts = 20;
  last_ts = 20;
  filename = "campaign_1.md";
  pids = 7 ∷ [];
  members = stopped "bad.exe" by_tool ∷ [];
  signals = burst ∷ [];
  sig_keys = [];
  finalized = true;
  finalized_ts = 30;
}

abbrev row : ℕ → String → Behavior
row ts name = record { ts = ts; name = name; procs = "bad.exe" ∷ []; events = (ts, "bad.exe") ∷ [] }

attack_rows :
    campaign_behaviors attack
    ≡ some (row 10 "high_entropy_write" ∷ row 20 "vssadmin_delete_shadows" ∷ [])
unfolding campaign_behaviors is_empty behind_slash reason_text decimal strip rows_of observe
    up_to_space consider lookup see_signal is_behavior elem is_unknown_name lower signal_pid
    first_positive find put insert any keep is_space lstrip_by rstrip_by first_word note_time
    note_ts pid_names proc_list reasons row_of signame_from_reason text_leb decimal_within
    name_or_unknown positive_int
attack_rows = refl
