-- ===== src/Reporter/Tests.antt =====
-- The reporter on a process that is quarantined, then ended, and on names that files cannot carry.
use xodusmile.Prelude.{
  ℕ, ◌*◌, ◌≡◌, refl, true, false, none, some, List, [], ◌∷◌, arith, All, last_slice, map, not,
  contains, is_empty, begins_with, strip, is_space, elem, lower, lstrip_by, rstrip_by,
}
use Prim.Native.String.{◌++◌ as join_text}
use xodusmile.Signal.{second}
use xodusmile.Scoring.{recent_signals, evict_old, evict}
use xodusmile.Responder.Types.{KillAction, quarantine, detected}
use xodusmile.Reporter.FileNames.{
  incident_file, is_plain, safe_name, name_or_unknown, safe_char, decimal, decimal_within,
}
use xodusmile.Reporter.Behaviors.{
  is_unknown_name, signame_from_reason, first_word, reason_text, behind_slash, up_to_space,
}
use xodusmile.Reporter.Joining.{Machine, Campaign}
use xodusmile.Reporter.{
  Reporter, on_action, find_state, put_state, prune_states, file_report, update_campaign,
  finalize_due, close, state_of, campaign_max,
}
use xodusmile.Reporter.Notify.{
  popup_times, IsLimited, popup_times-IsLimited, paced, popup_times-paced,
}
use xodusmile.Reporter.Guard.{is_words, letters, incident_file-is_plain}
use xodusmile.Reporter.Runs.{acted, woken, run, step}
use xodusmile.Reporter.Dedup.{run-on_action_repeated, on_action_unwritten}
use xodusmile.Reporter.Campaigns.{
  Step, updated, take_steps, incident_times, times_of, take_steps-groups_of,
}
use xodusmile.Reporter.Grouping.{groups_of}
use xodusmile.Reporter.Reports.{run-IsReported}
use xodusmile.Reporter.Behaviors.Times.{IsReported}
use xodusmile.Reporter.Closing.{IsWritten, close-IsFinal}

abbrev machine : ℕ → Machine
machine now = record { now = now; stamp = λ t. "20260101_120000"; writable = λ name. true }

abbrev full_disk : ℕ → Machine
full_disk now = record (machine now) { writable = λ name. false }

abbrev blocked : ℕ → KillAction
blocked t = record {
  timestamp = t;
  pid = 7;
  process_name = "bad.exe";
  cmdline = "";
  reason = detected "canary" "canary_modified";
  mode = quarantine;
  quarantined = true;
  terminated = false;
  error = none;
}

abbrev fresh : Reporter
fresh = record {
  engine = record { signals = []; window = 0 };
  notify = true;
  reported_states = [];
  records = [];
  campaigns = [];
  window = [];
  popups = 0;
  files = [];
  stopped = false;
}

popup_times-IsLimited_example : IsLimited [] (popup_times (1 ∷ 2 ∷ 3 ∷ 4 ∷ []) [])
popup_times-IsLimited_example =
    popup_times-IsLimited 0 9 (1 ∷ 2 ∷ 3 ∷ 4 ∷ [])
      (omega arith, (omega arith, (omega arith, (omega arith, omega arith))))

popup_times-paced_example :
    popup_times (paced 1003 second second) [] ≡ second ∷ (2 * second) ∷ (3 * second) ∷ []
popup_times-paced_example = popup_times-paced 1000 second second (omega arith)

stamp_words : is_words "20260101_120000" ≡ true
unfolding is_words letters
stamp_words = refl

incident_file-is_plain_example :
    is_plain (incident_file "20260101_120000" 7 "bad..exe")
    ≡ not (contains (join_text (safe_name (name_or_unknown "bad..exe")) ".md") "..")
incident_file-is_plain_example = incident_file-is_plain "20260101_120000" 7 "bad..exe" stamp_words

hidden_run : is_plain (incident_file "20260101_120000" 7 "bad..exe") ≡ false
unfolding is_plain incident_file decimal decimal_within safe_name safe_char name_or_unknown contains
    begins_with is_empty
hidden_run = refl

abbrev once : Reporter
once = on_action (machine 0) (blocked 0) fresh

once_run : find_state (state_of (blocked 0)) once.reported_states ≡ some 0
unfolding on_action find_state put_state prune_states file_report update_campaign
    signame_from_reason first_word reason_text behind_slash up_to_space is_empty strip is_space
    lstrip_by rstrip_by
once_run = refl

run-on_action_repeated_example :
    on_action (machine (2 * second)) (blocked second) (run (woken (machine second) ∷ []) once)
    ≡ run (woken (machine second) ∷ []) once
run-on_action_repeated_example =
    run-on_action_repeated (machine (2 * second)) (blocked second) 0 (woken (machine second) ∷ [])
      once once_run (omega arith, tt) (omega arith)

on_action_unwritten_example :
    (on_action (full_disk 0) (blocked 0) fresh
      ≡ record fresh { reported_states = prune_states 0 (put_state (state_of (blocked 0)) 0 []) })
    × (on_action (machine second) (blocked 0) (run [] (on_action (full_disk 0) (blocked 0) fresh))
        ≡ run [] (on_action (full_disk 0) (blocked 0) fresh))
unfolding find_state signame_from_reason first_word reason_text behind_slash up_to_space is_empty
    strip is_space lstrip_by rstrip_by
on_action_unwritten_example =
    on_action_unwritten (full_disk 0) (machine second) (blocked 0) [] fresh refl refl refl tt
      (omega arith)

run-IsReported_example :
    All
      (IsReported "canary_modified" "bad.exe")
      (run (acted (machine 0) (blocked 0) ∷ woken (machine second) ∷ []) fresh).campaigns
unfolding is_unknown_name elem lower strip is_empty
run-IsReported_example =
    run-IsReported (acted (machine 0) (blocked 0) ∷ woken (machine second) ∷ []) fresh
      "canary_modified" "bad.exe" tt refl

-- The run has a campaign.
reported_run :
    map times_of (run (acted (machine 0) (blocked 0) ∷ woken (machine second) ∷ []) fresh).campaigns
    ≡ (0 ∷ []) ∷ []
unfolding on_action find_state put_state prune_states file_report update_campaign
    signame_from_reason first_word reason_text behind_slash up_to_space is_empty strip is_space
    lstrip_by rstrip_by step finalize_due last_slice recent_signals evict_old evict
reported_run = refl

abbrev attack : List Step
attack =
    updated (machine 0) (blocked 0) "a.md"
    ∷ Step.woken (machine (60 * second))
    ∷ updated (machine 0) (blocked (100 * second)) "b.md"
    ∷ Step.woken (machine (300 * second))
    ∷ updated (machine 0) (blocked (300 * second)) "c.md"
    ∷ []

take_steps-groups_of_example :
    map times_of (take_steps attack fresh).campaigns
    ≡ last_slice campaign_max (groups_of (incident_times attack []))
take_steps-groups_of_example =
    take_steps-groups_of attack 0 fresh refl
      (omega arith, (omega arith, (omega arith, (omega arith, (omega arith, tt)))))

attack_run :
    groups_of (incident_times attack []) ≡ (0 ∷ 100 * second ∷ []) ∷ (300 * second ∷ []) ∷ []
attack_run = refl

close-IsFinal_example :
    All
      (λ (c : Campaign). c.finalized ≡ true)
      (close (machine 5) (run (acted (machine 0) (blocked 0) ∷ []) fresh)).campaigns
    × All
        (IsWritten
          (machine 5)
          (run (acted (machine 0) (blocked 0) ∷ []) fresh).campaigns
          (close (machine 5) (run (acted (machine 0) (blocked 0) ∷ []) fresh)).files)
        (run (acted (machine 0) (blocked 0) ∷ []) fresh).campaigns
    × (finalize_due
          (machine 6)
          false
          (close (machine 5) (run (acted (machine 0) (blocked 0) ∷ []) fresh))
        ≡ close (machine 5) (run (acted (machine 0) (blocked 0) ∷ []) fresh))
close-IsFinal_example =
    close-IsFinal (acted (machine 0) (blocked 0) ∷ []) (machine 5) (machine 6) false fresh tt
