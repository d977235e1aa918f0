-- ===== src/AttackMap/Table.antt =====
-- attack_map.py: the techniques of MITRE ATT&CK and the signals that they belong to.
use xodusmile.Prelude.{String, List, [], ◌∷◌}

-- The address, which the identifier determines, is left out.
pub record Technique : Type 0 where
  pub tid : String
  pub name : String
  pub tactic : String
  pub tactic_ko : String

abbrev pub technique : (tid name tactic tactic_ko : String) → Technique
technique tid name tactic tactic_ko = record {
  tid = tid;
  name = name;
  tactic = tactic;
  tactic_ko = tactic_ko;
}

abbrev pub data_encrypted : Technique
data_encrypted = technique "T1486" "Data Encrypted for Impact" "Impact" "임팩트(피해)"

abbrev pub inhibit_recovery : Technique
inhibit_recovery = technique "T1490" "Inhibit System Recovery" "Impact" "임팩트(피해)"

abbrev pub service_stop : Technique
service_stop = technique "T1489" "Service Stop" "Impact" "임팩트(피해)"

abbrev pub data_destruction : Technique
data_destruction = technique "T1485" "Data Destruction" "Impact" "임팩트(피해)"

abbrev pub impair_defenses : Technique
impair_defenses =
    technique "T1562.001" "Impair Defenses: Disable or Modify Tools" "Defense Evasion" "방어 회피"

abbrev pub disable_fw : Technique
disable_fw =
    technique "T1562.004" "Impair Defenses: Disable or Modify System Firewall" "Defense Evasion"
      "방어 회피"

abbrev pub indicator_removal : Technique
indicator_removal =
    technique "T1070.001" "Indicator Removal: Clear Windows Event Logs" "Defense Evasion" "방어 회피"

abbrev pub file_deletion : Technique
file_deletion = technique "T1070.004" "Indicator Removal: File Deletion" "Defense Evasion" "방어 회피"

abbrev pub deobfuscate : Technique
deobfuscate = technique "T1140" "Deobfuscate/Decode Files or Information" "Defense Evasion" "방어 회피"

abbrev pub sched_task : Technique
sched_task = technique "T1053.005" "Scheduled Task/Job: Scheduled Task" "Persistence" "지속성"

abbrev pub run_keys : Technique
run_keys =
    technique "T1547.001" "Boot or Logon Autostart Execution: Registry Run Keys" "Persistence" "지속성"

abbrev pub powershell : Technique
powershell = technique "T1059.001" "Command and Scripting Interpreter: PowerShell" "Execution" "실행"

abbrev pub cmd_shell : Technique
cmd_shell =
    technique "T1059.003" "Command and Scripting Interpreter: Windows Command Shell" "Execution"
      "실행"

abbrev pub ingress_tool : Technique
ingress_tool = technique "T1105" "Ingress Tool Transfer" "Command and Control" "명령·제어"

abbrev pub masquerading : Technique
masquerading =
    technique "T1036.005" "Masquerading: Match Legitimate Name or Location" "Defense Evasion"
      "방어 회피"

abbrev pub proc_injection : Technique
proc_injection = technique "T1055" "Process Injection" "Defense Evasion" "방어 회피"

abbrev pub proxy_exec : Technique
proxy_exec = technique "T1218" "System Binary Proxy Execution" "Defense Evasion" "방어 회피"

abbrev pub bits_jobs : Technique
bits_jobs = technique "T1197" "BITS Jobs" "Defense Evasion" "방어 회피"

abbrev pub create_service : Technique
create_service =
    technique "T1543.003" "Create or Modify System Process: Windows Service" "Persistence" "지속성"

abbrev pub wmi : Technique
wmi = technique "T1047" "Windows Management Instrumentation" "Execution" "실행"

abbrev pub archive_util : Technique
archive_util = technique "T1560.001" "Archive Collected Data: Archive via Utility" "Collection" "수집"

abbrev pub exfil_cloud : Technique
exfil_cloud =
    technique "T1567.002" "Exfiltration Over Web Service: Exfiltration to Cloud Storage"
      "Exfiltration" "유출"

-- `_SIGNAL_TECHNIQUES`
unfoldable pub signal_techniques : List (String × List Technique)
signal_techniques =
    ("high_entropy_write", data_encrypted ∷ [])
    ∷ ("magic_bytes_lost", data_encrypted ∷ [])
    ∷ ("modify_burst", data_encrypted ∷ [])
    ∷ ("suspicious_extension", data_encrypted ∷ [])
    ∷ ("kernel_write_burst", data_encrypted ∷ [])
    ∷ ("kernel_rename_burst", data_encrypted ∷ [])
    ∷ ("kernel_blocked_op", data_encrypted ∷ [])
    ∷ ("process_write_burst", data_encrypted ∷ [])
    ∷ ("canary_modified", data_encrypted ∷ [])
    ∷ ("canary_deleted", data_encrypted ∷ data_destruction ∷ [])
    ∷ ("file_delete", file_deletion ∷ [])
    ∷ ("ransom_note_dropped", data_encrypted ∷ [])
    ∷ ("ransom_note_spread", data_encrypted ∷ [])
    ∷ ("vssadmin_delete_shadows", inhibit_recovery ∷ [])
    ∷ ("wmic_shadowcopy_delete", inhibit_recovery ∷ [])
    ∷ ("powershell_remove_shadowcopy", inhibit_recovery ∷ powershell ∷ [])
    ∷ ("wbadmin_delete_catalog", inhibit_recovery ∷ [])
    ∷ ("bcdedit_recovery_disabled", inhibit_recovery ∷ [])
    ∷ ("bcdedit_ignore_failures", inhibit_recovery ∷ [])
    ∷ ("bcdedit_safeboot", inhibit_recovery ∷ [])
    ∷ ("bitlocker_disable", inhibit_recovery ∷ [])
    ∷ ("vssadmin_resize_shadowstorage", inhibit_recovery ∷ [])
    ∷ ("cipher_efs_encrypt", data_encrypted ∷ [])
    ∷ ("bitlocker_abuse_enable", data_encrypted ∷ inhibit_recovery ∷ [])
    ∷ ("certutil_download", proxy_exec ∷ ingress_tool ∷ [])
    ∷ ("certutil_decode_payload", proxy_exec ∷ deobfuscate ∷ [])
    ∷ ("bitsadmin_transfer", bits_jobs ∷ ingress_tool ∷ [])
    ∷ ("esentutl_raw_copy", proxy_exec ∷ [])
    ∷ ("wmic_process_call_create", wmi ∷ [])
    ∷ ("kernel_service_create", create_service ∷ [])
    ∷ ("archive_password_staging", archive_util ∷ [])
    ∷ ("rclone_exfil", exfil_cloud ∷ [])
    ∷ ("trusted_process_encrypting", proc_injection ∷ data_encrypted ∷ [])
    ∷ ("defender_disable_realtime", impair_defenses ∷ service_stop ∷ [])
    ∷ ("defender_add_exclusion", impair_defenses ∷ [])
    ∷ ("defender_disable_via_registry", impair_defenses ∷ [])
    ∷ ("defender_self_disable", impair_defenses ∷ [])
    ∷ ("smartscreen_disable", impair_defenses ∷ [])
    ∷ ("netsh_firewall_off", disable_fw ∷ [])
    ∷ ("wevtutil_clear_log", indicator_removal ∷ [])
    ∷ ("powershell_clear_eventlog", indicator_removal ∷ powershell ∷ [])
    ∷ ("fsutil_usn_delete", indicator_removal ∷ [])
    ∷ ("cipher_wipe_free_space", file_deletion ∷ [])
    ∷ ("schtasks_persistence", sched_task ∷ [])
    ∷ ("run_key_persistence", run_keys ∷ [])
    ∷ ("powershell_obfuscated_exec", powershell ∷ deobfuscate ∷ [])
    ∷ ("powershell_downloader", powershell ∷ ingress_tool ∷ [])
    ∷ ("powershell_bypass_policy", powershell ∷ [])
    ∷ ("suspicious_parent_child", cmd_shell ∷ [])
    ∷ ("child_fanout", cmd_shell ∷ [])
    ∷ ("process_masquerade", masquerading ∷ [])
    ∷ ("tamper_blocked", impair_defenses ∷ [])
    ∷ []
