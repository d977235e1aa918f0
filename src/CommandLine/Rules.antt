-- ===== src/CommandLine/Rules.antt =====
-- detectors/process_cmdline.py: the rules on command lines. The patterns are texts, as Python's `re`
-- reads them, without regard to case; message texts are left out.
use xodusmile.Prelude.{String, ℕ, List, [], ◌∷◌}
use xodusmile.Signal.{Severity, medium, high, critical}

pub record Rule : Type 0 where
  pub name : String
  pub pattern : String
  pub weight : ℕ
  pub severity : Severity

abbrev pub rule : String → String → ℕ → Severity → Rule
rule name pattern weight severity = record {
  name = name;
  pattern = pattern;
  weight = weight;
  severity = severity;
}

abbrev pub rules : List Rule
rules =
    rule "vssadmin_delete_shadows" "vssadmin(\\.exe)?\\s+delete\\s+shadows" 70 critical
    ∷ rule "wmic_shadowcopy_delete" "wmic(\\.exe)?\\s+shadowcopy\\s+delete" 70 critical
    ∷ rule "wbadmin_delete_catalog" "wbadmin(\\.exe)?\\s+delete\\s+catalog" 60 high
    ∷ rule "powershell_remove_shadowcopy"
        "(get-wmiobject|gwmi|get-ciminstance).{0,40}shadowcopy.{0,40}(remove-wmiobject|remove-ciminstance)"
        70 critical
    ∷ rule "bcdedit_safeboot" "bcdedit(\\.exe)?.*safeboot\\s+(minimal|network)" 60 high
    ∷ rule "bcdedit_recovery_disabled" "bcdedit(\\.exe)?.*recoveryenabled\\s+no" 55 high
    ∷ rule "bcdedit_ignore_failures" "bcdedit(\\.exe)?.*bootstatuspolicy\\s+ignoreallfailures" 50
        high
    ∷ rule "defender_disable_realtime"
        "set-mppreference.*-disablerealtimemonitoring\\s+\\$?true|sc(\\.exe)?\\s+(stop|delete|config)\\s+(windefend|sense|wdnissvc|wdfilter)"
        55 high
    ∷ rule "defender_add_exclusion" "add-mppreference\\s+.*-exclusion(path|extension|process)" 45
        high
    ∷ rule "defender_disable_via_registry"
        "reg(\\.exe)?\\s+add\\s+.*\\\\Windows\\s+Defender\\b.*(disableantispyware|disablerealtimemonitoring|disablebehaviormonitoring)"
        55 high
    ∷ rule "smartscreen_disable"
        "set-mppreference\\s+.*-puaprotection\\s+0|reg(\\.exe)?\\s+add\\s+.*\\\\System\\b.*EnableSmartScreen.*\\s+0"
        35 medium
    ∷ rule "wevtutil_clear_log" "wevtutil(\\.exe)?\\s+(cl|clear-log)\\s+\\S+" 55 high
    ∷ rule "powershell_clear_eventlog"
        "(clear-eventlog|remove-eventlog|clear-winevent|clear-eventlogfile)" 55 high
    ∷ rule "fsutil_usn_delete" "fsutil(\\.exe)?\\s+usn\\s+deletejournal" 60 high
    ∷ rule "cipher_wipe_free_space" "\\bcipher(\\.exe)?\\s+/w(:|\\s)" 55 high
    ∷ rule "netsh_firewall_off"
        "netsh(\\.exe)?\\s+advfirewall\\s+set\\s+(allprofiles|domainprofile|privateprofile|publicprofile)\\s+state\\s+off"
        45 high
    ∷ rule "bitlocker_disable" "(manage-bde(\\.exe)?\\s+-off|disable-bitlocker)\\b" 50 high
    ∷ rule "cipher_efs_encrypt" "\\bcipher(\\.exe)?\\s+/e\\b" 45 high
    ∷ rule "bitlocker_abuse_enable"
        "(manage-bde(\\.exe)?\\s+.*-on\\b|enable-bitlocker\\b|manage-bde(\\.exe)?\\s+-on\\b)" 60
        high
    ∷ rule "vssadmin_resize_shadowstorage" "vssadmin(\\.exe)?\\s+resize\\s+shadowstorage" 55 high
    ∷ rule "certutil_download"
        "certutil(\\.exe)?\\s+.*-(urlcache|verifyctl)\\b.*\\bhttp|certutil(\\.exe)?\\s+.*-urlcache\\b.*-f\\b"
        45 high
    ∷ rule "certutil_decode_payload" "certutil(\\.exe)?\\s+.*-(decode|decodehex)\\b" 35 medium
    ∷ rule "bitsadmin_transfer" "bitsadmin(\\.exe)?\\s+.*/transfer\\b" 35 medium
    ∷ rule "esentutl_raw_copy" "esentutl(\\.exe)?\\s+.*/y\\b" 35 medium
    ∷ rule "wmic_process_call_create" "wmic(\\.exe)?\\s+.*process\\s+call\\s+create" 40 high
    ∷ rule "kernel_service_create" "sc(\\.exe)?\\s+create\\b.*type=\\s*kernel" 55 high
    ∷ rule "archive_password_staging" "\\b(7z|7za|7zr|rar|winrar|winzip)(\\.exe)?\\s+a\\b.*\\s-p" 30
        medium
    ∷ rule "rclone_exfil" "\\brclone(\\.exe)?\\s+(copy|sync|move|cat)\\b" 35 medium
    ∷ rule "schtasks_persistence"
        "schtasks(\\.exe)?\\s+/create\\b.*/sc\\s+(onlogon|onstart|onidle|minute)\\b.*/(rl|ru)\\s+\\S*system"
        35 medium
    ∷ rule "run_key_persistence"
        "reg(\\.exe)?\\s+add\\s+.*\\\\Microsoft\\\\Windows\\\\CurrentVersion\\\\Run(Once)?\\b" 30
        medium
    ∷ rule "powershell_obfuscated_exec"
        "powershell(\\.exe)?\\b.*-(enc(odedcommand)?|e)\\b\\s+[A-Za-z0-9+/=]{40}" 40 high
    ∷ rule "powershell_downloader"
        "powershell(\\.exe)?\\b.*(invoke-webrequest|iwr|invoke-restmethod|irm|\\(new-object\\s+net\\.webclient\\)\\.downloadstring|net\\.webclient\\)\\.downloadfile)"
        35 medium
    ∷ rule "powershell_bypass_policy"
        "powershell(\\.exe)?\\b.*-ex(ecutionpolicy)?\\s+bypass\\b.*-(w|windowstyle)\\s+hidden" 30
        medium
    ∷ []
