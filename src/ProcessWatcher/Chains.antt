-- ===== src/ProcessWatcher/Chains.antt =====
-- detectors/process_watcher.py: which children of which parents are suspicious.
use xodusmile.Prelude.{String, List, [], ◌∷◌}

abbrev pub script_hosts : List String
script_hosts =
    "powershell.exe" ∷ "pwsh.exe" ∷ "cmd.exe" ∷ "wscript.exe" ∷ "cscript.exe" ∷ "mshta.exe"
    ∷ "regsvr32.exe" ∷ "rundll32.exe" ∷ "bitsadmin.exe" ∷ "certutil.exe" ∷ "msbuild.exe"
    ∷ "installutil.exe" ∷ []

abbrev explorer_children : List String
explorer_children =
    "powershell.exe" ∷ "pwsh.exe" ∷ "mshta.exe" ∷ "regsvr32.exe" ∷ "rundll32.exe" ∷ "bitsadmin.exe"
    ∷ "certutil.exe" ∷ []

abbrev pub suspicious_chains : List (String × List String)
suspicious_chains =
    ("winword.exe", script_hosts)
    ∷ ("excel.exe", script_hosts)
    ∷ ("powerpnt.exe", script_hosts)
    ∷ ("outlook.exe", script_hosts)
    ∷ ("onenote.exe", script_hosts)
    ∷ ("msaccess.exe", script_hosts)
    ∷ ("visio.exe", script_hosts)
    ∷ ("acrord32.exe", script_hosts)
    ∷ ("acrobat.exe", script_hosts)
    ∷ ("msedge.exe", script_hosts)
    ∷ ("chrome.exe", script_hosts)
    ∷ ("firefox.exe", script_hosts)
    ∷ ("explorer.exe", explorer_children)
    ∷ ("runtimebroker.exe", script_hosts)
    ∷ ("searchhost.exe", script_hosts)
    ∷ ("shellhost.exe", script_hosts)
    ∷ ("onedrive.exe", script_hosts)
    ∷ []
