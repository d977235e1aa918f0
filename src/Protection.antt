-- ===== src/Protection.antt =====
-- The never-kill rules of responder.py (`NEVER_KILL`, `PATH_VERIFIED`, `_is_never_kill`) and the
-- masquerade test of detectors/process_watcher.py, which guards the same names from the other side.
-- `SystemRoot` is read from the environment, so it is an argument.
pub mod Laws
use Prim.Native.String.{◌++◌}
use xodusmile.Prelude.{
  String, Bool, true, false, not, ◌||◌, List, [], ◌∷◌, if◌then◌else◌, elem, lower, normcase,
  begins_with, is_empty, ends_with_separator, any,
}

abbrev pub never_kill : List String
never_kill =
    "system" ∷ "registry" ∷ "smss.exe" ∷ "csrss.exe" ∷ "wininit.exe" ∷ "services.exe" ∷ "lsass.exe"
    ∷ "winlogon.exe" ∷ "fontdrvhost.exe" ∷ "dwm.exe" ∷ "memcompression" ∷ "python.exe" ∷ "py.exe"
    ∷ "pythonw.exe" ∷ "chrome.exe" ∷ "msedge.exe" ∷ "edge.exe" ∷ "firefox.exe" ∷ "iexplore.exe"
    ∷ "brave.exe" ∷ "opera.exe" ∷ "explorer.exe" ∷ "systemsettings.exe" ∷ "shellexperiencehost.exe"
    ∷ "searchhost.exe" ∷ "startmenuexperiencehost.exe" ∷ "svchost.exe" ∷ "wininit.exe"
    ∷ "spoolsv.exe" ∷ "audiodg.exe" ∷ "conhost.exe" ∷ "taskhostw.exe" ∷ "runtimebroker.exe"
    ∷ "devenv.exe" ∷ "code.exe" ∷ "node.exe" ∷ "powershell.exe" ∷ "powershell_ise.exe" ∷ "cmd.exe"
    ∷ "wt.exe" ∷ "backgrounddownload.exe" ∷ "wmiprvse.exe" ∷ "trustedinstaller.exe" ∷ "tiworker.exe"
    ∷ "musnotification.exe" ∷ "msmpeng.exe" ∷ "mssense.exe" ∷ "securityhealthservice.exe" ∷ []

abbrev pub escalate_child_names : List String
escalate_child_names =
    "powershell.exe" ∷ "pwsh.exe" ∷ "cmd.exe" ∷ "vssadmin.exe" ∷ "wmic.exe" ∷ "wbadmin.exe"
    ∷ "bcdedit.exe" ∷ "wevtutil.exe" ∷ "fsutil.exe" ∷ "schtasks.exe" ∷ "reg.exe" ∷ "mshta.exe"
    ∷ "regsvr32.exe" ∷ "rundll32.exe" ∷ "cipher.exe" ∷ "bitsadmin.exe" ∷ "certutil.exe"
    ∷ "manage-bde.exe" ∷ "netsh.exe" ∷ []

abbrev pub path_verified : List String
path_verified =
    "smss.exe" ∷ "csrss.exe" ∷ "wininit.exe" ∷ "services.exe" ∷ "lsass.exe" ∷ "lsaiso.exe"
    ∷ "winlogon.exe" ∷ "fontdrvhost.exe" ∷ "dwm.exe" ∷ "svchost.exe" ∷ "spoolsv.exe" ∷ "audiodg.exe"
    ∷ "conhost.exe" ∷ "taskhostw.exe" ∷ "runtimebroker.exe" ∷ "wmiprvse.exe" ∷ "sihost.exe"
    ∷ "dllhost.exe" ∷ "ctfmon.exe" ∷ []

abbrev pub pseudo_procs : List String
pseudo_procs = "system" ∷ "registry" ∷ "memcompression" ∷ "secure system" ∷ []

abbrev pub default_root : String
default_root = "C:\\Windows"

-- `os.path.join(root, sub)` of Windows, for a relative `sub`.
unfoldable pub join_path : String → String → String
join_path root sub = if ends_with_separator root then root ++ sub else root ++ ("\\" ++ sub)

-- `_TRUSTED_DIRS`, and `_SYSTEM_DIRS` of the process watcher.
unfoldable pub trusted_dirs : String → List String
unfolding join_path
trusted_dirs root = normcase (join_path root "System32") ∷ normcase (join_path root "SysWOW64") ∷ []

-- `any(p.startswith(d) for d in dirs)`
unfoldable pub under_any : List String → String → Bool
under_any [] p = false
under_any (d ∷ dirs) p = begins_with p d || under_any dirs p

unfoldable pub path_is_untrusted : String → String → Bool
path_is_untrusted root exe_path =
    if is_empty exe_path then false else not (under_any (trusted_dirs root) (normcase exe_path))

unfoldable pub is_never_kill : String → String → String → Bool
is_never_kill root proc_name exe_path =
    let name = lower proc_name in
    if elem name pseudo_procs
    then true
    else if not (elem name never_kill)
    then false
    else if elem name path_verified
    then (if path_is_untrusted root exe_path then false else true)
    else true

abbrev pub system_binary_names : List String
system_binary_names =
    "smss.exe" ∷ "csrss.exe" ∷ "wininit.exe" ∷ "services.exe" ∷ "lsass.exe" ∷ "lsaiso.exe"
    ∷ "winlogon.exe" ∷ "fontdrvhost.exe" ∷ "dwm.exe" ∷ "svchost.exe" ∷ "spoolsv.exe" ∷ "audiodg.exe"
    ∷ "conhost.exe" ∷ "taskhostw.exe" ∷ "runtimebroker.exe" ∷ "wmiprvse.exe" ∷ "sihost.exe"
    ∷ "dllhost.exe" ∷ "ctfmon.exe" ∷ "searchindexer.exe" ∷ []

unfoldable pub is_masquerading : String → String → String → Bool
is_masquerading root name exe_path =
    if not (elem (lower name) system_binary_names)
    then false
    else if is_empty exe_path
    then false
    else not (under_any (trusted_dirs root) (normcase exe_path))
