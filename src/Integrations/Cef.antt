-- ===== src/Integrations/Cef.antt =====
-- integrations.py: build_cef and the escapes. The texts of numbers and the ATT&CK technique of a name
-- are arguments.
use Prim.Native.Char.{code}
use xodusmile.Prelude.{
  ℕ, ◌/◌, String, Option, none, some, List, [], ◌∷◌, ◌==◌, if◌then◌else◌, lookup,
}
use Prim.Native.String.{◌++◌}

-- `s.replace(c, r)` for a text `c` of one character.
unfoldable pub replace : ℕ → String → String → String
replace c r String.[] = ""
replace c r (String.◌∷◌ x s) =
    let rest = replace c r s in if code x == c then r ++ rest else String.◌∷◌ x rest

-- `_cef_escape`
unfoldable pub cef_escape : String → String
cef_escape s = replace 13 " " (replace 10 " " (replace 61 "\\=" (replace 92 "\\\\" s)))

-- `_cef_header_escape`
unfoldable pub cef_header_escape : String → String
cef_header_escape s = replace 10 " " (replace 13 " " (replace 124 "\\|" (replace 92 "\\\\" s)))

-- `_SEV_RANK`
abbrev pub sev_rank : List (String × ℕ)
sev_rank = ("INFO", 0) ∷ ("LOW", 1) ∷ ("MEDIUM", 2) ∷ ("HIGH", 3) ∷ ("CRITICAL", 4) ∷ []

-- `_CEF_SEV`, as texts.
abbrev pub cef_sev : List (String × String)
cef_sev = ("INFO", "1") ∷ ("LOW", "3") ∷ ("MEDIUM", "5") ∷ ("HIGH", "8") ∷ ("CRITICAL", "10") ∷ []

-- `_SYSLOG_PRI`, as texts.
abbrev pub syslog_pri : List (String × String)
syslog_pri =
    ("INFO", "134")
    ∷ ("LOW", "133")
    ∷ ("MEDIUM", "132")
    ∷ ("HIGH", "131")
    ∷ ("CRITICAL", "129")
    ∷ []

abbrev pub or_default {ℓ} : {A : Type ℓ} → A → Option A → A
or_default a none = a
or_default a (some b) = b

-- A signal as a dictionary, which has its timestamp. The entries of the metadata are there where they are truthy.
pub record CefEvent : Type 0 where
  pub name : Option String
  pub message : Option String
  pub detector : Option String
  pub weight : Option ℕ
  pub timestamp : ℕ
  pub pid : Option String
  pub process : Option String
  pub path : Option String

-- `"|".join(fields)`
abbrev pub join_bars : List String → String
join_bars [] = ""
join_bars (f ∷ []) = f
join_bars (f ∷ g ∷ fs) = f ++ ("|" ++ join_bars (g ∷ fs))

-- `" ".join(f"{k}={_cef_escape(v)}" …)`
unfoldable pub join_extension : List (String × String) → String
join_extension [] = ""
join_extension ((k, v) ∷ []) = k ++ ("=" ++ cef_escape v)
join_extension ((k, v) ∷ e ∷ es) = k ++ ("=" ++ (cef_escape v ++ (" " ++ join_extension (e ∷ es))))

abbrev pub entry : String → Option String → List (String × String) → List (String × String)
entry k none es = es
entry k (some v) es = (k, v) ∷ es

unfoldable pub extension :
    (ℕ → String) → String → CefEvent → ℕ → String → String → List (String × String)
extension show tid event score level host =
    ("rt", show (event.timestamp / 1000))
    ∷ ("cs1Label", "detector")
    ∷ ("cs1", or_default "" event.detector)
    ∷ ("cs2Label", "mitreTechnique")
    ∷ ("cs2", tid)
    ∷ ("cs3Label", "threatLevel")
    ∷ ("cs3", level)
    ∷ ("cn1Label", "weight")
    ∷ ("cn1", show (or_default 0 event.weight))
    ∷ ("cn2Label", "totalScore")
    ∷ ("cn2", show score)
    ∷ ("dvchost", host)
    ∷ entry "dpid" event.pid (entry "dproc" event.process (entry "fname" event.path []))

abbrev pub name_of : CefEvent → String
name_of event = or_default "signal" event.name

unfoldable pub header_fields : CefEvent → String → List String
header_fields event level =
    "CEF:0"
    ∷ "RansomGuard"
    ∷ "EDR"
    ∷ "1.2"
    ∷ cef_header_escape (name_of event)
    ∷ cef_header_escape (or_default (name_of event) event.message)
    ∷ or_default "5" (lookup level cef_sev)
    ∷ []

unfoldable pub build_cef : (ℕ → String) → String → CefEvent → ℕ → String → String → String
unfolding header_fields
build_cef show tid event score level host =
    join_bars (header_fields event level)
    ++ ("|" ++ join_extension (extension show tid event score level host))

-- The line that `_send_syslog` sends.
unfoldable pub syslog_line : (ℕ → String) → String → CefEvent → ℕ → String → String → String
syslog_line show tid event score level host = replace 10 " " (
    replace 13 " " (
      "<"
      ++ (or_default "132" (lookup level syslog_pri)
          ++ (">" ++ (host ++ (" RansomGuard: " ++ build_cef show tid event score level host))))))
