-- ===== src/Reporter/FileNames.antt =====
-- incident_report.py: the names of the reports' files. `stamp` is `time.strftime("%Y%m%d_%H%M%S", …)`
-- in the machine's time zone.
use Prim.Native.Char.{Char, code}
use Prim.Native.String.{String, char_at, ◌++◌}
use xodusmile.Prelude.{
  ℕ, zero, suc, ◌/◌, ◌%◌, Bool, ◌&&◌, ◌||◌, not, leb, ◌==◌, if◌then◌else◌, contains, is_empty, ltb,
}

abbrev pub digit : ℕ → String
digit n =
    if n == 0
    then "0"
    else if n == 1
    then "1"
    else if n == 2
    then "2"
    else if n == 3
    then "3"
    else if n == 4
    then "4"
    else if n == 5
    then "5"
    else if n == 6
    then "6"
    else if n == 7
    then "7"
    else if n == 8
    then "8"
    else "9"

unfoldable pub decimal_within : ℕ → ℕ → String
decimal_within zero n = ""
decimal_within (suc fuel) n =
    let front = decimal_within fuel (n / 10) in
    if ltb n 10 then digit n else front ++ digit (n % 10)

-- `str(n)`. A number has no more digits than its value and one.
unfoldable pub decimal : ℕ → String
unfolding decimal_within
decimal n = decimal_within (suc n) n

-- The letters, digits, `.`, `_` and `-`.
abbrev pub is_safe : Char → Bool
is_safe c =
    leb b'A' (code c) && leb (code c) b'Z'
    || leb b'a' (code c) && leb (code c) b'z'
    || leb b'0' (code c) && leb (code c) b'9'
    || code c == b'.'
    || code c == b'_'
    || code c == b'-'

unfoldable pub safe_char : Char → Char
safe_char c = if is_safe c then c else char_at "_" 0

-- `re.sub(r"[^A-Za-z0-9._-]", "_", name)`
unfoldable pub safe_name : String → String
unfolding safe_char
safe_name String.[] = String.[]
safe_name (String.◌∷◌ c s) = String.◌∷◌ (safe_char c) (safe_name s)

-- `action.process_name or "unknown"`
unfoldable pub name_or_unknown : String → String
name_or_unknown name = if is_empty name then "unknown" else name

unfoldable pub incident_file : String → ℕ → String → String
incident_file stamp pid name =
    "incident_"
    ++ (stamp ++ ("_pid" ++ (decimal pid ++ ("_" ++ (safe_name (name_or_unknown name) ++ ".md")))))

unfoldable pub campaign_file : String → String
campaign_file stamp = "campaign_" ++ (stamp ++ ".md")

-- The first guard of `read_report`.
unfoldable pub is_plain : String → Bool
is_plain filename =
    not (
      is_empty filename
      || contains filename "/"
      || contains filename "\\"
      || contains filename "..")
