-- ===== src/Config.antt =====
-- config.py: Config, and the precedence of agent.main. What the parsers of TOML and JSON make of a file,
-- and what `int`, `float`, `str` and `bool` make of a value, are arguments.
pub mod Loading
pub mod Laws
mod Tests
use xodusmile.Prelude.{
  ℕ, String, Bool, true, false, not, ◌&&◌, ◌||◌, Option, none, some, List, [], ◌∷◌, ◌*◌,
  if◌then◌else◌, is_empty, strip, lookup, same,
}
use xodusmile.Signal.{ℤ, pos, second}

-- A value that is no table.
pub data Scalar : Type 0 where
  null : Scalar
  flag : Bool → Scalar
  number : ℤ → Scalar
  real : ℤ → Scalar
  text : String → Scalar
  array : List String → Scalar
  other : Scalar

-- What the file holds under a key: a value, or a table of values. An `array` has its items as `str` shows
-- them.
pub data Entry : Type 0 where
  plain : Scalar → Entry
  table : List (String × Scalar) → Entry

-- What a file comes to: an exception, a value that is no table, or its keys.
pub data File : Type 0 where
  unreadable : File
  no_table : File
  keys : List (String × Entry) → File

-- A cast of a value: the result, a TypeError or ValueError, or another exception.
pub data Cast (A : Type 0) : Type 0 where
  cast : A → Cast A
  refused : Cast A
  raised : Cast A

pub record Casts : Type 0 where
  pub to_int : Scalar → Cast ℤ
  pub to_float : Scalar → Cast ℤ
  pub to_str : Scalar → String
  pub to_bool : Scalar → Bool

pub record SyslogConfig : Type 0 where
  pub enabled : Bool
  pub host : String
  pub port : ℤ
  pub protocol : String
  pub min_severity : String

pub record WebhookConfig : Type 0 where
  pub enabled : Bool
  pub url : String
  pub min_severity : String
  pub timeout_sec : ℤ

pub record DashboardConfig : Type 0 where
  pub host : String
  pub port : ℤ
  pub auth_token : String
  pub auth_required_for_reads : Bool

pub record Settings : Type 0 where
  pub watch_dirs : List String
  pub db_path : String
  pub reports_dir : String
  pub responder_mode : String
  pub enable_minifilter : Bool
  pub enable_tamper_protection : Bool
  pub notify_user : Bool
  pub allowlist_path : String
  pub dashboard : DashboardConfig
  pub syslog : SyslogConfig
  pub webhook : WebhookConfig
  pub source_path : Option String

abbrev pub defaults : Settings
defaults = record {
  watch_dirs = [];
  db_path = "detector.db";
  reports_dir = "reports";
  responder_mode = "kill";
  enable_minifilter = true;
  enable_tamper_protection = true;
  notify_user = true;
  allowlist_path = "allowlist.json";
  dashboard = record {
    host = "127.0.0.1";
    port = pos 5000;
    auth_token = "";
    auth_required_for_reads = false;
  };
  syslog = record {
    enabled = false;
    host = "127.0.0.1";
    port = pos 514;
    protocol = "udp";
    min_severity = "HIGH";
  };
  webhook = record {
    enabled = false;
    url = "";
    min_severity = "HIGH";
    timeout_sec = pos (4 * second);
  };
  source_path = none;
}

abbrev pub scalar_of : Option Entry → Option Scalar
scalar_of none = none
scalar_of (some (plain v)) = some v
scalar_of (some (table t)) = some other

abbrev pub text_or : String → Option Scalar → String
text_or old (some (text s)) = s
text_or old none = old
text_or old (some null) = old
text_or old (some (flag b)) = old
text_or old (some (number n)) = old
text_or old (some (real x)) = old
text_or old (some (array xs)) = old
text_or old (some other) = old

abbrev pub flag_or : Bool → Option Scalar → Bool
flag_or old (some (flag b)) = b
flag_or old none = old
flag_or old (some null) = old
flag_or old (some (text s)) = old
flag_or old (some (number n)) = old
flag_or old (some (real x)) = old
flag_or old (some (array xs)) = old
flag_or old (some other) = old

abbrev pub array_or : List String → Option Scalar → List String
array_or old (some (array xs)) = xs
array_or old none = old
array_or old (some null) = old
array_or old (some (flag b)) = old
array_or old (some (text s)) = old
array_or old (some (number n)) = old
array_or old (some (real x)) = old
array_or old (some other) = old

-- The first part of `_apply_dict`, with what `gen.get` gives.
unfoldable pub apply_general : (String → Option Scalar) → Settings → Settings
apply_general get cfg = record cfg {
  db_path = text_or cfg.db_path (get "db_path");
  reports_dir = text_or cfg.reports_dir (get "reports_dir");
  responder_mode = text_or cfg.responder_mode (get "responder_mode");
  allowlist_path = text_or cfg.allowlist_path (get "allowlist_path");
  enable_minifilter = flag_or cfg.enable_minifilter (get "enable_minifilter");
  enable_tamper_protection = flag_or cfg.enable_tamper_protection (get "enable_tamper_protection");
  notify_user = flag_or cfg.notify_user (get "notify_user");
  watch_dirs = array_or cfg.watch_dirs (get "watch_dirs");
}

-- `raw.get("general", raw)`; none where it is no table, so that `gen.get` raises.
abbrev pub general_at : List (String × Entry) → Option Entry → Option (String → Option Scalar)
general_at raw none = some (λ key. scalar_of (lookup key raw))
general_at raw (some (table t)) = some (λ key. lookup key t)
general_at raw (some (plain v)) = none

-- `_apply_section` of a field that is a text, a truth value or a number; none is an exception that it does
-- not catch.
abbrev pub str_field : Casts → String → Option Scalar → String
str_field c old none = old
str_field c old (some v) = c.to_str v

abbrev pub bool_field : Casts → Bool → Option Scalar → Bool
bool_field c old none = old
bool_field c old (some v) = c.to_bool v

abbrev pub cast_or : {A : Type 0} → A → Cast A → Option A
cast_or old (cast a) = some a
cast_or old refused = some old
cast_or old raised = none

abbrev pub number_field : {A : Type 0} → (Scalar → Cast A) → A → Option Scalar → Option A
number_field to old none = some old
number_field to old (some v) = cast_or old (to v)

-- A section that is no table changes nothing.
abbrev pub section_of : Option Entry → List (String × Scalar)
section_of none = []
section_of (some (plain v)) = []
section_of (some (table t)) = t

-- The sections, field by field: an exception leaves the fields that stand before it. The truth value is
-- whether there was none.
unfoldable pub apply_dashboard :
    Casts → List (String × Scalar) → DashboardConfig → DashboardConfig × Bool
apply_dashboard c t d =
    let d' = record d { host = str_field c d.host (lookup "host" t) } in
    elim (number_field c.to_int d.port (lookup "port" t)) [
      | none ↦ (d', false)
      | some p ↦ (
        record d' {
          port = p;
          auth_token = str_field c d.auth_token (lookup "auth_token" t);
          auth_required_for_reads =
              bool_field c d.auth_required_for_reads (lookup "auth_required_for_reads" t);
        },
        true,
      )
    ]

unfoldable pub apply_syslog : Casts → List (String × Scalar) → SyslogConfig → SyslogConfig × Bool
apply_syslog c t y =
    let y' = record y {
      enabled = bool_field c y.enabled (lookup "enabled" t);
      host = str_field c y.host (lookup "host" t);
    } in
    elim (number_field c.to_int y.port (lookup "port" t)) [
      | none ↦ (y', false)
      | some p ↦ (
        record y' {
          port = p;
          protocol = str_field c y.protocol (lookup "protocol" t);
          min_severity = str_field c y.min_severity (lookup "min_severity" t);
        },
        true,
      )
    ]

unfoldable pub apply_webhook : Casts → List (String × Scalar) → WebhookConfig → WebhookConfig × Bool
apply_webhook c t w =
    let w' = record w {
      enabled = bool_field c w.enabled (lookup "enabled" t);
      url = str_field c w.url (lookup "url" t);
      min_severity = str_field c w.min_severity (lookup "min_severity" t);
    } in
    elim (number_field c.to_float w.timeout_sec (lookup "timeout_sec" t)) [
      | none ↦ (w', false)
      | some x ↦ (record w' { timeout_sec = x }, true)
    ]
