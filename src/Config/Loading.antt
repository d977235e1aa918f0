-- ===== src/Config/Loading.antt =====
-- config.py: Config.load; agent.py: how main settles what it starts with.
use xodusmile.Prelude.{
  String, Bool, true, false, not, ◌&&◌, Option, none, some, List, if◌then◌else◌, is_empty, strip,
  lookup,
}
use xodusmile.Responder.Types.{Mode}
use xodusmile.Dashboard.{parse_mode}
use xodusmile.Config.{
  Entry, File, unreadable, no_table, keys, Scalar, Casts, Settings, defaults, apply_general,
  general_at, section_of, apply_dashboard, apply_syslog, apply_webhook,
}

-- The sections in their order; an exception in one keeps the next from being read.
unfoldable pub apply_sections : Casts → List (String × Entry) → Settings → Settings × Bool
unfolding apply_dashboard apply_syslog apply_webhook
apply_sections c raw cfg =
    let (d, d_ok) = apply_dashboard c (section_of (lookup "dashboard" raw)) cfg.dashboard in
    let (y, y_ok) = apply_syslog c (section_of (lookup "syslog" raw)) cfg.syslog in
    let (w, w_ok) = apply_webhook c (section_of (lookup "webhook" raw)) cfg.webhook in
    if not d_ok
    then (record cfg { dashboard = d }, false)
    else if not y_ok
    then (record cfg { dashboard = d; syslog = y }, false)
    else (record cfg { dashboard = d; syslog = y; webhook = w }, w_ok)

-- `_apply_dict`, with `gen.get`.
abbrev pub apply_with :
    Casts → List (String × Entry) → Settings → Option (String → Option Scalar) → Settings × Bool
apply_with c raw cfg none = (cfg, false)
apply_with c raw cfg (some get) = apply_sections c raw (apply_general get cfg)

-- `_apply_dict`
unfoldable pub apply_keys : Casts → List (String × Entry) → Settings → Settings × Bool
unfolding apply_general apply_sections
apply_keys c raw cfg = apply_with c raw cfg (general_at raw (lookup "general" raw))

abbrev pub sourced : String → Settings × Bool → Settings
sourced path (cfg, true) = record cfg { source_path = some path }
sourced path (cfg, false) = cfg

-- The file that was found, if there is one. An exception leaves what was applied by then.
unfoldable pub apply_file : Casts → Option (String × File) → Settings
unfolding apply_keys
apply_file c none = defaults
apply_file c (some (path, unreadable)) = defaults
apply_file c (some (path, no_table)) = record defaults { source_path = some path }
apply_file c (some (path, keys raw)) = sourced path (apply_keys c raw defaults)

-- The environment variables; one that is not set is empty.
pub record Environment : Type 0 where
  pub auth_token : String
  pub webhook_url : String
  pub syslog_host : String

-- `_apply_env_overrides`
unfoldable pub apply_env : Environment → Settings → Settings
apply_env env cfg = record cfg {
  dashboard =
      if is_empty env.auth_token
      then cfg.dashboard
      else record cfg.dashboard { auth_token = env.auth_token };
  webhook =
      if is_empty env.webhook_url
      then cfg.webhook
      else record cfg.webhook { url = env.webhook_url; enabled = true };
  syslog =
      if is_empty env.syslog_host
      then cfg.syslog
      else record cfg.syslog { host = env.syslog_host; enabled = true };
}

unfoldable pub load : Casts → Environment → Option (String × File) → Settings
unfolding apply_file apply_env
load c env file =
    let cfg = apply_env env (apply_file c file) in
    record cfg { dashboard = record cfg.dashboard { auth_token = strip cfg.dashboard.auth_token } }

-- `to_dict`: what it shows of the token.
unfoldable pub shown_token : Settings → String
shown_token cfg = if is_empty cfg.dashboard.auth_token then "" else "***"

-- The flags of the command line that main weighs against the configuration; an empty text is a flag that
-- is not given.
pub record Flags : Type 0 where
  pub mode : String
  pub auth_token : String
  pub no_minifilter : Bool
  pub no_tamper_protection : Bool
  pub no_notify : Bool

pub record Start : Type 0 where
  pub mode : Mode
  pub auth_token : String
  pub enable_minifilter : Bool
  pub enable_tamper_protection : Bool
  pub notify_user : Bool

-- `a or b`, of texts.
abbrev pub first_text : String → String → String
first_text a b = if is_empty a then b else a

abbrev pub started : Flags → Settings → Option Mode → Option Start
started flags cfg none = none
started flags cfg (some mode) = some (record {
  mode = mode;
  auth_token = first_text flags.auth_token cfg.dashboard.auth_token;
  enable_minifilter = cfg.enable_minifilter && not flags.no_minifilter;
  enable_tamper_protection = cfg.enable_tamper_protection && not flags.no_tamper_protection;
  notify_user = cfg.notify_user && not flags.no_notify;
})

-- What main starts the agent with; none where `ResponderMode(mode)` raises, so that nothing starts.
unfoldable pub start : Flags → Settings → Option Start
unfolding parse_mode
start flags cfg = started flags cfg (parse_mode (first_text flags.mode cfg.responder_mode))
