-- ===== src/Config/Tests.antt =====
-- A policy file with a mistyped mode, and a token in the environment.
use xodusmile.Prelude.{◌≡◌, refl, String, true, false, none, some, List, [], ◌∷◌, is_empty, lookup}
use xodusmile.Dashboard.{parse_mode}
use xodusmile.Config.{Entry, plain, table, keys, text, Casts, refused, scalar_of}
use xodusmile.Config.Loading.{Environment, load, Flags, start}
use xodusmile.Config.Laws.{start_invalid_mode}

abbrev casts : Casts
casts = record {
  to_int = λ v. refused;
  to_float = λ v. refused;
  to_str = λ v. "shown";
  to_bool = λ v. true;
}

abbrev policy : List (String × Entry)
policy =
    ("responder_mode", plain (text "Kill")) ∷ ("dashboard", table (("port", text "high") ∷ [])) ∷ []

abbrev env : Environment
env = record { auth_token = " secret "; webhook_url = ""; syslog_host = "siem" }

abbrev no_flags : Flags
no_flags = record {
  mode = "";
  auth_token = "";
  no_minifilter = false;
  no_tamper_protection = false;
  no_notify = false;
}

start_invalid_mode_example :
    start no_flags (load casts env (some ("config.toml", keys policy))) ≡ none
unfolding lookup parse_mode is_empty
start_invalid_mode_example =
    start_invalid_mode casts env "config.toml" policy (λ key. scalar_of (lookup key policy)) "Kill"
      no_flags refl refl refl refl
