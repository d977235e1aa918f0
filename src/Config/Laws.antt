-- ===== src/Config/Laws.antt =====
-- config.py and agent.py: what wins, and what keeps the agent from starting.
use xodusmile.Prelude.{
  ◌≡◌, refl, ap, ◌∙◌, String, Bool, true, false, not, Option, none, some, List, is_empty, strip,
  strip-strip, lookup, when,
}
use xodusmile.Dashboard.{parse_mode}
use xodusmile.Config.{
  Entry, File, keys, Scalar, text, Casts, Settings, defaults, apply_general, general_at, section_of,
  apply_dashboard, apply_syslog, text_or,
}
use xodusmile.Config.Loading.{
  apply_sections, apply_with, apply_keys, sourced, apply_file, Environment, apply_env, load, Flags,
  first_text, started, start,
}

-- Whatever the file holds or does not hold, a variable of the environment wins: a token counts without the
-- white space around it, an address also turns its outlet on. And the token never has white space around
-- it.
pub load-environment :
    (c : Casts) (env : Environment) (file : Option (String × File))
    → (is_empty env.auth_token ≡ false
        → (load c env file).dashboard.auth_token ≡ strip env.auth_token)
      × (is_empty env.webhook_url ≡ false
          → ((load c env file).webhook.url ≡ env.webhook_url)
            × ((load c env file).webhook.enabled ≡ true))
      × (is_empty env.syslog_host ≡ false
          → ((load c env file).syslog.host ≡ env.syslog_host)
            × ((load c env file).syslog.enabled ≡ true))
      × (strip (load c env file).dashboard.auth_token ≡ (load c env file).dashboard.auth_token)
unfolding load apply_env
load-environment c env file = (
  (λ h. simp h refl),
  (λ h. simp h (refl, refl)),
  (λ h. simp h (refl, refl)),
  strip-strip (apply_env env (apply_file c file)).dashboard.auth_token,
)

-- The sections leave the mode.
apply_sections-mode :
    (c : Casts) (raw : List (String × Entry)) (cfg : Settings)
    → (apply_sections c raw cfg).0.responder_mode ≡ cfg.responder_mode
unfolding apply_sections
apply_sections-mode c raw cfg =
    let P : Settings × Bool → Type 0 = λ x. x.0.responder_mode ≡ cfg.responder_mode in
    when P (not (apply_dashboard c (section_of (lookup "dashboard" raw)) cfg.dashboard).1)
      (λ _. refl)
      (λ _.
        when P (not (apply_syslog c (section_of (lookup "syslog" raw)) cfg.syslog).1) (λ _. refl)
          (λ _. refl))

sourced-mode :
    (path : String) (x : Settings × Bool) → (sourced path x).responder_mode ≡ x.0.responder_mode
sourced-mode path (cfg, true) = refl
sourced-mode path (cfg, false) = refl

load-mode :
    (c : Casts) (env : Environment) (path : String) (raw : List (String × Entry))
    (get : String → Option Scalar) (mode : String)
    → general_at raw (lookup "general" raw) ≡ some get
    → get "responder_mode" ≡ some (text mode)
    → (load c env (some (path, keys raw))).responder_mode ≡ mode
unfolding load apply_env apply_file apply_keys apply_general
load-mode c env path raw get mode general set =
    sourced-mode path (apply_with c raw defaults (general_at raw (lookup "general" raw)))
    ∙ ap (λ g. (apply_with c raw defaults g).0.responder_mode) general
    ∙ apply_sections-mode c raw (apply_general get defaults)
    ∙ ap (text_or defaults.responder_mode) set

-- A file whose mode is a text other than the three keeps the agent from starting, whatever else stands in
-- the file and in the environment, unless the command line gives a mode.
pub start_invalid_mode :
    (c : Casts) (env : Environment) (path : String) (raw : List (String × Entry))
    (get : String → Option Scalar) (mode : String) (flags : Flags)
    → general_at raw (lookup "general" raw) ≡ some get
    → get "responder_mode" ≡ some (text mode)
    → parse_mode mode ≡ none
    → is_empty flags.mode ≡ true
    → start flags (load c env (some (path, keys raw))) ≡ none
unfolding start
start_invalid_mode c env path raw get mode flags general set invalid not_given =
    let settled : first_text flags.mode (load c env (some (path, keys raw))).responder_mode ≡ mode =
      simp not_given (load-mode c env path raw get mode general set) in
    ap (started flags (load c env (some (path, keys raw)))) (ap parse_mode settled ∙ invalid)
