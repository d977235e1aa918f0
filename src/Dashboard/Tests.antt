-- ===== src/Dashboard/Tests.antt =====
-- A dashboard with a token: a request without it, and one with it.
use Prim.Native.String.{◌++◌}
use xodusmile.Prelude.{
  ◌≡◌, ◌⊎◌, refl, true, false, none, [], is_empty, strip, rstrip_by, lstrip_by, same, lower,
  first_chars,
}
use xodusmile.Responder.Types.{Os, gone, done, kill, Responder}
use xodusmile.Dashboard.{
  Headers, Site, Host, failed, set_responder_mode, handle, supplied, bearer, is_ascii,
}
use xodusmile.Dashboard.Access.{handle_unauthorized}

abbrev os : Os
os = record {
  now = 0;
  root = "c:\\windows";
  has_psutil = false;
  process = λ pid. none;
  exe = λ pid. none;
  psutil_kill = λ pid. gone;
  windows = true;
  win32_kill = λ pid. done;
  minifilter = none;
  pid_allowed = none;
}

abbrev host : Host
host = record { os = os; writable = true }

abbrev idle : Responder
idle = record {
  mode = kill;
  actions = [];
  already_killed = [];
  already_quarantined = [];
  own_pid = 4;
  engine = record { signals = []; window = 0 };
  calls = [];
}

abbrev site : Site
site = record {
  auth_token = " secret ";
  responder = idle;
  allowlist = record { entries = []; cache = []; file = [] };
}

abbrev nobody : Headers
nobody = record { api_key = ""; authorization = "Basic secret" }

abbrev operator : Headers
operator = record { api_key = ""; authorization = "Bearer secret" }

token_set : is_empty (strip " secret ") ≡ false
unfolding strip is_empty rstrip_by lstrip_by
token_set = refl

token_is_ascii : is_ascii (strip " secret ") ≡ true
unfolding strip rstrip_by lstrip_by is_ascii is_empty
token_is_ascii = refl

wrong_run : same (supplied nobody) (strip " secret ") ≡ false
unfolding supplied bearer strip rstrip_by lstrip_by is_empty lower first_chars
wrong_run = refl

sent_run : "Bearer secret" ≡ "Bearer " ++ strip " secret "
unfolding strip rstrip_by lstrip_by is_empty
sent_run = refl

handle_unauthorized_example :
    ((handle host nobody (set_responder_mode "off") site).0 ≡ site)
    × (((handle host nobody (set_responder_mode "off") site).1 ≡ failed 401)
        ⊎ ((handle host nobody (set_responder_mode "off") site).1 ≡ failed 500))
handle_unauthorized_example =
    handle_unauthorized host nobody (set_responder_mode "off") site token_set wrong_run
