-- ===== src/Dashboard.antt =====
-- dashboard/app.py: create_app, its authentication and the routes that change the agent. A request body
-- is given by its fields, read as texts, and a PID by what `int` makes of its field. What the routes
-- that only read answer is left out.
pub mod Access
mod Tests
use Prim.Native.Char.{Char, code}
use Prim.Native.String.{String}
use xodusmile.Prelude.{
  ℕ, Bool, true, false, not, ◌&&◌, ◌||◌, Option, none, some, List, [], ◌∷◌, leb, ltb, ◌==◌, same,
  if◌then◌else◌, is_empty, lower, strip, first_chars, after,
}
use xodusmile.Signal.{Answer, returned, raised}
use xodusmile.Scoring.{reset, forget_pid, current_score}
use xodusmile.Responder.Types.{Mode, off, quarantine, kill, Responder, Os}
use xodusmile.Responder.Listener.{set_mode, manual_kill, manual_release}
use xodusmile.Allowlist.{Allowlist, add, remove}

-- The two headers that carry a token; a header that is not sent is empty.
pub record Headers : Type 0 where
  pub api_key : String
  pub authorization : String

unfoldable pub is_ascii : String → Bool
is_ascii String.[] = true
is_ascii (String.◌∷◌ c s) = ltb (code c) 128 && is_ascii s

-- `hmac.compare_digest` of two texts, which raises where one of them is not ASCII.
unfoldable pub compare_digest : String → String → Answer
compare_digest a b = if is_ascii a && is_ascii b then returned (same a b) else raised

unfoldable pub bearer : String → String
bearer auth =
    if same (lower (first_chars 7 auth)) "bearer " then strip (after auth "bearer ") else ""

unfoldable pub supplied : Headers → String
unfolding bearer
supplied h = if is_empty h.api_key then bearer h.authorization else h.api_key

-- `_authorized`
unfoldable pub authorized : String → Headers → Answer
unfolding supplied compare_digest
authorized token h =
    if is_empty token
    then returned true
    else if is_empty (supplied h)
    then returned false
    else compare_digest (supplied h) token

-- The parts of the agent that a request can change. `auth_token` is the agent's.
pub record Site : Type 0 where
  pub auth_token : String
  pub responder : Responder
  pub allowlist : Allowlist

-- The machine: what the responder meets, and for the allowlist the time and whether its file can be written.
pub record Host : Type 0 where
  pub os : Os
  pub writable : Bool

pub data Response : Type 0 where
  ok : Response
  failed : ℕ → Response

-- The requests under `require_auth` that change the agent.
pub data Request : Type 0 where
  reset_score : Request
  kill_pid : Option ℕ → String → Request
  release_pid : Option ℕ → Request
  set_responder_mode : String → Request
  allow_add : (value kind note : String) → Request
  allow_remove : (value kind : String) → Request

-- `ResponderMode(mode)`, of the three values.
unfoldable pub parse_mode : String → Option Mode
parse_mode mode =
    if same mode "off"
    then some off
    else if same mode "quarantine"
    then some quarantine
    else if same mode "kill"
    then some kill
    else none

abbrev pub reason_or_default : String → String
reason_or_default reason = if is_empty reason then "manual-via-dashboard" else reason

-- A PID is a natural number here; `int` also reads a negative one, of which there is no process.
abbrev pub kill_request : Host → Option ℕ → String → Site → Site × Response
kill_request host none reason site = (site, failed 400)
kill_request host (some pid) reason site = (
  record site { responder = (manual_kill host.os pid (reason_or_default reason) site.responder).0 },
  ok,
)

abbrev pub release_request : Host → Option ℕ → Site → Site × Response
release_request host none site = (site, failed 400)
release_request host (some pid) site =
    (record site { responder = (manual_release host.os pid site.responder).0 }, ok)

abbrev pub mode_request : Option Mode → Site → Site × Response
mode_request none site = (site, failed 400)
mode_request (some mode) site = (record site { responder = set_mode mode site.responder }, ok)

-- `_normalize` raised a ValueError: the route that adds catches it.
abbrev pub add_response : {A : Type 0} → Option A → Response
add_response none = failed 400
add_response (some entry) = ok

-- The route that removes does not.
abbrev pub remove_response : {A : Type 0} → Option A → Response
remove_response none = failed 500
remove_response (some removed) = ok

unfoldable pub allow_add_request : Host → (value kind note : String) → Site → Site × Response
allow_add_request host value kind note site =
    let (list, entry) = add host.writable host.os.now (strip value) kind note site.allowlist in
    if is_empty (strip value)
    then (site, failed 400)
    else (record site { allowlist = list }, add_response entry)

unfoldable pub allow_remove_request : Host → (value kind : String) → Site → Site × Response
allow_remove_request host value kind site =
    let (list, removed) = remove host.writable host.os.now (strip value) kind site.allowlist in
    if is_empty (strip value)
    then (site, failed 400)
    else (record site { allowlist = list }, remove_response removed)

-- The view behind `require_auth`.
unfoldable pub view : Host → Request → Site → Site × Response
unfolding allow_add_request allow_remove_request
view host reset_score site =
    (record site { responder = record site.responder { engine = reset site.responder.engine } }, ok)
view host (kill_pid pid reason) site = kill_request host pid reason site
view host (release_pid pid) site = release_request host pid site
view host (set_responder_mode mode) site = mode_request (parse_mode (lower mode)) site
view host (allow_add value kind note) site = allow_add_request host value kind note site
view host (allow_remove value kind) site = allow_remove_request host value kind site

-- `require_auth`: an exception of the test is an error of the server.
abbrev pub guard : Answer → Site × Response → Site → Site × Response
guard raised result site = (site, failed 500)
guard (returned true) result site = result
guard (returned false) result site = (site, failed 401)

unfoldable pub handle : Host → Headers → Request → Site → Site × Response
unfolding authorized view
handle host headers request site =
    guard (authorized (strip site.auth_token) headers) (view host request site) site

-- `auth_enabled` of the agent's `health`.
abbrev pub auth_enabled : Site → Bool
auth_enabled site = not (is_empty site.auth_token)
