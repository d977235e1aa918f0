-- ===== src/Integrations/Forwarder.antt =====
-- integrations.py: EventForwarder. What the network answers to a send is an argument of the worker's
-- step; what is sent is not built here.
use xodusmile.Prelude.{
  ℕ, ◌+◌, String, Bool, true, false, not, ◌&&◌, ◌||◌, Option, none, some, List, [], ◌∷◌, ◌++◌, leb,
  ltb, if◌then◌else◌, length, lookup, is_some,
}
use xodusmile.Integrations.Cef.{CefEvent, sev_rank, or_default}

abbrev pub queue_max : ℕ
queue_max = 1000

-- `_sev_ok`
unfoldable pub sev_ok : String → String → Bool
sev_ok level minimum =
    leb (or_default 3 (lookup minimum sev_rank)) (or_default 0 (lookup level sev_rank))

-- An entry of the queue.
pub record Item : Type 0 where
  pub event : CefEvent
  pub score : ℕ
  pub level : String

-- What was sent, and where to.
pub data Sent : Type 0 where
  to_syslog : Item → Sent
  to_webhook : Item → Sent

-- The outlets that are enabled, each with its `min_severity`.
pub record Forwarder : Type 0 where
  pub syslog : Option String
  pub webhook : Option String
  pub queue : List Item
  pub dropped : ℕ
  pub sent : ℕ
  pub errors : ℕ
  pub outlet : List Sent

unfoldable pub new_forwarder : Option String → Option String → Forwarder
new_forwarder syslog webhook = record {
  syslog = syslog;
  webhook = webhook;
  queue = [];
  dropped = 0;
  sent = 0;
  errors = 0;
  outlet = [];
}

-- `enabled`
unfoldable pub enabled : Forwarder → Bool
enabled f = is_some f.syslog || is_some f.webhook

-- `forward`
unfoldable pub forward : Item → Forwarder → Forwarder
unfolding enabled
forward item f =
    if not (enabled f)
    then f
    else if ltb (length f.queue) queue_max
    then record f { queue = f.queue ++ item ∷ [] }
    else record f { dropped = f.dropped + 1 }

-- Whether an outlet takes an item.
unfoldable pub takes : Option String → String → Bool
takes none level = false
takes (some minimum) level = sev_ok level minimum

-- `_dispatch`, for the answers of the two sends, which are true where nothing is raised. What raises in
-- the first send keeps the second from being tried.
unfoldable pub dispatch_item : Bool → Bool → Item → Forwarder → List Sent × Bool
unfolding takes
dispatch_item syslog_ok webhook_ok item f =
    let first = takes f.syslog item.level in
    let second = takes f.webhook item.level in
    let by_syslog = if first && syslog_ok then to_syslog item ∷ [] else [] in
    if first && not syslog_ok
    then ([], false)
    else if second && not webhook_ok
    then (by_syslog, false)
    else (if second then to_webhook item ∷ by_syslog else by_syslog, true)

-- One round of `_run`; nothing happens while the queue is empty.
unfoldable pub work_on : Bool → Bool → List Item → Forwarder → Forwarder
work_on syslog_ok webhook_ok [] f = f
work_on syslog_ok webhook_ok (item ∷ queue) f =
    let (out, ok) = dispatch_item syslog_ok webhook_ok item f in
    record f {
      queue = queue;
      sent = if ok then f.sent + 1 else f.sent;
      errors = if ok then f.errors else f.errors + 1;
      outlet = out ++ f.outlet;
    }

unfoldable pub work : Bool → Bool → Forwarder → Forwarder
unfolding work_on
work syslog_ok webhook_ok f = work_on syslog_ok webhook_ok f.queue f
