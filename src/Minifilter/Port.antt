-- ===== src/Minifilter/Port.antt =====
-- The driver's port in detectors/minifilter_bridge.py: the connection, the commands, the messages
-- that come in, and the loop that connects again. What fltlib answers is an argument.
use Prim.Native.Nat.{min}
use xodusmile.Prelude.{
  ℕ, ◌*◌, Bool, true, false, not, ◌&&◌, Option, none, some, List, [], ◌∷◌, ◌++◌, ◌==◌,
  if◌then◌else◌, mem,
}
use xodusmile.Minifilter.{Event, Bridge}
use xodusmile.Minifilter.Handling.{handle_event}

abbrev pub protocol_version : ℕ
protocol_version = 2

-- RG_COMMAND_KIND, with the process that the command is about.
pub data Command : Type 0 where
  quarantine release protect unprotect : ℕ → Command
  ping flush_quarantine : Command

-- What `FilterSendMessage` returns, and the status of the driver's reply.
pub record Reply : Type 0 where
  pub hr : ℕ
  pub status : ℕ

-- What `FilterConnectCommunicationPort` comes to.
pub data Connect : Type 0 where
  raised : Connect
  connected : (hr handle : ℕ) → Connect

-- The fields of the port. `session` lists the commands sent over the present connection, the newest
-- first.
pub record Port : Type 0 where
  pub has_lib : Bool
  pub handle : Option ℕ
  pub own_pid : ℕ
  pub extra_protected : List ℕ
  pub session : List Command

abbrev pub new_port : Bool → ℕ → Port
new_port has_lib own_pid = record {
  has_lib = has_lib;
  handle = none;
  own_pid = own_pid;
  extra_protected = [];
  session = [];
}

abbrev pub has_handle : Option ℕ → Bool
has_handle none = false
has_handle (some h) = true

-- `is_connected`
unfoldable pub is_connected : Port → Bool
is_connected p = has_handle p.handle

abbrev pub has_value : Option ℕ → Bool
has_value none = false
has_value (some h) = not (h == 0)

-- `_send_command`
unfoldable pub send_command : (Command → Reply) → Command → Port → Port × Bool
send_command driver c p =
    if not (p.has_lib && has_value p.handle)
    then (p, false)
    else (record p { session = c ∷ p.session }, (driver c).hr == 0 && (driver c).status == 0)

-- `for pid in self._extra_protected_pids: self._send_command(CMD_PROTECT_PID, pid)`
unfoldable pub protect_all : (Command → Reply) → List ℕ → Port → Port
protect_all driver [] p = p
protect_all driver (pid ∷ pids) p = protect_all driver pids (send_command driver (protect pid) p).0

unfoldable pub connect_to : (Command → Reply) → Connect → Port → Port × Bool
connect_to driver raised p = (p, false)
connect_to driver (connected hr handle) p =
    if hr == 0 && not (handle == 0)
    then (
      protect_all driver p.extra_protected
          (send_command driver (protect p.own_pid)
            (record p { handle = some handle; session = [] })).0,
      true,
    )
    else (p, false)

-- `_connect`
unfoldable pub connect : (Command → Reply) → Connect → Port → Port × Bool
unfolding connect_to
connect driver answer p = if p.has_lib then connect_to driver answer p else (p, false)

-- `_close`
unfoldable pub close : Port → Port
close p = record p { handle = none; session = [] }

-- `add_protected_pid`
unfoldable pub add_protected_pid : (Command → Reply) → ℕ → Port → Port
add_protected_pid driver pid p =
    let p' =
      if not (pid == 0) && not (mem pid p.extra_protected)
      then record p { extra_protected = p.extra_protected ++ pid ∷ [] }
      else p in
    if is_connected p' then (send_command driver (protect pid) p').0 else p'

-- `stop`, with the flush of a clean shutdown.
unfoldable pub stop : (Command → Reply) → Bool → Port → Port
stop driver flush p =
    if flush && is_connected p then close (send_command driver flush_quarantine p).0 else close p

-- A message of the port: `FilterGetMessage` failed, or gave an event of some protocol version.
pub data Message : Type 0 where
  failed : (hr : ℕ) → Message
  received : (version now : ℕ) → Event → Message

-- `_receive_loop`, over the messages up to the stop of the detector.
unfoldable pub receive_loop : List Message → Bridge → Bridge
receive_loop [] b = b
receive_loop (failed hr ∷ ms) b = b
receive_loop (received version now evt ∷ ms) b =
    receive_loop ms (if version == protocol_version then handle_event now evt b else b)

abbrev pub max_backoff : ℕ
max_backoff = 30

-- The loop of `run`: the rounds of a run are what each attempt to connect comes to; the waits, in
-- seconds, come back, the newest first, with the next backoff.
unfoldable pub run : List Bool → ℕ → List ℕ → List ℕ × ℕ
run [] backoff waits = (waits, backoff)
run (false ∷ rounds) backoff waits =
    run rounds (min (backoff * 2) max_backoff) (min backoff max_backoff ∷ waits)
run (true ∷ rounds) backoff waits = run rounds 1 waits
