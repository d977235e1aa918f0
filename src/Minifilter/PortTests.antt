-- ===== src/Minifilter/PortTests.antt =====
-- The port's theorems at concrete inputs.
use xodusmile.Prelude.{◌≡◌, refl, true, List, [], ◌∷◌, mem, length}
use xodusmile.Minifilter.Tests.{event}
use xodusmile.Minifilter.Kind
use xodusmile.Minifilter.Port.{
  Command, protect, quarantine, Reply, connected, Port, new_port, is_connected, send_command,
  protect_all, connect, add_protected_pid, Message, failed, received, run,
}
use xodusmile.Minifilter.Sessions.{
  IsGuarded, connects, adds, sends, here, next, Reach-IsGuarded, new_port-IsGuarded,
}
use xodusmile.Minifilter.Receiving.{heard, failures}

program : Unit {0}
unfolding is_connected send_command protect_all connect add_protected_pid run mem
program = tt

abbrev driver : Command → Reply
driver c = record { hr = 0; status = 0 }

abbrev registered : Port
registered = add_protected_pid driver 77 (new_port true 4)

abbrev joined : Port
joined = (connect driver (connected 0 12) registered).0

joined_run : joined.session ≡ protect 77 ∷ protect 4 ∷ []
unfolding program
joined_run = refl

Reach-IsGuarded_example : IsGuarded (send_command driver (quarantine 42) joined).0
Reach-IsGuarded_example = Reach-IsGuarded (new_port-IsGuarded true 4) (
    next
      (next (next here (adds driver 77 (new_port true 4)))
        (connects driver (connected 0 12) registered))
      (sends driver (quarantine 42) joined))

abbrev messages : List Message
messages =
    received 1 5 (event Kind.blocked 0 "D:\\a")
    ∷ received 2 6 (event Kind.blocked 0 "D:\\b")
    ∷ failed 109
    ∷ received 2 7 (event Kind.blocked 0 "D:\\c")
    ∷ []

heard_run : length (heard messages []) ≡ 1
heard_run = refl

run-run : run (failures 7) 1 [] ≡ (30 ∷ 30 ∷ 16 ∷ 8 ∷ 4 ∷ 2 ∷ 1 ∷ [], 30)
unfolding program
run-run = refl
