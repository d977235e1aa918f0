-- ===== src/Minifilter/Sessions.antt =====
-- What a connection of the bridge has told the driver, how the bridge reads its messages, and how
-- long it waits between attempts.
use xodusmile.Prelude.{
  ℕ, ◌≡◌, refl, sym, ap, ◌∙◌, subst, Bool, true, false, not, ◌&&◌, ◌||◌, some, List, [], ◌∷◌, ◌++◌,
  arith, ◌==◌, if◌then◌else◌, mem, All, All-imp, All-append, Bool-cases, inl, inr,
}
use xodusmile.Minifilter.Port.{
  Command, protect, quarantine, release, unprotect, ping, flush_quarantine, Reply, Connect, raised,
  connected, Port, has_handle, has_value, is_connected, send_command, protect_all, connect,
  connect_to, close, add_protected_pid, stop, new_port,
}

abbrev is_protect : ℕ → Command → Bool
is_protect pid (protect p) = p == pid
is_protect pid (quarantine p) = false
is_protect pid (release p) = false
is_protect pid (unprotect p) = false
is_protect pid ping = false
is_protect pid flush_quarantine = false

-- The driver was asked, over this connection, to protect the process.
abbrev pub asked : ℕ → List Command → Bool
asked pid [] = false
asked pid (c ∷ cs) = is_protect pid c || asked pid cs

abbrev AllAsked : List Command → List ℕ → Type 0
AllAsked cs = All (λ pid. asked pid cs ≡ true)

-- A connection has a handle that is not null, and was told to protect the agent and its companions.
pub record IsGuarded (p : Port) : Type 0 where
  pub usable : is_connected p ≡ true → (p.has_lib && has_value p.handle) ≡ true
  pub own : is_connected p ≡ true → asked p.own_pid p.session ≡ true
  pub extra : is_connected p ≡ true → AllAsked p.session p.extra_protected

asked-cons :
    (pid : ℕ) (c : Command) (cs : List Command) → asked pid cs ≡ true → asked pid (c ∷ cs) ≡ true
asked-cons pid c cs h = ground arith

AllAsked-cons :
    (c : Command) (cs : List Command) (pids : List ℕ) → AllAsked cs pids → AllAsked (c ∷ cs) pids
AllAsked-cons c cs pids h =
    All-imp (λ pid. asked pid cs ≡ true) (λ pid. asked pid (c ∷ cs) ≡ true)
      (λ pid k. asked-cons pid c cs k) pids h

send_command-IsGuarded :
    (driver : Command → Reply) (c : Command) (p : Port)
    → IsGuarded p
    → IsGuarded (send_command driver c p).0
unfolding send_command is_connected
send_command-IsGuarded driver c p g = elim (Bool-cases (p.has_lib && has_value p.handle)) [
  | inl can ↦ rw can (record {
    usable = λ on. can;
    own = λ on. asked-cons p.own_pid c p.session (g.own on);
    extra = λ on. AllAsked-cons c p.session p.extra_protected (g.extra on);
  })
  | inr cannot ↦ rw cannot g
]

-- The commands that `protect_all` sends over a usable connection.
abbrev protects : List ℕ → List Command → List Command
protects [] cs = cs
protects (pid ∷ pids) cs = protects pids (protect pid ∷ cs)

send_command_usable :
    (driver : Command → Reply) (c : Command) (p : Port)
    → (p.has_lib && has_value p.handle) ≡ true
    → (send_command driver c p).0 ≡ record p { session = c ∷ p.session }
unfolding send_command
send_command_usable driver c p can = rw can refl

protect_all-eq :
    (driver : Command → Reply) (pids : List ℕ) (p : Port)
    → (p.has_lib && has_value p.handle) ≡ true
    → protect_all driver pids p ≡ record p { session = protects pids p.session }
unfolding protect_all
protect_all-eq driver [] p can = refl
protect_all-eq driver (pid ∷ pids) p can =
    ap (protect_all driver pids) (send_command_usable driver (protect pid) p can)
    ∙ protect_all-eq driver pids (record p { session = protect pid ∷ p.session }) can

asked-protects :
    (pid : ℕ) (pids : List ℕ) (cs : List Command)
    → asked pid cs ≡ true
    → asked pid (protects pids cs) ≡ true
asked-protects pid [] cs h = h
asked-protects pid (q ∷ pids) cs h =
    asked-protects pid pids (protect q ∷ cs) (asked-cons pid (protect q) cs h)

asked_self : (pid : ℕ) (cs : List Command) → asked pid (protect pid ∷ cs) ≡ true
asked_self pid cs = ground arith

AllAsked-protects : (pids : List ℕ) (cs : List Command) → AllAsked (protects pids cs) pids
AllAsked-protects [] cs = tt
AllAsked-protects (pid ∷ pids) cs = (
  asked-protects pid pids (protect pid ∷ cs) (asked_self pid cs),
  AllAsked-protects pids (protect pid ∷ cs),
)

usable_new :
    (has_lib : Bool) (hr handle : ℕ)
    → has_lib ≡ true
    → (hr == 0 && not (handle == 0)) ≡ true
    → (has_lib && has_value (some handle)) ≡ true
usable_new has_lib hr handle lib ok = ground arith

connect_to-IsGuarded :
    (driver : Command → Reply) (answer : Connect) (p : Port)
    → p.has_lib ≡ true
    → IsGuarded p
    → IsGuarded (connect_to driver answer p).0
unfolding connect_to
connect_to-IsGuarded driver raised p lib g = g
connect_to-IsGuarded driver (connected hr handle) p lib g =
    elim (Bool-cases (hr == 0 && not (handle == 0))) [
      | inl ok ↦
          let can = usable_new p.has_lib hr handle lib ok in
          let p₀ : Port = record p { handle = some handle; session = [] } in
          let p₁ : Port = record p₀ { session = protect p.own_pid ∷ [] } in
          let sent : (send_command driver (protect p.own_pid) p₀).0 ≡ p₁ =
            send_command_usable driver (protect p.own_pid) p₀ can in
          let done : protect_all driver p.extra_protected p₁
              ≡ record p₁ { session = protects p.extra_protected p₁.session } =
            protect_all-eq driver p.extra_protected p₁ can in
          rw ok (
            rw sent (
              rw done (record {
                usable = λ on. can;
                own = λ on.
                    asked-protects p.own_pid p.extra_protected (protect p.own_pid ∷ [])
                      (asked_self p.own_pid []);
                extra = λ on. AllAsked-protects p.extra_protected (protect p.own_pid ∷ []);
              })))
      | inr bad ↦ rw bad g
    ]

connect-IsGuarded :
    (driver : Command → Reply) (answer : Connect) (p : Port)
    → IsGuarded p
    → IsGuarded (connect driver answer p).0
unfolding connect
connect-IsGuarded driver answer p g = elim (Bool-cases p.has_lib) [
  | inl lib ↦
      subst (λ b. IsGuarded (if b then connect_to driver answer p else (p, false)).0) (sym lib)
        (connect_to-IsGuarded driver answer p lib g)
  | inr none_there ↦
      subst (λ b. IsGuarded (if b then connect_to driver answer p else (p, false)).0)
        (sym none_there) g
]

close-IsGuarded : (p : Port) → IsGuarded (close p)
unfolding close is_connected
close-IsGuarded p = record {
  usable = λ on. absurd (cc on);
  own = λ on. absurd (cc on);
  extra = λ on. absurd (cc on);
}

-- A companion is put on the list, and the driver is told at once where there is a connection.
push-IsGuarded :
    (driver : Command → Reply) (pid : ℕ) (p : Port) (pids : List ℕ)
    → IsGuarded p
    → (is_connected p ≡ true → AllAsked (protect pid ∷ p.session) pids)
    → IsGuarded (
        if is_connected p
        then (send_command driver (protect pid) (record p { extra_protected = pids })).0
        else record p { extra_protected = pids })
unfolding is_connected
push-IsGuarded driver pid p pids g all = elim (Bool-cases (has_handle p.handle)) [
  | inl on ↦
      let can = g.usable on in
      rw on (
        rw (send_command_usable driver (protect pid) (record p { extra_protected = pids }) can)
          (record {
            usable = λ h. can;
            own = λ h. asked-cons p.own_pid (protect pid) p.session (g.own on);
            extra = λ h. all on;
          }))
  | inr off ↦ rw off (record {
    usable = λ h. absurd (cc (h, off));
    own = λ h. absurd (cc (h, off));
    extra = λ h. absurd (cc (h, off));
  })
]

add_protected_pid-IsGuarded :
    (driver : Command → Reply) (pid : ℕ) (p : Port)
    → IsGuarded p
    → IsGuarded (add_protected_pid driver pid p)
unfolding add_protected_pid is_connected
add_protected_pid-IsGuarded driver pid p g =
    elim (Bool-cases (not (pid == 0) && not (mem pid p.extra_protected))) [
      | inl new ↦ rw new (
          push-IsGuarded driver pid p (p.extra_protected ++ pid ∷ []) g (λ on.
            All-append (λ q. asked q (protect pid ∷ p.session) ≡ true) p.extra_protected (pid ∷ [])
              (AllAsked-cons (protect pid) p.session p.extra_protected (g.extra on))
              (asked_self pid p.session, tt)))
      | inr old ↦ rw old (
          push-IsGuarded driver pid p p.extra_protected g
            (λ on. AllAsked-cons (protect pid) p.session p.extra_protected (g.extra on)))
    ]

stop-IsGuarded :
    (driver : Command → Reply) (flush : Bool) (p : Port)
    → IsGuarded p
    → IsGuarded (stop driver flush p)
unfolding stop
stop-IsGuarded driver flush p g = elim (Bool-cases (flush && is_connected p)) [
  | inl flushed ↦ rw flushed (close-IsGuarded (send_command driver flush_quarantine p).0)
  | inr plain ↦ rw plain (close-IsGuarded p)
]

-- What can happen to the port; what fltlib and the driver answer is chosen anew in each step.
pub data Step : Port → Port → Type 0 where
  connects :
      (driver : Command → Reply) (answer : Connect) (p : Port) → Step p (connect driver answer p).0
  sends : (driver : Command → Reply) (c : Command) (p : Port) → Step p (send_command driver c p).0
  adds : (driver : Command → Reply) (pid : ℕ) (p : Port) → Step p (add_protected_pid driver pid p)
  closes : (p : Port) → Step p (close p)
  stops : (driver : Command → Reply) (flush : Bool) (p : Port) → Step p (stop driver flush p)

pub data Reach (p : Port) : Port → Type 0 where
  here : Reach p p
  next : {q r : Port} → Reach p q → Step q r → Reach p r

Step-IsGuarded : {p q : Port} → Step p q → IsGuarded p → IsGuarded q
Step-IsGuarded (connects driver answer p) g = connect-IsGuarded driver answer p g
Step-IsGuarded (sends driver c p) g = send_command-IsGuarded driver c p g
Step-IsGuarded (adds driver pid p) g = add_protected_pid-IsGuarded driver pid p g
Step-IsGuarded (closes p) g = close-IsGuarded p
Step-IsGuarded (stops driver flush p) g = stop-IsGuarded driver flush p g

-- Whenever the bridge is connected, after any sequence of connections, commands, registrations and
-- closings, the handle is usable, and the driver was asked over this very connection to protect the
-- agent itself and every companion that was registered, before or after the connection was made.
pub Reach-IsGuarded : {p q : Port} → IsGuarded p → Reach p q → IsGuarded q
Reach-IsGuarded g here = g
Reach-IsGuarded g (next reach step) = Step-IsGuarded step (Reach-IsGuarded g reach)

pub new_port-IsGuarded : (has_lib : Bool) (own_pid : ℕ) → IsGuarded (new_port has_lib own_pid)
unfolding is_connected
new_port-IsGuarded has_lib own_pid = record {
  usable = λ on. absurd (cc on);
  own = λ on. absurd (cc on);
  extra = λ on. absurd (cc on);
}
