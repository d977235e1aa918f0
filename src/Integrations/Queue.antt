-- ===== src/Integrations/Queue.antt =====
-- Runs of the forwarder: the detection thread and the worker in any order.
use xodusmile.Prelude.{
  ◌+◌, ◌≤◌, ◌≡◌, ◌⊎◌, refl, inl, inr, ap, subst, String, Bool, true, false, not, Option, List, [],
  ◌∷◌, arith, ltb, when, All, All-append, All-imp, length, length-append,
}
use xodusmile.Integrations.Forwarder.{
  Item, Sent, to_syslog, to_webhook, Forwarder, new_forwarder, queue_max, enabled, forward, takes,
  dispatch_item, work, work_on,
}

-- Runs of a forwarder, with the items that it was given, the newest first. The answers to the sends are
-- chosen anew in each round.
pub data Reach (syslog webhook : Option String) : List Item → Forwarder → Type 0 where
  start : Reach syslog webhook [] (new_forwarder syslog webhook)
  forwarded :
      (item : Item) {given : List Item} {f : Forwarder}
      → Reach syslog webhook given f
      → Reach syslog webhook (item ∷ given) (forward item f)
  worked :
      (syslog_ok webhook_ok : Bool) {given : List Item} {f : Forwarder}
      → Reach syslog webhook given f
      → Reach syslog webhook given (work syslog_ok webhook_ok f)

abbrev pub In : Item → List Item → Type 0
In a [] = ⊥
In a (b ∷ bs) = (a ≡ b) ⊎ In a bs

-- The outlet takes the item, and the item was given.
abbrev pub IsJustified : Option String → Option String → List Item → Sent → Type 0
IsJustified syslog webhook given (to_syslog item) = (takes syslog item.level ≡ true) × In item given
IsJustified syslog webhook given (to_webhook item) =
    (takes webhook item.level ≡ true) × In item given

-- Each given item waits or is counted as sent, failed or dropped; the queue is bounded; what went out
-- was given and passes the filter of its outlet.
pub record IsConserved (syslog webhook : Option String) (given : List Item) (f : Forwarder)
    : Type 0 where
  pub to_siem : f.syslog ≡ syslog
  pub to_hook : f.webhook ≡ webhook
  pub balanced : enabled f ≡ true → length given ≡ length f.queue + f.sent + f.errors + f.dropped
  pub bounded : length f.queue ≤ queue_max
  pub waiting : All (λ item. In item given) f.queue
  pub justified : All (IsJustified syslog webhook given) f.outlet

dispatch_item-IsJustified :
    (syslog_ok webhook_ok : Bool) (item : Item) (f : Forwarder) (given : List Item)
    → In item given
    → All (IsJustified f.syslog f.webhook given) (dispatch_item syslog_ok webhook_ok item f).0
unfolding dispatch_item
dispatch_item-IsJustified syslog_ok webhook_ok item f given h =
    split (takes f.syslog item.level) (takes f.webhook item.level) refl refl syslog_ok webhook_ok
  where
    split :
        (first second : Bool)
        → takes f.syslog item.level ≡ first
        → takes f.webhook item.level ≡ second
        → (a b : Bool) → All (IsJustified f.syslog f.webhook given) (dispatch_item a b item f).0
    split true true p q true true = simp (p, q) ((refl, h), ((refl, h), tt))
    split true true p q true false = simp (p, q) ((refl, h), tt)
    split true true p q false b = simp (p, q) tt
    split true false p q true b = simp (p, q) ((refl, h), tt)
    split true false p q false b = simp (p, q) tt
    split false true p q a true = simp (p, q) ((refl, h), tt)
    split false true p q a false = simp (p, q) tt
    split false false p q a b = simp (p, q) tt

work-IsConserved :
    (syslog webhook : Option String) (syslog_ok webhook_ok : Bool) (given : List Item)
    (f : Forwarder) (queue : List Item)
    → f.queue ≡ queue
    → IsConserved syslog webhook given f
    → IsConserved syslog webhook given (work_on syslog_ok webhook_ok queue f)
unfolding work_on enabled
work-IsConserved syslog webhook syslog_ok webhook_ok given f [] eq c = c
work-IsConserved syslog webhook syslog_ok webhook_ok given f (item ∷ queue) eq c =
    let out = (dispatch_item syslog_ok webhook_ok item f).0 in
    let waits = subst (All (λ i. In i given)) eq c.waiting in
    let sound =
      subst (λ s. All (IsJustified s webhook given) out) c.to_siem
        (subst (λ w. All (IsJustified f.syslog w given) out) c.to_hook
          (dispatch_item-IsJustified syslog_ok webhook_ok item f given waits.0)) in
    record {
      to_siem = c.to_siem;
      to_hook = c.to_hook;
      balanced = λ on. ground (arith, c.balanced on, ap length eq);
      bounded = ground (arith, c.bounded, ap length eq);
      waiting = waits.1;
      justified = All-append (IsJustified syslog webhook given) out f.outlet sound c.justified;
    }

given_more :
    (syslog webhook : Option String) (item : Item) (given : List Item) (s : Sent)
    → IsJustified syslog webhook given s
    → IsJustified syslog webhook (item ∷ given) s
given_more syslog webhook item given (to_syslog i) (t, there) = (t, inr there)
given_more syslog webhook item given (to_webhook i) (t, there) = (t, inr there)

not_both : (b : Bool) → not b ≡ true → b ≡ true → ⊥
not_both b off on = ground arith

forward-IsConserved :
    (syslog webhook : Option String) (given : List Item) (item : Item) (f : Forwarder)
    → IsConserved syslog webhook given f
    → IsConserved syslog webhook (item ∷ given) (forward item f)
unfolding forward enabled
forward-IsConserved syslog webhook given item f c =
    let waits =
      All-imp (λ i. In i given) (λ i. In i (item ∷ given)) (λ i there. inr there) f.queue
        c.waiting in
    let sound =
      All-imp (IsJustified syslog webhook given) (IsJustified syslog webhook (item ∷ given))
        (given_more syslog webhook item given) f.outlet c.justified in
    when (IsConserved syslog webhook (item ∷ given)) (not (enabled f))
      (λ off. record {
        to_siem = c.to_siem;
        to_hook = c.to_hook;
        balanced = λ on. absurd (not_both (enabled f) off on);
        bounded = c.bounded;
        waiting = waits;
        justified = sound;
      })
      (λ _.
        when (IsConserved syslog webhook (item ∷ given)) (ltb (length f.queue) queue_max)
          (λ room. record {
            to_siem = c.to_siem;
            to_hook = c.to_hook;
            balanced = λ on. omega (arith, c.balanced on, length-append f.queue (item ∷ []));
            bounded = ground (arith, room, length-append f.queue (item ∷ []));
            waiting =
                All-append (λ i. In i (item ∷ given)) f.queue (item ∷ []) waits (inl refl, tt);
            justified = sound;
          })
          (λ _. record {
            to_siem = c.to_siem;
            to_hook = c.to_hook;
            balanced = λ on. omega (arith, c.balanced on);
            bounded = c.bounded;
            waiting = waits;
            justified = sound;
          }))

-- In every state of a run of a forwarder with the given outlets, each item that it was given, if an
-- outlet is enabled, waits in the queue or is counted once as sent, failed or dropped, where an item
-- that no outlet takes counts as sent; at most 1000 items wait; and each item that went to an outlet
-- was given and passes the severity filter of just that outlet.
pub Reach-IsConserved :
    (syslog webhook : Option String) (given : List Item) (f : Forwarder)
    → Reach syslog webhook given f
    → IsConserved syslog webhook given f
unfolding new_forwarder work
Reach-IsConserved syslog webhook _ _ start = record {
  to_siem = refl;
  to_hook = refl;
  balanced = λ _. refl;
  bounded = omega arith;
  waiting = tt;
  justified = tt;
}
Reach-IsConserved syslog webhook _ _ (forwarded item {given} {f} r) =
    forward-IsConserved syslog webhook given item f (Reach-IsConserved syslog webhook given f r)
Reach-IsConserved syslog webhook _ _ (worked a b {given} {f} r) =
    work-IsConserved syslog webhook a b given f f.queue refl
      (Reach-IsConserved syslog webhook given f r)
