-- ===== src/Responder/Dispatch.antt =====
-- When a signal makes the responder act: whom it may touch, and what corroborates it.
use mathlib.Core.Path.{subst₂}
use xodusmile.Prelude.{
  ℕ, String, ◌≡◌, ◌⊎◌, inl, inr, refl, sym, ap, true, not, ◌&&◌, ◌||◌, Option, none, some, [],
  arith, ◌==◌, Bool-cases, Option-cases, same,
}
use xodusmile.Signal.{Signal}
use xodusmile.Responder.Types.{Os, Call, Responder, Reason, parent_of}
use xodusmile.Responder.{respond_to_pid, detected}
use xodusmile.Responder.Listener.{
  record_observed, is_confident, escalate, dispatch_pid, dispatch, extract_pid, extract_parent_pid,
  is_lolbin_signal, is_critical, is_high, text_at,
}
use xodusmile.Responder.Calls.{
  target, IsJustified, Lawful, Lawful-trans, SameSetup, SameSetup-refl, Extends, Extends-imp,
  respond_to_pid-IsJustified, record_action-Lawful,
}

-- What holds of each request that the handling of a signal makes.
pub record Accused (os : Os) (sig : Signal) (r : Responder) (c : Call) : Type 0 where
  pub justified : IsJustified os r.own_pid r.mode c
  pub pid : ℕ
  pub named : extract_pid sig ≡ some pid
  pub grave : (is_high sig.severity || is_critical sig.severity) ≡ true
  pub confident : (is_confident os pid sig r.engine).1 ≡ true
  pub aimed :
      (target c ≡ pid) ⊎ (extract_parent_pid sig ≡ some (target c)) × (is_lolbin_signal sig ≡ true)

abbrev Aimed : Os → ℕ → Option ℕ → Signal → Responder → Call → Type 0
Aimed os pid parent sig r c =
    IsJustified os r.own_pid r.mode c
    × ((target c ≡ pid) ⊎ (parent ≡ some (target c)) × (is_lolbin_signal sig ≡ true))

SameSetup-IsJustified :
    (os : Os) (r s : Responder)
    → SameSetup r s
    → (c : Call) → IsJustified os s.own_pid s.mode c
    → IsJustified os r.own_pid r.mode c
SameSetup-IsJustified os r s h c j = subst₂ (λ own mode. IsJustified os own mode c) h.own h.mode j

escalate-Lawful :
    (os : Os) (pid : ℕ) (parent : Option ℕ) (reason : Reason) (sig : Signal) (r : Responder)
    → Lawful (Aimed os pid parent sig r) r (escalate os pid parent reason sig r)
unfolding escalate
escalate-Lawful os pid none reason sig r = (SameSetup-refl r, ([], refl, tt))
escalate-Lawful os pid (some ppid) reason sig r =
    elim (Bool-cases (not (ppid == pid) && is_lolbin_signal sig)) [
      | inl up ↦
          let lolbin : is_lolbin_signal sig ≡ true = ground arith in
          let r' = (respond_to_pid os ppid (parent_of reason pid) "" "" r).0 in
          let (same, done) = respond_to_pid-IsJustified os ppid (parent_of reason pid) "" "" r in
          rw up (
            same,
            Extends-imp (λ c. IsJustified os r.own_pid r.mode c × (target c ≡ ppid))
                (Aimed os pid (some ppid) sig r) r r'
                (λ c (j, e). (j, inr (ap some (sym e), lolbin))) done,
          )
      | inr stay ↦ rw stay (SameSetup-refl r, ([], refl, tt))
    ]

record_observed-Lawful :
    (P : Call → Type 0) (os : Os) (pid : ℕ) (reason : Reason) (name cmd : String) (r : Responder)
    → Lawful P r (record_observed os pid reason name cmd r).0
unfolding record_observed
record_observed-Lawful P os pid reason name cmd r = record_action-Lawful P _ r

dispatch_pid-Lawful :
    (os : Os) (pid : ℕ) (sig : Signal) (r : Responder)
    → extract_pid sig ≡ some pid
    → (is_high sig.severity || is_critical sig.severity) ≡ true
    → Lawful (Accused os sig r) r (dispatch_pid os pid sig r)
unfolding dispatch_pid
dispatch_pid-Lawful os pid sig r named grave =
    let (e, confident) = is_confident os pid sig r.engine in
    let r₁ : Responder = record r { engine = e } in
    let reason = detected sig.detector sig.name in
    elim (Bool-cases (is_confident os pid sig r.engine).1) [
      | inl sure ↦
          let r₂ =
            (respond_to_pid os pid reason (text_at "process" sig) (text_at "cmdline" sig) r₁).0 in
          let first =
            respond_to_pid-IsJustified os pid reason (text_at "process" sig) (text_at "cmdline" sig)
              r₁ in
          let r₃ = escalate os pid (extract_parent_pid sig) reason sig r₂ in
          let second = escalate-Lawful os pid (extract_parent_pid sig) reason sig r₂ in
          rw sure (
            Lawful-trans (Accused os sig r) r r₂ r₃
              (
                record { mode = first.0.mode; own = first.0.own },
                Extends-imp (λ c. IsJustified os r.own_pid r.mode c × (target c ≡ pid))
                    (Accused os sig r) r₁ r₂
                    (λ c (j, at). record {
                      justified = j;
                      pid = pid;
                      named = named;
                      grave = grave;
                      confident = sure;
                      aimed = inl at;
                    })
                    first.1,
              )
              (
                second.0,
                Extends-imp (Aimed os pid (extract_parent_pid sig) sig r₂) (Accused os sig r) r₂ r₃
                    (λ c (j, at). record {
                      justified = SameSetup-IsJustified os r₁ r₂ first.0 c j;
                      pid = pid;
                      named = named;
                      grave = grave;
                      confident = sure;
                      aimed = at;
                    })
                    second.1,
              ))
      | inr unsure ↦
          let (same, kept) =
            record_observed-Lawful (Accused os sig r) os pid reason (text_at "process" sig)
              (text_at "cmdline" sig) r₁ in
          rw unsure (record { mode = same.mode; own = same.own }, kept)
    ]

-- Every request that the handling of a signal makes, of the kernel or of the system, is of the PID
-- that the signal names or of its parent where the process is an abused tool; the signal is HIGH or
-- CRITICAL and the evidence was judged confident; the target is not the agent, not on the never-kill
-- list and not allowlisted; and the mode allows the request. The mode and the own PID stay.
pub dispatch-Accused :
    (os : Os) (sig : Signal) (r : Responder)
    → SameSetup r (dispatch os sig r) × Extends (Accused os sig r) r (dispatch os sig r)
unfolding dispatch
dispatch-Accused os sig r = elim (Option-cases (extract_pid sig)) [
  | inl e ↦ rw (e, dispatch) (SameSetup-refl r, ([], refl, tt))
  | inr (pid, e) ↦
      rw (e, dispatch)
        (elim (Bool-cases (is_high sig.severity || is_critical sig.severity)) [
          | inl grave ↦ rw grave (dispatch_pid-Lawful os pid sig r e grave)
          | inr mild ↦ rw mild (SameSetup-refl r, ([], refl, tt))
        ])
]
