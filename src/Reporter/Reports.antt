-- ===== src/Reporter/Reports.antt =====
-- incident_report.py: the campaigns that the reporter keeps, and the threats that their reports list.
use xodusmile.Prelude.{
  ℕ, ◌+◌, ltb, ◌≡◌, sym, subst, String, Bool, true, false, not, ◌&&◌, ◌||◌, is_some, List, [], ◌∷◌,
  arith, map, All, All-append, All-imp, All-last_slice, when,
}
use xodusmile.Signal.{Signal}
use xodusmile.Scoring.{recent_signals}
use xodusmile.Responder.Types.{KillAction}
use xodusmile.Reporter.Joining.{
  campaign_gap, Machine, Member, Campaign, new_campaign, join, is_ongoing, place_member,
}
use xodusmile.Reporter.FileNames.{incident_file}
use xodusmile.Reporter.Behaviors.{signame_from_reason, is_unknown_name}
use xodusmile.Reporter.Behaviors.Times.{IsReported, IsWorded, campaign_behaviors-IsReported}
use xodusmile.Reporter.Campaigns.{capture_all-Kept}
use xodusmile.Reporter.Runs.{Event, acted, woken, run, step}
use xodusmile.Reporter.{
  Reporter, campaign_max, member_of, update_campaign, file_report, on_action, finalize,
  finalize_due, is_repeated, find_state, state_of,
}

module _ (m : Machine) (member : Member)
    (named : is_some (signame_from_reason member.reason) ≡ true) (recent : List Signal) where
  join-IsWorded : (c : Campaign) → IsWorded c → IsWorded (join member recent c)
  unfolding join
  join-IsWorded c h =
      let kept = capture_all-Kept member.pid recent _ in
      subst (All (λ (x : Member). is_some (signame_from_reason x.reason) ≡ true)) (sym kept.members)
        (All-append (λ (x : Member). is_some (signame_from_reason x.reason) ≡ true) c.members
          (member ∷ []) h (named, tt))

  place_member-IsWorded :
      (campaigns : List Campaign)
      → All IsWorded campaigns
      → All IsWorded (place_member m member recent campaigns)
  unfolding place_member new_campaign
  place_member-IsWorded [] h = (join-IsWorded (new_campaign m member.ts) tt, tt)
  place_member-IsWorded (c ∷ []) (h, hs) =
      when (All IsWorded) (is_ongoing member.ts c) (λ _. (join-IsWorded c h, tt))
        (λ _. (h, (join-IsWorded (new_campaign m member.ts) tt, tt)))
  place_member-IsWorded (c ∷ d ∷ cs) (h, hs) = (h, place_member-IsWorded (d ∷ cs) hs)

file_report-IsWorded :
    (m : Machine) (action : KillAction) (r : Reporter)
    → All IsWorded r.campaigns
    → All IsWorded (file_report m action r).campaigns
unfolding file_report update_campaign member_of
file_report-IsWorded m action r h =
    let P : Reporter → Type 0 = λ (r' : Reporter). All IsWorded r'.campaigns in
    let file = incident_file (m.stamp action.timestamp) action.pid action.process_name in
    let worded = is_some (signame_from_reason action.reason) in
    when P (not (worded && m.writable file)) (λ _. h)
      (λ ok.
        let placed = All-last_slice IsWorded campaign_max _ (
          place_member-IsWorded m (member_of action file) (ground (arith, ok))
            (recent_signals m.now 500 r.engine).1 r.campaigns h) in
        when P (not r.notify) (λ _. placed) (λ _. placed))

finalize-IsWorded :
    (now : ℕ) (force : Bool) (c : Campaign) → IsWorded c → IsWorded (finalize now force c)
unfolding finalize
finalize-IsWorded now force c h =
    when IsWorded c.finalized (λ _. h)
      (λ _. when IsWorded (force || ltb (c.last_ts + campaign_gap) now) (λ _. h) (λ _. h))

finalize_due-IsWorded :
    (now : ℕ) (force : Bool) (campaigns : List Campaign)
    → All IsWorded campaigns
    → All IsWorded (map (finalize now force) campaigns)
finalize_due-IsWorded now force [] h = tt
finalize_due-IsWorded now force (c ∷ cs) (h, hs) =
    (finalize-IsWorded now force c h, finalize_due-IsWorded now force cs hs)

step-IsWorded :
    (e : Event) (r : Reporter) → All IsWorded r.campaigns → All IsWorded (step e r).campaigns
unfolding step on_action finalize_due
step-IsWorded (acted m action) r h =
    let P : Reporter → Type 0 = λ (r' : Reporter). All IsWorded r'.campaigns in
    when P (not (action.terminated || action.quarantined)) (λ _. h)
      (λ _.
        when P (is_repeated m.now (find_state (state_of action) r.reported_states)) (λ _. h)
          (λ _. file_report-IsWorded m action _ h))
step-IsWorded (woken m) r h = finalize_due-IsWorded m.now false r.campaigns h

pub run-IsWorded :
    (events : List Event) (r : Reporter)
    → All IsWorded r.campaigns
    → All IsWorded (run events r).campaigns
run-IsWorded [] r h = h
run-IsWorded (e ∷ events) r h = run-IsWorded events (step e r) (step-IsWorded e r h)

-- Whatever the responder does and whenever the finalizing thread wakes up, the rows of the report of
-- each campaign that the reporter then keeps can be made, if in the campaigns at the start the reason of
-- every member names a signal. The rows rise in time, and no threat has two. A threat has a row exactly if it
-- has been seen, and the row's time is the earliest at which a captured signal shows it or a process was
-- stopped for it. For a process whose name the program does not treat as unknown, the row of a threat
-- names it exactly in two cases: a captured signal of the threat comes from a PID whose last stopped
-- process has that name, and the threat is one that a process was stopped for, or an encryption signal;
-- or a process of that name was stopped for the threat.
pub run-IsReported :
    (events : List Event) (r : Reporter) (name p : String)
    → All IsWorded r.campaigns
    → is_unknown_name p ≡ false
    → All (IsReported name p) (run events r).campaigns
run-IsReported events r name p h known =
    All-imp IsWorded (IsReported name p) (campaign_behaviors-IsReported name p known)
      (run events r).campaigns (run-IsWorded events r h)
