-- ===== src/Reporter/Campaigns.antt =====
-- incident_report.py: the campaigns refine the grouping of the incidents' times, whenever the thread that
-- finalizes them wakes up.
use xodusmile.Prelude.{
  ℕ, ◌+◌, ◌≤◌, ◌<◌, ◌≡◌, refl, sym, ap, ◌∙◌, subst, true, false, not, ◌&&◌, List, [], ◌∷◌, ◌++◌,
  arith, leb, ltb, All, last_slice, map, map-last_slice, String, when, Bool-cases, inl, inr, add,
  any, All-last_slice, All-imp,
}
use mathlib.Core.Bool.{false≢true}
use xodusmile.Signal.{Signal}
use xodusmile.Damage.{sig_paths, max}
use xodusmile.Scoring.{recent_signals}
use xodusmile.Responder.Types.{KillAction}
use xodusmile.Reporter.Joining.{
  is_pid, signal_pid, same_signal_key, SignalKey, millis, Campaign, Member, Machine, campaign_gap,
  capture, capture_all, new_campaign, join, is_ongoing, place_member,
}
use xodusmile.Reporter.{Reporter, member_of, update_campaign, finalize, finalize_due, campaign_max}
use xodusmile.Reporter.Grouping.{
  groups_of, attach, last_of, last_of-append, groups_of-append, last_slice-attach,
}

-- The times of a campaign's incidents.
abbrev pub times_of : Campaign → List ℕ
times_of c = map (λ (x : Member). x.ts) c.members

map-append : (f : Member → ℕ) (xs ys : List Member) → map f (xs ++ ys) ≡ map f xs ++ map f ys
map-append f [] ys = refl
map-append f (x ∷ xs) ys = ap (λ zs. f x ∷ zs) (map-append f xs ys)

-- The captured signals leave the rest of a campaign.
pub record Kept (c c' : Campaign) : Type 0 where
  pub last_ts : c'.last_ts ≡ c.last_ts
  pub members : c'.members ≡ c.members
  pub finalized : c'.finalized ≡ c.finalized

capture-Kept : (pid : ℕ) (s : Signal) (c : Campaign) → Kept c (capture pid s c)
unfolding capture
capture-Kept pid s c =
    let key : SignalKey = (millis s.timestamp, (s.detector, (s.name, (pid, sig_paths s)))) in
    let unchanged : Kept c c = record { last_ts = refl; members = refl; finalized = refl } in
    when (Kept c) (not (is_pid pid (signal_pid s))) (λ _. unchanged)
      (λ _.
        when (Kept c) (any (same_signal_key key) c.sig_keys) (λ _. unchanged)
          (λ _. record { last_ts = refl; members = refl; finalized = refl }))

pub capture_all-Kept :
    (pid : ℕ) (recent : List Signal) (c : Campaign) → Kept c (capture_all pid recent c)
capture_all-Kept pid [] c = record { last_ts = refl; members = refl; finalized = refl }
capture_all-Kept pid (s ∷ recent) c =
    let one = capture-Kept pid s c in
    let rest = capture_all-Kept pid recent (capture pid s c) in
    record {
      last_ts = rest.last_ts ∙ one.last_ts;
      members = rest.members ∙ one.members;
      finalized = rest.finalized ∙ one.finalized;
    }

-- The campaign's last time is its last incident's, which is past; it is final only after the gap.
record Fits (now : ℕ) (c : Campaign) : Type 0 where
  last : c.last_ts ≡ last_of (times_of c)
  past : c.last_ts ≤ now
  waits : c.finalized ≡ true → c.last_ts + campaign_gap < now

Fits-later : (now later : ℕ) (c : Campaign) → now ≤ later → Fits now c → Fits later c
Fits-later now later c h fits = record {
  last = fits.last;
  past = omega (arith, h, fits.past);
  waits = λ f. omega (arith, h, fits.waits f);
}

-- An incident that joins an open campaign stands last in it.
record Joined (member : Member) (c c' : Campaign) : Type 0 where
  times : times_of c' ≡ times_of c ++ member.ts ∷ []
  fits : Fits member.ts c'

join-Joined :
    (member : Member) (recent : List Signal) (c : Campaign)
    → c.last_ts ≤ member.ts
    → c.finalized ≡ false
    → Joined member c (join member recent c)
unfolding join
join-Joined member recent c h open_ =
    let before = record c {
      last_ts = max c.last_ts member.ts;
      pids = add member.pid c.pids;
      members = c.members ++ member ∷ [];
    } in
    let kept = capture_all-Kept member.pid recent before in
    let times =
      ap (map (λ (x : Member). x.ts)) kept.members
      ∙ map-append (λ (x : Member). x.ts) c.members (member ∷ []) in
    let newest : max c.last_ts member.ts ≡ member.ts = ground (arith, h) in
    record {
      times = times;
      fits = record {
        last =
            kept.last_ts ∙ newest ∙ sym (ap last_of times ∙ last_of-append member.ts (times_of c));
        past = omega (arith, kept.last_ts, newest);
        waits = λ f. absurd (false≢true (sym (kept.finalized ∙ open_) ∙ f));
      };
    }

-- The incident is placed where the specification has it.
place_member-attach :
    (m : Machine) (member : Member) (recent : List Signal) (campaigns : List Campaign)
    → All (Fits member.ts) campaigns
    → (map times_of (place_member m member recent campaigns)
        ≡ attach member.ts (map times_of campaigns))
      × All (Fits member.ts) (place_member m member recent campaigns)
unfolding place_member is_ongoing new_campaign
place_member-attach m member recent [] fits =
    let new = join-Joined member recent (new_campaign m member.ts) (omega arith) refl in
    (ap (λ x. x ∷ []) new.times, (new.fits, tt))
place_member-attach m member recent (c ∷ []) (fits, rest) =
    elim (Bool-cases (leb member.ts (c.last_ts + campaign_gap))) [
      | inl near ↦
          let open_ : c.finalized ≡ false = ground (arith, near, fits.waits) in
          let joined = join-Joined member recent c fits.past open_ in
          let ongoing : (not c.finalized && leb member.ts (c.last_ts + campaign_gap)) ≡ true =
            ground (arith, near, open_) in
          let near' : leb member.ts (last_of (times_of c) + campaign_gap) ≡ true =
            ground (arith, near, fits.last) in
          simp (ongoing, near') (ap (λ x. x ∷ []) joined.times, (joined.fits, tt))
      | inr far ↦
          let new = join-Joined member recent (new_campaign m member.ts) (omega arith) refl in
          let closed : (not c.finalized && leb member.ts (c.last_ts + campaign_gap)) ≡ false =
            ground (arith, far) in
          let far' : leb member.ts (last_of (times_of c) + campaign_gap) ≡ false =
            ground (arith, far, fits.last) in
          simp (closed, far') (ap (λ x. times_of c ∷ x ∷ []) new.times, (fits, (new.fits, tt)))
    ]
place_member-attach m member recent (c ∷ d ∷ cs) (fits, rest) =
    let later = place_member-attach m member recent (d ∷ cs) rest in
    (ap (λ x. times_of c ∷ x) later.0, (fits, later.1))

finalize-Fits :
    (now : ℕ) (c : Campaign)
    → Fits now c
    → Fits now (finalize now false c) × (times_of (finalize now false c) ≡ times_of c)
unfolding finalize
finalize-Fits now c fits =
    let P : Campaign → Type 0 = λ x. Fits now x × (times_of x ≡ times_of c) in
    when P c.finalized (λ _. (fits, refl))
      (λ _.
        when P (ltb (c.last_ts + campaign_gap) now)
          (λ late. (
            record { last = fits.last; past = fits.past; waits = λ _. ground (arith, late) },
            refl,
          ))
          (λ _. (fits, refl)))

finalize_each-Fits :
    (now : ℕ) (campaigns : List Campaign)
    → All (Fits now) campaigns
    → All (Fits now) (map (finalize now false) campaigns)
      × (map times_of (map (finalize now false) campaigns) ≡ map times_of campaigns)
finalize_each-Fits now [] fits = (tt, refl)
finalize_each-Fits now (c ∷ campaigns) (fits, rest) =
    let one = finalize-Fits now c fits in
    let others = finalize_each-Fits now campaigns rest in
    ((one.0, others.0), λ i. one.1 i ∷ others.1 i)

-- What reaches the campaigns: a reported incident, or a wake-up of the thread.
pub data Step : Type 0 where
  updated : Machine → KillAction → String → Step
  woken : Machine → Step

abbrev pub step_time : Step → ℕ
step_time (updated m action file) = action.timestamp
step_time (woken m) = m.now

abbrev pub take_step : Step → Reporter → Reporter
take_step (updated m action file) r = update_campaign m action file r
take_step (woken m) r = finalize_due m false r

abbrev pub take_steps : List Step → Reporter → Reporter
take_steps [] r = r
take_steps (s ∷ steps) r = take_steps steps (take_step s r)

-- The times of the incidents, after those before.
abbrev pub incident_times : List Step → List ℕ → List ℕ
incident_times [] before = before
incident_times (updated m action file ∷ steps) before =
    incident_times steps (before ++ action.timestamp ∷ [])
incident_times (woken m ∷ steps) before = incident_times steps before

-- The steps happen in order, none before the first bound.
abbrev pub AreOrdered : ℕ → List Step → Type 0
AreOrdered lo [] = Unit
AreOrdered lo (s ∷ steps) = (lo ≤ step_time s) × AreOrdered (step_time s) steps

record Refines (now : ℕ) (times : List ℕ) (r : Reporter) : Type 0 where
  groups : map times_of r.campaigns ≡ last_slice campaign_max (groups_of times)
  fits : All (Fits now) r.campaigns

update_campaign-Refines :
    (m : Machine) (action : KillAction) (file : String) (now : ℕ) (times : List ℕ) (r : Reporter)
    → Refines now times r
    → now ≤ action.timestamp
    → Refines action.timestamp (times ++ action.timestamp ∷ []) (update_campaign m action file r)
unfolding update_campaign
update_campaign-Refines m action file now times r refines h =
    let now_recent = (recent_signals m.now 500 r.engine).1 in
    let later =
      All-imp (Fits now) (Fits action.timestamp) (λ c. Fits-later now action.timestamp c h)
        r.campaigns refines.fits in
    let placed = place_member-attach m (member_of action file) now_recent r.campaigns later in
    let after_ = place_member m (member_of action file) now_recent r.campaigns in
    record {
      groups =
          map-last_slice times_of campaign_max after_
          ∙ ap (last_slice campaign_max) (placed.0 ∙ ap (attach action.timestamp) refines.groups)
          ∙ last_slice-attach campaign_max action.timestamp (groups_of times) (omega arith)
          ∙ ap (last_slice campaign_max) (sym (groups_of-append action.timestamp times));
      fits = All-last_slice (Fits action.timestamp) campaign_max after_ placed.1;
    }

finalize_due-Refines :
    (m : Machine) (now : ℕ) (times : List ℕ) (r : Reporter)
    → Refines now times r
    → now ≤ m.now
    → Refines m.now times (finalize_due m false r)
unfolding finalize_due
finalize_due-Refines m now times r refines h =
    let later =
      All-imp (Fits now) (Fits m.now) (λ c. Fits-later now m.now c h) r.campaigns refines.fits in
    let final = finalize_each-Fits m.now r.campaigns later in
    record { groups = final.1 ∙ refines.groups; fits = final.0 }

take_steps-Refines :
    (steps : List Step) (now : ℕ) (times : List ℕ) (r : Reporter)
    → AreOrdered now steps
    → Refines now times r
    → map times_of (take_steps steps r).campaigns
      ≡ last_slice campaign_max (groups_of (incident_times steps times))
take_steps-Refines [] now times r ordered refines = refines.groups
take_steps-Refines (updated m action file ∷ steps) now times r (h, hs) refines =
    take_steps-Refines steps action.timestamp (times ++ action.timestamp ∷ [])
      (update_campaign m action file r) hs
      (update_campaign-Refines m action file now times r refines h)
take_steps-Refines (woken m ∷ steps) now times r (h, hs) refines =
    take_steps-Refines steps m.now times (finalize_due m false r) hs
      (finalize_due-Refines m now times r refines h)

-- Of any incidents and wake-ups in order, from a reporter without campaigns, the campaigns are the 200
-- newest groups of the incidents, cut just where two follow each other by more than the gap: when the
-- thread wakes up, and what it finalizes, never splits or joins an attack.
pub take_steps-groups_of :
    (steps : List Step) (lo : ℕ) (r : Reporter)
    → r.campaigns ≡ []
    → AreOrdered lo steps
    → map times_of (take_steps steps r).campaigns
      ≡ last_slice campaign_max (groups_of (incident_times steps []))
unfolding last_slice
take_steps-groups_of steps lo r none_yet ordered =
    take_steps-Refines steps lo [] r ordered (record {
      groups = ap (map times_of) none_yet;
      fits = subst (All (Fits lo)) (sym none_yet) tt;
    })
