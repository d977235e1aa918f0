-- ===== src/Reporter/Others.antt =====
-- incident_report.py: signals of other processes leave the campaigns as they are.
use xodusmile.Prelude.{
  ℕ, ◌≡◌, inl, inr, refl, sym, ap, ◌∙◌, subst, Bool, true, false, not, ◌&&◌, ◌||◌, Option, none,
  some, List, [], ◌∷◌, arith, ◌-◌, ◌==◌, ltb, if◌then◌else◌, All, All-last_slice, keep, Bool-cases,
  when, is_some, last_slice,
}
use xodusmile.Signal.{Signal, pid_of}
use xodusmile.Scoring.{Engine, names_pid, evict, evict_old, recent_signals}
use xodusmile.Responder.Types.{KillAction}
use xodusmile.Reporter.FileNames.{incident_file}
use xodusmile.Reporter.Behaviors.{signame_from_reason}
use xodusmile.Reporter.Joining.{
  Machine, Member, Campaign, signal_pid, is_pid, capture, capture_all, join, new_campaign,
  place_member,
}
use xodusmile.Reporter.{
  Reporter, on_action, file_report, update_campaign, campaign_max, is_repeated, find_state,
  state_of, member_of,
}

-- The reporter takes the signal for one of another process.
abbrev pub IsOther : ℕ → Signal → Type 0
IsOther pid s = is_pid pid (signal_pid s) ≡ false

module _ (pid : ℕ) where
  capture_all-other :
      (recent : List Signal) (c : Campaign)
      → All (IsOther pid) recent
      → capture_all pid recent c ≡ c
  unfolding capture
  capture_all-other [] c h = refl
  capture_all-other (s ∷ recent) c (h, hs) =
      let skipped : capture pid s c ≡ c = ground (arith, h) in
      ap (capture_all pid recent) skipped ∙ capture_all-other recent c hs

  evict-IsOther :
      (lo : ℕ) (signals : List Signal)
      → All (IsOther pid) signals
      → All (IsOther pid) (evict lo signals)
  unfolding evict
  evict-IsOther lo [] h = tt
  evict-IsOther lo (s ∷ signals) (h, hs) =
      let kept : Bool → Type 0 =
        λ b. All (IsOther pid) (elim b [ true ↦ evict lo signals | false ↦ s ∷ signals ]) in
      elim (Bool-cases (ltb s.timestamp lo)) [
        | inl e ↦ subst kept (sym e) (evict-IsOther lo signals hs)
        | inr e ↦ subst kept (sym e) (h, hs)
      ]

  is_pid-elim : (o : Option ℕ) → is_pid pid o ≡ (elim o [ none ↦ false | some p ↦ p == pid ])
  is_pid-elim none = refl
  is_pid-elim (some p) = refl

  is_pid-names_pid :
      (s : Signal) → signal_pid s ≡ pid_of s → is_pid pid (signal_pid s) ≡ names_pid pid s
  unfolding names_pid
  is_pid-names_pid s h = ap (is_pid pid) h ∙ is_pid-elim (pid_of s)

  pub forget_pid-IsOther :
      (signals : List Signal)
      → All (λ s. signal_pid s ≡ pid_of s) signals
      → All (IsOther pid) (keep (λ s. not (names_pid pid s)) signals)
  unfolding keep names_pid
  forget_pid-IsOther [] h = tt
  forget_pid-IsOther (s ∷ signals) (h, hs) =
      let rest = forget_pid-IsOther signals hs in
      when (All (IsOther pid)) (not (names_pid pid s))
        (λ e. (is_pid-names_pid s h ∙ ground (arith, e), rest)) (λ e. rest)

module _ (m : Machine) (member : Member) (recent : List Signal)
    (other : All (IsOther member.pid) recent) where
  join-other : (c : Campaign) → join member recent c ≡ join member [] c
  unfolding join
  join-other c = capture_all-other member.pid recent _ other

  place_member-other :
      (campaigns : List Campaign)
      → place_member m member recent campaigns ≡ place_member m member [] campaigns
  unfolding place_member
  place_member-other [] = ap (λ c. c ∷ []) (join-other (new_campaign m member.ts))
  place_member-other (c ∷ []) = ground (arith, join-other c, join-other (new_campaign m member.ts))
  place_member-other (c ∷ d ∷ cs) = ap (λ ds. c ∷ ds) (place_member-other (d ∷ cs))

recent_signals-IsOther :
    (pid now : ℕ) (e : Engine)
    → All (IsOther pid) e.signals
    → All (IsOther pid) (recent_signals now 500 e).1
unfolding recent_signals evict_old
recent_signals-IsOther pid now e h =
    All-last_slice (IsOther pid) 500 (evict (now - e.window) e.signals)
      (evict-IsOther pid (now - e.window) e.signals h)

-- The campaigns after an action, with the signals that the engine has of late.
abbrev joined : Machine → KillAction → Reporter → List Signal → List Campaign
joined m action reporter recent =
    let file = incident_file (m.stamp action.timestamp) action.pid action.process_name in
    last_slice campaign_max (place_member m (member_of action file) recent reporter.campaigns)

abbrev joins : Machine → KillAction → Reporter → Bool
joins m action reporter =
    let file = incident_file (m.stamp action.timestamp) action.pid action.process_name in
    (action.terminated || action.quarantined)
    && (not (is_repeated m.now (find_state (state_of action) reporter.reported_states))
        && (is_some (signame_from_reason action.reason) && m.writable file))

on_action-campaigns :
    (m : Machine) (action : KillAction) (reporter : Reporter)
    → (on_action m action reporter).campaigns ≡ (
        if joins m action reporter
        then joined m action reporter (recent_signals m.now 500 reporter.engine).1
        else reporter.campaigns)
unfolding on_action file_report update_campaign
on_action-campaigns m action reporter = ground arith

-- The campaigns do not depend on signals of other processes.
pub on_action-other :
    (m : Machine) (action : KillAction) (reporter : Reporter) (e : Engine)
    → All (IsOther action.pid) e.signals
    → (on_action m action (record reporter { engine = e })).campaigns
      ≡ (on_action m action (record reporter { engine = record e { signals = [] } })).campaigns
unfolding member_of
on_action-other m action reporter e other =
    let empty : Engine = record e { signals = [] } in
    let file = incident_file (m.stamp action.timestamp) action.pid action.process_name in
    let same_ : (now : Engine)
        → All (IsOther action.pid) now.signals
        → joined m action reporter (recent_signals m.now 500 now).1 ≡ joined m action reporter [] =
      λ now h. ap (last_slice campaign_max) (
        place_member-other m (member_of action file) (recent_signals m.now 500 now).1
          (recent_signals-IsOther action.pid m.now now h) reporter.campaigns) in
    on_action-campaigns m action (record reporter { engine = e })
    ∙ ap (λ cs. if joins m action reporter then cs else reporter.campaigns)
        (same_ e other ∙ sym (same_ empty tt))
    ∙ sym (on_action-campaigns m action (record reporter { engine = empty }))
