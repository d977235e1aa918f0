-- ===== src/Reporter/Closing.antt =====
-- incident_report.py: what close leaves.
use xodusmile.Prelude.{
  ℕ, ◌≡◌, refl, ap, String, Bool, true, false, ◌&&◌, List, [], ◌∷◌, arith, if◌then◌else◌, All, map,
  insert, lookup, lookup-insert, is_some, when, All-imp, some, not, sym, subst, same, ◌∙◌, ◌⊎◌, inl,
  inr, Bool-cases,
}
use mathlib.Core.List.{Memᴰ}
use text.Mathlib.TextEquality.{eq_iff}
use xodusmile.Reporter.Joining.{Campaign, Machine}
use xodusmile.Reporter.Behaviors.{campaign_behaviors, behaviors_of}
use xodusmile.Reporter.Behaviors.Reasons.{reasons-is_some}
use xodusmile.Reporter.Behaviors.Times.{IsWorded}
use xodusmile.Reporter.Runs.{Event, run}
use xodusmile.Reporter.Reports.{run-IsWorded}
use xodusmile.Reporter.{
  Reporter, ReportFile, of_campaign, finalize, is_due, write_due, finalize_due, close,
}

abbrev IsFinal : Campaign → Type 0
IsFinal c = c.finalized ≡ true

finalize-IsFinal : (now : ℕ) (c : Campaign) → IsFinal (finalize now true c)
unfolding finalize
finalize-IsFinal now c = when IsFinal c.finalized (λ h. h) (λ _. refl)

finalize_each-IsFinal :
    (now : ℕ) (campaigns : List Campaign) → All IsFinal (map (finalize now true) campaigns)
finalize_each-IsFinal now [] = tt
finalize_each-IsFinal now (c ∷ campaigns) =
    (finalize-IsFinal now c, finalize_each-IsFinal now campaigns)

finalize_each_again :
    (now : ℕ) (force : Bool) (campaigns : List Campaign)
    → All IsFinal campaigns
    → map (finalize now force) campaigns ≡ campaigns
unfolding finalize
finalize_each_again now force [] final = refl
finalize_each_again now force (c ∷ campaigns) (h, hs) =
    let rest = finalize_each_again now force campaigns hs in simp h (ap (λ cs. c ∷ cs) rest)

write_due_final :
    (m : Machine) (force : Bool) (campaigns : List Campaign) (files : List (String × ReportFile))
    → All IsFinal campaigns
    → write_due m force campaigns files ≡ files
unfolding write_due
write_due_final m force [] files final = refl
write_due_final m force (c ∷ campaigns) files (h, hs) =
    simp h (write_due_final m force campaigns files hs)

-- The file of a name is the report of one of the campaigns, which was open and has just become final.
abbrev pub IsReportOf : Machine → String → List Campaign → List (String × ReportFile) → Type 0
IsReportOf m name campaigns files =
    (c : Campaign) × Memᴰ c campaigns
    × (c.filename ≡ name)
    × (c.finalized ≡ false)
    × (lookup name files ≡ some (of_campaign (finalize m.now true c)))

IsReportOf-later :
    (m : Machine) (name : String) (d : Campaign) (campaigns : List Campaign)
    (files : List (String × ReportFile))
    → IsReportOf m name campaigns files
    → IsReportOf m name (d ∷ campaigns) files
IsReportOf-later m name d campaigns files (c, here_, named, open_, written) =
    (c, Memᴰ.tail here_, named, open_, written)

-- The folder after the round of a campaign.
abbrev round_files : Machine → Campaign → List (String × ReportFile) → List (String × ReportFile)
round_files m c files =
    if is_due m.now true c && m.writable c.filename
    then insert c.filename (of_campaign (finalize m.now true c)) files
    else files

can_report : (c : Campaign) → IsWorded c → is_some (campaign_behaviors c) ≡ true
unfolding campaign_behaviors
can_report c worded =
    let (named, e) = reasons-is_some c.members worded in ap is_some (ap (behaviors_of c) e)

-- The round of a campaign that is worded ends no loop.
write_due-cons :
    (m : Machine) (c : Campaign) (campaigns : List Campaign) (files : List (String × ReportFile))
    → IsWorded c
    → write_due m true (c ∷ campaigns) files ≡ write_due m true campaigns (round_files m c files)
unfolding write_due
write_due-cons m c campaigns files worded =
    let can = can_report c worded in
    let after_ = round_files m c files in
    when (λ fs. fs ≡ write_due m true campaigns after_) {x = files}
      (is_due m.now true c && not (is_some (campaign_behaviors c))) (λ h. absurd (ground arith))
      (λ _. refl)

due_file :
    (m : Machine) (name : String) (c : Campaign) (files : List (String × ReportFile))
    → (lookup name (round_files m c files) ≡ lookup name files)
      ⊎ ((c.filename ≡ name)
          × (c.finalized ≡ false)
          × (lookup name (round_files m c files) ≡ some (of_campaign (finalize m.now true c))))
due_file m name c files =
    let inserted = lookup-insert c.filename name (of_campaign (finalize m.now true c)) files in
    elim (Bool-cases (is_due m.now true c && m.writable c.filename)) [
      | inr skipped ↦ inl (rw skipped refl)
      | inl due ↦ elim (Bool-cases (same c.filename name)) [
        | inr other ↦ inl (rw due (rw inserted (rw other refl)))
        | inl named ↦ inr (
          (eq_iff c.filename name).0 named,
          ground (arith, due),
          rw due (rw inserted (rw named refl)),
        )
      ]
    ]

-- A file is left as it was, or holds the report of a campaign of the loop.
write_due-last :
    (m : Machine) (name : String) (campaigns : List Campaign) (files : List (String × ReportFile))
    → All IsWorded campaigns
    → (lookup name (write_due m true campaigns files) ≡ lookup name files)
      ⊎ IsReportOf m name campaigns (write_due m true campaigns files)
write_due-last m name [] files worded = inl (unfold write_due in refl)
write_due-last m name (c ∷ campaigns) files (worded, rest) =
    let after_ = round_files m c files in
    rw (write_due-cons m c campaigns files worded)
      (elim (write_due-last m name campaigns after_ rest) [
        | inr later ↦ inr (IsReportOf-later m name c campaigns _ later)
        | inl kept ↦ elim (due_file m name c files) [
          | inl same_file ↦ inl (kept ∙ same_file)
          | inr (named, open_, written) ↦ inr (c, Memᴰ.head refl, named, open_, kept ∙ written)
        ]
      ])

-- What the folder holds of a campaign: if it was open and its file can be written, the report at its
-- file's name is that of a campaign of that name just closed.
abbrev pub Written : Bool → Machine → String → List Campaign → List (String × ReportFile) → Type 0
Written true m name campaigns files = IsReportOf m name campaigns files
Written false m name campaigns files = Unit

abbrev pub IsWritten : Machine → List Campaign → List (String × ReportFile) → Campaign → Type 0
IsWritten m campaigns files c =
    Written (not c.finalized && m.writable c.filename) m c.filename campaigns files

Written-later :
    (b : Bool) (m : Machine) (name : String) (d : Campaign) (campaigns : List Campaign)
    (files : List (String × ReportFile))
    → Written b m name campaigns files
    → Written b m name (d ∷ campaigns) files
Written-later true m name d campaigns files w = IsReportOf-later m name d campaigns files w
Written-later false m name d campaigns files w = tt

Written-when :
    (b : Bool) (m : Machine) (name : String) (campaigns : List Campaign)
    (files : List (String × ReportFile))
    → (b ≡ true → IsReportOf m name campaigns files)
    → Written b m name campaigns files
Written-when true m name campaigns files h = h refl
Written-when false m name campaigns files h = tt

-- The first campaign is open and writable: its report is there, or a later one of the same file.
first-IsReportOf :
    (m : Machine) (c : Campaign) (campaigns : List Campaign) (files : List (String × ReportFile))
    → All IsWorded campaigns
    → (not c.finalized && m.writable c.filename) ≡ true
    → IsReportOf m c.filename (c ∷ campaigns) (write_due m true campaigns (round_files m c files))
first-IsReportOf m c campaigns files worded due =
    let after_ = round_files m c files in
    let due' : (is_due m.now true c && m.writable c.filename) ≡ true = ground (arith, due) in
    let self : same c.filename c.filename ≡ true = (eq_iff c.filename c.filename).1 refl in
    let open_ : c.finalized ≡ false = ground (arith, due) in
    let inserted =
      lookup-insert c.filename c.filename (of_campaign (finalize m.now true c)) files in
    elim (write_due-last m c.filename campaigns after_ worded) [
      | inr later ↦ IsReportOf-later m c.filename c campaigns _ later
      | inl kept ↦ (c, Memᴰ.head refl, refl, open_, kept ∙ rw due' (rw inserted (rw self refl)))
    ]

write_due-IsWritten :
    (m : Machine) (campaigns : List Campaign) (files : List (String × ReportFile))
    → All IsWorded campaigns
    → All (IsWritten m campaigns (write_due m true campaigns files)) campaigns
write_due-IsWritten m [] files worded = tt
write_due-IsWritten m (c ∷ campaigns) files (worded, rest) =
    let after_ = round_files m c files in
    subst (λ fs. All (IsWritten m (c ∷ campaigns) fs) (c ∷ campaigns))
      (sym (write_due-cons m c campaigns files worded))
      (
        Written-when (not c.finalized && m.writable c.filename) m c.filename (c ∷ campaigns) _
            (first-IsReportOf m c campaigns files rest),
        All-imp (IsWritten m campaigns (write_due m true campaigns after_))
            (IsWritten m (c ∷ campaigns) (write_due m true campaigns after_))
            (λ d w.
              Written-later (not d.finalized && m.writable d.filename) m d.filename c campaigns _ w)
            campaigns (write_due-IsWritten m campaigns after_ rest),
      )

-- After any run, from campaigns whose reasons name signals, the reporter is closed. Then every campaign is
-- final. For each that was open and whose file can be written, the file of its name holds the report of a
-- campaign that was open and is now final, its own or that of another with the same file name. And the
-- thread, should it wake up again, changes nothing.
pub close-IsFinal :
    (events : List Event) (m later : Machine) (force : Bool) (r : Reporter)
    → All IsWorded r.campaigns
    → All IsFinal (close m (run events r)).campaigns
      × All
          (IsWritten m (run events r).campaigns (close m (run events r)).files)
          (run events r).campaigns
      × (finalize_due later force (close m (run events r)) ≡ close m (run events r))
unfolding close finalize_due
close-IsFinal events m later force start worded =
    let r = run events start in
    let final = finalize_each-IsFinal m.now r.campaigns in
    let same_campaigns =
      finalize_each_again later.now force (map (finalize m.now true) r.campaigns) final in
    let same_files =
      write_due_final later force (map (finalize m.now true) r.campaigns)
        (write_due m true r.campaigns r.files) final in
    (
      final,
      write_due-IsWritten m r.campaigns r.files (run-IsWorded events start worded),
      simp (same_campaigns, same_files) refl,
    )
