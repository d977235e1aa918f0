-- ===== src/ProcessWatcher/Once.antt =====
-- detectors/process_watcher.py: a tracked process is not judged again, whatever else a scan lists.
use xodusmile.Prelude.{
  ℕ, ◌≡◌, refl, ap, ◌∙◌, String, Bool, true, false, not, ◌&&◌, arith, Option, none, some, List, [],
  ◌∷◌, ◌++◌, ◌==◌, when, Bool-cases, inl, inr,
}
use xodusmile.PidTable.{find, put, find-put}
use xodusmile.CommandLine.{Search}
use xodusmile.ProcessWatcher.Types.{Info, Snapshot, Watcher, take_snapshot, refresh}
use xodusmile.ProcessWatcher.Judging.{on_new_process, check_write_burst}
use xodusmile.ProcessWatcher.{track, scan_pid, scan_one, scan_all}
use xodusmile.ProcessWatcher.Tracking.{on_new_process-tables}
use xodusmile.ProcessWatcher.Known.{judged, known, known_pid, same_time, scan_one-Quiet}

-- The entry is not one of the PID.
abbrev pub not_pid : ℕ → Option ℕ → Bool
not_pid p none = true
not_pid p (some q) = not (q == p)

abbrev pub all_other : ℕ → List (Option Info) → Bool
all_other p [] = true
all_other p (none ∷ infos) = all_other p infos
all_other p (some info ∷ infos) = not_pid p info.pid && all_other p infos

-- What a round of another process leaves of a process.
record Spares (p : ℕ) (w w' : Watcher) : Type 0 where
  own_pid : w'.own_pid ≡ w.own_pid
  entry : find p w'.seen ≡ find p w.seen

put-Spares :
    (p q : ℕ) (snap : Snapshot) (w : Watcher)
    → (q == p) ≡ false
    → Spares p w (record w { seen = put q snap w.seen })
put-Spares p q snap w other = record {
  own_pid = refl;
  entry = find-put q p snap w.seen ∙ rw other refl;
}

new-Spares :
    (find_ : Search) (root : String) (now p q : ℕ) (snap : Snapshot) (w : Watcher)
    → (q == p) ≡ false
    → Spares p w (on_new_process find_ root now snap (record w { seen = put q snap w.seen }))
new-Spares find_ root now p q snap w other =
    let w' = record w { seen = put q snap w.seen } in
    let same = on_new_process-tables find_ root now snap w' in
    record { own_pid = same.2; entry = ap (find p) same.0 ∙ (put-Spares p q snap w other).entry }

track-Spares :
    (find_ : Search) (root : String) (now : ℕ) (initial : Bool) (p q : ℕ) (info : Info)
    (old : Option Snapshot) (w : Watcher)
    → (q == p) ≡ false
    → Spares p w (track find_ root now initial q info old w)
unfolding track
track-Spares find_ root now initial p q info none w other =
    let snap = take_snapshot now q info in
    when (Spares p w) initial (λ _. put-Spares p q snap w other)
      (λ _. new-Spares find_ root now p q snap w other)
track-Spares find_ root now initial p q info (some old) w other =
    let snap = take_snapshot now q info in
    when (Spares p w) (not (old.started_at == snap.started_at))
      (λ _.
        when (Spares p w) initial (λ _. put-Spares p q snap w other)
          (λ _. new-Spares find_ root now p q snap w other))
      (λ _. put-Spares p q (refresh now info old) w other)

check_write_burst-Spares :
    (p pid : ℕ) (name cmdline : String) (bytes now : ℕ) (w w' : Watcher)
    → Spares p w w'
    → Spares p w (check_write_burst pid name cmdline bytes now w')
unfolding check_write_burst
check_write_burst-Spares p pid name cmdline bytes now w w' spares = record {
  own_pid = spares.own_pid;
  entry = spares.entry;
}

same-Spares : (p : ℕ) (w : Watcher) → Spares p w w
same-Spares p w = record { own_pid = refl; entry = refl }

scan_pid-Spares :
    (find_ : Search) (root : String) (now : ℕ) (initial : Bool) (p : ℕ) (info : Info)
    (pid : Option ℕ) (s : List ℕ × Watcher)
    → not_pid p pid ≡ true
    → Spares p s.1 (scan_pid find_ root now initial info pid s).1
unfolding scan_pid
scan_pid-Spares find_ root now initial p info none (pids, w) other = same-Spares p w
scan_pid-Spares find_ root now initial p info (some q) (pids, w) other =
    elim (Bool-cases (q == w.own_pid)) [
      | inl own ↦ simp own (same-Spares p w)
      | inr listed ↦
          let snap = take_snapshot now q info in
          let w' = track find_ root now initial q info (find q w.seen) w in
          let apart : (q == p) ≡ false = ground arith in
          let spares = track-Spares find_ root now initial p q info (find q w.seen) w apart in
          simp listed (
            when (Spares p w) initial (λ _. spares)
              (λ _.
                check_write_burst-Spares p q snap.name snap.cmdline info.write_bytes now w w'
                  spares))
    ]

Spares-trans : {p : ℕ} {u v w : Watcher} → Spares p u v → Spares p v w → Spares p u w
Spares-trans a b = record { own_pid = b.own_pid ∙ a.own_pid; entry = b.entry ∙ a.entry }

scan_all-Spares :
    (find_ : Search) (root : String) (now : ℕ) (initial : Bool) (p : ℕ) (infos : List (Option Info))
    (s : List ℕ × Watcher)
    → all_other p infos ≡ true
    → Spares p s.1 (scan_all find_ root now initial infos s).1
unfolding scan_one
scan_all-Spares find_ root now initial p [] s others = same-Spares p s.1
scan_all-Spares find_ root now initial p (none ∷ infos) s others =
    scan_all-Spares find_ root now initial p infos s others
scan_all-Spares find_ root now initial p (some info ∷ infos) s others =
    let s' = scan_pid find_ root now initial info info.pid s in
    Spares-trans (scan_pid-Spares find_ root now initial p info info.pid s (ground (arith, others)))
      (scan_all-Spares find_ root now initial p infos s' (ground (arith, others)))

scan_all-append :
    (find_ : Search) (root : String) (now : ℕ) (initial : Bool) (before after_ : List (Option Info))
    (s : List ℕ × Watcher)
    → scan_all find_ root now initial (before ++ after_) s
      ≡ scan_all find_ root now initial after_ (scan_all find_ root now initial before s)
scan_all-append find_ root now initial [] after_ s = refl
scan_all-append find_ root now initial (i ∷ before) after_ s =
    scan_all-append find_ root now initial before after_ (scan_one find_ root now initial i s)

-- A scan comes to a process after any others, new ones included, none with its PID. If at the start of the
-- scan the process is tracked with the creation time that psutil gives, not 0, its round emits nothing but
-- write bursts and leaves every fan-out count: no rule, masquerade, chain or fan-out is reported of it a
-- second time. The scan then goes on with the rest of the list.
pub scan_all-judged_once :
    (find_ : Search) (root : String) (now : ℕ) (initial : Bool) (p : ℕ) (info : Info)
    (before after_ : List (Option Info)) (w : Watcher)
    → info.pid ≡ some p
    → same_time info.create_time (find p w.seen) ≡ true
    → all_other p before ≡ true
    → let s = scan_all find_ root now initial before ([], w) in
      let s' = scan_one find_ root now initial (some info) s in
      (judged s'.1.emitted ≡ judged s.1.emitted)
      × (s'.1.fanout ≡ s.1.fanout)
      × (scan_all find_ root now initial (before ++ some info ∷ after_) ([], w)
          ≡ scan_all find_ root now initial after_ s')
scan_all-judged_once find_ root now initial p info before after_ w pid tracked others =
    let s = scan_all find_ root now initial before ([], w) in
    let spares = scan_all-Spares find_ root now initial p before ([], w) others in
    let still : same_time info.create_time (find p s.1.seen) ≡ true =
      ap (same_time info.create_time) spares.entry ∙ tracked in
    let is_known : known s.1 (some info) ≡ true =
      ap (λ o. known_pid s.1 o info.create_time) pid ∙ ground (arith, still) in
    let quiet = scan_one-Quiet find_ root now initial (some info) s is_known in
    (
      quiet.judged_before,
      quiet.fanout,
      scan_all-append find_ root now initial before (some info ∷ after_) ([], w),
    )
