-- ===== src/ProcessWatcher/Known.antt =====
-- A process that is tracked is not judged again.
use xodusmile.Prelude.{
  ℕ, ◌+◌, ◌≡◌, refl, sym, ap, ◌∙◌, String, Bool, true, false, not, ◌&&◌, ◌||◌, Option, none, some,
  List, [], ◌∷◌, ◌==◌, ==_iff, arith, if◌then◌else◌, same, when, Bool-cases, inl, inr,
}
use xodusmile.Signal.{Signal}
use xodusmile.Detector.{emit}
use xodusmile.PidTable.{find, put, find-put}
use xodusmile.CommandLine.{Search}
use xodusmile.ProcessWatcher.Types.{Info, Snapshot, Watcher, take_snapshot, refresh}
use xodusmile.ProcessWatcher.Judging.{check_write_burst, report_burst}
use xodusmile.ProcessWatcher.{track, scan_pid, scan_one, scan_all, forget, scan}

-- The process is tracked with the creation time that psutil gives now, which is not 0.
abbrev pub same_time : Option ℕ → Option Snapshot → Bool
same_time none snap = false
same_time (some time) none = false
same_time (some time) (some snap) = not (time == 0) && snap.started_at == time

abbrev pub known_pid : Watcher → Option ℕ → Option ℕ → Bool
known_pid w none time = true
known_pid w (some p) time = p == w.own_pid || same_time time (find p w.seen)

abbrev pub known : Watcher → Option Info → Bool
known w none = true
known w (some info) = known_pid w info.pid info.create_time

-- The signals other than those of the written bytes.
abbrev pub judged : List Signal → ℕ
judged [] = 0
judged (s ∷ rest) = let n = judged rest in if same s.name "process_write_burst" then n else 1 + n

-- What a round leaves as it was.
pub record Quiet (w w' : Watcher) : Type 0 where
  pub own_pid : w'.own_pid ≡ w.own_pid
  pub times :
      (p : ℕ) (time : Option ℕ) → same_time time (find p w'.seen) ≡ same_time time (find p w.seen)
  pub judged_before : judged w'.emitted ≡ judged w.emitted
  pub fanout : w'.fanout ≡ w.fanout

check_write_burst-Quiet :
    (pid : ℕ) (name cmdline : String) (bytes now : ℕ) (w : Watcher)
    → Quiet w (check_write_burst pid name cmdline bytes now w)
unfolding check_write_burst report_burst emit
check_write_burst-Quiet pid name cmdline bytes now w = record {
  own_pid = refl;
  times = λ p time. refl;
  judged_before = report (find pid w.last_io);
  fanout = refl;
}
  where
    report :
        (last : Option (ℕ × ℕ))
        → judged (report_burst last pid name cmdline bytes now w.emitted) ≡ judged w.emitted
    report none = refl
    report (some (t, b)) = ground arith

Quiet-trans : {u v w : Watcher} → Quiet u v → Quiet v w → Quiet u w
Quiet-trans a b = record {
  own_pid = b.own_pid ∙ a.own_pid;
  times = λ p time. b.times p time ∙ a.times p time;
  judged_before = b.judged_before ∙ a.judged_before;
  fanout = b.fanout ∙ a.fanout;
}

same_time-some :
    (time : Option ℕ) (a b : Snapshot)
    → a.started_at ≡ b.started_at
    → same_time time (some a) ≡ same_time time (some b)
same_time-some none a b h = refl
same_time-some (some t) a b h = ap (λ x. not (t == 0) && x == t) h

-- A process that is brought up to date keeps its creation time.
put-Quiet :
    (now pid : ℕ) (info : Info) (old : Snapshot) (w : Watcher)
    → find pid w.seen ≡ some old
    → Quiet w (record w { seen = put pid (refresh now info old) w.seen })
put-Quiet now pid info old w at = record {
  own_pid = refl;
  times =
      λ p time. ap (same_time time) (find-put pid p (refresh now info old) w.seen) ∙ at_pid p time;
  judged_before = refl;
  fanout = refl;
}
  where
    at_pid :
        (p : ℕ) (time : Option ℕ)
        → same_time time (if pid == p then some (refresh now info old) else find p w.seen)
          ≡ same_time time (find p w.seen)
    at_pid p time = elim (Bool-cases (pid == p)) [
      | inl yes_ ↦
          let here = sym (ap (λ x. find x w.seen) ((==_iff pid p).0 yes_)) ∙ at in
          simp (yes_, here) (same_time-some time (refresh now info old) old refl)
      | inr no_ ↦ simp no_
    ]

same_time_new :
    (now pid : ℕ) (info : Info) (time : Option ℕ) (old : Snapshot)
    → info.create_time ≡ time
    → same_time time (some old) ≡ true
    → (old.started_at == (take_snapshot now pid info).started_at) ≡ true
unfolding take_snapshot
same_time_new now pid info none old eq h = ground (arith, h)
same_time_new now pid info (some t) old eq h = simp eq (ground (arith, h))

not_none : (time : Option ℕ) → same_time time none ≡ false
not_none none = refl
not_none (some t) = refl

none-Quiet : (w : Watcher) → Quiet w w
none-Quiet w = record {
  own_pid = refl;
  times = λ p time. refl;
  judged_before = refl;
  fanout = refl;
}

track-Quiet :
    (search : Search) (root : String) (now : ℕ) (initial : Bool) (pid : ℕ) (info : Info)
    (old : Option Snapshot) (w : Watcher)
    → find pid w.seen ≡ old
    → same_time info.create_time old ≡ true
    → Quiet w (track search root now initial pid info old w)
unfolding track
track-Quiet find_ root now initial pid info none w at h =
    ground (arith, h, not_none info.create_time)
track-Quiet find_ root now initial pid info (some old) w at h =
    simp (same_time_new now pid info info.create_time old refl h) (put-Quiet now pid info old w at)

scan_pid-Quiet :
    (search : Search) (root : String) (now : ℕ) (initial : Bool) (info : Info) (pid : Option ℕ)
    (s : List ℕ × Watcher)
    → known_pid s.1 pid info.create_time ≡ true
    → Quiet s.1 (scan_pid search root now initial info pid s).1
unfolding scan_pid
scan_pid-Quiet find_ root now initial info none (pids, w) h = none-Quiet w
scan_pid-Quiet find_ root now initial info (some pid) (pids, w) h =
    elim (Bool-cases (pid == w.own_pid)) [
      | inl own ↦ simp own (none-Quiet w)
      | inr other ↦
          let snap = take_snapshot now pid info in
          let w' = track find_ root now initial pid info (find pid w.seen) w in
          let quiet =
            track-Quiet find_ root now initial pid info (find pid w.seen) w refl
              (ground (arith, h, other)) in
          simp other (
            when (Quiet w) initial (λ _. quiet)
              (λ _.
                Quiet-trans quiet
                  (check_write_burst-Quiet pid snap.name snap.cmdline info.write_bytes now w')))
    ]

pub scan_one-Quiet :
    (search : Search) (root : String) (now : ℕ) (initial : Bool) (i : Option Info)
    (s : List ℕ × Watcher)
    → known s.1 i ≡ true
    → Quiet s.1 (scan_one search root now initial i s).1
unfolding scan_one
scan_one-Quiet find_ root now initial none s h = none-Quiet s.1
scan_one-Quiet find_ root now initial (some info) s h =
    scan_pid-Quiet find_ root now initial info info.pid s h

-- What is known stays known.
known-Quiet : (w w' : Watcher) (i : Option Info) → Quiet w w' → known w' i ≡ known w i
known-Quiet w w' none quiet = refl
known-Quiet w w' (some info) quiet = known_pid-Quiet info.pid info.create_time
  where
    known_pid-Quiet : (pid time : Option ℕ) → known_pid w' pid time ≡ known_pid w pid time
    known_pid-Quiet none time = refl
    known_pid-Quiet (some p) time =
        ap (λ own. (p == own) || same_time time (find p w'.seen)) quiet.own_pid
        ∙ ap (λ b. (p == w.own_pid) || b) (quiet.times p time)

abbrev all_known : Watcher → List (Option Info) → Bool
all_known w [] = true
all_known w (i ∷ infos) = known w i && all_known w infos

all_known-Quiet :
    (w w' : Watcher) (infos : List (Option Info))
    → Quiet w w'
    → all_known w' infos ≡ all_known w infos
all_known-Quiet w w' [] quiet = refl
all_known-Quiet w w' (i ∷ infos) quiet =
    ground (arith, known-Quiet w w' i quiet, all_known-Quiet w w' infos quiet)

scan_all-Quiet :
    (search : Search) (root : String) (now : ℕ) (initial : Bool) (infos : List (Option Info))
    (s : List ℕ × Watcher)
    → all_known s.1 infos ≡ true
    → Quiet s.1 (scan_all search root now initial infos s).1
scan_all-Quiet find_ root now initial [] s h = none-Quiet s.1
scan_all-Quiet find_ root now initial (i ∷ infos) s h =
    let quiet = scan_one-Quiet find_ root now initial i s (ground (arith, h)) in
    let s' = scan_one find_ root now initial i s in
    Quiet-trans quiet (
      scan_all-Quiet find_ root now initial infos s'
        (all_known-Quiet s.1 s'.1 infos quiet ∙ ground (arith, h)))

-- A scan in which every listed process is the agent itself, or is tracked already with the creation
-- time that psutil gives, not 0, emits nothing but write bursts: no rule, masquerade, chain or fan-out is
-- reported of it a second time.
scan-judged_once :
    (search : Search) (root : String) (now : ℕ) (initial : Bool) (infos : List (Option Info))
    (w : Watcher)
    → all_known w infos ≡ true
    → judged (scan search root now initial infos w).emitted ≡ judged w.emitted
unfolding scan forget
scan-judged_once find_ root now initial infos w h =
    (scan_all-Quiet find_ root now initial infos ([], w) h).judged_before
