-- ===== src/ProcessWatcher/Tracking.antt =====
-- Which processes a scan leaves tracked, and what it says of processes that are known.
use xodusmile.Prelude.{
  ℕ, ◌≡◌, refl, inl, inr, sym, ap, ◌∙◌, String, Bool, true, false, not, ◌&&◌, ◌||◌, Option, none,
  some, is_some, List, [], ◌∷◌, ◌==◌, ==_iff, arith, if◌then◌else◌, mem, mem-add, when, Bool-cases,
}
use xodusmile.PidTable.{find, put, keys_outside, find-put, find-pop_all, mem-keys_outside}
use xodusmile.CommandLine.{Search}
use xodusmile.ProcessWatcher.Types.{Info, Snapshot, Watcher, take_snapshot, refresh}
use xodusmile.ProcessWatcher.Judging.{
  on_new_process, apply_rules, check_masquerade, check_chain, check_fanout, check_write_burst,
}
use xodusmile.ProcessWatcher.{track, scan_pid, scan_one, scan_all, forget, scan}

-- The PID stands in the list, and is not the agent's own.
abbrev pub is_pid : ℕ → ℕ → Option ℕ → Bool
is_pid own q none = false
is_pid own q (some p) = not (p == own) && p == q

abbrev pub listed : ℕ → ℕ → List (Option Info) → Bool
listed own q [] = false
listed own q (none ∷ infos) = listed own q infos
listed own q (some i ∷ infos) = is_pid own q i.pid || listed own q infos

-- The last readings are of tracked processes.
abbrev pub IsTracked : Watcher → Type 0
IsTracked w = (q : ℕ) → is_some (find q w.last_io) ≡ true → is_some (find q w.seen) ≡ true

pub on_new_process-tables :
    (search : Search) (root : String) (now : ℕ) (snap : Snapshot) (w : Watcher)
    → ((on_new_process search root now snap w).seen ≡ w.seen)
      × ((on_new_process search root now snap w).last_io ≡ w.last_io)
      × ((on_new_process search root now snap w).own_pid ≡ w.own_pid)
unfolding on_new_process apply_rules check_masquerade check_chain check_fanout
on_new_process-tables search root now snap w = ground arith

-- What a round leaves of the tables.
record Tracks (pid : ℕ) (w w' : Watcher) : Type 0 where
  seen : (q : ℕ) → is_some (find q w'.seen) ≡ (pid == q || is_some (find q w.seen))
  last_io :
      (q : ℕ) → is_some (find q w'.last_io) ≡ true → (pid == q || is_some (find q w.last_io)) ≡ true
  own_pid : w'.own_pid ≡ w.own_pid

put-Tracks :
    (pid : ℕ) (snap : Snapshot) (w : Watcher)
    → Tracks pid w (record w { seen = put pid snap w.seen })
put-Tracks pid snap w = record {
  seen = λ q. ap is_some (find-put pid q snap w.seen) ∙ ground arith;
  last_io = λ q h. ground arith;
  own_pid = refl;
}

on_new_process-Tracks :
    (search : Search) (root : String) (now pid : ℕ) (snap : Snapshot) (w : Watcher)
    → Tracks pid w (on_new_process search root now snap (record w { seen = put pid snap w.seen }))
on_new_process-Tracks search root now pid snap w =
    let w' = record w { seen = put pid snap w.seen } in
    let same = on_new_process-tables search root now snap w' in
    let before = put-Tracks pid snap w in
    record {
      seen = λ q. ap (λ seen. is_some (find q seen)) same.0 ∙ before.seen q;
      last_io = λ q h. before.last_io q (sym (ap (λ io. is_some (find q io)) same.1) ∙ h);
      own_pid = same.2;
    }

track-Tracks :
    (search : Search) (root : String) (now : ℕ) (initial : Bool) (pid : ℕ) (info : Info)
    (old : Option Snapshot) (w : Watcher)
    → Tracks pid w (track search root now initial pid info old w)
unfolding track
track-Tracks search root now initial pid info none w =
    when (Tracks pid w) initial (λ _. put-Tracks pid (take_snapshot now pid info) w)
      (λ _. on_new_process-Tracks search root now pid (take_snapshot now pid info) w)
track-Tracks search root now initial pid info (some old) w =
    when (Tracks pid w) (not (old.started_at == (take_snapshot now pid info).started_at))
      (λ _.
        when (Tracks pid w) initial (λ _. put-Tracks pid (take_snapshot now pid info) w)
          (λ _. on_new_process-Tracks search root now pid (take_snapshot now pid info) w))
      (λ _. put-Tracks pid (refresh now info old) w)

check_write_burst-Tracks :
    (pid : ℕ) (name cmdline : String) (bytes now : ℕ) (w w' : Watcher)
    → Tracks pid w w'
    → Tracks pid w (check_write_burst pid name cmdline bytes now w')
unfolding check_write_burst
check_write_burst-Tracks pid name cmdline bytes now w w' t = record {
  seen = t.seen;
  last_io = λ q h. ground (arith, h, find-put pid q (now, bytes) w'.last_io, t.last_io q);
  own_pid = t.own_pid;
}

-- The listed PIDs are tracked, and so are the processes of the last readings.
abbrev IsCovered : List ℕ × Watcher → Type 0
IsCovered s = IsTracked s.1 × ((q : ℕ) → mem q s.0 ≡ true → is_some (find q s.1.seen) ≡ true)

-- What a round of the loop does to the listed PIDs.
record Lists (i : Option Info) (s s' : List ℕ × Watcher) : Type 0 where
  own_pid : s'.1.own_pid ≡ s.1.own_pid
  pids : (q : ℕ) → mem q s'.0 ≡ (mem q s.0 || listed s.1.own_pid q (i ∷ []))
  covered : IsCovered s → IsCovered s'

scan_pid-Lists :
    (search : Search) (root : String) (now : ℕ) (initial : Bool) (info : Info) (pid : Option ℕ)
    (s : List ℕ × Watcher)
    → info.pid ≡ pid
    → Lists (some info) s (scan_pid search root now initial info pid s)
unfolding scan_pid
scan_pid-Lists search root now initial info none (pids, w) eq = record {
  own_pid = refl;
  pids = λ q. simp eq (ground arith);
  covered = λ c. c;
}
scan_pid-Lists search root now initial info (some pid) (pids, w) eq =
    elim (Bool-cases (pid == w.own_pid)) [
      | inl own ↦
          simp own
            (record { own_pid = refl; pids = λ q. simp (eq, own) (ground arith); covered = λ c. c })
      | inr other ↦
          let snap = take_snapshot now pid info in
          let w' = track search root now initial pid info (find pid w.seen) w in
          let w'' =
            if initial
            then w'
            else check_write_burst pid snap.name snap.cmdline info.write_bytes now w' in
          let tracked = track-Tracks search root now initial pid info (find pid w.seen) w in
          let t =
            when (Tracks pid w) initial (λ _. tracked)
              (λ _.
                check_write_burst-Tracks pid snap.name snap.cmdline info.write_bytes now w w'
                  tracked) in
          simp other (record {
            own_pid = t.own_pid;
            pids = λ q.
                simp (eq, other) (ground (arith, mem-add pid q pids, ==_iff pid q, ==_iff q pid));
            covered = λ c. (
              (λ q h. ground (arith, h, t.last_io q, c.0 q, t.seen q)),
              (λ q h.
                  ground
                    (arith, h, mem-add pid q pids, ==_iff pid q, ==_iff q pid, c.1 q, t.seen q)),
            );
          })
    ]

scan_one-Lists :
    (search : Search) (root : String) (now : ℕ) (initial : Bool) (i : Option Info)
    (s : List ℕ × Watcher)
    → Lists i s (scan_one search root now initial i s)
unfolding scan_one
scan_one-Lists search root now initial none s = record {
  own_pid = refl;
  pids = λ q. ground arith;
  covered = λ c. c;
}
scan_one-Lists search root now initial (some info) s =
    scan_pid-Lists search root now initial info info.pid s refl

listed-cons :
    (own q : ℕ) (i : Option Info) (infos : List (Option Info))
    → listed own q (i ∷ infos) ≡ (listed own q (i ∷ []) || listed own q infos)
listed-cons own q none infos = refl
listed-cons own q (some i) infos = ground arith

scan_all-IsCovered :
    (search : Search) (root : String) (now : ℕ) (initial : Bool) (infos : List (Option Info))
    (s : List ℕ × Watcher)
    → IsCovered s
    → IsCovered (scan_all search root now initial infos s)
      × ((q : ℕ)
          → mem q (scan_all search root now initial infos s).0
            ≡ (mem q s.0 || listed s.1.own_pid q infos))
scan_all-IsCovered search root now initial [] s c = (c, λ q. ground arith)
scan_all-IsCovered search root now initial (i ∷ infos) s c =
    let l = scan_one-Lists search root now initial i s in
    let rest =
      scan_all-IsCovered search root now initial infos (scan_one search root now initial i s)
        (l.covered c) in
    (rest.0, λ q. rest.1 q ∙ listed_more q l)
  where
    listed_more :
        (q : ℕ)
        → Lists i s (scan_one search root now initial i s)
        → (mem q (scan_one search root now initial i s).0
            || listed (scan_one search root now initial i s).1.own_pid q infos)
          ≡ (mem q s.0 || listed s.1.own_pid q (i ∷ infos))
    listed_more q l =
        ap (λ own. mem q (scan_one search root now initial i s).0 || listed own q infos) l.own_pid
        ∙ ground (arith, l.pids q, listed-cons s.1.own_pid q i infos)

-- After any scan, from whatever was tracked before, the processes that psutil listed are tracked and no
-- others, the agent itself never; and a reading of the written bytes is kept only of a tracked process,
-- if it was so before.
pub scan-IsTracked :
    (search : Search) (root : String) (now : ℕ) (initial : Bool) (infos : List (Option Info))
    (w : Watcher)
    → IsTracked w
    → ((q : ℕ)
        → is_some (find q (scan search root now initial infos w).seen) ≡ listed w.own_pid q infos)
      × IsTracked (scan search root now initial infos w)
unfolding scan forget mem
scan-IsTracked search root now initial infos w t =
    let r = scan_all search root now initial infos ([], w) in
    let c =
      scan_all-IsCovered search root now initial infos ([], w) (t, λ q h. ground (arith, h)) in
    (
      (λ q. ground (
        arith,
        find-pop_all q (keys_outside r.0 r.1.seen) r.1.seen,
        mem-keys_outside q r.0 r.1.seen,
        c.1 q,
        c.0.1 q,
      )),
      (λ q h. ground (
        arith,
        h,
        find-pop_all q (keys_outside r.0 r.1.seen) r.1.seen,
        find-pop_all q (keys_outside r.0 r.1.seen) r.1.last_io,
        mem-keys_outside q r.0 r.1.seen,
        c.0.0 q,
      )),
    )
