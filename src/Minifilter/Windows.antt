-- ===== src/Minifilter/Windows.antt =====
-- What the bridge holds about a process is never more than what the process did.
use xodusmile.Prelude.{
  ℕ, ◌+◌, ◌-◌, ◌≤◌, ◌≡◌, refl, true, ◌||◌, List, [], ◌∷◌, ◌++◌, arith, ◌==◌, leb, ltb,
  if◌then◌else◌, All, All-append, All-imp, length, Bool-cases, inl, inr,
}
use xodusmile.Minifilter.{Event, PidIoState, pid_write_burst_window, pid_rename_burst_window}
use xodusmile.Minifilter.Accounting.{write_state, expire, rename_state}
use xodusmile.Minifilter.History.{
  History, IsUntil, is_write, is_rename, written, renamed, written-cons, renamed-cons,
}

abbrev pub count_from : ℕ → List ℕ → ℕ
count_from from [] = 0
count_from from (t ∷ ts) = let rest = count_from from ts in if leb from t then 1 + rest else rest

abbrev pub IsAscending : List ℕ → Type 0
IsAscending [] = Unit
IsAscending (t ∷ ts) = All (λ u. t ≤ u) ts × IsAscending ts

count_from-snoc :
    (from now : ℕ) (ts : List ℕ)
    → count_from from (ts ++ now ∷ []) ≡ count_from from ts + (if leb from now then 1 else 0)
count_from-snoc from now [] = ground arith
count_from-snoc from now (t ∷ ts) = ground (arith, count_from-snoc from now ts)

-- What holds of a list and of each of its tails holds after the expiry.
expire_keeps :
    (P : List ℕ → Type 0) (cutoff : ℕ) (ts : List ℕ)
    → ((t : ℕ) (us : List ℕ) → P (t ∷ us) → P us)
    → P ts
    → P (expire cutoff ts)
unfolding expire
expire_keeps P cutoff [] tails p = p
expire_keeps P cutoff (t ∷ ts) tails p = elim (Bool-cases (ltb t cutoff)) [
  | inl old ↦ rw (old, expire) (expire_keeps P cutoff ts tails (tails t ts p))
  | inr new ↦ rw (new, expire) p
]

count_from-expire :
    (from cutoff : ℕ) (ts : List ℕ) → count_from from (expire cutoff ts) ≤ count_from from ts
count_from-expire from cutoff ts =
    expire_keeps (λ us. count_from from us ≤ count_from from ts) cutoff ts (λ t us le. ground arith)
      (omega arith)

All-expire : (P : ℕ → Type 0) (cutoff : ℕ) (ts : List ℕ) → All P ts → All P (expire cutoff ts)
All-expire P cutoff ts h = expire_keeps (All P) cutoff ts (λ t us k. k.1) h

IsAscending-expire : (cutoff : ℕ) (ts : List ℕ) → IsAscending ts → IsAscending (expire cutoff ts)
IsAscending-expire cutoff ts h = expire_keeps IsAscending cutoff ts (λ t us k. k.1) h

pub IsAscending-snoc :
    (now : ℕ) (ts : List ℕ) → IsAscending ts → All (λ u. u ≤ now) ts → IsAscending (ts ++ now ∷ [])
IsAscending-snoc now [] h k = (tt, tt)
IsAscending-snoc now (t ∷ ts) h k =
    (All-append (λ u. t ≤ u) ts (now ∷ []) h.0 (k.0, tt), IsAscending-snoc now ts h.1 k.1)

count_from-All : (from : ℕ) (ts : List ℕ) → All (λ u. from ≤ u) ts → count_from from ts ≡ length ts
count_from-All from [] h = refl
count_from-All from (t ∷ ts) h =
    let le : from ≤ t = h.0 in ground (arith, count_from-All from ts h.1)

-- After the expiry of an ascending list, all that is left is counted.
pub count_from-expire_same :
    (cutoff : ℕ) (ts : List ℕ)
    → IsAscending ts
    → count_from cutoff (expire cutoff ts) ≡ length (expire cutoff ts)
unfolding expire
count_from-expire_same cutoff [] h = refl
count_from-expire_same cutoff (t ∷ ts) h = elim (Bool-cases (ltb t cutoff)) [
  | inl old ↦ rw (old, expire) (count_from-expire_same cutoff ts h.1)
  | inr new ↦
      let le : cutoff ≤ t = ground arith in
      rw (new, expire)
        (count_from-All cutoff (t ∷ ts)
          (le, All-imp (λ u. t ≤ u) (λ u. cutoff ≤ u) (λ u k. omega arith) ts h.0))
]

-- A history covers the bytes that are counted since the start of a window.
pub record CoversWrites (h : History) (pid bytes start : ℕ) : Type 0 where
  pub total : (to : ℕ) → IsUntil to h → bytes ≤ written pid start to h
  pub started : (to : ℕ) → IsUntil to h → start ≤ to

-- A history covers the renames that are remembered.
pub record CoversRenames (h : History) (pid : ℕ) (times : List ℕ) : Type 0 where
  pub ascending : IsAscending times
  pub until : (to : ℕ) → IsUntil to h → All (λ u. u ≤ to) times
  pub counted : (from to : ℕ) → IsUntil to h → count_from from times ≤ renamed pid from to h

abbrev pub Covers : History → ℕ → PidIoState → Type 0
Covers h pid state =
    CoversWrites h pid state.write_total state.write_window_start
    × CoversRenames h pid state.rename_times

pub Covers-cons :
    (h : History) (pid : ℕ) (state : PidIoState) (x : ℕ × Event)
    → Covers h pid state
    → Covers (x ∷ h) pid state
Covers-cons h pid state x (w, r) = (
  record {
    total = λ to u. omega (arith, w.total to u.1, written-cons pid state.write_window_start to x h);
    started = λ to u. w.started to u.1;
  },
  record {
    ascending = r.ascending;
    until = λ to u. r.until to u.1;
    counted = λ from to u. omega (arith, r.counted from to u.1, renamed-cons pid from to x h);
  },
)

written_here :
    (pid from to now : ℕ) (evt : Event) (h : History)
    → is_write pid evt ≡ true
    → from ≤ now
    → now ≤ to
    → written pid from to ((now, evt) ∷ h) ≡ evt.write_bytes + written pid from to h
unfolding written
written_here pid from to now evt h w le le' = ground arith

renamed_here :
    (pid from to now : ℕ) (evt : Event) (h : History)
    → is_rename pid evt ≡ true
    → now ≤ to
    → renamed pid from to ((now, evt) ∷ h) ≡ renamed pid from to h + (if leb from now then 1 else 0)
unfolding renamed
renamed_here pid from to now evt h w le = ground arith

-- A write is counted once: in the window that goes on, or in the new one.
pub Covers-write_state :
    (h : History) (pid now : ℕ) (evt : Event) (state : PidIoState)
    → IsUntil now h
    → is_write pid evt ≡ true
    → Covers h pid state
    → Covers ((now, evt) ∷ h) pid (write_state now evt.write_bytes state)
unfolding write_state
Covers-write_state h pid now evt state until_now is (w, r) =
    let start = state.write_window_start in
    let (w', r') = Covers-cons h pid state (now, evt) (w, r) in
    elim (Bool-cases (start == 0 || ltb pid_write_burst_window (now - start))) [
      | inl fresh ↦
          rw (fresh, write_state)
            (
              record {
                total = λ to u.
                    let le : now ≤ to = u.0 in
                    let self : now ≤ now = omega arith in
                    omega (arith, written_here pid now to now evt h is self le);
                started = λ to u. u.0;
              },
              r',
            )
      | inr same_window ↦
          rw (same_window, write_state)
            (
              record {
                total = λ to u.
                    let le : now ≤ to = u.0 in
                    omega (
                      arith,
                      written_here pid start to now evt h is (w.started now until_now) le,
                      w.total to u.1,
                    );
                started = w'.started;
              },
              r',
            )
    ]

-- Once a burst is alerted, the window starts again.
pub CoversWrites-restart :
    (h : History) (pid now : ℕ) (evt : Event) → CoversWrites ((now, evt) ∷ h) pid 0 now
CoversWrites-restart h pid now evt = record { total = λ to u. omega arith; started = λ to u. u.0 }

pub CoversRenames-nil : (h : History) (pid : ℕ) → CoversRenames h pid []
CoversRenames-nil h pid = record {
  ascending = tt;
  until = λ to u. tt;
  counted = λ from to u. omega arith;
}

pub Covers-rename_state :
    (h : History) (pid now : ℕ) (evt : Event) (state : PidIoState)
    → IsUntil now h
    → is_rename pid evt ≡ true
    → Covers h pid state
    → Covers ((now, evt) ∷ h) pid (rename_state now state)
unfolding rename_state
Covers-rename_state h pid now evt state until_now is (w, r) =
    let cutoff = now - pid_rename_burst_window in
    let old = state.rename_times in
    let times = old ++ now ∷ [] in
    (
      (Covers-cons h pid state (now, evt) (w, r)).0,
      record {
        ascending =
            IsAscending-expire cutoff times
              (IsAscending-snoc now old r.ascending (r.until now until_now));
        until = λ to u.
            All-expire (λ t. t ≤ to) cutoff times
              (All-append (λ t. t ≤ to) old (now ∷ []) (r.until to u.1) (u.0, tt));
        counted = λ from to u. omega (
          arith,
          count_from-expire from cutoff times,
          count_from-snoc from now old,
          renamed_here pid from to now evt h is u.0,
          r.counted from to u.1,
        );
      },
    )
