-- ===== src/Minifilter/History.antt =====
-- A history of driver events, the newest first, and what a process wrote and renamed in it.
use xodusmile.Prelude.{ℕ, ◌+◌, ◌≤◌, Bool, ◌&&◌, List, [], ◌∷◌, arith, ◌==◌, leb, if◌then◌else◌, All}
use xodusmile.Minifilter.{Event, Bridge, setinfo_rename}
use xodusmile.Minifilter.Kind
use xodusmile.Minifilter.Handling.{handle_event}

abbrev pub History : Type 0
History = List (ℕ × Event)

-- The bridge after a history.
abbrev pub handle_all : History → Bridge → Bridge
handle_all [] b = b
handle_all ((now, evt) ∷ h) b = handle_event now evt (handle_all h b)

-- No event is later than a time.
abbrev pub IsUntil : ℕ → History → Type 0
IsUntil to h = All (λ (x : ℕ × Event). x.0 ≤ to) h

-- The times do not go back.
abbrev pub IsTimed : History → Type 0
IsTimed [] = Unit
IsTimed ((now, evt) ∷ h) = IsUntil now h × IsTimed h

abbrev pub is_write : ℕ → Event → Bool
is_write pid evt = evt.kind == Kind.write && evt.process_id == pid

abbrev pub is_rename : ℕ → Event → Bool
is_rename pid evt =
    evt.kind == Kind.setinfo && (evt.sub_kind == setinfo_rename && evt.process_id == pid)

-- The bytes that a process wrote from one time to another.
unfoldable pub written : ℕ → ℕ → ℕ → History → ℕ
written pid from to [] = 0
written pid from to ((t, evt) ∷ h) =
    let rest = written pid from to h in
    if is_write pid evt && (leb from t && leb t to) then evt.write_bytes + rest else rest

-- The number of its renames.
unfoldable pub renamed : ℕ → ℕ → ℕ → History → ℕ
renamed pid from to [] = 0
renamed pid from to ((t, evt) ∷ h) =
    let rest = renamed pid from to h in
    if is_rename pid evt && (leb from t && leb t to) then 1 + rest else rest

pub written-cons :
    (pid from to : ℕ) (x : ℕ × Event) (h : History)
    → written pid from to h ≤ written pid from to (x ∷ h)
unfolding written
written-cons pid from to (t, evt) h = let rest = written pid from to h in ground arith

pub renamed-cons :
    (pid from to : ℕ) (x : ℕ × Event) (h : History)
    → renamed pid from to h ≤ renamed pid from to (x ∷ h)
unfolding renamed
renamed-cons pid from to (t, evt) h = ground arith

pub written-earlier :
    (pid from from' to : ℕ) (h : History)
    → from' ≤ from
    → written pid from to h ≤ written pid from' to h
unfolding written
written-earlier pid from from' to [] le = omega arith
written-earlier pid from from' to ((t, evt) ∷ h) le =
    ground (arith, written-earlier pid from from' to h le)
