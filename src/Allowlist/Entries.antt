-- ===== src/Allowlist/Entries.antt =====
-- Adding, removing, saving and loading entries.
use text.Mathlib.TextEquality.{eq_iff}
use xodusmile.Prelude.{
  ℕ, String, ◌≡◌, refl, sym, ◌∙◌, Bool, true, false, not, none, some, List, [], ◌∷◌, ◌++◌, arith,
  ◌==◌, if◌then◌else◌, keep, length, Bool-cases, inl, inr,
}
use xodusmile.Allowlist.{
  AllowEntry, Allowlist, save, same_key, find_key, remove, remove_normalized, remove_entry,
  normalize,
}

pub same_key_iff :
    (x y : AllowEntry) → same_key x y ≡ true → (x.kind ≡ y.kind) × (x.value ≡ y.value)
unfolding same_key
same_key_iff x y h =
    ((eq_iff x.kind y.kind).0 (ground arith), (eq_iff x.value y.value).0 (ground arith))

pub same_key_of_eq : (x y : AllowEntry) → x.kind ≡ y.kind → x.value ≡ y.value → same_key x y ≡ true
unfolding same_key
same_key_of_eq x y p q = ground (arith, (eq_iff x.kind y.kind).1 p, (eq_iff x.value y.value).1 q)

same_key_comm : (x y : AllowEntry) → same_key x y ≡ same_key y x
unfolding same_key
same_key_comm x y = ground (
  arith,
  eq_iff x.kind y.kind,
  eq_iff y.kind x.kind,
  eq_iff x.value y.value,
  eq_iff y.value x.value,
)

-- Entries with the same key have the same matches and are found by the same keys.
same_key_trans : (x y z : AllowEntry) → same_key x y ≡ true → same_key x z ≡ same_key y z
unfolding same_key
same_key_trans x y z h = let (p, q) = same_key_iff x y (unfold same_key in h) in rw (p, q) refl

pub find_key-append :
    (x : AllowEntry) (es fs : List AllowEntry)
    → find_key x es ≡ none
    → find_key x (es ++ fs) ≡ find_key x fs
unfolding find_key
find_key-append x [] fs h = refl
find_key-append x (e ∷ es) fs h = ground (arith, find_key-append x es fs)

pub find_key-snoc_other :
    (x new : AllowEntry) (es : List AllowEntry)
    → same_key new x ≡ false
    → find_key x (es ++ new ∷ []) ≡ find_key x es
unfolding find_key
find_key-snoc_other x new [] h = rw h refl
find_key-snoc_other x new (e ∷ es) h = ground (arith, find_key-snoc_other x new es h)

-- No two entries have the same kind and value.
abbrev pub IsUnique : List AllowEntry → Type 0
IsUnique [] = Unit
IsUnique (e ∷ es) = (find_key e es ≡ none) × IsUnique es

pub IsUnique-snoc :
    (new : AllowEntry) (es : List AllowEntry)
    → IsUnique es
    → find_key new es ≡ none
    → IsUnique (es ++ new ∷ [])
IsUnique-snoc new [] u h = (unfold find_key in refl, tt)
IsUnique-snoc new (e ∷ es) u h =
    let other : same_key new e ≡ false = same_key_comm new e ∙ unfold find_key in ground arith in
    let rest : find_key new es ≡ none = unfold find_key in ground arith in
    (find_key-snoc_other e new es other ∙ u.0, IsUnique-snoc new es u.1 rest)

-- What `remove` leaves: nothing under its key, and all else as it was.
find_key-keep :
    (target x : AllowEntry) (es : List AllowEntry)
    → find_key x (keep (λ e. not (same_key e target)) es)
      ≡ (if same_key target x then none else find_key x es)
unfolding find_key keep
find_key-keep target x [] = ground arith
find_key-keep target x (e ∷ es) = elim (Bool-cases (same_key e target)) [
  | inl hit ↦ rw (hit, find_key-keep target x es, same_key_trans e target x hit) (ground arith)
  | inr miss ↦ rw miss (elim (Bool-cases (same_key e x)) [
    | inl found ↦
        let apart : same_key target x ≡ false =
          same_key_comm target x ∙ sym (same_key_trans e x target found) ∙ miss in
        rw (found, apart) refl
    | inr further ↦ rw (further, find_key-keep target x es) refl
  ])
]

IsUnique-keep :
    (target : AllowEntry) (es : List AllowEntry)
    → IsUnique es
    → IsUnique (keep (λ e. not (same_key e target)) es)
unfolding keep
IsUnique-keep target [] u = tt
IsUnique-keep target (e ∷ es) u = elim (Bool-cases (same_key e target)) [
  | inl hit ↦ rw hit (IsUnique-keep target es u.1)
  | inr miss ↦
      rw miss (find_key-keep target e es ∙ rw u.0 (ground arith), IsUnique-keep target es u.1)
]

pub entries-save : (writable : Bool) (a : Allowlist) → (save writable a).entries ≡ a.entries
unfolding save
entries-save true a = refl
entries-save false a = refl

-- Removing what `_normalize` makes of the value keeps the entries unique, leaves none with its key,
-- and leaves every lookup by another key as it was.
pub remove_lem :
    (writable : Bool) (now : ℕ) (value kind : String) (a : Allowlist) (target x : AllowEntry)
    → normalize now kind value ≡ some target
    → IsUnique a.entries
    → IsUnique (remove writable now value kind a).0.entries
      × (find_key x (remove writable now value kind a).0.entries
          ≡ (if same_key target x then none else find_key x a.entries))
unfolding remove
remove_lem writable now value kind a target x n u = rw (n, remove_normalized) after_removal
  where
    kept : List AllowEntry
    kept = keep (λ e. not (same_key e target)) a.entries

    after_removal :
        IsUnique (remove_entry writable target a).0.entries
        × (find_key x (remove_entry writable target a).0.entries
            ≡ (if same_key target x then none else find_key x a.entries))
    after_removal = elim (Bool-cases (length kept == length a.entries)) [
      | inl none_left ↦
          unfold remove_entry in
          rw none_left (IsUnique-keep target a.entries u, find_key-keep target x a.entries)
      | inr some_left ↦
          unfold remove_entry in
          rw (some_left, entries-save writable (record a { entries = kept; cache = [] }))
            (IsUnique-keep target a.entries u, find_key-keep target x a.entries)
    ]
