-- ===== src/Allowlist/Adding.antt =====
-- What `add` leaves, and that a saved list loads as it was.
use xodusmile.Prelude.{
  ℕ, String, ◌≡◌, ◌⊎◌, refl, sym, ◌∙◌, Bool, true, false, some, List, [], ◌∷◌, ◌++◌, lower, strip,
  Option-cases, inl, inr, All, map,
}
use xodusmile.Allowlist.{
  AllowEntry, Allowlist, good, read_items, load, save, same_key, find_key, add, add_normalized,
  add_entry, normalize,
}
use xodusmile.Allowlist.Entries.{
  IsUnique, IsUnique-snoc, find_key-append, find_key-snoc_other, entries-save, same_key_of_eq,
}

same_key_noted :
    (e x : AllowEntry) (note : String) → same_key (record e { note = note }) x ≡ same_key e x
unfolding same_key
same_key_noted e x note = refl

find_key_noted :
    (e : AllowEntry) (note : String) (es : List AllowEntry)
    → find_key (record e { note = note }) es ≡ find_key e es
unfolding find_key same_key
find_key_noted e note [] = refl
find_key_noted e note (x ∷ es) = rw (find_key_noted e note es) refl

-- An entry is in the list, or comes in, under the key of `e`.
pub record IsAdded (e : AllowEntry) (a a' : Allowlist) (shown : AllowEntry) : Type 0 where
  pub unique : IsUnique a'.entries
  pub found : find_key e a'.entries ≡ some shown
  pub others :
      (x : AllowEntry) → same_key e x ≡ false → find_key x a'.entries ≡ find_key x a.entries

add_entry-IsAdded :
    (writable : Bool) (e : AllowEntry) (a : Allowlist)
    → IsUnique a.entries
    → IsAdded e a
        (add_entry writable e (find_key e a.entries) a).0
        (add_entry writable e (find_key e a.entries) a).1
unfolding add_entry
add_entry-IsAdded writable e a u = elim (Option-cases (find_key e a.entries)) [
  | inl absent ↦
      let entries' = a.entries ++ e ∷ [] in
      let saved : (save writable (record a { entries = entries'; cache = [] })).entries ≡ entries' =
        entries-save writable (record a { entries = entries'; cache = [] }) in
      rw (absent, add_entry)
        (record {
          unique = rw saved (IsUnique-snoc e a.entries u absent);
          found = rw saved (
              find_key-append e a.entries (e ∷ []) absent
              ∙ unfold find_key in rw (same_key_of_eq e e refl refl) refl);
          others = λ x other. rw saved (find_key-snoc_other x e a.entries other);
        })
  | inr (old, present) ↦
      rw (present, add_entry) (record { unique = u; found = present; others = λ x other. refl })
]

-- `add` of a value that `_normalize` accepts keeps the entries unique, shows the entry that is then
-- found under its key (the old one where there was one), leaves every other key's entry as it was,
-- and added again, with the same note, changes nothing.
pub add_lem :
    (writable : Bool) (now : ℕ) (value kind note : String) (a : Allowlist) (e : AllowEntry)
    → normalize now kind value ≡ some e
    → IsUnique a.entries
    → (shown : AllowEntry) × ((add writable now value kind note a).1 ≡ some shown)
      × IsAdded e a (add writable now value kind note a).0 shown
      × ((add writable now value kind note (add writable now value kind note a).0).0
          ≡ (add writable now value kind note a).0)
unfolding add
add_lem writable now value kind note a e n u =
    let entry : AllowEntry = record e { note = strip note } in
    let (a', shown) = add_entry writable entry (find_key entry a.entries) a in
    let added : IsAdded entry a a' shown = add_entry-IsAdded writable entry a u in
    let again : find_key entry a'.entries ≡ some shown = added.found in
    rw (n, add_normalized)
      (
        shown,
        refl,
        record {
          unique = added.unique;
          found = sym (find_key_noted e (strip note) a'.entries) ∙ added.found;
          others = λ x other. added.others x (same_key_noted e x (strip note) ∙ other);
        },
        rw (again, add_entry) refl,
      )

-- The kinds of the entries that `_normalize` makes.
abbrev pub IsNormal : AllowEntry → Type 0
IsNormal e = (e.kind ≡ "name") ⊎ (e.kind ≡ "path")

lower_name : lower "name" ≡ "name"
unfolding lower
lower_name = refl

lower_path : lower "path" ≡ "path"
unfolding lower
lower_path = refl

read_items_good : (es : List AllowEntry) → All IsNormal es → read_items (map good es) ≡ es
unfolding read_items
read_items_good [] h = refl
read_items_good (e ∷ es) h =
    let kind : lower e.kind ≡ e.kind = elim h.0 [
      | inl n ↦ rw n lower_name
      | inr p ↦ rw p lower_path
    ] in
    λ i. record e { kind = kind i } ∷ read_items_good es h.1 i

-- A list that was saved and is loaded, into whatever list, has its entries back, every field.
pub load-save :
    (a b : Allowlist)
    → All IsNormal a.entries
    → (load (some (map good (save true a).file)) b).entries ≡ a.entries
unfolding load save
load-save a b h = read_items_good a.entries h
