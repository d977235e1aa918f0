-- ===== src/RansomNote/Backing.antt =====
-- The directories that the detector remembers, and the confirmed notes that stand behind them.
use text.Mathlib.TextEquality.{eq_iff}
use xodusmile.Prelude.{
  when, ℕ, suc, ◌+◌, ◌≤◌, String, ◌≡◌, ◌≢◌, ◌⊎◌, refl, Bool, true, false, none, List, [], ◌∷◌, ◌||◌,
  arith, if◌then◌else◌, lower, lookup, lookup-insert, insert, keep, inr, subst, sym, ◌∙◌, same,
}
use xodusmile.Signal.{Signal}
use xodusmile.Scoring.{Engine}
use xodusmile.Responder.Listener.{is_critical}
use xodusmile.RansomNote.{
  File, NoteDetector, ContentVerdict, count_confirmed, confirmed_before, handle_note,
}

-- The recent directories, the newest data of each.
abbrev pub Dirs : Type 0
Dirs = List (String × (ℕ × Bool))

abbrev pub criticals : List Signal → ℕ
criticals [] = 0
criticals (s ∷ rest) = let n = criticals rest in if is_critical s.severity then 1 + n else n

abbrev pub In : File → List File → Type 0
In f [] = ⊥
In f (g ∷ rest) = (f ≡ g) ⊎ In f rest

-- Some note of the list stands in the directory.
abbrev pub HasNote : List File → String → Type 0
HasNote notes dir = (f : File) × In f notes × (lower f.parent ≡ dir)

-- No directory stands twice, and each that counts as confirmed holds a confirmed note.
abbrev pub IsBacked : List File → Dirs → Type 0
IsBacked notes [] = Unit
IsBacked notes ((dir, (time, c)) ∷ rest) =
    (lookup dir rest ≡ none) × (c ≡ true → HasNote notes dir) × IsBacked notes rest

-- Three notes in three different directories.
abbrev pub ThreeApart : List File → Type 0
ThreeApart notes =
    (f g h : File) × In f notes
    × In g notes
    × In h notes
    × (lower f.parent ≢ lower g.parent)
    × (lower f.parent ≢ lower h.parent)
    × (lower g.parent ≢ lower h.parent)

either : {C : Type 0} (a b : Bool) → (a || b) ≡ true → (a ≡ true → C) → (b ≡ true → C) → C
either true b h left right = left refl
either false b h left right = right h

pub HasNote-more :
    (f : File) (notes : List File) (dir : String) → HasNote notes dir → HasNote (f ∷ notes) dir
HasNote-more f notes dir (g, there, at) = (g, inr there, at)

pub IsBacked-more :
    (f : File) (notes : List File) (d : Dirs) → IsBacked notes d → IsBacked (f ∷ notes) d
IsBacked-more f notes [] b = b
IsBacked-more f notes ((dir, (time, c)) ∷ d) (fresh, note, b) =
    (fresh, (λ h. HasNote-more f notes dir (note h)), IsBacked-more f notes d b)

pub lookup-HasNote :
    (notes : List File) (dir : String) (d : Dirs)
    → IsBacked notes d
    → confirmed_before (lookup dir d) ≡ true
    → HasNote notes dir
unfolding lookup
lookup-HasNote notes dir [] b h = ground arith
lookup-HasNote notes dir ((k, (time, c)) ∷ d) (fresh, note, b) h =
    when (λ o. confirmed_before o ≡ true → HasNote notes dir) (same k dir)
      (λ at c_true. subst (HasNote notes) ((eq_iff k dir).0 at) (note c_true))
      (λ _ later. lookup-HasNote notes dir d b later) h

pub insert-IsBacked :
    (notes : List File) (dir : String) (time : ℕ) (c : Bool) (d : Dirs)
    → IsBacked notes d
    → (c ≡ true → HasNote notes dir)
    → IsBacked notes (insert dir (time, c) d)
unfolding insert lookup
insert-IsBacked notes dir time c [] b note = (refl, note, b)
insert-IsBacked notes dir time c ((k, (t, was)) ∷ d) (fresh, old, b) note =
    when (IsBacked notes) (same k dir)
      (λ at. (fresh, (λ h. subst (HasNote notes) (sym ((eq_iff k dir).0 at)) (note h)), b))
      (λ apart. (
        lookup-insert dir k (time, c) d ∙ ground (arith, eq_iff k dir, eq_iff dir k, fresh, apart),
        old,
        insert-IsBacked notes dir time c d b note,
      ))

pub lookup-keep :
    (p : String × (ℕ × Bool) → Bool) (k : String) (d : Dirs)
    → lookup k d ≡ none
    → lookup k (keep p d) ≡ none
unfolding lookup keep
lookup-keep p k [] h = h
lookup-keep p k (x ∷ d) h = ground (arith, lookup-keep p k d)

pub keep-IsBacked :
    (notes : List File) (p : String × (ℕ × Bool) → Bool) (d : Dirs)
    → IsBacked notes d
    → IsBacked notes (keep p d)
unfolding keep
keep-IsBacked notes p [] b = b
keep-IsBacked notes p ((k, (t, c)) ∷ d) (fresh, note, b) =
    when (IsBacked notes) (p (k, (t, c)))
      (λ _. (lookup-keep p k d fresh, note, keep-IsBacked notes p d b))
      (λ _. keep-IsBacked notes p d b)

-- A confirmed directory is split off.
first_confirmed :
    (notes : List File) (n : ℕ) (d : Dirs)
    → IsBacked notes d
    → suc n ≤ count_confirmed d
    → (f : File) × (rest : Dirs) × In f notes
      × IsBacked notes rest
      × n ≤ count_confirmed rest
      × (lookup (lower f.parent) rest ≡ none)
      × ((k : String) → lookup k d ≡ none → (lookup k rest ≡ none) × (k ≢ lower f.parent))
unfolding lookup
first_confirmed notes n [] b h = absurd (omega (arith, h))
first_confirmed notes n ((k, (t, false)) ∷ d) (fresh, note, b) h =
    let (f, rest, there, b', enough, apart, other) = first_confirmed notes n d b h in
    (f, rest, there, b', enough, apart, λ j out. other j (ground (arith, out, eq_iff k j, fresh)))
first_confirmed notes n ((k, (t, true)) ∷ d) (fresh, note, b) h =
    let (f, there, at) = note refl in
    (
      f,
      d,
      there,
      b,
      omega (arith, h),
      subst (λ x. lookup x d ≡ none) (sym at) fresh,
      λ j out.
          subst (λ x. (lookup j d ≡ none) × (j ≢ x)) (sym at) (ground (arith, out, eq_iff k j)),
    )

pub ThreeApart-count :
    (notes : List File) (d : Dirs) → IsBacked notes d → 3 ≤ count_confirmed d → ThreeApart notes
ThreeApart-count notes d b h =
    let (f, d₁, f_in, b₁, h₁, f_out, _) = first_confirmed notes 2 d b h in
    let (g, d₂, g_in, b₂, h₂, g_out, on₂) = first_confirmed notes 1 d₁ b₁ h₁ in
    let (i, d₃, i_in, b₃, h₃, i_out, on₃) = first_confirmed notes 0 d₂ b₂ h₂ in
    let f_later = on₂ (lower f.parent) f_out in
    (
      f,
      g,
      i,
      f_in,
      g_in,
      i_in,
      f_later.1,
      (on₃ (lower f.parent) f_later.0).1,
      (on₃ (lower g.parent) g_out).1,
    )

pub handle_note-IsBacked :
    (now : ℕ) (file : File) (content : ContentVerdict) (e : Engine) (d : NoteDetector)
    (notes : List File)
    → IsBacked notes d.recent_dirs
    → (content.confirmed ≡ true → In file notes)
    → IsBacked notes (handle_note now file content e d).1.recent_dirs
unfolding handle_note
handle_note-IsBacked now file content e d notes b there =
    insert-IsBacked notes (lower file.parent) now
      (content.confirmed || confirmed_before (lookup (lower file.parent) d.recent_dirs))
      d.recent_dirs b
      (λ h.
        either content.confirmed (confirmed_before (lookup (lower file.parent) d.recent_dirs)) h
          (λ c. (file, there c, refl))
          (λ c. lookup-HasNote notes (lower file.parent) d.recent_dirs b c))
