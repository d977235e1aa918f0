-- ===== src/Prelude/Paths.antt =====
-- Texts cut at white space and path separators, as `str.strip`, `str.rstrip` and Windows'
-- `os.path.basename` do (of paths that name no network share).
use Prim.Native.Char.{Char, code}
use Prim.Native.String.{String, ◌++◌}
use Prim.Native.String.append
use mathlib.Core.Path.{◌≡◌, refl, sym, ap, ◌∙◌}
use Prim.Native.Nat.{ℕ}
use mathlib.Core.List.{List, [], ◌∷◌}
use mathlib.Core.Logic.{inl, inr}
use mathlib.Core.Bool.{Bool, true, false, not, ◌||◌, ◌&&◌, false≢true}
use native.Mathlib.Omega.{arith}
use text.Mathlib.TextEquality.{Char-path}
use xodusmile.Prelude.Tests.{leb, ◌==◌, if◌then◌else◌, Bool-cases}
use xodusmile.Prelude.Text.{is_empty, is_separator, begins_with}

abbrev pub space_codes : List (ℕ × ℕ)
space_codes =
    (9, 13)
    ∷ (28, 32)
    ∷ (133, 133)
    ∷ (160, 160)
    ∷ (5760, 5760)
    ∷ (8192, 8202)
    ∷ (8232, 8233)
    ∷ (8239, 8239)
    ∷ (8287, 8287)
    ∷ (12288, 12288)
    ∷ []

abbrev in_ranges : ℕ → List (ℕ × ℕ) → Bool
in_ranges n [] = false
in_ranges n ((lo, hi) ∷ ranges) = leb lo n && leb n hi || in_ranges n ranges

-- `str.isspace`, of a code point in one of the ranges of Unicode's white space.
unfoldable pub is_space : Char → Bool
is_space c = in_ranges (code c) space_codes

-- `s.rstrip()`, for the characters that `drop` names.
unfoldable pub rstrip_by : (Char → Bool) → String → String
rstrip_by drop String.[] = String.[]
rstrip_by drop (String.◌∷◌ c s) =
    let rest = rstrip_by drop s in if is_empty rest && drop c then String.[] else String.◌∷◌ c rest

unfoldable pub lstrip_by : (Char → Bool) → String → String
lstrip_by drop String.[] = String.[]
lstrip_by drop (String.◌∷◌ c s) =
    let rest = lstrip_by drop s in if drop c then rest else String.◌∷◌ c s

-- `s.strip()`
unfoldable pub strip : String → String
unfolding is_space rstrip_by lstrip_by
strip s = rstrip_by is_space (lstrip_by is_space s)

-- `s.rstrip("\\/")`
unfoldable pub rstrip_separators : String → String
unfolding is_separator rstrip_by
rstrip_separators s = rstrip_by is_separator s

-- `s[len(t):]`
unfoldable pub after : String → String → String
after s String.[] = s
after String.[] (String.◌∷◌ d t) = String.[]
after (String.◌∷◌ c s) (String.◌∷◌ d t) = after s t

-- `s[0] in "\\/"`, and false on the empty text.
unfoldable pub starts_with_separator : String → Bool
unfolding is_separator
starts_with_separator String.[] = false
starts_with_separator (String.◌∷◌ c s) = is_separator c

unfoldable pub has_separator : String → Bool
unfolding is_separator
has_separator String.[] = false
has_separator (String.◌∷◌ c s) = is_separator c || has_separator s

-- `len(v) >= 2 and v[1] == ":"`
unfoldable pub has_drive : String → Bool
has_drive String.[] = false
has_drive (String.◌∷◌ c String.[]) = false
has_drive (String.◌∷◌ c (String.◌∷◌ d s)) = code d == b':'

unfoldable pub without_drive : String → String
without_drive String.[] = String.[]
without_drive (String.◌∷◌ c String.[]) = String.◌∷◌ c String.[]
without_drive (String.◌∷◌ c (String.◌∷◌ d s)) =
    if code d == b':' then s else String.◌∷◌ c (String.◌∷◌ d s)

-- What follows the last separator.
unfoldable pub last_part : String → String
unfolding is_separator has_separator
last_part String.[] = String.[]
last_part (String.◌∷◌ c s) =
    let rest = last_part s in
    if has_separator s then rest else if is_separator c then s else String.◌∷◌ c s

unfoldable pub basename : String → String
unfolding without_drive last_part
basename path = last_part (without_drive path)

-- A text that begins with another is that text and what follows it.
pub begins_with-eq : (s t : String) → begins_with s t ≡ true → s ≡ t ++ after s t
unfolding begins_with after
begins_with-eq s String.[] h = sym (append.nil s)
begins_with-eq String.[] (String.◌∷◌ d t) h = absurd (false≢true h)
begins_with-eq (String.◌∷◌ c s) (String.◌∷◌ d t) h =
    let same_char : c ≡ d = Char-path c d (ground arith) in
    let rest : s ≡ t ++ after s t = begins_with-eq s t (ground arith) in
    (λ i. String.◌∷◌ (same_char i) (rest i)) ∙ sym (append.cons d t (after s t))

pub after-append : (s t : String) → after (s ++ t) s ≡ t
unfolding after
after-append String.[] t = append.nil t
after-append (String.◌∷◌ c s) t =
    ap (λ x. after x (String.◌∷◌ c s)) (append.cons c s t) ∙ after-append s t

-- The text is empty, or its first character stays.
starts_kept : (Char → Bool) → String → Bool
starts_kept drop String.[] = true
starts_kept drop (String.◌∷◌ c s) = not (drop c)

lstrip_by-starts_kept :
    (drop : Char → Bool) (s : String) → starts_kept drop (lstrip_by drop s) ≡ true
unfolding lstrip_by starts_kept
lstrip_by-starts_kept drop String.[] = refl
lstrip_by-starts_kept drop (String.◌∷◌ c s) = ground (arith, lstrip_by-starts_kept drop s)

rstrip_by-starts_kept :
    (drop : Char → Bool) (s : String)
    → starts_kept drop s ≡ true
    → starts_kept drop (rstrip_by drop s) ≡ true
unfolding rstrip_by starts_kept
rstrip_by-starts_kept drop String.[] h = refl
rstrip_by-starts_kept drop (String.◌∷◌ c s) h = ground (arith, h)

lstrip_by_kept :
    (drop : Char → Bool) (s : String) → starts_kept drop s ≡ true → lstrip_by drop s ≡ s
unfolding lstrip_by starts_kept
lstrip_by_kept drop String.[] h = refl
lstrip_by_kept drop (String.◌∷◌ c s) h = ground (arith, h)

rstrip_by_idem :
    (drop : Char → Bool) (s : String) → rstrip_by drop (rstrip_by drop s) ≡ rstrip_by drop s
unfolding rstrip_by
rstrip_by_idem drop String.[] = refl
rstrip_by_idem drop (String.◌∷◌ c s) = elim (Bool-cases (is_empty (rstrip_by drop s) && drop c)) [
  | inl dropped ↦ simp dropped refl
  | inr kept ↦ simp kept (simp (rstrip_by_idem drop s) (simp kept refl))
]

-- To strip a text twice is to strip it once.
pub strip-strip : (s : String) → strip (strip s) ≡ strip s
unfolding strip
strip-strip s =
    let left =
      rstrip_by-starts_kept is_space (lstrip_by is_space s) (lstrip_by-starts_kept is_space s) in
    ap (rstrip_by is_space)
      (lstrip_by_kept is_space (rstrip_by is_space (lstrip_by is_space s)) left)
    ∙ rstrip_by_idem is_space (lstrip_by is_space s)
