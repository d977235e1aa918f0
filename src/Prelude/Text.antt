-- ===== src/Prelude/Text.antt =====
-- Python's `str`: the tests and functions that the program applies to names and paths. `lower` and
-- `normcase` change the ASCII letters, which are the letters of the names that the program compares.
use Prim.Native.Nat.{ℕ, zero, suc, ◌-◌}
use Prim.Native.Char.{Char, code}
use Prim.Native.String.{String, char_at, ◌++◌}
use Prim.Native.String.append
use mathlib.Core.Path.{◌≡◌, refl, sym, subst}
use mathlib.Core.Logic.{inl, inr}
use mathlib.Core.Bool.{Bool, true, false, ◌&&◌, ◌||◌}
use mathlib.Core.List.{List, [], ◌∷◌}
use native.Mathlib.Omega.{arith}
use text.Mathlib.Text.{◌==◌ as str_eq}
use text.Mathlib.TextEquality.{eq_iff}
use xodusmile.Prelude.Tests.{leb, ◌==◌, if◌then◌else◌, Bool-cases}

abbrev pub same : String → String → Bool
same s t = str_eq s t

-- `s in {…}`
unfoldable pub elem : String → List String → Bool
elem s [] = false
elem s (t ∷ ts) = same s t || elem s ts

unfoldable pub is_empty : String → Bool
is_empty String.[] = true
is_empty (String.◌∷◌ c s) = false

lower_char : Char → Char
lower_char c =
    if leb b'A' (code c) && leb (code c) b'Z'
    then char_at "abcdefghijklmnopqrstuvwxyz" (code c - b'A')
    else c

-- `s.lower()`
unfoldable pub lower : String → String
unfolding lower_char
lower String.[] = String.[]
lower (String.◌∷◌ c s) = String.◌∷◌ (lower_char c) (lower s)

slash_char : Char → Char
slash_char c = if code c == b'/' then char_at "\\" 0 else c

unfoldable pub normcase_char : Char → Char
unfolding lower_char slash_char
normcase_char c = slash_char (lower_char c)

-- `os.path.normcase` of Windows: lower case, and `\` for `/`.
unfoldable pub normcase : String → String
normcase String.[] = String.[]
normcase (String.◌∷◌ c s) = String.◌∷◌ (normcase_char c) (normcase s)

-- `s.startswith(t)`
unfoldable pub begins_with : String → String → Bool
begins_with s String.[] = true
begins_with String.[] (String.◌∷◌ d t) = false
begins_with (String.◌∷◌ c s) (String.◌∷◌ d t) = code c == code d && begins_with s t

-- `t in s`
unfoldable pub contains : String → String → Bool
unfolding begins_with
contains String.[] t = begins_with String.[] t
contains (String.◌∷◌ c s) t = begins_with (String.◌∷◌ c s) t || contains s t

-- `" ".join(words)`
unfoldable pub join_words : List String → String
join_words [] = ""
join_words (w ∷ []) = w
join_words (w ∷ v ∷ ws) = w ++ (" " ++ join_words (v ∷ ws))

-- `s[:n]`
unfoldable pub first_chars : ℕ → String → String
first_chars zero s = ""
first_chars (suc n) String.[] = ""
first_chars (suc n) (String.◌∷◌ c s) = String.◌∷◌ c (first_chars n s)

unfoldable pub is_separator : Char → Bool
is_separator c = code c == b'\\' || code c == b'/'

-- The text is empty or its last character is `\`, `/` or `:`, so that a join adds no separator.
unfoldable pub ends_with_separator : String → Bool
unfolding is_separator
ends_with_separator String.[] = true
ends_with_separator (String.◌∷◌ c String.[]) = is_separator c || code c == b':'
ends_with_separator (String.◌∷◌ c (String.◌∷◌ d s)) = ends_with_separator (String.◌∷◌ d s)

-- A text begins with any text put in front of it.
pub begins_with-append : (s t : String) → begins_with (s ++ t) s ≡ true
unfolding begins_with
begins_with-append String.[] t = refl
begins_with-append (String.◌∷◌ c s) t = rw append.cons (ground (arith, begins_with-append s t))

contains_of_begins_with : (s t : String) → begins_with s t ≡ true → contains s t ≡ true
unfolding contains
contains_of_begins_with String.[] t h = h
contains_of_begins_with (String.◌∷◌ c s) t h = ground arith

contains-cons : (c : Char) (s t : String) → contains s t ≡ true → contains (String.◌∷◌ c s) t ≡ true
unfolding contains
contains-cons c s t h = ground arith

-- A text contains whatever stands in the middle of it.
pub contains-append : (s t u : String) → contains (s ++ (t ++ u)) t ≡ true
contains-append String.[] t u =
    subst (λ x. contains x t ≡ true) (sym (append.nil (t ++ u)))
      (contains_of_begins_with (t ++ u) t (begins_with-append t u))
contains-append (String.◌∷◌ c s) t u =
    subst (λ x. contains x t ≡ true) (sym (append.cons c s (t ++ u)))
      (contains-cons c (s ++ (t ++ u)) t (contains-append s t u))

-- `all(p(t) for t in ts)`
unfoldable pub every : (String → Bool) → List String → Bool
every p [] = true
every p (t ∷ ts) = p t && every p ts

-- A test that passes on each of the listed names passes on every name in the set.
pub every-elem :
    (p : String → Bool) (s : String) (ts : List String)
    → every p ts ≡ true
    → elem s ts ≡ true
    → p s ≡ true
unfolding every elem
every-elem p s [] h m = cc
every-elem p s (t ∷ ts) h m = elim (Bool-cases (same s t)) [
  | inl e ↦ let q : s ≡ t = (eq_iff s t).0 e in ground arith
  | inr e ↦ ground (arith, every-elem p s ts)
]
