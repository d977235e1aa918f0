-- ===== src/Reporter/Guard.antt =====
-- Which of the reporter's own files `read_report` lets through.
use Prim.Native.Char.{Char, code}
use Prim.Native.String.{String, char_at, ◌++◌}
use Prim.Native.String.append
use xodusmile.Prelude.{
  ℕ, zero, suc, ◌/◌, ◌%◌, ◌<◌, ◌≡◌, refl, ap, ◌∙◌, Bool-cases, ltb, inl, inr, Bool, true, false,
  ◌&&◌, not, ◌==◌, contains, begins_with, is_empty, arith, when,
}
use xodusmile.Reporter.FileNames.{
  digit, decimal_within, decimal, is_safe, safe_char, safe_name, name_or_unknown, incident_file,
  is_plain,
}

-- Every character passes.
unfoldable pub letters : (Char → Bool) → String → Bool
letters f String.[] = true
letters f (String.◌∷◌ c s) = f c && letters f s

letters-append :
    (f : Char → Bool) (s t : String) → letters f (s ++ t) ≡ (letters f s && letters f t)
unfolding letters
letters-append f String.[] t = ap (letters f) (append.nil t)
letters-append f (String.◌∷◌ c s) t = rw append.cons (ground (arith, letters-append f s t))

-- Characters other than the first of a text do not help to find it.
contains-skip :
    (d : Char) (t p s : String)
    → letters (λ c. not (code c == code d)) p ≡ true
    → contains (p ++ s) (String.◌∷◌ d t) ≡ contains s (String.◌∷◌ d t)
unfolding letters contains begins_with
contains-skip d t String.[] s h = ap (λ x. contains x (String.◌∷◌ d t)) (append.nil s)
contains-skip d t (String.◌∷◌ c p) s h = rw append.cons (ground (arith, h, contains-skip d t p s))

-- Neither a separator nor a dot.
abbrev pub is_word : Char → Bool
is_word c = not (code c == b'/') && (not (code c == b'\\') && not (code c == b'.'))

abbrev no_separator : Char → Bool
no_separator c = not (code c == b'/') && not (code c == b'\\')

unfoldable pub is_words : String → Bool
unfolding letters
is_words s = letters is_word s

digit-words : (n : ℕ) → letters is_word (digit n) ≡ true
unfolding letters
digit-words n =
    let P : String → Type 0 = λ x. letters is_word x ≡ true in
    when P (n == 0) (λ _. refl)
      (λ _.
        when P (n == 1) (λ _. refl)
          (λ _.
            when P (n == 2) (λ _. refl)
              (λ _.
                when P (n == 3) (λ _. refl)
                  (λ _.
                    when P (n == 4) (λ _. refl)
                      (λ _.
                        when P (n == 5) (λ _. refl)
                          (λ _.
                            when P (n == 6) (λ _. refl)
                              (λ _.
                                when P (n == 7) (λ _. refl)
                                  (λ _. when P (n == 8) (λ _. refl) (λ _. refl)))))))))

decimal_within-words : (fuel n : ℕ) → letters is_word (decimal_within fuel n) ≡ true
unfolding decimal_within letters
decimal_within-words zero n = refl
decimal_within-words (suc fuel) n = ground (
  arith,
  digit-words n,
  digit-words (n % 10),
  decimal_within-words fuel (n / 10),
  letters-append is_word (decimal_within fuel (n / 10)) (digit (n % 10)),
)

-- A number has all its digits as soon as the fuel exceeds it.
pub decimal_within_enough :
    (fuel fuel' n : ℕ) → n < fuel → n < fuel' → decimal_within fuel n ≡ decimal_within fuel' n
unfolding decimal_within
decimal_within_enough zero fuel' n h k = absurd (omega (arith, h))
decimal_within_enough (suc fuel) zero n h k = absurd (omega (arith, k))
decimal_within_enough (suc fuel) (suc fuel') n h k = elim (Bool-cases (ltb n 10)) [
  | inl short ↦ simp short refl
  | inr long ↦
      let less : n / 10 < n = ground (arith, long) in
      let rest =
        decimal_within_enough fuel fuel' (n / 10) (omega (arith, less, h))
          (omega (arith, less, k)) in
      simp (long, rest) refl
]

safe_char-no_separator : (c : Char) → no_separator (safe_char c) ≡ true
unfolding safe_char
safe_char-no_separator c =
    when (λ x. no_separator x ≡ true) (is_safe c) (λ h. ground (arith, h)) (λ _. refl)

safe_name-no_separator : (s : String) → letters no_separator (safe_name s) ≡ true
unfolding letters safe_name
safe_name-no_separator String.[] = refl
safe_name-no_separator (String.◌∷◌ c s) =
    ground (arith, safe_char-no_separator c, safe_name-no_separator s)

-- A stricter test passes less.
letters-imp :
    (f g : Char → Bool) (s : String)
    → ((c : Char) → f c ≡ true → g c ≡ true)
    → letters f s ≡ true
    → letters g s ≡ true
unfolding letters
letters-imp f g String.[] imp h = refl
letters-imp f g (String.◌∷◌ c s) imp h = ground (arith, h, imp c, letters-imp f g s imp)

-- A character that no word has.
Barred : Char → Type 0
Barred d = (c : Char) → is_word c ≡ true → not (code c == code d) ≡ true

skip_word :
    (d : Char) (t p s : String)
    → Barred d
    → letters is_word p ≡ true
    → contains (p ++ s) (String.◌∷◌ d t) ≡ contains s (String.◌∷◌ d t)
unfolding Barred
skip_word d t p s b h =
    contains-skip d t p s (letters-imp is_word (λ c. not (code c == code d)) p b h)

-- What the file's name holds of a text that starts with a barred character is in the process's name.
contains-incident_file :
    (d : Char) (t stamp : String) (pid : ℕ) (name : String)
    → Barred d
    → is_words stamp ≡ true
    → contains (incident_file stamp pid name) (String.◌∷◌ d t)
      ≡ contains (safe_name (name_or_unknown name) ++ ".md") (String.◌∷◌ d t)
unfolding incident_file is_words decimal letters
contains-incident_file d t stamp pid name b h =
    let tail = safe_name (name_or_unknown name) ++ ".md" in
    skip_word d t "incident_" (stamp ++ ("_pid" ++ (decimal pid ++ ("_" ++ tail)))) b refl
    ∙ skip_word d t stamp ("_pid" ++ (decimal pid ++ ("_" ++ tail))) b h
    ∙ skip_word d t "_pid" (decimal pid ++ ("_" ++ tail)) b refl
    ∙ skip_word d t (decimal pid) ("_" ++ tail) b (decimal_within-words (suc pid) pid)
    ∙ skip_word d t "_" tail b refl

-- The cleaned name holds no separator.
contains-safe_name :
    (d : Char) (s : String)
    → ((c : Char) → no_separator c ≡ true → not (code c == code d) ≡ true)
    → contains ".md" (String.◌∷◌ d "") ≡ false
    → contains (safe_name s ++ ".md") (String.◌∷◌ d "") ≡ false
contains-safe_name d s imp h =
    contains-skip d "" (safe_name s) ".md" (
      letters-imp no_separator (λ c. not (code c == code d)) (safe_name s) imp
        (safe_name-no_separator s))
    ∙ h

incident_file-not_empty :
    (stamp : String) (pid : ℕ) (name : String) → is_empty (incident_file stamp pid name) ≡ false
unfolding incident_file is_empty
incident_file-not_empty stamp pid name = ap is_empty (
    append.cons (char_at "i" 0) "ncident_"
      (stamp ++ ("_pid" ++ (decimal pid ++ ("_" ++ (safe_name (name_or_unknown name) ++ ".md"))))))

-- `read_report` lets the file that an incident of any process is written to through, or else the name of
-- the process, with its unsafe characters replaced, has two dots in a row or ends in a dot. The time
-- stamp is words: it has no separator and no dot.
pub incident_file-is_plain :
    (stamp : String) (pid : ℕ) (name : String)
    → is_words stamp ≡ true
    → is_plain (incident_file stamp pid name)
      ≡ not (contains (safe_name (name_or_unknown name) ++ ".md") "..")
unfolding is_plain Barred contains begins_with
incident_file-is_plain stamp pid name h = ground (
  arith,
  incident_file-not_empty stamp pid name,
  contains-incident_file (char_at "/" 0) "" stamp pid name (λ c w. ground (arith, w)) h,
  contains-incident_file (char_at "\\" 0) "" stamp pid name (λ c w. ground (arith, w)) h,
  contains-incident_file (char_at "." 0) "." stamp pid name (λ c w. ground (arith, w)) h,
  contains-safe_name (char_at "/" 0) (name_or_unknown name) (λ c w. ground (arith, w)) refl,
  contains-safe_name (char_at "\\" 0) (name_or_unknown name) (λ c w. ground (arith, w)) refl,
)
