-- ===== src/Integrations/Header.antt =====
-- What a reader of CEF finds in a line.
use Prim.Native.Char.{Char, code}
use Prim.Native.String.{◌++◌, char_at}
use Prim.Native.String.append
use mathlib.Core.List.{◌++◌ as ◌++ₗ◌}
use text.Mathlib.TextEquality.{Char-path}
use text.Mathlib.TextLemmas.{append_assoc}
use xodusmile.Prelude.{
  ℕ, ◌≡◌, refl, ap, sym, ◌∙◌, Bool-cases, inl, inr, when, same, All, map, subst, ==_iff, String,
  Bool, true, false, ◌||◌, Option, List, [], ◌∷◌, ◌==◌, if◌then◌else◌, lookup,
}
use xodusmile.Integrations.Cef.{
  replace, cef_header_escape, CefEvent, name_of, or_default, cef_sev, join_bars, build_cef,
  extension, join_extension,
}

-- The fields of a text, as a reader finds them: a backslash takes the next character as it is, and a
-- bar ends a field. The test says that a backslash came before.
abbrev pub push : Char → List String → List String
push c [] = String.◌∷◌ c "" ∷ []
push c (f ∷ fs) = String.◌∷◌ c f ∷ fs

abbrev pub fields : Bool → String → List String
fields b String.[] = "" ∷ []
fields true (String.◌∷◌ c s) = push c (fields false s)
fields false (String.◌∷◌ c s) =
    let escaped = fields true s in
    let rest = fields false s in
    if code c == 92 then escaped else if code c == 124 then "" ∷ rest else push c rest

-- The text with a space for each carriage return and each line feed.
abbrev pub one_line : String → String
one_line String.[] = ""
one_line (String.◌∷◌ c s) =
    let rest = one_line s in
    if code c == 13 || code c == 10 then String.◌∷◌ (char_at " " 0) rest else String.◌∷◌ c rest

-- The escape of a character.
escaped_char : Char → String → String
escaped_char c rest =
    if code c == 92
    then "\\\\" ++ rest
    else if code c == 124
    then "\\|" ++ rest
    else if code c == 13 || code c == 10
    then " " ++ rest
    else String.◌∷◌ c rest

replace-append : (c : ℕ) (r s t : String) → replace c r (s ++ t) ≡ replace c r s ++ replace c r t
unfolding replace
replace-append c r String.[] t = ap (replace c r) (append.nil t) ∙ sym (append.nil (replace c r t))
replace-append c r (String.◌∷◌ x s) t = elim (Bool-cases (code x == c)) [
  | inl h ↦
      simp (append.cons, h, replace-append c r s t)
        (sym (append_assoc r (replace c r s) (replace c r t)))
  | inr h ↦ simp (append.cons, h, replace-append c r s t) refl
]

cef_header_escape-cons :
    (c : Char) (s : String)
    → cef_header_escape (String.◌∷◌ c s) ≡ escaped_char c (cef_header_escape s)
unfolding cef_header_escape replace escaped_char
cef_header_escape-cons c s = elim (Bool-cases (code c == 92)) [
  | inl h ↦ simp (h, replace-append) refl
  | inr h₁ ↦ elim (Bool-cases (code c == 124)) [
    | inl h ↦ simp (h₁, h, replace-append) refl
    | inr h₂ ↦ elim (Bool-cases (code c == 13)) [
      | inl h ↦ simp (h₁, h₂, h, replace-append) refl
      | inr h₃ ↦ elim (Bool-cases (code c == 10)) [
        | inl h ↦ simp (h₁, h₂, h₃, h) refl
        | inr h ↦ simp (h₁, h₂, h₃, h) refl
      ]
    ]
  ]
]

-- What holds of each character with a meaning and of each other one holds of all.
by_character :
    (P : Char → Type 0)
    → P (char_at "\\" 0)
    → P (char_at "|" 0)
    → P (char_at "\r" 0)
    → P (char_at "\n" 0)
    → ((c : Char)
        → code c == 92 ≡ false
        → code c == 124 ≡ false
        → code c == 13 ≡ false
        → code c == 10 ≡ false
        → P c)
    → (c : Char) → P c
by_character P backslash bar return feed other c = elim (Bool-cases (code c == 92)) [
  | inl h ↦ subst P (Char-path (char_at "\\" 0) c (sym ((==_iff (code c) 92).0 h))) backslash
  | inr h₁ ↦ elim (Bool-cases (code c == 124)) [
    | inl h ↦ subst P (Char-path (char_at "|" 0) c (sym ((==_iff (code c) 124).0 h))) bar
    | inr h₂ ↦ elim (Bool-cases (code c == 13)) [
      | inl h ↦ subst P (Char-path (char_at "\r" 0) c (sym ((==_iff (code c) 13).0 h))) return
      | inr h₃ ↦ elim (Bool-cases (code c == 10)) [
        | inl h ↦ subst P (Char-path (char_at "\n" 0) c (sym ((==_iff (code c) 10).0 h))) feed
        | inr h₄ ↦ other c h₁ h₂ h₃ h₄
      ]
    ]
  ]
]

one_append : (a : Char) (e u : String) → (String.◌∷◌ a "" ++ e) ++ u ≡ String.◌∷◌ a (e ++ u)
one_append a e u =
    ap (λ x. x ++ u) (append.cons a "" e ∙ ap (String.◌∷◌ a) (append.nil e)) ∙ append.cons a e u

two_append :
    (a b : Char) (e u : String)
    → (String.◌∷◌ a (String.◌∷◌ b "") ++ e) ++ u ≡ String.◌∷◌ a (String.◌∷◌ b (e ++ u))
two_append a b e u =
    ap (λ x. x ++ u) (append.cons a (String.◌∷◌ b "") e)
    ∙ append.cons a (String.◌∷◌ b "" ++ e) u
    ∙ ap (String.◌∷◌ a) (one_append b e u)

fields-escaped_char :
    (e u s : String) (fs : List String)
    → fields false (e ++ u) ≡ one_line s ∷ fs
    → (c : Char) → fields false (escaped_char c e ++ u) ≡ one_line (String.◌∷◌ c s) ∷ fs
unfolding escaped_char
fields-escaped_char e u s fs h =
    by_character (λ c. fields false (escaped_char c e ++ u) ≡ one_line (String.◌∷◌ c s) ∷ fs)
      (ap (fields false) (two_append (char_at "\\" 0) (char_at "\\" 0) e u)
        ∙ ap (push (char_at "\\" 0)) h)
      (ap (fields false) (two_append (char_at "\\" 0) (char_at "|" 0) e u)
        ∙ ap (push (char_at "|" 0)) h)
      (ap (fields false) (one_append (char_at " " 0) e u) ∙ ap (push (char_at " " 0)) h)
      (ap (fields false) (one_append (char_at " " 0) e u) ∙ ap (push (char_at " " 0)) h)
      (λ c h₁ h₂ h₃ h₄.
        simp (h₁, h₂, h₃, h₄) (ap (fields false) (append.cons c e u) ∙ plain c h₁ h₂))
  where
    plain :
        (c : Char)
        → code c == 92 ≡ false
        → code c == 124 ≡ false
        → fields false (String.◌∷◌ c (e ++ u)) ≡ String.◌∷◌ c (one_line s) ∷ fs
    plain c h₁ h₂ = simp (h₁, h₂) (ap (push c) h)

-- A reader finds an escaped text as one field, whatever follows the bar.
fields-cef_header_escape :
    (s t : String) → fields false (cef_header_escape s ++ ("|" ++ t)) ≡ one_line s ∷ fields false t
unfolding cef_header_escape replace
fields-cef_header_escape String.[] t = ap (fields false) (
    append.nil ("|" ++ t)
    ∙ append.cons (char_at "|" 0) "" t
    ∙ ap (String.◌∷◌ (char_at "|" 0)) (append.nil t))
fields-cef_header_escape (String.◌∷◌ c s) t =
    ap (λ x. fields false (x ++ ("|" ++ t))) (cef_header_escape-cons c s)
    ∙ fields-escaped_char (cef_header_escape s) ("|" ++ t) s (fields false t)
        (fields-cef_header_escape s t) c

-- A reader finds the second text where the first one stands before a bar.
abbrev ReadsAs : String × String → Type 0
ReadsAs p = (t : String) → fields false (p.0 ++ ("|" ++ t)) ≡ p.1 ∷ fields false t

abbrev written : List (String × String) → List String
written ps = map (λ (p : String × String). p.0) ps

abbrev read : List (String × String) → List String
read ps = map (λ (p : String × String). p.1) ps

fields-join_bars :
    (p : String × String) (ps : List (String × String)) (t : String)
    → All ReadsAs (p ∷ ps)
    → fields false (join_bars (written (p ∷ ps)) ++ ("|" ++ t)) ≡ read (p ∷ ps) ++ₗ fields false t
fields-join_bars p [] t (h, _) = h t
fields-join_bars p (q ∷ ps) t (h, hs) =
    ap (fields false) (
      append_assoc p.0 ("|" ++ join_bars (written (q ∷ ps))) ("|" ++ t)
      ∙ ap (λ x. p.0 ++ x) (append_assoc "|" (join_bars (written (q ∷ ps))) ("|" ++ t)))
    ∙ h (join_bars (written (q ∷ ps)) ++ ("|" ++ t))
    ∙ ap (λ fs. p.1 ∷ fs) (fields-join_bars q ps t hs)

severity-ReadsAs :
    (level : String)
    → ReadsAs (or_default "5" (lookup level cef_sev), or_default "5" (lookup level cef_sev))
unfolding lookup cef_header_escape replace
severity-ReadsAs level =
    let P = λ (o : Option String). ReadsAs (or_default "5" o, or_default "5" o) in
    when P (same "INFO" level) (λ _. fields-cef_header_escape "1")
      (λ _.
        when P (same "LOW" level) (λ _. fields-cef_header_escape "3")
          (λ _.
            when P (same "MEDIUM" level) (λ _. fields-cef_header_escape "5")
              (λ _.
                when P (same "HIGH" level) (λ _. fields-cef_header_escape "8")
                  (λ _.
                    when P (same "CRITICAL" level) (λ _. fields-cef_header_escape "10")
                      (λ _. fields-cef_header_escape "5")))))

-- Whatever the name and the message of an event hold, bars, backslashes and line breaks included, a
-- reader of the CEF line finds the seven fields of the header as they were written, with line breaks
-- turned into spaces, and no field more in front of the extension: a text of the event forges none.
pub build_cef-fields :
    (show : ℕ → String) (tid : String) (event : CefEvent) (score : ℕ) (level host : String)
    → fields false (build_cef show tid event score level host)
      ≡ ("CEF:0"
          ∷ "RansomGuard"
          ∷ "EDR"
          ∷ "1.2"
          ∷ one_line (name_of event)
          ∷ one_line (or_default (name_of event) event.message)
          ∷ or_default "5" (lookup level cef_sev)
          ∷ [])
        ++ₗ fields false (join_extension (extension show tid event score level host))
unfolding build_cef cef_header_escape replace
build_cef-fields show tid event score level host =
    fields-join_bars ("CEF:0", "CEF:0")
      (("RansomGuard", "RansomGuard")
        ∷ ("EDR", "EDR")
        ∷ ("1.2", "1.2")
        ∷ (cef_header_escape (name_of event), one_line (name_of event))
        ∷ (
          cef_header_escape (or_default (name_of event) event.message),
          one_line (or_default (name_of event) event.message),
        )
        ∷ (or_default "5" (lookup level cef_sev), or_default "5" (lookup level cef_sev))
        ∷ [])
      (join_extension (extension show tid event score level host))
      (
        fields-cef_header_escape "CEF:0",
        (
          fields-cef_header_escape "RansomGuard",
          (
            fields-cef_header_escape "EDR",
            (
              fields-cef_header_escape "1.2",
              (
                fields-cef_header_escape (name_of event),
                (
                  fields-cef_header_escape (or_default (name_of event) event.message),
                  (severity-ReadsAs level, tt),
                ),
              ),
            ),
          ),
        ),
      )
