-- ===== src/Reporter/Behaviors/Words.antt =====
-- incident_report.py: what _signame_from_reason makes of the reasons that the responder writes.
use Prim.Native.Char.{Char, code}
use Prim.Native.String.{String, char_at, ◌++◌}
use Prim.Native.String.append
use mathlib.Core.Bool.{false≢true}
use xodusmile.Prelude.{
  ℕ, ◌≡◌, refl, ap, sym, ◌∙◌, inl, inr, Bool, true, false, not, ◌&&◌, none, some, is_some, arith,
  if◌then◌else◌, is_empty, strip, is_space, rstrip_by, lstrip_by, Bool-cases, ◌==◌, when,
}
use xodusmile.Responder.Types.{detected, parent_of}
use xodusmile.Reporter.FileNames.{decimal}
use xodusmile.Reporter.Behaviors.{
  or_text, reason_text, behind_slash, up_to_space, first_word, signame_from_reason,
}

-- There is no white space in it.
unfoldable pub is_solid : String → Bool
is_solid String.[] = true
is_solid (String.◌∷◌ c s) = not (is_space c) && is_solid s

append-one : (c : Char) (t : String) → (String.◌∷◌ c "") ++ t ≡ String.◌∷◌ c t
append-one c t = append.cons c "" t ∙ ap (String.◌∷◌ c) (append.nil t)

behind_slash-append :
    (d t : String) → behind_slash d ≡ none → behind_slash (d ++ ("/" ++ t)) ≡ some t
unfolding behind_slash
behind_slash-append String.[] t h =
    ap behind_slash (append.nil ("/" ++ t) ∙ append-one (char_at "/" 0) t)
behind_slash-append (String.◌∷◌ c d) t h = rw append.cons (ground (arith, behind_slash-append d t))

behind_slash-longer :
    (d t u : String) → behind_slash d ≡ some t → behind_slash (d ++ u) ≡ some (t ++ u)
unfolding behind_slash
behind_slash-longer String.[] t u h = absurd (false≢true (ap is_some h))
behind_slash-longer (String.◌∷◌ c d) t u h = rw append.cons (elim (Bool-cases (code c == b'/')) [
  | inl k ↦
      let q : some d ≡ some t = ground (arith, h, k) in
      ground (arith, k, ap (λ o. some (or_text "" o ++ u)) q)
  | inr k ↦ ground (arith, k, h, behind_slash-longer d t u)
])

up_to_space-rstrip : (s : String) → up_to_space (rstrip_by is_space s) ≡ up_to_space s
unfolding up_to_space rstrip_by
up_to_space-rstrip String.[] = refl
up_to_space-rstrip (String.◌∷◌ c s) =
    when (λ r. up_to_space r ≡ (if is_space c then String.[] else String.◌∷◌ c (up_to_space s)))
      (is_empty (rstrip_by is_space s) && is_space c) (λ e. ground (arith, e))
      (λ e. ground (arith, up_to_space-rstrip s))

up_to_space-append :
    (name u : String) → is_solid name ≡ true → up_to_space u ≡ "" → up_to_space (name ++ u) ≡ name
unfolding up_to_space is_solid
up_to_space-append String.[] u h e = ap up_to_space (append.nil u) ∙ e
up_to_space-append (String.◌∷◌ c s) u h e =
    rw append.cons (ground (arith, h, e, up_to_space-append s u))

up_to_space-solid : (name : String) → is_solid name ≡ true → up_to_space name ≡ name
unfolding up_to_space is_solid
up_to_space-solid String.[] h = refl
up_to_space-solid (String.◌∷◌ c s) h = ground (arith, h, up_to_space-solid s)

strip-cons :
    (c : Char) (s : String)
    → is_space c ≡ false
    → strip (String.◌∷◌ c s) ≡ String.◌∷◌ c (rstrip_by is_space s)
unfolding strip rstrip_by lstrip_by
strip-cons c s h = ground (arith, h)

-- A text that begins with a word has it as its first.
first_word-up_to_space :
    (name s : String) → is_empty name ≡ false → up_to_space s ≡ name → first_word s ≡ some name
unfolding first_word up_to_space is_empty
first_word-up_to_space name String.[] h e = ap some e
first_word-up_to_space name (String.◌∷◌ c s) h e = elim (Bool-cases (is_space c)) [
  | inl k ↦
      let q : "" ≡ name = ground (arith, e, k) in absurd (false≢true (sym h ∙ ap is_empty (sym q)))
  | inr k ↦
      let text : strip (String.◌∷◌ c s) ≡ String.◌∷◌ c (rstrip_by is_space s) = strip-cons c s k in
      let word : up_to_space (String.◌∷◌ c (rstrip_by is_space s)) ≡ name =
        ground (arith, k, e, up_to_space-rstrip s) in
      rw text (ground (arith, k, word))
]

module _ (detector name : String) (plain : behind_slash detector ≡ none)
    (full : is_empty name ≡ false) (solid : is_solid name ≡ true) where
  -- A signal is found again in the reason that its detection wrote,
  pub signame_from_reason-detected : signame_from_reason (detected detector name) ≡ some name
  unfolding signame_from_reason reason_text
  signame_from_reason-detected =
      ap (λ o. first_word (or_text (detector ++ ("/" ++ name)) o))
        (behind_slash-append detector name plain)
      ∙ first_word-up_to_space name name full (up_to_space-solid name solid)

  -- and in that of the parent that was stopped with it.
  pub signame_from_reason-parent_of :
      (pid : ℕ) → signame_from_reason (parent_of (detected detector name) pid) ≡ some name
  unfolding signame_from_reason reason_text up_to_space is_space
  signame_from_reason-parent_of pid =
      let whole = detector ++ ("/" ++ name) in
      let rest = decimal pid ++ ")" in
      let suffix = " (parent of pid=" ++ rest in
      ap (λ o. first_word (or_text (whole ++ suffix) o))
        (behind_slash-longer whole name suffix (behind_slash-append detector name plain))
      ∙ first_word-up_to_space name (name ++ suffix) full (
          up_to_space-append name suffix solid
            (ap up_to_space (append.cons (char_at " " 0) "(parent of pid=" rest)))
