-- ===== src/RansomNote/Corroboration.antt =====
-- What the detector of ransom notes finds of other encryption activity.
use xodusmile.Prelude.{
  ℕ, ◌≡◌, ◌⊎◌, inl, inr, refl, Bool, true, false, not, ◌&&◌, List, [], ◌∷◌, arith, elem, lookup,
  when,
}
use xodusmile.Signal.{Signal}
use xodusmile.Scoring.{Engine, recent_signals, encryption_signal_names}
use xodusmile.RansomNote.{external_in, note_names, stamped, external_encryption_active}

abbrev InSignals : Signal → List Signal → Type 0
InSignals s [] = ⊥
InSignals s (t ∷ ts) = (s ≡ t) ⊎ InSignals s ts

-- An encryption signal that is no note's own and whose actor is not marked as trusted.
abbrev pub Corroborated : List Signal → Type 0
Corroborated sigs =
    (s : Signal) × InSignals s sigs
    × (elem s.name encryption_signal_names ≡ true)
    × (elem s.name note_names ≡ false)
    × (stamped (lookup "actor_trusted" s.metadata) ≡ false)

Corroborated-later : (s : Signal) (sigs : List Signal) → Corroborated sigs → Corroborated (s ∷ sigs)
Corroborated-later s sigs (t, there, name, other, actor) = (t, inr there, name, other, actor)

external_in-Corroborated : (sigs : List Signal) → external_in sigs ≡ true → Corroborated sigs
unfolding external_in
external_in-Corroborated [] = λ h. ground arith
external_in-Corroborated (s ∷ sigs) =
    let later = λ (h : external_in sigs ≡ true).
      Corroborated-later s sigs (external_in-Corroborated sigs h) in
    let P = λ (b : Bool). b ≡ true → Corroborated (s ∷ sigs) in
    when P (elem s.name note_names) (λ _. later)
      (λ own.
        when P
          (elem s.name encryption_signal_names && not (stamped (lookup "actor_trusted" s.metadata)))
          (λ here _. (s, inl refl, both_left _ _ here, own, both_right _ _ here)) (λ _. later))
  where
    both_left : (a b : Bool) → (a && not b) ≡ true → a ≡ true
    both_left a b h = ground arith

    both_right : (a b : Bool) → (a && not b) ≡ true → b ≡ false
    both_right a b h = ground arith

pub corroborated :
    (now : ℕ) (e : Engine)
    → (external_encryption_active now e).1 ≡ true
    → Corroborated (recent_signals now 120 e).1
unfolding external_encryption_active
corroborated now e h = external_in-Corroborated (recent_signals now 120 e).1 h
