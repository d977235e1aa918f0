-- ===== src/Canary/Rounds.antt =====
-- What a round of the canary detector reports, and what the next one does.
use text.Mathlib.TextEquality.{eq_iff}
use xodusmile.Prelude.{
  ℕ, ◌+◌, ◌≡◌, refl, sym, ap, ◌∙◌, subst, String, true, false, none, [], ◌∷◌, ◌++◌, arith, lookup,
  insert, length, same, Bool-cases, when, inl, inr,
}
use xodusmile.Canary.{World, Canary, pop, watch_one, watch_all, round, raise_alert}
use xodusmile.Canary.Tracked.{
  Files, tampered, settled, IsUnique, pop-middle, insert-middle, append-cons, IsUnique-last,
}

watch_one-gone :
    (now : ℕ) (w : World) (path expected : String) (c : Canary)
    → w.exists path ≡ false
    → ((watch_one now w path expected c).files ≡ pop path c.files)
      × (length (watch_one now w path expected c).emitted ≡ length c.emitted + 1)
unfolding watch_one raise_alert
watch_one-gone now w path expected c h = simp h (refl, omega arith)

watch_one-changed :
    (now : ℕ) (w : World) (path expected : String) (c : Canary)
    → w.exists path ≡ true
    → same (w.hash path) expected ≡ false
    → ((watch_one now w path expected c).files ≡ insert path (w.hash path) c.files)
      × (length (watch_one now w path expected c).emitted ≡ length c.emitted + 1)
unfolding watch_one raise_alert
watch_one-changed now w path expected c h off = simp (h, off) (refl, omega arith)

watch_one-intact :
    (now : ℕ) (w : World) (path expected : String) (c : Canary)
    → w.exists path ≡ true
    → same (w.hash path) expected ≡ true
    → ((watch_one now w path expected c).files ≡ c.files)
      × (length (watch_one now w path expected c).emitted ≡ length c.emitted)
unfolding watch_one
watch_one-intact now w path expected c h at = simp (h, at) (refl, refl)

-- The loop leaves what is settled, and reports what was tampered with.
watch_all-settled :
    (now : ℕ) (w : World) (pre fs : Files) (c : Canary)
    → IsUnique pre fs
    → c.files ≡ pre ++ fs
    → ((watch_all now w fs c).files ≡ pre ++ settled w fs)
      × (length (watch_all now w fs c).emitted ≡ length c.emitted + tampered w fs)
watch_all-settled now w pre [] c u eq = (eq, omega arith)
watch_all-settled now w pre ((path, expected) ∷ fs) c (u₁, u₂, u) eq =
    let c' = watch_one now w path expected c in
    let kept = λ (h : w.exists path ≡ true) (at : c'.files ≡ pre ++ (path, w.hash path) ∷ fs).
      watch_all-settled now w (pre ++ (path, w.hash path) ∷ []) fs c'
        (IsUnique-last path (w.hash path) pre fs u u₂)
        (at ∙ sym (append-cons pre fs (path, w.hash path))) in
    elim (Bool-cases (w.exists path)) [
      | inl h ↦ elim (Bool-cases (same (w.hash path) expected)) [
        | inl at ↦
            let r = kept h (
              (watch_one-intact now w path expected c h at).0
              ∙ eq
              ∙ ap (λ x. pre ++ (path, x) ∷ fs) (sym ((eq_iff (w.hash path) expected).0 at))) in
            simp h (
              r.0 ∙ append-cons pre (settled w fs) (path, w.hash path),
              ground (arith, r.1, at, h, (watch_one-intact now w path expected c h at).1),
            )
        | inr off ↦
            let r = kept h (
              (watch_one-changed now w path expected c h off).0
              ∙ ap (insert path (w.hash path)) eq
              ∙ insert-middle path expected (w.hash path) pre fs u₁) in
            simp h (
              r.0 ∙ append-cons pre (settled w fs) (path, w.hash path),
              ground (arith, r.1, off, h, (watch_one-changed now w path expected c h off).1),
            )
      ]
      | inr h ↦
          let r = watch_all-settled now w pre fs c' u (
            (watch_one-gone now w path expected c h).0
            ∙ ap (pop path) eq
            ∙ pop-middle path expected pre fs u₁ u₂) in
          simp h (r.0, ground (arith, r.1, h, (watch_one-gone now w path expected c h).1))
    ]

settled-intact : (w : World) (fs : Files) → tampered w (settled w fs) ≡ 0
settled-intact w [] = refl
settled-intact w ((path, expected) ∷ fs) =
    ground (arith, settled-intact w fs, eq_iff (w.hash path) (w.hash path))

settled-settled : (w : World) (fs : Files) → settled w (settled w fs) ≡ settled w fs
settled-settled w [] = refl
settled-settled w ((path, expected) ∷ fs) = ground (arith, settled-settled w fs)

lookup-settled :
    (w : World) (p : String) (fs : Files) → lookup p fs ≡ none → lookup p (settled w fs) ≡ none
unfolding lookup
lookup-settled w p [] h = h
lookup-settled w p ((q, e) ∷ fs) h = ground (arith, lookup-settled w p fs)

settled-IsUnique : (w : World) (fs : Files) → IsUnique [] fs → IsUnique [] (settled w fs)
settled-IsUnique w [] u = u
settled-IsUnique w ((p, e) ∷ fs) (u₁, u₂, u) =
    when (IsUnique []) (w.exists p) (λ _. (u₁, lookup-settled w p fs u₂, settled-IsUnique w fs u))
      (λ _. settled-IsUnique w fs u)

-- Where no path is tracked twice, a round raises one alert for each canary that is gone or changed and
-- none for the others; a canary that is gone is tracked no more and the others by their hashes. The
-- next round, while the files stay as they are, raises none and leaves all as it is.
pub round_once :
    (now later : ℕ) (w : World) (c : Canary)
    → IsUnique [] c.files
    → (length (round now w c).emitted ≡ length c.emitted + tampered w c.files)
      × ((round now w c).files ≡ settled w c.files)
      × (length (round later w (round now w c)).emitted ≡ length (round now w c).emitted)
      × ((round later w (round now w c)).files ≡ (round now w c).files)
unfolding round
round_once now later w c u =
    let first = watch_all-settled now w [] c.files c u refl in
    let c' = round now w c in
    let again =
      watch_all-settled later w [] c'.files c'
        (subst (IsUnique []) (sym first.0) (settled-IsUnique w c.files u)) refl in
    (
      first.1,
      first.0,
      again.1
          ∙ ap (λ fs. length c'.emitted + tampered w fs) first.0
          ∙ ground (arith, settled-intact w c.files),
      again.0 ∙ ap (settled w) first.0 ∙ settled-settled w c.files ∙ sym first.0,
    )
