-- ===== src/Responder/Evidence.antt =====
-- What `_is_confident` accepts as evidence.
use mathlib.Core.List.{Memᴰ}
use text.Mathlib.TextEquality.{eq_iff}
use xodusmile.Prelude.{
  ℕ, String, ◌≡◌, ◌≢◌, ◌⊎◌, ◌↔◌, inl, inr, refl, sym, ap, ◌∙◌, true, false, not, ◌&&◌, ◌||◌, some,
  List, [], ◌∷◌, arith, if◌then◌else◌, elem, Bool-cases, same, subst,
}
use xodusmile.Signal.{Signal}
use xodusmile.Scoring.{Engine, evict_old, has_encryption_activity, recent_signals}
use xodusmile.Scoring.Submit.{IsActivity, has_encryption_activity_iff}
use xodusmile.Responder.Types.{Os}
use xodusmile.Responder.Listener.{is_confident, two_detectors, names_this, is_critical}

-- A signal among `es` that names the PID, by another detector than `d`.
abbrev Another : ℕ → String → List Signal → Type 0
Another pid d es = (b : Signal) × Memᴰ b es × (names_this pid b ≡ true) × (b.detector ≢ d)

abbrev pub TwoDetectors : ℕ → List Signal → Type 0
TwoDetectors pid es =
    (a b : Signal) × Memᴰ a es
    × Memᴰ b es
    × (names_this pid a ≡ true)
    × (names_this pid b ≡ true)
    × (a.detector ≢ b.detector)

-- One round of the loop after one detector was seen.
two_detectors-cons :
    (pid : ℕ) (d : String) (s : Signal) (es : List Signal)
    → two_detectors pid (d ∷ []) (s ∷ es) ≡ (
        if names_this pid s && not (same s.detector d) then true else two_detectors pid (d ∷ []) es)
unfolding two_detectors elem
two_detectors-cons pid d s es = elim (Bool-cases (names_this pid s)) [
  | inl n ↦ elim (Bool-cases (same s.detector d)) [
    | inl e ↦ rw (n, e) refl
    | inr e ↦ rw (n, e) refl
  ]
  | inr n ↦ rw n refl
]

loop_sound :
    (pid : ℕ) (d : String) (es : List Signal)
    → two_detectors pid (d ∷ []) es ≡ true
    → Another pid d es
loop_sound pid d [] h = let h' : false ≡ true = unfold two_detectors in h in cc h'
loop_sound pid d (s ∷ es) h = elim (Bool-cases (names_this pid s && not (same s.detector d))) [
  | inl found ↦ (s, Memᴰ.head refl, ground arith, λ e. ground (arith, (eq_iff s.detector d).1 e))
  | inr other ↦
      let rest : two_detectors pid (d ∷ []) es ≡ true =
        ground (arith, two_detectors-cons pid d s es) in
      let (b, m, n, ne) = loop_sound pid d es rest in (b, Memᴰ.tail m, n, ne)
]

loop_complete :
    (pid : ℕ) (d : String) (es : List Signal)
    → Another pid d es
    → two_detectors pid (d ∷ []) es ≡ true
loop_complete pid d [] (b, m, n, ne) = elim m [ ]
loop_complete pid d (s ∷ es) (b, Memᴰ.head e, n, ne) =
    let n' : names_this pid s ≡ true = subst (λ (x : Signal). names_this pid x ≡ true) e n in
    let ne' : s.detector ≢ d = subst (λ (x : Signal). x.detector ≢ d) e ne in
    two_detectors-cons pid d s es ∙ ground (arith, eq_iff s.detector d)
loop_complete pid d (s ∷ es) (b, Memᴰ.tail m, n, ne) =
    two_detectors-cons pid d s es ∙ ground (arith, loop_complete pid d es (b, m, n, ne))

two_detectors-cons_first :
    (pid : ℕ) (s : Signal) (es : List Signal)
    → two_detectors pid [] (s ∷ es) ≡ (
        if names_this pid s
        then two_detectors pid (s.detector ∷ []) es
        else two_detectors pid [] es)
unfolding two_detectors elem
two_detectors-cons_first pid s es = elim (Bool-cases (names_this pid s)) [
  | inl n ↦ rw n refl
  | inr n ↦ rw n refl
]

two_detectors_sound :
    (pid : ℕ) (es : List Signal) → two_detectors pid [] es ≡ true → TwoDetectors pid es
two_detectors_sound pid [] h = let h' : false ≡ true = unfold two_detectors in h in cc h'
two_detectors_sound pid (s ∷ es) h = elim (Bool-cases (names_this pid s)) [
  | inl n ↦
      let rest : two_detectors pid (s.detector ∷ []) es ≡ true =
        ground (arith, two_detectors-cons_first pid s es) in
      let (b, m, n', ne) = loop_sound pid s.detector es rest in
      (s, b, Memᴰ.head refl, Memᴰ.tail m, n, n', λ e. ne (sym e))
  | inr n ↦
      let rest : two_detectors pid [] es ≡ true =
        ground (arith, two_detectors-cons_first pid s es) in
      let (a, b, m, m', x, y, ne) = two_detectors_sound pid es rest in
      (a, b, Memᴰ.tail m, Memᴰ.tail m', x, y, ne)
]

-- Where the head does not name the PID, a pair of signals that do stands behind it.
TwoDetectors-tail :
    (pid : ℕ) (s : Signal) (es : List Signal)
    → names_this pid s ≡ false
    → TwoDetectors pid (s ∷ es)
    → TwoDetectors pid es
TwoDetectors-tail pid s es n (a, b, Memᴰ.head e, m', x, y, ne) =
    let x' : names_this pid s ≡ true = subst (λ (t : Signal). names_this pid t ≡ true) e x in cc
TwoDetectors-tail pid s es n (a, b, Memᴰ.tail m, Memᴰ.head e, x, y, ne) =
    let y' : names_this pid s ≡ true = subst (λ (t : Signal). names_this pid t ≡ true) e y in cc
TwoDetectors-tail pid s es n (a, b, Memᴰ.tail m, Memᴰ.tail m', x, y, ne) = (a, b, m, m', x, y, ne)

-- Of a pair with distinct detectors one differs from the head's, and stands behind it.
TwoDetectors-Another :
    (pid : ℕ) (s : Signal) (es : List Signal)
    → TwoDetectors pid (s ∷ es)
    → Another pid s.detector es
TwoDetectors-Another pid s es (a, b, Memᴰ.head e, Memᴰ.head e', x, y, ne) =
    absurd (ne (ap (λ (t : Signal). t.detector) (e ∙ sym e')))
TwoDetectors-Another pid s es (a, b, Memᴰ.head e, Memᴰ.tail m', x, y, ne) =
    (b, m', y, λ h. ne (ap (λ (t : Signal). t.detector) e ∙ sym h))
TwoDetectors-Another pid s es (a, b, Memᴰ.tail m, Memᴰ.head e, x, y, ne) =
    (a, m, x, λ h. ne (h ∙ sym (ap (λ (t : Signal). t.detector) e)))
TwoDetectors-Another pid s es (a, b, Memᴰ.tail m, Memᴰ.tail m', x, y, ne) =
    elim (Bool-cases (same a.detector s.detector)) [
      | inl h ↦ (b, m', y, λ k. ne ((eq_iff a.detector s.detector).0 h ∙ sym k))
      | inr h ↦ (a, m, x, λ k. ground (arith, (eq_iff a.detector s.detector).1 k))
    ]

two_detectors_complete :
    (pid : ℕ) (es : List Signal) → TwoDetectors pid es → two_detectors pid [] es ≡ true
two_detectors_complete pid [] (a, b, m, m', x, y, ne) = elim m [ ]
two_detectors_complete pid (s ∷ es) t = elim (Bool-cases (names_this pid s)) [
  | inl n ↦
      two_detectors-cons_first pid s es
      ∙ ground (arith, loop_complete pid s.detector es (TwoDetectors-Another pid s es t))
  | inr n ↦
      two_detectors-cons_first pid s es
      ∙ ground (arith, two_detectors_complete pid es (TwoDetectors-tail pid s es n t))
]

is_confident_split :
    (os : Os) (pid : ℕ) (sig : Signal) (e : Engine)
    → (is_confident os pid sig e).1 ≡ (
        is_critical sig.severity
        || ((has_encryption_activity os.now (some sig) e).1
            || two_detectors pid []
                (recent_signals os.now 200 (has_encryption_activity os.now (some sig) e).0).1))
unfolding is_confident
is_confident_split os pid sig e = elim (Bool-cases (is_critical sig.severity)) [
  | inl c ↦ rw c refl
  | inr c ↦ elim (Bool-cases (has_encryption_activity os.now (some sig) e).1) [
    | inl a ↦ rw (c, a) refl
    | inr a ↦ rw (c, a) refl
  ]
]

-- The evidence counts as confident exactly when the signal is CRITICAL, or the window holds an
-- encryption signal of an untrusted actor that is not this signal, or two of the last 200 signals
-- name the PID and come from different detectors.
pub is_confident_iff :
    (os : Os) (pid : ℕ) (sig : Signal) (e : Engine)
    → ((is_confident os pid sig e).1 ≡ true) ↔ (
        (is_critical sig.severity ≡ true)
        ⊎ ((s : Signal) × Memᴰ s (evict_old os.now e).signals × IsActivity (some sig) s)
        ⊎ TwoDetectors pid
            (recent_signals os.now 200 (has_encryption_activity os.now (some sig) e).0).1)
is_confident_iff os pid sig e = (
  λ h. elim (Bool-cases (is_critical sig.severity)) [
    | inl c ↦ inl c
    | inr c ↦ elim (Bool-cases (has_encryption_activity os.now (some sig) e).1) [
      | inl a ↦ inr (inl ((has_encryption_activity_iff os.now (some sig) e).0 a))
      | inr a ↦
          inr (inr (two_detectors_sound pid _ (ground (arith, is_confident_split os pid sig e))))
    ]
  ],
  λ h. is_confident_split os pid sig e ∙ elim h [
    | inl c ↦ rw c refl
    | inr k ↦ elim k [
      | inl a ↦ ground (arith, (has_encryption_activity_iff os.now (some sig) e).1 a)
      | inr t ↦ ground (arith, two_detectors_complete pid _ t)
    ]
  ],
)
