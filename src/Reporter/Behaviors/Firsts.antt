-- ===== src/Reporter/Behaviors/Firsts.antt =====
-- incident_report.py: the dict of first times of _campaign_behaviors, and its order by time.
use text.Mathlib.TextEquality.{eq_iff}
use xodusmile.Prelude.{
  Bool-cases, List, Option, String, [], ap, arith, false, if◌then◌else◌, inl, inr, insert, leb,
  lookup, lookup-insert, none, refl, same, some, when, ℕ, ◌∙◌, ◌∷◌, ◌≡◌,
}
use xodusmile.Ranking.{place, rank}
use xodusmile.Reporter.Behaviors.{is_earlier, is_first, note_time}

-- The earlier of two times, where there are two.
abbrev pub earlier : Option ℕ → Option ℕ → Option ℕ
earlier none b = b
earlier (some a) none = some a
earlier (some a) (some b) = some (if leb a b then a else b)

pub earlier_assoc : (a b c : Option ℕ) → earlier (earlier a b) c ≡ earlier a (earlier b c)
earlier_assoc none b c = refl
earlier_assoc (some a) none c = refl
earlier_assoc (some a) (some b) none = refl
earlier_assoc (some a) (some b) (some c) = ap some (ground arith)

earlier-is_earlier :
    (ts : ℕ) (old : Option ℕ) → earlier old (some ts) ≡ (if is_earlier ts old then some ts else old)
earlier-is_earlier ts none = refl
earlier-is_earlier ts (some t) = ground arith

pub earlier-none : (a : Option ℕ) → earlier a none ≡ a
earlier-none none = refl
earlier-none (some t) = refl

pub lookup-note_time :
    (name n : String) (ts : ℕ) (d : List (String × ℕ))
    → lookup name (note_time n ts d)
      ≡ earlier (lookup name d) (if same n name then some ts else none)
unfolding note_time
lookup-note_time name n ts d = elim (Bool-cases (same n name)) [
  | inl e ↦
      let q : lookup n d ≡ lookup name d = ap (λ x. lookup x d) ((eq_iff n name).0 e) in
      ground (
        arith,
        e,
        q,
        lookup-insert n name ts d,
        ap (is_earlier ts) q,
        earlier-is_earlier ts (lookup name d),
      )
  | inr e ↦ ground (arith, e, lookup-insert n name ts d, earlier-none (lookup name d))
]

-- No name has two entries.
abbrev pub IsDistinct : List (String × ℕ) → Type 0
IsDistinct [] = Unit
IsDistinct ((n, ts) ∷ d) = (lookup n d ≡ none) × IsDistinct d

insert-IsDistinct :
    (n : String) (ts : ℕ) (d : List (String × ℕ)) → IsDistinct d → IsDistinct (insert n ts d)
unfolding insert lookup
insert-IsDistinct n ts [] h = (refl, tt)
insert-IsDistinct n ts ((j, t) ∷ d) (h, hs) =
    when IsDistinct (same j n) (λ e. (h, hs))
      (λ e. (
        lookup-insert n j ts d ∙ ground (arith, e, h, eq_iff n j, eq_iff j n),
        insert-IsDistinct n ts d hs,
      ))

lookup-place :
    (name n : String) (ts : ℕ) (d : List (String × ℕ))
    → lookup n d ≡ none
    → lookup name (place is_first (n, ts) d) ≡ (if same n name then some ts else lookup name d)
unfolding lookup
lookup-place name n ts [] h = refl
lookup-place name n ts ((j, t) ∷ d) h =
    when (λ d'. lookup name d' ≡ (if same n name then some ts else lookup name ((j, t) ∷ d)))
      (leb ts t) (λ e. refl)
      (λ e.
        let apart : same j n ≡ false = elim (Bool-cases (same j n)) [
          | inl k ↦ ground (arith, h, k)
          | inr k ↦ k
        ] in
        ground (
          arith,
          apart,
          lookup-place name n ts d (ground (arith, h, apart)),
          eq_iff j name,
          eq_iff n name,
          eq_iff j n,
        ))

place-IsDistinct :
    (n : String) (ts : ℕ) (d : List (String × ℕ))
    → lookup n d ≡ none
    → IsDistinct d
    → IsDistinct (place is_first (n, ts) d)
unfolding lookup
place-IsDistinct n ts [] h k = (refl, tt)
place-IsDistinct n ts ((j, t) ∷ d) h (k, ks) =
    when IsDistinct (leb ts t) (λ e. (h, (k, ks)))
      (λ e.
        let apart : same j n ≡ false = elim (Bool-cases (same j n)) [
          | inl q ↦ ground (arith, h, q)
          | inr q ↦ q
        ] in
        let tail : lookup n d ≡ none = ground (arith, h, apart) in
        (
          lookup-place j n ts d tail ∙ ground (arith, k, apart, eq_iff j n, eq_iff n j),
          place-IsDistinct n ts d tail ks,
        ))

pub lookup-rank :
    (name : String) (d : List (String × ℕ))
    → IsDistinct d
    → lookup name (rank is_first d) ≡ lookup name d
unfolding lookup
lookup-rank name [] h = refl
lookup-rank name ((n, ts) ∷ d) (h, hs) =
    lookup-place name n ts (rank is_first d) (lookup-rank n d hs ∙ h)
    ∙ ap (λ o. if same n name then some ts else o) (lookup-rank name d hs)

pub note_time-IsDistinct :
    (n : String) (ts : ℕ) (d : List (String × ℕ)) → IsDistinct d → IsDistinct (note_time n ts d)
unfolding note_time
note_time-IsDistinct n ts d h =
    when IsDistinct (is_earlier ts (lookup n d)) (λ e. insert-IsDistinct n ts d h) (λ e. h)

pub rank-IsDistinct : (d : List (String × ℕ)) → IsDistinct d → IsDistinct (rank is_first d)
rank-IsDistinct [] h = tt
rank-IsDistinct ((n, ts) ∷ d) (h, hs) =
    place-IsDistinct n ts (rank is_first d) (lookup-rank n d hs ∙ h) (rank-IsDistinct d hs)
