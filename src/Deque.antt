-- ===== src/Deque.antt =====
-- The deques of times that mass_io.py, process_watcher.py and incident_report.py keep: a time is added
-- at the right, and old times are dropped from the left.
use xodusmile.Prelude.{
  ℕ, ◌≤◌, ◌≡◌, refl, List, [], ◌∷◌, ◌++◌, arith, ltb, leb, when, if◌then◌else◌, keep,
}

-- `while times and times[0] < cutoff: times.popleft()`
abbrev pub pop_old : ℕ → List ℕ → List ℕ
pop_old cutoff [] = []
pop_old cutoff (t ∷ times) =
    let rest = pop_old cutoff times in if ltb t cutoff then rest else t ∷ times

-- The times stand in order, none before the first bound or after the second.
abbrev pub IsBetween : ℕ → List ℕ → ℕ → Type 0
IsBetween lo [] hi = lo ≤ hi
IsBetween lo (t ∷ ts) hi = (lo ≤ t) × IsBetween t ts hi

pub IsBetween-append :
    (lo : ℕ) (ts : List ℕ) (hi now : ℕ)
    → IsBetween lo ts hi
    → hi ≤ now
    → IsBetween lo (ts ++ now ∷ []) now
IsBetween-append lo [] hi now b h = (omega (arith, b, h), omega arith)
IsBetween-append lo (t ∷ ts) hi now (b, bs) h = (b, IsBetween-append t ts hi now bs h)

pub IsBetween-later :
    (lo : ℕ) (ts : List ℕ) (hi now : ℕ) → IsBetween lo ts hi → hi ≤ now → IsBetween lo ts now
IsBetween-later lo [] hi now b h = omega (arith, b, h)
IsBetween-later lo (t ∷ ts) hi now (b, bs) h = (b, IsBetween-later t ts hi now bs h)

pub IsBetween-earlier :
    (lo lo' : ℕ) (ts : List ℕ) (hi : ℕ) → IsBetween lo ts hi → lo' ≤ lo → IsBetween lo' ts hi
IsBetween-earlier lo lo' [] hi b h = omega (arith, b, h)
IsBetween-earlier lo lo' (t ∷ ts) hi (b, bs) h = (omega (arith, b, h), bs)

pub pop_old-IsBetween :
    (cutoff lo : ℕ) (ts : List ℕ) (hi : ℕ)
    → IsBetween lo ts hi
    → IsBetween lo (pop_old cutoff ts) hi
pop_old-IsBetween cutoff lo [] hi b = b
pop_old-IsBetween cutoff lo (t ∷ ts) hi (b, bs) =
    when (λ x. IsBetween lo x hi) (ltb t cutoff)
      (λ _. pop_old-IsBetween cutoff lo ts hi (IsBetween-earlier t lo ts hi bs b)) (λ _. (b, bs))

pub keep_all :
    (cutoff lo : ℕ) (ts : List ℕ) (hi : ℕ)
    → IsBetween lo ts hi
    → cutoff ≤ lo
    → keep (λ t. leb cutoff t) ts ≡ ts
unfolding keep
keep_all cutoff lo [] hi b h = refl
keep_all cutoff lo (t ∷ ts) hi (b, bs) h =
    ground (arith, keep_all cutoff t ts hi bs (omega (arith, b, h)))

-- On times in order, the loop from the left drops just the old ones.
pub pop_old-keep :
    (cutoff lo : ℕ) (ts : List ℕ) (hi : ℕ)
    → IsBetween lo ts hi
    → pop_old cutoff ts ≡ keep (λ t. leb cutoff t) ts
unfolding keep
pop_old-keep cutoff lo [] hi b = refl
pop_old-keep cutoff lo (t ∷ ts) hi (b, bs) =
    ground (arith, pop_old-keep cutoff t ts hi bs, keep_all cutoff t ts hi bs)
