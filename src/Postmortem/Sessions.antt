-- ===== src/Postmortem/Sessions.antt =====
-- The two ways to find the last session agree.
use xodusmile.Prelude.{
  ℕ, suc, ◌+◌, ◌≡◌, refl, sym, ap, ◌∙◌, List, [], ◌∷◌, ◌++◌, arith, if◌then◌else◌, length,
  length-append, drop,
}
use xodusmile.Postmortem.{
  Logged, is_break, last_break, isolate_last_session, backwards, cut_at, cut_of, last_session,
  end_of,
}

-- Where the forward loop starts the session.
abbrev start_of : List Logged → ℕ
start_of [] = 0
start_of (s ∷ signals) = last_break s 1 0 signals

last_break-append :
    (before y : Logged) (i start : ℕ) (xs : List Logged)
    → last_break before i start (xs ++ y ∷ [])
      ≡ (if is_break (end_of before xs) y then i + length xs else last_break before i start xs)
unfolding last_break
last_break-append before y i start [] = ground arith
last_break-append before y i start (x ∷ xs) =
    last_break-append x y (i + 1) (if is_break before x then i else start) xs ∙ ground arith

end_of-append : (s b : Logged) (xs : List Logged) → end_of s (xs ++ b ∷ []) ≡ b
end_of-append s b [] = refl
end_of-append s b (x ∷ xs) = end_of-append x b xs

start_of-append :
    (b s : Logged) (ys : List Logged)
    → start_of ((ys ++ b ∷ []) ++ s ∷ [])
      ≡ (if is_break b s then suc (length ys) else start_of (ys ++ b ∷ []))
unfolding last_break
start_of-append b s [] = refl
start_of-append b s (y ∷ ys) =
    last_break-append y s 1 0 (ys ++ b ∷ [])
    ∙ ap (λ x. if is_break x s then 1 + length (ys ++ b ∷ []) else last_break y 1 0 (ys ++ b ∷ []))
        (end_of-append y b ys)
    ∙ ground (arith, length-append ys (b ∷ []))

length-backwards : (xs : List Logged) → length (backwards xs) ≡ length xs
length-backwards [] = refl
length-backwards (x ∷ xs) =
    omega (arith, length-append (backwards xs) (x ∷ []), length-backwards xs)

-- The backward loop finds where the forward loop starts.
cut_of-start_of : (r : List Logged) → cut_of r ≡ start_of (backwards r)
unfolding cut_at last_break
cut_of-start_of [] = refl
cut_of-start_of (s ∷ []) = refl
cut_of-start_of (s ∷ b ∷ earlier) = ground (
  arith,
  cut_of-start_of (b ∷ earlier),
  start_of-append b s (backwards earlier),
  length-backwards earlier,
)

backwards-append : (y : Logged) (xs : List Logged) → backwards (xs ++ y ∷ []) ≡ y ∷ backwards xs
backwards-append y [] = refl
backwards-append y (x ∷ xs) = ap (λ zs. zs ++ x ∷ []) (backwards-append y xs)

backwards-backwards : (xs : List Logged) → backwards (backwards xs) ≡ xs
backwards-backwards [] = refl
backwards-backwards (x ∷ xs) =
    backwards-append x (backwards xs) ∙ ap (λ zs. x ∷ zs) (backwards-backwards xs)

isolate-start_of :
    (signals : List Logged) → isolate_last_session signals ≡ drop (start_of signals) signals
unfolding isolate_last_session
isolate-start_of [] = refl
isolate-start_of (s ∷ signals) = refl

-- Of any signals, the session that postmortem.py isolates, in a loop from the first signal, is the one that
-- scan_damage.py cuts off in a loop from the last.
pub isolate_last_session-eq-last_session :
    (signals : List Logged) → isolate_last_session signals ≡ last_session signals
unfolding last_session
isolate_last_session-eq-last_session signals =
    isolate-start_of signals
    ∙ ap (λ n. drop n signals)
        (sym (cut_of-start_of (backwards signals) ∙ ap start_of (backwards-backwards signals)))
