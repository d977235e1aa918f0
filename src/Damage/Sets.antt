-- ===== src/Damage/Sets.antt =====
-- Which paths the reporter's tally holds.
use xodusmile.Prelude.{
  ◌≡◌, refl, sym, ap, ◌∙◌, String, Bool, true, false, not, ◌&&◌, ◌||◌, Option, none, some, List, [],
  ◌∷◌, ◌++◌, arith, same, elem, any, when, Bool-cases, inl, inr, lookup, is_empty,
}
use package.text.Mathlib.TextEquality.{eq_iff}
use xodusmile.Signal.{Signal, Metadata, Value, text, int, flag, real, texts}
use xodusmile.Damage.{
  Damage, damage_encrypt, damage_rename, damage_delete, path_keys, path_text, paths_at, sig_paths,
  add_path, add_paths, note_encryption, note_rename, note_deletion, note_signal, note_signals,
  no_damage, summarize_damage,
}

elem-any : (p : String) (set : List String) → elem p set ≡ any (same p) set
unfolding elem any
elem-any p [] = refl
elem-any p (x ∷ set) = ap (λ b. same p x || b) (elem-any p set)

pub any-elem :
    (f : String → Bool) (q : String) (set : List String)
    → elem q set ≡ true
    → (f q || any f set) ≡ any f set
unfolding elem any
any-elem f q [] h = ground (arith, h)
any-elem f q (x ∷ set) h = elim (Bool-cases (same q x)) [
  | inl here ↦ ground (arith, ap f ((eq_iff q x).0 here))
  | inr there ↦ ground (arith, h, there, any-elem f q set)
]

pub any-add_path :
    (f : String → Bool) (q : String) (set : List String)
    → any f (add_path q set) ≡ (f q || any f set)
unfolding add_path any
any-add_path f q set = ground (arith, any-elem f q set)

pub elem-add_path :
    (p q : String) (set : List String) → elem p (add_path q set) ≡ (same p q || elem p set)
elem-add_path p q set =
    elem-any p (add_path q set)
    ∙ any-add_path (same p) q set
    ∙ ap (λ b. same p q || b) (sym (elem-any p set))

pub same_comm : (p q : String) → same p q ≡ same q p
same_comm p q = ground (arith, eq_iff p q, eq_iff q p)

abbrev pub Sets : (encrypted renamed deleted : List String) → Damage → Type 0
Sets encrypted renamed deleted d =
    (d.encrypted ≡ encrypted) × (d.renamed ≡ renamed) × (d.deleted ≡ deleted)

-- The bursts and the canary do not touch the sets.
pub note_encryption-Sets :
    (s : Signal) (d : Damage)
    → Sets (add_paths (sig_paths s) d.encrypted) d.renamed d.deleted (note_encryption s d)
unfolding note_encryption
note_encryption-Sets s d =
    let P = Sets (add_paths (sig_paths s) d.encrypted) d.renamed d.deleted in
    when P (same s.name "modify_burst") (λ _. (refl, refl, refl))
      (λ _.
        when P (same s.name "kernel_write_burst") (λ _. (refl, refl, refl))
          (λ _.
            when P (same s.name "canary_modified") (λ _. (refl, refl, refl))
              (λ _. (refl, refl, refl))))

pub note_rename-Sets :
    (s : Signal) (d : Damage)
    → Sets d.encrypted (add_paths (sig_paths s) d.renamed) d.deleted (note_rename s d)
unfolding note_rename
note_rename-Sets s d =
    when (Sets d.encrypted (add_paths (sig_paths s) d.renamed) d.deleted)
      (same s.name "kernel_rename_burst") (λ _. (refl, refl, refl)) (λ _. (refl, refl, refl))

pub note_deletion-Sets :
    (s : Signal) (d : Damage)
    → Sets d.encrypted d.renamed (add_paths (sig_paths s) d.deleted) (note_deletion s d)
unfolding note_deletion
note_deletion-Sets s d =
    when (Sets d.encrypted d.renamed (add_paths (sig_paths s) d.deleted))
      (same s.name "canary_deleted") (λ _. (refl, refl, refl)) (λ _. (refl, refl, refl))

-- The path is the text under the key, and not empty.
abbrev pub is_text : String → Option Value → Bool
is_text p (some (text q)) = not (is_empty q) && same p q
is_text p _ = false

-- The signal names the path under one of the seven keys.
abbrev pub names_path : String → Signal → Bool
names_path p s = any (λ k. is_text p (lookup k s.metadata)) path_keys

elem-append : (p : String) (a b : List String) → elem p (a ++ b) ≡ (elem p a || elem p b)
unfolding elem
elem-append p [] b = refl
elem-append p (x ∷ a) b = ground (arith, elem-append p a b)

elem-path_text : (p : String) (v : Option Value) → elem p (path_text v) ≡ is_text p v
unfolding elem
elem-path_text p none = refl
elem-path_text p (some (text q)) = ground arith
elem-path_text p (some (int n)) = refl
elem-path_text p (some (flag b)) = refl
elem-path_text p (some (real x)) = refl
elem-path_text p (some (texts ts)) = refl

elem-paths_at :
    (p : String) (keys : List String) (meta : Metadata)
    → elem p (paths_at keys meta) ≡ any (λ k. is_text p (lookup k meta)) keys
unfolding paths_at any elem
elem-paths_at p [] meta = refl
elem-paths_at p (k ∷ keys) meta = ground (
  arith,
  elem-append p (path_text (lookup k meta)) (paths_at keys meta),
  elem-path_text p (lookup k meta),
  elem-paths_at p keys meta,
)

elem-sig_paths : (p : String) (s : Signal) → elem p (sig_paths s) ≡ names_path p s
unfolding sig_paths
elem-sig_paths p s = elem-paths_at p path_keys s.metadata

elem-add_paths :
    (p : String) (paths set : List String)
    → elem p (add_paths paths set) ≡ (elem p paths || elem p set)
unfolding add_paths elem
elem-add_paths p [] set = refl
elem-add_paths p (q ∷ paths) set =
    ground (arith, elem-add_paths p paths (add_path q set), elem-add_path p q set)

elem-add_signal :
    (p : String) (s : Signal) (set : List String)
    → elem p (add_paths (sig_paths s) set) ≡ (names_path p s || elem p set)
elem-add_signal p s set =
    elem-add_paths p (sig_paths s) set ∙ ap (λ b. b || elem p set) (elem-sig_paths p s)

-- The signal is of an encryption that names the path; of a renaming; of a deletion.
abbrev pub encrypts : String → Signal → Bool
encrypts p s = elem s.name damage_encrypt && names_path p s

abbrev pub renames : String → Signal → Bool
renames p s = not (elem s.name damage_encrypt) && elem s.name damage_rename && names_path p s

abbrev pub deletes : String → Signal → Bool
deletes p s =
    not (elem s.name damage_encrypt || elem s.name damage_rename)
    && elem s.name damage_delete
    && names_path p s

-- The sets hold what they held before, and the paths of the signals of their kind.
abbrev Holds : String → (encrypted renamed deleted : Bool) → Damage → Damage → Type 0
Holds p e r x d d' =
    (elem p d'.encrypted ≡ (e || elem p d.encrypted))
    × (elem p d'.renamed ≡ (r || elem p d.renamed))
    × (elem p d'.deleted ≡ (x || elem p d.deleted))

note_signal-Holds :
    (p : String) (s : Signal) (d : Damage)
    → Holds p (encrypts p s) (renames p s) (deletes p s) d (note_signal s d)
unfolding note_signal
note_signal-Holds p s d = elim (Bool-cases (elem s.name damage_encrypt)) [
  | inl e ↦
      let (a, b, c) = note_encryption-Sets s d in
      simp e (ap (elem p) a ∙ elem-add_signal p s d.encrypted, ap (elem p) b, ap (elem p) c)
  | inr not_e ↦ elim (Bool-cases (elem s.name damage_rename)) [
    | inl r ↦
        let (a, b, c) = note_rename-Sets s d in
        simp (not_e, r)
          (ap (elem p) a, ap (elem p) b ∙ elem-add_signal p s d.renamed, ap (elem p) c)
    | inr not_r ↦ elim (Bool-cases (elem s.name damage_delete)) [
      | inl x ↦
          let (a, b, c) = note_deletion-Sets s d in
          simp (not_e, not_r, x)
            (ap (elem p) a, ap (elem p) b, ap (elem p) c ∙ elem-add_signal p s d.deleted)
      | inr not_x ↦ simp (not_e, not_r, not_x) (refl, refl, refl)
    ]
  ]
]

or_swap : (x y z : Bool) → (x || (y || z)) ≡ ((y || x) || z)
or_swap x y z = ground arith

note_signals-Holds :
    (p : String) (signals : List Signal) (d : Damage)
    → Holds p
        (any (encrypts p) signals)
        (any (renames p) signals)
        (any (deletes p) signals)
        d
        (note_signals signals d)
unfolding any
note_signals-Holds p [] d = (refl, refl, refl)
note_signals-Holds p (s ∷ signals) d =
    let (a, b, c) = note_signal-Holds p s d in
    let (a', b', c') = note_signals-Holds p signals (note_signal s d) in
    (
      a'
          ∙ ap (λ h. any (encrypts p) signals || h) a
          ∙ or_swap (any (encrypts p) signals) (encrypts p s) (elem p d.encrypted),
      b'
          ∙ ap (λ h. any (renames p) signals || h) b
          ∙ or_swap (any (renames p) signals) (renames p s) (elem p d.renamed),
      c'
          ∙ ap (λ h. any (deletes p) signals || h) c
          ∙ or_swap (any (deletes p) signals) (deletes p s) (elem p d.deleted),
    )

-- Each set of the tally holds just the paths that some signal of its kind names.
pub record IsTally (signals : List Signal) (d : Damage) : Type 0 where
  pub of_encryptions : (p : String) → elem p d.encrypted ≡ any (encrypts p) signals
  pub of_renamings : (p : String) → elem p d.renamed ≡ any (renames p) signals
  pub of_deletions : (p : String) → elem p d.deleted ≡ any (deletes p) signals

pub summarize_damage-IsTally : (signals : List Signal) → IsTally signals (summarize_damage signals)
unfolding summarize_damage elem
summarize_damage-IsTally signals = record {
  of_encryptions = λ p. ground (arith, (note_signals-Holds p signals no_damage).0);
  of_renamings = λ p. ground (arith, (note_signals-Holds p signals no_damage).1);
  of_deletions = λ p. ground (arith, (note_signals-Holds p signals no_damage).2);
}
