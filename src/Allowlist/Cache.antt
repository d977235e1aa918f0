-- ===== src/Allowlist/Cache.antt =====
-- The PID cache of the allowlist never gives a stale answer, whatever is added, removed, loaded or
-- asked, where psutil tells the same name and path of a PID and creation time each time.
use xodusmile.Prelude.{
  ℕ, ◌≤◌, String, ◌≡◌, refl, sym, ap, subst, Bool, true, false, not, ◌||◌, Option, none, some, List,
  [], ◌∷◌, ◌++◌, arith, ◌==◌, if◌then◌else◌, keep, any, length, length-keep-le, Bool-cases,
  Option-cases, inl, inr, strip,
}
use xodusmile.PidCache.{cache_cap, consult_lem, IsSound, IsSound-nil}
use xodusmile.Allowlist.{
  AllowEntry, Allowlist, Item, load, save, same_key, find_key, add, add_normalized, add_entry,
  remove, remove_normalized, remove_entry, normalize, clear, matches, Facts, or_empty, pid_allowed,
  allowed_at, no_entries,
}

-- The name and the path of the process with a PID and a creation time.
abbrev pub Image : Type 0
Image = ℕ → ℕ → String × String

-- psutil reports the image of the process that runs under the PID. An answer that it refuses counts as
-- the empty text, so it is refused for that process always or never.
pub record Reports (image : Image) (facts : Facts) : Type 0 where
  pub name_of :
      (pid time : ℕ)
      → facts.create_time pid ≡ some time
      → or_empty (facts.name pid) ≡ (image pid time).0
  pub exe_of :
      (pid time : ℕ)
      → facts.create_time pid ≡ some time
      → or_empty (facts.exe pid) ≡ (image pid time).1

-- The uncached answer.
abbrev pub verdict : Image → List AllowEntry → ℕ → ℕ → Bool
verdict image entries pid time = matches (image pid time).0 (image pid time).1 entries

abbrev pub IsFresh : Image → Allowlist → Type 0
IsFresh image a = IsSound (verdict image a.entries) a.cache

abbrev at_time : Image → List AllowEntry → ℕ → Option ℕ → Bool
at_time image entries pid none = false
at_time image entries pid (some time) = verdict image entries pid time

-- The specification: the process exists and its image matches an entry.
abbrev pub allowed_spec : Image → Facts → ℕ → List AllowEntry → Bool
allowed_spec image facts pid entries =
    if pid == 0 || not facts.has_psutil
    then false
    else at_time image entries pid (facts.create_time pid)

module _ (image : Image) (facts : Facts) (reports : Reports image facts) where
  allowed_at_lem :
      (pid : ℕ) (a : Allowlist)
      → IsFresh image a
      → ((allowed_at facts pid (facts.create_time pid) a).1
          ≡ at_time image a.entries pid (facts.create_time pid))
        × IsFresh image (allowed_at facts pid (facts.create_time pid) a).0
        × ((allowed_at facts pid (facts.create_time pid) a).0.entries ≡ a.entries)
  allowed_at_lem pid a fresh = elim (Option-cases (facts.create_time pid)) [
    | inl e ↦ rw e (unfold allowed_at in (refl, fresh, refl))
    | inr (time, e) ↦
        let (right, sound) = consult_lem (verdict image a.entries) pid time a.cache fresh in
        rw e (
          unfold allowed_at in
          rw (reports.name_of pid time e, reports.exe_of pid time e) (right, sound, refl))
  ]

  no_entries_allow :
      (pid : ℕ) (time : Option ℕ) (entries : List AllowEntry)
      → no_entries entries ≡ true
      → at_time image entries pid time ≡ false
  unfolding matches any
  no_entries_allow pid none entries h = refl
  no_entries_allow pid (some time) [] h = refl
  no_entries_allow pid (some time) (e ∷ es) h = cc

  pub pid_allowed_lem :
      (pid : ℕ) (a : Allowlist)
      → IsFresh image a
      → ((pid_allowed facts pid a).1 ≡ allowed_spec image facts pid a.entries)
        × IsFresh image (pid_allowed facts pid a).0
  unfolding pid_allowed
  pid_allowed_lem pid a fresh = elim (Bool-cases (pid == 0 || not facts.has_psutil)) [
    | inl blind ↦ rw blind (refl, fresh)
    | inr can ↦ elim (Bool-cases (no_entries a.entries)) [
      | inl empty ↦
          rw (can, empty)
            (sym (no_entries_allow pid (facts.create_time pid) a.entries empty), fresh)
      | inr some_entries ↦
          let (right, sound, same_entries) = allowed_at_lem pid a fresh in
          rw (can, some_entries) (right, sound)
    ]
  ]

-- What can happen to the list. Whether a save succeeds, and what psutil answers, is chosen anew.
pub data Step (image : Image) : Allowlist → Allowlist → Type 0 where
  added :
      (writable : Bool) (now : ℕ) (value kind note : String) (a : Allowlist)
      → Step image a (add writable now value kind note a).0
  removed :
      (writable : Bool) (now : ℕ) (value kind : String) (a : Allowlist)
      → Step image a (remove writable now value kind a).0
  cleared : (writable : Bool) (a : Allowlist) → Step image a (clear writable a)
  loaded : (items : Option (List Item)) (a : Allowlist) → Step image a (load items a)
  asked :
      (facts : Facts)
      → Reports image facts
      → (pid : ℕ) (a : Allowlist) → Step image a (pid_allowed facts pid a).0

pub data Reach (image : Image) (a : Allowlist) : Allowlist → Type 0 where
  here : Reach image a a
  next : {b c : Allowlist} → Reach image a b → Step image b c → Reach image a c

save-IsFresh :
    (image : Image) (writable : Bool) (es : List AllowEntry) (a : Allowlist)
    → IsFresh image (save writable (record a { entries = es; cache = [] }))
unfolding save
save-IsFresh image true es a = IsSound-nil (verdict image es)
save-IsFresh image false es a = IsSound-nil (verdict image es)

keep_same :
    (f : AllowEntry → Bool) (es : List AllowEntry) → length (keep f es) ≡ length es → keep f es ≡ es
unfolding keep
keep_same f [] h = refl
keep_same f (e ∷ es) h = elim (Bool-cases (f e)) [
  | inl k ↦
      let h' : length (e ∷ keep f es) ≡ length (e ∷ es) = rw k at h in
      rw k (ap (◌∷◌ e) (keep_same f es (omega arith)))
  | inr k ↦
      let h' : length (keep f es) ≡ length (e ∷ es) = rw k at h in
      absurd (omega (arith, length-keep-le f es))
]

remove_entry-IsFresh :
    (image : Image) (writable : Bool) (target : AllowEntry) (a : Allowlist)
    → IsFresh image a
    → IsFresh image (remove_entry writable target a).0
unfolding remove_entry
remove_entry-IsFresh image writable target a fresh =
    let kept = keep (λ e. not (same_key e target)) a.entries in
    elim (Bool-cases (length kept == length a.entries)) [
      | inl none_left ↦ rw none_left (
          subst (λ es. IsSound (verdict image es) a.cache)
            (sym (keep_same (λ e. not (same_key e target)) a.entries (ground arith))) fresh)
      | inr some_left ↦ rw some_left (save-IsFresh image writable kept a)
    ]

add_entry-IsFresh :
    (image : Image) (writable : Bool) (entry : AllowEntry) (found : Option AllowEntry)
    (a : Allowlist)
    → IsFresh image a
    → IsFresh image (add_entry writable entry found a).0
unfolding add_entry
add_entry-IsFresh image writable entry (some old) a fresh = fresh
add_entry-IsFresh image writable entry none a fresh =
    save-IsFresh image writable (a.entries ++ entry ∷ []) a

add_normalized-IsFresh :
    (image : Image) (writable : Bool) (note : String) (e : Option AllowEntry) (a : Allowlist)
    → IsFresh image a
    → IsFresh image (add_normalized writable note e a).0
unfolding add_normalized
add_normalized-IsFresh image writable note none a fresh = fresh
add_normalized-IsFresh image writable note (some e) a fresh =
    let entry : AllowEntry = record e { note = strip note } in
    add_entry-IsFresh image writable entry (find_key entry a.entries) a fresh

remove_normalized-IsFresh :
    (image : Image) (writable : Bool) (e : Option AllowEntry) (a : Allowlist)
    → IsFresh image a
    → IsFresh image (remove_normalized writable e a).0
unfolding remove_normalized
remove_normalized-IsFresh image writable none a fresh = fresh
remove_normalized-IsFresh image writable (some e) a fresh =
    remove_entry-IsFresh image writable e a fresh

load-IsFresh :
    (image : Image) (items : Option (List Item)) (a : Allowlist)
    → IsFresh image a
    → IsFresh image (load items a)
unfolding load
load-IsFresh image none a fresh = fresh
load-IsFresh image (some items) a fresh = IsSound-nil _

Step-IsFresh :
    {image : Image} {a b : Allowlist} → Step image a b → IsFresh image a → IsFresh image b
unfolding add remove clear
Step-IsFresh {image} (added writable now value kind note a) fresh =
    add_normalized-IsFresh image writable note (normalize now kind value) a fresh
Step-IsFresh {image} (removed writable now value kind a) fresh =
    remove_normalized-IsFresh image writable (normalize now kind value) a fresh
Step-IsFresh {image} (cleared writable a) fresh = save-IsFresh image writable [] a
Step-IsFresh {image} (loaded items a) fresh = load-IsFresh image items a fresh
Step-IsFresh {image} (asked facts reports pid a) fresh =
    (pid_allowed_lem image facts reports pid a fresh).1

Reach-IsFresh :
    {image : Image} {a b : Allowlist} → Reach image a b → IsFresh image a → IsFresh image b
Reach-IsFresh here fresh = fresh
Reach-IsFresh (next reach step) fresh = Step-IsFresh step (Reach-IsFresh reach fresh)

-- Where psutil gives one name and one path of a PID with its creation time at every question, a refused
-- name or path (the empty text) included, so that no refusal is passing: after any sequence of changes and
-- questions, from a list with an empty cache, `pid_allowed` answers what an uncached check of the current
-- entries against that name and path would, namely whether the process exists and an entry matches it. The
-- cache stays bounded by its cap.
pub pid_allowed-Reach :
    (image : Image) (a b : Allowlist) (facts : Facts) (pid : ℕ)
    → a.cache ≡ []
    → Reach image a b
    → Reports image facts
    → ((pid_allowed facts pid b).1 ≡ allowed_spec image facts pid b.entries)
      × (length (pid_allowed facts pid b).0.cache ≤ cache_cap)
pid_allowed-Reach image a b facts pid empty reach reports =
    let start : IsFresh image a =
      subst (IsSound (verdict image a.entries)) (sym empty)
        (IsSound-nil (verdict image a.entries)) in
    let (right, sound) = pid_allowed_lem image facts reports pid b (Reach-IsFresh reach start) in
    (right, sound.bounded)
