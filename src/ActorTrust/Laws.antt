-- ===== src/ActorTrust/Laws.antt =====
-- What the classifier answers, cached or not, and what its path test accepts.
use Prim.Native.String.{◌++◌}
use xodusmile.Prelude.{
  ℕ, String, ◌≡◌, refl, sym, ap, subst, Bool, true, false, not, ◌&&◌, ◌||◌, List, [], ◌∷◌, ◌∙◌, any,
  Option, none, some, ◌==◌, if◌then◌else◌, elem, lower, contains, contains-append, basename,
  Bool-cases, Option-cases, inl, inr,
}
use xodusmile.Signal.{Signal, pid_of}
use xodusmile.PidCache.{IsSound, consult_lem}
use xodusmile.ActorTrust.{
  Tier, untrusted, full, Facts, Cache, classify, resolve, resolve_at, exempts, signal_actor_trusted,
  actor_trusted_at, contains_any, full_trust_names, registry_trust_names, trusted_roots,
  file_activity_signals, never_actor_exempt,
}

-- The path of the process with a PID and a creation time, as psutil reports it, or nothing.
abbrev pub Image : Type 0
Image = ℕ → ℕ → Option String

abbrev pub Reports : Image → Facts → Type 0
Reports image facts =
    (pid time : ℕ) → facts.create_time pid ≡ some time → facts.exe pid ≡ image pid time

abbrev pub IsFresh : Image → Cache → Type 0
IsFresh image cache = IsSound (λ pid time. classify (image pid time)) cache

abbrev at_time : Image → ℕ → Option ℕ → Tier × Bool
at_time image pid none = (untrusted, false)
at_time image pid (some time) = classify (image pid time)

-- The classification without a cache.
abbrev pub resolved : Image → Facts → ℕ → Tier × Bool
resolved image facts pid =
    if not facts.has_psutil || pid == 0
    then (untrusted, false)
    else at_time image pid (facts.create_time pid)

module _ (image : Image) (facts : Facts) (reports : Reports image facts) where
  resolve_at_lem :
      (pid : ℕ) (cache : Cache)
      → IsFresh image cache
      → ((resolve_at facts pid (facts.create_time pid) cache).1
          ≡ (at_time image pid (facts.create_time pid)).0)
        × ((resolve_at facts pid (facts.create_time pid) cache).2
            ≡ (at_time image pid (facts.create_time pid)).1)
        × IsFresh image (resolve_at facts pid (facts.create_time pid) cache).0
  unfolding resolve_at
  resolve_at_lem pid cache fresh = elim (Option-cases (facts.create_time pid)) [
    | inl e ↦ rw (e, resolve_at) (refl, refl, fresh)
    | inr (time, e) ↦
        let (right, sound) = consult_lem (λ p t. classify (image p t)) pid time cache fresh in
        rw (e, resolve_at, reports pid time e)
          (ap (λ (x : Tier × Bool). x.0) right, ap (λ (x : Tier × Bool). x.1) right, sound)
  ]

  pub resolve_lem :
      (pid : ℕ) (cache : Cache)
      → IsFresh image cache
      → ((resolve facts pid cache).1 ≡ (resolved image facts pid).0)
        × ((resolve facts pid cache).2 ≡ (resolved image facts pid).1)
        × IsFresh image (resolve facts pid cache).0
  unfolding resolve
  resolve_lem pid cache fresh = elim (Bool-cases (not facts.has_psutil || pid == 0)) [
    | inl blind ↦ rw blind (refl, refl, fresh)
    | inr can ↦ rw can (resolve_at_lem pid cache fresh)
  ]

-- The path that psutil tells of a signal's process, where it tells one.
abbrev pub path_at : Image → ℕ → Option ℕ → Option String
path_at image pid none = none
path_at image pid (some time) = image pid time

abbrev pub path_of : Image → Facts → Option ℕ → Option String
path_of image facts none = none
path_of image facts (some pid) =
    if not facts.has_psutil || pid == 0 then none else path_at image pid (facts.create_time pid)

-- The specification: the path holds a trusted root, and the program's name is one of the fully trusted,
-- or one of those trusted for the registry while the signal is of no file activity.
abbrev pub is_exempt : Option String → String → Bool
is_exempt none name = false
is_exempt (some exe) name =
    any (contains (lower exe)) trusted_roots
    && (elem (basename (lower exe)) full_trust_names
        || elem (basename (lower exe)) registry_trust_names
          && not (elem name file_activity_signals))

contains_any-eq-any :
    (roots : List String) (path : String) → contains_any roots path ≡ any (contains path) roots
unfolding contains_any any
contains_any-eq-any [] path = refl
contains_any-eq-any (root ∷ roots) path =
    ap (λ b. contains path root || b) (contains_any-eq-any roots path)

exempts-classify :
    (exe : Option String) (name : String) → exempts (classify exe).0 name ≡ is_exempt exe name
unfolding classify
exempts-classify none name = unfold exempts in refl
exempts-classify (some exe) name =
    let path = lower exe in
    let base = basename path in
    let roots = contains_any-eq-any trusted_roots path in
    elim (Bool-cases (contains_any trusted_roots path)) [
      | inl under ↦ elim (Bool-cases (elem base full_trust_names)) [
        | inl f ↦ rw (under, f, sym roots, under) (unfold exempts in refl)
        | inr not_f ↦ elim (Bool-cases (elem base registry_trust_names)) [
          | inl r ↦ rw (sym roots, under, not_f, r) (unfold exempts in refl)
          | inr not_r ↦ rw (sym roots, under, not_f, not_r) (unfold exempts in refl)
        ]
      ]
      | inr outside ↦ rw (sym roots, outside) (unfold exempts in refl)
    ]

resolved_path :
    (image : Image) (facts : Facts) (pid : ℕ)
    → (resolved image facts pid).0 ≡ (classify (path_of image facts (some pid))).0
resolved_path image facts pid = elim (Bool-cases (not facts.has_psutil || pid == 0)) [
  | inl blind ↦ rw blind (unfold classify in refl)
  | inr can ↦ rw can (elim (Option-cases (facts.create_time pid)) [
    | inl e ↦ rw e (unfold classify in refl)
    | inr (time, e) ↦ rw e refl
  ])
]

-- Where psutil gives one path of a PID with its creation time at every question, a refused path included,
-- so that no refusal is passing: the classifier, with any cache of earlier answers, exempts a signal just
-- when it is not one that no actor is exempt from, it names a PID whose path is known, the path holds a
-- trusted root, and the program's name is fully trusted, or trusted for the registry while the signal is
-- of no file activity. The cache stays one of such answers and bounded.
pub signal_actor_trusted_lem :
    (image : Image) (facts : Facts) (sig : Signal) (cache : Cache)
    → Reports image facts
    → IsFresh image cache
    → ((signal_actor_trusted facts sig cache).1 ≡ (
        not (elem sig.name never_actor_exempt)
        && is_exempt (path_of image facts (pid_of sig)) sig.name))
      × IsFresh image (signal_actor_trusted facts sig cache).0
unfolding signal_actor_trusted
signal_actor_trusted_lem image facts sig cache reports fresh =
    elim (Bool-cases (elem sig.name never_actor_exempt)) [
      | inl never ↦ rw never (refl, fresh)
      | inr may ↦ rw may (elim (Option-cases (pid_of sig)) [
        | inl e ↦ rw e (unfold actor_trusted_at in (refl, fresh))
        | inr (pid, e) ↦
            let (tier, defender, sound) = resolve_lem image facts reports pid cache fresh in
            let exempt =
              ap (λ t. exempts t sig.name) (tier ∙ resolved_path image facts pid)
              ∙ exempts-classify (path_of image facts (some pid)) sig.name in
            rw e (unfold actor_trusted_at in (exempt, sound))
      ])
    ]

-- A path that holds the text of a trusted root anywhere, not only at its beginning, and ends in the
-- name of a fully trusted program, is fully trusted: the folder may be anyone's.
pub classify_embedded :
    (folder rest exe : String)
    → lower exe ≡ folder ++ ("\\windows\\system32\\" ++ rest)
    → elem (basename (lower exe)) full_trust_names ≡ true
    → (classify (some exe)).0 ≡ full
unfolding classify contains_any
classify_embedded folder rest exe e name =
    let inside : contains (lower exe) "\\windows\\system32\\" ≡ true =
      subst (λ x. contains x "\\windows\\system32\\" ≡ true) (sym e)
        (contains-append folder "\\windows\\system32\\" rest) in
    rw (inside, name) refl
