-- ===== src/ActorTrust.antt =====
-- actor_trust.py: which processes count as trusted system components, and for which signals. Its
-- state is the module's cache; what psutil answers is an argument.
pub mod Laws
mod Tests
use xodusmile.Prelude.{
  ℕ, String, ◌≡◌, Bool, true, false, not, ◌&&◌, ◌||◌, Option, none, some, List, [], ◌∷◌, ◌++◌, ◌==◌,
  if◌then◌else◌, elem, lower, contains, basename,
}
use xodusmile.Signal.{Signal, pid_of}
use xodusmile.Scoring.{encryption_signal_names}
use xodusmile.PidCache.{PidCache, consult}

-- TRUST_NONE, TRUST_REGISTRY_ONLY, TRUST_FULL
pub data Tier : Type 0 where
  untrusted registry_only full : Tier

abbrev pub full_trust_names : List String
full_trust_names =
    "msmpeng.exe" ∷ "mpdefendercoreservice.exe" ∷ "nissrv.exe" ∷ "securityhealthservice.exe"
    ∷ "smartscreen.exe" ∷ "mssense.exe" ∷ "senseir.exe" ∷ "sensecncproxy.exe" ∷ "sensendr.exe"
    ∷ "sensetvm.exe" ∷ "trustedinstaller.exe" ∷ "tiworker.exe" ∷ "dism.exe" ∷ "wmiadap.exe"
    ∷ "wmiprvse.exe" ∷ "unsecapp.exe" ∷ "lodctr.exe" ∷ "winmgmt.exe" ∷ []

abbrev pub registry_trust_names : List String
registry_trust_names = "svchost.exe" ∷ "mpcmdrun.exe" ∷ "mofcomp.exe" ∷ []

abbrev pub defender_actor_names : List String
defender_actor_names =
    "msmpeng.exe" ∷ "mpdefendercoreservice.exe" ∷ "nissrv.exe" ∷ "mpcmdrun.exe"
    ∷ "securityhealthservice.exe" ∷ "mssense.exe" ∷ "senseir.exe" ∷ "sensecncproxy.exe"
    ∷ "sensendr.exe" ∷ "sensetvm.exe" ∷ []

abbrev pub trusted_roots : List String
trusted_roots =
    "\\windows\\system32\\" ∷ "\\windows\\syswow64\\" ∷ "\\windows\\servicing\\"
    ∷ "\\windows\\winsxs\\" ∷ "\\program files\\windows defender"
    ∷ "\\program files (x86)\\windows defender" ∷ "\\programdata\\microsoft\\windows defender\\"
    ∷ []

-- `any(root in path_lower for root in roots)`
unfoldable pub contains_any : List String → String → Bool
contains_any [] path = false
contains_any (root ∷ roots) path = contains path root || contains_any roots path

-- What psutil answers; no path where `exe()` raises.
pub record Facts : Type 0 where
  pub has_psutil : Bool
  pub create_time : ℕ → Option ℕ
  pub exe : ℕ → Option String

-- The part of `_resolve` behind the cache: the tier, and whether it is Defender.
unfoldable pub classify : Option String → Tier × Bool
classify none = (untrusted, false)
classify (some exe) =
    let path_lower = lower exe in
    let base = basename path_lower in
    let under_root = contains_any trusted_roots path_lower in
    (
      if not under_root
          then untrusted
          else if elem base full_trust_names
          then full
          else if elem base registry_trust_names
          then registry_only
          else untrusted,
      under_root && elem base defender_actor_names,
    )

abbrev pub Cache : Type 0
Cache = PidCache (Tier × Bool)

resolve_at : Facts → ℕ → Option ℕ → Cache → Cache × Tier × Bool
resolve_at facts pid none cache = (cache, untrusted, false)
resolve_at facts pid (some time) cache =
    let (cache', answer) = consult pid time (classify (facts.exe pid)) cache in
    (cache', answer.0, answer.1)

-- `_resolve`, with the cache that it leaves.
unfoldable pub resolve : Facts → ℕ → Cache → Cache × Tier × Bool
unfolding resolve_at
resolve facts pid cache =
    if not facts.has_psutil || pid == 0
    then (cache, untrusted, false)
    else resolve_at facts pid (facts.create_time pid) cache

abbrev pub is_untrusted : Tier → Bool
is_untrusted untrusted = true
is_untrusted _ = false

-- `is_trusted_system_actor`
unfoldable pub is_trusted_system_actor : Facts → ℕ → Cache → Cache × Bool
is_trusted_system_actor facts pid cache =
    let (cache', tier, defender) = resolve facts pid cache in (cache', not (is_untrusted tier))

-- `is_trusted_defender_actor`
unfoldable pub is_trusted_defender_actor : Facts → ℕ → Cache → Cache × Bool
is_trusted_defender_actor facts pid cache =
    let (cache', tier, defender) = resolve facts pid cache in (cache', defender)

abbrev pub file_activity_signals : List String
file_activity_signals = "file_delete" ∷ encryption_signal_names

abbrev pub never_actor_exempt : List String
never_actor_exempt = "defender_self_disable" ∷ []

unfoldable pub exempts : Tier → String → Bool
exempts full name = true
exempts registry_only name = not (elem name file_activity_signals)
exempts untrusted name = false

actor_trusted_at : Facts → Signal → Option ℕ → Cache → Cache × Bool
actor_trusted_at facts sig none cache = (cache, false)
actor_trusted_at facts sig (some pid) cache =
    let (cache', tier, defender) = resolve facts pid cache in (cache', exempts tier sig.name)

-- `signal_actor_trusted`, the classifier that the agent gives to the engine.
unfoldable pub signal_actor_trusted : Facts → Signal → Cache → Cache × Bool
unfolding actor_trusted_at
signal_actor_trusted facts sig cache =
    if elem sig.name never_actor_exempt
    then (cache, false)
    else actor_trusted_at facts sig (pid_of sig) cache
