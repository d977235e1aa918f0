-- ===== src/ActorTrust/Tests.antt =====
-- The classifier's theorems at concrete inputs.
use Prim.Native.String.{◌++◌}
use xodusmile.Prelude.{
  String, ◌≡◌, refl, true, false, not, ◌&&◌, some, [], ◌∷◌, elem, lower, contains, begins_with,
  basename, has_separator, is_empty, lookup,
}
use xodusmile.Signal.{Signal, high, int, pos, pid_of, positive_int, first_positive}
use xodusmile.PidCache.{consult, store, put, get, hit, IsSound-nil}
use xodusmile.ActorTrust.{
  Facts, classify, contains_any, resolve, exempts, signal_actor_trusted, full_trust_names,
  never_actor_exempt,
}
use xodusmile.ActorTrust.Laws.{
  Image, Reports, IsFresh, is_exempt, path_of, signal_actor_trusted_lem,
}

program : Unit {0}
unfolding classify contains_any resolve exempts signal_actor_trusted elem lower contains begins_with
    basename lookup has_separator is_empty consult store put get hit pid_of positive_int
    first_positive
program = tt

abbrev image : Image
image pid time = some "C:\\Windows\\System32\\svchost.exe"

abbrev facts : Facts
facts = record {
  has_psutil = true;
  create_time = λ pid. some 7;
  exe = λ pid. some "C:\\Windows\\System32\\svchost.exe";
}

facts-Reports : Reports image facts
facts-Reports pid time e = refl

abbrev signal : String → Signal
signal name = record {
  ident = 1;
  detector = "registry";
  name = name;
  weight = 40;
  severity = high;
  metadata = ("pid", int (pos 42)) ∷ [];
  timestamp = 450;
}

-- The service host is exempt for the registry, and not for file activity.
signal_actor_trusted_run :
    ((signal_actor_trusted facts (signal "registry_run_key") []).1 ≡ true)
    × ((signal_actor_trusted facts (signal "file_delete") []).1 ≡ false)
unfolding program
signal_actor_trusted_run = (refl, refl)

signal_actor_trusted_lem_example :
    ((signal_actor_trusted facts (signal "file_delete") []).1 ≡ (
      not (elem "file_delete" never_actor_exempt)
      && is_exempt (path_of image facts (pid_of (signal "file_delete"))) "file_delete"))
    × IsFresh image (signal_actor_trusted facts (signal "file_delete") []).0
signal_actor_trusted_lem_example =
    signal_actor_trusted_lem image facts (signal "file_delete") [] facts-Reports
      (IsSound-nil (λ pid time. classify (image pid time)))

abbrev impostor : String
impostor = "c:\\Users\\Public\\Windows\\System32\\msmpeng.exe"

impostor-lower : lower impostor ≡ "c:\\users\\public" ++ ("\\windows\\system32\\" ++ "msmpeng.exe")
unfolding program
impostor-lower = refl

impostor_name : elem (basename (lower impostor)) full_trust_names ≡ true
unfolding program
impostor_name = refl
