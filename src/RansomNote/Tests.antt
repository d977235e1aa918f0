-- ===== src/RansomNote/Tests.antt =====
-- Runs of the ransom-note detector on small inputs.
use xodusmile.Prelude.{
  ◌*◌, ◌≤◌, ◌≡◌, ◌⊎◌, refl, true, false, some, [], ◌∷◌, length, arith, lower, elem, any, insert,
  lookup, is_empty,
}
use xodusmile.Signal.{Signal, critical, second}
use xodusmile.Scoring.{Engine, recent_signals}
use xodusmile.RansomNote.{
  Search, finds, File, NoteDetector, new_detector, analyze_note_content, consider_path,
  consider_body, is_ransom_note_name, handle_note, note_seen, single_signal, on_engine_signal,
  boost_active,
}
use xodusmile.RansomNote.Corroboration.{Corroborated}
use xodusmile.RansomNote.Backing.{criticals, ThreeApart}
use xodusmile.RansomNote.Spreading.{start, next, signalled, noted, consider_path-critical}

-- A search that finds the onion address and a name, in every text.
abbrev found : Search
found pattern s = elem pattern (
    "\\b[a-z2-7]{16}(?:[a-z2-7]{40})?\\.onion\\b" ∷ "(help|info)[\\s_\\-]*(decrypt|restore|recover)"
    ∷ [])

abbrev engine : Engine
engine = record { window = 60 * second; signals = [] }

abbrev note : File
note = record {
  path = "C:\\Users\\Help_Decrypt.txt";
  parent = "C:\\Users";
  name = "Help_Decrypt.txt";
  suffix = ".txt";
  status = some (record { is_symlink = false; is_file = true; size = 40 });
  body = some "visit us";
}

abbrev alarm : Signal
alarm = record {
  ident = 0;
  detector = "canary";
  name = "canary_modified";
  weight = 100;
  severity = critical;
  metadata = [];
  timestamp = 100 * second;
}

abbrev after_canary : NoteDetector
after_canary = on_engine_signal (100 * second) alarm new_detector

-- The note raises a CRITICAL signal after the canary.
look_run :
    (length (consider_path found (101 * second) false note engine after_canary).1.emitted ≡ 1)
    × (criticals (consider_path found (101 * second) false note engine after_canary).1.emitted ≡ 1)
    × (length after_canary.emitted ≡ 0)
    × (criticals after_canary.emitted ≡ 0)
unfolding consider_path consider_body on_engine_signal elem any lower is_ransom_note_name finds
    analyze_note_content handle_note insert note_seen is_empty lookup single_signal boost_active
look_run = (refl, refl, refl, refl)

consider_path-critical_example :
    ThreeApart (noted found note [])
    ⊎ (Corroborated (recent_signals (101 * second) 120 engine).1
        × (3
            ≤ length
                (consider_path found (101 * second) false note engine after_canary).1.recent_dirs))
    ⊎ (boost_active (101 * second) after_canary ≡ true)
consider_path-critical_example =
    consider_path-critical found (101 * second) false note engine [] after_canary
      (next start (signalled (100 * second) alarm [] new_detector)) (omega (arith, look_run))
