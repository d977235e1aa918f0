-- ===== src/Damage/Tests.antt =====
-- A file that is encrypted, renamed and deleted, in both tallies.
use xodusmile.Prelude.{String, List, [], ◌∷◌, same, if◌then◌else◌}
use xodusmile.Signal.{Signal, high, text}
use xodusmile.Damage.{summarize_damage}
use xodusmile.Damage.Scan.{damage_from_signals}
use xodusmile.Damage.Sets.{IsTally}
use xodusmile.Damage.Tally.{Agrees, damage_from_signals-summarize_damage}

abbrev at : String → String → Signal
at name path = record {
  ident = 0;
  detector = "minifilter";
  name = name;
  weight = 10;
  severity = high;
  metadata = ("path", text path) ∷ [];
  timestamp = 0;
}

abbrev attack : List Signal
attack = at "high_entropy_write" "\\Device\\a" ∷ at "file_delete" "C:\\a" ∷ []

abbrev to_drive : String → String
to_drive p = if same p "\\Device\\a" then "C:\\a" else p

damage_from_signals-summarize_damage_example :
    IsTally attack (summarize_damage attack)
    × Agrees to_drive (damage_from_signals to_drive (λ p. ".a") attack) (summarize_damage attack)
damage_from_signals-summarize_damage_example =
    damage_from_signals-summarize_damage to_drive (λ p. ".a") attack
