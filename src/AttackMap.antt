-- ===== src/AttackMap.antt =====
-- attack_map.py: the lookups of the techniques that a signal belongs to.
pub mod Table
pub mod Laws
mod Tests
use Prim.Native.String.{◌++◌}
use xodusmile.Prelude.{
  ℕ, ◌-◌, String, Bool, true, false, Option, none, some, List, [], ◌∷◌, if◌then◌else◌, is_empty,
  lookup, length, ltb,
}
use xodusmile.Signal.{Signal}
use xodusmile.AttackMap.Table.{Technique, signal_techniques}
use xodusmile.Reporter.FileNames.{decimal}

abbrev pub found_techniques : Option (List Technique) → List Technique
found_techniques none = []
found_techniques (some techniques) = techniques

-- `techniques_for`
unfoldable pub techniques_for : Option String → List Technique
techniques_for none = []
techniques_for (some name) =
    if is_empty name then [] else found_techniques (lookup name signal_techniques)

abbrev pub first_technique : List Technique → Option Technique
first_technique [] = none
first_technique (t ∷ techniques) = some t

unfoldable pub primary_technique : Option String → Option Technique
unfolding techniques_for
primary_technique name = first_technique (techniques_for name)

unfoldable pub label_of : List Technique → String
label_of [] = ""
label_of (t ∷ []) = t.tid ++ (" " ++ t.name)
label_of (t ∷ u ∷ techniques) =
    t.tid ++ (" " ++ (t.name ++ (" (+" ++ (decimal (length (u ∷ techniques)) ++ ")"))))

-- `label_for`
unfoldable pub label_for : Option String → String
unfolding label_of techniques_for
label_for name = label_of (techniques_for name)

-- `annotate_signal_dict`: the signal and its techniques.
abbrev pub annotate_signal : Signal → Signal × List Technique
annotate_signal s = (s, techniques_for (some s.name))
