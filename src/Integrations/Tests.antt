-- ===== src/Integrations/Tests.antt =====
-- Runs of the forwarder, and a line whose message tries to forge a field.
use mathlib.Core.List.{◌++◌ as ◌++ₗ◌}
use xodusmile.Prelude.{◌≡◌, refl, true, false, none, some, [], ◌∷◌, lookup}
use xodusmile.Integrations.Cef.{
  CefEvent, name_of, or_default, cef_sev, build_cef, extension, join_extension, cef_header_escape,
  replace,
}
use xodusmile.Integrations.Header.{fields, one_line, build_cef-fields}
use xodusmile.Integrations.Forwarder.{Item, Forwarder, new_forwarder, forward, work}
use xodusmile.Integrations.Queue.{start, forwarded, worked, IsConserved, Reach-IsConserved}

abbrev forged : CefEvent
forged = record {
  name = some "magic_bytes_lost";
  message = some "lost|9|\nCEF:0";
  detector = some "mass_io";
  weight = some 12;
  timestamp = 5000;
  pid = none;
  process = none;
  path = none;
}

escape_run : cef_header_escape "lost|9|\nCEF:0" ≡ "lost\\|9\\| CEF:0"
unfolding cef_header_escape replace
escape_run = refl

build_cef-fields_example :
    fields false (build_cef (λ _. "7") "T1486" forged 12 "HIGH" "PC")
    ≡ ("CEF:0"
        ∷ "RansomGuard"
        ∷ "EDR"
        ∷ "1.2"
        ∷ one_line (name_of forged)
        ∷ one_line (or_default (name_of forged) forged.message)
        ∷ or_default "5" (lookup "HIGH" cef_sev)
        ∷ [])
      ++ₗ fields false (join_extension (extension (λ _. "7") "T1486" forged 12 "HIGH" "PC"))
build_cef-fields_example = build_cef-fields (λ _. "7") "T1486" forged 12 "HIGH" "PC"

abbrev item : Item
item = record { event = forged; score = 12; level = "HIGH" }

abbrev after : Forwarder
after = work true true (forward item (new_forwarder (some "HIGH") none))

Reach-IsConserved_example : IsConserved (some "HIGH") none (item ∷ []) after
Reach-IsConserved_example =
    Reach-IsConserved (some "HIGH") none (item ∷ []) after (worked true true (forwarded item start))
