-- ===== src/Canary/Tests.antt =====
-- A round of the canary detector over one file that was changed and one that is gone.
use xodusmile.Prelude.{◌≡◌, refl, true, not, [], ◌∷◌, same, insert}
use xodusmile.Canary.{World, Canary, deploy}
use xodusmile.Canary.Tracked.{tampered}

abbrev before : World
before = record { exists = λ _. true; hash = λ p. p; parent = λ _. "C:" }

abbrev after : World
after = record { exists = λ p. not (same p "a"); hash = λ _. "changed"; parent = λ _. "C:" }

abbrev canary : Canary
canary = record { files = deploy before ("a" ∷ "b" ∷ []) []; emitted = [] }

-- Both are reported.
tampered_run : tampered after canary.files ≡ 2
unfolding deploy insert
tampered_run = refl
