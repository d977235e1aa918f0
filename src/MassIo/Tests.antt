-- ===== src/MassIo/Tests.antt =====
-- Runs of the mass I/O detector on small inputs.
use xodusmile.Prelude.{
  suc, ◌-◌, ◌≤◌, ◌<◌, ◌≡◌, ◌↔◌, refl, true, some, [], ◌∷◌, leb, if◌then◌else◌, keep, length, arith,
  elem, lower, contains, any,
}
use xodusmile.MassIo.{
  Target, new_mass_io, detect_magic, is_noise, on_modified, check_burst, burst_window,
}
use xodusmile.MassIo.Quiet.{modified, moved, checked, run, step, run_ordinary}
use xodusmile.MassIo.Loss.{losses, run_lost}
use xodusmile.MassIo.Burst.{start, next, check_burst_iff}

-- A document as it was, and as ransomware leaves it.
abbrev plain : Target
plain = record {
  path = "C:\\Users\\report.pdf";
  suffix = ".pdf";
  is_file = true;
  head = some (37 ∷ 80 ∷ 68 ∷ 70 ∷ []);
  entropy = 5000;
}

abbrev cipher : Target
cipher = record {
  path = "C:\\Users\\report.pdf";
  suffix = ".pdf";
  is_file = true;
  head = some (1 ∷ 2 ∷ 3 ∷ 4 ∷ []);
  entropy = 7900;
}

run_ordinary_example :
    ((run ((5, modified plain) ∷ (6, moved "a" plain) ∷ (7, checked) ∷ []) new_mass_io).emitted
      ≡ [])
    × ((run
          ((5, modified plain) ∷ (6, moved "a" plain) ∷ (7, checked) ∷ [])
          new_mass_io).modify_times
        ≡ [])
unfolding detect_magic elem lower
run_ordinary_example =
    run_ordinary (λ _. some "PDF") ((5, modified plain) ∷ (6, moved "a" plain) ∷ (7, checked) ∷ [])
      ((refl, λ h _. ground (arith, h)), (refl, (tt, tt)))

run_lost_example :
    (losses
        (on_modified 9 cipher (run ((7, checked) ∷ []) (on_modified 5 plain new_mass_io))).emitted
      ≡ suc (losses (run ((7, checked) ∷ []) (on_modified 5 plain new_mass_io)).emitted))
    × (length (run ((7, checked) ∷ []) (on_modified 5 plain new_mass_io)).modify_times
        < length
            (on_modified 9 cipher
              (run ((7, checked) ∷ []) (on_modified 5 plain new_mass_io))).modify_times)
unfolding detect_magic is_noise elem lower any contains
run_lost_example =
    run_lost 5 plain 37 (80 ∷ 68 ∷ 70 ∷ []) "PDF" new_mass_io ((7, checked) ∷ []) 9 cipher 1
      (2 ∷ 3 ∷ 4 ∷ []) (refl, refl, refl) refl (tt, tt) refl (refl, refl, refl) refl

check_burst_iff_example :
    ((length (check_burst 6 (step 5 (modified plain) new_mass_io)).emitted
        ≡ suc (length (step 5 (modified plain) new_mass_io).emitted))
      ↔ (15
          ≤ length (
              keep
                (λ t. leb (6 - burst_window) t)
                (step 5 (modified plain) new_mass_io).modify_times)))
    × ((check_burst 6 (step 5 (modified plain) new_mass_io)).modify_times ≡ (
        if leb 15 (
          length (
            keep
              (λ t. leb (6 - burst_window) t)
              (step 5 (modified plain) new_mass_io).modify_times))
        then []
        else keep
            (λ t. leb (6 - burst_window) t)
            (step 5 (modified plain) new_mass_io).modify_times))
check_burst_iff_example =
    check_burst_iff 5 6 (step 5 (modified plain) new_mass_io)
      (next (modified plain) start (omega arith))
