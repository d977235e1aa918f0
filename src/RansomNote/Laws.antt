-- ===== src/RansomNote/Laws.antt =====
-- What confirms a note by its content.
use xodusmile.Prelude.{ℕ, ◌+◌, ◌*◌, ◌≤◌, String, ◌≡◌, ◌↔◌, Bool, true, false, ◌||◌, arith, is_empty}
use xodusmile.RansomNote.Patterns.{
  crypto_patterns, onion_patterns, encrypted_phrases, decrypt_phrases, payment_terms, contact_terms,
  threat_terms,
}
use xodusmile.RansomNote.{Search, finds, analyze_note_content}

abbrev pub one_if : Bool → ℕ
one_if true = 1
one_if false = 0

-- The number of weak indicators.
abbrev pub weak : Search → String → ℕ
weak search s =
    one_if (finds search encrypted_phrases s)
    + one_if (finds search decrypt_phrases s)
    + one_if (finds search payment_terms s)
    + one_if (finds search contact_terms s)
    + one_if (finds search threat_terms s)

-- The content of a file that is not empty is confirmed exactly where it holds both a wallet address
-- and an onion address, or one of them and at least one weak indicator: weak indicators alone, all
-- five of them included, never confirm.
pub analyze_note_content_iff :
    (search : Search) (s : String)
    → is_empty s ≡ false
    → ((analyze_note_content search s).confirmed ≡ true)
      ↔ ((finds search crypto_patterns s || finds search onion_patterns s) ≡ true)
        × (3
            ≤ 2 * one_if (finds search crypto_patterns s)
              + 2 * one_if (finds search onion_patterns s)
              + weak search s)
unfolding analyze_note_content
analyze_note_content_iff search s some_text = ground arith
