-- ===== src/RansomNote/Patterns.antt =====
-- detectors/ransom_note.py: the patterns of names and contents, as Python's `re` reads them. What
-- `re` finds is an argument of the model, so a pattern is only a text here.
use xodusmile.Prelude.{String, List, [], ◌∷◌}

abbrev pub note_patterns : List String
note_patterns =
    "how[\\s_\\-]*to[\\s_\\-]*decrypt"
    ∷ "how[\\s_\\-]*to[\\s_\\-]*(restore|recover|back)[\\s_\\-]*(files|data)"
    ∷ "decrypt[\\s_\\-]*(instruction|info|files|guide|note|me)"
    ∷ "(recover|restore|unlock)[\\s_\\-]*(my|your)?[\\s_\\-]*files"
    ∷ "(your|all)[\\s_\\-]*files[\\s_\\-]*(are|have been)?[\\s_\\-]*(encrypted|locked)"
    ∷ "ransom[\\s_\\-]*(note|ware|message)"
    ∷ "!{1,3}[\\s_]*(readme|read[\\s_\\-]*me|restore|recover|decrypt)" ∷ "_readme\\.txt$"
    ∷ "read[\\s_\\-]*me[\\s_\\-]*(for|to)[\\s_\\-]*decrypt"
    ∷ "(help|info)[\\s_\\-]*(decrypt|restore|recover)" ∷ "recovery[\\s_\\-]*(key|info|instruction)"
    ∷ "unlock[\\s_\\-]*(your|my|files|data|instruction)" ∷ []

abbrev pub crypto_patterns : List String
crypto_patterns =
    "\\bbc1[ac-hj-np-z02-9]{11,71}\\b" ∷ "\\b[13][a-km-zA-HJ-NP-Z1-9]{25,34}\\b"
    ∷ "\\b0x[a-fA-F0-9]{40}\\b" ∷ "\\b4[0-9AB][0-9a-zA-Z]{93}\\b" ∷ []

abbrev pub onion_patterns : List String
onion_patterns = "\\b[a-z2-7]{16}(?:[a-z2-7]{40})?\\.onion\\b" ∷ []

abbrev pub encrypted_phrases : List String
encrypted_phrases =
    "(your|all|the)\\s+(files|data|documents|network|important\\s+files)\\s+(have\\s+been|are|were|has\\s+been)\\s+(encrypted|locked|stolen)"
    ∷ "\\b(files?|data)\\s+(are|is|have\\s+been)?\\s*encrypted\\b" ∷ []

abbrev pub decrypt_phrases : List String
decrypt_phrases =
    "decrypt(ion)?\\s+(key|tool|software|service|password)"
    ∷ "(recover|restore)\\s+(your|all|the)\\s+(files|data|documents)"
    ∷ "\\bhow\\s+to\\s+(decrypt|recover|restore)\\b" ∷ []

abbrev pub payment_terms : List String
payment_terms =
    "\\b(bitcoin|btc|monero|xmr|ethereum|tor\\s+browser|ransom|payment|wallet\\s+address|pay\\s+(the|us|a)\\b)"
    ∷ []

abbrev pub contact_terms : List String
contact_terms =
    "([a-z0-9._%+\\-]+@[a-z0-9.\\-]+\\.[a-z]{2,}|\\btox\\s*id\\b|\\bqtox\\b|\\bsession\\s*id\\b|telegram|jabber|protonmail|tutanota)"
    ∷ []

abbrev pub threat_terms : List String
threat_terms =
    "(do\\s+not\\s+(rename|modify|move|delete)|\\bdeadline\\b|permanently\\s+(lost|deleted)|(leak|publish|sell)\\s+(your|the)\\s+(data|files)|price\\s+will\\s+(double|increase))"
    ∷ []
