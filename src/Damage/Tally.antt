-- ===== src/Damage/Tally.antt =====
-- The two tallies of damaged files agree.
use xodusmile.Prelude.{
  ◌≡◌, refl, sym, ap, ◌∙◌, String, ◌++◌, Option, none, some, List, [], ◌∷◌, arith, same, elem, any,
  map, subst, Bool, Bool-cases, inl, inr, lookup, is_empty,
}
use xodusmile.Signal.{Signal, Metadata, Value, text, int, flag, real, texts}
use xodusmile.Damage.{
  Damage, damage_encrypt, damage_rename, damage_delete, path_keys, path_text, paths_at, sig_paths,
  add_path, add_paths, note_encryption, note_deletion, note_signal, note_signals, no_damage,
  summarize_damage,
}
use xodusmile.Damage.Scan.{
  ScanDamage, norm_text, norm_paths_at, norm_sig_paths, scan_signal, scan_signals,
  damage_from_signals,
}
use xodusmile.Damage.Sets.{
  any-add_path, elem-add_path, same_comm, Sets, note_encryption-Sets, note_rename-Sets,
  note_deletion-Sets, IsTally, summarize_damage-IsTally,
}

-- The path is one of the first set, once they are normalised.
abbrev pub is_norm : (String → String) → String → List String → Bool
is_norm norm p paths = any (λ q. same (norm q) p) paths

-- One set holds just the normalised paths of the other.
abbrev pub Normed : (String → String) → List String → List String → Type 0
Normed norm scan set = (p : String) → elem p scan ≡ is_norm norm p set

Normed-add_path :
    (norm : String → String) (q : String) (scan set : List String)
    → Normed norm scan set
    → Normed norm (add_path (norm q) scan) (add_path q set)
Normed-add_path norm q scan set n p = ground (
  arith,
  n p,
  elem-add_path p (norm q) scan,
  any-add_path (λ x. same (norm x) p) q set,
  same_comm p (norm q),
)

Normed-add_paths :
    (norm : String → String) (paths scan set : List String)
    → Normed norm scan set
    → Normed norm (add_paths (map norm paths) scan) (add_paths paths set)
unfolding add_paths
Normed-add_paths norm [] scan set n = n
Normed-add_paths norm (q ∷ paths) scan set n =
    Normed-add_paths norm paths (add_path (norm q) scan) (add_path q set)
      (Normed-add_path norm q scan set n)

pub record Agrees (norm : String → String) (scan : ScanDamage) (d : Damage) : Type 0 where
  pub encrypted : Normed norm scan.encrypted d.encrypted
  pub renamed : Normed norm scan.renamed d.renamed
  pub deleted : Normed norm scan.deleted d.deleted

Agrees-Sets :
    (norm : String → String) (scan : ScanDamage) (encrypted renamed deleted : List String)
    (d : Damage)
    → Normed norm scan.encrypted encrypted
    → Normed norm scan.renamed renamed
    → Normed norm scan.deleted deleted
    → Sets encrypted renamed deleted d
    → Agrees norm scan d
Agrees-Sets norm scan encrypted renamed deleted d e r x (p, q, o) = record {
  encrypted = subst (Normed norm scan.encrypted) (sym p) e;
  renamed = subst (Normed norm scan.renamed) (sym q) r;
  deleted = subst (Normed norm scan.deleted) (sym o) x;
}

norm_text-map :
    (norm : String → String) (v : Option Value) (paths : List String)
    → norm_text norm v (map norm paths) ≡ map norm (path_text v ++ paths)
norm_text-map norm none paths = refl
norm_text-map norm (some (text p)) paths = elim (Bool-cases (is_empty p)) [
  | inl e ↦ rw e refl
  | inr e ↦ rw e refl
]
norm_text-map norm (some (int n)) paths = refl
norm_text-map norm (some (flag b)) paths = refl
norm_text-map norm (some (real x)) paths = refl
norm_text-map norm (some (texts ts)) paths = refl

norm_paths_at-map :
    (norm : String → String) (keys : List String) (meta : Metadata)
    → norm_paths_at norm keys meta ≡ map norm (paths_at keys meta)
unfolding norm_paths_at paths_at
norm_paths_at-map norm [] meta = refl
norm_paths_at-map norm (k ∷ keys) meta =
    ap (norm_text norm (lookup k meta)) (norm_paths_at-map norm keys meta)
    ∙ norm_text-map norm (lookup k meta) (paths_at keys meta)

-- The two have the same keys.
norm_sig_paths-map :
    (norm : String → String) (s : Signal) → norm_sig_paths norm s ≡ map norm (sig_paths s)
unfolding norm_sig_paths sig_paths
norm_sig_paths-map norm s = norm_paths_at-map norm path_keys s.metadata

Normed-add_signal :
    (norm : String → String) (s : Signal) (scan set : List String)
    → Normed norm scan set
    → Normed norm (add_paths (norm_sig_paths norm s) scan) (add_paths (sig_paths s) set)
Normed-add_signal norm s scan set n =
    rw (norm_sig_paths-map norm s) (Normed-add_paths norm (sig_paths s) scan set n)

note_signal-Agrees :
    (norm suffix : String → String) (s : Signal) (scan : ScanDamage) (d : Damage)
    → Agrees norm scan d
    → Agrees norm (scan_signal norm suffix s scan) (note_signal s d)
unfolding scan_signal note_signal
note_signal-Agrees norm suffix s scan d a = elim (Bool-cases (elem s.name damage_encrypt)) [
  | inl e ↦ simp e (
      Agrees-Sets norm
        (record scan { encrypted = add_paths (norm_sig_paths norm s) scan.encrypted }) _ _ _
        (note_encryption s d) (Normed-add_signal norm s scan.encrypted d.encrypted a.encrypted)
        a.renamed a.deleted (note_encryption-Sets s d))
  | inr not_e ↦ elim (Bool-cases (elem s.name damage_rename)) [
    | inl r ↦
        simp (not_e, r)
          (record {
            encrypted =
                subst (Normed norm scan.encrypted) (sym (note_rename-Sets s d).0) a.encrypted;
            renamed =
                subst (Normed norm (add_paths (norm_sig_paths norm s) scan.renamed))
                  (sym (note_rename-Sets s d).1)
                  (Normed-add_signal norm s scan.renamed d.renamed a.renamed);
            deleted = subst (Normed norm scan.deleted) (sym (note_rename-Sets s d).2) a.deleted;
          })
    | inr not_r ↦ elim (Bool-cases (elem s.name damage_delete)) [
      | inl x ↦
          simp (not_e, not_r, x)
            (Agrees-Sets norm
              (record scan { deleted = add_paths (norm_sig_paths norm s) scan.deleted }) _ _ _
              (note_deletion s d) a.encrypted a.renamed
              (Normed-add_signal norm s scan.deleted d.deleted a.deleted) (note_deletion-Sets s d))
      | inr not_x ↦ simp (not_e, not_r, not_x) a
    ]
  ]
]

note_signals-Agrees :
    (norm suffix : String → String) (signals : List Signal) (scan : ScanDamage) (d : Damage)
    → Agrees norm scan d
    → Agrees norm (scan_signals norm suffix signals scan) (note_signals signals d)
note_signals-Agrees norm suffix [] scan d a = a
note_signals-Agrees norm suffix (s ∷ signals) scan d a =
    note_signals-Agrees norm suffix signals (scan_signal norm suffix s scan) (note_signal s d)
      (note_signal-Agrees norm suffix s scan d a)

-- Of any signals, a path is in one of the reporter's sets of encrypted, renamed and deleted files just
-- when some signal of that kind names it, as a text that is not empty, under one of the seven keys; and
-- the tally of scan_damage.py, with its own names, keys and loop, agrees: a path is in one of its sets
-- just when it is the normalised form of a path in the reporter's.
pub damage_from_signals-summarize_damage :
    (norm suffix : String → String) (signals : List Signal)
    → IsTally signals (summarize_damage signals)
      × Agrees norm (damage_from_signals norm suffix signals) (summarize_damage signals)
unfolding damage_from_signals summarize_damage elem any
damage_from_signals-summarize_damage norm suffix signals = (
  summarize_damage-IsTally signals,
  note_signals-Agrees norm suffix signals
      (record { encrypted = []; renamed = []; deleted = []; susp_exts = [] }) no_damage
      (record { encrypted = λ p. refl; renamed = λ p. refl; deleted = λ p. refl }),
)
