-- ===== src/RegistryKernel/Laws.antt =====
-- What the registry detector reports, and what it lets pass.
use Prim.Native.String.{◌++◌}
use xodusmile.Prelude.{
  ℕ, String, ◌≡◌, ◌⊎◌, refl, sym, ap, ◌∙◌, subst, Bool, true, false, none, some, List, [], ◌∷◌,
  ◌++◌ as append, arith, lower, contains, contains-append, is_empty, All, Bool-cases, inl, inr,
  lookup,
}
use xodusmile.Signal.{Signal, Severity, critical}
use xodusmile.Minifilter.{Event}
use xodusmile.Minifilter.Handling.{event_path, event_extra}
use xodusmile.RegistryKernel.{
  Label, patterns, unmatched, classify, classify_in, is_benign, op_of, report, on_op, on_event,
  benign_values,
}

-- No needle of the rows stands in the key.
abbrev pub Absent : List (String × Label) → String → Type 0
Absent rows key = All (λ (row : String × Label). contains key row.0 ≡ false) rows

-- The label comes from a row whose needle the key holds and before which no needle is held, or no
-- needle is held at all.
pub record IsFirst (rows : List (String × Label)) (key : String) (l : Label) : Type 0 where
  pub before : List (String × Label)
  pub needle : String
  pub later : List (String × Label)
  pub split : rows ≡ append before ((needle, l) ∷ later)
  pub held : contains key needle ≡ true
  pub absent : Absent before key

classify_in-IsFirst :
    (rows : List (String × Label)) (key : String)
    → IsFirst rows key (classify_in rows key) ⊎ Absent rows key × (classify_in rows key ≡ unmatched)
unfolding classify_in
classify_in-IsFirst [] key = inr (tt, refl)
classify_in-IsFirst ((needle, l) ∷ rows) key = elim (Bool-cases (contains key needle)) [
  | inl held ↦ rw held (
      inl (record {
        before = [];
        needle = needle;
        later = rows;
        split = refl;
        held = held;
        absent = tt;
      }))
  | inr missed ↦ rw missed (elim (classify_in-IsFirst rows key) [
    | inl f ↦ inl (record {
      before = (needle, l) ∷ f.before;
      needle = f.needle;
      later = f.later;
      split = ap (◌∷◌ (needle, l)) f.split;
      held = f.held;
      absent = (missed, f.absent);
    })
    | inr (none_there, e) ↦ inr ((refl, none_there), e)
  ])
]

-- A key is labelled by the first pattern that stands in it, and by the generic label only where none
-- does.
pub classify-IsFirst :
    (key : String)
    → IsFirst patterns key (classify key) ⊎ Absent patterns key × (classify key ≡ unmatched)
unfolding classify
classify-IsFirst key = classify_in-IsFirst patterns key

-- What holds of every label of the rows and of the generic one holds of the label that is found.
classify_in-All :
    (P : Label → Type 0) (rows : List (String × Label)) (key : String)
    → All (λ (row : String × Label). P row.1) rows
    → P unmatched
    → P (classify_in rows key)
unfolding classify_in
classify_in-All P [] key h u = u
classify_in-All P ((needle, l) ∷ rows) key h u = elim (Bool-cases (contains key needle)) [
  | inl held ↦ rw held h.0
  | inr missed ↦ rw missed (classify_in-All P rows key h.1 u)
]

abbrev is_critical : Severity → Bool
is_critical critical = true
is_critical _ = false

-- A critical label has no benign values.
abbrev Guards : String → Label → Type 0
Guards value l = is_critical l.severity ≡ true → is_benign l.name value ≡ false

unlisted : (name value : String) → lookup name benign_values ≡ none → is_benign name value ≡ false
unfolding is_benign
unlisted name value e = rw e (ground arith)

classify-Guards : (key value : String) → Guards value (classify key)
unfolding classify lookup
classify-Guards key value =
    classify_in-All (Guards value) patterns key
      (
        λ c. unlisted "ransomguard_service_tamper" value refl,
        (
          λ c. unlisted "defender_service_tamper" value refl,
          (
            λ c. unlisted "defender_filter_tamper" value refl,
            (
              λ c. absurd (cc c),
              (
                λ c. absurd (cc c),
                (
                  λ c. absurd (cc c),
                  (
                    λ c. absurd (cc c),
                    (λ c. absurd (cc c), (λ c. absurd (cc c), (λ c. absurd (cc c), tt))),
                  ),
                ),
              ),
            ),
          ),
        ),
      )
      (λ c. absurd (cc c))

-- A write, a deletion or a rename of a key that is labelled critical is reported, with the PID that
-- the driver names, whatever value is written: no benign value name hides it.
pub on_event_critical :
    (now : ℕ) (evt : Event) (op : String) (emitted : List Signal)
    → op_of evt.sub_kind ≡ some op
    → is_empty (event_path evt) ≡ false
    → is_critical (classify (lower (event_path evt))).severity ≡ true
    → on_event now evt emitted ≡ report now evt op (classify (lower (event_path evt))) emitted
unfolding on_event
on_event_critical now evt op emitted known key crit =
    let passes = classify-Guards (lower (event_path evt)) (event_extra evt) crit in
    rw (known, on_op, key, passes) refl

abbrev pub own_needle : String
own_needle = "\\system\\currentcontrolset\\services\\ransomguard"

-- Wherever the name of the agent's own service key stands in the path, the event is reported with the
-- highest weight, as critical.
pub on_event_own :
    (now : ℕ) (evt : Event) (op before after : String) (emitted : List Signal)
    → op_of evt.sub_kind ≡ some op
    → is_empty (event_path evt) ≡ false
    → lower (event_path evt) ≡ before ++ (own_needle ++ after)
    → on_event now evt emitted
      ≡ report now evt op
          (record { name = "ransomguard_service_tamper"; weight = 80; severity = critical })
          emitted
on_event_own now evt op before after emitted known key e =
    let held : contains (lower (event_path evt)) own_needle ≡ true =
      subst (λ x. contains x own_needle ≡ true) (sym e) (contains-append before own_needle after) in
    let own : classify (lower (event_path evt))
        ≡ record { name = "ransomguard_service_tamper"; weight = 80; severity = critical } =
      unfold classify classify_in in rw held refl in
    on_event_critical now evt op emitted known key (rw own refl)
    ∙ ap (λ l. report now evt op l emitted) own
