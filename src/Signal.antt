-- ===== src/Signal.antt =====
-- The signal of scoring.py: severities, metadata, and the process that a signal names.
-- A `Signal` object carries an `ident`, which is what Python's `is` compares. The display text
-- `message` is left out, since no code that is modelled reads it. Times are whole microseconds.
use xodusmile.Prelude.{
  ℕ, zero, suc, String, Bool, true, false, Option, none, some, List, [], ◌∷◌, if◌then◌else◌, lookup,
  is_empty,
}

pub data Severity : Type 0 where
  info low medium high critical : Severity

-- Signed integers.
pub data ℤ : Type 0 where
  pos : ℕ → ℤ
  negsuc : ℕ → ℤ

-- The values that the detectors put into a signal's metadata. A `real` is a float: a
-- time in whole microseconds, or an entropy in thousandths of a bit; `texts` is a list of texts.
pub data Value : Type 0 where
  int : ℤ → Value
  flag : Bool → Value
  text : String → Value
  real : ℕ → Value
  texts : List String → Value

abbrev pub Metadata : Type 0
Metadata = List (String × Value)

pub record Signal : Type 0 where
  pub ident : ℕ
  pub detector : String
  pub name : String
  pub weight : ℕ
  pub severity : Severity
  pub metadata : Metadata
  pub timestamp : ℕ

abbrev pub second : ℕ
second = 1000000

-- `isinstance(val, int) and val > 0`. A Python bool is an int, and `True` is 1.
unfoldable pub positive_int : Value → Option ℕ
positive_int (int (pos zero)) = none
positive_int (int (pos (suc n))) = some (suc n)
positive_int (int (negsuc n)) = none
positive_int (flag true) = some 1
positive_int (flag false) = none
positive_int (text s) = none
positive_int (real x) = none
positive_int (texts ts) = none

abbrev or_else : Option ℕ → Option ℕ → Option ℕ
or_else none o = o
or_else (some n) o = some n

abbrev positive_at : Option Value → Option ℕ
positive_at none = none
positive_at (some v) = positive_int v

-- `for key in keys: … return val` / `return None`
unfoldable pub first_positive : List String → Metadata → Option ℕ
first_positive [] meta = none
first_positive (key ∷ keys) meta =
    or_else (positive_at (lookup key meta)) (first_positive keys meta)

abbrev pub pid_keys : List String
pid_keys = "pid" ∷ "ProcessId" ∷ "process_id" ∷ "child_pid" ∷ []

-- `_pid_of` of the engine, `_pid_of_signal` of the allowlist and of actor trust.
unfoldable pub pid_of : Signal → Option ℕ
pid_of sig = first_positive pid_keys sig.metadata

-- `bool(value)`
unfoldable pub truthy : Value → Bool
truthy (int (pos zero)) = false
truthy (int (pos (suc n))) = true
truthy (int (negsuc n)) = true
truthy (flag b) = b
truthy (text s) = if is_empty s then false else true
truthy (real zero) = false
truthy (real (suc n)) = true
truthy (texts []) = false
truthy (texts (t ∷ ts)) = true

-- The answer of a callback that may raise.
pub data Answer : Type 0 where
  returned : Bool → Answer
  raised : Answer

-- An answer where an exception counts as "no".
abbrev pub answered : Answer → Bool
answered (returned b) = b
answered raised = false
