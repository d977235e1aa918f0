-- ===== src/Allowlist/Matching.antt =====
-- What an entry matches: path entries match whole folders only.
use Prim.Native.String.{◌++◌}
use xodusmile.Prelude.{
  String, ◌≡◌, ◌↔◌, refl, sym, ap, ◌∙◌, subst, Bool, true, false, not, ◌||◌, arith, if◌then◌else◌,
  is_empty, rstrip_separators, begins_with, begins_with-append, begins_with-eq, after, after-append,
  starts_with_separator,
}
use xodusmile.Allowlist.{AllowEntry, entry_matches}

-- The path is the entry's folder or lies below it: the entry's value, without the separators at its
-- end, then nothing or a separator and more.
pub record IsUnder (value path : String) : Type 0 where
  pub rest : String
  pub split : path ≡ rstrip_separators value ++ rest
  pub boundary : (is_empty rest || starts_with_separator rest) ≡ true
  pub some_prefix : is_empty (rstrip_separators value) ≡ false
  pub some_path : is_empty path ≡ false

entry_path : AllowEntry → String → String → Bool
entry_path e name path =
    if is_empty path
    then false
    else (let prefix = rstrip_separators e.value in
        if is_empty prefix || not (begins_with path prefix)
        then false
        else (let rest = after path prefix in is_empty rest || starts_with_separator rest))

entry_matches_path :
    (e : AllowEntry) (name path : String)
    → e.kind ≡ "path"
    → entry_matches e name path ≡ entry_path e name path
unfolding entry_matches entry_path
entry_matches_path e name path k = rw k refl

-- A path entry matches a path exactly when the path is the entry's folder or lies below it, at a
-- separator: a sibling whose name only begins with the folder's name is not matched. The process
-- name plays no part.
pub entry_matches-IsUnder :
    (e : AllowEntry) (name path : String)
    → e.kind ≡ "path"
    → (entry_matches e name path ≡ true) ↔ IsUnder e.value path
unfolding entry_path
entry_matches-IsUnder e name path k = (
  λ h.
      let h' : entry_path e name path ≡ true = sym (entry_matches_path e name path k) ∙ h in
      let prefix = rstrip_separators e.value in
      record {
        rest = after path prefix;
        split = begins_with-eq path prefix (ground arith);
        boundary = ground arith;
        some_prefix = ground arith;
        some_path = ground arith;
      },
  λ u.
      let prefix = rstrip_separators e.value in
      let begins : begins_with path prefix ≡ true =
        subst (λ x. begins_with x prefix ≡ true) (sym u.split) (begins_with-append prefix u.rest) in
      let rest_eq : after path prefix ≡ u.rest =
        ap (λ x. after x prefix) u.split ∙ after-append prefix u.rest in
      entry_matches_path e name path k
      ∙ rw (u.some_path, u.some_prefix, begins, rest_eq) u.boundary,
)
