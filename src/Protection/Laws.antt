-- ===== src/Protection/Laws.antt =====
-- The never-kill rules against the masquerade test, and what their path test accepts.
use Prim.Native.String.{◌++◌}
use Prim.Native.String.append
use xodusmile.Prelude.{
  String, ◌≡◌, refl, sym, ap, ◌∙◌, Bool, true, false, not, ◌||◌, ◌&&◌, arith, elem, lower, normcase,
  normcase_char, begins_with, begins_with-append, is_empty, every, every-elem, subst,
}
use xodusmile.Protection.{
  never_kill, path_verified, pseudo_procs, system_binary_names, join_path, trusted_dirs, under_any,
  path_is_untrusted, is_never_kill, is_masquerading,
}

abbrev strippable : String → Bool
strippable n = not (elem n pseudo_procs) && (elem n path_verified || not (elem n never_kill))

system_names_strippable : every strippable system_binary_names ≡ true
unfolding every elem
system_names_strippable = refl

-- A process that the watcher reports as a masquerade, a system name run from elsewhere, is never spared
-- as one of the never-kill list.
pub is_never_kill-masquerading :
    (root name exe_path : String)
    → is_masquerading root name exe_path ≡ true
    → is_never_kill root name exe_path ≡ false
unfolding is_masquerading is_never_kill path_is_untrusted
is_never_kill-masquerading root name exe_path h =
    let member : elem (lower name) system_binary_names ≡ true = ground arith in
    let loose : strippable (lower name) ≡ true =
      every-elem strippable (lower name) system_binary_names system_names_strippable member in
    ground arith

-- Without a readable path a name is protected exactly when it is a pseudo process or on the list.
pub is_never_kill-no_path :
    (root name : String)
    → is_never_kill root name "" ≡ (elem (lower name) pseudo_procs || elem (lower name) never_kill)
unfolding is_never_kill path_is_untrusted is_empty
is_never_kill-no_path root name = ground arith

normcase-append : (s t : String) → normcase (s ++ t) ≡ normcase s ++ normcase t
unfolding normcase
normcase-append String.[] t = ap normcase (append.nil t) ∙ sym (append.nil (normcase t))
normcase-append (String.◌∷◌ c s) t =
    ap normcase (append.cons c s t)
    ∙ ap (λ x. String.◌∷◌ (normcase_char c) x) (normcase-append s t)
    ∙ sym (append.cons (normcase_char c) (normcase s) (normcase t))

-- The path test compares prefixes without a separator: whatever text follows the name of the
-- `System32` folder, the image counts as one from that folder, so its name keeps the immunity.
pub path_is_untrusted-prefix :
    (root rest : String) → path_is_untrusted root (join_path root "System32" ++ rest) ≡ false
unfolding path_is_untrusted under_any trusted_dirs
path_is_untrusted-prefix root rest =
    let dir = join_path root "System32" in
    let begins : begins_with (normcase (dir ++ rest)) (normcase dir) ≡ true =
      subst (λ x. begins_with x (normcase dir) ≡ true) (sym (normcase-append dir rest))
        (begins_with-append (normcase dir) (normcase rest)) in
    ground arith
