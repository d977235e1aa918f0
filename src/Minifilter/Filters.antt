-- ===== src/Minifilter/Filters.antt =====
-- What `_handle_event` leaves out: the agent's own events and the noisy paths.
use Prim.Native.String.{◌++◌}
use text.Mathlib.TextEquality.{eq_iff}
use xodusmile.Prelude.{
  ℕ, ◌≡◌, refl, sym, subst, String, Bool, true, false, ◌||◌, List, [], ◌∷◌, arith, ◌==◌, any, elem,
  same, lower, contains, contains-append, is_empty, Bool-cases, inl, inr,
}
use xodusmile.Minifilter.{Event, Bridge, noisy_paths}
use xodusmile.Minifilter.Kind
use xodusmile.Minifilter.Handling.{handle_event, event_path, is_noisy}

any-elem :
    (p : String → Bool) (s : String) (ts : List String)
    → elem s ts ≡ true
    → p s ≡ true
    → any p ts ≡ true
unfolding elem any
any-elem p s [] m h = m
any-elem p s (t ∷ ts) m h = elim (Bool-cases (same s t)) [
  | inl e ↦ let q : s ≡ t = (eq_iff s t).0 e in ground arith
  | inr e ↦ ground (arith, any-elem p s ts)
]

-- A path is noisy wherever a noisy fragment stands in it.
is_noisy-append :
    (path before fragment after : String)
    → is_empty path ≡ false
    → elem fragment noisy_paths ≡ true
    → lower path ≡ before ++ (fragment ++ after)
    → is_noisy path ≡ true
unfolding is_noisy
is_noisy-append path before fragment after some_path m e =
    let inside : contains (lower path) fragment ≡ true =
      subst (λ x. contains x fragment ≡ true) (sym e) (contains-append before fragment after) in
    let found = any-elem (λ f. contains (lower path) f) fragment noisy_paths m inside in
    ground arith

-- Of an operation that the driver blocked the bridge reports nothing where a noisy fragment stands
-- anywhere in the path: no signal goes out and no account is changed.
pub handle_event-blocked_noisy :
    (now : ℕ) (evt : Event) (b : Bridge) (before fragment after : String)
    → evt.kind ≡ Kind.blocked
    → is_empty (event_path evt) ≡ false
    → elem fragment noisy_paths ≡ true
    → lower (event_path evt) ≡ before ++ (fragment ++ after)
    → ((handle_event now evt b).emitted ≡ b.emitted)
      × ((handle_event now evt b).pids ≡ b.pids)
      × ((handle_event now evt b).delivered ≡ b.delivered)
unfolding handle_event
handle_event-blocked_noisy now evt b before fragment after kind some_path m e =
    let noisy = is_noisy-append (event_path evt) before fragment after some_path m e in
    let process : (evt.kind == Kind.process_start || evt.kind == Kind.process_exit) ≡ false =
      rw kind refl in
    let registry : (evt.kind == Kind.registry) ≡ false = rw kind refl in
    let tamper : (evt.kind == Kind.tamper_blocked) ≡ false = rw kind refl in
    elim (Bool-cases (evt.process_id == b.own_pid || evt.process_id == 0)) [
      | inl self ↦ rw (process, registry, tamper, self) (refl, refl, refl)
      | inr others ↦ rw (process, registry, tamper, others, noisy, some_path) (refl, refl, refl)
    ]
