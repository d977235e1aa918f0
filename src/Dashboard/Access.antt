-- ===== src/Dashboard/Access.antt =====
-- dashboard/app.py: who may change the agent.
use Prim.Native.String.{String, char_at, ◌++◌}
use Prim.Native.String.append
use text.Mathlib.TextEquality.{eq_iff}
use xodusmile.Prelude.{
  ◌≡◌, ◌⊎◌, inl, inr, refl, ap, ◌∙◌, true, false, ◌&&◌, same, is_empty, strip, first_chars, after,
  lower, Bool-cases, strip-strip,
}
use xodusmile.Signal.{returned, raised}
use xodusmile.Dashboard.{
  Headers, is_ascii, compare_digest, bearer, supplied, authorized, Site, Host, Request, failed,
  view, guard, handle,
}

authorized_wrong :
    (token : String) (headers : Headers)
    → is_empty token ≡ false
    → same (supplied headers) token ≡ false
    → (authorized token headers ≡ returned false) ⊎ (authorized token headers ≡ raised)
unfolding authorized
authorized_wrong token headers set wrong = elim (Bool-cases (is_empty (supplied headers))) [
  | inl none_sent ↦ inl (simp (set, none_sent) refl)
  | inr sent ↦ elim (Bool-cases (is_ascii (supplied headers) && is_ascii token)) [
    | inl ascii ↦ inl (simp (set, sent) (unfold compare_digest in simp (ascii, wrong) refl))
    | inr other ↦ inr (simp (set, sent) (unfold compare_digest in simp other refl))
  ]
]

authorized_right :
    (token : String) (headers : Headers)
    → is_empty token ≡ false
    → is_ascii token ≡ true
    → supplied headers ≡ token
    → authorized token headers ≡ returned true
unfolding authorized compare_digest
authorized_right token headers set ascii key =
    let sent : is_empty (supplied headers) ≡ false = ap is_empty key ∙ set in
    let both : (is_ascii (supplied headers) && is_ascii token) ≡ true = simp (key, ascii) refl in
    let equal : same (supplied headers) token ≡ true = (eq_iff (supplied headers) token).1 key in
    simp (set, sent, both, equal) refl

-- The word before a token, letter by letter.
bearer_spelled : String → String
bearer_spelled t = String.◌∷◌ (char_at "B" 0) (
    String.◌∷◌ (char_at "e" 0) (
      String.◌∷◌ (char_at "a" 0) (
        String.◌∷◌ (char_at "r" 0) (
          String.◌∷◌ (char_at "e" 0)
            (String.◌∷◌ (char_at "r" 0) (String.◌∷◌ (char_at " " 0) (t)))))))

spelled : (t : String) → "Bearer " ++ t ≡ bearer_spelled t
unfolding bearer_spelled
spelled t =
    append.cons (char_at "B" 0) "earer " t
    ∙ ap (λ x. String.◌∷◌ (char_at "B" 0) (x)) (append.cons (char_at "e" 0) "arer " t)
    ∙ ap (λ x. String.◌∷◌ (char_at "B" 0) (String.◌∷◌ (char_at "e" 0) (x)))
        (append.cons (char_at "a" 0) "rer " t)
    ∙ ap
        (λ x.
          String.◌∷◌ (char_at "B" 0) (String.◌∷◌ (char_at "e" 0) (String.◌∷◌ (char_at "a" 0) (x))))
        (append.cons (char_at "r" 0) "er " t)
    ∙ ap
        (λ x. String.◌∷◌ (char_at "B" 0) (
          String.◌∷◌ (char_at "e" 0) (String.◌∷◌ (char_at "a" 0) (String.◌∷◌ (char_at "r" 0) (x)))))
        (append.cons (char_at "e" 0) "r " t)
    ∙ ap
        (λ x. String.◌∷◌ (char_at "B" 0) (
          String.◌∷◌ (char_at "e" 0) (
            String.◌∷◌ (char_at "a" 0)
              (String.◌∷◌ (char_at "r" 0) (String.◌∷◌ (char_at "e" 0) (x))))))
        (append.cons (char_at "r" 0) " " t)
    ∙ ap
        (λ x. String.◌∷◌ (char_at "B" 0) (
          String.◌∷◌ (char_at "e" 0) (
            String.◌∷◌ (char_at "a" 0) (
              String.◌∷◌ (char_at "r" 0)
                (String.◌∷◌ (char_at "e" 0) (String.◌∷◌ (char_at "r" 0) (x)))))))
        (append.cons (char_at " " 0) "" t)
    ∙ ap
        (λ x. String.◌∷◌ (char_at "B" 0) (
          String.◌∷◌ (char_at "e" 0) (
            String.◌∷◌ (char_at "a" 0) (
              String.◌∷◌ (char_at "r" 0) (
                String.◌∷◌ (char_at "e" 0)
                  (String.◌∷◌ (char_at "r" 0) (String.◌∷◌ (char_at " " 0) (x))))))))
        (append.nil t)

bearer-append : (token : String) → strip token ≡ token → bearer ("Bearer " ++ token) ≡ token
unfolding bearer first_chars after lower bearer_spelled
bearer-append token h = ap bearer (spelled token) ∙ h

supplied_key :
    (token : String) (headers : Headers)
    → is_empty token ≡ false
    → headers.api_key ≡ token
    → supplied headers ≡ token
unfolding supplied
supplied_key token headers set key =
    let full : is_empty headers.api_key ≡ false = ap is_empty key ∙ set in simp full key

supplied_bearer :
    (token : String) (headers : Headers)
    → strip token ≡ token
    → is_empty headers.api_key ≡ true
    → headers.authorization ≡ "Bearer " ++ token
    → supplied headers ≡ token
unfolding supplied
supplied_bearer token headers stripped no_key auth =
    simp no_key (ap bearer auth ∙ bearer-append token stripped)

-- A request that supplies another text than the token, in a dashboard that has one, changes nothing; it
-- is refused as unauthorized, or fails where a text is not ASCII.
pub handle_unauthorized :
    (host : Host) (headers : Headers) (request : Request) (site : Site)
    → is_empty (strip site.auth_token) ≡ false
    → same (supplied headers) (strip site.auth_token) ≡ false
    → ((handle host headers request site).0 ≡ site)
      × (((handle host headers request site).1 ≡ failed 401)
          ⊎ ((handle host headers request site).1 ≡ failed 500))
unfolding handle
handle_unauthorized host headers request site set wrong =
    elim (authorized_wrong (strip site.auth_token) headers set wrong) [
      | inl refused ↦ simp refused (refl, inl refl)
      | inr error ↦ simp error (refl, inr refl)
    ]

-- The token in the key header, or behind the word Bearer where no key is sent, opens every route, if it
-- is ASCII; the agent's token counts without the white space around it.
pub handle-view :
    (host : Host) (headers : Headers) (request : Request) (site : Site)
    → is_empty (strip site.auth_token) ≡ false
    → is_ascii (strip site.auth_token) ≡ true
    → ((headers.api_key ≡ strip site.auth_token)
        ⊎ ((is_empty headers.api_key ≡ true)
            × (headers.authorization ≡ "Bearer " ++ strip site.auth_token)))
    → handle host headers request site ≡ view host request site
unfolding handle
handle-view host headers request site set ascii sent =
    ap (λ x. guard x (view host request site) site)
      (authorized_right (strip site.auth_token) headers set ascii (elim sent [
        | inl key ↦ supplied_key (strip site.auth_token) headers set key
        | inr (no_key, auth) ↦
            supplied_bearer (strip site.auth_token) headers (strip-strip site.auth_token) no_key
              auth
      ]))
