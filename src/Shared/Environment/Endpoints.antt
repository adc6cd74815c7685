-- ===== src/Shared/Environment/Endpoints.antt =====
-- packages/shared/src/environment.ts: what `validateCipherstoreUrls` lets through.
use vulnseal.Prelude.{
  ℕ, ◌≡◌, ◌≤◌, refl, ap, arith, All, >>=-ok, guard-ok, ok-injective, Bool, true, false, not, ◌||◌,
  Option, List, [], ◌∷◌, length, ltb, ◌==◌, if◌then◌else◌, ok, suc,
}
use mathlib.Core.Path.{subst}
use vulnseal.Shared.Hex.{Text}
use vulnseal.Shared.Base64.{nonempty}
use vulnseal.Shared.Environment.{
  Url, url, has_char, drop_slashes, is_bare, reparsed, check_endpoint, check_endpoints,
  validate_cipherstore_urls, all_distinct, http_protocols, wrong_count, decorated, not_distinct,
}

-- What a list of ciphertext stores has to satisfy: three at most, all different, each without a
-- slash at its end, a query or a fragment.
abbrev pub ends_in_slash : Text → Bool
ends_in_slash [] = false
ends_in_slash (c ∷ []) = c == b'/'
ends_in_slash (c ∷ d ∷ t) = ends_in_slash (d ∷ t)

record IsEndpoint (t : Text) : Type 0 where
  no_slash : ends_in_slash t ≡ false
  no_query : has_char b'?' t ≡ false
  no_fragment : has_char b'#' t ≡ false

record IsEndpoints (endpoints : List Text) : Type 0 where
  some_endpoint : 1 ≤ length endpoints
  few : length endpoints ≤ 3
  different : all_distinct endpoints ≡ true
  each : All IsEndpoint endpoints

drop_slashes-ends : (t : Text) → ends_in_slash (drop_slashes t) ≡ false
unfolding drop_slashes
drop_slashes-ends [] = refl
drop_slashes-ends (c ∷ t) = by_rest (drop_slashes t) (drop_slashes-ends t)
  where
    by_rest :
        (rest : Text)
        → ends_in_slash rest ≡ false
        → ends_in_slash (elim rest [ [] ↦ if c == b'/' then [] else c ∷ [] | d ∷ r ↦ c ∷ d ∷ r ])
          ≡ false
    by_rest [] h = ground arith
    by_rest (d ∷ r) h = h

bare_parts : (a b c d : Bool) → not (a || b || c || d) ≡ true → (c ≡ false) × (d ≡ false)
bare_parts a b c d h = ground arith

count_bounds : (n : ℕ) → not (ltb n 1 || ltb 3 n) ≡ true → (1 ≤ n) × (n ≤ 3)
count_bounds n h = ground arith

module _ (parse_url : Text → Option Url) where
  check_endpoint-IsEndpoint :
      (value : Text) {t : Text} → check_endpoint parse_url value ≡ ok t → IsEndpoint t
  unfolding check_endpoint
  check_endpoint-IsEndpoint value h =
      >>=-ok (url parse_url value "Ciphertext endpoint" http_protocols) _ h λ checked e₀ h₀.
        >>=-ok (reparsed parse_url (drop_slashes checked)) _ h₀ λ parsed e₁ h₁.
          guard-ok (is_bare parse_url (drop_slashes checked) parsed) decorated _ h₁ λ e₂ h₂.
            let (q, f) =
              bare_parts (nonempty parsed.username) (nonempty parsed.password)
                (has_char b'?' (drop_slashes checked)) (has_char b'#' (drop_slashes checked)) e₂ in
            subst IsEndpoint (ok-injective h₂)
              (record { no_slash = drop_slashes-ends checked; no_query = q; no_fragment = f })

  check_endpoints-IsEndpoint :
      (values : List Text) {ts : List Text}
      → check_endpoints parse_url values ≡ ok ts
      → All IsEndpoint ts × (length ts ≡ length values)
  unfolding check_endpoints
  check_endpoints-IsEndpoint [] h =
      subst (λ ts. All IsEndpoint ts × (length ts ≡ 0)) (ok-injective h) (tt, refl)
  check_endpoints-IsEndpoint (v ∷ values) h = >>=-ok (check_endpoint parse_url v) _ h λ t e₀ h₀.
      >>=-ok (check_endpoints parse_url values) _ h₀ λ ts e₁ h₁.
        let (each, n) = check_endpoints-IsEndpoint values e₁ in
        subst (λ us. All IsEndpoint us × (length us ≡ suc (length values))) (ok-injective h₁)
          ((check_endpoint-IsEndpoint v e₀, each), ap suc n)

  -- A list of ciphertext stores that is accepted has one to three members, all different, none of
  -- them with a slash at its end, a question mark or a hash.
  validate_cipherstore_urls-IsEndpoints :
      (values : List Text) {ts : List Text}
      → validate_cipherstore_urls parse_url values ≡ ok ts
      → IsEndpoints ts
  unfolding validate_cipherstore_urls
  validate_cipherstore_urls-IsEndpoints values h =
      guard-ok (not (ltb (length values) 1 || ltb 3 (length values))) wrong_count _ h λ e₀ h₀.
        >>=-ok (check_endpoints parse_url values) _ h₀ λ ts e₁ h₁.
          guard-ok (all_distinct ts) not_distinct _ h₁ λ e₂ h₂.
            let (each, n) = check_endpoints-IsEndpoint values e₁ in
            let (low, high) = count_bounds (length values) e₀ in
            subst IsEndpoints (ok-injective h₂) (record {
              some_endpoint = omega arith;
              few = omega arith;
              different = e₂;
              each = each;
            })
