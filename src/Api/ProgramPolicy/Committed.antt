-- ===== src/Api/ProgramPolicy/Committed.antt =====
-- api/src/program-policy.ts: a policy that matches a program is the one that it was made with.
use vulnseal.Prelude.{
  ℕ, ◌≡◌, ◌≢◌, ◌⊎◌, inl, inr, sym, ap, ◌∙◌, arith, Bool, true, Option, none, some, Bytes, All, all,
  ok, >>=-ok, ok-injective, ◌=ᵇ◌, bytes_eq-to_eq, bytes_eq-cases, bytes_eq-false,
}
use mathlib.Core.Path.{subst}
use vulnseal.Contract.Types.{Ledger}
use vulnseal.Shared.Hex.{Text, IsByte, bytes_to_hex, hex_to_bytes, assert_bytes32}
use vulnseal.Shared.Hex.RoundTrip.{bytes_to_hex_injective}
use vulnseal.Shared.Json.{Json}
use vulnseal.Shared.Crypto.{Platform}
use vulnseal.Shared.Crypto.Laws.{Reads}
use vulnseal.Api.ProgramPolicy.{
  ProgramPolicy, PolicyComparison, id_of, scope_value, response_value, reward_value,
  disclosure_value, validate_program_policy, digest, committed_to, program_constructor,
  compare_fields, compare_program_policy, project_policy,
}

-- Two messages with one SHA-256.
pub record ShaCollision (platform : Platform) : Type 0 where
  pub one : Bytes
  pub other : Bytes
  pub differ : one ≢ other
  pub collide : platform.sha256 one ≡ platform.sha256 other

-- The terms that a policy commits to; its name is none of them.
pub record SameTerms (p q : ProgramPolicy) : Type 0 where
  pub primary_scope : p.primary_scope ≡ q.primary_scope
  pub additional_scope : p.additional_scope ≡ q.additional_scope
  pub response_days : p.response_days ≡ q.response_days
  pub reward_policy : p.reward_policy ≡ q.reward_policy
  pub disclosure_days : p.disclosure_days ≡ q.disclosure_days

-- A ledger with the digests of a policy.
pub record Commits (platform : Platform) (l : Ledger) (q : ProgramPolicy) : Type 0 where
  pub scope : l.scope_digest ≡ digest platform (scope_value q)
  pub response : l.response_policy_digest ≡ digest platform (response_value q)
  pub reward : l.reward_policy_digest ≡ digest platform (reward_value q)
  pub disclosure : l.disclosure_policy_digest ≡ digest platform (disclosure_value q)

-- A value whose JSON text comes back from its UTF-8, and the value from the text. The text has no
-- lone surrogate, which JSON.stringify escapes, and begins with no byte order mark.
abbrev pub Returns : Platform → Json → Type 0
Returns platform v =
    (platform.from_utf8 (platform.utf8 (platform.stringify v)) ≡ some (platform.stringify v))
    × Reads platform v

-- The four values that a policy commits to come back.
pub record ReturnsPolicy (platform : Platform) (p : ProgramPolicy) : Type 0 where
  pub scope_returns : Returns platform (scope_value p)
  pub response_returns : Returns platform (response_value p)
  pub reward_returns : Returns platform (reward_value p)
  pub disclosure_returns : Returns platform (disclosure_value p)

some-injective : {A : Type 0} {a b : A} → ◌≡◌ {A = Option A} (some a) (some b) → a ≡ b
some-injective {a} h = ap (value_or a) h
  where
    value_or : {A : Type 0} → A → Option A → A
    value_or d none = d
    value_or d (some x) = x

module _ (platform : Platform) (sha256_bytes : (m : Bytes) → All IsByte (platform.sha256 m)) where
  digest-injective :
      (v w : Json)
      → Returns platform v
      → Returns platform w
      → digest platform v ≡ digest platform w
      → (v ≡ w) ⊎ ShaCollision platform
  digest-injective v w rv rw_ same =
      let a = platform.utf8 (platform.stringify v) in
      let b = platform.utf8 (platform.stringify w) in
      elim (bytes_eq-cases a b) [
        | inl eq ↦
            let texts : platform.stringify v ≡ platform.stringify w =
              some-injective (sym rv.0 ∙ ap platform.from_utf8 eq ∙ rw_.0) in
            inl (some-injective (sym rv.1 ∙ ap platform.parse_json texts ∙ rw_.1))
        | inr differs ↦
            inr (record { one = a; other = b; differ = bytes_eq-false a b differs; collide = same })
      ]

  hex-injective :
      (v w : Json)
      → bytes_to_hex (digest platform v) ≡ bytes_to_hex (digest platform w)
      → digest platform v ≡ digest platform w
  hex-injective v w h =
      bytes_to_hex_injective (digest platform v) (digest platform w) (sha256_bytes _)
        (sha256_bytes _) h

  -- One field that matches is either one value or a collision.
  agrees :
      (observed_digest : Bytes) (v w : Json)
      → Returns platform v
      → Returns platform w
      → observed_digest ≡ digest platform w
      → (bytes_to_hex (digest platform v) =ᵇ bytes_to_hex observed_digest) ≡ true
      → (v ≡ w) ⊎ ShaCollision platform
  agrees d v w rv rw_ is h =
      digest-injective v w rv rw_ (hex-injective v w (bytes_eq-to_eq _ _ h ∙ ap bytes_to_hex is))

  same_terms :
      (p q : ProgramPolicy)
      → scope_value p ≡ scope_value q
      → response_value p ≡ response_value q
      → reward_value p ≡ reward_value q
      → disclosure_value p ≡ disclosure_value q
      → SameTerms p q
  same_terms p q s r w d = record {
    primary_scope = ground (arith, s);
    additional_scope = ground (arith, s);
    response_days = ground (arith, r);
    reward_policy = ground (arith, w);
    disclosure_days = ground (arith, d);
  }

  both :
      {A B : Type 0}
      → A ⊎ ShaCollision platform
      → (A → B ⊎ ShaCollision platform)
      → B ⊎ ShaCollision platform
  both (inl a) k = k a
  both (inr c) k = inr c

  module _ (decimal : ℕ → Text) (l : Ledger) (p q : ProgramPolicy) (id : Bytes) where
    compared_fields : Bool
    unfolding compare_fields committed_to project_policy ◌=ᵇ◌
    compared_fields =
        all (λ f. f.matches)
          (compare_fields platform decimal (committed_to platform id p) (project_policy decimal l))

    four_match :
        compared_fields ≡ true
        → ((bytes_to_hex (digest platform (scope_value p)) =ᵇ bytes_to_hex l.scope_digest) ≡ true)
          × ((bytes_to_hex (digest platform (response_value p))
                =ᵇ bytes_to_hex l.response_policy_digest)
              ≡ true)
          × ((bytes_to_hex (digest platform (reward_value p))
                =ᵇ bytes_to_hex l.reward_policy_digest)
              ≡ true)
          × ((bytes_to_hex (digest platform (disclosure_value p))
                =ᵇ bytes_to_hex l.disclosure_policy_digest)
              ≡ true)
    unfolding compared_fields compare_fields committed_to project_policy
    four_match h = ground (arith, h)

    fields_agree :
        ReturnsPolicy platform p
        → ReturnsPolicy platform q
        → Commits platform l q
        → compared_fields ≡ true
        → SameTerms p q ⊎ ShaCollision platform
    fields_agree rp rq k h =
        let (s, r, w, d) = four_match h in
        both (agrees l.scope_digest _ _ rp.scope_returns rq.scope_returns k.scope s) (λ s'.
          both
            (agrees l.response_policy_digest _ _ rp.response_returns rq.response_returns k.response
              r)
            (λ r'.
              both
                (agrees l.reward_policy_digest _ _ rp.reward_returns rq.reward_returns k.reward w)
                (λ w'.
                  both
                    (agrees l.disclosure_policy_digest _ _ rp.disclosure_returns
                      rq.disclosure_returns k.disclosure d)
                    (λ d'. inl (same_terms p q s' r' w' d')))))

  -- A policy that matches a program, of which the ledger holds the digests of another policy, has the
  -- same scopes, windows and reward policy as that, or two messages with one SHA-256 are exhibited;
  -- on a platform whose SHA-256 gives bytes and where the JSON texts of the values of these two
  -- policies are read back. The names may differ.
  pub compare_program_policy-SameTerms :
      (decimal : ℕ → Text) (input : Json) (l : Ledger) (q : ProgramPolicy) {c : PolicyComparison}
      → compare_program_policy platform decimal input (project_policy decimal l) ≡ ok c
      → c.matches ≡ true
      → Commits platform l q
      → ((p : ProgramPolicy)
          → validate_program_policy platform input ≡ ok p
          → ReturnsPolicy platform p)
      → ReturnsPolicy platform q
      → (p : ProgramPolicy) × (validate_program_policy platform input ≡ ok p)
        × (SameTerms p q ⊎ ShaCollision platform)
  unfolding compare_program_policy program_constructor compared_fields
  compare_program_policy-SameTerms decimal input l q {c} h m k ours theirs =
      >>=-ok (id_of (hex_to_bytes (project_policy decimal l).program_id)) _ h λ id e₁ h₁.
        >>=-ok (program_constructor platform id input) _ h₁ λ expected e₂ h₂.
          >>=-ok (id_of (assert_bytes32 id)) _ e₂ λ id' e₃ h₃.
            >>=-ok (validate_program_policy platform input) _ h₃ λ p valid h₄. (
              p,
              valid,
              fields_agree decimal l p q id' (ours p valid) theirs k (
                  subst
                    (λ e.
                      all (λ f. f.matches)
                        (compare_fields platform decimal e (project_policy decimal l))
                      ≡ true)
                    (sym (ok-injective h₄)) (ap (λ x. x.matches) (ok-injective h₂) ∙ m)),
            )
