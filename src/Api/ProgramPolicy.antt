-- ===== src/Api/ProgramPolicy.antt =====
-- api/src/program-policy.ts: the policy of a program, its digests, and the comparison of a policy
-- with an observed program. `Platform` has Web Crypto, the text encoder, `trim` and JSON; `String`
-- of a natural number is the parameter `decimal`.
pub mod Committed
mod Trials
use vulnseal.Prelude.{
  ℕ, ◌*◌, String, Bool, true, false, not, ◌&&◌, ◌||◌, Option, none, some, List, [], ◌∷◌, Bytes, all,
  any, length, leb, ◌==◌, ◌=ᵇ◌, if◌then◌else◌, Result, ok, err, ◌>>=◌, ◌>>◌, guard,
}
use vulnseal.Contract.Types.{Ledger, ascii}
use vulnseal.Shared.Hex.{Text, EncodingError, bytes_to_hex, hex_to_bytes, assert_bytes32}
use vulnseal.Shared.Json.{
  Json, Fields, object, string, number, integer, field, no_fields, get_field,
}
use vulnseal.Shared.Keys.{has_keys}
use vulnseal.Shared.Crypto.{Platform}

pub record ProgramPolicy : Type 0 where
  pub name : Text
  pub primary_scope : Text
  pub additional_scope : Text
  pub response_days : ℕ
  pub disclosure_days : ℕ
  pub reward_policy : Text

pub data PolicyError : Type 0 where
  invalid_policy_fields : PolicyError
  invalid_policy_text : PolicyError
  unsupported_window : PolicyError
  bad_program_id : PolicyError

pub record ProgramConstructor : Type 0 where
  pub program_id : Bytes
  pub scope_digest : Bytes
  pub response_policy_digest : Bytes
  pub response_days : ℕ
  pub reward_policy_digest : Bytes
  pub disclosure_policy_digest : Bytes
  pub disclosure_delay_days : ℕ

pub record ObservedProgramPolicy : Type 0 where
  pub program_id : Text
  pub scope_digest : Text
  pub response_policy_digest : Text
  pub reward_policy_digest : Text
  pub disclosure_policy_digest : Text
  pub response_days : Text
  pub disclosure_days : Text

pub record FieldMatch : Type 0 where
  pub field_name : String
  pub expected : Text
  pub observed : Text
  pub matches : Bool

pub record PolicyComparison : Type 0 where
  pub program_id : Text
  pub matches : Bool
  pub fields : List FieldMatch

abbrev pub object_of : Json → Result PolicyError Fields
object_of (object fields) = ok fields
object_of _ = err invalid_policy_fields

-- `list.includes(value)`, with the number that it is.
abbrev pub days_of : List ℕ → Json → Result PolicyError ℕ
days_of choices (number (integer negative n)) =
    if not negative && any (λ d. d == n) choices then ok n else err unsupported_window
days_of choices _ = err unsupported_window

abbrev pub is_empty : Text → Bool
is_empty [] = true
is_empty (c ∷ t) = false

-- The four values that are committed to.
abbrev pub scope_value : ProgramPolicy → Json
scope_value p = object (
    field (ascii "primaryScope") (string p.primary_scope)
      (field (ascii "additionalScope") (string p.additional_scope) no_fields))

abbrev pub response_value : ProgramPolicy → Json
response_value p =
    object (field (ascii "responseDays") (number (integer false p.response_days)) no_fields)

abbrev pub reward_value : ProgramPolicy → Json
reward_value p = object (field (ascii "rewardPolicy") (string p.reward_policy) no_fields)

abbrev pub disclosure_value : ProgramPolicy → Json
disclosure_value p =
    object (field (ascii "disclosureDays") (number (integer false p.disclosure_days)) no_fields)

abbrev pub id_of : Result EncodingError Bytes → Result PolicyError Bytes
id_of (ok b) = ok b
id_of (err _) = err bad_program_id

module _ (platform : Platform) where
  -- A text of 64 KiB at most, which only the additional scope may leave blank.
  abbrev pub policy_text : Bool → Json → Result PolicyError Text
  policy_text may_be_blank (string t) =
      if leb (length (platform.utf8 t)) (64 * 1024)
        && (may_be_blank || not (is_empty (platform.trim t)))
      then ok t
      else err invalid_policy_text
  policy_text may_be_blank _ = err invalid_policy_text

  unfoldable pub validate_program_policy : Json → Result PolicyError ProgramPolicy
  unfolding has_keys get_field
  validate_program_policy input = do
    value ← object_of input
    guard
        (has_keys "additionalScope,disclosureDays,name,primaryScope,responseDays,rewardPolicy"
          value)
        invalid_policy_fields
    name ← policy_text false (get_field (ascii "name") value)
    primary_scope ← policy_text false (get_field (ascii "primaryScope") value)
    additional_scope ← policy_text true (get_field (ascii "additionalScope") value)
    reward_policy ← policy_text false (get_field (ascii "rewardPolicy") value)
    response_days ← days_of (2 ∷ 7 ∷ 14 ∷ []) (get_field (ascii "responseDays") value)
    disclosure_days ← days_of (30 ∷ 60 ∷ 90 ∷ []) (get_field (ascii "disclosureDays") value)
    ok (record {
      name = name;
      primary_scope = primary_scope;
      additional_scope = additional_scope;
      response_days = response_days;
      disclosure_days = disclosure_days;
      reward_policy = reward_policy;
    })

  abbrev pub digest : Json → Bytes
  digest value = platform.sha256 (platform.utf8 (platform.stringify value))

  -- `programConstructor`, from the policy that was validated.
  unfoldable pub committed_to : Bytes → ProgramPolicy → ProgramConstructor
  committed_to id policy = record {
    program_id = id;
    scope_digest = digest (scope_value policy);
    response_policy_digest = digest (response_value policy);
    response_days = policy.response_days;
    reward_policy_digest = digest (reward_value policy);
    disclosure_policy_digest = digest (disclosure_value policy);
    disclosure_delay_days = policy.disclosure_days;
  }

  unfoldable pub program_constructor : Bytes → Json → Result PolicyError ProgramConstructor
  unfolding validate_program_policy committed_to assert_bytes32
  program_constructor program_id input = do
    id ← id_of (assert_bytes32 program_id)
    policy ← validate_program_policy input
    ok (committed_to id policy)

  abbrev pub compared : String → Text → Text → FieldMatch
  unfolding ◌=ᵇ◌
  compared name expected observed = record {
    field_name = name;
    expected = expected;
    observed = observed;
    matches = expected =ᵇ observed;
  }

  module _ (decimal : ℕ → Text) where
    unfoldable pub compare_fields : ProgramConstructor → ObservedProgramPolicy → List FieldMatch
    unfolding compared bytes_to_hex
    compare_fields expected observed =
        compared "scopeDigest" (bytes_to_hex expected.scope_digest) observed.scope_digest
        ∷ compared "responsePolicyDigest" (bytes_to_hex expected.response_policy_digest)
            observed.response_policy_digest
        ∷ compared "rewardPolicyDigest" (bytes_to_hex expected.reward_policy_digest)
            observed.reward_policy_digest
        ∷ compared "disclosurePolicyDigest" (bytes_to_hex expected.disclosure_policy_digest)
            observed.disclosure_policy_digest
        ∷ compared "responseDays" (decimal expected.response_days) observed.response_days
        ∷ compared "disclosureDays" (decimal expected.disclosure_delay_days)
            observed.disclosure_days
        ∷ []

    unfoldable pub compare_program_policy :
        Json → ObservedProgramPolicy → Result PolicyError PolicyComparison
    unfolding program_constructor compare_fields hex_to_bytes
    compare_program_policy input observed = do
      program_id ← id_of (hex_to_bytes observed.program_id)
      expected ← program_constructor program_id input
      let fields = compare_fields expected observed
      ok (record {
        program_id = observed.program_id;
        matches = all (λ f. f.matches) fields;
        fields = fields;
      })

-- api/src/public-verification.ts: the policy in the public ledger.
unfoldable pub project_policy : (ℕ → Text) → Ledger → ObservedProgramPolicy
unfolding bytes_to_hex
project_policy decimal state = record {
  program_id = bytes_to_hex state.program_id;
  scope_digest = bytes_to_hex state.scope_digest;
  response_policy_digest = bytes_to_hex state.response_policy_digest;
  reward_policy_digest = bytes_to_hex state.reward_policy_digest;
  disclosure_policy_digest = bytes_to_hex state.disclosure_policy_digest;
  response_days = decimal state.response_days;
  disclosure_days = decimal state.disclosure_delay_days;
}
