-- ===== src/Api/ProgramPolicy/Trials.antt =====
-- A policy against the ledger of a program that was made with it under another name.
use vulnseal.Prelude.{
  ℕ, zero, suc, ◌%◌, ◌≡◌, ◌⊎◌, refl, ap, ◌∙◌, arith, true, false, Option, none, some, [], ◌∷◌, ◌++◌,
  map, All, Bytes, replicate, ok, ◌=ᵇ◌, if◌then◌else◌,
}
use vulnseal.Contract.Types.{Ledger, ascii}
use vulnseal.Shared.Hex.{
  Text, IsByte, bytes_to_hex, hex_to_bytes, strip_0x, parse_pairs, assert_bytes32,
}
use vulnseal.Shared.Order.{text_le}
use vulnseal.Shared.Envelope.{sort}
use vulnseal.Shared.Keys.{has_keys}
use vulnseal.Shared.Json.{Json, object, field, no_fields, string, number, integer, get_field}
use vulnseal.Contract.Sample.{start}
use vulnseal.Shared.Crypto.{Platform}
use vulnseal.Shared.Sample.{toy}
use vulnseal.Api.ProgramPolicy.{
  ProgramPolicy, PolicyComparison, scope_value, response_value, reward_value, disclosure_value,
  digest, compared, validate_program_policy, committed_to, program_constructor, compare_fields,
  compare_program_policy, project_policy,
}
use vulnseal.Api.ProgramPolicy.Committed.{
  ReturnsPolicy, SameTerms, ShaCollision, compare_program_policy-SameTerms,
}

-- JSON of the four values, written so that it can be read back.
abbrev write : Json → Text
unfolding ◌=ᵇ◌
write (object (field k (string a) (field j (string b) no_fields))) = 0 ∷ (map suc a ++ 0 ∷ b)
write (object (field k (string a) no_fields)) = 3 ∷ a
write (object (field k (number (integer false n)) no_fields)) =
    if k =ᵇ ascii "responseDays" then 1 ∷ n ∷ [] else 2 ∷ n ∷ []
write _ = []

abbrev scope : Text → Text → Json
scope a b =
    object (
      field (ascii "primaryScope") (string a)
        (field (ascii "additionalScope") (string b) no_fields))

abbrev split : Text → Text → Json
split read [] = scope read []
split read (zero ∷ t) = scope read t
split read (suc c ∷ t) = split (read ++ c ∷ []) t

abbrev read : Text → Option Json
read (zero ∷ t) = some (split [] t)
read (suc zero ∷ n ∷ []) =
    some (object (field (ascii "responseDays") (number (integer false n)) no_fields))
read (suc (suc zero) ∷ n ∷ []) =
    some (object (field (ascii "disclosureDays") (number (integer false n)) no_fields))
read (suc (suc (suc zero)) ∷ t) = some (object (field (ascii "rewardPolicy") (string t) no_fields))
read _ = none

append_assoc : (a : Text) (c : ℕ) (b : Text) → ((a ++ c ∷ []) ++ b) ≡ (a ++ c ∷ b)
append_assoc [] c b = refl
append_assoc (x ∷ a) c b = ap (λ t. x ∷ t) (append_assoc a c b)

append_nil : (a : Text) → (a ++ []) ≡ a
append_nil [] = refl
append_nil (x ∷ a) = ap (λ t. x ∷ t) (append_nil a)

split_back : (done a b : Text) → split done (map suc a ++ 0 ∷ b) ≡ scope (done ++ a) b
split_back done [] b = rw (append_nil done) refl
split_back done (c ∷ a) b =
    split_back (done ++ c ∷ []) a b ∙ ap (λ t. scope t b) (append_assoc done c a)

abbrev platform : Platform
platform = record toy {
  sha256 = λ m. map (λ c. c % 256) m;
  utf8 = λ t. t;
  from_utf8 = λ m. some m;
  trim = λ t. t;
  stringify = write;
  parse_json = read;
}

bytes : (m : Bytes) → All IsByte (map (λ c. c % 256) m)
bytes [] = tt
bytes (c ∷ m) = (omega arith, bytes m)

returns : (p : ProgramPolicy) → ReturnsPolicy platform p
unfolding write
returns p = record {
  scope_returns = (refl, ap some (split_back [] p.primary_scope p.additional_scope));
  response_returns = (refl, refl);
  reward_returns = (refl, refl);
  disclosure_returns = (refl, refl);
}

abbrev published : ProgramPolicy
published = record {
  name = ascii "first";
  primary_scope = ascii "api";
  additional_scope = [];
  response_days = 7;
  disclosure_days = 30;
  reward_policy = ascii "none";
}

abbrev ledger : Ledger
ledger = record start {
  program_id = replicate 32 0;
  scope_digest = digest platform (scope_value published);
  response_policy_digest = digest platform (response_value published);
  reward_policy_digest = digest platform (reward_value published);
  disclosure_policy_digest = digest platform (disclosure_value published);
  response_days = 7;
  disclosure_delay_days = 30;
}

abbrev input : Json
input = object (
    field (ascii "name") (string (ascii "second")) (
      field (ascii "primaryScope") (string (ascii "api")) (
        field (ascii "additionalScope") (string []) (
          field (ascii "responseDays") (number (integer false 7)) (
            field (ascii "disclosureDays") (number (integer false 30))
              (field (ascii "rewardPolicy") (string (ascii "none")) no_fields))))))

abbrev decimal : ℕ → Text
decimal n = n ∷ []

abbrev comparison : PolicyComparison
unfolding compare_fields compared committed_to project_policy bytes_to_hex ◌=ᵇ◌
comparison = record {
  program_id = bytes_to_hex (replicate 32 0);
  matches = true;
  fields =
      compare_fields platform decimal (committed_to platform (replicate 32 0) published)
        (project_policy decimal ledger);
}

compares :
    compare_program_policy platform decimal input (project_policy decimal ledger) ≡ ok comparison
unfolding comparison compare_program_policy program_constructor committed_to compare_fields compared
    project_policy validate_program_policy assert_bytes32 hex_to_bytes bytes_to_hex strip_0x
    parse_pairs has_keys sort text_le get_field write ◌=ᵇ◌
compares = refl

compare_program_policy-SameTerms_example :
    (p : ProgramPolicy) × (validate_program_policy platform input ≡ ok p)
    × (SameTerms p published ⊎ ShaCollision platform)
unfolding comparison
compare_program_policy-SameTerms_example =
    compare_program_policy-SameTerms platform bytes decimal input ledger published compares refl
      (record { scope = refl; response = refl; reward = refl; disclosure = refl })
      (λ p valid. returns p) (returns published)
