-- ===== src/Cipherstore/Retirement.antt =====
-- cipherstore/src/retirement-policy.ts: the set of retired digests, in the order of their insertion.
pub mod Members
pub mod Reading
use vulnseal.Prelude.{
  ℕ, Bool, not, List, [], ◌∷◌, ◌++◌, length, ltb, any, ◌=ᵇ◌, Result, ok, err, guard, ◌>>=◌, ◌>>◌,
  if◌then◌else◌,
}
use vulnseal.Shared.Hex.{Text}
use vulnseal.Cipherstore.Storage.{StorageError, validate_digest}

pub data PolicyError : Type 0 where
  invalid_inventory : PolicyError
  invalid_retired_digest : PolicyError
  duplicate_digest : PolicyError
  storage_retired : PolicyError
  unreadable : PolicyError
  not_bounded_file : PolicyError
  not_regular : PolicyError
  oversized : PolicyError
  not_json : PolicyError
  malformed_policy : PolicyError
  unsupported_policy : PolicyError

abbrev pub digest_of : Result StorageError (Unit {0}) → Result PolicyError (Unit {0})
digest_of (ok _) = ok tt
digest_of (err _) = err invalid_retired_digest

-- `has`
unfoldable pub has : List Text → Text → Bool
unfolding ◌=ᵇ◌
has digests digest = any (λ d. d =ᵇ digest) digests

-- The loop of the constructor, over the set that it fills.
unfoldable pub add_all : List Text → List Text → Result PolicyError (List Text)
unfolding has validate_digest
add_all set [] = ok set
add_all set (digest ∷ digests) =
    let rest = add_all (set ++ digest ∷ []) digests in
    digest_of (validate_digest digest) >> (guard (not (has set digest)) duplicate_digest >> rest)

-- The constructor.
unfoldable pub make_policy : List Text → Result PolicyError (List Text)
unfolding add_all
make_policy digests = do
  guard (not (ltb 100000 (length digests))) invalid_inventory
  add_all [] digests

-- `assertAllowed`
unfoldable pub assert_allowed : List Text → Text → Result PolicyError (Unit {0})
unfolding has
assert_allowed policy digest = guard (not (has policy digest)) storage_retired
