-- ===== src/Cipherstore/Retirement/Members.antt =====
-- What a retirement policy of cipherstore/src/retirement-policy.ts holds.
use vulnseal.Prelude.{
  ◌≤◌, ◌≡◌, refl, sym, ◌∙◌, Bool, true, false, not, List, [], ◌∷◌, ◌++◌, length, ltb, Result, ok,
  err, >>=-ok, guard-ok, arith,
}
use mathlib.Core.List.{append-nil, append_assoc}
use vulnseal.Shared.Hex.{Text}
use vulnseal.Cipherstore.Storage.{StorageError, validate_digest}
use vulnseal.Cipherstore.Retirement.{digest_of, has, add_all, make_policy}

-- Every digest is valid and none comes twice.
abbrev pub Listed : List Text → List Text → Type 0
Listed before [] = Unit {0}
Listed before (d ∷ ds) =
    (validate_digest d ≡ ok tt) × (has before d ≡ false) × Listed (before ++ d ∷ []) ds

digest_of-ok : (m : Result StorageError (Unit {0})) → digest_of m ≡ ok tt → m ≡ ok tt
digest_of-ok (ok _) e = refl
digest_of-ok (err x) e = cc

not-false : (b : Bool) → not b ≡ true → b ≡ false
not-false b e = ground arith

add_all-ok :
    (set digests policy : List Text)
    → add_all set digests ≡ ok policy
    → (policy ≡ set ++ digests) × Listed set digests
unfolding add_all
add_all-ok set [] policy e = (let same : set ≡ policy = cc in sym same ∙ sym (append-nil set), tt)
add_all-ok set (d ∷ ds) policy e = >>=-ok (digest_of (validate_digest d)) _ e λ _ valid e1.
    guard-ok (not (has set d)) _ _ e1 λ fresh e2.
      let (same, rest) = add_all-ok (set ++ d ∷ []) ds policy e2 in
      (
        same ∙ append_assoc set (d ∷ []) ds,
        (digest_of-ok (validate_digest d) valid, not-false (has set d) fresh, rest),
      )

-- A policy that is made is the list that it is made of: at most 100000 valid digests, none of them
-- twice.
make_policy_sound :
    (digests policy : List Text)
    → make_policy digests ≡ ok policy
    → (policy ≡ digests) × (length digests ≤ 100000) × Listed [] digests
unfolding make_policy
make_policy_sound digests policy e = guard-ok (not (ltb 100000 (length digests))) _ _ e λ small e1.
    let (same, listed) = add_all-ok [] digests policy e1 in (same, ground (arith, small), listed)
