-- ===== src/Shared/State.antt =====
-- packages/shared/src/state.ts and types.ts: the statuses of a report as the contract numbers them,
-- and as the public sees them.
use vulnseal.Prelude.{ℕ, zero, suc, arith, ◌≡◌, refl, ◌↔◌, Option, none, some, List, [], ◌∷◌}
use vulnseal.Contract.Types.{
  ReportStatus, committed, triaged, accepted, rejected, patch_ready, retest_passed, retest_failed,
  payout_authorized, closed, status_code, ascii,
}
use vulnseal.Shared.Hex.{Text}

-- `REPORT_STATUS`
abbrev pub report_status : List ReportStatus
report_status =
    committed ∷ triaged ∷ accepted ∷ rejected ∷ patch_ready ∷ retest_passed ∷ retest_failed
    ∷ payout_authorized ∷ closed ∷ []

-- `list[index]`
abbrev pub get_elem? {ℓ} : {A : Type ℓ} → List A → ℕ → Option A
get_elem? [] n = none
get_elem? (x ∷ xs) zero = some x
get_elem? (x ∷ xs) (suc n) = get_elem? xs n

-- `none` stands for the error of an unknown status.
unfoldable pub contract_status_name : ℕ → Option ReportStatus
contract_status_name value = get_elem? report_status value

unfoldable pub public_status_label : ReportStatus → Text
public_status_label committed = ascii "Sealed"
public_status_label triaged = ascii "In triage"
public_status_label accepted = ascii "Accepted"
public_status_label rejected = ascii "Rejected"
public_status_label patch_ready = ascii "Patch ready"
public_status_label retest_passed = ascii "Retest passed"
public_status_label retest_failed = ascii "Retest failed"
public_status_label payout_authorized = ascii "Payout authorized"
public_status_label closed = ascii "Closed"

contract_status_name-status_code :
    (s : ReportStatus) → contract_status_name (status_code s) ≡ some s
unfolding contract_status_name
contract_status_name-status_code committed = refl
contract_status_name-status_code triaged = refl
contract_status_name-status_code accepted = refl
contract_status_name-status_code rejected = refl
contract_status_name-status_code patch_ready = refl
contract_status_name-status_code retest_passed = refl
contract_status_name-status_code retest_failed = refl
contract_status_name-status_code payout_authorized = refl
contract_status_name-status_code closed = refl

code_of : (n : ℕ) (s : ReportStatus) → contract_status_name n ≡ some s → n ≡ status_code s
unfolding contract_status_name
code_of n s h = ground (arith, h)

-- The client names a status number exactly as the contract numbers that status.
contract_status_name_iff :
    (n : ℕ) (s : ReportStatus) → (contract_status_name n ≡ some s) ↔ (n ≡ status_code s)
unfolding contract_status_name
contract_status_name_iff n s = (code_of n s, λ e. rw e (contract_status_name-status_code s))
