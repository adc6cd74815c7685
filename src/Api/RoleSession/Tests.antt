-- ===== src/Api/RoleSession/Tests.antt =====
-- The session's theorems at the concrete contract of Contract/Sample.antt: a researcher
-- submits the first report, and the vendor is refused the triage of a report that is not there.
use vulnseal.Prelude.{
  ◌≡◌, refl, List, [], ◌∷◌, arith, Bytes, All, none, ok, err, lookup, insert, ◌=ᵇ◌, zero, suc,
  replicate, ℕ,
}
use vulnseal.Contract.Types.{zero32, Ledger, pad32}
use vulnseal.Contract.Witnesses.{PrivateState, create_private_state, bytes32, field_or_zero}
use vulnseal.Contract.Circuits.{
  derive_vendor_key, derive_report_commitment, derive_researcher_key, derive_submission_receipt,
  derive_patch_commitment, derive_retest_commitment, derive_payout_receipt,
}
use vulnseal.Contract.Calls
use vulnseal.Contract.Calls.{run}
use vulnseal.Contract.Invariant.{IsLedger}
use vulnseal.Contract.Sample.{toy, mix, bytes, id, start}
use vulnseal.Shared.Hex.{IsByte, bytes_to_hex, assert_bytes32}
use vulnseal.Api.RoleSession.{
  RoleSession, RoleCommand, vendor, researcher, submit_report, begin_triage, execute, report_absent,
}
use vulnseal.Api.RoleSession.Checked.{HashesBytes, IsBytesLedger}
use vulnseal.Api.RoleSession.Accepted.{execute_runs}

hashes : Unit {0}
unfolding derive_vendor_key derive_report_commitment derive_researcher_key derive_submission_receipt
    derive_patch_commitment derive_retest_commitment derive_payout_receipt pad32 lookup insert ◌=ᵇ◌
hashes = tt

abbrev session : RoleSession
session = record { role = researcher; program_id = bytes 1; secret = bytes 21 }

mix-IsByte : (xs : List Bytes) → IsByte (mix xs)
mix-IsByte [] = omega arith
mix-IsByte (x ∷ xs) = omega arith

filled : (n : ℕ) → IsByte n → All IsByte (bytes n)
filled n h = (h, All_replicate 31)
  where
    All_replicate : (m : ℕ) → All IsByte (replicate m 0)
    All_replicate zero = tt
    All_replicate (suc m) = (omega arith, All_replicate m)

toy-HashesBytes : HashesBytes toy
toy-HashesBytes xs = filled (mix xs) (mix-IsByte xs)

abbrev command : RoleCommand
command =
    submit_report (record { program_id = bytes 1; canonical_digest = bytes 30; salt = bytes 31 })
      (bytes 60)

abbrev installed : PrivateState
installed = record {
  actor_secret = bytes 21;
  report = record { program_id = bytes 1; canonical_digest = bytes 30; salt = bytes 31 };
  patch = record { report_id = zero32; patch_digest = zero32 };
  retest = record { report_id = zero32; patch_commitment = zero32; evidence_digest = zero32 };
}

executed : execute toy session command start ≡ ok (installed, Calls.submit_report (bytes 60))
unfolding execute create_private_state bytes32 field_or_zero bytes_to_hex assert_bytes32 hashes
executed = refl

refused :
    execute toy
      (record { role = vendor; program_id = bytes 1; secret = bytes 20 })
      (begin_triage id)
      start
    ≡ err report_absent
unfolding execute create_private_state bytes32 field_or_zero bytes_to_hex assert_bytes32 hashes
refused = refl

start-IsBytesLedger : IsBytesLedger start
unfolding hashes
start-IsBytesLedger = record {
  program = filled 1 (omega arith);
  owner = filled _ (mix-IsByte (pad32 "vulnseal:vendor-key:v1" ∷ bytes 1 ∷ bytes 20 ∷ []));
  researcher_at = λ id r e. absurd (cc e);
  patch_at = λ id r e. absurd (cc e);
}

start-IsLedger : IsLedger toy start
unfolding hashes
start-IsLedger = record { at_key = λ id r e. absurd (cc e) }

execute_runs_example :
    (l' : Ledger) × (run toy (Calls.submit_report (bytes 60)) installed start ≡ ok l')
execute_runs_example =
    execute_runs toy session toy-HashesBytes (filled 1 (omega arith)) start start-IsBytesLedger
      start-IsLedger (omega arith) command (filled 1 (omega arith)) tt executed

-- A private state with a secret alone.
abbrev lone : PrivateState
lone = record installed {
  report = record { program_id = zero32; canonical_digest = zero32; salt = zero32 };
}

created : create_private_state (bytes 21) none none none ≡ ok lone
unfolding create_private_state bytes32 field_or_zero
created = refl
