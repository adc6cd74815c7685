-- ===== src/Api/RoleSession.antt =====
-- api/src/role-session.ts: a session of one actor, which checks a command against the public
-- ledger before it calls the contract. `execute` is given the ledger that `readPublicState` returns
-- while the session holds the private-state provider, and returns the private state that it
-- installs and the contract call that it makes. The contract's pure circuits are those of
-- Contract/Circuits.antt. A tier is a natural number: the negative values of a `bigint`, which are
-- refused as well, are left out.
pub mod Commands
pub mod Checked
pub mod Accepted
pub mod Joining
mod Tests
use vulnseal.Prelude.{
  ℕ, ◌+◌, ◌<◌, String, ◌≡◌, Bool, true, false, not, ◌&&◌, ◌||◌, Option, none, some, List, [], ◌∷◌,
  Bytes, ◌=ᵇ◌, any, lookup, member, ltb, ◌==◌, if◌then◌else◌, Result, ok, err, ◌>>=◌, ◌>>◌, guard,
}
use vulnseal.Contract.Types.{
  Hash, ReportStatus, committed, triaged, accepted, rejected, patch_ready, retest_passed,
  retest_failed, payout_authorized, ◌=ˢ◌, ReportRecord, Ledger, Error,
}
use vulnseal.Contract.Witnesses.{
  ReportPreimage, PartialPreimage, PartialPatch, PartialRetest, PrivateState, create_private_state,
}
use vulnseal.Contract.Circuits.{derive_vendor_key, derive_report_commitment, derive_researcher_key}
use vulnseal.Contract.Calls
use vulnseal.Contract.Calls.{Call}
use vulnseal.Api.VulnSealApi.{ApiError}
use vulnseal.Shared.Hex.{EncodingError, bytes_to_hex, assert_bytes32}

pub data ActorRole : Type 0 where
  vendor : ActorRole
  researcher : ActorRole

abbrev pub role_code : ActorRole → ℕ
role_code vendor = 0
role_code researcher = 1

pub record RoleIdentity : Type 0 where
  pub role : ActorRole
  pub program_id : Bytes
  pub actor_secret : Bytes

pub data RoleCommand : Type 0 where
  submit_report : (report : ReportPreimage) (ciphertext_digest : Bytes) → RoleCommand
  begin_triage : (id : Bytes) → RoleCommand
  accept_report : (id : Bytes) (severity : ℕ) (decision : Bytes) → RoleCommand
  reject_report : (id : Bytes) (decision : Bytes) → RoleCommand
  anchor_patch : (id patch_digest : Bytes) → RoleCommand
  submit_retest :
      (id : Bytes) (report : ReportPreimage) (patch_commitment evidence : Bytes) (passed : Bool)
      → RoleCommand
  authorize_payout : (id : Bytes) (tier : ℕ) → RoleCommand
  close_report : (id : Bytes) → RoleCommand

pub data SessionError : Type 0 where
  not_32_bytes : SessionError
  invalid_address : SessionError
  address_mismatch : SessionError
  api_failure : ApiError → SessionError
  bad_private_state : SessionError
  mismatch : String → SessionError
  cannot_execute : SessionError
  bad_severity : SessionError
  bad_tier : SessionError
  report_exists : SessionError
  report_absent : SessionError
  wrong_stage : SessionError

abbrev pub roles : RoleCommand → ActorRole
roles (submit_report _ _) = researcher
roles (submit_retest _ _ _ _ _) = researcher
roles _ = vendor

-- The public stages at which each command may run; a submission has none.
abbrev pub stages : RoleCommand → List ReportStatus
stages (submit_report _ _) = []
stages (begin_triage _) = committed ∷ []
stages (accept_report _ _ _) = triaged ∷ []
stages (reject_report _ _) = triaged ∷ []
stages (anchor_patch _ _) = accepted ∷ retest_failed ∷ []
stages (submit_retest _ _ _ _ _) = patch_ready ∷ []
stages (authorize_payout _ _) = retest_passed ∷ []
stages (close_report _) = rejected ∷ payout_authorized ∷ []

-- `assertBytes32`, its error as one of the session's.
abbrev pub bytes32_of : Result EncodingError Bytes → Result SessionError Bytes
bytes32_of (ok b) = ok b
bytes32_of (err _) = err not_32_bytes

abbrev pub state_of : Result Error PrivateState → Result SessionError PrivateState
state_of (ok p) = ok p
state_of (err _) = err bad_private_state

-- `equal`: byte strings are compared by their hexadecimal texts.
unfoldable pub equal : Bytes → Bytes → String → Result SessionError (Unit {0})
unfolding bytes_to_hex
equal actual expected label = guard (bytes_to_hex actual =ᵇ bytes_to_hex expected) (mismatch label)

pub record RoleSession : Type 0 where
  pub role : ActorRole
  pub program_id : Bytes
  pub secret : Bytes

-- The constructor.
unfoldable pub open_session : RoleIdentity → Result SessionError RoleSession
unfolding assert_bytes32
open_session identity = do
  program ← bytes32_of (assert_bytes32 identity.program_id)
  secret ← bytes32_of (assert_bytes32 identity.actor_secret)
  ok (record { role = identity.role; program_id = program; secret = secret })

-- The parts of `#preimage`.
unfoldable pub preimage : RoleSession → ReportPreimage → Result SessionError ReportPreimage
unfolding assert_bytes32 equal
preimage s report = do
  program ← bytes32_of (assert_bytes32 report.program_id)
  digest ← bytes32_of (assert_bytes32 report.canonical_digest)
  salt ← bytes32_of (assert_bytes32 report.salt)
  equal program s.program_id "the report program"
  ok (record { program_id = program; canonical_digest = digest; salt = salt })

-- The checks on the numbers of a command. (That `passed` is a Boolean is its type here.)
unfoldable pub check_tiers : RoleCommand → Result SessionError (Unit {0})
check_tiers (accept_report _ severity _) =
    guard (not (ltb severity 1 || ltb 4 severity)) bad_severity
check_tiers (authorize_payout _ tier) = guard (not (ltb tier 1 || ltb 4 tier)) bad_tier
check_tiers _ = ok tt

abbrev pub whole : Option ReportPreimage → Option PartialPreimage
whole none = none
whole (some r) = some (record {
  program_id = some r.program_id;
  canonical_digest = some r.canonical_digest;
  salt = some r.salt;
})

-- A command whose arguments passed: the report's identifier, the preimage, if it has one, and the
-- private state with the command's evidence.
pub record Prepared : Type 0 where
  pub id : Bytes
  pub report : Option ReportPreimage
  pub state : PrivateState

-- The contract call that a command makes.
abbrev pub dispatch : RoleCommand → Bytes → Call
dispatch (submit_report _ ciphertext_digest) id = Calls.submit_report ciphertext_digest
dispatch (begin_triage _) id = Calls.begin_triage id
dispatch (accept_report _ severity decision) id = Calls.accept_report id severity decision
dispatch (reject_report _ decision) id = Calls.reject_report id decision
dispatch (anchor_patch _ _) id = Calls.anchor_patch id
dispatch (submit_retest _ _ _ _ passed) id = Calls.submit_retest id passed
dispatch (authorize_payout _ tier) id = Calls.authorize_payout id tier
dispatch (close_report _) id = Calls.close_report id

module _ (h : Hash) (s : RoleSession) where
  abbrev pub state_with :
      Bytes
      → Option ReportPreimage
      → Option PartialPatch
      → Option PartialRetest
      → Result SessionError Prepared
  state_with id report patch retest = do
    state ← state_of (create_private_state s.secret (whole report) patch retest)
    ok (record { id = id; report = report; state = state })

  -- `execute` up to `withPrivateState`, after the check of the role.
  unfoldable pub prepare : RoleCommand → Result SessionError Prepared
  unfolding assert_bytes32 preimage check_tiers create_private_state derive_report_commitment
  prepare (submit_report report ciphertext_digest) = do
    r ← preimage s report
    _ ← bytes32_of (assert_bytes32 ciphertext_digest)
    state_with (derive_report_commitment h r.program_id r.canonical_digest r.salt) (some r) none
        none
  prepare (accept_report id severity decision) = do
    id' ← bytes32_of (assert_bytes32 id)
    _ ← bytes32_of (assert_bytes32 decision)
    check_tiers (accept_report id severity decision)
    state_with id' none none none
  prepare (reject_report id decision) = do
    id' ← bytes32_of (assert_bytes32 id)
    _ ← bytes32_of (assert_bytes32 decision)
    state_with id' none none none
  prepare (anchor_patch id patch_digest) = do
    id' ← bytes32_of (assert_bytes32 id)
    digest ← bytes32_of (assert_bytes32 patch_digest)
    state_with id' none (some (record { report_id = some id'; patch_digest = some digest })) none
  prepare (submit_retest id report patch_commitment evidence passed) = do
    r ← preimage s report
    id' ← bytes32_of (assert_bytes32 id)
    patch ← bytes32_of (assert_bytes32 patch_commitment)
    digest ← bytes32_of (assert_bytes32 evidence)
    state_with id' (some r) none (
        some (record {
          report_id = some id';
          patch_commitment = some patch;
          evidence_digest = some digest;
        }))
  prepare (authorize_payout id tier) = do
    id' ← bytes32_of (assert_bytes32 id)
    check_tiers (authorize_payout id tier)
    state_with id' none none none
  prepare (begin_triage id) = do id' ← bytes32_of (assert_bytes32 id); state_with id' none none none
  prepare (close_report id) = do id' ← bytes32_of (assert_bytes32 id); state_with id' none none none

  -- `#verifyProgram`
  unfoldable pub verify_program : Ledger → Result SessionError (Unit {0})
  unfolding equal derive_vendor_key
  verify_program l = do
    equal l.program_id s.program_id "the public program"
    elim s.role [
      | vendor ↦ equal l.owner_key (derive_vendor_key h s.program_id s.secret) "vendor authority"
      | researcher ↦ ok tt
    ]

  -- What a retest is held to besides: its preimage, its author and the current patch.
  unfoldable pub check_retest :
      RoleCommand → Prepared → ReportRecord → Result SessionError (Unit {0})
  unfolding equal derive_report_commitment derive_researcher_key
  check_retest (submit_retest _ _ patch_commitment _ _) c record_of = elim c.report [
    | none ↦ ok tt
    | some r ↦ (do
      equal (derive_report_commitment h r.program_id r.canonical_digest r.salt) c.id
          "the report preimage"
      equal record_of.researcher_key (derive_researcher_key h s.program_id c.id s.secret)
          "researcher authority"
      equal record_of.patch_commitment patch_commitment "the current patch commitment")
  ]
  check_retest _ c record_of = ok tt

  -- The checks against a report that the ledger holds.
  unfoldable pub check_report :
      RoleCommand → Prepared → ReportRecord → Result SessionError (Unit {0})
  unfolding equal check_retest
  check_report command c r = do
    equal r.commitment c.id "the ledger report"
    guard (any (λ stage. r.status =ˢ stage) (stages command)) wrong_stage
    check_retest command c r

  -- The checks against the public ledger.
  unfoldable pub check_ledger : RoleCommand → Prepared → Ledger → Result SessionError (Unit {0})
  unfolding lookup check_report
  check_ledger (submit_report _ _) c l = guard (not (member c.id l.reports)) report_exists
  check_ledger command c l = elim (lookup c.id l.reports) [
    | none ↦ err report_absent
    | some r ↦ check_report command c r
  ]

  unfoldable pub execute : RoleCommand → Ledger → Result SessionError (PrivateState × Call)
  unfolding prepare verify_program check_ledger
  execute command l = do
    guard (role_code (roles command) == role_code s.role) cannot_execute
    c ← prepare command
    verify_program l
    check_ledger command c l
    ok (c.state, dispatch command c.id)
