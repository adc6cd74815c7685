-- ===== src/Contract/Witnesses.antt =====
-- contract/src/witnesses.ts: the private state of one actor, and what the circuits read of it.
-- A `Uint8Array` is the list of its bytes; the copies that the source makes share nothing here.
pub mod Checked
use vulnseal.Prelude.{
  ℕ, String, Option, none, some, Bytes, length, replicate, ◌==◌, if◌then◌else◌, Result, ok, err,
  ◌>>=◌,
}
use vulnseal.Contract.Types.{Error, not_bytes32}

pub record ReportPreimage : Type 0 where
  pub program_id : Bytes
  pub canonical_digest : Bytes
  pub salt : Bytes

pub record PatchEvidence : Type 0 where
  pub report_id : Bytes
  pub patch_digest : Bytes

pub record RetestEvidence : Type 0 where
  pub report_id : Bytes
  pub patch_commitment : Bytes
  pub evidence_digest : Bytes

pub record PrivateState : Type 0 where
  pub actor_secret : Bytes
  pub report : ReportPreimage
  pub patch : PatchEvidence
  pub retest : RetestEvidence

abbrev pub byte_length : ℕ
byte_length = 32

unfoldable pub zero_bytes : Bytes
zero_bytes = replicate byte_length 0

unfoldable pub bytes32 : Bytes → String → Result Error Bytes
bytes32 value label = if length value == byte_length then ok value else err (not_bytes32 label)

-- The `Partial<…>` arguments, each of whose fields may be left out.
pub record PartialPreimage : Type 0 where
  pub program_id : Option Bytes
  pub canonical_digest : Option Bytes
  pub salt : Option Bytes

pub record PartialPatch : Type 0 where
  pub report_id : Option Bytes
  pub patch_digest : Option Bytes

pub record PartialRetest : Type 0 where
  pub report_id : Option Bytes
  pub patch_commitment : Option Bytes
  pub evidence_digest : Option Bytes

-- `part?.field ?? zero()`
unfoldable pub field_or_zero {ℓ} : {P : Type ℓ} → Option P → (P → Option Bytes) → Bytes
unfolding zero_bytes
field_or_zero none field = zero_bytes
field_or_zero (some part) field = elim (field part) [ none ↦ zero_bytes | some value ↦ value ]

unfoldable pub create_private_state :
    Bytes
    → Option PartialPreimage
    → Option PartialPatch
    → Option PartialRetest
    → Result Error PrivateState
unfolding bytes32
create_private_state actor_secret report patch retest = do
  secret ← bytes32 actor_secret "actorSecret"
  program_id ← bytes32 (field_or_zero report (λ r. r.program_id)) "report.programId"
  digest ← bytes32 (field_or_zero report (λ r. r.canonical_digest)) "report.canonicalDigest"
  salt ← bytes32 (field_or_zero report (λ r. r.salt)) "report.salt"
  patch_id ← bytes32 (field_or_zero patch (λ r. r.report_id)) "patch.reportId"
  patch_digest ← bytes32 (field_or_zero patch (λ r. r.patch_digest)) "patch.patchDigest"
  retest_id ← bytes32 (field_or_zero retest (λ r. r.report_id)) "retest.reportId"
  retest_patch ← bytes32 (field_or_zero retest (λ r. r.patch_commitment)) "retest.patchCommitment"
  evidence ← bytes32 (field_or_zero retest (λ r. r.evidence_digest)) "retest.evidenceDigest"
  ok (record {
    actor_secret = secret;
    report = record { program_id = program_id; canonical_digest = digest; salt = salt };
    patch = record { report_id = patch_id; patch_digest = patch_digest };
    retest = record {
      report_id = retest_id;
      patch_commitment = retest_patch;
      evidence_digest = evidence;
    };
  })

-- Each witness returns the private state that it was given, and the checked bytes.
unfoldable pub actor_secret : PrivateState → Result Error (PrivateState × Bytes)
unfolding bytes32
actor_secret p = do secret ← bytes32 p.actor_secret "actorSecret"; ok (p, secret)

unfoldable pub report_preimage : PrivateState → Result Error (PrivateState × ReportPreimage)
unfolding bytes32
report_preimage p = do
  program_id ← bytes32 p.report.program_id "report.programId"
  digest ← bytes32 p.report.canonical_digest "report.canonicalDigest"
  salt ← bytes32 p.report.salt "report.salt"
  ok (p, record { program_id = program_id; canonical_digest = digest; salt = salt })

unfoldable pub patch_evidence : PrivateState → Result Error (PrivateState × PatchEvidence)
unfolding bytes32
patch_evidence p = do
  report_id ← bytes32 p.patch.report_id "patch.reportId"
  patch_digest ← bytes32 p.patch.patch_digest "patch.patchDigest"
  ok (p, record { report_id = report_id; patch_digest = patch_digest })

unfoldable pub retest_evidence : PrivateState → Result Error (PrivateState × RetestEvidence)
unfolding bytes32
retest_evidence p = do
  report_id ← bytes32 p.retest.report_id "retest.reportId"
  patch ← bytes32 p.retest.patch_commitment "retest.patchCommitment"
  evidence ← bytes32 p.retest.evidence_digest "retest.evidenceDigest"
  ok (p, record { report_id = report_id; patch_commitment = patch; evidence_digest = evidence })
