-- ===== src/Contract/Witnesses/Checked.antt =====
-- What a private state of contract/src/witnesses.ts holds once it is created.
use vulnseal.Prelude.{◌≡◌, refl, arith, Option, Bytes, length, ok}
use vulnseal.Contract.Witnesses.{
  PartialPreimage, PartialPatch, PartialRetest, PrivateState, create_private_state, field_or_zero,
  bytes32, actor_secret, report_preimage, patch_evidence, retest_evidence,
}

-- Every part is of 32 bytes.
pub record IsPrivateState (p : PrivateState) : Type 0 where
  pub secret : length p.actor_secret ≡ 32
  pub program_id : length p.report.program_id ≡ 32
  pub canonical_digest : length p.report.canonical_digest ≡ 32
  pub salt : length p.report.salt ≡ 32
  pub patch_id : length p.patch.report_id ≡ 32
  pub patch_digest : length p.patch.patch_digest ≡ 32
  pub retest_id : length p.retest.report_id ≡ 32
  pub retest_patch : length p.retest.patch_commitment ≡ 32
  pub evidence : length p.retest.evidence_digest ≡ 32

-- Every part is the argument's, or the default.
pub record IsMadeOf (secret : Bytes) (report : Option PartialPreimage) (patch : Option PartialPatch)
    (retest : Option PartialRetest) (p : PrivateState) : Type 0 where
  pub same_secret : p.actor_secret ≡ secret
  pub same_program : p.report.program_id ≡ field_or_zero report (λ r. r.program_id)
  pub same_digest : p.report.canonical_digest ≡ field_or_zero report (λ r. r.canonical_digest)
  pub same_salt : p.report.salt ≡ field_or_zero report (λ r. r.salt)
  pub same_patch_id : p.patch.report_id ≡ field_or_zero patch (λ r. r.report_id)
  pub same_patch_digest : p.patch.patch_digest ≡ field_or_zero patch (λ r. r.patch_digest)
  pub same_retest_id : p.retest.report_id ≡ field_or_zero retest (λ r. r.report_id)
  pub same_retest_patch : p.retest.patch_commitment ≡ field_or_zero retest (λ r. r.patch_commitment)
  pub same_evidence : p.retest.evidence_digest ≡ field_or_zero retest (λ r. r.evidence_digest)

module _ (secret : Bytes) (report : Option PartialPreimage) (patch : Option PartialPatch)
    (retest : Option PartialRetest) (p : PrivateState) where
  -- A private state that is created has the given parts, each of 32 bytes.
  pub create_private_state_sound :
      create_private_state secret report patch retest ≡ ok p
      → IsPrivateState p × IsMadeOf secret report patch retest p
  unfolding create_private_state bytes32
  create_private_state_sound e = ground arith

-- The four witnesses return the parts of a private state that was created, and leave it as it was.
witnesses_return :
    (secret : Bytes) (report : Option PartialPreimage) (patch : Option PartialPatch)
    (retest : Option PartialRetest) (p : PrivateState)
    → create_private_state secret report patch retest ≡ ok p
    → (actor_secret p ≡ ok (p, p.actor_secret))
      × (report_preimage p ≡ ok (p, p.report))
      × (patch_evidence p ≡ ok (p, p.patch))
      × (retest_evidence p ≡ ok (p, p.retest))
unfolding actor_secret report_preimage patch_evidence retest_evidence bytes32
witnesses_return secret report patch retest p e =
    let (v, _) = create_private_state_sound secret report patch retest p e in
    (
      rw v.secret refl,
      rw (v.program_id, v.canonical_digest, v.salt) refl,
      rw (v.patch_id, v.patch_digest) refl,
      rw (v.retest_id, v.retest_patch, v.evidence) refl,
    )
