-- ===== src/Api/RoleSession/Checked.antt =====
-- api/src/role-session.ts: what the session's checks find in the ledger.
use vulnseal.Prelude.{
  ◌>>◌, ◌≡◌, Bool, true, false, none, some, arith, Bytes, lookup, member, All, ok, err, >>=-ok,
  guard-ok, any, Option-cases, inl, inr,
}
use vulnseal.Contract.Types.{Hash, ReportRecord, Ledger, ◌=ˢ◌}
use vulnseal.Contract.Witnesses.{ReportPreimage}
use vulnseal.Contract.Circuits.{
  derive_vendor_key, derive_report_commitment, derive_researcher_key, derive_payout_receipt,
}
use vulnseal.Shared.Hex.{IsByte}
use vulnseal.Api.RoleSession.{
  RoleSession, RoleCommand, submit_report, submit_retest, authorize_payout, Prepared, equal,
  verify_program, check_retest, check_report, report_absent, role_code, stages,
}
use vulnseal.Api.RoleSession.Commands.{equal-ok}

-- The hash makes bytes, as Compact's `Bytes<32>` says.
abbrev pub HashesBytes : Hash → Type 0
HashesBytes h = (xs : _) → All IsByte (h.vec xs)

-- What the session compares as text is made of bytes.
pub record IsBytesLedger (l : Ledger) : Type 0 where
  pub program : All IsByte l.program_id
  pub owner : All IsByte l.owner_key
  pub researcher_at :
      (id : Bytes) (r : ReportRecord) → lookup id l.reports ≡ some r → All IsByte r.researcher_key
  pub patch_at :
      (id : Bytes) (r : ReportRecord) → lookup id l.reports ≡ some r → All IsByte r.patch_commitment

-- The byte strings of a command that the session compares.
abbrev pub IsBytesCommand : RoleCommand → Type 0
IsBytesCommand (submit_report report _) = All IsByte report.program_id
IsBytesCommand (submit_retest id report patch_commitment _ _) =
    All IsByte id × All IsByte report.program_id × All IsByte patch_commitment
IsBytesCommand _ = Unit

-- The receipt of a payout is not in use.
abbrev pub IsUnpaid : Hash → RoleCommand → Ledger → Type 0
IsUnpaid h (authorize_payout id tier) l = elim (lookup id l.reports) [
  | none ↦ Unit {0}
  | some r ↦
      member (derive_payout_receipt h id r.patch_commitment r.retest_commitment tier)
        l.payout_receipts
      ≡ false
]
IsUnpaid h _ l = Unit {0}

module _ (h : Hash) (s : RoleSession) (l : Ledger) where
  -- The report that a command names: it is in the ledger, at a stage of the command.
  pub record Found (command : RoleCommand) (c : Prepared) (id : Bytes) : Type 0 where
    pub report : ReportRecord
    pub found : lookup id l.reports ≡ some report
    pub stage : any (λ stage. report.status =ˢ stage) (stages command) ≡ true
    pub retest : check_retest h s command c report ≡ ok tt

  pub on_report :
      (command : RoleCommand) (c : Prepared) (id : Bytes)
      → c.id ≡ id
      → elim (lookup c.id l.reports) [
        | none ↦ err report_absent
        | some r ↦ check_report h s command c r
      ]
        ≡ ok tt
      → Found command c id
  unfolding check_report
  on_report command c id same e = elim (Option-cases (lookup c.id l.reports)) [
    | inl absent ↦ absurd (cc (rw absent at e))
    | inr (r, there) ↦
        let e1 : check_report h s command c r ≡ ok tt = rw there at e in
        >>=-ok (equal r.commitment c.id "the ledger report") _ e1 λ _ _ e2.
          guard-ok (any (λ stage. r.status =ˢ stage) (stages command)) _ _ e2 λ staged e3. record {
            report = r;
            found = rw same at there;
            stage = staged;
            retest = e3;
          }
  ]

module _ (h : Hash) (s : RoleSession) (hashes : HashesBytes h) where
  pub retest_checks :
      (id : Bytes) (report : ReportPreimage) (patch evidence : Bytes) (passed : Bool) (c : Prepared)
      (r : ReportRecord)
      → c.report ≡ some report
      → c.id ≡ id
      → check_retest h s (submit_retest id report patch evidence passed) c r ≡ ok tt
      → All IsByte id
      → All IsByte r.researcher_key
      → All IsByte r.patch_commitment
      → All IsByte patch
      → (derive_report_commitment h report.program_id report.canonical_digest report.salt ≡ id)
        × (r.researcher_key ≡ derive_researcher_key h s.program_id id s.secret)
        × (r.patch_commitment ≡ patch)
  unfolding check_retest derive_report_commitment derive_researcher_key
  retest_checks id report patch evidence passed c r same named e hid hr hp hq =
      let e0 : (do
        equal (derive_report_commitment h report.program_id report.canonical_digest report.salt) id
            "the report preimage"
        equal r.researcher_key (derive_researcher_key h s.program_id id s.secret)
            "researcher authority"
        equal r.patch_commitment patch "the current patch commitment")
          ≡ ok tt =
        rw (same, named) at e in
      >>=-ok
        (equal (derive_report_commitment h report.program_id report.canonical_digest report.salt) id
          "the report preimage")
        _ e0
        λ _ opened e1.
          >>=-ok
            (equal r.researcher_key (derive_researcher_key h s.program_id id s.secret)
              "researcher authority")
            _ e1
            λ _ author e2. (
              equal-ok _ id "the report preimage" opened (hashes _) hid,
              equal-ok r.researcher_key _ "researcher authority" author hr (hashes _),
              equal-ok r.patch_commitment patch "the current patch commitment" e2 hp hq,
            )

  module _ (own : All IsByte s.program_id) (l : Ledger) (bytes : IsBytesLedger l) where
    pub program_of_session : verify_program h s l ≡ ok tt → l.program_id ≡ s.program_id
    unfolding verify_program
    program_of_session e =
        equal-ok l.program_id s.program_id "the public program" (ground arith) bytes.program own

    pub owner_of_session :
        role_code s.role ≡ 0
        → verify_program h s l ≡ ok tt
        → l.owner_key ≡ derive_vendor_key h l.program_id s.secret
    unfolding verify_program derive_vendor_key
    owner_of_session is e = rw (program_of_session e) (
        equal-ok l.owner_key (derive_vendor_key h s.program_id s.secret) "vendor authority"
          (ground arith) bytes.owner (hashes _))
