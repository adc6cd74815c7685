-- ===== src/Api/RoleSession/Accepted.antt =====
-- api/src/role-session.ts: what passes the session's checks passes the contract's.
use vulnseal.Prelude.{
  ℕ, ◌+◌, ◌<◌, ◌≡◌, refl, sym, ap, ◌∙◌, Bool, true, none, some, arith, Bytes, lookup, length, All,
  ok, >>=-ok, guard-ok, ◌==◌,
}
use vulnseal.Contract.Types.{
  Hash, Ledger, retest_passed, committed, triaged, accepted, rejected, retest_failed,
  payout_authorized, patch_ready,
}
use vulnseal.Contract.Witnesses.{PrivateState, ReportPreimage, field_or_zero}
use vulnseal.Contract.Circuits.{uint64_mod, derive_report_commitment, derive_researcher_key}
use vulnseal.Contract.Witnesses.Checked.{IsPrivateState, IsMadeOf}
use vulnseal.Contract.Inversion.{status_or, not-member}
use vulnseal.Contract.Effects.{IsOwner, Opens, IsResearcher, =ˢ-eq}
use vulnseal.Contract.Calls.{Call, run, ledger_of}
use vulnseal.Contract.Invariant.{IsLedger, Phase}
use vulnseal.Contract.Progress.{
  submit_report-run, begin_triage-run, accept_report-run, reject_report-run, anchor_patch-run,
  submit_retest-run, authorize_payout-run, close_report-run,
}
use vulnseal.Shared.Hex.{IsByte}
use vulnseal.Api.RoleSession.{
  RoleSession, RoleCommand, submit_report, begin_triage, accept_report, reject_report, anchor_patch,
  submit_retest, authorize_payout, close_report, Prepared, prepare, verify_program, check_ledger,
  dispatch, execute, role_code, roles,
}
use vulnseal.Api.RoleSession.Commands.{
  submit_report-Made, begin_triage-Made, accept_report-Made, reject_report-Made, anchor_patch-Made,
  submit_retest-Made, authorize_payout-Made, close_report-Made,
}
use vulnseal.Api.RoleSession.Checked.{
  HashesBytes, IsBytesLedger, IsBytesCommand, IsUnpaid, on_report, retest_checks,
  program_of_session, owner_of_session,
}

module _ (h : Hash) (s : RoleSession) (hashes : HashesBytes h) (own : All IsByte s.program_id)
    (l : Ledger) (bytes : IsBytesLedger l) (v : IsLedger h l)
    (fits : l.sequence + 1 < uint64_mod) where
  Runs : RoleCommand → Prepared → Type 0
  Runs command c = (l' : Ledger) × (run h (dispatch command c.id) c.state l ≡ ok l')

  Runs-at :
      (command : RoleCommand) (c : Prepared) (id : Bytes)
      → c.id ≡ id
      → {l' : Ledger} → run h (dispatch command id) c.state l ≡ ok l'
      → Runs command c
  unfolding Runs
  Runs-at command c id same {l'} e = (l', rw same e)

  module _ (c : Prepared) (checked : verify_program h s l ≡ ok tt) where
    opens :
        (r : ReportPreimage) (id : Bytes)
        → IsPrivateState c.state
        → c.state.report ≡ r
        → r.program_id ≡ s.program_id
        → derive_report_commitment h r.program_id r.canonical_digest r.salt ≡ id
        → Opens h c.state l id
    opens r id private same ours derived = (
      private.program_id,
      private.canonical_digest,
      private.salt,
      rw same (ours ∙ sym (program_of_session h s hashes own l bytes checked)),
      rw same derived,
    )

    same_preimage :
        (r : ReportPreimage) {patch : _} {retest : _}
        → IsMadeOf s.secret
            (some (record {
              program_id = some r.program_id;
              canonical_digest = some r.canonical_digest;
              salt = some r.salt;
            }))
            patch
            retest
            c.state
        → c.state.report ≡ r
    unfolding field_or_zero
    same_preimage r m = cc (m.same_program, m.same_digest, m.same_salt)

    module _ (is_vendor : role_code s.role ≡ 0) where
      owner : IsPrivateState c.state → c.state.actor_secret ≡ s.secret → IsOwner h c.state l
      owner private same =
          (private.secret, rw same (owner_of_session h s hashes own l bytes is_vendor checked))

      begin_triage-Runs :
          (id : Bytes)
          → prepare h s (begin_triage id) ≡ ok c
          → check_ledger h s (begin_triage id) c l ≡ ok tt
          → Runs (begin_triage id) c
      unfolding check_ledger run
      begin_triage-Runs id e g =
          let m = begin_triage-Made h s c id e in
          let r = on_report h s l (begin_triage id) c id m.same_id g in
          let stage = =ˢ-eq r.report.status committed (ground (arith, r.stage)) in
          Runs-at (begin_triage id) c id m.same_id (
            begin_triage-run h id c.state l fits r.report r.found
              (owner m.private m.made.same_secret) stage)

      accept_report-Runs :
          (id : Bytes) (severity : ℕ) (decision : Bytes)
          → prepare h s (accept_report id severity decision) ≡ ok c
          → check_ledger h s (accept_report id severity decision) c l ≡ ok tt
          → Runs (accept_report id severity decision) c
      unfolding check_ledger run
      accept_report-Runs id severity decision e g =
          let (m, tier) = accept_report-Made h s c id severity decision e in
          let r = on_report h s l (accept_report id severity decision) c id m.same_id g in
          let stage = =ˢ-eq r.report.status triaged (ground (arith, r.stage)) in
          Runs-at (accept_report id severity decision) c id m.same_id (
            accept_report-run h id c.state l fits r.report r.found
              (owner m.private m.made.same_secret) severity decision tier.0 tier.1 stage)

      reject_report-Runs :
          (id decision : Bytes)
          → prepare h s (reject_report id decision) ≡ ok c
          → check_ledger h s (reject_report id decision) c l ≡ ok tt
          → Runs (reject_report id decision) c
      unfolding check_ledger run
      reject_report-Runs id decision e g =
          let m = reject_report-Made h s c id decision e in
          let r = on_report h s l (reject_report id decision) c id m.same_id g in
          let stage = =ˢ-eq r.report.status triaged (ground (arith, r.stage)) in
          Runs-at (reject_report id decision) c id m.same_id (
            reject_report-run h id c.state l fits r.report r.found
              (owner m.private m.made.same_secret) decision stage)

      close_report-Runs :
          (id : Bytes)
          → prepare h s (close_report id) ≡ ok c
          → check_ledger h s (close_report id) c l ≡ ok tt
          → Runs (close_report id) c
      unfolding check_ledger run
      close_report-Runs id e g =
          let m = close_report-Made h s c id e in
          let r = on_report h s l (close_report id) c id m.same_id g in
          Runs-at (close_report id) c id m.same_id (
            close_report-run h id c.state l fits r.report r.found
              (owner m.private m.made.same_secret)
              (status_or r.report.status rejected payout_authorized (ground (arith, r.stage))))

      anchor_patch-Runs :
          (id digest : Bytes)
          → prepare h s (anchor_patch id digest) ≡ ok c
          → check_ledger h s (anchor_patch id digest) c l ≡ ok tt
          → Runs (anchor_patch id digest) c
      unfolding check_ledger run field_or_zero
      anchor_patch-Runs id digest e g =
          let m = anchor_patch-Made h s c id digest e in
          let r = on_report h s l (anchor_patch id digest) c id m.same_id g in
          let patch_id : c.state.patch.report_id ≡ id = m.made.same_patch_id in
          let long : length id ≡ 32 = rw (← patch_id) m.private.patch_id in
          Runs-at (anchor_patch id digest) c id m.same_id (
            ap ledger_of (
              anchor_patch-run h id c.state l fits r.report r.found
                (owner m.private m.made.same_secret)
                (status_or r.report.status accepted retest_failed (ground (arith, r.stage)))
                patch_id long m.private.patch_digest))

      authorize_payout-Runs :
          (id : Bytes) (tier : ℕ)
          → IsUnpaid h (authorize_payout id tier) l
          → prepare h s (authorize_payout id tier) ≡ ok c
          → check_ledger h s (authorize_payout id tier) c l ≡ ok tt
          → Runs (authorize_payout id tier) c
      unfolding check_ledger run
      authorize_payout-Runs id tier unpaid e g =
          let (m, tiers) = authorize_payout-Made h s c id tier e in
          let r = on_report h s l (authorize_payout id tier) c id m.same_id g in
          let stage = =ˢ-eq r.report.status retest_passed (ground (arith, r.stage)) in
          let phase : Phase h id r.report retest_passed =
            rw stage at (v.at_key id r.report r.found).phase in
          Runs-at (authorize_payout id tier) c id m.same_id (
            ap ledger_of (
              authorize_payout-run h id c.state l fits r.report r.found
                (owner m.private m.made.same_secret) tier tiers.0 tiers.1 stage phase.2.2
                (rw (r.found, IsUnpaid) at unpaid)))

    submit_report-Runs :
        (report : ReportPreimage) (encrypted : Bytes)
        → All IsByte report.program_id
        → prepare h s (submit_report report encrypted) ≡ ok c
        → check_ledger h s (submit_report report encrypted) c l ≡ ok tt
        → Runs (submit_report report encrypted) c
    unfolding check_ledger run
    submit_report-Runs report encrypted octets e g =
        let (m, ours) = submit_report-Made h s c report encrypted e octets own in
        let id = derive_report_commitment h report.program_id report.canonical_digest report.salt in
        let absent : lookup id l.reports ≡ none =
          not-member id l.reports (rw (← m.same_id) (ground (arith, g))) in
        Runs-at (submit_report report encrypted) c id m.same_id (
          ap ledger_of (
            submit_report-run h id c.state l fits encrypted
              (opens report id m.private (same_preimage report m.made) ours refl) m.private.secret
              absent))

    author_at :
        (key id : Bytes)
        → c.state.actor_secret ≡ s.secret
        → key ≡ derive_researcher_key h s.program_id id s.secret
        → key ≡ derive_researcher_key h l.program_id id c.state.actor_secret
    author_at key id same author =
        rw (same, program_of_session h s hashes own l bytes checked) author

    submit_retest-Runs :
        (id : Bytes) (report : ReportPreimage) (patch evidence : Bytes) (passed : Bool)
        → IsBytesCommand (submit_retest id report patch evidence passed)
        → prepare h s (submit_retest id report patch evidence passed) ≡ ok c
        → check_ledger h s (submit_retest id report patch evidence passed) c l ≡ ok tt
        → Runs (submit_retest id report patch evidence passed) c
    unfolding check_ledger run field_or_zero
    submit_retest-Runs id report patch evidence passed octets e g =
        let (m, ours) = submit_retest-Made h s c id report patch evidence passed e octets.1 own in
        let r = on_report h s l (submit_retest id report patch evidence passed) c id m.same_id g in
        let (derived, author, current) =
          retest_checks h s hashes id report patch evidence passed c r.report m.same_report
            m.same_id r.retest octets.0 (bytes.researcher_at id r.report r.found)
            (bytes.patch_at id r.report r.found) octets.2 in
        let patched : c.state.retest.patch_commitment ≡ r.report.patch_commitment =
          m.made.same_retest_patch ∙ sym current in
        let long : length id ≡ 32 = rw (← m.made.same_retest_id) m.private.retest_id in
        let who : IsResearcher h c.state l id r.report = (
          opens report id m.private (same_preimage report m.made) ours derived,
          m.private.secret,
          author_at r.report.researcher_key id m.made.same_secret author,
        ) in
        Runs-at (submit_retest id report patch evidence passed) c id m.same_id (
          ap ledger_of (
            submit_retest-run h id c.state l fits r.report r.found passed
              (=ˢ-eq r.report.status patch_ready (ground (arith, r.stage))) who
              m.made.same_retest_id long patched (rw (← patched) m.private.retest_patch)
              m.private.evidence))

  -- What the session checks, the contract accepts.
  pub execute_runs :
      (command : RoleCommand)
      → IsBytesCommand command
      → IsUnpaid h command l
      → {p : PrivateState} {call : Call} → execute h s command l ≡ ok (p, call)
      → (l' : Ledger) × (run h call p l ≡ ok l')
  unfolding execute Runs
  execute_runs command octets unpaid e =
      guard-ok (role_code (roles command) == role_code s.role) _ _ e λ role e1.
        >>=-ok (prepare h s command) _ e1 λ c m e2.
          >>=-ok (verify_program h s l) _ e2 λ _ checked e3.
            >>=-ok (check_ledger h s command c l) _ e3 λ _ found e4.
              let (l', runs) = ready c checked command role octets unpaid m found in
              (l', cc (e4, runs))
    where
      ready :
          (c : Prepared)
          → verify_program h s l ≡ ok tt
          → (command : RoleCommand) → (role_code (roles command) == role_code s.role) ≡ true
          → IsBytesCommand command
          → IsUnpaid h command l
          → prepare h s command ≡ ok c
          → check_ledger h s command c l ≡ ok tt
          → Runs command c
      ready c checked (submit_report report encrypted) role octets _ m f =
          submit_report-Runs c checked report encrypted octets m f
      ready c checked (begin_triage id) role _ _ m f =
          begin_triage-Runs c checked (ground (arith, role)) id m f
      ready c checked (accept_report id severity decision) role _ _ m f =
          accept_report-Runs c checked (ground (arith, role)) id severity decision m f
      ready c checked (reject_report id decision) role _ _ m f =
          reject_report-Runs c checked (ground (arith, role)) id decision m f
      ready c checked (anchor_patch id digest) role _ _ m f =
          anchor_patch-Runs c checked (ground (arith, role)) id digest m f
      ready c checked (submit_retest id report patch evidence passed) role octets _ m f =
          submit_retest-Runs c checked id report patch evidence passed octets m f
      ready c checked (authorize_payout id tier) role _ unpaid m f =
          authorize_payout-Runs c checked (ground (arith, role)) id tier unpaid m f
      ready c checked (close_report id) role _ _ m f =
          close_report-Runs c checked (ground (arith, role)) id m f
