-- ===== src/Api/RoleSession/Commands.antt =====
-- api/src/role-session.ts: what `execute` has established when it prepares a contract call.
use vulnseal.Prelude.{
  ℕ, ◌<◌, ◌≤◌, ◌≡◌, refl, Bool, true, Option, none, some, arith, Bytes, bytes_eq-to_eq, length, All,
  ok, >>=-ok, guard-ok, Result, ltb, ◌||◌, not,
}
use vulnseal.Contract.Types.{Error, Hash}
use vulnseal.Contract.Witnesses.{
  PartialPatch, PartialRetest, PrivateState, create_private_state, ReportPreimage,
}
use vulnseal.Contract.Circuits.{derive_report_commitment}
use vulnseal.Contract.Witnesses.Checked.{IsPrivateState, IsMadeOf, create_private_state_sound}
use vulnseal.Shared.Hex.{IsByte, bytes_to_hex, assert_bytes32}
use vulnseal.Shared.Hex.RoundTrip.{bytes_to_hex_injective}
use vulnseal.Api.RoleSession.{
  RoleSession, submit_report, begin_triage, accept_report, reject_report, anchor_patch,
  submit_retest, authorize_payout, close_report, Prepared, whole, bytes32_of, state_of, check_tiers,
  equal, preimage, state_with, prepare,
}

pub equal-ok :
    (a b : Bytes) (label : _) → equal a b label ≡ ok tt → All IsByte a → All IsByte b → a ≡ b
unfolding equal
equal-ok a b label e ha hb =
    bytes_to_hex_injective a b ha hb
      (bytes_eq-to_eq (bytes_to_hex a) (bytes_to_hex b) (ground arith))

bytes32_of-ok :
    (v : Bytes) {b : Bytes} → bytes32_of (assert_bytes32 v) ≡ ok b → (b ≡ v) × (length v ≡ 32)
unfolding assert_bytes32
bytes32_of-ok v e = ground arith

state_of-ok : (m : Result Error PrivateState) {p : PrivateState} → state_of m ≡ ok p → m ≡ ok p
state_of-ok m e = ground arith

in_tiers : (n : ℕ) → not (ltb n 1 || ltb 4 n) ≡ true → (0 < n) × (n ≤ 4)
in_tiers n e = ground arith

-- What the session's checks leave of a command's arguments.
module _ (h : Hash) (s : RoleSession) where
  pub record Made (id : Bytes) (report : Option ReportPreimage) (patch : Option PartialPatch)
      (retest : Option PartialRetest) (c : Prepared) : Type 0 where
    pub same_id : c.id ≡ id
    pub same_report : c.report ≡ report
    pub private : IsPrivateState c.state
    pub made : IsMadeOf s.secret (whole report) patch retest c.state

  state_with-ok :
      (id : Bytes) (report : Option ReportPreimage) (patch : Option PartialPatch)
      (retest : Option PartialRetest) (c : Prepared)
      → state_with h s id report patch retest ≡ ok c
      → Made id report patch retest c
  state_with-ok id report patch retest c e =
      >>=-ok (state_of (create_private_state s.secret (whole report) patch retest)) _ e λ p m e'.
        let (v, w) =
          create_private_state_sound s.secret (whole report) patch retest p (state_of-ok _ m) in
        let same : ◌≡◌ {A = Prepared} (record { id = id; report = report; state = p }) c = cc in
        rw (← same) (record { same_id = refl; same_report = refl; private = v; made = w })

  preimage-ok :
      (report r : ReportPreimage)
      → preimage s report ≡ ok r
      → All IsByte report.program_id
      → All IsByte s.program_id
      → (r ≡ report) × (report.program_id ≡ s.program_id)
  unfolding preimage
  preimage-ok report r e hr hs =
      >>=-ok (bytes32_of (assert_bytes32 report.program_id)) _ e λ a ea e1.
        >>=-ok (bytes32_of (assert_bytes32 report.canonical_digest)) _ e1 λ b eb e2.
          >>=-ok (bytes32_of (assert_bytes32 report.salt)) _ e2 λ d ed e3.
            >>=-ok (equal a s.program_id "the report program") _ e3 λ u eu e4.
              let same = (bytes32_of-ok report.program_id ea).0 in
              (
                cc (
                  e4,
                  same,
                  (bytes32_of-ok report.canonical_digest eb).0,
                  (bytes32_of-ok report.salt ed).0,
                ),
                equal-ok report.program_id s.program_id "the report program" (rw (← same) eu) hr hs,
              )

  module _ (c : Prepared) where
    pub begin_triage-Made :
        (id : Bytes) → prepare h s (begin_triage id) ≡ ok c → Made id none none none c
    unfolding prepare
    begin_triage-Made id e =
        >>=-ok (bytes32_of (assert_bytes32 id)) _ e
          λ b m e'. state_with-ok id none none none c (rw (bytes32_of-ok id m).0 at e')

    pub close_report-Made :
        (id : Bytes) → prepare h s (close_report id) ≡ ok c → Made id none none none c
    unfolding prepare
    close_report-Made id e =
        >>=-ok (bytes32_of (assert_bytes32 id)) _ e
          λ b m e'. state_with-ok id none none none c (rw (bytes32_of-ok id m).0 at e')

    pub accept_report-Made :
        (id : Bytes) (severity : ℕ) (decision : Bytes)
        → prepare h s (accept_report id severity decision) ≡ ok c
        → Made id none none none c × ((0 < severity) × (severity ≤ 4))
    unfolding prepare check_tiers
    accept_report-Made id severity decision e =
        >>=-ok (bytes32_of (assert_bytes32 id)) _ e λ b m e1.
          >>=-ok (bytes32_of (assert_bytes32 decision)) _ e1 λ d n e2.
            guard-ok (not (ltb severity 1 || ltb 4 severity)) _ _ e2 λ t e3. (
              state_with-ok id none none none c (rw (bytes32_of-ok id m).0 at e3),
              in_tiers severity t,
            )

    pub reject_report-Made :
        (id decision : Bytes)
        → prepare h s (reject_report id decision) ≡ ok c
        → Made id none none none c
    unfolding prepare
    reject_report-Made id decision e = >>=-ok (bytes32_of (assert_bytes32 id)) _ e λ b m e1.
        >>=-ok (bytes32_of (assert_bytes32 decision)) _ e1
          λ d n e2. state_with-ok id none none none c (rw (bytes32_of-ok id m).0 at e2)

    pub authorize_payout-Made :
        (id : Bytes) (tier : ℕ)
        → prepare h s (authorize_payout id tier) ≡ ok c
        → Made id none none none c × ((0 < tier) × (tier ≤ 4))
    unfolding prepare check_tiers
    authorize_payout-Made id tier e = >>=-ok (bytes32_of (assert_bytes32 id)) _ e λ b m e1.
        guard-ok (not (ltb tier 1 || ltb 4 tier)) _ _ e1 λ t e2.
          (state_with-ok id none none none c (rw (bytes32_of-ok id m).0 at e2), in_tiers tier t)

    pub anchor_patch-Made :
        (id digest : Bytes)
        → prepare h s (anchor_patch id digest) ≡ ok c
        → Made id none (some (record { report_id = some id; patch_digest = some digest })) none c
    unfolding prepare
    anchor_patch-Made id digest e = >>=-ok (bytes32_of (assert_bytes32 id)) _ e λ b m e1.
        >>=-ok (bytes32_of (assert_bytes32 digest)) _ e1 λ d n e2.
          state_with-ok id none _ none c
            (rw ((bytes32_of-ok id m).0, (bytes32_of-ok digest n).0) at e2)

    pub submit_report-Made :
        (report : ReportPreimage) (encrypted : Bytes)
        → prepare h s (submit_report report encrypted) ≡ ok c
        → All IsByte report.program_id
        → All IsByte s.program_id
        → Made
            (derive_report_commitment h report.program_id report.canonical_digest report.salt)
            (some report)
            none
            none
            c
          × (report.program_id ≡ s.program_id)
    unfolding prepare
    submit_report-Made report encrypted e hr hs = >>=-ok (preimage s report) _ e λ r m e1.
        >>=-ok (bytes32_of (assert_bytes32 encrypted)) _ e1 λ d n e2.
          let (same, program) = preimage-ok report r m hr hs in
          (state_with-ok _ (some report) none none c (rw same at e2), program)

    pub submit_retest-Made :
        (id : Bytes) (report : ReportPreimage) (patch evidence : Bytes) (passed : Bool)
        → prepare h s (submit_retest id report patch evidence passed) ≡ ok c
        → All IsByte report.program_id
        → All IsByte s.program_id
        → Made id
            (some report)
            none
            (some (record {
              report_id = some id;
              patch_commitment = some patch;
              evidence_digest = some evidence;
            }))
            c
          × (report.program_id ≡ s.program_id)
    unfolding prepare
    submit_retest-Made id report patch evidence passed e hr hs =
        >>=-ok (preimage s report) _ e λ r m e1.
          >>=-ok (bytes32_of (assert_bytes32 id)) _ e1 λ b n e2.
            >>=-ok (bytes32_of (assert_bytes32 patch)) _ e2 λ p o e3.
              >>=-ok (bytes32_of (assert_bytes32 evidence)) _ e3 λ v q e4.
                let (same, program) = preimage-ok report r m hr hs in
                (
                  state_with-ok id (some report) none _ c (
                      rw
                        (
                          same,
                          (bytes32_of-ok id n).0,
                          (bytes32_of-ok patch o).0,
                          (bytes32_of-ok evidence q).0,
                        )
                        at e4),
                  program,
                )
