-- ===== src/Contract/Inversion.antt =====
-- What each circuit of vulnseal.compact has checked, and written, when it succeeds.
use vulnseal.Prelude.{
  Dict, ℕ, ◌+◌, ◌<◌, ◌≤◌, ◌≡◌, refl, ◌⊎◌, inl, inr, Bool, true, false, not, ◌&&◌, ◌||◌, none, some,
  arith, Bytes, lookup, member, insert, length, ok, >>=-ok, guard-ok, bytes_eq_iff, bytes_eq-to_eq,
  ltb, leb, ◌=ᵇ◌, Result,
}
use vulnseal.Contract.Types.{
  Hash, committed, triaged, accepted, rejected, patch_ready, retest_passed, retest_failed,
  payout_authorized, ReportRecord, Ledger, ReportStatus, ◌=ˢ◌, Error,
}
use vulnseal.Contract.Witnesses.{PrivateState, patch_evidence, retest_evidence}
use vulnseal.Contract.Circuits.{
  uint64_mod, load_report, store_report, bump_sequence, assert_vendor, assert_researcher,
  begin_triage, accept_report, reject_report, anchor_patch, submit_retest, authorize_payout,
  close_report, submit_report, derive_payout_receipt, derive_researcher_key,
}
use vulnseal.Contract.Effects.{
  stored, IsOwner, IsResearcher, Opens, =ˢ-eq, load_report-inv, store_report-inv, assert_vendor-inv,
  assert_researcher-inv,
}
use vulnseal.Contract.Calls.{
  Transition, change, Edge, triage, accept, reject, patch, retest, pay, close, fresh_record,
}

pub status_or : (s a b : ReportStatus) → ((s =ˢ a) || (s =ˢ b)) ≡ true → (s ≡ a) ⊎ (s ≡ b)
status_or s a b e = elim (Bool-or (s =ˢ a) (s =ˢ b) e) [
  | inl x ↦ inl (=ˢ-eq s a x)
  | inr x ↦ inr (=ˢ-eq s b x)
]
  where
    Bool-or : (x y : Bool) → (x || y) ≡ true → (x ≡ true) ⊎ (y ≡ true)
    Bool-or x y e = ground arith

in_tiers : (n : ℕ) → (ltb 0 n && leb n 4) ≡ true → (0 < n) × (n ≤ 4)
in_tiers n e = ground arith

not-eq : (b : Bool) → not b ≡ true → b ≡ false
not-eq b e = ground arith

pub not-member :
    {V : Type 0} (id : Bytes) (m : Dict V) → not (member id m) ≡ true → lookup id m ≡ none
not-member id m e = ground arith

ok-pair :
    {A : Type 0} {a b : A} {m n : Ledger}
    → ◌≡◌ {A = Result Error (A × Ledger)} (ok (a, m)) (ok (b, n))
    → m ≡ n
ok-pair e = cc

-- One report moved along an edge by a circuit that leaves the set of receipts alone.
moved :
    {h : Hash} {id : Bytes} {l l' : Ledger} {r r' : ReportRecord}
    → load_report id l ≡ ok r
    → (l' ≡ stored id r' l) × (l.sequence + 1 < uint64_mod)
    → r'.payout_receipt ≡ r.payout_receipt
    → Edge h id l.sequence r r'
    → Transition h l l'
moved {id} {l} {r} {r'} found (same, fits) kept edge =
    change id r r' l.payout_receipts (load_report-inv id l found) edge (inl (refl, kept)) fits same

module _ (h : Hash) (id : Bytes) (p : PrivateState) (l : Ledger) {l' : Ledger} where
  pub begin_triage-inv : begin_triage h id p l ≡ ok l' → IsOwner h p l × Transition h l l'
  unfolding begin_triage
  begin_triage-inv e = >>=-ok (assert_vendor h p l) _ e λ _ owner e1.
      >>=-ok (load_report id l) _ e1 λ r found e2.
        guard-ok (r.status =ˢ committed) _ _ e2 λ state e3. (
          assert_vendor-inv h p l owner,
          moved found (store_report-inv id _ l e3) refl (triage (=ˢ-eq _ _ state) refl),
        )

  pub accept_report-inv :
      (severity : ℕ) (decision : Bytes)
      → accept_report h id severity decision p l ≡ ok l'
      → IsOwner h p l × Transition h l l'
  unfolding accept_report
  accept_report-inv severity decision e = >>=-ok (assert_vendor h p l) _ e λ _ owner e1.
      guard-ok (ltb 0 severity && leb severity 4) _ _ e1 λ tier e2.
        >>=-ok (load_report id l) _ e2 λ r found e3.
          guard-ok (r.status =ˢ triaged) _ _ e3 λ state e4.
            let (low, high) = in_tiers severity tier in
            (
              assert_vendor-inv h p l owner,
              moved found (store_report-inv id _ l e4) refl
                  (accept severity decision (=ˢ-eq _ _ state) low high refl),
            )

  pub reject_report-inv :
      (decision : Bytes)
      → reject_report h id decision p l ≡ ok l'
      → IsOwner h p l × Transition h l l'
  unfolding reject_report
  reject_report-inv decision e = >>=-ok (assert_vendor h p l) _ e λ _ owner e1.
      >>=-ok (load_report id l) _ e1 λ r found e2. guard-ok (r.status =ˢ triaged) _ _ e2 λ state e3.
        (
          assert_vendor-inv h p l owner,
          moved found (store_report-inv id _ l e3) refl (reject decision (=ˢ-eq _ _ state) refl),
        )

  pub close_report-inv : close_report h id p l ≡ ok l' → IsOwner h p l × Transition h l l'
  unfolding close_report
  close_report-inv e = >>=-ok (assert_vendor h p l) _ e λ _ owner e1.
      >>=-ok (load_report id l) _ e1 λ r found e2.
        guard-ok ((r.status =ˢ rejected) || (r.status =ˢ payout_authorized)) _ _ e2 λ state e3. (
          assert_vendor-inv h p l owner,
          moved found (store_report-inv id _ l e3) refl (close (status_or _ _ _ state) refl),
        )

  pub anchor_patch-inv :
      (value : Bytes) → anchor_patch h id p l ≡ ok (value, l') → IsOwner h p l × Transition h l l'
  unfolding anchor_patch
  anchor_patch-inv value e = >>=-ok (assert_vendor h p l) _ e λ _ owner e1.
      >>=-ok (load_report id l) _ e1 λ r found e2.
        guard-ok ((r.status =ˢ accepted) || (r.status =ˢ retest_failed)) _ _ e2 λ state e3.
          >>=-ok (patch_evidence p) _ e3 λ evidence read e4.
            guard-ok (evidence.1.report_id =ᵇ id) _ _ e4 λ bound e5.
              >>=-ok (store_report id _ l) _ e5 λ m wrote e6. (
                assert_vendor-inv h p l owner,
                rw (← ok-pair e6) (
                    moved found (store_report-inv id _ l wrote) refl (
                      patch evidence.1.patch_digest (status_or _ _ _ state)
                        (rw (bytes_eq-to_eq _ _ bound)))),
              )

  pub submit_retest-inv :
      (passed : Bool) (value : Bytes)
      → submit_retest h id passed p l ≡ ok (value, l')
      → ((r : ReportRecord) × (lookup id l.reports ≡ some r) × IsResearcher h p l id r)
        × Transition h l l'
  unfolding submit_retest
  submit_retest-inv passed value e = >>=-ok (load_report id l) _ e λ r found e1.
      guard-ok (r.status =ˢ patch_ready) _ _ e1 λ state e2.
        >>=-ok (assert_researcher h p l id r) _ e2 λ _ researcher e3.
          >>=-ok (retest_evidence p) _ e3 λ evidence read e4.
            guard-ok (evidence.1.report_id =ᵇ id) _ _ e4 λ bound e5.
              guard-ok (evidence.1.patch_commitment =ᵇ r.patch_commitment) _ _ e5 λ current e6.
                >>=-ok (store_report id _ l) _ e6 λ m wrote e7. (
                  (r, load_report-inv id l found, assert_researcher-inv h p l id r researcher),
                  rw (← ok-pair e7) (
                      moved found (store_report-inv id _ l wrote) refl (
                        retest evidence.1.evidence_digest passed (=ˢ-eq _ _ state)
                          (rw (bytes_eq-to_eq _ _ current)))),
                )

  pub authorize_payout-inv :
      (tier : ℕ) (value : Bytes)
      → authorize_payout h id tier p l ≡ ok (value, l')
      → IsOwner h p l × Transition h l l'
  unfolding authorize_payout
  authorize_payout-inv tier value e = >>=-ok (assert_vendor h p l) _ e λ _ owner e1.
      guard-ok (ltb 0 tier && leb tier 4) _ _ e1 λ range e2.
        >>=-ok (load_report id l) _ e2 λ r found e3.
          guard-ok (r.status =ˢ retest_passed) _ _ e3 λ state e4.
            guard-ok r.retest_flag _ _ e4 λ flag e5.
              let receipt =
                derive_payout_receipt h id r.patch_commitment r.retest_commitment tier in
              guard-ok (not (member receipt l.payout_receipts)) _ _ e5 λ unused e6.
                >>=-ok
                  (store_report id _
                    (record l { payout_receipts = insert receipt tt l.payout_receipts }))
                  _ e6
                  λ m wrote e7.
                    let (low, high) = in_tiers tier range in
                    let (same, fits) = store_report-inv id _ _ wrote in
                    (
                      assert_vendor-inv h p l owner,
                      rw (← ok-pair e7) (
                          change id r _ _ (load_report-inv id l found)
                            (pay tier (=ˢ-eq _ _ state) low high refl) (inr (not-eq _ unused, refl))
                            fits same),
                    )

-- A submission creates its report under the commitment that the caller's preimage opens.
pub submit_report-inv :
    (h : Hash) (encrypted : Bytes) (p : PrivateState) (l : Ledger) {l' : Ledger} (id : Bytes)
    → submit_report h encrypted p l ≡ ok (id, l')
    → Opens h p l id
      × (length p.actor_secret ≡ 32)
      × (lookup id l.reports ≡ none)
      × (l.sequence + 1 < uint64_mod)
      × (l'
          ≡ stored id
              (fresh_record h id encrypted
                (derive_researcher_key h l.program_id id p.actor_secret)
                l.sequence)
              l)
unfolding submit_report bump_sequence
submit_report-inv h encrypted p l id e =
    ground (arith, bytes_eq_iff p.report.program_id l.program_id)
