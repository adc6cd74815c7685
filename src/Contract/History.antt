-- ===== src/Contract/History.antt =====
-- What no sequence of transactions of vulnseal.compact can undo.
use vulnseal.Prelude.{
  ap, ℕ, suc, ◌≡◌, refl, ◌∙◌, ◌⊎◌, inl, inr, some, arith, Bytes, lookup, ◌=ᵇ◌, lookup-insert,
  bytes_eq-to_eq, Bool-cases,
}
use vulnseal.Contract.Types.{
  Hash, ReportStatus, rejected, payout_authorized, closed, ReportRecord, Ledger,
}
use vulnseal.Contract.Calls.{
  Edge, triage, accept, reject, patch, retest, pay, close, Transition, create, change, Reach, here,
  next,
}
use vulnseal.Contract.Refinement.{run_sound}
use vulnseal.Contract.Invariant.{Edge-Kept}

-- The facts that a submission fixed, and the date, which only grows.
pub record Continues (r r' : ReportRecord) : Type 0 where
  pub commitment : r'.commitment ≡ r.commitment
  pub ciphertext_digest : r'.ciphertext_digest ≡ r.ciphertext_digest
  pub researcher_key : r'.researcher_key ≡ r.researcher_key
  pub submission_receipt : r'.submission_receipt ≡ r.submission_receipt
  pub created_sequence : r'.created_sequence ≡ r.created_sequence

-- A verdict that stands: a refusal or a payout, whether the report is closed or not.
abbrev pub IsSettled : ReportStatus → Type 0
IsSettled s = (s ≡ rejected) ⊎ (s ≡ payout_authorized) ⊎ (s ≡ closed)

-- All that a settled report says of the decision, the patch, the retest and the payout.
pub record SameVerdict (r r' : ReportRecord) : Type 0 where
  pub severity : r'.severity ≡ r.severity
  pub decision_digest : r'.decision_digest ≡ r.decision_digest
  pub patch_commitment : r'.patch_commitment ≡ r.patch_commitment
  pub retest_commitment : r'.retest_commitment ≡ r.retest_commitment
  pub retest_flag : r'.retest_flag ≡ r.retest_flag
  pub payout_receipt : r'.payout_receipt ≡ r.payout_receipt
  pub reward_tier : r'.reward_tier ≡ r.reward_tier
  pub settled : IsSettled r'.status

module _ (h : Hash) (id : Bytes) (now : ℕ) (r r' : ReportRecord) where
  Edge-Continues : Edge h id now r r' → Continues r r'
  Edge-Continues e = let k = Edge-Kept e in ground (arith, k)

  Edge-SameVerdict : Edge h id now r r' → IsSettled r.status → SameVerdict r r'
  Edge-SameVerdict (triage s e) v = ground arith
  Edge-SameVerdict (accept n d s low high e) v = ground arith
  Edge-SameVerdict (reject d s e) v = ground arith
  Edge-SameVerdict (patch d s e) v = ground arith
  Edge-SameVerdict (retest x p s e) v = ground arith
  Edge-SameVerdict (pay t s low high e) v = ground arith
  Edge-SameVerdict (close s e) v = ground arith

  -- No edge leaves a closed report.
  Edge-ne-closed : Edge h id now r r' → r.status ≡ closed → ⊥
  Edge-ne-closed (triage s e) v = cc
  Edge-ne-closed (accept n d s low high e) v = cc
  Edge-ne-closed (reject d s e) v = cc
  Edge-ne-closed (patch d s e) v = ground arith
  Edge-ne-closed (retest x p s e) v = cc
  Edge-ne-closed (pay t s low high e) v = cc
  Edge-ne-closed (close s e) v = ground arith

-- A transition keeps each report: as it was, or moved along one edge.
pub Transition-follow :
    (h : Hash) (l l' : Ledger) (id : Bytes) (r : ReportRecord)
    → Transition h l l'
    → lookup id l.reports ≡ some r
    → (r' : ReportRecord) × (lookup id l'.reports ≡ some r')
      × ((r' ≡ r) ⊎ Edge h id l.sequence r r')
Transition-follow h l l' id r (create j encrypted researcher absent fits same) found =
    elim (Bool-cases (j =ᵇ id)) [
      | inl e ↦ absurd (cc (bytes_eq-to_eq j id e, absent, found))
      | inr apart ↦ (r, rw (same, lookup-insert, apart) found, inl refl)
    ]
Transition-follow h l l' id r (change j s s' receipts known edge receipted fits same) found =
    elim (Bool-cases (j =ᵇ id)) [
      | inl e ↦
          let p : j ≡ id = bytes_eq-to_eq j id e in
          let q : s ≡ r = cc (p, known, found) in
          (s', rw (same, lookup-insert, e) refl, inr (rw (← p, ← q) edge))
      | inr apart ↦ (r, rw (same, lookup-insert, apart) found, inl refl)
    ]

-- What holds of a record and every record that it may become holds along a history.
module _ {ℓ} (h : Hash) (id : Bytes) (R : ReportRecord → Type ℓ)
    (step : (now : ℕ) (r r' : ReportRecord) → Edge h id now r r' → R r → R r') where
  Reach-follow :
      {l m : Ledger} (r : ReportRecord)
      → Reach h l m
      → lookup id l.reports ≡ some r
      → R r
      → (r' : ReportRecord) × (lookup id m.reports ≡ some r') × R r'
  Reach-follow r here found v = (r, found, v)
  Reach-follow r (next {m} {n} c p past e) found v =
      let (s, known, w) = Reach-follow r past found v in
      let (t, now, moved) = Transition-follow h m n id s (run_sound h c p m n e).1 known in
      (t, now, elim moved [ inl same ↦ rw same w | inr edge ↦ step m.sequence s t edge w ])

-- A report once submitted is never removed, whatever transactions follow, and its commitment,
-- ciphertext digest, researcher key, submission receipt and creation date stay as submitted.
pub submission_stands :
    (h : Hash) (l m : Ledger) (id : Bytes) (r : ReportRecord)
    → Reach h l m
    → lookup id l.reports ≡ some r
    → (r' : ReportRecord) × (lookup id m.reports ≡ some r') × Continues r r'
submission_stands h l m id r past found =
    Reach-follow h id (Continues r)
      (λ now s t edge c. let d = Edge-Continues h id now s t edge in ground (arith, c, d)) r past
      found (ground arith)

-- A rejected, paid or closed report keeps, whatever transactions follow, its severity, decision,
-- patch, retest, payout receipt and reward tier, and stays rejected, paid or closed.
pub verdict_stands :
    (h : Hash) (l m : Ledger) (id : Bytes) (r : ReportRecord)
    → Reach h l m
    → lookup id l.reports ≡ some r
    → IsSettled r.status
    → (r' : ReportRecord) × (lookup id m.reports ≡ some r') × SameVerdict r r'
verdict_stands h l m id r past found settled =
    Reach-follow h id (SameVerdict r)
      (λ now s t edge c.
        let d = Edge-SameVerdict h id now s t edge c.settled in ground (arith, c, d))
      r past found (ground arith)

-- A closed report is final: whatever transactions follow, its record stays as it is.
closed_is_final :
    (h : Hash) (l m : Ledger) (id : Bytes) (r : ReportRecord)
    → Reach h l m
    → lookup id l.reports ≡ some r
    → r.status ≡ closed
    → lookup id m.reports ≡ some r
closed_is_final h l m id r past found done =
    let (r', now, same) =
      Reach-follow h id (λ s. s ≡ r)
        (λ now s t edge c.
          absurd (Edge-ne-closed h id now s t edge (ap (λ (x : ReportRecord). x.status) c ∙ done)))
        r past found refl in
    rw (← same) now

-- The number of transactions in a history.
abbrev pub steps : {h : Hash} {l m : Ledger} → Reach h l m → ℕ
steps here = 0
steps (next c p past e) = suc (steps past)
