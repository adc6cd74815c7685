-- ===== src/Contract/Invariant.antt =====
-- The invariant of the ledger of vulnseal.compact: what each record holds in each status.
use vulnseal.Prelude.{
  [], ℕ, ◌<◌, ◌≤◌, ◌≡◌, refl, ◌⊎◌, inl, inr, Bool, true, false, some, arith, Bytes, lookup, member,
  ok, ◌=ᵇ◌, lookup-insert, ◌∙◌, bytes_eq_iff, Bool-cases, bytes_eq-to_eq, Dict,
}
use vulnseal.Contract.Types.{
  Hash, ReportStatus, committed, triaged, accepted, rejected, patch_ready, retest_passed,
  retest_failed, payout_authorized, closed, ReportRecord, Ledger, zero32,
}
use vulnseal.Contract.Witnesses.{PrivateState}
use vulnseal.Contract.Circuits.{
  derive_patch_commitment, derive_retest_commitment, derive_payout_receipt, initialize, ProgramArgs,
}
use vulnseal.Contract.Effects.{stored}
use vulnseal.Contract.Calls.{
  Edge, triage, accept, reject, patch, retest, pay, close, Transition, create, change, Receipted,
  Reach, here, next, Deployed,
}
use vulnseal.Contract.Refinement.{run_sound}

-- No decision, patch, retest or payout yet.
abbrev pub Untouched : ReportRecord → Type 0
Untouched r =
    (r.severity ≡ 0)
    × (r.patch_commitment ≡ zero32)
    × (r.retest_commitment ≡ zero32)
    × (r.retest_flag ≡ false)

abbrev pub Unpaid : ReportRecord → Type 0
Unpaid r = (r.payout_receipt ≡ zero32) × (r.reward_tier ≡ 0)

abbrev pub Judged : ReportRecord → Type 0
Judged r = (0 < r.severity) × (r.severity ≤ 4)

-- The patch commitment is bound to this report.
abbrev pub Patched : Hash → Bytes → ReportRecord → Type 0
Patched h id r = (digest : Bytes) × (r.patch_commitment ≡ derive_patch_commitment h id digest)

-- The retest commitment is bound to this report, to its current patch and to the outcome.
abbrev pub Retested : Hash → Bytes → ReportRecord → Bool → Type 0
Retested h id r passed =
    (evidence : Bytes) × (r.retest_commitment
      ≡ derive_retest_commitment h id r.patch_commitment evidence passed)
    × (r.retest_flag ≡ passed)

-- The receipt is bound to this report, its patch, its retest and the tier.
abbrev pub Paid : Hash → Bytes → ReportRecord → Type 0
Paid h id r =
    (0 < r.reward_tier)
    × (r.reward_tier ≤ 4)
    × (r.payout_receipt
        ≡ derive_payout_receipt h id r.patch_commitment r.retest_commitment r.reward_tier)

-- A payout stands on a decision, a patch and a passing retest of that patch.
abbrev pub Resolved : Hash → Bytes → ReportRecord → Type 0
Resolved h id r = Judged r × Patched h id r × Retested h id r true × Paid h id r

abbrev pub Refused : ReportRecord → Type 0
Refused r = Untouched r × Unpaid r

abbrev pub Phase : Hash → Bytes → ReportRecord → ReportStatus → Type 0
Phase h id r committed = Untouched r × Unpaid r
Phase h id r triaged = Untouched r × Unpaid r
Phase h id r accepted = Judged r × Unpaid r
Phase h id r rejected = Refused r
Phase h id r patch_ready = Judged r × Patched h id r × Unpaid r
Phase h id r retest_passed = Judged r × Patched h id r × Retested h id r true × Unpaid r
Phase h id r retest_failed = Judged r × Patched h id r × Retested h id r false × Unpaid r
Phase h id r payout_authorized = Resolved h id r
Phase h id r closed = Refused r ⊎ Resolved h id r

-- One record of the ledger, at its key.
pub record IsRecord (h : Hash) (l : Ledger) (id : Bytes) (r : ReportRecord) : Type 0 where
  pub keyed : r.commitment ≡ id
  pub ordered : r.created_sequence ≤ r.updated_sequence
  pub past : r.updated_sequence < l.sequence
  pub phase : Phase h id r r.status
  pub receipt : (r.payout_receipt ≡ zero32) ⊎ (member r.payout_receipt l.payout_receipts ≡ true)

pub record IsLedger (h : Hash) (l : Ledger) : Type 0 where
  pub at_key : (id : Bytes) (r : ReportRecord) → lookup id l.reports ≡ some r → IsRecord h l id r

Edge-Phase :
    {h : Hash} {id : Bytes} {now : ℕ} {r r' : ReportRecord}
    → Edge h id now r r'
    → Phase h id r r.status
    → Phase h id r' r'.status
Edge-Phase {h} {id} {r} (triage s e) f = rw e (rw s at f)
Edge-Phase {h} {id} {r} (accept n d s low high e) f =
    let g : Phase h id r triaged = rw s at f in rw e ((low, high), g.1)
Edge-Phase {h} {id} {r} (reject d s e) f =
    let g : Phase h id r triaged = rw s at f in rw e ((refl, g.0.1, g.0.2, refl), (g.1.0, refl))
Edge-Phase {h} {id} {r} (patch d (inl s) e) f =
    let g : Phase h id r accepted = rw s at f in rw e (g.0, (d, refl), g.1)
Edge-Phase {h} {id} {r} (patch d (inr s) e) f =
    let g : Phase h id r retest_failed = rw s at f in rw e (g.0, (d, refl), g.3)
Edge-Phase {h} {id} {r} (retest v true s e) f =
    let g : Phase h id r patch_ready = rw s at f in rw e (g.0, g.1, (v, refl, refl), g.2)
Edge-Phase {h} {id} {r} (retest v false s e) f =
    let g : Phase h id r patch_ready = rw s at f in rw e (g.0, g.1, (v, refl, refl), g.2)
Edge-Phase {h} {id} {r} (pay t s low high e) f =
    let g : Phase h id r retest_passed = rw s at f in rw e (g.0, g.1, g.2, (low, high, refl))
Edge-Phase {h} {id} {r} (close (inl s) e) f =
    let g : Phase h id r rejected = rw s at f in rw e (inl g)
Edge-Phase {h} {id} {r} (close (inr s) e) f =
    let g : Phase h id r payout_authorized = rw s at f in rw e (inr g)

-- What no edge changes, and how an edge dates the record.
pub record Kept (now : ℕ) (r r' : ReportRecord) : Type 0 where
  pub commitment : r'.commitment ≡ r.commitment
  pub ciphertext_digest : r'.ciphertext_digest ≡ r.ciphertext_digest
  pub researcher_key : r'.researcher_key ≡ r.researcher_key
  pub submission_receipt : r'.submission_receipt ≡ r.submission_receipt
  pub created_sequence : r'.created_sequence ≡ r.created_sequence
  pub updated_sequence : r'.updated_sequence ≡ now

pub Edge-Kept :
    {h : Hash} {id : Bytes} {now : ℕ} {r r' : ReportRecord} → Edge h id now r r' → Kept now r r'
Edge-Kept (triage s e) = ground arith
Edge-Kept (accept n d s low high e) = ground arith
Edge-Kept (reject d s e) = ground arith
Edge-Kept (patch d s e) = ground arith
Edge-Kept (retest v p s e) = ground arith
Edge-Kept (pay t s low high e) = ground arith
Edge-Kept (close s e) = ground arith

module _ (l : Ledger) (r r' : ReportRecord) (receipts : Dict (Unit {0})) where
  Receipted-member :
      (b : Bytes)
      → Receipted l r r' receipts
      → member b l.payout_receipts ≡ true
      → member b receipts ≡ true
  Receipted-member b (inl kept) m = rw (kept.0) m
  Receipted-member b (inr new) m =
      rw (new.1) (ground (arith, lookup-insert r'.payout_receipt b tt l.payout_receipts))

  Receipted-new :
      Receipted l r r' receipts
      → (r.payout_receipt ≡ zero32) ⊎ (member r.payout_receipt l.payout_receipts ≡ true)
      → (r'.payout_receipt ≡ zero32) ⊎ (member r'.payout_receipt receipts ≡ true)
  Receipted-new (inl kept) (inl unpaid) = inl (kept.1 ∙ unpaid)
  Receipted-new (inl kept) (inr used) = inr (rw (kept.0, kept.1) used)
  Receipted-new (inr new) _ = inr (
      rw (new.1) (
        ground (
          arith,
          bytes_eq_iff r'.payout_receipt r'.payout_receipt,
          lookup-insert r'.payout_receipt r'.payout_receipt tt l.payout_receipts,
        )))

-- A record that a step does not write stays right: time passes and receipts stay in the set.
IsRecord-later :
    (h : Hash) (l l' : Ledger) (id : Bytes) (r : ReportRecord)
    → l.sequence ≤ l'.sequence
    → ((b : Bytes) → member b l.payout_receipts ≡ true → member b l'.payout_receipts ≡ true)
    → IsRecord h l id r
    → IsRecord h l' id r
IsRecord-later h l l' id r later keep v = record {
  keyed = v.keyed;
  ordered = v.ordered;
  past = omega (arith, v.past);
  phase = v.phase;
  receipt = elim v.receipt [ inl e ↦ inl e | inr m ↦ inr (keep r.payout_receipt m) ];
}

-- A written record is right if it is right at its key.
stored-IsLedger :
    (h : Hash) (l : Ledger) (id : Bytes) (r : ReportRecord)
    → ((j : Bytes) (s : ReportRecord)
        → lookup j l.reports ≡ some s
        → IsRecord h (stored id r l) j s)
    → IsRecord h (stored id r l) id r
    → IsLedger h (stored id r l)
stored-IsLedger h l id r others new = record {
  at_key = λ j s found. elim (Bool-cases (id =ᵇ j)) [
    | inl same ↦ at_id j s (bytes_eq-to_eq id j same) (rw (lookup-insert, same) at found)
    | inr apart ↦ others j s (rw (lookup-insert, apart) at found)
  ];
}
  where
    at_id :
        (j : Bytes) (s : ReportRecord) → id ≡ j → some r ≡ some s → IsRecord h (stored id r l) j s
    at_id j s e f = let p : r ≡ s = cc in rw (← e, ← p) new

-- A transition keeps the invariant.
pub Transition-IsLedger :
    (h : Hash) (l l' : Ledger) → Transition h l l' → IsLedger h l → IsLedger h l'
Transition-IsLedger h l l' (create id encrypted researcher absent fits same) v = rw same (
    stored-IsLedger h l id _
      (λ j s found. IsRecord-later h l _ j s (omega arith) (λ b m. m) (v.at_key j s found))
      (record {
        keyed = refl;
        ordered = omega arith;
        past = omega arith;
        phase = ((refl, refl, refl, refl), (refl, refl));
        receipt = inl refl;
      }))
Transition-IsLedger h l l' (change id r r' receipts found edge receipted fits same) v =
    let old = v.at_key id r found in
    let kept = Edge-Kept edge in
    rw same (
      stored-IsLedger h (record l { payout_receipts = receipts }) id r'
        (λ j s known.
          IsRecord-later h l _ j s (omega arith)
            (λ b m. Receipted-member l r r' receipts b receipted m) (v.at_key j s known))
        (record {
          keyed = kept.commitment ∙ old.keyed;
          ordered =
              omega (arith, kept.created_sequence, kept.updated_sequence, old.ordered, old.past);
          past = omega (arith, kept.updated_sequence);
          phase = Edge-Phase edge old.phase;
          receipt = Receipted-new l r r' receipts receipted old.receipt;
        }))

initialize-reports :
    (h : Hash) (a : ProgramArgs) (p : PrivateState) (l : Ledger)
    → initialize h a p ≡ ok l
    → l.reports ≡ []
unfolding initialize
initialize-reports h a p l e = ground arith

initialize-IsLedger :
    (h : Hash) (a : ProgramArgs) (p : PrivateState) (l : Ledger)
    → initialize h a p ≡ ok l
    → IsLedger h l
unfolding lookup
initialize-IsLedger h a p l e = record {
  at_key = λ id r found. cc (rw (initialize-reports h a p l e) at found);
}

Reach-IsLedger : {h : Hash} {l m : Ledger} → IsLedger h l → Reach h l m → IsLedger h m
Reach-IsLedger v here = v
Reach-IsLedger {h} v (next {m} {n} c p past e) =
    Transition-IsLedger h m n (run_sound h c p m n e).1 (Reach-IsLedger v past)

-- In every ledger that a deployed contract reaches, whoever sends whatever transactions in
-- whatever order, each record is filed under its own commitment, is dated before the current
-- sequence number, and holds what its status promises: a decision tier from 1 to 4 once accepted, a
-- patch commitment bound to the report, a retest commitment bound to that patch and outcome, and
-- for a payout the receipt bound to all of these. A receipt that is not all zeros is in the set.
pub Deployed-IsLedger : (h : Hash) (l : Ledger) → Deployed h l → IsLedger h l
Deployed-IsLedger h l d =
    Reach-IsLedger (initialize-IsLedger h d.args d.deployer d.first d.deployed) d.since
