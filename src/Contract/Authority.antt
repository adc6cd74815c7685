-- ===== src/Contract/Authority.antt =====
-- Who may act on a deployed vulnseal.compact, over whole histories. The hash is unknown, so a
-- statement that rests on its strength offers a collision as the alternative: two different inputs
-- with one hash.
use vulnseal.Prelude.{
  ◌+◌, ◌≡◌, ◌≢◌, sym, ◌∙◌, ap, ◌⊎◌, inl, inr, Bool, List, arith, Bytes, ok, bytes_eq-cases,
  bytes_eq-false, lookup-insert_self,
}
use vulnseal.Contract.Types.{Hash, Ledger}
use vulnseal.Contract.Witnesses.{PrivateState}
use vulnseal.Contract.Circuits
use vulnseal.Contract.Circuits.{
  ProgramArgs, initialize, derive_vendor_key, derive_report_commitment, derive_researcher_key,
}
use vulnseal.Contract.Effects.{IsOwner}
use vulnseal.Contract.Inversion.{submit_report-inv, submit_retest-inv}
use vulnseal.Contract.Calls.{
  Call, submit_report, submit_retest, Transition, create, change, Reach, here, next, run,
  fresh_record,
}
use vulnseal.Contract.Refinement.{run_sound, Authorized}
use vulnseal.Contract.History.{steps, submission_stands}

pub record Collision (h : Hash) : Type 0 where
  pub left : List Bytes
  pub right : List Bytes
  pub apart : left ≢ right
  pub same : h.vec left ≡ h.vec right

-- What the constructor fixed.
pub record SameProgram (l m : Ledger) : Type 0 where
  pub program_id : m.program_id ≡ l.program_id
  pub owner_key : m.owner_key ≡ l.owner_key
  pub scope_digest : m.scope_digest ≡ l.scope_digest
  pub response_policy_digest : m.response_policy_digest ≡ l.response_policy_digest
  pub response_days : m.response_days ≡ l.response_days
  pub reward_policy_digest : m.reward_policy_digest ≡ l.reward_policy_digest
  pub disclosure_policy_digest : m.disclosure_policy_digest ≡ l.disclosure_policy_digest
  pub disclosure_delay_days : m.disclosure_delay_days ≡ l.disclosure_delay_days

Transition-SameProgram :
    {h : Hash} {l m : Ledger} → Transition h l m → SameProgram l m × (m.sequence ≡ l.sequence + 1)
Transition-SameProgram (create id encrypted researcher absent fits same) = ground arith
Transition-SameProgram (change id r r' receipts found edge receipted fits same) = ground arith

-- No history changes the program's identity, owner or policies, and its sequence number counts the
-- transactions.
pub program_is_fixed :
    (h : Hash) (l m : Ledger) (past : Reach h l m)
    → SameProgram l m × (m.sequence ≡ l.sequence + steps past)
program_is_fixed h l m here = ground arith
program_is_fixed h l m (next {m = k} c p past e) =
    let (before, count) = program_is_fixed h l k past in
    let (after, one) = Transition-SameProgram (run_sound h c p k m e).1 in
    ground (arith, before, count, after, one)

module _ (h : Hash) where
  vendor_key_injective :
      (program a b : Bytes)
      → derive_vendor_key h program a ≡ derive_vendor_key h program b
      → (a ≡ b) ⊎ Collision h
  unfolding derive_vendor_key
  vendor_key_injective program a b e = elim (bytes_eq-cases a b) [
    | inl same ↦ inl same
    | inr apart ↦
        inr (record { left = _; right = _; apart = λ p. bytes_eq-false a b apart (cc p); same = e })
  ]

  researcher_key_injective :
      (program id a b : Bytes)
      → derive_researcher_key h program id a ≡ derive_researcher_key h program id b
      → (a ≡ b) ⊎ Collision h
  unfolding derive_researcher_key
  researcher_key_injective program id a b e = elim (bytes_eq-cases a b) [
    | inl same ↦ inl same
    | inr apart ↦
        inr (record { left = _; right = _; apart = λ p. bytes_eq-false a b apart (cc p); same = e })
  ]

initialize-owner :
    (h : Hash) (a : ProgramArgs) (d : PrivateState) (l : Ledger)
    → initialize h a d ≡ ok l
    → (l.owner_key ≡ derive_vendor_key h a.program_id d.actor_secret)
      × (l.program_id ≡ a.program_id)
unfolding initialize
initialize-owner h a d l e = ground arith

-- The vendor's six transactions.
abbrev pub IsVendorCall : Call → Type 0
IsVendorCall (submit_report _) = ⊥
IsVendorCall (submit_retest _ _) = ⊥
IsVendorCall _ = Unit

vendor_owns :
    (h : Hash) (c : Call) (p : PrivateState) (l : Ledger)
    → IsVendorCall c
    → Authorized h c p l
    → IsOwner h p l
vendor_owns h (submit_report _) p l v a = absurd v
vendor_owns h (submit_retest _ _) p l v a = absurd v
vendor_owns h _ p l v a = a

-- Whatever has happened since the deployment, a vendor transaction succeeds only with the secret
-- of the deployer, unless it exhibits a collision of the hash.
pub only_the_deployer_decides :
    (h : Hash) (a : ProgramArgs) (d p : PrivateState) (first l l' : Ledger) (c : Call)
    → initialize h a d ≡ ok first
    → Reach h first l
    → IsVendorCall c
    → run h c p l ≡ ok l'
    → (p.actor_secret ≡ d.actor_secret) ⊎ Collision h
only_the_deployer_decides h a d p first l l' c born past vendor e =
    let owner = vendor_owns h c p l vendor (run_sound h c p l l' e).0 in
    let same = (program_is_fixed h first l past).0 in
    let start = initialize-owner h a d first born in
    vendor_key_injective h a.program_id p.actor_secret d.actor_secret
      (cc (owner.1, same.owner_key, same.program_id, start.0, start.1))

-- The preimage of a report: its program, the digest of its canonical text, and its salt.
abbrev pub SamePreimage : PrivateState → PrivateState → Type 0
SamePreimage p q =
    (q.report.program_id ≡ p.report.program_id)
    × (q.report.canonical_digest ≡ p.report.canonical_digest)
    × (q.report.salt ≡ p.report.salt)

commitment_injective :
    (h : Hash) (p q : PrivateState)
    → derive_report_commitment h p.report.program_id p.report.canonical_digest p.report.salt
      ≡ derive_report_commitment h q.report.program_id q.report.canonical_digest q.report.salt
    → SamePreimage p q ⊎ Collision h
unfolding derive_report_commitment
commitment_injective h p q e = elim (bytes_eq-cases q.report.program_id p.report.program_id) [
  | inr apart ↦
      inr (record { left = _; right = _; apart = λ x. bytes_eq-false _ _ apart (cc x); same = e })
  | inl program ↦ elim (bytes_eq-cases q.report.canonical_digest p.report.canonical_digest) [
    | inr apart ↦
        inr (record { left = _; right = _; apart = λ x. bytes_eq-false _ _ apart (cc x); same = e })
    | inl digest ↦ elim (bytes_eq-cases q.report.salt p.report.salt) [
      | inr apart ↦
          inr
            (record { left = _; right = _; apart = λ x. bytes_eq-false _ _ apart (cc x); same = e })
      | inl salt ↦ inl (program, digest, salt)
    ]
  ]
]

either : {A B C : Type 0} → A ⊎ C → B ⊎ C → (A × B) ⊎ C
either (inl a) (inl b) = inl (a, b)
either (inr c) _ = inr c
either (inl a) (inr c) = inr c

-- A retest of a submitted report succeeds, whatever happened in between, only for a caller who
-- holds the submitter's secret and the submitter's preimage of the report, unless it exhibits a
-- collision of the hash.
pub only_the_submitter_retests :
    (h : Hash) (p q : PrivateState) (l first m m' : Ledger) (id encrypted value : Bytes)
    (passed : Bool)
    → Circuits.submit_report h encrypted p l ≡ ok (id, first)
    → Reach h first m
    → Circuits.submit_retest h id passed q m ≡ ok (value, m')
    → ((q.actor_secret ≡ p.actor_secret) × SamePreimage p q) ⊎ Collision h
only_the_submitter_retests h p q l first m m' id encrypted value passed sent past e =
    let (opened, known, absent, fits, made) = submit_report-inv h encrypted p l id sent in
    let (r, found, researcher) = (submit_retest-inv h id q m passed value e).0 in
    let (r', found', kept) =
      submission_stands h first m id
        (fresh_record h id encrypted (derive_researcher_key h l.program_id id p.actor_secret)
          l.sequence)
        past (rw made (lookup-insert_self id _ l.reports)) in
    let same = (program_is_fixed h first m past).0 in
    let at_start : first.program_id ≡ l.program_id = ap (λ (x : Ledger). x.program_id) made in
    let one : r ≡ r' = cc (found, found') in
    either
      (researcher_key_injective h l.program_id id q.actor_secret p.actor_secret
        (cc (one, researcher.2, kept.researcher_key, same.program_id, at_start)))
      (commitment_injective h p q (opened.4 ∙ sym researcher.0.4))
