-- ===== src/Contract/Effects.antt =====
-- The parts that the circuits of vulnseal.compact share: what each has checked when it passes, and
-- when it passes.
use vulnseal.Prelude.{
  ◌+◌, ◌<◌, ◌≡◌, true, some, arith, Bytes, lookup, insert, length, ok, bytes_eq_iff,
}
use vulnseal.Contract.Types.{Hash, ReportStatus, ◌=ˢ◌, ReportRecord, Ledger}
use vulnseal.Contract.Witnesses.{PrivateState}
use vulnseal.Contract.Circuits.{
  uint64_mod, load_report, bump_sequence, store_report, assert_vendor, assert_researcher,
  derive_vendor_key, derive_report_commitment, derive_researcher_key,
}

pub =ˢ-eq : (a b : ReportStatus) → (a =ˢ b) ≡ true → a ≡ b
=ˢ-eq a b h = ground arith

pub =ˢ_refl : (a : ReportStatus) → (a =ˢ a) ≡ true
=ˢ_refl a = ground arith

pub load_report-inv :
    (id : Bytes) (l : Ledger) {r : ReportRecord}
    → load_report id l ≡ ok r
    → lookup id l.reports ≡ some r
unfolding load_report
load_report-inv id l h = ground arith

-- The ledger after a report is stored.
abbrev pub stored : Bytes → ReportRecord → Ledger → Ledger
stored id r l = record l { reports = insert id r l.reports; sequence = l.sequence + 1 }

pub store_report-inv :
    (id : Bytes) (r : ReportRecord) (l : Ledger) {l' : Ledger}
    → store_report id r l ≡ ok l'
    → (l' ≡ stored id r l) × (l.sequence + 1 < uint64_mod)
unfolding store_report bump_sequence
store_report-inv id r l h = ground arith

pub store_report-run :
    (id : Bytes) (r : ReportRecord) (l : Ledger)
    → l.sequence + 1 < uint64_mod
    → store_report id r l ≡ ok (stored id r l)
unfolding store_report bump_sequence
store_report-run id r l h = ground arith

-- The caller holds the secret that the owner's key was derived from, or one with the same key.
abbrev pub IsOwner : Hash → PrivateState → Ledger → Type 0
IsOwner h p l =
    (length p.actor_secret ≡ 32) × (l.owner_key ≡ derive_vendor_key h l.program_id p.actor_secret)

-- The caller's private preimage is of 32-byte parts, names this program and opens the commitment.
abbrev pub Opens : Hash → PrivateState → Ledger → Bytes → Type 0
Opens h p l id =
    (length p.report.program_id ≡ 32)
    × (length p.report.canonical_digest ≡ 32)
    × (length p.report.salt ≡ 32)
    × (p.report.program_id ≡ l.program_id)
    × (derive_report_commitment h p.report.program_id p.report.canonical_digest p.report.salt ≡ id)

-- The caller opens the commitment and derives the researcher's key of the report.
abbrev pub IsResearcher : Hash → PrivateState → Ledger → Bytes → ReportRecord → Type 0
IsResearcher h p l id r =
    Opens h p l id
    × (length p.actor_secret ≡ 32)
    × (r.researcher_key ≡ derive_researcher_key h l.program_id id p.actor_secret)

module _ (h : Hash) (p : PrivateState) (l : Ledger) where
  pub assert_vendor-inv : assert_vendor h p l ≡ ok tt → IsOwner h p l
  unfolding assert_vendor
  assert_vendor-inv e =
      ground (arith, bytes_eq_iff l.owner_key (derive_vendor_key h l.program_id p.actor_secret))

  pub assert_vendor-run : IsOwner h p l → assert_vendor h p l ≡ ok tt
  unfolding assert_vendor
  assert_vendor-run e =
      ground (arith, bytes_eq_iff l.owner_key (derive_vendor_key h l.program_id p.actor_secret))

  module _ (id : Bytes) (r : ReportRecord) where
    pub assert_researcher-inv : assert_researcher h p l id r ≡ ok tt → IsResearcher h p l id r
    unfolding assert_researcher
    assert_researcher-inv e = ground (
      arith,
      bytes_eq_iff p.report.program_id l.program_id,
      bytes_eq_iff
          (derive_report_commitment h p.report.program_id p.report.canonical_digest p.report.salt)
          id,
      bytes_eq_iff r.researcher_key (derive_researcher_key h l.program_id id p.actor_secret),
    )

    pub assert_researcher-run : IsResearcher h p l id r → assert_researcher h p l id r ≡ ok tt
    unfolding assert_researcher
    assert_researcher-run e = ground (
      arith,
      bytes_eq_iff p.report.program_id l.program_id,
      bytes_eq_iff
          (derive_report_commitment h p.report.program_id p.report.canonical_digest p.report.salt)
          id,
      bytes_eq_iff r.researcher_key (derive_researcher_key h l.program_id id p.actor_secret),
    )
