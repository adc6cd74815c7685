-- ===== src/Contract/Types.antt =====
-- The public ledger of contract/src/vulnseal.compact, and the interface of its hash.
-- `persistentHash` and `pad` belong to Compact: the hash is the parameter `Hash` of every definition
-- that uses it, with one function for each argument type that the contract hashes, and the one
-- fact that the contract's types state: a hash is a `Bytes<32>`.
use Prim.Native.Char.{code}
use vulnseal.Prelude.{
  ℕ, ◌-◌, String, ◌≡◌, Bool, List, [], ◌∷◌, ◌++◌, Bytes, Dict, length, replicate, ◌==◌,
}

pub record Hash : Type 0 where
  pub vec : List Bytes → Bytes
  pub bool : Bool → Bytes
  pub uint8 : ℕ → Bytes
  pub vec_length : (xs : List Bytes) → length (vec xs) ≡ 32

-- The bytes of an ASCII text.
abbrev pub ascii : String → Bytes
ascii String.[] = []
ascii (String.◌∷◌ c s) = code c ∷ ascii s

-- `pad(32, tag)`: the tag's bytes, filled up with zeros.
unfoldable pub pad32 : String → Bytes
pad32 tag = ascii tag ++ replicate (32 - length (ascii tag)) 0

pub data ReportStatus : Type 0 where
  committed : ReportStatus
  triaged : ReportStatus
  accepted : ReportStatus
  rejected : ReportStatus
  patch_ready : ReportStatus
  retest_passed : ReportStatus
  retest_failed : ReportStatus
  payout_authorized : ReportStatus
  closed : ReportStatus

-- The number that stands for a status in the ledger.
abbrev pub status_code : ReportStatus → ℕ
status_code committed = 0
status_code triaged = 1
status_code accepted = 2
status_code rejected = 3
status_code patch_ready = 4
status_code retest_passed = 5
status_code retest_failed = 6
status_code payout_authorized = 7
status_code closed = 8

infix 50 ◌=ˢ◌
abbrev pub ◌=ˢ◌ : ReportStatus → ReportStatus → Bool
a =ˢ b = status_code a == status_code b

pub record ReportRecord : Type 0 where
  pub commitment : Bytes
  pub ciphertext_digest : Bytes
  pub researcher_key : Bytes
  pub submission_receipt : Bytes
  pub status : ReportStatus
  pub severity : ℕ
  pub decision_digest : Bytes
  pub patch_commitment : Bytes
  pub retest_commitment : Bytes
  pub retest_flag : Bool
  pub payout_receipt : Bytes
  pub reward_tier : ℕ
  pub created_sequence : ℕ
  pub updated_sequence : ℕ

pub record Ledger : Type 0 where
  pub program_id : Bytes
  pub owner_key : Bytes
  pub scope_digest : Bytes
  pub response_policy_digest : Bytes
  pub response_days : ℕ
  pub reward_policy_digest : Bytes
  pub disclosure_policy_digest : Bytes
  pub disclosure_delay_days : ℕ
  pub sequence : ℕ
  pub reports : Dict ReportRecord
  pub payout_receipts : Dict (Unit {0})

-- `default<Bytes<32>>`
abbrev pub zero32 : Bytes
zero32 = replicate 32 0

-- Why a circuit, or a witness, refuses. A refused circuit leaves the ledger as it was.
pub data Error : Type 0 where
  not_bytes32 : String → Error
  not_owner : Error
  foreign_program : Error
  preimage_mismatch : Error
  wrong_researcher : Error
  report_missing : Error
  report_exists : Error
  bad_severity : Error
  bad_reward_tier : Error
  wrong_status : Error
  foreign_patch_evidence : Error
  foreign_retest_evidence : Error
  stale_patch : Error
  retest_flag_missing : Error
  receipt_used : Error
  sequence_overflow : Error
