-- ===== src/Contract/Sample.antt =====
-- A concrete contract: a toy hash, the private states of one vendor and one researcher, a ledger
-- before any report, and one report's way through it.
use vulnseal.Prelude.{ℕ, ◌+◌, ◌*◌, ◌%◌, refl, List, [], ◌∷◌, Bytes, replicate, if◌then◌else◌}
use vulnseal.Contract.Types.{Hash, Ledger}
use vulnseal.Contract.Witnesses.{PrivateState}
use vulnseal.Contract.Circuits.{
  ProgramArgs, derive_vendor_key, derive_report_commitment, derive_patch_commitment,
}
use vulnseal.Contract.Lifecycle.{Journey}

abbrev pub sum : Bytes → ℕ
sum [] = 0
sum (x ∷ xs) = x + sum xs

abbrev pub mix : List Bytes → ℕ
mix [] = 5
mix (x ∷ xs) = (sum x + 7 * mix xs) % 251

abbrev pub toy : Hash
toy = record {
  vec = λ xs. mix xs ∷ replicate 31 0;
  bool = λ b. (if b then 1 else 0) ∷ replicate 31 0;
  uint8 = λ n. n ∷ replicate 31 0;
  vec_length = λ xs. refl;
}

abbrev pub bytes : ℕ → Bytes
bytes n = n ∷ replicate 31 0

abbrev pub args : ProgramArgs
args = record {
  program_id = bytes 1;
  scope_digest = bytes 2;
  response_policy_digest = bytes 3;
  response_days = 7;
  reward_policy_digest = bytes 4;
  disclosure_policy_digest = bytes 5;
  disclosure_delay_days = 90;
}

abbrev pub id : Bytes
id = derive_report_commitment toy (bytes 1) (bytes 30) (bytes 31)

abbrev pub vendor : PrivateState
vendor = record {
  actor_secret = bytes 20;
  report = record { program_id = bytes 0; canonical_digest = bytes 0; salt = bytes 0 };
  patch = record { report_id = id; patch_digest = bytes 40 };
  retest = record { report_id = bytes 0; patch_commitment = bytes 0; evidence_digest = bytes 0 };
}

abbrev pub researcher : PrivateState
researcher = record {
  actor_secret = bytes 21;
  report = record { program_id = bytes 1; canonical_digest = bytes 30; salt = bytes 31 };
  patch = record { report_id = bytes 0; patch_digest = bytes 0 };
  retest = record {
    report_id = id;
    patch_commitment = derive_patch_commitment toy id (bytes 40);
    evidence_digest = bytes 50;
  };
}

abbrev pub start : Ledger
start = record {
  program_id = bytes 1;
  owner_key = derive_vendor_key toy (bytes 1) (bytes 20);
  scope_digest = bytes 2;
  response_policy_digest = bytes 3;
  response_days = 7;
  reward_policy_digest = bytes 4;
  disclosure_policy_digest = bytes 5;
  disclosure_delay_days = 90;
  sequence = 1;
  reports = [];
  payout_receipts = [];
}

abbrev pub journey : Journey
journey = record {
  hash = toy;
  start = start;
  submitter = researcher;
  vendor = vendor;
  retester = researcher;
  encrypted = bytes 60;
  severity = 4;
  decision = bytes 61;
  tier = 3;
}
