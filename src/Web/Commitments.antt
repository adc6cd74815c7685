-- ===== src/Web/Commitments.antt =====
-- web/src/patch-comparison.ts and web/src/submission-receipt.ts: commitments of the contract that the
-- browser computes for itself. The runtime's persistentHash of a vector is the `vec` of `Hash`, and
-- the encoder and SHA-256 are those of the platform.
pub mod Mirror
mod Trials
use vulnseal.Prelude.{
  ℕ, String, ◌&&◌, [], ◌∷◌, Bytes, all, length, ◌==◌, replicate, Result, ok, err, ◌>>=◌, ◌>>◌,
  guard,
}
use vulnseal.Contract.Types.{Hash, ascii}
use vulnseal.Shared.Hex.{Text, EncodingError, is_hex, hex_to_bytes, bytes_to_hex, assert_bytes32}
use vulnseal.Shared.Crypto.{Platform}
use vulnseal.Cipherstore.Upload.{set_bytes}

pub data CommitmentError : Type 0 where
  invalid_report_id : CommitmentError
  encoding : EncodingError → CommitmentError

abbrev pub encoded : Result EncodingError Bytes → Result CommitmentError Bytes
encoded (ok bs) = ok bs
encoded (err e) = err (encoding e)

module _ (platform : Platform) (h : Hash) where
  -- `new Uint8Array(32)` and its `set`
  abbrev pub domain : String → Bytes
  unfolding set_bytes
  domain tag = set_bytes (replicate 32 0) (platform.utf8 (ascii tag)) 0

  unfoldable pub saved_patch_commitment : Text → Text → Result CommitmentError Text
  unfolding set_bytes hex_to_bytes bytes_to_hex
  saved_patch_commitment report_id text = do
    guard (all is_hex report_id && (length report_id == 64)) invalid_report_id
    id ← encoded (hex_to_bytes report_id)
    ok (
        bytes_to_hex
          (h.vec (domain "vulnseal:patch:v1" ∷ id ∷ platform.sha256 (platform.utf8 text) ∷ [])))

  unfoldable pub submission_receipt : Bytes → Bytes → Bytes → Result EncodingError Bytes
  unfolding set_bytes assert_bytes32
  submission_receipt commitment ciphertext_digest researcher_key = do
    commitment ← assert_bytes32 commitment
    encrypted ← assert_bytes32 ciphertext_digest
    researcher ← assert_bytes32 researcher_key
    ok (h.vec (domain "vulnseal:submission:v1" ∷ commitment ∷ encrypted ∷ researcher ∷ []))
