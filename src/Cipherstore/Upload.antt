-- ===== src/Cipherstore/Upload.antt =====
-- cipherstore/src/server.ts, `readLimited`: the body of an upload, chunk by chunk, up to the limit.
-- A request's chunks are given as a list; that the connection broke off is the stream's error.
pub mod Limit
use vulnseal.Prelude.{
  ℕ, zero, suc, ◌+◌, ◌-◌, ◌*◌, ◌≤◌, ◌≡◌, refl, Bool, true, false, List, [], ◌∷◌, ◌++◌, arith, Bytes,
  length, replicate, ltb, if◌then◌else◌, Result, ok, err, ◌>>=◌,
}
use vulnseal.Cipherstore.Storage.{StorageError, payload_too_large, other}

abbrev pub max_ciphertext_bytes : ℕ
max_ciphertext_bytes = 5 * 1024 * 1024

-- The chunks that arrived, and whether the stream then ended or failed.
pub record Stream : Type 0 where
  pub chunks : List Bytes
  pub ended : Bool

-- The loop: `length` is what was received before.
unfoldable pub receive : ℕ → List Bytes → Bool → Result StorageError (ℕ × List Bytes)
receive received [] ended = if ended then ok (received, []) else err other
receive received (chunk ∷ rest) ended =
    let next = receive (received + length chunk) rest ended in
    if ltb max_ciphertext_bytes (received + length chunk)
    then err payload_too_large
    else next >>= λ r. ok (r.0, chunk ∷ r.1)

-- `output.set(chunk, offset)`: the bytes from the offset on are the chunk's.
unfoldable pub set_bytes : Bytes → Bytes → ℕ → Bytes
set_bytes output [] zero = output
set_bytes [] (c ∷ chunk) zero = []
set_bytes (x ∷ output) (c ∷ chunk) zero = c ∷ set_bytes output chunk zero
set_bytes [] chunk (suc offset) = []
set_bytes (x ∷ output) chunk (suc offset) = x ∷ set_bytes output chunk offset

unfoldable pub assemble : Bytes → ℕ → List Bytes → Bytes
unfolding set_bytes
assemble output offset [] = output
assemble output offset (chunk ∷ rest) =
    assemble (set_bytes output chunk offset) (offset + length chunk) rest

unfoldable pub read_limited : Stream → Result StorageError Bytes
unfolding receive assemble
read_limited request = do
  r ← receive 0 request.chunks request.ended
  ok (assemble (replicate r.0 0) 0 r.1)

-- All bytes of the chunks, in order.
unfoldable pub joined : List Bytes → Bytes
joined [] = []
joined (chunk ∷ rest) = chunk ++ joined rest
