-- ===== src/Cipherstore/Capacity.antt =====
-- cipherstore/src/capacity.ts, `checkCapacity`: the quota of a directory, summed up entry by entry.
-- The entries, their sizes and which of them are files are what the file system lists.
pub mod Sums
use vulnseal.Prelude.{
  ℕ, zero, suc, ◌+◌, ◌-◌, Bool, ◌&&◌, ◌||◌, not, List, [], ◌∷◌, ltb, leb, ◌=ᵇ◌, if◌then◌else◌,
  Result, ok, err, guard, ◌>>=◌, ◌>>◌, length, all, none, some, true, false,
}
use vulnseal.Contract.Types.{ascii}
use vulnseal.Shared.Hex.{Text, is_hex}
use vulnseal.Cipherstore.Storage.{StorageError, capacity_exceeded}

pub record Entry : Type 0 where
  pub name : Text
  pub is_file : Bool
  pub size : ℕ

-- `/^[a-f0-9]{64}\.ciphertext\.json$/`
unfoldable pub digest_name : ℕ → Text → Bool
unfolding ◌=ᵇ◌
digest_name zero t = t =ᵇ ascii ".ciphertext.json"
digest_name (suc n) [] = false
digest_name (suc n) (c ∷ t) = is_hex c && digest_name n t

abbrev pub is_blob : Entry → Bool
is_blob entry = entry.is_file && digest_name 64 entry.name

-- `bytes > maxBytes - incoming || blobs >= maxBlobs`
abbrev pub exceeds : ℕ → ℕ → ℕ → ℕ → ℕ → Bool
exceeds incoming max_bytes max_blobs bytes blobs =
    ltb max_bytes (bytes + incoming) || leb max_blobs blobs

unfoldable pub check_capacity :
    (incoming max_bytes max_blobs : ℕ) → ℕ → ℕ → List Entry → Result StorageError (Unit {0})
unfolding digest_name
check_capacity incoming max_bytes max_blobs bytes blobs [] =
    guard (not (exceeds incoming max_bytes max_blobs bytes blobs)) capacity_exceeded
check_capacity incoming max_bytes max_blobs bytes blobs (entry ∷ entries) =
    let skipped = check_capacity incoming max_bytes max_blobs bytes blobs entries in
    let counted =
      check_capacity incoming max_bytes max_blobs (bytes + entry.size) (blobs + 1) entries in
    if is_blob entry
    then (if exceeds incoming max_bytes max_blobs (bytes + entry.size) (blobs + 1)
        then err capacity_exceeded
        else counted)
    else skipped
