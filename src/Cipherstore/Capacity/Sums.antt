-- ===== src/Cipherstore/Capacity/Sums.antt =====
-- The loop of cipherstore/src/capacity.ts against the sums over the whole directory.
use vulnseal.Prelude.{
  ℕ, ◌+◌, ◌≡◌, refl, true, List, [], ◌∷◌, arith, if◌then◌else◌, ok, err, Bool-cases, inl, inr,
}
use vulnseal.Cipherstore.Storage.{capacity_exceeded}
use vulnseal.Cipherstore.Capacity.{Entry, is_blob, exceeds, check_capacity}

-- The sizes of the blobs of a directory, and their number.
unfoldable pub stored_bytes : List Entry → ℕ
stored_bytes [] = 0
stored_bytes (entry ∷ entries) = (if is_blob entry then entry.size else 0) + stored_bytes entries

unfoldable pub stored_blobs : List Entry → ℕ
stored_blobs [] = 0
stored_blobs (entry ∷ entries) = (if is_blob entry then 1 else 0) + stored_blobs entries

module _ (incoming max_bytes max_blobs : ℕ) where
  exceeds_later :
      (bytes blobs more count : ℕ)
      → exceeds incoming max_bytes max_blobs bytes blobs ≡ true
      → exceeds incoming max_bytes max_blobs (bytes + more) (blobs + count) ≡ true
  exceeds_later bytes blobs more count e = ground arith

  -- The check, which stops at the first excess, passes when the sums over all blobs leave room.
  check_capacity_lem :
      (bytes blobs : ℕ) (entries : List Entry)
      → check_capacity incoming max_bytes max_blobs bytes blobs entries ≡ (
          if exceeds incoming max_bytes max_blobs
            (bytes + stored_bytes entries)
            (blobs + stored_blobs entries)
          then err capacity_exceeded
          else ok tt)
  unfolding check_capacity stored_bytes stored_blobs
  check_capacity_lem bytes blobs [] = ground arith
  check_capacity_lem bytes blobs (entry ∷ entries) =
      let more = stored_bytes entries in
      let count = stored_blobs entries in
      let no_bytes : 0 + more ≡ more = omega arith in
      let no_blobs : 0 + count ≡ count = omega arith in
      let bytes_first : bytes + (entry.size + more) ≡ bytes + entry.size + more = omega arith in
      let blobs_first : blobs + (1 + count) ≡ blobs + 1 + count = omega arith in
      elim (Bool-cases (is_blob entry)) [
        | inr other ↦ rw (other, no_bytes, no_blobs) (check_capacity_lem bytes blobs entries)
        | inl blob ↦
            elim (Bool-cases
              (exceeds incoming max_bytes max_blobs (bytes + entry.size) (blobs + 1))) [
                | inl over ↦
                    rw
                      (
                        blob,
                        over,
                        bytes_first,
                        blobs_first,
                        exceeds_later (bytes + entry.size) (blobs + 1) more count over,
                      )
                      refl
                | inr room ↦
                    rw (blob, room, bytes_first, blobs_first)
                      (check_capacity_lem (bytes + entry.size) (blobs + 1) entries)
              ]
      ]
