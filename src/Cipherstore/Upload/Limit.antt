-- ===== src/Cipherstore/Upload/Limit.antt =====
-- `readLimited` of cipherstore/src/server.ts against its description: all chunks, or the limit.
use vulnseal.Prelude.{
  ℕ, zero, suc, ◌+◌, ◌≤◌, ◌≡◌, refl, ap, ◌∙◌, Bool, true, false, List, [], ◌∷◌, ◌++◌, arith, Bytes,
  length, length-append, replicate, ltb, if◌then◌else◌, Result, ok, err, ◌>>=◌, Bool-cases, inl,
  inr,
}
use mathlib.Core.List.{append_assoc}
use vulnseal.Cipherstore.Storage.{StorageError, payload_too_large, other}
use vulnseal.Cipherstore.Upload.{
  Stream, max_ciphertext_bytes, receive, set_bytes, assemble, read_limited, joined,
}

-- A chunk that is set where the zeros begin takes the place of as many of them.
set_bytes-append :
    (done chunk : Bytes) (n m : ℕ)
    → n ≡ length chunk + m
    → set_bytes (done ++ replicate n 0) chunk (length done) ≡ (done ++ chunk) ++ replicate m 0
unfolding set_bytes
set_bytes-append [] [] zero zero e = refl
set_bytes-append [] [] zero (suc m) e = absurd (omega arith)
set_bytes-append [] [] (suc n) zero e = absurd (omega arith)
set_bytes-append [] [] (suc n) (suc m) e = (let same : n ≡ m = omega arith in rw same refl)
set_bytes-append [] (c ∷ chunk) zero m e = absurd (omega arith)
set_bytes-append [] (c ∷ chunk) (suc n) m e =
    ap (λ u. c ∷ u) (set_bytes-append [] chunk n m (omega arith))
set_bytes-append (x ∷ done) [] n m e = ap (λ u. x ∷ u) (set_bytes-append done [] n m e)
set_bytes-append (x ∷ done) (c ∷ chunk) n m e =
    ap (λ u. x ∷ u) (set_bytes-append done (c ∷ chunk) n m e)

assemble-joined :
    (done : Bytes) (chunks : List Bytes) (offset : ℕ)
    → offset ≡ length done
    → assemble (done ++ replicate (length (joined chunks)) 0) offset chunks ≡ done ++ joined chunks
unfolding assemble joined
assemble-joined done [] offset e = refl
assemble-joined done (chunk ∷ rest) offset e =
    rw (e, set_bytes-append done chunk _ (length (joined rest)) (length-append chunk (joined rest)))
      (assemble-joined (done ++ chunk) rest _ (omega (arith, length-append done chunk))
        ∙ append_assoc done chunk (joined rest))

-- The loop's outcome, from a length within the limit.
received :
    (n : ℕ) (chunks : List Bytes) (ended : Bool)
    → n ≤ max_ciphertext_bytes
    → receive n chunks ended ≡ (
        if ltb max_ciphertext_bytes (n + length (joined chunks))
        then err payload_too_large
        else if ended
        then ok (n + length (joined chunks), chunks)
        else err other)
unfolding receive joined
received n [] ended h = ground arith
received n (chunk ∷ rest) ended h =
    rw (length-append chunk (joined rest))
      (elim (Bool-cases (ltb max_ciphertext_bytes (n + length chunk))) [
        | inl over ↦ ground arith
        | inr within ↦ rw (received (n + length chunk) rest ended (ground arith)) (ground arith)
      ])

-- A body is read whole when it is within the limit and its stream ends; a longer one is refused.
pub read_limited_lem :
    (request : Stream)
    → read_limited request ≡ (
        if ltb max_ciphertext_bytes (length (joined request.chunks))
        then err payload_too_large
        else if request.ended
        then ok (joined request.chunks)
        else err other)
unfolding read_limited
read_limited_lem request =
    rw (received 0 request.chunks request.ended (omega arith), zero_plus)
      (elim (Bool-cases (ltb max_ciphertext_bytes (length (joined request.chunks)))) [
        | inl over ↦ rw over refl
        | inr within ↦ rw within (whole request.ended)
      ])
  where
    zero_plus : 0 + length (joined request.chunks) ≡ length (joined request.chunks)
    zero_plus = omega arith

    outcome : Bool → Result StorageError (ℕ × List Bytes)
    outcome b = if b then ok (length (joined request.chunks), request.chunks) else err other

    whole :
        (b : Bool)
        → (outcome b >>= λ r. ok (assemble (replicate r.0 0) 0 r.1))
          ≡ (if b then ok (joined request.chunks) else err other)
    whole true = ap ok (assemble-joined [] request.chunks 0 refl)
    whole false = refl
