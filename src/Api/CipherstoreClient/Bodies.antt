-- ===== src/Api/CipherstoreClient/Bodies.antt =====
-- api/src/cipherstore-client.ts, `readCiphertext`: the growing buffer holds what came.
use vulnseal.Prelude.{
  ℕ, ◌≤◌, ◌<◌, ◌+◌, ◌-◌, ◌≡◌, sym, ap, ◌∙◌, inl, inr, arith, Bool-cases, Bool, true, false, List,
  [], ◌∷◌, ◌++◌, Bytes, length, length-append, ltb, leb, if◌then◌else◌, Result, ok, err,
}
use mathlib.Core.List.{append-nil, append_assoc}
use vulnseal.Api.CipherstoreClient.{
  ClientError, response_too_large, broken_body, read_chunks, grown, max_cipherstore_bytes,
  first_capacity,
}

-- All the chunks in one.
abbrev pub concat : List Bytes → Bytes
concat [] = []
concat (chunk ∷ chunks) = chunk ++ concat chunks

grown_fits :
    (capacity required : ℕ)
    → required ≤ 5242880
    → capacity ≤ 5242880
    → (required ≤ grown capacity required) × (grown capacity required ≤ 5242880)
grown_fits capacity required h g = ground arith

-- What reading comes to, of the bytes so far and those to come.
abbrev whole : Bool → Bytes → Result ClientError Bytes
whole ended bytes =
    if leb (length bytes) max_cipherstore_bytes
    then (if ended then ok bytes else err broken_body)
    else err response_too_large

whole_over :
    (ended : Bool) (bytes : Bytes)
    → 5242880 < length bytes
    → whole ended bytes ≡ err response_too_large
whole_over ended bytes h = ground (arith, h)

whole_under :
    (ended : Bool) (bytes : Bytes)
    → length bytes ≤ 5242880
    → whole ended bytes ≡ (if ended then ok bytes else err broken_body)
whole_under ended bytes h = ground (arith, h)

over_limit : (a b : ℕ) → ltb (max_cipherstore_bytes - a) b ≡ true → a ≤ 5242880 → 5242880 < a + b
over_limit a b h g = ground arith

under_limit : (a b : ℕ) → ltb (max_cipherstore_bytes - a) b ≡ false → a ≤ 5242880 → a + b ≤ 5242880
under_limit a b h g = ground arith

not_ltb : (a b : ℕ) → b ≤ a → ltb a b ≡ false
not_ltb a b h = ground arith

read_chunks_whole :
    (ended : Bool) (chunks : List Bytes) (capacity : ℕ) (bytes : Bytes)
    → length bytes ≤ 5242880
    → capacity ≤ 5242880
    → read_chunks ended chunks capacity bytes ≡ whole ended (bytes ++ concat chunks)
unfolding read_chunks
read_chunks_whole ended [] capacity bytes small room =
    sym (ap (whole ended) (append-nil bytes) ∙ whole_under ended bytes small)
read_chunks_whole ended (chunk ∷ chunks) capacity bytes small room =
    elim (Bool-cases (ltb (max_cipherstore_bytes - length bytes) (length chunk))) [
      | inl h ↦
          let over = over_limit (length bytes) (length chunk) h small in
          let total = bytes ++ (chunk ++ concat chunks) in
          let long : 5242880 < length total = omega (
            arith,
            over,
            length-append bytes (chunk ++ concat chunks),
            length-append chunk (concat chunks),
          ) in
          rw h (sym (whole_over ended total long))
      | inr h ↦
          let under = under_limit (length bytes) (length chunk) h small in
          let required = length bytes + length chunk in
          let (fits, bounded) = grown_fits capacity required under room in
          let rest =
            read_chunks_whole ended chunks (grown capacity required) (bytes ++ chunk)
              (omega (arith, under, length-append bytes chunk)) bounded in
          rw (h, not_ltb (grown capacity required) required fits)
            (rest ∙ ap (whole ended) (append_assoc bytes chunk (concat chunks)))
    ]

-- A body is read whole, whatever its chunks, when it has 5 MiB at most and does not break off; one
-- that breaks off within 5 MiB is an error, and a longer one is refused; the buffer never
-- overflows.
pub read_chunks_lem :
    (ended : Bool) (chunks : List Bytes)
    → read_chunks ended chunks first_capacity [] ≡ (
        if leb (length (concat chunks)) max_cipherstore_bytes
        then (if ended then ok (concat chunks) else err broken_body)
        else err response_too_large)
read_chunks_lem ended chunks =
    read_chunks_whole ended chunks first_capacity [] (omega arith) (omega arith)
