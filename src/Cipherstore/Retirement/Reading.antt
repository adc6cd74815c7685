-- ===== src/Cipherstore/Retirement/Reading.antt =====
-- cipherstore/src/retirement-policy.ts, `readRetirementPolicy`. What the calls on the file find, the
-- decoder and `JSON.parse` are parameters. A read gives one byte at least and as many as there is
-- room for at most, or none at the end of the file.
use vulnseal.Prelude.{
  ℕ, ◌+◌, ◌*◌, ◌<◌, ◌≤◌, ◌≡◌, ◌⊎◌, Bool-cases, inl, inr, refl, ap, arith, Bool, true, false, not,
  ◌&&◌, ◌||◌, Option, none, some, List, [], ◌∷◌, ◌++◌, Bytes, All, length, length-append, ltb, leb,
  ◌==◌, if◌then◌else◌, Result, ok, err, ◌>>=◌, ◌>>◌, guard,
}
use vulnseal.Contract.Types.{ascii}
use vulnseal.Shared.Hex.{Text}
use vulnseal.Shared.Json.{
  Json, Items, Fields, object, array, string, no_items, item, get_field, field_keys, is_one,
  is_exactly,
}
use vulnseal.Shared.Envelope.{sort, same_texts}
use vulnseal.Cipherstore.Upload.{joined}
use vulnseal.Cipherstore.Retirement.{
  PolicyError, unreadable, not_bounded_file, not_regular, oversized, not_json, malformed_policy,
  unsupported_policy, make_policy,
}

abbrev pub max_bytes : ℕ
max_bytes = 8 * 1024 * 1024

-- Whether it is a file and its size, by `lstat`; whether it is one by `stat` once it is open; what
-- each read gives, and whether the one after those fails.
pub record PolicyFile : Type 0 where
  pub listed : Option (Bool × ℕ)
  pub opened : Option Bool
  pub reads : List Bytes
  pub fails : Bool

abbrev pub found : {A : Type 0} → Option A → Result PolicyError A
found none = err unreadable
found (some a) = ok a

-- The loop, from an offset on.
unfoldable pub fill : Bool → ℕ → List Bytes → Result PolicyError Bytes
fill fails offset [] = if ltb offset (max_bytes + 1) && fails then err unreadable else ok []
fill fails offset (chunk ∷ chunks) =
    let rest = fill fails (offset + length chunk) chunks in
    if not (ltb offset (max_bytes + 1)) || (length chunk == 0)
    then ok []
    else (do bytes ← rest; ok (chunk ++ bytes))

-- The bytes of the file.
unfoldable pub read_bounded : PolicyFile → Result PolicyError Bytes
unfolding fill
read_bounded file = do
  info ← found file.listed
  guard (info.0 && leb info.1 max_bytes) not_bounded_file
  is_file ← found file.opened
  guard is_file not_regular
  bytes ← fill file.fails 0 file.reads
  guard (leb (length bytes) max_bytes) oversized
  ok bytes

-- The digests. A member that is no text is refused, as a text that is no digest is.
unfoldable pub texts_of : Items → List Text
texts_of no_items = []
texts_of (item (string t) rest) = t ∷ texts_of rest
texts_of (item _ rest) = [] ∷ texts_of rest

abbrev pub policy_fields : Json → Result PolicyError Fields
unfolding sort same_texts
policy_fields (object fields) =
    if same_texts (sort (field_keys fields))
      (ascii "digests" ∷ ascii "format" ∷ ascii "version" ∷ [])
    then ok fields
    else err malformed_policy
policy_fields _ = err malformed_policy

abbrev pub digests_of : Json → Result PolicyError (List Text)
unfolding texts_of
digests_of (array items) = ok (texts_of items)
digests_of _ = err unsupported_policy

module _ (decode_utf8 : Bytes → Option Text) (parse_json : Text → Option Json) where
  abbrev pub parsed : Option Text → Result PolicyError Json
  parsed none = err not_json
  parsed (some t) = elim (parse_json t) [ none ↦ err not_json | some value ↦ ok value ]

  unfoldable pub read_retirement_policy : PolicyFile → Result PolicyError (List Text)
  unfolding read_bounded texts_of make_policy get_field
  read_retirement_policy file = do
    bytes ← read_bounded file
    value ← parsed (decode_utf8 bytes)
    fields ← policy_fields value
    guard
        (is_exactly "vulnseal-retired-ciphertext" (get_field (ascii "format") fields)
          && is_one (get_field (ascii "version") fields))
        unsupported_policy
    digests ← digests_of (get_field (ascii "digests") fields)
    make_policy digests

abbrev pub IsRead : Bytes → Type 0
IsRead chunk = 1 ≤ length chunk

-- The loop reads to the end of the file, or past the limit.
fill_lem :
    (offset : ℕ) (chunks : List Bytes)
    → All IsRead chunks
    → (bytes : Bytes) × (fill false offset chunks ≡ ok bytes)
      × ((bytes ≡ joined chunks) ⊎ (max_bytes < offset + length bytes))
      × (length bytes ≤ length (joined chunks))
unfolding fill joined
fill_lem offset [] reads = ([], ground arith, inl refl, omega arith)
fill_lem offset (chunk ∷ chunks) reads = elim (Bool-cases (ltb offset (max_bytes + 1))) [
  | inl room ↦
      let (bytes, filled, whole, few) = fill_lem (offset + length chunk) chunks reads.1 in
      (
        chunk ++ bytes,
        ground (arith, room, filled, reads.0),
        elim whole [
          | inl same ↦ inl (ap (λ bs. chunk ++ bs) same)
          | inr past ↦ inr (omega (arith, past, length-append chunk bytes))
        ],
        omega (arith, few, length-append chunk bytes, length-append chunk (joined chunks)),
      )
  | inr none_left ↦ ([], ground (arith, none_left), inr (ground (arith, none_left)), omega arith)
]

-- Whatever the reads give, a policy file of at most 8 MiB is read whole, and a longer one is refused,
-- also one that grew after it was looked at; where the calls on the file succeed, it is a regular
-- one, its size was at most 8 MiB, and no read but the last is empty.
pub read_bounded_lem :
    (file : PolicyFile) (size : ℕ)
    → file.listed ≡ some (true, size)
    → size ≤ max_bytes
    → file.opened ≡ some true
    → file.fails ≡ false
    → All IsRead file.reads
    → read_bounded file ≡ (
        if leb (length (joined file.reads)) max_bytes
        then ok (joined file.reads)
        else err oversized)
unfolding read_bounded
read_bounded_lem file size listed small opened reads_on reads =
    let (bytes, filled, whole, few) = fill_lem 0 file.reads reads in
    rw (listed, opened, reads_on, filled)
      (elim whole [
        | inl same ↦ rw same (ground (arith, small))
        | inr past ↦ ground (arith, small, past, few)
      ])
