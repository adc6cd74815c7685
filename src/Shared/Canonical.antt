-- ===== src/Shared/Canonical.antt =====
-- packages/shared/src/canonicalize.ts, `normalize` and `canonicalizeJson`: one text for each JSON
-- value, whatever the order of its fields and the composition of its characters. The Unicode
-- normalization `String.normalize("NFC")` and `JSON.stringify` are parameters.
pub mod Laws
pub mod Stable
use vulnseal.Prelude.{
  ℕ, ◌+◌, ◌-◌, ◌*◌, ◌<◌, Bool, true, false, not, ◌&&◌, ◌||◌, Option, none, some, List, [], ◌∷◌, all,
  leb, ltb, ◌==◌, ◌=ᵇ◌, if◌then◌else◌, Result, ok, err, ◌>>=◌, Dict,
}
use vulnseal.Shared.Hex.{Text}
use vulnseal.Shared.Json.{
  max_safe_integer, Json, Items, Fields, undefined, null, boolean, number, string, array, object,
  no_items, item, no_fields, field, Number, not_finite, fraction, integer,
}
use vulnseal.Shared.Order.{sort_entries, distinct}

pub data CanonicalError : Type 0 where
  non_finite : CanonicalError
  unsafe_number : CanonicalError
  duplicate_keys : CanonicalError
  undefined_value : CanonicalError

unfoldable pub normalize_number : Number → Result CanonicalError Json
normalize_number not_finite = err non_finite
normalize_number fraction = err unsafe_number
normalize_number (integer negative n) =
    if leb n max_safe_integer
    then ok (number (integer (negative && not (n == 0)) n))
    else err unsafe_number

-- The number that a key writes in decimal digits, without a leading zero.
unfoldable pub digits : ℕ → Text → Option ℕ
digits n [] = some n
digits n (c ∷ t) = if leb b'0' c && leb c b'9' then digits (10 * n + (c - 48)) t else none

-- The keys that a JavaScript object puts first, by their number: the array indices.
unfoldable pub index : Text → Option ℕ
unfolding digits
index [] = none
index (c ∷ []) = digits 0 (c ∷ [])
index (c ∷ d ∷ t) = elim (if c == b'0' then none else digits 0 (c ∷ d ∷ t)) [
  | none ↦ none
  | some n ↦ if ltb n 4294967295 then some n else none
]

-- A new key `k` stands before the key `j` of the object.
unfoldable pub precedes : Text → Text → Bool
unfolding index
precedes k j = elim (index k) [
  | none ↦ false
  | some n ↦ elim (index j) [ none ↦ true | some m ↦ ltb n m ]
]

-- `sorted[key] = value`
unfoldable pub assign {ℓ} : {A : Type ℓ} → Text → A → Dict A → Dict A
unfolding precedes ◌=ᵇ◌
assign k v [] = (k, v) ∷ []
assign k v ((j, w) ∷ m) =
    if j =ᵇ k
    then (k, v) ∷ m
    else if precedes k j
    then (k, v) ∷ (j, w) ∷ m
    else (j, w) ∷ assign k v m

-- The loop over the sorted keys.
unfoldable pub assign_all :
    Dict (Result CanonicalError Json) → Dict Json → Result CanonicalError (Dict Json)
unfolding assign
assign_all [] sorted = ok sorted
assign_all ((k, entry) ∷ rest) sorted = entry >>= λ v. assign_all rest (assign k v sorted)

abbrev pub to_fields : Dict Json → Fields
to_fields [] = no_fields
to_fields ((k, v) ∷ m) = field k v (to_fields m)

-- What the loop does with the value at a key.
abbrev pub entry_of : Json → Result CanonicalError Json → Result CanonicalError Json
entry_of undefined _ = err undefined_value
entry_of _ normalized = normalized

-- The body for an object, given its keys and the values they lead to.
unfoldable pub normalize_object : Dict (Result CanonicalError Json) → Result CanonicalError Json
unfolding distinct sort_entries assign_all
normalize_object entries =
    if distinct entries
    then (assign_all (sort_entries entries) [] >>= λ sorted. ok (object (to_fields sorted)))
    else err duplicate_keys

module _ (nfc : Text → Text) where
  unfoldable mutual
    unfolding normalize_number normalize_object

    pub normalize : Json → Result CanonicalError Json
    normalize undefined = ok undefined
    normalize null = ok null
    normalize (boolean b) = ok (boolean b)
    normalize (number n) = normalize_number n
    normalize (string t) = ok (string (nfc t))
    normalize (array items) = normalize_items items >>= λ normalized. ok (array normalized)
    normalize (object fields) = normalize_object (normalize_fields fields)

    pub normalize_items : Items → Result CanonicalError Items
    normalize_items no_items = ok no_items
    normalize_items (item v rest) =
        normalize v >>= λ w. normalize_items rest >>= λ ws. ok (item w ws)

    pub normalize_fields : Fields → Dict (Result CanonicalError Json)
    normalize_fields no_fields = []
    normalize_fields (field k v rest) = (nfc k, entry_of v (normalize v)) ∷ normalize_fields rest

  unfoldable pub canonicalize_json : (Json → Text) → Json → Result CanonicalError Text
  unfolding normalize
  canonicalize_json stringify value = normalize value >>= λ normalized. ok (stringify normalized)
