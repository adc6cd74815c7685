-- ===== src/Shared/Canonical/Laws.antt =====
-- packages/shared/src/canonicalize.ts: what `normalize` forgets of a value, and what it keeps.
use vulnseal.Prelude.{◌≡◌, refl, sym, ap, inl, inr, true, false, Result, ok, Dict, Bool-cases}
use mathlib.Core.List.{Permᴰ}
use vulnseal.Shared.Hex.{Text}
use vulnseal.Shared.Order.{distinct, distinct-perm, sort_entries-perm}
use vulnseal.Shared.Json.{
  Json, Items, Fields, number, string, array, object, no_items, item, no_fields, field, integer,
}
use vulnseal.Shared.Canonical.{
  normalize, normalize_items, normalize_fields, normalize_object, normalize_number, entry_of,
  CanonicalError,
}

pub normalize_object-perm :
    {m n : Dict (Result CanonicalError Json)} → Permᴰ m n → normalize_object m ≡ normalize_object n
unfolding normalize_object
normalize_object-perm {m} {n} p = elim (Bool-cases (distinct m)) [
  | inl h ↦ rw (sym (distinct-perm p), h, sort_entries-perm p h) refl
  | inr h ↦ rw (sym (distinct-perm p), h) refl
]

module _ (nfc : Text → Text) where
  -- Two values that differ in the order of fields at any depth, in the composition of the
  -- characters of texts and keys, and in the sign of zero, at most.
  mutual
    pub data IsSame : Json → Json → Type 0 where
      same : {v : Json} → IsSame v v
      same_zero : IsSame (number (integer true 0)) (number (integer false 0))
      same_text : {s t : Text} → nfc s ≡ nfc t → IsSame (string s) (string t)
      same_array : {xs ys : Items} → IsSameItems xs ys → IsSame (array xs) (array ys)
      same_object : {fs gs : Fields} → IsSameFields fs gs → IsSame (object fs) (object gs)

    pub data IsSameItems : Items → Items → Type 0 where
      same_no_items : IsSameItems no_items no_items
      same_item :
          {v w : Json} {xs ys : Items}
          → IsSame v w
          → IsSameItems xs ys
          → IsSameItems (item v xs) (item w ys)

    pub data IsSameFields : Fields → Fields → Type 0 where
      same_no_fields : IsSameFields no_fields no_fields
      same_field :
          {k j : Text} {v w : Json} {fs gs : Fields}
          → nfc k ≡ nfc j
          → IsSame v w
          → IsSameFields fs gs
          → IsSameFields (field k v fs) (field j w gs)
      swapped_fields :
          {k j : Text} {v w : Json} {fs : Fields}
          → IsSameFields (field k v (field j w fs)) (field j w (field k v fs))
      same_fields_trans :
          {fs gs hs : Fields} → IsSameFields fs gs → IsSameFields gs hs → IsSameFields fs hs

  entry_of-IsSame :
      {v w : Json} (r : Result CanonicalError Json) → IsSame v w → entry_of v r ≡ entry_of w r
  entry_of-IsSame r same = refl
  entry_of-IsSame r same_zero = refl
  entry_of-IsSame r (same_text e) = refl
  entry_of-IsSame r (same_array e) = refl
  entry_of-IsSame r (same_object e) = refl

  mutual
    unfolding normalize normalize_number

    normalize_same : {v w : Json} → IsSame v w → normalize nfc v ≡ normalize nfc w
    normalize_same same = refl
    normalize_same same_zero = refl
    normalize_same (same_text e) = ap (λ t. ok (string t)) e
    normalize_same (same_array xs) = rw (normalize_items-IsSameItems xs) refl
    normalize_same (same_object fs) = normalize_object-perm (normalize_fields-IsSameFields fs)

    normalize_items-IsSameItems :
        {xs ys : Items} → IsSameItems xs ys → normalize_items nfc xs ≡ normalize_items nfc ys
    normalize_items-IsSameItems same_no_items = refl
    normalize_items-IsSameItems (same_item e s) =
        rw (normalize_same e, normalize_items-IsSameItems s) refl

    normalize_fields-IsSameFields :
        {fs gs : Fields}
        → IsSameFields fs gs
        → Permᴰ (normalize_fields nfc fs) (normalize_fields nfc gs)
    normalize_fields-IsSameFields same_no_fields = Permᴰ.nil
    normalize_fields-IsSameFields (same_field {v = v} {w = w} e d s) =
        Permᴰ.cons (rw (e, normalize_same d, entry_of-IsSame (normalize nfc w) d) refl)
          (normalize_fields-IsSameFields s)
    normalize_fields-IsSameFields swapped_fields = Permᴰ.swap refl refl
    normalize_fields-IsSameFields (same_fields_trans s t) =
        Permᴰ.trans (normalize_fields-IsSameFields s) (normalize_fields-IsSameFields t)
