-- ===== src/Shared/Order.antt =====
-- The order in which `sort()` puts texts, and the records of a JavaScript object sorted by key.
use vulnseal.Prelude.{
  ◌≡◌, refl, ◌∙◌, inl, inr, Bool, true, false, not, ◌&&◌, ◌||◌, [], ◌∷◌, arith, ltb, ◌==◌, ◌=ᵇ◌,
  bytes_eq_iff, if◌then◌else◌, Dict, member, lookup, Bool-cases,
}
use mathlib.Core.List.{Permᴰ}
use mathlib.Core.List.Permᴰ
use vulnseal.Shared.Hex.{Text}

-- `a <= b` of two texts: by their code units.
unfoldable pub text_le : Text → Text → Bool
text_le [] _ = true
text_le (a ∷ s) [] = false
text_le (a ∷ s) (b ∷ t) = ltb a b || ((a == b) && text_le s t)

pub text_le_total : (s t : Text) → text_le s t ≡ false → text_le t s ≡ true
unfolding text_le
text_le_total [] t h = cc
text_le_total (a ∷ s) [] h = refl
text_le_total (a ∷ s) (b ∷ t) h = ground (arith, text_le_total s t)

pub text_le_antisym : (s t : Text) → text_le s t ≡ true → text_le t s ≡ true → s ≡ t
unfolding text_le
text_le_antisym [] [] h g = refl
text_le_antisym [] (b ∷ t) h g = cc
text_le_antisym (a ∷ s) [] h g = cc
text_le_antisym (a ∷ s) (b ∷ t) h g = ground (arith, text_le_antisym s t)

pub text_le_trans : (s t u : Text) → text_le s t ≡ true → text_le t u ≡ true → text_le s u ≡ true
unfolding text_le
text_le_trans [] t u h g = refl
text_le_trans (a ∷ s) [] u h g = cc
text_le_trans (a ∷ s) (b ∷ t) [] h g = cc
text_le_trans (a ∷ s) (b ∷ t) (c ∷ u) h g = ground (arith, text_le_trans s t u)

module _ {ℓ} {A : Type ℓ} where
  -- One round of a stable sort by key: before the first record whose key is not less.
  unfoldable pub place_entry : Text → A → Dict A → Dict A
  place_entry k v [] = (k, v) ∷ []
  place_entry k v ((j, w) ∷ m) =
      if text_le k j then (k, v) ∷ (j, w) ∷ m else (j, w) ∷ place_entry k v m

  unfoldable pub sort_entries : Dict A → Dict A
  unfolding place_entry
  sort_entries [] = []
  sort_entries ((k, v) ∷ m) = place_entry k v (sort_entries m)

  -- `new Set(keys).size === keys.length`
  unfoldable pub distinct : Dict A → Bool
  unfolding lookup
  distinct [] = true
  distinct ((k, v) ∷ m) = not (member k m) && distinct m

  place_entry-swap :
      (k j : Text) (v w : A) (m : Dict A)
      → (k =ᵇ j) ≡ false
      → place_entry k v (place_entry j w m) ≡ place_entry j w (place_entry k v m)
  unfolding place_entry
  place_entry-swap k j v w [] h =
      ground (arith, text_le_total k j, text_le_antisym k j, bytes_eq_iff k j)
  place_entry-swap k j v w ((i, x) ∷ m) h = ground (
    arith,
    text_le_total k j,
    text_le_antisym k j,
    bytes_eq_iff k j,
    text_le_trans k j i,
    text_le_trans j k i,
    text_le_total k i,
    text_le_total j i,
    place_entry-swap k j v w m h,
  )

  member-perm : {m n : Dict A} (k : Text) → Permᴰ m n → member k m ≡ member k n
  unfolding lookup
  member-perm k Permᴰ.nil = refl
  member-perm k (Permᴰ.cons {a = (i, v)} {b = (j, w)} e p) = ground (arith, e, member-perm k p)
  member-perm k (Permᴰ.swap {a = (i, v)} {b = (j, w)} e f) = ground arith
  member-perm k (Permᴰ.trans p q) = member-perm k p ∙ member-perm k q

  pub distinct-perm : {m n : Dict A} → Permᴰ m n → distinct m ≡ distinct n
  unfolding lookup distinct
  distinct-perm Permᴰ.nil = refl
  distinct-perm (Permᴰ.cons {a = (i, v)} {b = (j, w)} e p) =
      ground (arith, e, distinct-perm p, member-perm j p)
  distinct-perm (Permᴰ.swap {a = (i, v)} {b = (j, w)} e f) =
      ground (arith, bytes_eq_iff i j, bytes_eq_iff j i)
  distinct-perm (Permᴰ.trans p q) = distinct-perm p ∙ distinct-perm q

  -- Sorting forgets the order of records with different keys.
  pub sort_entries-perm :
      {m n : Dict A} → Permᴰ m n → distinct m ≡ true → sort_entries m ≡ sort_entries n
  unfolding lookup distinct sort_entries
  sort_entries-perm Permᴰ.nil h = refl
  sort_entries-perm (Permᴰ.cons {a = (i, v)} {b = (j, w)} e p) h =
      ground (arith, e, sort_entries-perm p)
  sort_entries-perm (Permᴰ.swap {a = (i, v)} {b = (j, w)} {l = l} e f) h =
      ground (arith, bytes_eq_iff i j, place_entry-swap i j v w (sort_entries l))
  sort_entries-perm (Permᴰ.trans p q) h =
      sort_entries-perm p h ∙ sort_entries-perm q (ground (arith, h, distinct-perm p))

  place_entry-perm : (k : Text) (v : A) (m : Dict A) → Permᴰ (place_entry k v m) ((k, v) ∷ m)
  unfolding place_entry
  place_entry-perm k v [] = Permᴰ.refl _
  place_entry-perm k v ((j, w) ∷ m) = elim (Bool-cases (text_le k j)) [
    | inl h ↦ rw h (Permᴰ.refl _)
    | inr h ↦ rw h (Permᴰ.trans (Permᴰ.cons refl (place_entry-perm k v m)) (Permᴰ.swap refl refl))
  ]

  pub sort_entries-Permᴰ : (m : Dict A) → Permᴰ (sort_entries m) m
  unfolding sort_entries
  sort_entries-Permᴰ [] = Permᴰ.nil
  sort_entries-Permᴰ ((k, v) ∷ m) =
      Permᴰ.trans (place_entry-perm k v (sort_entries m)) (Permᴰ.cons refl (sort_entries-Permᴰ m))

  -- No record has a key below that of the one before it.
  unfoldable pub is_sorted : Dict A → Bool
  is_sorted [] = true
  is_sorted (_ ∷ []) = true
  is_sorted ((k, v) ∷ (j, w) ∷ m) = text_le k j && is_sorted ((j, w) ∷ m)

  place_entry-is_sorted :
      (k : Text) (v : A) (m : Dict A) → is_sorted m ≡ true → is_sorted (place_entry k v m) ≡ true
  unfolding place_entry is_sorted
  place_entry-is_sorted k v [] h = refl
  place_entry-is_sorted k v ((j, w) ∷ []) h = ground (arith, text_le_total k j)
  place_entry-is_sorted k v ((j, w) ∷ (i, x) ∷ m) h =
      ground (arith, text_le_total k j, text_le_total k i, place_entry-is_sorted k v ((i, x) ∷ m))

  pub sort_entries-is_sorted : (m : Dict A) → is_sorted (sort_entries m) ≡ true
  unfolding sort_entries is_sorted
  sort_entries-is_sorted [] = refl
  sort_entries-is_sorted ((k, v) ∷ m) =
      place_entry-is_sorted k v (sort_entries m) (sort_entries-is_sorted m)

  pub sort_entries_sorted : (m : Dict A) → is_sorted m ≡ true → sort_entries m ≡ m
  unfolding sort_entries is_sorted place_entry
  sort_entries_sorted [] h = refl
  sort_entries_sorted ((k, v) ∷ []) h = refl
  sort_entries_sorted ((k, v) ∷ (j, w) ∷ m) h = ground (arith, sort_entries_sorted ((j, w) ∷ m))
