-- ===== src/Shared/Canonical/Stable.antt =====
-- packages/shared/src/canonicalize.ts: a normalized value is its own normal form.
use vulnseal.Prelude.{
  ◌≡◌, refl, sym, ap, ◌∙◌, inl, inr, true, false, ◌||◌, List, [], ◌∷◌, ◌++◌, ◌=ᵇ◌, Result, ok, err,
  ◌>>=◌, >>=-ok, Dict, lookup, member, arith, Bool-cases, All,
}
use mathlib.Core.Path.{subst}
use mathlib.Core.List.{Permᴰ}
use mathlib.Core.List.Permᴰ
use vulnseal.Shared.Hex.{Text}
use vulnseal.Shared.Order.{sort_entries, distinct, distinct-perm, sort_entries-Permᴰ}
use vulnseal.Shared.Json.{
  Json, Items, Fields, undefined, null, boolean, number, string, array, object, no_items, item,
  no_fields, field, not_finite, fraction, integer,
}
use vulnseal.Shared.Canonical.{
  normalize, normalize_items, normalize_fields, normalize_object, normalize_number, entry_of,
  CanonicalError, assign, assign_all, to_fields, precedes,
}
use vulnseal.Shared.Canonical.Laws.{normalize_object-perm}

abbrev Entries : Type 0
Entries = Dict (Result CanonicalError Json)

abbrev as_entries : Dict Json → Entries
as_entries [] = []
as_entries ((k, v) ∷ m) = (k, ok v) ∷ as_entries m

abbrev put_all : Dict Json → Dict Json → Dict Json
put_all [] sorted = sorted
put_all ((k, v) ∷ m) sorted = put_all m (assign k v sorted)

assign_all-inverse :
    (m : Entries) (sorted : Dict Json) {out : Dict Json}
    → assign_all m sorted ≡ ok out
    → (ds : Dict Json) × (m ≡ as_entries ds) × (out ≡ put_all ds sorted)
unfolding assign_all
assign_all-inverse [] sorted h = ([], refl, cc)
assign_all-inverse ((k, ok v) ∷ m) sorted h =
    let (ds, e, f) = assign_all-inverse m (assign k v sorted) h in
    ((k, v) ∷ ds, ap (◌∷◌ (k, ok v)) e, f)
assign_all-inverse ((k, err x) ∷ m) sorted h = cc

assign-perm :
    (k : Text) (v : Json) (m : Dict Json) → member k m ≡ false → Permᴰ (assign k v m) ((k, v) ∷ m)
unfolding assign lookup
assign-perm k v [] h = Permᴰ.refl _
assign-perm k v ((j, w) ∷ m) h = elim (Bool-cases (j =ᵇ k)) [
  | inl e ↦ ground (arith, e, h)
  | inr e ↦ elim (Bool-cases (precedes k j)) [
    | inl p ↦ rw (e, p) (Permᴰ.refl _)
    | inr p ↦
        let rest = assign-perm k v m (ground (arith, e, h)) in
        rw (e, p) (Permᴰ.trans (Permᴰ.cons refl rest) (Permᴰ.swap refl refl))
  ]
]

distinct-tail :
    (k : Text) (v : Json) (m : Dict Json)
    → distinct ((k, v) ∷ m) ≡ true
    → (member k m ≡ false) × (distinct m ≡ true)
unfolding distinct
distinct-tail k v m h = ground (arith, h)

member-append : (k : Text) (m n : Dict Json) → member k (m ++ n) ≡ (member k m || member k n)
unfolding lookup
member-append k [] n = refl
member-append k ((j, v) ∷ m) n = ground (arith, member-append k m n)

put_all-perm :
    (ds sorted : Dict Json)
    → distinct (ds ++ sorted) ≡ true
    → Permᴰ (put_all ds sorted) (ds ++ sorted)
put_all-perm [] sorted h = Permᴰ.refl _
put_all-perm ((k, v) ∷ ds) sorted h =
    let (absent, d) = distinct-tail k v (ds ++ sorted) h in
    let here = assign-perm k v sorted (ground (arith, absent, member-append k ds sorted)) in
    let whole = Permᴰ.trans (Permᴰ.append_left ds here) (Permᴰ.middle (k, v) ds sorted) in
    Permᴰ.trans (put_all-perm ds (assign k v sorted) (distinct-perm whole ∙ h)) whole

as_entries-perm : {m n : Dict Json} → Permᴰ m n → Permᴰ (as_entries m) (as_entries n)
as_entries-perm Permᴰ.nil = Permᴰ.nil
as_entries-perm (Permᴰ.cons {a = (i, v)} {b = (j, w)} e p) =
    Permᴰ.cons (ap (λ d. (d.0, ok d.1)) e) (as_entries-perm p)
as_entries-perm (Permᴰ.swap {a = (i, v)} {b = (j, w)} {a' = (k, x)} {b' = (l, y)} e f) =
    Permᴰ.swap (ap (λ d. (d.0, ok d.1)) e) (ap (λ d. (d.0, ok d.1)) f)
as_entries-perm (Permᴰ.trans p q) = Permᴰ.trans (as_entries-perm p) (as_entries-perm q)

member-as_entries : (k : Text) (m : Dict Json) → member k (as_entries m) ≡ member k m
unfolding lookup
member-as_entries k [] = refl
member-as_entries k ((j, w) ∷ m) = ground (arith, member-as_entries k m)

distinct-as_entries : (m : Dict Json) → distinct (as_entries m) ≡ distinct m
unfolding distinct
distinct-as_entries [] = refl
distinct-as_entries ((k, v) ∷ m) = ground (arith, distinct-as_entries m, member-as_entries k m)

All-perm {ℓ κ} : {A : Type ℓ} (P : A → Type κ) {m n : List A} → Permᴰ m n → All P m → All P n
All-perm P Permᴰ.nil h = h
All-perm P (Permᴰ.cons e p) h = (subst P e h.0, All-perm P p h.1)
All-perm P (Permᴰ.swap e f) h = (subst P f h.1.0, (subst P e h.0, h.1.1))
All-perm P (Permᴰ.trans p q) h = All-perm P q (All-perm P p h)

-- What a normal form of an object is made of.
normalize_object-inverse :
    (entries : Entries) {w : Json}
    → normalize_object entries ≡ ok w
    → (ds : Dict Json) × (sort_entries entries ≡ as_entries ds)
      × (w ≡ object (to_fields (put_all ds [])))
      × (distinct entries ≡ true)
unfolding normalize_object
normalize_object-inverse entries {w} h = elim (Bool-cases (distinct entries)) [
  | inr e ↦ ground (arith, e, h)
  | inl e ↦
      let run = assign_all (sort_entries entries) [] >>= λ sorted. ok (object (to_fields sorted)) in
      let same : normalize_object entries ≡ run = rw e refl in
      >>=-ok (assign_all (sort_entries entries) []) _ (sym same ∙ h) (λ out found eq.
        let (ds, f, g) = assign_all-inverse (sort_entries entries) [] found in
        (ds, f, rw (sym g) cc, e))
]

entry_of-ok :
    (v : Json) {r : Result CanonicalError Json} {w : Json} → entry_of v r ≡ ok w → r ≡ ok w
entry_of-ok undefined e = cc
entry_of-ok null e = e
entry_of-ok (boolean b) e = e
entry_of-ok (number n) e = e
entry_of-ok (string t) e = e
entry_of-ok (array xs) e = e
entry_of-ok (object fs) e = e

module _ (nfc : Text → Text) (nfc_idempotent : (t : Text) → nfc (nfc t) ≡ nfc t) where
  -- A value that stays as it is, at a key that stays as it is.
  abbrev IsFixed : Json → Type 0
  IsFixed v = (normalize nfc v ≡ ok v) × (entry_of v (ok v) ≡ ok v)

  abbrev IsFixedField : Text × Json → Type 0
  IsFixedField d = (nfc d.0 ≡ d.0) × IsFixed d.1

  abbrev IsFixedEntry : Text × Result CanonicalError Json → Type 0
  IsFixedEntry d = (nfc d.0 ≡ d.0) × ((v : Json) → d.1 ≡ ok v → IsFixed v)

  fields_fixed : (ds : Dict Json) → All IsFixedEntry (as_entries ds) → All IsFixedField ds
  fields_fixed [] h = h
  fields_fixed ((k, v) ∷ ds) h = ((h.0.0, h.0.1 v refl), fields_fixed ds h.1)

  normalize_fields-fixed :
      (m : Dict Json) → All IsFixedField m → normalize_fields nfc (to_fields m) ≡ as_entries m
  unfolding normalize
  normalize_fields-fixed [] h = refl
  normalize_fields-fixed ((k, v) ∷ m) h =
      let (here, rest) = h in
      let (e, fixed) = here in
      let (f, g) = fixed in rw (e, f, g, normalize_fields-fixed m rest) refl

  entry_of-defined :
      (v : Json) {w : Json} → entry_of v (normalize nfc v) ≡ ok w → entry_of w (ok w) ≡ ok w
  unfolding normalize normalize_number
  entry_of-defined undefined h = cc
  entry_of-defined null h = ground (arith, h)
  entry_of-defined (boolean b) h = ground (arith, h)
  entry_of-defined (number not_finite) h = ground (arith, h)
  entry_of-defined (number fraction) h = ground (arith, h)
  entry_of-defined (number (integer s n)) h = ground (arith, h)
  entry_of-defined (string t) h = ground (arith, h)
  entry_of-defined (array xs) h =
      >>=-ok (normalize_items nfc xs) _ h (λ ws e eq. ground (arith, eq))
  entry_of-defined (object fs) h =
      let (ds, f, g, e) = normalize_object-inverse (normalize_fields nfc fs) h in rw g refl

  normalize_object-fixed :
      (entries : Entries) {w : Json}
      → All IsFixedEntry entries
      → normalize_object entries ≡ ok w
      → normalize nfc w ≡ ok w
  unfolding normalize
  normalize_object-fixed entries {w} fixed h =
      let (ds, f, g, e) = normalize_object-inverse entries h in
      let sorted = sort_entries-Permᴰ entries in
      let fixed_ds =
        fields_fixed ds
          (subst (All IsFixedEntry) f (All-perm IsFixedEntry (Permᴰ.symm sorted) fixed)) in
      let d : distinct (ds ++ []) ≡ true =
        (distinct-perm (Permᴰ.append-nil ds)
          ∙ sym (distinct-as_entries ds)
          ∙ sym (ap distinct f)
          ∙ distinct-perm sorted
          ∙ e) in
      let placed = Permᴰ.trans (put_all-perm ds [] d) (Permᴰ.append-nil ds) in
      let again =
        normalize_fields-fixed (put_all ds [])
          (All-perm IsFixedField (Permᴰ.symm placed) fixed_ds) in
      ap (normalize nfc) g
      ∙ ap normalize_object again
      ∙ normalize_object-perm (as_entries-perm placed)
      ∙ ap normalize_object (sym f)
      ∙ normalize_object-perm sorted
      ∙ h

  mutual
    unfolding normalize normalize_number

    normalize_stable : (v : Json) {w : Json} → normalize nfc v ≡ ok w → normalize nfc w ≡ ok w
    normalize_stable undefined h = ground (arith, h)
    normalize_stable null h = ground (arith, h)
    normalize_stable (boolean b) h = ground (arith, h)
    normalize_stable (number not_finite) h = ground (arith, h)
    normalize_stable (number fraction) h = ground (arith, h)
    normalize_stable (number (integer s n)) h = ground (arith, h)
    normalize_stable (string t) h = ground (arith, h, nfc_idempotent t)
    normalize_stable (array xs) h =
        >>=-ok (normalize_items nfc xs) _ h
          (λ ws e eq. ground (arith, eq, normalize_items-normalize xs e))
    normalize_stable (object fs) h =
        normalize_object-fixed (normalize_fields nfc fs) (normalize_fields-normalize fs) h

    normalize_items-normalize :
        (xs : Items) {ys : Items} → normalize_items nfc xs ≡ ok ys → normalize_items nfc ys ≡ ok ys
    normalize_items-normalize no_items h = ground (arith, h)
    normalize_items-normalize (item v xs) h = >>=-ok (normalize nfc v) _ h (λ w e rest.
        >>=-ok (normalize_items nfc xs) _ rest
          (λ ws f eq. ground (arith, eq, normalize_stable v e, normalize_items-normalize xs f)))

    normalize_fields-normalize : (fs : Fields) → All IsFixedEntry (normalize_fields nfc fs)
    normalize_fields-normalize no_fields = tt
    normalize_fields-normalize (field k v fs) = (
      (nfc_idempotent k, λ w e. (normalize_stable v (entry_of-ok v e), entry_of-defined v e)),
      normalize_fields-normalize fs,
    )

  -- What `normalize` returns, it returns again unchanged, where the Unicode normalization is
  -- idempotent.
  pub normalize-normalize : (v : Json) {w : Json} → normalize nfc v ≡ ok w → normalize nfc w ≡ ok w
  normalize-normalize v h = normalize_stable v h
