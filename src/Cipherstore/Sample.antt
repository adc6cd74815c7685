-- ===== src/Cipherstore/Sample.antt =====
-- A concrete database, of rows in a list, and the other parameters of the store.
use vulnseal.Prelude.{
  ℕ, ◌+◌, ◌≡◌, ◌≢◌, refl, Bool, true, false, Option, none, some, [], ◌∷◌, arith, Bytes, Dict,
  length, lookup, insert, member, lookup-insert, lookup-insert_self, ◌=ᵇ◌, bytes_eq_iff, replicate,
  if◌then◌else◌, Result, ok, err, Bool-cases, inl, inr,
}
use vulnseal.Contract.Types.{ascii}
use vulnseal.Shared.Hex.{Text}
use vulnseal.Shared.Json.{Json}
use vulnseal.Shared.Envelope.{write_envelope}
use vulnseal.Cipherstore.Sqlite.{Failure, sqlite, Database, DatabaseLaws}

pub record Tables : Type 0 where
  pub rows : Dict Bytes
  pub probe_row : Option Bytes

abbrev pub sizes : Dict Bytes → ℕ
sizes [] = 0
sizes ((d, body) ∷ rows) = length body + sizes rows

abbrev pub without : Text → Dict Bytes → Dict Bytes
without d [] = []
without d ((e, body) ∷ rows) =
    let rest = without d rows in if e =ᵇ d then rest else (e, body) ∷ rest

-- A second row of a key breaks the primary key: SQLite's error 19.
abbrev pub tables : Database Tables
tables = record {
  initialize = λ t. ok tt;
  begin_immediate = λ t. ok tt;
  commit = λ t. ok tt;
  select_body = λ d t. lookup d t.rows;
  insert_blob = λ d body t.
      (if member d t.rows then err (sqlite 19) else ok (record t { rows = insert d body t.rows }));
  delete_blob = λ d t. ok (member d t.rows, record t { rows = without d t.rows });
  count = λ t. length t.rows;
  total_bytes = λ t. sizes t.rows;
  insert_probe = λ body t. ok (record t { probe_row = some body });
  select_probe = λ t. t.probe_row;
  delete_probe = λ t. ok (record t { probe_row = none });
}

insert_new :
    (d : Text) (body : Bytes) (rows : Dict Bytes)
    → member d rows ≡ false
    → (length (insert d body rows) ≡ length rows + 1)
      × (sizes (insert d body rows) ≡ sizes rows + length body)
unfolding insert lookup
insert_new d body [] absent = (omega arith, omega arith)
insert_new d body ((e, b) ∷ rows) absent = elim (Bool-cases (e =ᵇ d)) [
  | inl is ↦ absurd (cc (rw is at absent))
  | inr apart ↦
      let rest = insert_new d body rows (rw apart at absent) in
      rw apart (omega (arith, rest.0), omega (arith, rest.1))
]

module _ (d : Text) (body : Bytes) (t t' : Tables) (e : tables.insert_blob d body t ≡ ok t') where
  insert_is : (member d t.rows ≡ false) × (t' ≡ record t { rows = insert d body t.rows })
  insert_is = by_member (member d t.rows) refl e
    where
      by_member :
          (m : Bool)
          → member d t.rows ≡ m
          → ◌≡◌ {A = Result Failure Tables}
              (if m then err (sqlite 19) else ok (record t { rows = insert d body t.rows }))
              (ok t')
          → (member d t.rows ≡ false) × (t' ≡ record t { rows = insert d body t.rows })
      by_member true is f = cc
      by_member false is f = (is, cc)

differs : (d f : Text) → f ≢ d → (d =ᵇ f) ≡ false
differs d f apart = ground (arith, bytes_eq_iff d f, apart)

pub tables-DatabaseLaws : DatabaseLaws Tables tables
tables-DatabaseLaws = record {
  opening = λ t e. cc;
  inserted = λ d body t t' e. rw (insert_is d body t t' e).1 (
    lookup-insert_self d body t.rows,
    λ f apart. rw (lookup-insert d f body t.rows, differs d f apart) refl,
  );
  insert_counts = λ d body t t' e.
      rw (insert_is d body t t' e).1 (insert_new d body t.rows (insert_is d body t t' e).0);
  probe_inserted = λ body t t' e.
      (let same : ◌≡◌ {A = Tables} (record t { probe_row = some body }) t' = cc in
        rw (← same) (record { bodies = λ d. refl; counted = refl; measured = refl }));
  probe_deleted = λ t t' e.
      (let same : ◌≡◌ {A = Tables} (record t { probe_row = none }) t' = cc in
        rw (← same) (record { bodies = λ d. refl; counted = refl; measured = refl }));
}

abbrev pub digest : Text
digest = replicate 64 b'a'

-- One body is an envelope, and every body has one digest.
abbrev pub one_digest : Bytes → Text
one_digest body = digest

abbrev pub decode_ascii : Bytes → Option Text
decode_ascii body = some body

abbrev pub read_envelope : Text → Option Json
read_envelope t = some (
    write_envelope record {
      iv = ascii "AAAAAAAAAAAAAAAA";
      aad = ascii "vulnseal:ciphertext:v1:report-1";
      ciphertext = ascii "AAAAAAAAAAAAAAAAAAAAAA";
    })
