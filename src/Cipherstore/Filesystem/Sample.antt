-- ===== src/Cipherstore/Filesystem/Sample.antt =====
-- A directory that is an association list of names and files, for concrete runs.
use vulnseal.Prelude.{
  ◌≡◌, ◌≢◌, refl, arith, true, Option, none, some, List, [], ◌∷◌, Bytes, length, Result, ok, err,
  Dict, lookup, insert, lookup-insert, ◌=ᵇ◌, bytes_eq_iff, if◌then◌else◌,
}
use vulnseal.Shared.Hex.{Text}
use vulnseal.Cipherstore.Storage.{StorageError, not_found}
use vulnseal.Cipherstore.Capacity.{Entry}
use vulnseal.Cipherstore.Filesystem.{FileSystem, LinkOutcome, linked, exists, not_linked}
use vulnseal.Cipherstore.Filesystem.Laws.{FileSystemLaws}

abbrev pub Files : Type 0
Files = Dict Bytes

unfoldable pub without : Text → Files → Files
unfolding ◌=ᵇ◌
without m [] = []
without m ((n, b) ∷ files) = if n =ᵇ m then without m files else (n, b) ∷ without m files

lookup-without : (m n : Text) (files : Files) → n ≢ m → lookup n (without m files) ≡ lookup n files
unfolding lookup without
lookup-without m n [] h = refl
lookup-without m n ((k, b) ∷ files) h =
    ground (arith, h, lookup-without m n files h, bytes_eq_iff k m, bytes_eq_iff k n)

abbrev found : Option Bytes → Result StorageError Bytes
found none = err not_found
found (some b) = ok b

abbrev linked_to : Text → Option Bytes → Option Bytes → Files → LinkOutcome × Files
linked_to m (some there) old s = (exists, s)
linked_to m none none s = (not_linked not_found, s)
linked_to m none (some b) s = (linked, insert m b s)

abbrev listed : Files → List Entry
listed [] = []
listed ((n, b) ∷ files) = record { name = n; is_file = true; size = length b } ∷ listed files

abbrev pub directory : FileSystem Files
directory = record {
  mkdir = λ s. (ok tt, s);
  read_file = λ n s. found (lookup n s);
  open_new = λ m s. (ok tt, insert m [] s);
  write_file = λ m b s. (ok tt, insert m b s);
  sync = λ m s. (ok tt, s);
  close = λ m s. (ok tt, s);
  link = λ old m s. linked_to m (lookup m s) (lookup old s) s;
  unlink = λ m s. (ok tt, without m s);
  entries = λ s. ok (listed s);
  random_uuid = λ s. [];
}

insert_keeps : (m n : Text) (b : Bytes) (s : Files) → n ≢ m → lookup n (insert m b s) ≡ lookup n s
insert_keeps m n b s h = ground (arith, h, lookup-insert m n b s, bytes_eq_iff m n)

insert_makes : (m : Text) (b : Bytes) (s : Files) → lookup m (insert m b s) ≡ some b
insert_makes m b s = ground (arith, lookup-insert m m b s, bytes_eq_iff m m)

link_keeps :
    (m n : Text) (there old : Option Bytes) (s : Files)
    → n ≢ m
    → lookup n (linked_to m there old s).1 ≡ lookup n s
link_keeps m n (some b) old s h = refl
link_keeps m n none none s h = refl
link_keeps m n none (some b) s h = insert_keeps m n b s h

link_makes :
    (m : Text) (there old : Option Bytes) (s : Files)
    → (linked_to m there old s).0 ≡ linked
    → (there ≡ none) × (lookup m (linked_to m there old s).1 ≡ old)
link_makes m (some b) old s h = cc
link_makes m none none s h = cc
link_makes m none (some b) s h = (refl, insert_makes m b s)

link_refuses :
    (m : Text) (there old : Option Bytes) (s : Files)
    → (linked_to m there old s).0 ≢ linked
    → lookup m (linked_to m there old s).1 ≡ lookup m s
link_refuses m (some b) old s h = refl
link_refuses m none none s h = refl
link_refuses m none (some b) s h = absurd (h refl)

found-ok : (o : Option Bytes) {b : Bytes} → found o ≡ ok b → o ≡ some b
found-ok none h = cc
found-ok (some b) h = ground (arith, h)

found-none : (o : Option Bytes) → found o ≡ err not_found → o ≡ none
found-none none h = refl
found-none (some b) h = cc

pub directory_laws : FileSystemLaws Files directory
directory_laws = record {
  contents = λ s n. lookup n s;
  mkdir_keeps = λ n s. refl;
  sync_keeps = λ m n s. refl;
  close_keeps = λ m n s. refl;
  read_finds = λ n s h. found-ok (lookup n s) h;
  read_misses = λ n s h. found-none (lookup n s) h;
  open_keeps = λ m n s h. insert_keeps m n [] s h;
  write_keeps = λ m n b s h. insert_keeps m n b s h;
  written = λ m b s h. insert_makes m b s;
  unlink_keeps = λ m n s h. lookup-without m n s h;
  link_keeps = λ old m n s h. link_keeps m n (lookup m s) (lookup old s) s h;
  link_makes = λ old m s h. link_makes m (lookup m s) (lookup old s) s h;
  link_refuses = λ old m s h. link_refuses m (lookup m s) (lookup old s) s h;
}

pub no_files : (n : Text) → directory_laws.contents [] n ≡ none
unfolding directory_laws lookup
no_files n = refl
