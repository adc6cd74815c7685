-- ===== src/Cipherstore/Backup/Restored.antt =====
-- cipherstore/src/backup.ts, `restoreCipherstoreBackup`: what stands in the new directory, at every
-- end of a restoration.
use vulnseal.Prelude.{
  ◌≡◌, ◌≢◌, ◌⊎◌, refl, sym, ap, ◌∙◌, inl, inr, arith, Bool, Option, none, some, List, [], ◌∷◌,
  Bytes, All, length, length-append, ◌==◌, ok, >>=-ok, guard-ok, ok-injective,
}
use mathlib.Core.Path.{subst}
use vulnseal.Contract.Types.{ascii}
use vulnseal.Shared.Hex.{Text}
use vulnseal.Shared.Json.{Json}
use vulnseal.Cipherstore.Storage.{other}
use vulnseal.Cipherstore.Filesystem.{FileSystem, blob_name, write_out}
use vulnseal.Cipherstore.Filesystem.Laws.{
  FileSystemLaws, IsStored, IsStored-length, blob_name-injective, blob,
}
use vulnseal.Cipherstore.Filesystem.Writing.{
  and_then-ok, and_then-state, and_then-keeps, write_out-keeps, write_out-written,
}
use vulnseal.Cipherstore.Backup.{
  BackupEntry, Reading, incomplete_restore_name, incomplete_text, read_blob, read_again,
  write_exclusive, restore_blobs, restore_all,
}
use vulnseal.Cipherstore.Backup.Verified.{same_size, Distinct, IsBlob, read_blob-IsBlob}

blob_name-marker : (d : Text) → IsStored d → incomplete_restore_name ≢ blob_name d
blob_name-marker d h = λ same.
    let n = IsStored-length d h in
    absurd (omega (arith, ap length same, n, length-append d (ascii ".ciphertext.json")))

module _ (sha256 : Bytes → Text) (decode_utf8 : Bytes → Option Text)
    (parse_json : Text → Option Json) (is_date : Text → Bool) {F : Type 0} (fs : FileSystem F)
    (laws : FileSystemLaws F fs) where
  -- The blob of an entry is in the directory.
  pub record InPlace (s : F) (e : BackupEntry) : Type 0 where
    pub bytes : Bytes
    pub there : blob fs laws s e.digest ≡ some bytes
    pub counted : length bytes ≡ e.bytes
    pub sealed : IsBlob sha256 decode_utf8 parse_json e.digest bytes

  moved :
      (s s' : F) (e : BackupEntry)
      → blob fs laws s' e.digest ≡ blob fs laws s e.digest
      → InPlace s e
      → InPlace s' e
  moved s s' e same p = record {
    bytes = p.bytes;
    there = same ∙ p.there;
    counted = p.counted;
    sealed = p.sealed;
  }

  pub entries_moved :
      (s s' : F) (es : List BackupEntry)
      → ((e : BackupEntry) → blob fs laws s' e.digest ≡ blob fs laws s e.digest)
      → All (InPlace s) es
      → All (InPlace s') es
  entries_moved s s' [] same p = tt
  entries_moved s s' (e ∷ es) same (p, ps) =
      (moved s s' e (same e) p, entries_moved s s' es same ps)

  write_exclusive-keeps :
      (m n : Text) (b : Bytes) (s : F)
      → n ≢ m
      → laws.contents (write_exclusive sha256 decode_utf8 parse_json is_date fs m b s).1 n
        ≡ laws.contents s n
  unfolding write_exclusive
  write_exclusive-keeps m n b s apart =
      and_then-keeps laws n s (fs.open_new m s) _ (laws.open_keeps m n s apart)
        (λ u. write_out-keeps fs laws m b n apart _)

  write_exclusive-written :
      (m : Text) (b : Bytes) (s : F)
      → (write_exclusive sha256 decode_utf8 parse_json is_date fs m b s).0 ≡ ok tt
      → laws.contents (write_exclusive sha256 decode_utf8 parse_json is_date fs m b s).1 m ≡ some b
  unfolding write_exclusive
  write_exclusive-written m b s done =
      let (u, opened, written, state) =
        and_then-ok (fs.open_new m s) (λ _. write_out fs m b) done in
      ap (λ x. laws.contents x m) state ∙ write_out-written fs laws m b (fs.open_new m s).1 written

  restore_blobs-keeps :
      (n : Text) (again : Reading) (es : List BackupEntry) (s : F)
      → All (λ e. n ≢ blob_name e.digest) es
      → laws.contents (restore_blobs sha256 decode_utf8 parse_json is_date fs again es s).1 n
        ≡ laws.contents s n
  unfolding restore_blobs
  restore_blobs-keeps n again [] s h = refl
  restore_blobs-keeps n again (e ∷ es) s (apart, rest) =
      and_then-keeps laws n s (read_again sha256 decode_utf8 parse_json is_date fs again e, s) _
        refl
        (λ b.
          and_then-keeps laws n s
            (write_exclusive sha256 decode_utf8 parse_json is_date fs (blob_name e.digest) b s) _
            (write_exclusive-keeps (blob_name e.digest) n b s apart)
            (λ u. restore_blobs-keeps n again es _ rest))

  abbrev pub Named : List BackupEntry → Type 0
  Named = All (λ e. IsStored e.digest)

  names_apart :
      (e : BackupEntry) (es : List BackupEntry)
      → IsStored e.digest
      → Named es
      → All (λ x. x.digest ≢ e.digest) es
      → All (λ x. blob_name e.digest ≢ blob_name x.digest) es
  names_apart e [] h n d = tt
  names_apart e (x ∷ es) h (nx, n) (dx, d) =
      (λ same. dx (sym (blob_name-injective e.digest x.digest h nx same)), names_apart e es h n d)

  marker_apart :
      (es : List BackupEntry)
      → Named es
      → All (λ e. incomplete_restore_name ≢ blob_name e.digest) es
  marker_apart [] h = tt
  marker_apart (e ∷ es) (h, hs) = (blob_name-marker e.digest h, marker_apart es hs)

  read_again-ok :
      (again : Reading) (e : BackupEntry) {b : Bytes}
      → read_again sha256 decode_utf8 parse_json is_date fs again e ≡ ok b
      → IsBlob sha256 decode_utf8 parse_json e.digest b × (length b ≡ e.bytes)
  unfolding read_again
  read_again-ok again e h =
      >>=-ok (read_blob sha256 decode_utf8 parse_json is_date again e.digest) _ h λ b found h₁.
        guard-ok (length b == e.bytes) other _ h₁ λ counted h₂.
          subst (λ b. IsBlob sha256 decode_utf8 parse_json e.digest b × (length b ≡ e.bytes))
            (ok-injective h₂)
            (
              read_blob-IsBlob sha256 decode_utf8 parse_json is_date again e.digest found,
              same_size (length b) e.bytes counted,
            )

  restore_blobs-InPlace :
      (again : Reading) (es : List BackupEntry) (s : F)
      → Named es
      → Distinct es
      → (restore_blobs sha256 decode_utf8 parse_json is_date fs again es s).0 ≡ ok tt
      → All (InPlace (restore_blobs sha256 decode_utf8 parse_json is_date fs again es s).1) es
  unfolding restore_blobs
  restore_blobs-InPlace again [] s n d done = tt
  restore_blobs-InPlace again (e ∷ es) s (ne, n) (de, d) done =
      let (b, read, wrote, state) =
        and_then-ok (read_again sha256 decode_utf8 parse_json is_date fs again e, s) _ done in
      let (u, written, rest, state₁) =
        and_then-ok
          (write_exclusive sha256 decode_utf8 parse_json is_date fs (blob_name e.digest) b s) _
          wrote in
      let s₁ =
        (write_exclusive sha256 decode_utf8 parse_json is_date fs (blob_name e.digest) b s).1 in
      let s₂ = (restore_blobs sha256 decode_utf8 parse_json is_date fs again es s₁).1 in
      let (blob_, counted) = read_again-ok again e read in
      subst (λ t. All (InPlace t) (e ∷ es)) (sym (state ∙ state₁))
        (
          record {
            bytes = b;
            there =
                restore_blobs-keeps (blob_name e.digest) again es s₁ (names_apart e es ne n de)
                ∙ write_exclusive-written (blob_name e.digest) b s written;
            counted = counted;
            sealed = blob_;
          },
          restore_blobs-InPlace again es s₁ n d rest,
        )

  -- Either the marker stands, or every blob of the backup is in place, or none is there.
  unfoldable pub IsSafe : List BackupEntry → F → Type 0
  IsSafe es s =
      laws.contents s incomplete_restore_name ≡ none
      → All (InPlace s) es ⊎ ((d : Text) → IsStored d → blob fs laws s d ≡ none)

  unfoldable pub Empty : F → Type 0
  Empty s = (n : Text) → laws.contents s n ≡ none

  unlinked :
      (es : List BackupEntry) (s : F)
      → Named es
      → All (InPlace s) es
      → All (InPlace (fs.unlink incomplete_restore_name s).1) es
  unlinked [] s n p = tt
  unlinked (e ∷ es) s (h, n) (p, ps) = (
    moved s _ e
        (laws.unlink_keeps incomplete_restore_name (blob_name e.digest) s
          (λ eq. blob_name-marker e.digest h (sym eq)))
        p,
    unlinked es s n ps,
  )

  pub restore_all-IsSafe :
      (again : Reading) (es : List BackupEntry) (s : F)
      → Named es
      → Distinct es
      → Empty s
      → IsSafe es (restore_all sha256 decode_utf8 parse_json is_date fs again es s).1
  unfolding restore_all IsSafe Empty
  restore_all-IsSafe again es s n d empty =
      let x =
        write_exclusive sha256 decode_utf8 parse_json is_date fs incomplete_restore_name
          incomplete_text s in
      let y = restore_blobs sha256 decode_utf8 parse_json is_date fs again es x.1 in
      and_then-state (IsSafe es) x _
        (λ gone. inr (λ digest h.
          write_exclusive-keeps incomplete_restore_name (blob_name digest) incomplete_text s
            (λ eq. blob_name-marker digest h (sym eq))
          ∙ empty (blob_name digest)))
        (λ u wrote.
          and_then-state (IsSafe es) y _
            (λ gone. ground (
              arith,
              gone,
              restore_blobs-keeps incomplete_restore_name again es x.1 (marker_apart es n)
                  ∙ write_exclusive-written incomplete_restore_name incomplete_text s wrote,
            ))
            (λ v restored gone.
              inl (unlinked es y.1 n (restore_blobs-InPlace again es x.1 n d restored))))

  pub restore_all-InPlace :
      (again : Reading) (es : List BackupEntry) (s : F)
      → Named es
      → Distinct es
      → (restore_all sha256 decode_utf8 parse_json is_date fs again es s).0 ≡ ok tt
      → All (InPlace (restore_all sha256 decode_utf8 parse_json is_date fs again es s).1) es
  unfolding restore_all
  restore_all-InPlace again es s n d done =
      let x =
        write_exclusive sha256 decode_utf8 parse_json is_date fs incomplete_restore_name
          incomplete_text s in
      let (u, marked, rest, state) = and_then-ok x _ done in
      let (v, restored, gone, state₁) =
        and_then-ok (restore_blobs sha256 decode_utf8 parse_json is_date fs again es x.1) _ rest in
      subst (λ t. All (InPlace t) es) (sym (state ∙ state₁))
        (unlinked es _ n (restore_blobs-InPlace again es x.1 n d restored))
