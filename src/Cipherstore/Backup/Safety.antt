-- ===== src/Cipherstore/Backup/Safety.antt =====
-- cipherstore/src/backup.ts, `restoreCipherstoreBackup`: whatever fails, a directory that is not
-- completely restored says so.
use vulnseal.Prelude.{
  ◌≡◌, refl, sym, ◌∙◌, inl, inr, Bool, Option, List, [], ◌∷◌, Bytes, All, Result, ok, err, guard,
  ◌>>◌, ok-injective,
}
use mathlib.Core.Path.{subst}
use vulnseal.Shared.Hex.{Text}
use vulnseal.Shared.Json.{Json}
use vulnseal.Cipherstore.Storage.{StorageError, Action, other}
use vulnseal.Cipherstore.Filesystem.{FileSystem}
use vulnseal.Cipherstore.Filesystem.Laws.{FileSystemLaws}
use vulnseal.Cipherstore.Filesystem.Writing.{
  and_then-ok, and_then-state, after_cleanup-state, after_cleanup-ok,
}
use vulnseal.Cipherstore.Backup.{
  BackupEntry, Manifest, Reading, incomplete_restore_name, restore_all, restore_into, allowed,
  with_manifest, verify_cipherstore_backup, restore_cipherstore_backup,
}
use vulnseal.Cipherstore.Backup.Verified.{Distinct, IsEntry, verify-IsVerified}
use vulnseal.Cipherstore.Backup.Restored.{
  InPlace, IsSafe, Empty, Named, entries_moved, restore_all-IsSafe, restore_all-InPlace,
}

module _ (sha256 : Bytes → Text) (decode_utf8 : Bytes → Option Text)
    (parse_json : Text → Option Json) (is_date : Text → Bool) {F : Type 0} (fs : FileSystem F)
    (laws : FileSystemLaws F fs) where
  abbrev pub Safe : List BackupEntry → F → Type 0
  Safe = IsSafe sha256 decode_utf8 parse_json is_date fs laws

  abbrev pub Empties : F → Type 0
  Empties = Empty sha256 decode_utf8 parse_json is_date fs laws

  abbrev pub Stand : F → List BackupEntry → Type 0
  Stand s = All (InPlace sha256 decode_utf8 parse_json is_date fs laws s)

  abbrev Names : List BackupEntry → Type 0
  Names = Named sha256 decode_utf8 parse_json is_date fs laws

  named :
      (checked : Reading) (es : List BackupEntry)
      → All (IsEntry sha256 decode_utf8 parse_json is_date checked) es
      → Names es
  named checked [] h = tt
  named checked (e ∷ es) (h, hs) = (h.named, named checked es hs)

  kept-IsSafe :
      (es : List BackupEntry) (s s' : F)
      → ((n : Text) → laws.contents s' n ≡ laws.contents s n)
      → Safe es s
      → Safe es s'
  unfolding IsSafe
  kept-IsSafe es s s' same safe gone = elim (safe (sym (same incomplete_restore_name) ∙ gone)) [
    | inl all ↦
        inl (entries_moved sha256 decode_utf8 parse_json is_date fs laws s s' es (λ e. same _) all)
    | inr nothing ↦ inr (λ d h. same _ ∙ nothing d h)
  ]

  empty-IsSafe : (es : List BackupEntry) (s : F) → Empties s → Safe es s
  unfolding IsSafe Empty
  empty-IsSafe es s empty gone = inr (λ d h. empty _)

  kept-Empty :
      (s s' : F) → ((n : Text) → laws.contents s' n ≡ laws.contents s n) → Empties s → Empties s'
  unfolding Empty
  kept-Empty s s' same empty n = same n ∙ empty n

  module _ (to_text : Bytes → Text) (acquire release : Action F (Unit {0}))
      -- The lease is a directory: it changes no file.
      (acquire_keeps : (n : Text) (s : F) → laws.contents (acquire s).1 n ≡ laws.contents s n)
      (release_keeps : (n : Text) (s : F) → laws.contents (release s).1 n ≡ laws.contents s n) where
    module _ (again : Reading) (es : List BackupEntry) (s : F) (n : Names es)
        (d : Distinct es) where
      restores : Action F (Unit {0})
      restores = restore_all sha256 decode_utf8 parse_json is_date fs again es

      leased : F
      leased = (acquire (fs.mkdir s).1).1

      restore_into-IsSafe :
          Empties s
          → Safe es
              (restore_into sha256 decode_utf8 parse_json is_date fs to_text acquire release again
                es s).1
      unfolding restore_into restores leased
      restore_into-IsSafe empty =
          let made = kept-Empty s _ (λ m. laws.mkdir_keeps m s) empty in
          let held = kept-Empty _ leased (λ m. acquire_keeps m _) made in
          and_then-state (Safe es) (fs.mkdir s) _ (empty-IsSafe es _ made) (λ u _.
            and_then-state (Safe es) (acquire (fs.mkdir s).1) _ (empty-IsSafe es _ held) (λ v _.
              subst (Safe es)
                (sym (after_cleanup-state (restores leased).0 (release (restores leased).1)))
                (kept-IsSafe es _ _ (λ m. release_keeps m (restores leased).1)
                  (restore_all-IsSafe sha256 decode_utf8 parse_json is_date fs laws again es leased
                    n d held))))

      restore_into-Stand :
          (restore_into sha256 decode_utf8 parse_json is_date fs to_text acquire release again es
              s).0
            ≡ ok tt
          → Stand
              (restore_into sha256 decode_utf8 parse_json is_date fs to_text acquire release again
                es s).1
              es
      unfolding restore_into restores leased
      restore_into-Stand done =
          let (u, made, rest, state) = and_then-ok (fs.mkdir s) _ done in
          let (v, held, last, state₁) = and_then-ok (acquire (fs.mkdir s).1) _ rest in
          let r = restores leased in
          subst (λ t. Stand t es) (sym (state ∙ state₁ ∙ after_cleanup-state r.0 (release r.1)))
            (entries_moved sha256 decode_utf8 parse_json is_date fs laws r.1 (release r.1).1 es
              (λ e. release_keeps _ r.1)
              (restore_all-InPlace sha256 decode_utf8 parse_json is_date fs laws again es leased n d
                (after_cleanup-ok r.0 (release r.1) last)))

    with_manifest-state :
        (m : Manifest) (x : Result StorageError (Unit {0}) × F)
        → (with_manifest sha256 decode_utf8 parse_json is_date fs to_text acquire release m x).1
          ≡ x.1
    with_manifest-state m (ok u, s) = refl
    with_manifest-state m (err e, s) = refl

    with_manifest-ok :
        (m : Manifest) (x : Result StorageError (Unit {0}) × F) {m' : Manifest}
        → (with_manifest sha256 decode_utf8 parse_json is_date fs to_text acquire release m x).0
          ≡ ok m'
        → (x.0 ≡ ok tt) × (m ≡ m')
    with_manifest-ok m (ok u, s) h = (refl, ok-injective h)
    with_manifest-ok m (err e, s) h = cc

    -- A restoration, from a place where nothing stands, of a backup that was verified, over a file
    -- system any call of which may fail with work done or not: at every end of it either the marker of
    -- an incomplete restoration stands in the directory, or every blob of the backup is in place, under
    -- its digest and of its size, or no blob is; and when it gives a manifest, that is the verified
    -- one, and every blob of it is in place.
    pub restore_cipherstore_backup-Safe :
        (checked again : Reading) (retired : List Text) (outside : Bool) (s : F) (m : Manifest)
        → verify_cipherstore_backup sha256 decode_utf8 parse_json is_date to_text checked ≡ ok m
        → Empties s
        → let r =
            restore_cipherstore_backup sha256 decode_utf8 parse_json is_date fs to_text acquire
              release checked again retired outside s in
          Safe m.blobs r.1 × ((m' : Manifest) → r.0 ≡ ok m' → (m ≡ m') × Stand r.1 m.blobs)
    unfolding restore_cipherstore_backup
    restore_cipherstore_backup-Safe checked again retired outside s m verified empty =
        let v = verify-IsVerified sha256 decode_utf8 parse_json is_date checked to_text verified in
        let n = named checked m.blobs v.entries in
        let allow =
          allowed sha256 decode_utf8 parse_json is_date fs retired m.blobs >> guard outside other in
        let x =
          restore_into sha256 decode_utf8 parse_json is_date fs to_text acquire release again
            m.blobs s in
        rw verified (
          and_then-state (Safe m.blobs) (allow, s) _ (empty-IsSafe m.blobs s empty)
              (λ u _.
                subst (Safe m.blobs) (sym (with_manifest-state m x))
                  (restore_into-IsSafe again m.blobs s n v.distinct empty)),
          λ m' done.
              let (u, may, rest, state) = and_then-ok (allow, s) _ done in
              let (restored, same) = with_manifest-ok m x rest in
              (
                same,
                subst (λ t. Stand t m.blobs) (sym (state ∙ with_manifest-state m x))
                    (restore_into-Stand again m.blobs s n v.distinct restored),
              ),
        )
