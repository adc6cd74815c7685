-- ===== src/Cipherstore/Filesystem/Writing.antt =====
-- cipherstore/src/filesystem-storage.ts: writing a file out, which changes that file only.
use vulnseal.Prelude.{◌≡◌, ◌≢◌, refl, ap, ◌∙◌, some, Bytes, Result, ok, err}
use vulnseal.Shared.Hex.{Text}
use vulnseal.Cipherstore.Storage.{StorageError}
use vulnseal.Cipherstore.Filesystem.{FileSystem, and_then, after_cleanup, write_out}
use vulnseal.Cipherstore.Filesystem.Laws.{FileSystemLaws}

module _ {F : Type 0} where
  pub and_then-ok :
      {A B : Type 0} (x : Result StorageError A × F) (k : A → F → Result StorageError B × F) {b : B}
      → (and_then x k).0 ≡ ok b
      → (a : A) × (x.0 ≡ ok a) × ((k a x.1).0 ≡ ok b) × ((and_then x k).1 ≡ (k a x.1).1)
  and_then-ok (ok a, s) k e = (a, refl, e, refl)
  and_then-ok (err x, s) k e = cc

  -- What holds when an action fails, and what follows from it when it does not.
  pub and_then-state :
      {A B : Type 0} (P : F → Type 0) (x : Result StorageError A × F)
      (k : A → F → Result StorageError B × F)
      → P x.1
      → ((a : A) → x.0 ≡ ok a → P (k a x.1).1)
      → P (and_then x k).1
  and_then-state P (ok a, s) k before after = after a refl
  and_then-state P (err e, s) k before after = before

  pub after_cleanup-state :
      {A : Type 0} (r : Result StorageError A) (y : Result StorageError (Unit {0}) × F)
      → (after_cleanup r y).1 ≡ y.1
  after_cleanup-state r (ok u, s) = refl
  after_cleanup-state r (err x, s) = refl

  pub after_cleanup-ok :
      {A : Type 0} (r : Result StorageError A) (y : Result StorageError (Unit {0}) × F) {a : A}
      → (after_cleanup r y).0 ≡ ok a
      → r ≡ ok a
  after_cleanup-ok r (ok u, s) e = e
  after_cleanup-ok r (err x, s) e = cc

  pub and_then-keeps :
      {fs : FileSystem F} (laws : FileSystemLaws F fs) {A B : Type 0} (n : Text) (s : F)
      (x : Result StorageError A × F) (k : A → F → Result StorageError B × F)
      → laws.contents x.1 n ≡ laws.contents s n
      → ((a : A) → laws.contents (k a x.1).1 n ≡ laws.contents x.1 n)
      → laws.contents (and_then x k).1 n ≡ laws.contents s n
  and_then-keeps laws n s (ok a, s₁) k before after = after a ∙ before
  and_then-keeps laws n s (err e, s₁) k before after = before

  module _ (fs : FileSystem F) (laws : FileSystemLaws F fs) (temp : Text) (body : Bytes) where
    synced : F → Result StorageError (Unit {0}) × F
    synced s = and_then (fs.write_file temp body s) (λ _. fs.sync temp)

    synced-keeps :
        (n : Text) → n ≢ temp → (s : F) → laws.contents (synced s).1 n ≡ laws.contents s n
    unfolding synced
    synced-keeps n apart s =
        and_then-keeps laws n s (fs.write_file temp body s) _ (laws.write_keeps temp n body s apart)
          (λ u. laws.sync_keeps temp n _)

    synced-written : (s : F) → (synced s).0 ≡ ok tt → laws.contents (synced s).1 temp ≡ some body
    unfolding synced
    synced-written s done =
        let (u, wrote, synced_, state) =
          and_then-ok (fs.write_file temp body s) (λ _. fs.sync temp) done in
        ap (λ x. laws.contents x temp) state
        ∙ laws.sync_keeps temp temp (fs.write_file temp body s).1
        ∙ laws.written temp body s wrote

    pub write_out-keeps :
        (n : Text)
        → n ≢ temp
        → (s : F) → laws.contents (write_out fs temp body s).1 n ≡ laws.contents s n
    unfolding write_out synced
    write_out-keeps n apart s =
        ap (λ t. laws.contents t n) (after_cleanup-state (synced s).0 (fs.close temp (synced s).1))
        ∙ laws.close_keeps temp n (synced s).1
        ∙ synced-keeps n apart s

    pub write_out-written :
        (s : F)
        → (write_out fs temp body s).0 ≡ ok tt
        → laws.contents (write_out fs temp body s).1 temp ≡ some body
    unfolding write_out synced
    write_out-written s done =
        ap (λ t. laws.contents t temp)
          (after_cleanup-state (synced s).0 (fs.close temp (synced s).1))
        ∙ laws.close_keeps temp temp (synced s).1
        ∙ synced-written s (after_cleanup-ok (synced s).0 (fs.close temp (synced s).1) done)
