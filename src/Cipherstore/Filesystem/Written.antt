-- ===== src/Cipherstore/Filesystem/Written.antt =====
-- cipherstore/src/filesystem-storage.ts, `storeImmutable`: a blob is linked only once it is complete.
use vulnseal.Prelude.{◌≡◌, ◌≢◌, refl, sym, ap, ◌∙◌, inl, inr, some, Bytes, bytes_eq-cases}
use mathlib.Core.Path.{subst}
use vulnseal.Shared.Hex.{Text}
use vulnseal.Cipherstore.Filesystem.{
  FileSystem, LinkOutcome, linked, exists, not_linked, and_then, finally, blob_name, write_out,
  after_link, publish,
}
use vulnseal.Cipherstore.Filesystem.Laws.{
  FileSystemLaws, IsStored, apart, compare_existing-ok, blob, Same, IsPublished,
  and_then-IsPublished, after_cleanup-IsPublished,
}
use vulnseal.Cipherstore.Filesystem.Writing.{write_out-keeps, write_out-written}

module _ {F : Type 0} (fs : FileSystem F) (laws : FileSystemLaws F fs) where
  module _ (d : Text) (body : Bytes) where
    -- Writing a file that is no blob.
    module _ (temp : Text) (outside : (e : Text) → IsStored e → blob_name e ≢ temp) where
      write_out-Same : (s : F) → Same fs laws s (write_out fs temp body s).1
      write_out-Same s e h = write_out-keeps fs laws temp body (blob_name e) (outside e h) s

      -- The link, from a state in which the temporary file is complete.
      link-IsPublished :
          (digest : IsStored d) (s : F)
          → laws.contents s temp ≡ some body
          → IsPublished fs laws d body s
              (after_link fs (blob_name d) body (fs.link temp (blob_name d) s))
      link-IsPublished digest s complete = by_link (fs.link temp (blob_name d) s) refl
        where
          kept :
              (x : LinkOutcome × F)
              → fs.link temp (blob_name d) s ≡ x
              → x.0 ≢ linked
              → Same fs laws s x.1
          kept x eq refused e h = elim (bytes_eq-cases e d) [
            | inl same ↦
                subst (λ y. blob fs laws x.1 y ≡ blob fs laws s y) (sym same)
                  (ap (λ y. blob fs laws y.1 d) (sym eq)
                    ∙ laws.link_refuses temp (blob_name d) s
                        (λ made. refused (ap (λ y. y.0) (sym eq) ∙ made)))
            | inr differs ↦
                ap (λ y. blob fs laws y.1 e) (sym eq)
                ∙ laws.link_keeps temp (blob_name d) (blob_name e) s (apart d e h digest differs)
          ]

          by_link :
              (x : LinkOutcome × F)
              → fs.link temp (blob_name d) s ≡ x
              → IsPublished fs laws d body s (after_link fs (blob_name d) body x)
          by_link (linked, s₁) eq =
              let (absent, made) = laws.link_makes temp (blob_name d) s (ap (λ y. y.0) eq) in
              let stored : blob fs laws s₁ d ≡ some body =
                ap (λ y. blob fs laws y.1 d) (sym eq) ∙ made ∙ complete in
              record {
                adds = λ e h. elim (bytes_eq-cases e d) [
                  | inl same ↦ inr (same, absent, stored)
                  | inr differs ↦ inl (
                      ap (λ y. blob fs laws y.1 e) (sym eq)
                      ∙ laws.link_keeps temp (blob_name d) (blob_name e) s
                          (apart d e h digest differs))
                ];
                there = λ fresh e. stored;
              }
          by_link (exists, s₁) eq = record {
            adds = λ e h. inl (kept (exists, s₁) eq (λ f. cc) e h);
            there = λ fresh e. laws.read_finds (blob_name d) s₁ (compare_existing-ok body _ e);
          }
          by_link (not_linked x, s₁) eq = record {
            adds = λ e h. inl (kept (not_linked x, s₁) eq (λ f. cc) e h);
            there = λ fresh e. cc;
          }

      publish-IsPublished :
          (digest : IsStored d) (s : F)
          → IsPublished fs laws d body s (publish fs (blob_name d) temp body s)
      unfolding publish
      publish-IsPublished digest s =
          and_then-IsPublished fs laws d body s (write_out fs temp body s) _ (write_out-Same s)
            (λ u done. link-IsPublished digest _ (write_out-written fs laws temp body s done))

      pub stored_through :
          (digest : IsStored d) (s : F)
          → IsPublished fs laws d body s (
              and_then
                (fs.open_new temp s)
                (λ _. finally (publish fs (blob_name d) temp body) (fs.unlink temp)))
      stored_through digest s =
          and_then-IsPublished fs laws d body s (fs.open_new temp s) _
            (λ e h. laws.open_keeps temp (blob_name e) s (outside e h))
            (λ u opened.
              let s₁ = (fs.open_new temp s).1 in
              let r = publish fs (blob_name d) temp body s₁ in
              after_cleanup-IsPublished fs laws d body digest s₁ r.1 r.0 (fs.unlink temp r.1)
                (publish-IsPublished digest s₁)
                (λ e h. laws.unlink_keeps temp (blob_name e) r.1 (outside e h)))
