-- ===== src/Cipherstore/Server/Safety.antt =====
-- What clients of cipherstore/src/server.ts can rely on, whatever requests are made.
use vulnseal.Prelude.{
  ℕ, ◌≡◌, inl, inr, sym, ◌∙◌, Bool, Option, some, List, [], ◌∷◌, Bytes, bytes_eq-cases,
  bytes_eq-false, ap,
}
use vulnseal.Shared.Hex.{Text}
use vulnseal.Cipherstore.Storage.{CiphertextStorage, StorageLaws}
use vulnseal.Shared.Json.{Json}
use vulnseal.Cipherstore.Upload.{joined}
use vulnseal.Cipherstore.Server.{Request, Options, blob, stored, handle, match_digest}
use vulnseal.Cipherstore.Server.Answers.{handle_sends}
use vulnseal.Cipherstore.Server.Acknowledged.{handle_acknowledges}
use vulnseal.Cipherstore.Server.Effect.{Sealed, Effect, unchanged, added, handle-Effect}

module _ {S : Type 0} (storage : CiphertextStorage S) (laws : StorageLaws S storage)
    (sha256 : Bytes → Text) (decode_utf8 : Bytes → Option Text) (parse_json : Text → Option Json)
    (options : Options) where
  -- Requests one after the other, each with the count of the uploads in progress that it meets.
  unfoldable pub serve_all : List (Request × ℕ) → S → S
  unfolding handle
  serve_all [] s = s
  serve_all ((request, active) ∷ rest) s =
      serve_all rest (handle storage sha256 decode_utf8 parse_json options request active s).1

  -- Every stored blob is a sealed report under its own digest.
  pub record IsSound (s : S) : Type 0 where
    pub sealed :
        (d : Text) (body : Bytes)
        → laws.blob s d ≡ some body
        → Sealed storage laws sha256 decode_utf8 parse_json d body

  module _ (request : Request) (s s' : S) where
    Effect-IsSound :
        Effect storage laws sha256 decode_utf8 parse_json options request s s'
        → IsSound s
        → IsSound s'
    Effect-IsSound (unchanged same) sound = record {
      sealed = λ d body found. sound.sealed d body (sym (same d) ∙ found);
    }
    Effect-IsSound (added digest at up live sealed before after others) sound = record {
      sealed = λ d body found. elim (bytes_eq-cases d digest) [
        | inl is ↦ let same : joined request.body.chunks ≡ body = cc in rw (is, ← same) sealed
        | inr apart ↦ sound.sealed d body (sym (others d (bytes_eq-false d digest apart)) ∙ found)
      ];
    }

    Effect-keeps :
        Effect storage laws sha256 decode_utf8 parse_json options request s s'
        → (d : Text) (body : Bytes) → laws.blob s d ≡ some body
        → laws.blob s' d ≡ some body
    Effect-keeps (unchanged same) d body found = same d ∙ found
    Effect-keeps (added digest at up live sealed before after others) d body found =
        elim (bytes_eq-cases d digest) [
          | inl is ↦ absurd (cc (is, before, found))
          | inr apart ↦ others d (bytes_eq-false d digest apart) ∙ found
        ]

  -- Whatever requests come, if every blob was a sealed report under its digest, every blob is.
  pub serve_all-IsSound :
      (requests : List (Request × ℕ)) (s : S) → IsSound s → IsSound (serve_all requests s)
  unfolding serve_all
  serve_all-IsSound [] s sound = sound
  serve_all-IsSound ((request, active) ∷ rest) s sound = serve_all-IsSound rest _ (
      Effect-IsSound request s _
        (handle-Effect storage laws sha256 decode_utf8 parse_json options request s active) sound)

  -- Whatever requests come, a stored blob stays as it is.
  serve_all_keeps :
      (requests : List (Request × ℕ)) (s : S) (d : Text) (body : Bytes)
      → laws.blob s d ≡ some body
      → laws.blob (serve_all requests s) d ≡ some body
  unfolding serve_all
  serve_all_keeps [] s d body found = found
  serve_all_keeps ((request, active) ∷ rest) s d body found = serve_all_keeps rest _ d body (
      Effect-keeps request s _
        (handle-Effect storage laws sha256 decode_utf8 parse_json options request s active) d body
        found)

  -- An upload that was acknowledged is what every later GET of its URL that sends a blob sends,
  -- whatever requests come in between.
  pub acknowledged_is_served :
      (upload : Request) (active : ℕ) (s : S) (d : Text) (fresh : Bool)
      → (handle storage sha256 decode_utf8 parse_json options upload active s).0.reply
        ≡ stored d fresh
      → (between : List (Request × ℕ)) (download : Request) (active' : ℕ) (body : Bytes)
      → download.url ≡ upload.url
      → (handle storage sha256 decode_utf8 parse_json options download active'
          (serve_all ((upload, active) ∷ between) s)).0.reply
        ≡ blob body
      → (body ≡ joined upload.body.chunks) × (sha256 body ≡ d)
  unfolding serve_all
  acknowledged_is_served upload active s d fresh stored_it between download active' body same_url
        sent_it =
      let (at, held, _) =
        handle_acknowledges storage laws sha256 decode_utf8 parse_json options upload s active d
          fresh stored_it in
      let kept = serve_all_keeps between _ d _ held in
      let (e, at', found, digest, _, _) =
        handle_sends storage laws sha256 decode_utf8 parse_json options download
          (serve_all ((upload, active) ∷ between) s) active' body sent_it in
      let same : e ≡ d = cc (at, at', ap match_digest same_url) in
      (cc (same, kept, found), cc (same, digest))
