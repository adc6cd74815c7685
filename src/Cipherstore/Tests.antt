-- ===== src/Cipherstore/Tests.antt =====
-- The store's theorems over the tables of Cipherstore/Sample.antt: an upload, and its download.
use vulnseal.Prelude.{
  ℕ, ap, ◌≡◌, refl, true, false, none, some, List, [], ◌∷◌, arith, lookup, insert, ◌=ᵇ◌, ok,
}
use vulnseal.Contract.Types.{ascii}
use vulnseal.Shared.Hex.{Text}
use vulnseal.Shared.Base64.{sextets, octets}
use vulnseal.Cipherstore.Storage.{StorageLaws, validate_digest}
use vulnseal.Shared.Json.{get_field}
use vulnseal.Shared.Order.{text_le}
use vulnseal.Shared.Envelope.{sort, same_texts, has_envelope_keys, after, is_aad}
use vulnseal.Cipherstore.Envelope.{validate_envelope, parse, decode}
use vulnseal.Cipherstore.Upload.{receive, set_bytes, assemble, read_limited, joined}
use vulnseal.Cipherstore.Upload.Limit.{read_limited_lem}
use vulnseal.Cipherstore.Sqlite.{
  capacity, transaction, put_row, probe_row, prepare, read, put, check_readiness, sqlite_storage,
}
use vulnseal.Cipherstore.Sqlite.Promises.{IsWithinQuota, sqlite_laws, put-IsWithinQuota}
use vulnseal.Cipherstore.Server
use vulnseal.Cipherstore.Server.{
  Method, Request, Options, Reply, get, blob, stored, match_digest, before_semicolon, trim_start,
  trim_end, is_media_type, is_retired, upload_body, receive_blob, send_blob, serve_method,
  prepared_blob, answer_blob, admit_blob, handle, media_type,
}
use vulnseal.Cipherstore.Capacity.{Entry}
use vulnseal.Cipherstore.Retirement.{make_policy, add_all, has}
use vulnseal.Cipherstore.Retirement.Reading.{PolicyFile, read_bounded, read_bounded_lem}
use vulnseal.Cipherstore.Upload.{joined}
use vulnseal.Cipherstore.Metrics.{
  Counters, start, record_once, increment, arrive, complete, finished_with, aborted, Counted,
  none_yet, arrived, ended, end_first,
}
use vulnseal.Cipherstore.Metrics.Balance.{IsBalanced, Counted-IsBalanced}
use vulnseal.Cipherstore.Server.Answers.{handle_sends}
use vulnseal.Cipherstore.Server.Acknowledged.{handle_acknowledges}
use vulnseal.Cipherstore.Server.Safety.{
  IsSound, serve_all, serve_all-IsSound, acknowledged_is_served,
}
use vulnseal.Cipherstore.Sample.{
  Tables, tables, tables-DatabaseLaws, digest, one_digest, decode_ascii, read_envelope,
}

abbrev upload : Request
upload = record {
  method = Server.put;
  url = ascii "/v1/blobs/sha256:aaaaaaaaaaaaaaaaaaaaaaaaaaaaaaaaaaaaaaaaaaaaaaaaaaaaaaaaaaaaaaaa";
  content_type = some media_type;
  body = record { chunks = (1 ∷ 2 ∷ []) ∷ (3 ∷ []) ∷ []; ended = true };
}

abbrev download : Request
download = record upload { method = get }

abbrev options : Options
options = record {
  retired = none;
  allowed_origin = none;
  metrics_enabled = false;
  max_concurrent_uploads = 16;
}

abbrev nothing : Tables
nothing = record { rows = []; probe_row = none }

abbrev one_blob : Tables
one_blob = record { rows = (digest, 1 ∷ 2 ∷ 3 ∷ []) ∷ []; probe_row = none }

abbrev laws : StorageLaws Tables (sqlite_storage tables 100 2)
laws = sqlite_laws tables tables-DatabaseLaws 100 2

opened : Unit {0}
unfolding lookup insert ◌=ᵇ◌ sextets octets validate_digest validate_envelope parse text_le sort
    same_texts has_envelope_keys get_field decode after is_aad receive set_bytes assemble
    read_limited joined capacity transaction put_row probe_row prepare read put check_readiness
    match_digest before_semicolon trim_start trim_end is_media_type is_retired upload_body
    receive_blob send_blob serve_method prepared_blob answer_blob admit_blob handle serve_all
opened = tt

uploaded :
    handle
      (sqlite_storage tables 100 2)
      one_digest
      decode_ascii
      read_envelope
      options
      upload
      0
      nothing
    ≡ (Server.json 201 (stored digest true), one_blob)
unfolding opened
uploaded = refl

downloaded :
    handle
      (sqlite_storage tables 100 2)
      one_digest
      decode_ascii
      read_envelope
      options
      download
      16
      one_blob
    ≡ (Server.json 200 (blob (1 ∷ 2 ∷ 3 ∷ [])), one_blob)
unfolding opened
downloaded = refl

handle_acknowledges_example :
    (match_digest upload.url ≡ some digest)
    × (laws.blob
          (handle
            (sqlite_storage tables 100 2)
            one_digest
            decode_ascii
            read_envelope
            options
            upload
            0
            nothing).1
          digest
        ≡ some (joined upload.body.chunks))
    × ((handle
          (sqlite_storage tables 100 2)
          one_digest
          decode_ascii
          read_envelope
          options
          upload
          0
          nothing).0.status
        ≡ 201)
handle_acknowledges_example =
    handle_acknowledges (sqlite_storage tables 100 2) laws one_digest decode_ascii read_envelope
      options upload nothing 0 digest true (ap (λ x. x.0.reply) uploaded)

handle_sends_example :
    (d : Text) × (match_digest download.url ≡ some d)
    × (laws.blob one_blob d ≡ some (1 ∷ 2 ∷ 3 ∷ []))
    × (one_digest (1 ∷ 2 ∷ 3 ∷ []) ≡ d)
    × ((handle
          (sqlite_storage tables 100 2)
          one_digest
          decode_ascii
          read_envelope
          options
          download
          16
          one_blob).0.status
        ≡ 200)
    × (is_retired options d ≡ false)
handle_sends_example =
    handle_sends (sqlite_storage tables 100 2) laws one_digest decode_ascii read_envelope options
      download one_blob 16 (1 ∷ 2 ∷ 3 ∷ []) (ap (λ x. x.0.reply) downloaded)

abbrev requests : List (Request × ℕ)
requests = (upload, 0) ∷ (download, 1) ∷ []

nothing-IsSound :
    IsSound (sqlite_storage tables 100 2) laws one_digest decode_ascii read_envelope options nothing
unfolding opened
nothing-IsSound = record { sealed = λ d body found. absurd (cc found) }

serve_all-IsSound_example :
    IsSound (sqlite_storage tables 100 2) laws one_digest decode_ascii read_envelope options (
      serve_all
        (sqlite_storage tables 100 2)
        laws
        one_digest
        decode_ascii
        read_envelope
        options
        requests
        nothing)
serve_all-IsSound_example =
    serve_all-IsSound (sqlite_storage tables 100 2) laws one_digest decode_ascii read_envelope
      options requests nothing nothing-IsSound

one_blob_held : laws.blob one_blob digest ≡ some (1 ∷ 2 ∷ 3 ∷ [])
unfolding opened
one_blob_held = refl

served_after :
    (handle (sqlite_storage tables 100 2) one_digest decode_ascii read_envelope options download 0 (
      serve_all
        (sqlite_storage tables 100 2)
        laws
        one_digest
        decode_ascii
        read_envelope
        options
        ((upload, 0) ∷ (download, 1) ∷ [])
        nothing)).0.reply
    ≡ blob (1 ∷ 2 ∷ 3 ∷ [])
unfolding opened
served_after = refl

acknowledged_is_served_example :
    ((1 ∷ 2 ∷ 3 ∷ []) ≡ joined upload.body.chunks) × (one_digest (1 ∷ 2 ∷ 3 ∷ []) ≡ digest)
acknowledged_is_served_example =
    acknowledged_is_served (sqlite_storage tables 100 2) laws one_digest decode_ascii read_envelope
      options upload 0 nothing digest true (ap (λ x. x.0.reply) uploaded) ((download, 1) ∷ [])
      download 0 (1 ∷ 2 ∷ 3 ∷ []) refl served_after

put-IsWithinQuota_example :
    IsWithinQuota tables tables-DatabaseLaws 100 2 (put tables 100 2 digest (1 ∷ []) nothing).1
    × IsWithinQuota tables tables-DatabaseLaws 100 2 (check_readiness tables 100 2 nothing).1
put-IsWithinQuota_example =
    put-IsWithinQuota tables tables-DatabaseLaws 100 2 digest (1 ∷ []) nothing
      (omega arith, omega arith)

read_limited_lem_example : read_limited upload.body ≡ ok (1 ∷ 2 ∷ 3 ∷ [])
unfolding joined
read_limited_lem_example = read_limited_lem upload.body

-- Two requests: the second finishes with 201 and then closes, the first closes unfinished.
two_requests : Counters
two_requests =
    complete 1 false 200 (complete 0 false 201 (complete 0 true 201 (arrive (arrive start))))

two-Counted : Counted two_requests (some (finished_with 201) ∷ some aborted ∷ [])
unfolding two_requests end_first
two-Counted =
    ended _ _ 1 false 200
      (ended _ _ 0 false 201 (ended _ _ 0 true 201 (arrived _ _ (arrived _ _ none_yet))))

two_values :
    (two_requests.active_requests ≡ 0)
    × (two_requests.completed ≡ 0 ∷ 1 ∷ 0 ∷ 0 ∷ 0 ∷ [])
    × (two_requests.aborted_responses ≡ 1)
unfolding two_requests arrive complete record_once increment
two_values = (refl, refl, refl)

Counted-IsBalanced_example : IsBalanced two_requests (some (finished_with 201) ∷ some aborted ∷ [])
Counted-IsBalanced_example = Counted-IsBalanced two-Counted

-- A file of three bytes that comes in two reads.
abbrev policy_file : PolicyFile
policy_file = record {
  listed = some (true, 3);
  opened = some true;
  reads = (1 ∷ 2 ∷ []) ∷ (3 ∷ []) ∷ [];
  fails = false;
}

read_bounded_lem_example : read_bounded policy_file ≡ ok (1 ∷ 2 ∷ 3 ∷ [])
unfolding joined
read_bounded_lem_example =
    read_bounded_lem policy_file 3 refl (omega arith) refl refl (omega arith, (omega arith, tt))

abbrev entry : Entry
entry = record {
  name = ascii "aaaaaaaaaaaaaaaaaaaaaaaaaaaaaaaaaaaaaaaaaaaaaaaaaaaaaaaaaaaaaaaa.ciphertext.json";
  is_file = true;
  size = 40;
}

retired : make_policy (digest ∷ []) ≡ ok (digest ∷ [])
unfolding make_policy add_all has validate_digest
retired = refl
