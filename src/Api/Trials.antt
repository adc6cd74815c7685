-- ===== src/Api/Trials.antt =====
-- Clients of one store and of two, over the platform of Shared/Sample.antt, and a scan of a short
-- history.
use vulnseal.Prelude.{
  ℕ, ◌≡◌, refl, true, false, Option, none, some, List, [], ◌∷◌, All, replicate, ◌=ᵇ◌, ok,
}
use vulnseal.Contract.Types.{ascii}
use vulnseal.Shared.Hex.{Text, bytes_to_hex, strip_0x}
use vulnseal.Shared.Json.{
  Json, object, array, field, no_fields, string, number, integer, item, no_items, get_field,
}
use vulnseal.Shared.Environment.{Url}
use vulnseal.Shared.Envelope.{after}
use vulnseal.Shared.Crypto.{is_content_address, validate_content_digest}
use vulnseal.Shared.Sample.{toy}
use vulnseal.Api.CipherstoreClient.{
  CipherstoreClient, AnyClient, replicated, Method, Fetched, get_any, put_any, get_ciphertext,
  put_ciphertext, get_replicated, get_first, put_replicated, put_all, acknowledge, download_text,
  read_ciphertext, read_chunks,
}
use vulnseal.Api.CipherstoreClient as Client
use vulnseal.Api.CipherstoreClient.Bodies.{read_chunks_lem}
use vulnseal.Api.CipherstoreClient.Answers.{
  IsAcknowledged, clients_of, get_any-validates, put_any-IsAcknowledged,
}
use vulnseal.Api.ContractHistory.{
  HistoricalAction, Options, FoundAction, Moment, Event, message, contract_deploy, contract_call,
  run, start, step, react, next_action, read_message, parse_action, kind_of, hex, hex_items,
  height_of, finish,
}
use vulnseal.Api.ContractHistory as History
use vulnseal.Api.ContractHistory.Scan.{IsFound, run-IsFound}

abbrev parse_url : Text → Option Url
parse_url t = some (record { protocol = ascii "https:"; username = []; password = []; href = t })

abbrev here : CipherstoreClient
here = record { base_url = ascii "https://a"; timeout_ms = 20000 }

abbrev there : CipherstoreClient
there = record { base_url = ascii "https://b"; timeout_ms = 20000 }

-- The address of the one-byte text `[7]` under the toy digest.
abbrev address : Text
address = ascii "sha256:0100000000000000000000000000000000000000000000000000000000000000"

-- One store is late with its download; each acknowledges an upload.
abbrev answer : Text → Method → Fetched
answer url Client.get = record {
  response =
      some (record { status = 200; body = some (record { chunks = (7 ∷ []) ∷ []; ended = true }) });
  aborted = url =ᵇ ascii "https://a";
}
answer url Client.put = record {
  response = some (record { status = 201; body = none });
  aborted = false;
}

abbrev fetch : CipherstoreClient → Method → Text → Option Text → Fetched
fetch client method _ _ = answer client.base_url method

abbrev both : AnyClient
both = replicated (here ∷ there ∷ [])

gets : get_any toy parse_url fetch both address ≡ ok (7 ∷ [])
unfolding get_any get_replicated get_first get_ciphertext download_text read_ciphertext read_chunks
    is_content_address validate_content_digest bytes_to_hex after ◌=ᵇ◌
gets = refl

get_any-validates_example : validate_content_digest toy (7 ∷ []) address ≡ true
get_any-validates_example = get_any-validates toy parse_url fetch both address gets

puts : put_any toy parse_url fetch both address (7 ∷ []) ≡ ok tt
unfolding put_any put_replicated put_all put_ciphertext acknowledge is_content_address
    validate_content_digest bytes_to_hex after ◌=ᵇ◌
puts = refl

put_any-IsAcknowledged_example :
    All (λ c. IsAcknowledged toy parse_url fetch c address (7 ∷ [])) (clients_of both)
put_any-IsAcknowledged_example =
    put_any-IsAcknowledged toy parse_url fetch both address (7 ∷ []) puts

read_chunks_lem_example :
    read_chunks true ((1 ∷ 2 ∷ []) ∷ (3 ∷ []) ∷ []) Client.first_capacity [] ≡ ok (1 ∷ 2 ∷ 3 ∷ [])
read_chunks_lem_example = read_chunks_lem true ((1 ∷ 2 ∷ []) ∷ (3 ∷ []) ∷ [])

-- A history of a deployment and a call: the messages are numbered texts.
abbrev digest : ℕ → Text
digest d = replicate 64 d

abbrev block : ℕ → Json
block n = object (
    field (ascii "height") (number (integer false n))
      (field (ascii "hash") (string (digest b'b')) no_fields))

abbrev sent_in : ℕ → ℕ → Json
sent_in n id = object (
    field (ascii "hash") (string (digest b'c')) (
      field (ascii "block") (block n) (
        field (ascii "identifiers") (array (item (string (digest id)) no_items)) (
          field (ascii "transactionResult")
            (object (field (ascii "status") (string (ascii "SUCCESS")) no_fields)) no_fields))))

abbrev next : Json → Json
next action = object (
    field (ascii "id") (string (ascii "history")) (
      field (ascii "type") (string (ascii "next")) (
        field (ascii "payload")
          (object (
            field (ascii "data") (object (field (ascii "contractActions") action no_fields))
              no_fields))
          no_fields)))

abbrev acted : Text → ℕ → ℕ → Json
acted kind n id = object (
    field (ascii "__typename") (string kind) (
      field (ascii "address") (string (digest b'a')) (
        field (ascii "entryPoint") (string (ascii "submit"))
          (field (ascii "transaction") (sent_in n id) no_fields))))

abbrev parse_message : Text → Option Json
parse_message [] = some (object (field (ascii "type") (string (ascii "connection_ack")) no_fields))
parse_message (c ∷ []) = some (next (acted (ascii "ContractDeploy") 5 b'1'))
parse_message _ = some (next (acted (ascii "ContractCall") 9 b'2'))

abbrev options : Options
options = record {
  address = digest b'a';
  identifier = digest b'2';
  deployment_height = 5;
  max_actions = 10;
}

abbrev on_time : Moment
on_time = record { expired_at_start = false; expired_at_finish = false; sends = true }

abbrev events : List (Moment × Event)
events =
    (on_time, History.opened)
    ∷ (on_time, message (some []))
    ∷ (on_time, message (some (1 ∷ [])))
    ∷ (on_time, message (some (2 ∷ 2 ∷ [])))
    ∷ (on_time, History.closed)
    ∷ []

abbrev deployed : HistoricalAction
deployed = record {
  kind = contract_deploy;
  address = digest b'a';
  entry_point = none;
  transaction_hash = digest b'c';
  identifiers = digest b'1' ∷ [];
  block_height = 5;
  block_hash = digest b'b';
}

abbrev called : HistoricalAction
called = record deployed {
  kind = contract_call;
  entry_point = some (ascii "submit");
  identifiers = digest b'2' ∷ [];
  block_height = 9;
}

abbrev found : FoundAction
found = record { previous = deployed; target = called; actions_read = 2 }

finds : (run parse_message options events start).settled ≡ some (ok found)
unfolding run step react next_action read_message parse_action kind_of hex hex_items height_of
    finish get_field strip_0x ◌=ᵇ◌
finds = refl

run-IsFound_example : IsFound parse_message options found
run-IsFound_example = run-IsFound parse_message options events finds
