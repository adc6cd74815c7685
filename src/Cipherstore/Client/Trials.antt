-- ===== src/Cipherstore/Client/Trials.antt =====
-- A client of which one request is answered, and then the worker fails.
use vulnseal.Prelude.{
  ℕ, ◌+◌, ◌≤◌, ◌≡◌, ◌≢◌, refl, true, ◌&&◌, ◌||◌, none, [], length, leb, ok, if◌then◌else◌,
}
use vulnseal.Cipherstore.Client.{
  read_operation, put_operation, Client, new_client, drop, on_message, reject_all, fail, request,
  close, requests, replies, fails, closes, Reachable, starts, follows,
}
use vulnseal.Cipherstore.Client.Settling.{waiting_count, settled_count, has_failed, client_settles}

abbrev asked : Client ℕ ℕ
unfolding request new_client
asked = (request put_operation true (request read_operation true new_client).1).1

abbrev failed : Client ℕ ℕ
unfolding asked request new_client on_message fail drop reject_all
failed = fail 7 (on_message 1 (ok 5) asked)

failed-Reachable : Reachable failed
unfolding failed asked
failed-Reachable =
    follows
      (follows
        (follows (follows starts (requests read_operation true _ refl))
          (requests put_operation true _ refl))
        (replies 1 (ok 5) _))
      (fails 7 _)

-- After that, a close.
client_settles_example :
    (waiting_count 2 failed + settled_count 2 failed
      ≡ (if leb 1 2 && leb 2 failed.next_id then 1 else 0))
    × (length failed.pending ≤ (if failed.closing then 129 else 128))
    × ((close true failed).next_id ≤ failed.next_id + (if failed.closing then 0 else 1))
    × ((close true failed).next_id
        ≡ failed.next_id + (if failed.closing || has_failed failed then 0 else 1))
    × (failed.failure ≢ none → failed.pending ≡ [])
client_settles_example = client_settles 2 true failed-Reachable (closes true failed)
