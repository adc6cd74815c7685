-- ===== src/Cipherstore/Client/Settling.antt =====
-- cipherstore/src/sqlite-storage.ts: every promise of a request is settled once.
use vulnseal.Prelude.{
  ℕ, suc, ◌+◌, ◌≤◌, ◌≡◌, ◌≢◌, refl, arith, inl, inr, Bool-cases, Bool, true, false, ◌&&◌, ◌||◌, leb,
  ◌==◌, some, none, List, [], ◌∷◌, ◌++◌, length, length-append, Result, if◌then◌else◌,
}
use vulnseal.Cipherstore.Client.{
  Operation, is_close, ClientError, Client, new_client, waits, drop, on_message, reject_all, fail,
  post, request, close, Step, requests, replies, fails, closes, Reachable, starts, follows,
}

-- How often a number stands in a list.
occurrences : ℕ → List ℕ → ℕ
occurrences x [] = 0
occurrences x (y ∷ ys) = (if y == x then 1 else 0) + occurrences x ys

occurrences-append :
    (x : ℕ) (ys zs : List ℕ) → occurrences x (ys ++ zs) ≡ occurrences x ys + occurrences x zs
unfolding occurrences
occurrences-append x [] zs = omega arith
occurrences-append x (y ∷ ys) zs = ground (arith, occurrences-append x ys zs)

occurrences-drop :
    (x id : ℕ) (ys : List ℕ)
    → waits id ys ≡ true
    → occurrences x ys ≡ (if id == x then 1 else 0) + occurrences x (drop id ys)
unfolding occurrences drop
occurrences-drop x id [] h = cc
occurrences-drop x id (y ∷ ys) h = ground (arith, h, occurrences-drop x id ys)

length-drop : (id : ℕ) (ys : List ℕ) → length (drop id ys) ≤ length ys
unfolding drop
length-drop id [] = omega arith
length-drop id (y ∷ ys) = ground (arith, length-drop id ys)

abbrev room : Bool → ℕ
room true = 129
room false = 128

module _ {E R : Type 0} where
  settled_ids : List (ℕ × Result (ClientError E) R) → List ℕ
  settled_ids [] = []
  settled_ids ((id, outcome) ∷ rest) = id ∷ settled_ids rest

  settled_ids-reject_all :
      (cause : E) (ids : List ℕ) (rest : List (ℕ × Result (ClientError E) R))
      → settled_ids (reject_all cause ids ++ rest) ≡ ids ++ settled_ids rest
  unfolding settled_ids reject_all
  settled_ids-reject_all cause [] rest = refl
  settled_ids-reject_all cause (id ∷ ids) rest = rw (settled_ids-reject_all cause ids rest) refl

  -- Of the requests: how often one waits and how often it is settled.
  abbrev pub waiting_count : ℕ → Client E R → ℕ
  unfolding occurrences
  waiting_count id c = occurrences id c.pending

  abbrev pub settled_count : ℕ → Client E R → ℕ
  unfolding occurrences settled_ids
  settled_count id c = occurrences id (settled_ids c.settled)

  record Inv (c : Client E R) : Type 0 where
    once :
        (id : ℕ)
        → occurrences id c.pending + occurrences id (settled_ids c.settled)
          ≡ (if leb 1 id && leb id c.next_id then 1 else 0)
    bounded : length c.pending ≤ room c.closing
    failed : c.failure ≢ none → c.pending ≡ []

  new_client-Inv : Inv new_client
  unfolding new_client occurrences settled_ids
  new_client-Inv = record { once = λ id. ground arith; bounded = omega arith; failed = λ f. refl }

  on_message-Inv :
      (id : ℕ) (outcome : Result (ClientError E) R) (c : Client E R)
      → Inv c
      → Inv (on_message id outcome c)
  unfolding on_message settled_ids occurrences
  on_message-Inv id outcome c h = elim (Bool-cases (waits id c.pending)) [
    | inl e ↦ rw e (record {
      once = λ x. ground (arith, h.once x, occurrences-drop x id c.pending e);
      bounded = omega (arith, h.bounded, length-drop id c.pending);
      failed = λ f. ground (arith, h.failed f, e);
    })
    | inr e ↦ rw e h
  ]

  fail-Inv : (cause : E) (c : Client E R) → Inv c → Inv (fail cause c)
  unfolding fail occurrences
  fail-Inv cause c h = record {
    once = λ x.
        rw (settled_ids-reject_all cause c.pending c.settled)
          (ground (arith, h.once x, occurrences-append x c.pending (settled_ids c.settled)));
    bounded = ground arith;
    failed = λ f. refl;
  }

  post-Inv :
      (posted closing : Bool) (c : Client E R)
      → c.failure ≡ none
      → suc (length c.pending) ≤ room closing
      → Inv c
      → Inv (record ((post posted c).1) { closing = closing })
  unfolding occurrences settled_ids
  post-Inv true closing c f r h = record {
    once = λ x. ground (arith, h.once x, occurrences-append x c.pending (suc c.next_id ∷ []));
    bounded = omega (arith, r, length-append c.pending (suc c.next_id ∷ []));
    failed = λ g. ground (arith, f, g);
  }
  post-Inv false closing c f r h = record {
    once = λ x. ground (arith, h.once x);
    bounded = omega (arith, r);
    failed = λ g. ground (arith, f, g);
  }

  request-Inv :
      (operation : Operation) (posted : Bool) (c : Client E R)
      → is_close operation ≡ false
      → Inv c
      → Inv (request operation posted c).1
  unfolding request
  request-Inv operation posted c n h = ground (arith, n, h, h.bounded, post-Inv posted c.closing c)

  closing_failed : (c : Client E R) → Inv c → c.failure ≢ none → Inv (record c { closing = true })
  closing_failed c h f = record {
    once = h.once;
    bounded = ground (arith, h.failed f);
    failed = h.failed;
  }

  close-Inv : (posted : Bool) (c : Client E R) → Inv c → Inv (close posted c)
  unfolding close request
  close-Inv posted c h = elim (Bool-cases c.closing) [
    | inl e ↦ ground (arith, e, h)
    | inr e ↦ ground (
      arith,
      e,
      h.bounded,
      closing_failed c h,
      λ (f : c.failure ≡ none). post-Inv posted true c f (ground (arith, e, h.bounded)) h,
    )
  ]

  Step-Inv : {c d : Client E R} → Step c d → Inv c → Inv d
  Step-Inv (requests operation posted c n) h = request-Inv operation posted c n h
  Step-Inv (replies id outcome c) h = on_message-Inv id outcome c h
  Step-Inv (fails cause c) h = fail-Inv cause c h
  Step-Inv (closes posted c) h = close-Inv posted c h

  Reachable-Inv : {c : Client E R} → Reachable c → Inv c
  Reachable-Inv starts = new_client-Inv
  Reachable-Inv (follows r s) = Step-Inv s (Reachable-Inv r)

  abbrev pub has_failed : Client E R → Bool
  has_failed c = elim c.failure [ none ↦ false | some e ↦ true ]

  post-next_id : (posted : Bool) (c : Client E R) → (post posted c).1.next_id ≡ suc c.next_id
  post-next_id true c = refl
  post-next_id false c = refl

  request-next_id :
      (operation : Operation) (posted : Bool) (c : Client E R)
      → is_close operation ≡ false
      → (request operation posted c).1.next_id ≤ c.next_id + (if c.closing then 0 else 1)
  unfolding request
  request-next_id operation posted c n = ground (arith, n, post-next_id posted c)

  close-next_id :
      (posted : Bool) (c : Client E R)
      → (close posted c).next_id ≡ c.next_id + (if c.closing || has_failed c then 0 else 1)
  unfolding close request
  close-next_id posted c = ground (arith, post-next_id posted c)

  -- Once a client is closing, no request is given an identifier any more.
  Step-next_id :
      {c d : Client E R} → Step c d → d.next_id ≤ c.next_id + (if c.closing then 0 else 1)
  unfolding on_message fail
  Step-next_id (requests operation posted c n) = request-next_id operation posted c n
  Step-next_id (replies id outcome c) = ground arith
  Step-next_id (fails cause c) = omega arith
  Step-next_id (closes posted c) = ground (arith, close-next_id posted c)

  -- In every state `c` that a client reaches, whatever the worker replies and however often, each
  -- request that was given an identifier either waits, once, or was settled, once, and no other
  -- identifier waits or was settled. At most 128 requests wait while the client is not closing, and
  -- at most 129 after that; a step gives out one identifier at most, and none once the client is
  -- closing; the first close is given one, however many wait, unless the worker has failed; and
  -- after that none waits.
  pub client_settles :
      {c d : Client E R} (id : ℕ) (posted : Bool)
      → Reachable c
      → Step c d
      → (waiting_count id c + settled_count id c ≡ (if leb 1 id && leb id c.next_id then 1 else 0))
        × (length c.pending ≤ (if c.closing then 129 else 128))
        × (d.next_id ≤ c.next_id + (if c.closing then 0 else 1))
        × ((close posted c).next_id ≡ c.next_id + (if c.closing || has_failed c then 0 else 1))
        × (c.failure ≢ none → c.pending ≡ [])
  unfolding waiting_count settled_count occurrences settled_ids
  client_settles {c} id posted r step =
      let h = Reachable-Inv r in
      (h.once id, ground (arith, h.bounded), Step-next_id step, close-next_id posted c, h.failed)
