-- ===== src/Api/ContractHistory.antt =====
-- api/src/contract-history.ts: the scan of a contract's actions for the one before a given
-- transaction. The stream of messages and the clock are an explicit sequence of events;
-- `JSON.parse` is a parameter.
pub mod Scan
use vulnseal.Prelude.{
  ℕ, suc, ◌+◌, String, Bool, true, false, not, ◌&&◌, ◌||◌, Option, none, some, List, [], ◌∷◌, map,
  all, any, length, ltb, leb, ◌==◌, ◌=ᵇ◌, if◌then◌else◌, Result, ok, err, ◌>>=◌, ◌>>◌, guard,
}
use vulnseal.Contract.Types.{ascii}
use vulnseal.Shared.Hex.{Text, to_lower, is_hex, strip_0x}
use vulnseal.Shared.Base64.{nonempty}
use vulnseal.Shared.Json.{
  Json, Items, undefined, null, boolean, number, string, array, object, no_items, item, Number,
  integer, get_field, is_safe_integer, max_safe_integer, is_exactly,
}

pub data Kind : Type 0 where
  contract_deploy : Kind
  contract_call : Kind
  contract_update : Kind

pub record HistoricalAction : Type 0 where
  pub kind : Kind
  pub address : Text
  pub entry_point : Option Text
  pub transaction_hash : Text
  pub identifiers : List Text
  pub block_height : ℕ
  pub block_hash : Text

pub data HistoryError : Type 0 where
  invalid_identifier : HistoryError
  unsupported_action : HistoryError
  malformed_action : HistoryError
  invalid_circuit : HistoryError
  invalid_limits : HistoryError
  cancelled : HistoryError
  timed_out : HistoryError
  initialization_failed : HistoryError
  connection_failed : HistoryError
  stream_closed : HistoryError
  invalid_message : HistoryError
  send_failed : HistoryError
  duplicate_acknowledgement : HistoryError
  stream_ended : HistoryError
  invalid_response : HistoryError
  limit_reached : HistoryError
  foreign_contract : HistoryError
  no_deployment_first : HistoryError
  unordered : HistoryError
  no_previous : HistoryError

-- `value?.key`
abbrev pub at_key : String → Json → Json
at_key key (object fields) = get_field (ascii key) fields
at_key key _ = undefined

-- `hex(value, identifier)`
unfoldable pub hex : Bool → Json → Result HistoryError Text
unfolding strip_0x
hex identifier (string t) =
    let normalized = strip_0x (map to_lower t) in
    if all is_hex normalized
      && ((length normalized == 64) || (identifier && (length normalized == 66)))
    then ok normalized
    else err invalid_identifier
hex identifier _ = err invalid_identifier

unfoldable pub kind_of : Json → Result HistoryError Kind
unfolding ◌=ᵇ◌
kind_of (string t) =
    if t =ᵇ ascii "ContractDeploy"
    then ok contract_deploy
    else if t =ᵇ ascii "ContractCall"
    then ok contract_call
    else if t =ᵇ ascii "ContractUpdate"
    then ok contract_update
    else err unsupported_action
kind_of _ = err unsupported_action

abbrev pub count_items : Items → ℕ
count_items no_items = 0
count_items (item v rest) = suc (count_items rest)

-- Between 1 and 64 identifiers.
abbrev pub identifiers_of : Json → Result HistoryError Items
identifiers_of (array items) =
    if leb 1 (count_items items) && leb (count_items items) 64
    then ok items
    else err malformed_action
identifiers_of _ = err malformed_action

unfoldable pub height_of : Json → Result HistoryError ℕ
height_of (number (integer negative n)) =
    if leb n max_safe_integer && not (negative && not (n == 0)) then ok n else err malformed_action
height_of _ = err malformed_action

abbrev pub circuit_of : Kind → Json → Result HistoryError (Option Text)
circuit_of contract_call (string t) =
    if nonempty t && leb (length t) 256 then ok (some t) else err invalid_circuit
circuit_of contract_call _ = err invalid_circuit
circuit_of contract_deploy _ = ok none
circuit_of contract_update _ = ok none

unfoldable pub hex_items : Items → Result HistoryError (List Text)
unfolding hex
hex_items no_items = ok []
hex_items (item v rest) = hex true v >>= λ t. hex_items rest >>= λ ts. ok (t ∷ ts)

unfoldable pub parse_action : Json → Result HistoryError HistoricalAction
unfolding kind_of hex hex_items height_of get_field ◌=ᵇ◌
parse_action value = do
  kind ← kind_of (at_key "__typename" value)
  let tx = at_key "transaction" value
  items ← identifiers_of (at_key "identifiers" tx)
  guard (is_exactly "SUCCESS" (at_key "status" (at_key "transactionResult" tx))) malformed_action
  block_height ← height_of (at_key "height" (at_key "block" tx))
  entry_point ← circuit_of kind (at_key "entryPoint" value)
  address ← hex false (at_key "address" value)
  transaction_hash ← hex false (at_key "hash" tx)
  identifiers ← hex_items items
  block_hash ← hex false (at_key "hash" (at_key "block" tx))
  ok (record {
    kind = kind;
    address = address;
    entry_point = entry_point;
    transaction_hash = transaction_hash;
    identifiers = identifiers;
    block_height = block_height;
    block_hash = block_hash;
  })

-- What the caller asks for, once it has been checked.
pub record Options : Type 0 where
  pub address : Text
  pub identifier : Text
  pub deployment_height : ℕ
  pub max_actions : ℕ

unfoldable pub check_options : Json → Json → ℕ → ℕ → ℕ → Result HistoryError Options
unfolding hex
check_options contract_address transaction_id deployment_height timeout_ms max_actions = do
  address ← hex false contract_address
  identifier ← hex true transaction_id
  guard
      (leb deployment_height max_safe_integer
        && leb 1 timeout_ms
        && leb timeout_ms 60000
        && leb 2 max_actions
        && leb max_actions 10000)
      invalid_limits
  ok (record {
    address = address;
    identifier = identifier;
    deployment_height = deployment_height;
    max_actions = max_actions;
  })

pub record FoundAction : Type 0 where
  pub previous : HistoricalAction
  pub target : HistoricalAction
  pub actions_read : ℕ

-- The variables that the handlers share.
pub record State : Type 0 where
  pub settled : Option (Result HistoryError FoundAction)
  pub subscribed : Bool
  pub count : ℕ
  pub previous : Option HistoricalAction

-- What a handler is told by the outside: whether the deadline has passed when it starts and when
-- it finishes, and whether its `send` goes through.
pub record Moment : Type 0 where
  pub expired_at_start : Bool
  pub expired_at_finish : Bool
  pub sends : Bool

pub data Event : Type 0 where
  opened : Event
  failed : Event
  closed : Event
  aborted : Event
  timer : Event
  -- The data of a message, if it is text.
  message : Option Text → Event

abbrev pub start : State
start = record { settled = none; subscribed = false; count = 0; previous = none }

-- `finish`: the first outcome stands.
unfoldable pub finish : Moment → Result HistoryError FoundAction → State → State
finish moment outcome st = elim st.settled [
  | some result ↦ st
  | none ↦ record st {
    settled = some (if moment.expired_at_finish then err timed_out else outcome);
  }
]

-- What `onmessage` makes of a message, short of an error.
pub data Reaction : Type 0 where
  ignore : Reaction
  pong : Reaction
  subscribe : Reaction
  action : HistoricalAction → Reaction

abbrev pub is_contained : List Text → Text → Bool
is_contained texts t = any (λ u. u =ᵇ t) texts

-- `message.payload?.errors?.length`
abbrev pub has_errors : Json → Bool
has_errors (array (item v rest)) = true
has_errors (string t) = nonempty t
has_errors (object fields) = elim (get_field (ascii "length") fields) [
  | number (integer negative n) ↦ not (n == 0)
  | undefined ↦ false
  | null ↦ false
  | _ ↦ true
]
has_errors _ = false

module _ (parse_json : Text → Option Json) where
  abbrev pub parsed : Option Text → Result HistoryError Json
  parsed none = err invalid_message
  parsed (some t) =
      if ltb 65536 (length t)
      then err invalid_message
      else elim (parse_json t) [ none ↦ err invalid_message | some value ↦ ok value ]

  abbrev pub present : Json → Result HistoryError Json
  present null = err invalid_message
  present value = ok value

  -- The reading of a message by a scan that has subscribed or has not.
  unfoldable pub read_message : Bool → Option Text → Result HistoryError Reaction
  unfolding parse_action get_field ◌=ᵇ◌
  read_message subscribed data_text = do
    value ← parsed data_text >>= present
    let type = at_key "type" value
    if is_exactly "ping" type
        then ok pong
        else if is_exactly "connection_ack" type
        then (if subscribed then err duplicate_acknowledgement else ok subscribe)
        else if not (is_exactly "history" (at_key "id" value))
        then ok ignore
        else if is_exactly "error" type || is_exactly "complete" type
        then err stream_ended
        else if not (is_exactly "next" type)
            || not subscribed
            || has_errors (at_key "errors" (at_key "payload" value))
        then err invalid_response
        else (parse_action (at_key "contractActions" (at_key "data" (at_key "payload" value)))
            >>= λ a. ok (action a))

  module _ (options : Options) where
    abbrev pub is_deployment : HistoricalAction → Bool
    is_deployment a = elim a.kind [
      | contract_deploy ↦ a.block_height == options.deployment_height
      | _ ↦ false
    ]

    -- The tests on an action against the one before it.
    abbrev pub follows : Option HistoricalAction → HistoricalAction → Result HistoryError (Unit {0})
    follows none a = guard (is_deployment a) no_deployment_first
    follows (some p) a = guard (ltb p.block_height a.block_height) unordered

    -- An action that was read, by a scan whose count has been raised.
    unfoldable pub next_action : Moment → State → HistoricalAction → State
    unfolding finish ◌=ᵇ◌
    next_action moment st a =
        if ltb options.max_actions st.count
        then finish moment (err limit_reached) st
        else if not (a.address =ᵇ options.address)
        then finish moment (err foreign_contract) st
        else elim (follows st.previous a) [
          | err e ↦ finish moment (err e) st
          | ok _ ↦
              if is_contained a.identifiers options.identifier
              then elim st.previous [
                | none ↦ finish moment (err no_previous) st
                | some p ↦
                    finish moment
                      (ok (record { previous = p; target = a; actions_read = st.count })) st
              ]
              else record st { previous = some a }
        ]

    unfoldable pub react : Moment → State → Result HistoryError Reaction → State
    unfolding finish next_action
    react moment st (err e) = finish moment (err e) st
    react moment st (ok ignore) = st
    react moment st (ok pong) = if moment.sends then st else finish moment (err send_failed) st
    react moment st (ok subscribe) =
        let st₁ = record st { subscribed = true } in
        if moment.sends then st₁ else finish moment (err send_failed) st₁
    react moment st (ok (action a)) = next_action moment (record st { count = suc st.count }) a

    -- The handlers of the socket, the timer and the signal. Once settled, the first four are gone
    -- and the others do nothing.
    unfoldable pub step : Moment → Event → State → State
    unfolding finish react read_message
    step moment opened st =
        if moment.expired_at_start
        then finish moment (err timed_out) st
        else if moment.sends
        then st
        else finish moment (err initialization_failed) st
    step moment failed st = finish moment (err connection_failed) st
    step moment closed st = finish moment (err stream_closed) st
    step moment aborted st = finish moment (err cancelled) st
    step moment timer st = finish moment (err timed_out) st
    step moment (message data_text) st = elim st.settled [
      | some outcome ↦ st
      | none ↦
          if moment.expired_at_start
          then finish moment (err timed_out) st
          else react moment st (read_message st.subscribed data_text)
    ]

    unfoldable pub run : List (Moment × Event) → State → State
    unfolding step
    run [] st = st
    run ((moment, event) ∷ events) st = run events (step moment event st)
