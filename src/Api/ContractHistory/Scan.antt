-- ===== src/Api/ContractHistory/Scan.antt =====
-- api/src/contract-history.ts: what a scan that finds its target has read.
use vulnseal.Prelude.{
  ℕ, suc, ◌≤◌, ◌<◌, ◌≡◌, refl, sym, ap, inl, inr, arith, Bool-cases, Bool, true, false, Option,
  none, some, List, [], ◌∷◌, length, ltb, ◌=ᵇ◌, Result, ok, err, bytes_eq-to_eq,
}
use mathlib.Core.Path.{subst}
use vulnseal.Shared.Hex.{Text}
use vulnseal.Shared.Json.{Json}
use vulnseal.Api.ContractHistory.{
  HistoricalAction, HistoryError, Options, FoundAction, State, Moment, Event, Reaction, opened,
  failed, closed, aborted, timer, message, ignore, pong, subscribe, action, start, finish,
  next_action, react, step, run, read_message, is_deployment, is_contained, no_previous,
  limit_reached, foreign_contract, timed_out, send_failed, initialization_failed,
}

lower : (a b : ℕ) → ltb a b ≡ true → a < b
lower a b h = ground arith

within : (a b : ℕ) → ltb a b ≡ false → b ≤ a
within a b h = ground arith

module _ (parse_json : Text → Option Json) (options : Options) where
  -- The actions of one contract from its deployment on, the last one first: their heights rise, and
  -- none is the target.
  abbrev pub IsHistory : List HistoricalAction → Type 0
  IsHistory [] = Unit
  IsHistory (a ∷ []) =
      (a.address ≡ options.address)
      × (is_deployment parse_json options a ≡ true)
      × (is_contained a.identifiers options.identifier ≡ false)
  IsHistory (a ∷ b ∷ rest) =
      (a.address ≡ options.address)
      × (b.block_height < a.block_height)
      × (is_contained a.identifiers options.identifier ≡ false)
      × IsHistory (b ∷ rest)

  -- What a scan gives out: the target, the action just before it, and how many were read.
  pub record IsFound (f : FoundAction) : Type 0 where
    pub earlier : List HistoricalAction
    pub history : IsHistory (f.previous ∷ earlier)
    pub same_contract : f.target.address ≡ options.address
    pub later : f.previous.block_height < f.target.block_height
    pub is_target : is_contained f.target.identifiers options.identifier ≡ true
    pub counted : f.actions_read ≡ suc (suc (length earlier))
    pub bounded : f.actions_read ≤ options.max_actions

  -- A scan under way: the last action and the count are those of the history read so far.
  abbrev IsReading : Option HistoricalAction → ℕ → Type 0
  IsReading none n = n ≡ 0
  IsReading (some p) n =
      (earlier : List HistoricalAction) × IsHistory (p ∷ earlier) × (n ≡ suc (length earlier))

  abbrev IsSoundOf : Option (Result HistoryError FoundAction) → Option HistoricalAction → ℕ → Type 0
  IsSoundOf none previous n = IsReading previous n
  IsSoundOf (some (ok f)) previous n = IsFound f
  IsSoundOf (some (err e)) previous n = Unit

  abbrev pub IsSound : State → Type 0
  IsSound st = IsSoundOf st.settled st.previous st.count

  abbrev Outcome : Type 0
  Outcome = Option (Result HistoryError FoundAction)

  abbrev state : Outcome → Bool → ℕ → Option HistoricalAction → State
  state o s n p = record { settled = o; subscribed = s; count = n; previous = p }

  finish_err :
      (moment : Moment) (e : HistoryError) (s : Bool) (n : ℕ) (p : Option HistoricalAction)
      → IsSound (finish moment (err e) (state none s n p))
  unfolding finish
  finish_err moment e s n p = elim (Bool-cases moment.expired_at_finish) [
    | inl h ↦ rw h tt
    | inr h ↦ rw h tt
  ]

  finish_ok :
      (moment : Moment) (f : FoundAction) (s : Bool) (n : ℕ) (p : Option HistoricalAction)
      → IsFound f
      → IsSound (finish moment (ok f) (state none s n p))
  unfolding finish
  finish_ok moment f s n p found = elim (Bool-cases moment.expired_at_finish) [
    | inl h ↦ rw h tt
    | inr h ↦ rw h found
  ]

  -- An action read by a scan that has none before it.
  next_action_first :
      (moment : Moment) (s : Bool) (n : ℕ) (a : HistoricalAction)
      → n ≡ 0
      → IsSound (next_action parse_json options moment (state none s (suc n) none) a)
  unfolding next_action
  next_action_first moment s n a zero_read = elim (Bool-cases (ltb options.max_actions (suc n))) [
    | inl over ↦ rw over (finish_err moment limit_reached s (suc n) none)
    | inr room ↦ elim (Bool-cases (a.address =ᵇ options.address)) [
      | inr foreign ↦ rw (room, foreign) (finish_err moment foreign_contract s (suc n) none)
      | inl same ↦ elim (Bool-cases (is_deployment parse_json options a)) [
        | inr odd ↦ rw (room, same, odd) (finish_err moment _ s (suc n) none)
        | inl deploys ↦ elim (Bool-cases (is_contained a.identifiers options.identifier)) [
          | inl target ↦
              rw (room, same, deploys, target) (finish_err moment no_previous s (suc n) none)
          | inr other ↦
              rw (room, same, deploys, other)
                ([], (bytes_eq-to_eq _ _ same, deploys, other), ap suc zero_read)
        ]
      ]
    ]
  ]

  -- An action read by a scan that has read others.
  next_action_later :
      (moment : Moment) (s : Bool) (n : ℕ) (p a : HistoricalAction)
      → IsReading (some p) n
      → IsSound (next_action parse_json options moment (state none s (suc n) (some p)) a)
  unfolding next_action
  next_action_later moment s n p a (earlier, history, read) =
      elim (Bool-cases (ltb options.max_actions (suc n))) [
        | inl over ↦ rw over (finish_err moment limit_reached s (suc n) (some p))
        | inr room ↦ elim (Bool-cases (a.address =ᵇ options.address)) [
          | inr foreign ↦ rw (room, foreign) (finish_err moment foreign_contract s (suc n) (some p))
          | inl same ↦ elim (Bool-cases (ltb p.block_height a.block_height)) [
            | inr odd ↦ rw (room, same, odd) (finish_err moment _ s (suc n) (some p))
            | inl later ↦ elim (Bool-cases (is_contained a.identifiers options.identifier)) [
              | inl target ↦
                  rw (room, same, later, target)
                    (finish_ok moment _ s (suc n) (some p) (record {
                      earlier = earlier;
                      history = history;
                      same_contract = bytes_eq-to_eq _ _ same;
                      later = lower _ _ later;
                      is_target = target;
                      counted = ap suc read;
                      bounded = within _ _ room;
                    }))
              | inr other ↦
                  rw (room, same, later, other)
                    (
                      p ∷ earlier,
                      (bytes_eq-to_eq _ _ same, lower _ _ later, other, history),
                      ap suc read,
                    )
            ]
          ]
        ]
      ]

  next_action-IsSound :
      (moment : Moment) (s : Bool) (n : ℕ) (p : Option HistoricalAction) (a : HistoricalAction)
      → IsReading p n
      → IsSound (next_action parse_json options moment (state none s (suc n) p) a)
  next_action-IsSound moment s n none a reading = next_action_first moment s n a reading
  next_action-IsSound moment s n (some p) a reading = next_action_later moment s n p a reading

  react-IsSound :
      (moment : Moment) (s : Bool) (n : ℕ) (p : Option HistoricalAction)
      (r : Result HistoryError Reaction)
      → IsReading p n
      → IsSound (react parse_json options moment (state none s n p) r)
  unfolding react
  react-IsSound moment s n p (err e) reading = finish_err moment e s n p
  react-IsSound moment s n p (ok ignore) reading = reading
  react-IsSound moment s n p (ok pong) reading = elim (Bool-cases moment.sends) [
    | inl h ↦ rw h reading
    | inr h ↦ rw h (finish_err moment send_failed s n p)
  ]
  react-IsSound moment s n p (ok subscribe) reading = elim (Bool-cases moment.sends) [
    | inl h ↦ rw h reading
    | inr h ↦ rw h (finish_err moment send_failed true n p)
  ]
  react-IsSound moment s n p (ok (action a)) reading = next_action-IsSound moment s n p a reading

  -- A settled scan stays as it is.
  step-settled :
      (moment : Moment) (event : Event) (r : Result HistoryError FoundAction) (s : Bool) (n : ℕ)
      (p : Option HistoricalAction)
      → step parse_json options moment event (state (some r) s n p) ≡ state (some r) s n p
  unfolding step finish
  step-settled moment opened r s n p = ground arith
  step-settled moment failed r s n p = refl
  step-settled moment closed r s n p = refl
  step-settled moment aborted r s n p = refl
  step-settled moment timer r s n p = refl
  step-settled moment (message data_text) r s n p = refl

  step-reading :
      (moment : Moment) (event : Event) (s : Bool) (n : ℕ) (p : Option HistoricalAction)
      → IsReading p n
      → IsSound (step parse_json options moment event (state none s n p))
  unfolding step
  step-reading moment opened s n p reading = elim (Bool-cases moment.expired_at_start) [
    | inl h ↦ rw h (finish_err moment timed_out s n p)
    | inr h ↦ elim (Bool-cases moment.sends) [
      | inl g ↦ rw (h, g) reading
      | inr g ↦ rw (h, g) (finish_err moment initialization_failed s n p)
    ]
  ]
  step-reading moment failed s n p reading = finish_err moment _ s n p
  step-reading moment closed s n p reading = finish_err moment _ s n p
  step-reading moment aborted s n p reading = finish_err moment _ s n p
  step-reading moment timer s n p reading = finish_err moment _ s n p
  step-reading moment (message data_text) s n p reading =
      elim (Bool-cases moment.expired_at_start) [
        | inl h ↦ rw h (finish_err moment timed_out s n p)
        | inr h ↦ rw h (react-IsSound moment s n p (read_message parse_json s data_text) reading)
      ]

  step-IsSound :
      (moment : Moment) (event : Event) (o : Outcome) (s : Bool) (n : ℕ)
      (p : Option HistoricalAction)
      → IsSound (state o s n p)
      → IsSound (step parse_json options moment event (state o s n p))
  step-IsSound moment event none s n p sound = step-reading moment event s n p sound
  step-IsSound moment event (some r) s n p sound =
      subst IsSound (sym (step-settled moment event r s n p)) sound

  run-IsSound :
      (events : List (Moment × Event)) (st : State)
      → IsSound st
      → IsSound (run parse_json options events st)
  unfolding run
  run-IsSound [] st sound = sound
  run-IsSound ((moment, event) ∷ events) st sound =
      run-IsSound events (step parse_json options moment event st)
        (step-IsSound moment event st.settled st.subscribed st.count st.previous sound)

  -- Whatever events arrive in whatever order, a scan that succeeds gives out an action with the
  -- identifier asked for and the one before it, at the end of a history of that contract which begins
  -- with the deployment, has rising heights, is as long as was counted and within the limit.
  pub run-IsFound :
      (events : List (Moment × Event)) {f : FoundAction}
      → (run parse_json options events start).settled ≡ some (ok f)
      → IsFound f
  run-IsFound events {f} h =
      let st = run parse_json options events start in
      subst (λ o. IsSoundOf o st.previous st.count) h (run-IsSound events start refl)

  -- The first outcome of a scan stands.
  pub run-settled :
      (events : List (Moment × Event)) (st : State) {r : Result HistoryError FoundAction}
      → st.settled ≡ some r
      → run parse_json options events st ≡ st
  unfolding run
  run-settled [] st h = refl
  run-settled ((moment, event) ∷ events) st {r} h =
      let same : step parse_json options moment event st ≡ st =
        stays st.settled st.subscribed st.count st.previous h in
      rw same (run-settled events st h)
    where
      stays :
          (o : Outcome) (s : Bool) (n : ℕ) (p : Option HistoricalAction)
          → o ≡ some r
          → step parse_json options moment event (state o s n p) ≡ state o s n p
      stays none s n p e = cc
      stays (some q) s n p e = step-settled moment event q s n p
