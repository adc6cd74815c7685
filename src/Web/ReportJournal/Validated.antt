-- ===== src/Web/ReportJournal/Validated.antt =====
-- web/src/report-journal.ts: what a journal that was accepted is.
use vulnseal.Prelude.{
  ◌+◌, ◌≤◌, ◌≡◌, ◌≢◌, refl, sym, ap, arith, Bool, true, false, ◌&&◌, ◌||◌, Option, none, some, List,
  [], ◌∷◌, ◌++◌, Bytes, All, any, length, leb, ◌=ᵇ◌, ok, >>=-ok, guard-ok, ok-injective,
  bytes_eq_iff,
}
use mathlib.Core.Path.{subst}
use vulnseal.Shared.Hex.{Text}
use vulnseal.Shared.Json.{Json, Items, item, no_items}
use vulnseal.Web.ReportJournal.{
  unknown, ReportAttempt, max_report_attempts, RecoverySnapshot, invalid_journal, read_attempt,
  add_identifier, is_last, read_attempts, count, has_address, items_of, validate_report_journal,
}
use vulnseal.Web.ReportJournal.Entries.{IsAttempt, Read, read_attempt-ok}

abbrev pub identified : Option Text → List Text → List Text
identified none rest = rest
identified (some t) rest = t ∷ rest

-- The identifiers of a journal, in its order.
unfoldable pub identifiers : List ReportAttempt → List Text
identifiers [] = []
identifiers (a ∷ more) = identified a.transaction_id (identifiers more)

abbrev pub Unique : List Text → Type 0
Unique [] = Unit {0}
Unique (t ∷ ts) = All (λ u. u ≢ t) ts × Unique ts

-- Only the last attempt may be of unknown outcome.
abbrev pub Resolved : List ReportAttempt → Type 0
Resolved [] = Unit {0}
Resolved (a ∷ more) = (a.outcome ≡ unknown → more ≡ []) × Resolved more

pub record IsJournal (snapshot : RecoverySnapshot) (more : List ReportAttempt) : Type 0 where
  pub attempts : All (IsAttempt snapshot) more
  pub distinct : Unique (identifiers more)
  pub resolved : Resolved more

Fresh : List Text → List Text → Type 0
Fresh seen = All (λ t. any (λ i. i =ᵇ t) seen ≡ false)

any-append :
    (t d : Text) (seen : List Text)
    → any (λ i. i =ᵇ t) (seen ++ d ∷ []) ≡ (any (λ i. i =ᵇ t) seen || (d =ᵇ t))
any-append t d [] = ground arith
any-append t d (s ∷ seen) = ground (arith, any-append t d seen)

later :
    (d : Text) (seen ts : List Text)
    → Fresh (seen ++ d ∷ []) ts
    → Fresh seen ts × All (λ u. u ≢ d) ts
unfolding Fresh
later d seen [] f = (tt, tt)
later d seen (t ∷ ts) (f, fs) =
    let (before, apart) = later d seen ts fs in
    (
      (ground (arith, f, any-append t d seen), before),
      (ground (arith, f, any-append t d seen, bytes_eq_iff d t), apart),
    )

module _ (utf8 : Text → Bytes) (is_timestamp : Text → Bool) where
  add_fresh :
      (o : Option Text) (seen ts : List Text)
      → ((t : Text) → o ≡ some t → any (λ i. i =ᵇ t) seen ≡ false)
      → Fresh (add_identifier utf8 is_timestamp o seen) ts
      → Unique ts
      → Unique (identified o ts) × Fresh seen (identified o ts)
  unfolding Fresh
  add_fresh none seen ts new f u = (u, f)
  add_fresh (some t) seen ts new f u =
      let (before, apart) = later t seen ts f in ((apart, u), (new t refl, before))

  read_attempts-ok :
      (snapshot : RecoverySnapshot) (seen : List Text) (items : Items) {more : List ReportAttempt}
      → read_attempts utf8 is_timestamp snapshot seen items ≡ ok more
      → IsJournal snapshot more
        × Fresh seen (identifiers more)
        × (is_last utf8 is_timestamp items ≡ true → more ≡ [])
  unfolding read_attempts identifiers Fresh Read
  read_attempts-ok snapshot seen no_items h =
      subst
        (λ more.
          IsJournal snapshot more × Fresh seen (identifiers more) × (true ≡ true → more ≡ []))
        (ok-injective h) (record { attempts = tt; distinct = tt; resolved = tt }, tt, λ e. refl)
  read_attempts-ok snapshot seen (item value rest) h =
      >>=-ok (read_attempt utf8 is_timestamp snapshot seen (is_last utf8 is_timestamp rest) value) _
        h
        λ a e₁ h₁.
          >>=-ok
            (read_attempts utf8 is_timestamp snapshot
              (add_identifier utf8 is_timestamp a.transaction_id seen) rest)
            _ h₁
            λ more e₂ h₂.
              let (entry, new, last) =
                read_attempt-ok utf8 is_timestamp snapshot seen (is_last utf8 is_timestamp rest)
                  value e₁ in
              let (journal, fresh, none_left) =
                read_attempts-ok snapshot (add_identifier utf8 is_timestamp a.transaction_id seen)
                  rest e₂ in
              let (unique, before) =
                add_fresh a.transaction_id seen (identifiers more) new fresh journal.distinct in
              subst
                (λ more.
                  IsJournal snapshot more
                  × Fresh seen (identifiers more)
                  × (false ≡ true → more ≡ []))
                (ok-injective h₂)
                (
                  record {
                    attempts = (entry, journal.attempts);
                    distinct = unique;
                    resolved = (λ e. none_left (last e), journal.resolved);
                  },
                  before,
                  λ e. cc,
                )

  length-read_attempts :
      (snapshot : RecoverySnapshot) (seen : List Text) (items : Items) {more : List ReportAttempt}
      → read_attempts utf8 is_timestamp snapshot seen items ≡ ok more
      → length more ≡ count utf8 is_timestamp items
  unfolding read_attempts
  length-read_attempts snapshot seen no_items h = ap length (sym (ok-injective h))
  length-read_attempts snapshot seen (item value rest) h =
      >>=-ok (read_attempt utf8 is_timestamp snapshot seen (is_last utf8 is_timestamp rest) value) _
        h
        λ a e₁ h₁.
          >>=-ok
            (read_attempts utf8 is_timestamp snapshot
              (add_identifier utf8 is_timestamp a.transaction_id seen) rest)
            _ h₁
            λ more e₂ h₂.
              subst (λ more. length more ≡ 1 + count utf8 is_timestamp rest) (ok-injective h₂)
                (omega (
                  arith,
                  length-read_attempts snapshot
                      (add_identifier utf8 is_timestamp a.transaction_id seen) rest e₂,
                ))

  -- A journal that is accepted has 1 to 1000 attempts. Each leads to a status of its circuit and has a
  -- severity of 1 to 4; a confirmed one has its identifier, and no identifier stands twice; and only
  -- the last may be of unknown outcome, where the snapshot has the pending report of its submission
  -- or is uncertain of its circuit on its report.
  pub validate_report_journal-IsJournal :
      (value : Json) (snapshot : RecoverySnapshot) {more : List ReportAttempt}
      → validate_report_journal utf8 is_timestamp value snapshot ≡ ok more
      → IsJournal snapshot more × (1 ≤ length more) × (length more ≤ 1000)
  unfolding validate_report_journal
  validate_report_journal-IsJournal value snapshot h =
      >>=-ok (items_of utf8 is_timestamp value) _ h λ items e₁ h₁.
        guard-ok
          (leb 1 (count utf8 is_timestamp items)
            && leb (count utf8 is_timestamp items) max_report_attempts)
          invalid_journal _ h₁
          λ sized h₂.
            guard-ok (snapshot.midnight && has_address utf8 is_timestamp snapshot.contract_address)
              invalid_journal _ h₂
              λ e₃ h₃.
                let n = length-read_attempts snapshot [] items h₃ in
                (
                  (read_attempts-ok snapshot [] items h₃).0,
                  ground (arith, sized, n),
                  ground (arith, sized, n),
                )
