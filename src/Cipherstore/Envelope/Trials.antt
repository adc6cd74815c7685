-- ===== src/Cipherstore/Envelope/Trials.antt =====
-- The server takes an envelope that the client of Shared/Trials.antt has sealed.
use vulnseal.Prelude.{◌≡◌, refl, none, some, [], ◌∷◌, ok}
use vulnseal.Contract.Types.{ascii}
use vulnseal.Shared.Sample.{toy, toy_laws}
use vulnseal.Shared.Trials.{report, seals}
use vulnseal.Cipherstore.Envelope.{validate_envelope}
use vulnseal.Cipherstore.Envelope.Accepted.{validate_envelope-seal_report}

validate_envelope-seal_report_example :
    validate_envelope (λ m. some m) toy.parse_json (2 ∷ []) ≡ ok tt
validate_envelope-seal_report_example =
    validate_envelope-seal_report (λ m. some m) toy toy_laws report (ascii "p") none none
      (λ given e. cc) seals refl refl
