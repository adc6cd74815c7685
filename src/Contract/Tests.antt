-- ===== src/Contract/Tests.antt =====
-- The theorems on vulnseal.compact at the concrete contract of Contract/Sample.antt.
use vulnseal.Prelude.{
  ◌+◌, ◌≡◌, refl, ◌⊎◌, inr, true, some, arith, Bytes, lookup, insert, ok, err, ◌=ᵇ◌, member,
}
use vulnseal.Contract.Types.{pad32, ReportRecord, Ledger, wrong_status, not_owner, closed}
use vulnseal.Contract.Witnesses.{PrivateState}
use vulnseal.Contract.Circuits
use vulnseal.Contract.Circuits.{
  ProgramArgs, initialize, derive_vendor_key, derive_report_commitment, derive_researcher_key,
  derive_submission_receipt, derive_patch_commitment, derive_retest_commitment,
  derive_payout_receipt,
}
use vulnseal.Contract.Effects.{stored}
use vulnseal.Contract.Calls.{
  submit_report, begin_triage, run, Reach, here, next, Deployed, fresh_record, Transition,
}
use vulnseal.Contract.Lifecycle.{
  IsPrepared, patch_of, retest_of, receipt_of, journey_calls, play, journey_ends, record_1,
  ledger_1, ledger_2, ledger_4, ledger_5, ledger_7, record_7, step_1, step_2, step_3, step_4,
  step_5, step_6, step_7,
}
use vulnseal.Contract.Refinement.{Authorized, run_sound}
use vulnseal.Contract.Invariant.{IsLedger, Deployed-IsLedger}
use vulnseal.Contract.History.{Continues, SameVerdict, steps, submission_stands, verdict_stands}
use vulnseal.Contract.Authority.{
  SameProgram, Collision, SamePreimage, program_is_fixed, only_the_deployer_decides,
  only_the_submitter_retests,
}
use vulnseal.Contract.Sample.{toy, bytes, args, id, vendor, researcher, start, journey}

hashes : Unit {0}
unfolding derive_vendor_key derive_report_commitment derive_researcher_key derive_submission_receipt
    derive_patch_commitment derive_retest_commitment derive_payout_receipt pad32 lookup insert ◌=ᵇ◌
hashes = tt

start-deployed : initialize toy args vendor ≡ ok start
unfolding initialize hashes
start-deployed = refl

journey-IsPrepared : IsPrepared journey
unfolding hashes
journey-IsPrepared = record {
  opens = (refl, refl, refl, refl, refl);
  known = refl;
  absent = refl;
  owner = (refl, refl);
  severity_low = omega arith;
  severity_high = omega arith;
  tier_low = omega arith;
  tier_high = omega arith;
  patched = refl;
  patch_length = refl;
  same_secret = refl;
  same_report = refl;
  retested = refl;
  retest_patch = refl;
  evidence_length = refl;
  unused = refl;
  fits = omega arith;
}

-- The history of the whole journey, from its seven steps.
history : Reach toy start (ledger_7 journey)
history =
    let v = journey-IsPrepared in
    next _ vendor
      (next _ vendor
        (next _ researcher
          (next _ vendor
            (next _ vendor
              (next _ vendor (next _ researcher here (step_1 journey v)) (step_2 journey v))
              (step_3 journey v))
            (step_4 journey v))
          (step_5 journey v))
        (step_6 journey v))
      (step_7 journey v)

deployed : Deployed toy (ledger_7 journey)
deployed = record {
  args = args;
  deployer = vendor;
  first = start;
  deployed = start-deployed;
  since = history;
}

-- A second close of a closed report, and a vendor's transaction by the researcher, are refused.
refusals :
    (run toy (begin_triage id) vendor (ledger_7 journey) ≡ err wrong_status)
    × (run toy (begin_triage id) researcher (ledger_1 journey) ≡ err not_owner)
unfolding run hashes Circuits.begin_triage
refusals = (refl, refl)

run_sound_example :
    Authorized toy (submit_report (bytes 60)) researcher start
    × Transition toy start (ledger_1 journey)
run_sound_example =
    run_sound toy (submit_report (bytes 60)) researcher start (ledger_1 journey)
      (step_1 journey journey-IsPrepared)

Deployed-IsLedger_example : IsLedger toy (ledger_7 journey)
Deployed-IsLedger_example = Deployed-IsLedger toy (ledger_7 journey) deployed

first_found : lookup id (ledger_1 journey).reports ≡ some (record_1 journey)
unfolding hashes
first_found = refl

last_found : lookup id (ledger_7 journey).reports ≡ some (record_7 journey)
unfolding hashes
last_found = refl

later : Reach toy (ledger_1 journey) (ledger_2 journey)
later = next _ vendor here (step_2 journey journey-IsPrepared)

submission_stands_example :
    (r : ReportRecord) × (lookup id (ledger_2 journey).reports ≡ some r)
    × Continues (record_1 journey) r
submission_stands_example =
    submission_stands toy (ledger_1 journey) (ledger_2 journey) id (record_1 journey) later
      first_found

-- One more report after the journey: the researcher's, with another salt.
abbrev other : PrivateState
other = record researcher {
  report = record { program_id = bytes 1; canonical_digest = bytes 30; salt = bytes 77 };
}

abbrev other_id : Bytes
other_id = derive_report_commitment toy (bytes 1) (bytes 30) (bytes 77)

abbrev ledger_8 : Ledger
ledger_8 =
    stored other_id
      (fresh_record toy other_id (bytes 62)
        (derive_researcher_key toy (bytes 1) other_id (bytes 21)) 8)
      (ledger_7 journey)

step_8 : run toy (submit_report (bytes 62)) other (ledger_7 journey) ≡ ok ledger_8
unfolding run hashes Circuits.submit_report
step_8 = refl

afterwards : Reach toy (ledger_7 journey) ledger_8
afterwards = next _ other here step_8

verdict_stands_example :
    (r : ReportRecord) × (lookup id ledger_8.reports ≡ some r) × SameVerdict (record_7 journey) r
verdict_stands_example =
    verdict_stands toy (ledger_7 journey) ledger_8 id (record_7 journey) afterwards last_found
      (inr (inr refl))

program_is_fixed_example :
    SameProgram start (ledger_7 journey)
    × ((ledger_7 journey).sequence ≡ start.sequence + steps history)
program_is_fixed_example = program_is_fixed toy start (ledger_7 journey) history

only_the_deployer_decides_example : (vendor.actor_secret ≡ vendor.actor_secret) ⊎ Collision toy
only_the_deployer_decides_example =
    only_the_deployer_decides toy args vendor vendor start (ledger_1 journey) (ledger_2 journey)
      (begin_triage id) start-deployed (next _ researcher here (step_1 journey journey-IsPrepared))
      tt (step_2 journey journey-IsPrepared)

to_retest : Reach toy (ledger_1 journey) (ledger_4 journey)
to_retest =
    let v = journey-IsPrepared in
    next _ vendor (next _ vendor (next _ vendor here (step_2 journey v)) (step_3 journey v))
      (step_4 journey v)

submitted : Circuits.submit_report toy (bytes 60) researcher start ≡ ok (id, ledger_1 journey)
unfolding hashes Circuits.submit_report
submitted = refl

retested :
    Circuits.submit_retest toy id true researcher (ledger_4 journey)
    ≡ ok (retest_of journey, ledger_5 journey)
unfolding hashes Circuits.submit_retest
retested = refl

only_the_submitter_retests_example :
    ((researcher.actor_secret ≡ researcher.actor_secret) × SamePreimage researcher researcher)
    ⊎ Collision toy
only_the_submitter_retests_example =
    only_the_submitter_retests toy researcher researcher start (ledger_1 journey) (ledger_4 journey)
      (ledger_5 journey) id (bytes 60) (retest_of journey) true submitted to_retest retested

journey_ends_example :
    (m : Ledger) × (r : ReportRecord) × (play toy (journey_calls journey) start ≡ ok m)
    × (lookup id m.reports ≡ some r)
    × (r.status ≡ closed)
    × (r.severity ≡ 4)
    × (r.patch_commitment ≡ patch_of journey)
    × (r.retest_commitment ≡ retest_of journey)
    × (r.retest_flag ≡ true)
    × (r.reward_tier ≡ 3)
    × (r.payout_receipt ≡ receipt_of journey)
    × (member (receipt_of journey) m.payout_receipts ≡ true)
    × (m.sequence ≡ start.sequence + 7)
journey_ends_example = journey_ends journey journey-IsPrepared
