-- ===== src/Api/VulnSealApi/Trials.antt =====
-- Two callers of one provider, the second of which comes while the first is calling the contract.
use vulnseal.Prelude.{ℕ, ◌≡◌, refl, none, some, [], ◌∷◌}
use vulnseal.Api.VulnSealApi.{
  waiting, installing, invoking, released, Caller, Provider, caller, set_phase, may_go, enter,
  release, enters, goes, installs, returns, Reachable, starts, follows,
}
use vulnseal.Api.VulnSealApi.Queue.{caller-installed}

abbrev first : Caller ℕ
first = record { snapshot = 7; awaits = none; phase = waiting }

abbrev second : Caller ℕ
second = record { snapshot = 9; awaits = some 0; phase = waiting }

-- The first caller calls the contract when the second comes; it returns, and the second installs.
abbrev calling : Provider ℕ
calling = record {
  callers = record first { phase = invoking } ∷ [];
  queued = some 0;
  installed = some 7;
}

abbrev second_calling : Provider ℕ
second_calling = record {
  callers = record second { phase = invoking } ∷ record first { phase = released } ∷ [];
  queued = some 1;
  installed = some 9;
}

calling-Reachable : Reachable calling
unfolding enter caller set_phase may_go
calling-Reachable =
    follows (follows (follows (starts none) (enters 7 _)) (goes 0 first _ refl refl refl))
      (installs 0 (record first { phase = installing }) _ refl refl)

second_calling-Reachable : Reachable second_calling
unfolding enter release caller set_phase may_go
second_calling-Reachable =
    follows
      (follows
        (follows (follows calling-Reachable (enters 9 calling))
          (returns 0 (record first { phase = invoking }) _ refl refl))
        (goes 1 second _ refl refl refl))
      (installs 1 (record second { phase = installing }) _ refl refl)

caller-installed_example : second_calling.installed ≡ some 9
unfolding caller
caller-installed_example =
    caller-installed 1 (record second { phase = invoking }) second_calling-Reachable refl refl
