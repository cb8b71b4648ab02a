-- ===== src/Features/Tests.antt =====
-- The feature store of internal/features/store.go on its catalogue, and the theorems at those inputs.
use apexaegis_management_pla.Prelude.{
  ℕ, ◌*◌, ◌≡◌, ◌≢◌, refl, true, false, some, List, [], ◌∷◌, string_eq, arith,
}
use apexaegis_management_pla.Dict
use apexaegis_management_pla.Features.{
  Feature, Store, Rfc3339, Operation, switch, begin_trial, new_store, run, perform, start_trial,
  is_enabled, default_features, day,
}
use apexaegis_management_pla.Features.Licence.{IsLicensed, run-IsLicensed}
use apexaegis_management_pla.Features.Expired.{expired-stays_off}

-- Two texts for times: the first second, and all later ones.
abbrev clock : Rfc3339
clock = record { format = λ n. "later"; parse = λ s. some (14 * day) }

abbrev sandboxing : Feature
sandboxing = record {
  id = "sandboxing";
  name = "AegisSandbox";
  category = "Threat Protection";
  description = "Cloud-based sandbox detonation for zero-day threats";
  enabled = false;
  min_plan = "enterprise";
  trial_days = 14;
  trial_end = "";
  updated_by = "system";
  updated_at = 0;
}

abbrev initial : Store
initial = record { features = Dict.put "sandboxing" sandboxing Dict.empty }

abbrev on_trial : Store
on_trial = run clock (begin_trial 0 0 "sandboxing" "admin" ∷ []) initial

-- The feature on trial.
abbrev tried : Feature
tried = record sandboxing { enabled = true; trial_end = "later"; updated_by = "admin" }

tried_stored : Dict.get "sandboxing" on_trial.features ≡ some tried
unfolding run perform start_trial Dict.get Dict.put Dict.empty
tried_stored = refl

catalogue_test : Dict.get "sandboxing" (new_store (λ f. 0)).features ≡ some sandboxing
unfolding new_store default_features Dict.get Dict.put Dict.empty
catalogue_test = refl

abbrev upgrade : List Operation
upgrade = switch (20 * day) "sandboxing" true "enterprise" "admin" ∷ []

later_set : (time : ℕ) → clock.format time ≢ ""
later_set time h = cc h

expired-stays_off_example :
    is_enabled clock (21 * day) "sandboxing" (run clock upgrade on_trial) ≡ false
expired-stays_off_example =
    expired-stays_off clock upgrade on_trial "sandboxing" tried (14 * day) (21 * day) tried_stored
      (λ h. cc h) refl (omega arith)

run-IsLicensed_example :
    IsLicensed initial (begin_trial 0 0 "sandboxing" "admin" ∷ []) "sandboxing" tried
run-IsLicensed_example =
    run-IsLicensed clock later_set (begin_trial 0 0 "sandboxing" "admin" ∷ []) initial "sandboxing"
      tried tried_stored refl
