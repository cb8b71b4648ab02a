-- ===== src/Features/Cases.antt =====
-- How Toggle and StartTrial of internal/features/store.go end.
use apexaegis_management_pla.Prelude.{
  ℕ, ◌≡◌, ◌≢◌, ◌≤◌, Bool, true, false, not, ◌&&◌, some, String, ltb, eqb, if_cases, option_cases,
  string_eq, ◌==◌, arith,
}
use apexaegis_management_pla.Dict
use apexaegis_management_pla.Features.{
  Feature, Store, Rfc3339, Error, not_found, plan_required, no_trial, trial_used, Outcome, err,
  stored, toggled, on_trial, toggle, start_trial, plan_rank,
}

-- A plan allows what it does not forbid.
within_plan : (on : Bool) (a b : ℕ) → (on && ltb a b) ≡ false → on ≡ true → b ≤ a
within_plan true a b h e = ground arith
within_plan false a b h e = absurd (cc e)

not-false : (b : Bool) → not b ≡ false → b ≡ true
not-false b h = ground arith

module _ {ℓ} (P : Outcome → Type ℓ) (failed : (e : Error) → P (err e)) (id : String)
    (s : Store) where
  pub toggle_cases :
      (now : ℕ) (on : Bool) (plan actor : String)
      → ((f : Feature)
          → Dict.get id s.features ≡ some f
          → (on ≡ true → plan_rank f.min_plan ≤ plan_rank plan)
          → P (stored id (toggled now on actor f) s))
      → P (toggle now id on plan actor s)
  unfolding toggle
  toggle_cases now on plan actor done =
      option_cases P (Dict.get id s.features) _ _ (λ _. failed (not_found id))
        (λ f e.
          if_cases P (on && ltb (plan_rank plan) (plan_rank f.min_plan)) _ _
            (λ _. failed (plan_required f.name f.min_plan plan))
            (λ h. done f e (within_plan on (plan_rank plan) (plan_rank f.min_plan) h)))

  pub start_trial_cases :
      (t : Rfc3339) (now later : ℕ) (actor : String)
      → ((f : Feature)
          → Dict.get id s.features ≡ some f
          → f.trial_days ≢ 0
          → f.trial_end ≡ ""
          → P (stored id (on_trial t now later actor f) s))
      → P (start_trial t now later id actor s)
  unfolding start_trial
  start_trial_cases t now later actor done =
      option_cases P (Dict.get id s.features) _ _ (λ _. failed (not_found id))
        (λ f e.
          if_cases P (eqb f.trial_days 0) _ _ (λ _. failed (no_trial f.name))
            (λ offered.
              if_cases P (not (f.trial_end == "")) _ _ (λ _. failed (trial_used f.name))
                (λ unused.
                  done f e (λ z. ground arith)
                    ((string_eq.beq_iff f.trial_end "").0 (not-false (f.trial_end == "") unused)))))
