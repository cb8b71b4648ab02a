-- ===== src/Features/Expired.antt =====
-- When IsEnabled of internal/features/store.go turns a feature off for good.
use apexaegis_management_pla.Prelude.{
  ℕ, ◌≡◌, ◌≢◌, ◌<◌, refl, sym, ◌∙◌, inl, inr, Bool, true, false, not, some, String, List, ltb,
  if_cases, Bool-cases, string_eq, ◌==◌, arith,
}
use apexaegis_management_pla.Dict
use apexaegis_management_pla.Features.{
  Feature, Store, Rfc3339, Operation, run, is_over, is_active, is_enabled,
}
use apexaegis_management_pla.Features.Kept.{run-IsLater}

is_active-over :
    (t : Rfc3339) (now : ℕ) (f : Feature)
    → f.trial_end ≢ ""
    → is_over now (t.parse f.trial_end) ≡ true
    → is_active t now f ≡ false
is_active-over t now f begun over =
    let set : (f.trial_end == "") ≡ false = elim (Bool-cases (f.trial_end == "")) [
      | inl e ↦ absurd (begun ((string_eq.beq_iff f.trial_end "").0 e))
      | inr e ↦ e
    ] in
    if_cases (λ (b : Bool). b ≡ false) (not f.enabled) false _ (λ _. refl)
      (λ _. rw (set, over) refl)

-- A feature whose trial has ended stays off, whatever operations follow: neither a second trial nor
-- enabling it under any plan, one that includes the feature as well, turns it on again.
pub expired-stays_off :
    (t : Rfc3339) (ops : List Operation) (s : Store) (id : String) (f : Feature) (end now : ℕ)
    → Dict.get id s.features ≡ some f
    → f.trial_end ≢ ""
    → t.parse f.trial_end ≡ some end
    → end < now
    → is_enabled t now id (run t ops s) ≡ false
unfolding is_enabled
expired-stays_off t ops s id f end now e begun parsed past =
    let (g, there, later) = run-IsLater t ops s id f e in
    let same : g.trial_end ≡ f.trial_end = elim later.trial_end [
      | inl q ↦ q
      | inr (unused, _) ↦ absurd (begun unused)
    ] in
    let over : ltb end now ≡ true = ground arith in
    rw (is_enabled, there)
      (is_active-over t now g (λ z. begun (sym same ∙ z)) (rw (same, parsed) over))
