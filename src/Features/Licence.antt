-- ===== src/Features/Licence.antt =====
-- What has turned a feature of internal/features/store.go on.
use apexaegis_management_pla.Prelude.{
  ℕ, ◌≡◌, ◌≢◌, ◌≤◌, inl, inr, refl, sym, ap, ◌∙◌, subst, Bool, true, some, String, List, [], ◌∷◌,
  string_eq, In, some-eq,
}
use apexaegis_management_pla.Dict
use apexaegis_management_pla.Dict.{get-put_cases}
use apexaegis_management_pla.Features.{
  Feature, Store, Rfc3339, Outcome, Operation, switch, begin_trial, perform, run, left, toggled,
  on_trial, plan_rank,
}
use apexaegis_management_pla.Features.Cases.{toggle_cases, start_trial_cases}
use apexaegis_management_pla.Features.Kept.{IsLater, run-IsLater}

-- The operation enables the feature under a plan that includes it.
pub data Enables (id min_plan : String) : Operation → Type 0 where
  enables :
      {now : ℕ} {plan actor : String}
      → plan_rank min_plan ≤ plan_rank plan
      → Enables id min_plan (switch now id true plan actor)

-- Why `g` is on: it was on before, it is or was on trial, or some operation has enabled it.
pub data IsLicensed (s : Store) (ops : List Operation) (id : String) (g : Feature) : Type 0 where
  before :
      (f : Feature) → Dict.get id s.features ≡ some f → f.enabled ≡ true → IsLicensed s ops id g
  trial : g.trial_end ≢ "" → IsLicensed s ops id g
  bought : (op : Operation) → In op ops → Enables id g.min_plan op → IsLicensed s ops id g

Enables-by :
    (now : ℕ) (id key min_plan plan actor : String) (on : Bool)
    → key ≡ id
    → on ≡ true
    → plan_rank min_plan ≤ plan_rank plan
    → Enables id min_plan (switch now key on plan actor)
Enables-by now id key min_plan plan actor on k o h = rw (k, o) (enables h)

perform-IsLicensed :
    (t : Rfc3339)
    → ((time : ℕ) → t.format time ≢ "")
    → (op : Operation) (s : Store) (id : String) (g : Feature)
    → Dict.get id (perform t op s).features ≡ some g
    → g.enabled ≡ true
    → IsLicensed s (op ∷ []) id g
unfolding perform
perform-IsLicensed t format_lem (switch now key on org_plan actor) s id g =
    let P = λ (o : Outcome).
      Dict.get id (left o s).features ≡ some g
      → g.enabled ≡ true
      → IsLicensed s (switch now key on org_plan actor ∷ []) id g in
    toggle_cases P (λ _. before g) key s now on org_plan actor
      (λ f e allowed there enabled.
        elim (get-put_cases key id (toggled now on actor f) g s.features there) [
          | inr (_, same) ↦ before g same enabled
          | inl (k, q) ↦
              let h : on ≡ true = ap (λ (x : Feature). x.enabled) q ∙ enabled in
              bought (switch now key on org_plan actor) (inl refl) (
                Enables-by now id key g.min_plan org_plan actor on k h (
                  subst (λ (x : Feature). plan_rank x.min_plan ≤ plan_rank org_plan) q (allowed h)))
        ])
perform-IsLicensed t format_lem (begin_trial now later key actor) s id g =
    let P = λ (o : Outcome).
      Dict.get id (left o s).features ≡ some g
      → g.enabled ≡ true
      → IsLicensed s (begin_trial now later key actor ∷ []) id g in
    start_trial_cases P (λ _. before g) key s t now later actor
      (λ f e offered unused there enabled.
        elim (get-put_cases key id (on_trial t now later actor f) g s.features there) [
          | inr (_, same) ↦ before g same enabled
          | inl (k, q) ↦ trial (subst (λ (x : Feature). x.trial_end ≢ "") q (format_lem _))
        ])

-- A licence for an earlier state of the feature is one for a later state.
IsLicensed-later :
    (s : Store) (op : Operation) (ops : List Operation) (id : String) (f g : Feature)
    → IsLater f g
    → IsLicensed s (op ∷ []) id f
    → IsLicensed s (op ∷ ops) id g
IsLicensed-later s op ops id f g later (before h e on) = before h e on
IsLicensed-later s op ops id f g later (trial n) = trial (elim later.trial_end [
  | inl same ↦ λ e. n (sym same ∙ e)
  | inr (unused, _) ↦ absurd (n unused)
])
IsLicensed-later s op ops id f g later (bought o (inl e) enabled) =
    bought o (inl e) (subst (λ m. Enables id m o) (sym later.min_plan) enabled)
IsLicensed-later s op ops id f g later (bought o (inr i) enabled) = elim i [ ]

-- After any operations a feature is on only if it was on before them, has been put on trial, or one of
-- them has enabled it under a plan that ranks at least as high as the feature's own.
pub run-IsLicensed :
    (t : Rfc3339)
    → ((time : ℕ) → t.format time ≢ "")
    → (ops : List Operation) (s : Store) (id : String) (g : Feature)
    → Dict.get id (run t ops s).features ≡ some g
    → g.enabled ≡ true
    → IsLicensed s ops id g
unfolding run
run-IsLicensed t format_lem [] s id g there on = before g there on
run-IsLicensed t format_lem (op ∷ ops) s id g there on =
    elim (run-IsLicensed t format_lem ops (perform t op s) id g there on) [
      | trial n ↦ trial n
      | bought o i enabled ↦ bought o (inr i) enabled
      | before f e was_on ↦
          let (h, last, later) = run-IsLater t ops (perform t op s) id f e in
          IsLicensed-later s op ops id f g (subst (IsLater f) (some-eq (sym last ∙ there)) later)
            (perform-IsLicensed t format_lem op s id f e was_on)
    ]
