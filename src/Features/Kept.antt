-- ===== src/Features/Kept.antt =====
-- What the operations of internal/features/store.go keep of each feature.
use apexaegis_management_pla.Prelude.{
  ◌≡◌, ◌≢◌, refl, sym, ap, ◌∙◌, ◌⊎◌, inl, inr, some, String, List, [], ◌∷◌, some-eq, Bool-cases,
  string_eq, ◌==◌, subst,
}
use apexaegis_management_pla.Dict
use apexaegis_management_pla.Dict.{get-put_self, get-put_ne}
use apexaegis_management_pla.Features.Cases.{toggle_cases, start_trial_cases}
use apexaegis_management_pla.Features.{
  Feature, Store, Rfc3339, left, toggled, on_trial, Operation, switch, begin_trial, perform, run,
}

-- `g` is `f` later: the catalogue's part is the same, and a trial that has begun has the same end.
pub record IsLater (f g : Feature) : Type 0 where
  pub id : g.id ≡ f.id
  pub min_plan : g.min_plan ≡ f.min_plan
  pub trial_days : g.trial_days ≡ f.trial_days
  pub trial_end : g.trial_end ≡ f.trial_end ⊎ ((f.trial_end ≡ "") × (f.trial_days ≢ 0))

pub IsLater-refl : (f : Feature) → IsLater f f
IsLater-refl f = record { id = refl; min_plan = refl; trial_days = refl; trial_end = inl refl }

pub IsLater-trans : (f g h : Feature) → IsLater f g → IsLater g h → IsLater f h
IsLater-trans f g h a b = record {
  id = b.id ∙ a.id;
  min_plan = b.min_plan ∙ a.min_plan;
  trial_days = b.trial_days ∙ a.trial_days;
  trial_end = elim a.trial_end [
    | inr began ↦ inr began
    | inl e ↦ elim b.trial_end [
      | inl d ↦ inl (d ∙ e)
      | inr (unused, offered) ↦ inr (sym e ∙ unused, λ z. offered (a.trial_days ∙ z))
    ]
  ];
}

-- Each feature of `s` is in `u`, later.
unfoldable pub Kept : Store → Store → Type 0
Kept s u =
    (id : String) (f : Feature)
    → Dict.get id s.features ≡ some f
    → (g : Feature) × (Dict.get id u.features ≡ some g) × IsLater f g

Kept-refl : (s : Store) → Kept s s
unfolding Kept
Kept-refl s id f e = (f, e, IsLater-refl f)

Kept-put :
    (s : Store) (k : String) (old new : Feature)
    → Dict.get k s.features ≡ some old
    → IsLater old new
    → Kept s (record s { features = Dict.put k new s.features })
unfolding Kept
Kept-put s k old new e later id f h = elim (Bool-cases (k == id)) [
  | inl hit ↦
      let q : k ≡ id = (string_eq.beq_iff k id).0 hit in
      let same : old ≡ f = some-eq (sym e ∙ ap (λ j. Dict.get j s.features) q ∙ h) in
      (
        new,
        ap (λ j. Dict.get j (Dict.put k new s.features)) (sym q) ∙ get-put_self k new s.features,
        subst (λ x. IsLater x new) same later,
      )
  | inr miss ↦
      let n : k ≢ id = λ q. cc ((string_eq.beq_iff k id).1 q, miss) in
      (f, get-put_ne k id new s.features n ∙ h, IsLater-refl f)
]

pub Kept-perform : (t : Rfc3339) (op : Operation) (s : Store) → Kept s (perform t op s)
unfolding perform
Kept-perform t (switch now id on plan actor) s =
    toggle_cases (λ o. Kept s (left o s)) (λ _. Kept-refl s) id s now on plan actor
      (λ f e _.
        Kept-put s id f (toggled now on actor f) e
          (record { id = refl; min_plan = refl; trial_days = refl; trial_end = inl refl }))
Kept-perform t (begin_trial now later id actor) s =
    start_trial_cases (λ o. Kept s (left o s)) (λ _. Kept-refl s) id s t now later actor
      (λ f e offered unused. Kept-put s id f (on_trial t now later actor f) e (record {
        id = refl;
        min_plan = refl;
        trial_days = refl;
        trial_end = inr (unused, offered);
      }))

-- Whatever operations follow, every feature stays in the store with its plan and its trial days, and
-- a trial that has begun keeps its end: it begins once at most, and only if the feature offers one.
pub run-IsLater :
    (t : Rfc3339) (ops : List Operation) (s : Store) (id : String) (f : Feature)
    → Dict.get id s.features ≡ some f
    → (g : Feature) × (Dict.get id (run t ops s).features ≡ some g) × IsLater f g
unfolding run Kept
run-IsLater t [] s id f e = (f, e, IsLater-refl f)
run-IsLater t (op ∷ ops) s id f e =
    let (g, there, first) = Kept-perform t op s id f e in
    let (h, last, second) = run-IsLater t ops (perform t op s) id g there in
    (h, last, IsLater-trans f g h first second)
