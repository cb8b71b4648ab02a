-- ===== src/Policy/Diff.antt =====
-- Diff of internal/policy/store.go.
use apexaegis_management_pla.Prelude.{
  ℕ, ◌≡◌, ◌≢◌, ◌↔◌, ◌⊎◌, inl, inr, refl, sym, ap, ◌∙◌, Option, none, some, String, List, [], ◌∷◌,
  eqb, if◌then◌else◌, ◌==◌, string_eq, In, Option-cases, Bool-cases, some-eq, if_cases,
}
use apexaegis_management_pla.Dict
use apexaegis_management_pla.Dict.{Dict, In-items, get-empty, get-put_self, get-put_ne}
use apexaegis_management_pla.Policy.{SecurityPolicy, ConfigVersion, Store, Runtime, snapshot_map}
use apexaegis_management_pla.Policy.Revert.{IsRuntime}

-- A loop whose body changes a map.
abbrev pub each {ℓ κ} : {A : Type ℓ} {M : Type κ} → (A → M → M) → List A → M → M
each body [] m = m
each body (x ∷ l) m = each body l (body x m)

-- The version with a number that the loop of Diff keeps: it has no `break`, so the last one.
unfoldable pub find_last : ℕ → List ConfigVersion → Option ConfigVersion
find_last v [] = none
find_last v (cv ∷ rest) = elim (find_last v rest) [
  | some w ↦ some w
  | none ↦ if eqb cv.version v then some cv else none
]

abbrev pub Policies : Type 0
Policies = Dict String SecurityPolicy

abbrev pub Changes : Type 0
Changes = Dict String String

abbrev pub when_missing : Option SecurityPolicy → String → Changes → Changes
when_missing none id m = Dict.put id "added" m
when_missing (some p) id m = m

abbrev pub mark_added : Policies → String × SecurityPolicy → Changes → Changes
mark_added from (id, p) m = when_missing (Dict.get id from) id m

abbrev pub compare : Runtime → SecurityPolicy → Option SecurityPolicy → String → Changes → Changes
compare rt fp none id m = Dict.put id "removed" m
compare rt fp (some tp) id m = if rt.same_json fp tp then m else Dict.put id "modified" m

abbrev pub mark_changed : Runtime → Policies → String × SecurityPolicy → Changes → Changes
mark_changed rt to (id, fp) m = compare rt fp (Dict.get id to) id m

unfoldable pub changes : Runtime → Policies → Policies → Changes
changes rt from to =
    each (mark_changed rt to) (rt.order (Dict.items from))
      (each (mark_added from) (rt.order (Dict.items to)) Dict.empty)

unfoldable pub diff : Runtime → ℕ → ℕ → Store → Option Changes
unfolding find_last changes
diff rt from_version to_version s = elim (find_last from_version s.versions) [
  | none ↦ none
  | some f ↦ elim (find_last to_version s.versions) [
    | none ↦ none
    | some t ↦
        some (changes rt (snapshot_map f.policies Dict.empty) (snapshot_map t.policies Dict.empty))
  ]
]

-- What a policy's change is called, by what the two versions have of it.
abbrev pub change_of : Runtime → Option SecurityPolicy → Option SecurityPolicy → Option String
change_of rt none none = none
change_of rt none (some t) = some "added"
change_of rt (some f) none = some "removed"
change_of rt (some f) (some t) = if rt.same_json f t then none else some "modified"

-- A loop whose body, at the entry of `id`, takes what the map has of `id` from `start` to `target`
-- and leaves `target`, and at other entries leaves it alone.
module _ (body : String × SecurityPolicy → Changes → Changes) (id : String)
    (start target : Option String)
    (other : (k : String) (p : SecurityPolicy) (m : Changes)
      → k ≢ id
      → Dict.get id (body (k, p) m) ≡ Dict.get id m) where
  each-absent :
      (l : List (String × SecurityPolicy)) (m : Changes)
      → ((k : String) (p : SecurityPolicy) → In (k, p) l → k ≢ id)
      → Dict.get id (each body l m) ≡ Dict.get id m
  each-absent [] m n = refl
  each-absent ((k, p) ∷ l) m n =
      each-absent l (body (k, p) m) (λ j q i. n j q (inr i)) ∙ other k p m (n k p (inl refl))

  module _ (d : Policies)
      (hit : (k : String) (p : SecurityPolicy) (m : Changes)
        → Dict.get k d ≡ some p
        → k ≡ id
        → (Dict.get id m ≡ start) ⊎ (Dict.get id m ≡ target)
        → Dict.get id (body (k, p) m) ≡ target) where
    abbrev From : List (String × SecurityPolicy) → Type 0
    From l = (k : String) (p : SecurityPolicy) → In (k, p) l → Dict.get k d ≡ some p

    each-done :
        (l : List (String × SecurityPolicy)) (m : Changes)
        → From l
        → Dict.get id m ≡ target
        → Dict.get id (each body l m) ≡ target
    each-done [] m from h = h
    each-done ((k, p) ∷ l) m from h =
        each-done l (body (k, p) m) (λ j q i. from j q (inr i))
          (elim (Bool-cases (k == id)) [
            | inl same ↦ hit k p m (from k p (inl refl)) ((string_eq.beq_iff k id).0 same) (inr h)
            | inr miss ↦ other k p m (λ q. cc ((string_eq.beq_iff k id).1 q, miss)) ∙ h
          ])

    each-present :
        (l : List (String × SecurityPolicy)) (m : Changes) (p : SecurityPolicy)
        → From l
        → Dict.get id m ≡ start
        → In (id, p) l
        → Dict.get id (each body l m) ≡ target
    each-present [] m p from h i = elim i [ ]
    each-present ((k, q) ∷ l) m p from h i = elim (Bool-cases (k == id)) [
      | inl same ↦
          each-done l (body (k, q) m) (λ j x i. from j x (inr i))
            (hit k q m (from k q (inl refl)) ((string_eq.beq_iff k id).0 same) (inl h))
      | inr miss ↦
          let n : k ≢ id = λ e. cc ((string_eq.beq_iff k id).1 e, miss) in
          elim i [
            | inl e ↦ absurd (n (ap (λ (x : String × SecurityPolicy). x.0) (sym e)))
            | inr j ↦
                each-present l (body (k, q) m) p (λ a b i. from a b (inr i)) (other k q m n ∙ h) j
          ]
    ]

when_missing-ne :
    (o : Option SecurityPolicy) (k id : String) (m : Changes)
    → k ≢ id
    → Dict.get id (when_missing o k m) ≡ Dict.get id m
when_missing-ne none k id m n = get-put_ne k id "added" m n
when_missing-ne (some p) k id m n = refl

compare-ne :
    (rt : Runtime) (fp : SecurityPolicy) (o : Option SecurityPolicy) (k id : String) (m : Changes)
    → k ≢ id
    → Dict.get id (compare rt fp o k m) ≡ Dict.get id m
compare-ne rt fp none k id m n = get-put_ne k id "removed" m n
compare-ne rt fp (some tp) k id m n =
    if_cases (λ (r : Changes). Dict.get id r ≡ Dict.get id m) (rt.same_json fp tp) _ _ (λ _. refl)
      (λ _. get-put_ne k id "modified" m n)

-- What the first loop leaves at an id.
abbrev added_of : Option SecurityPolicy → Option SecurityPolicy → Option String
added_of none none = none
added_of none (some t) = some "added"
added_of (some f) t = none

when_missing_self :
    (o : Option SecurityPolicy) (t : SecurityPolicy) (id : String) (m : Changes)
    → (Dict.get id m ≡ none) ⊎ (Dict.get id m ≡ added_of o (some t))
    → Dict.get id (when_missing o id m) ≡ added_of o (some t)
when_missing_self none t id m h = get-put_self id "added" m
when_missing_self (some p) t id m (inl h) = h
when_missing_self (some p) t id m (inr h) = h

compare_self :
    (rt : Runtime) (f : SecurityPolicy) (o : Option SecurityPolicy) (id : String) (m : Changes)
    → (Dict.get id m ≡ none) ⊎ (Dict.get id m ≡ change_of rt (some f) o)
    → Dict.get id (compare rt f o id m) ≡ change_of rt (some f) o
compare_self rt f none id m h = get-put_self id "removed" m
compare_self rt f (some t) id m h = elim (Bool-cases (rt.same_json f t)) [
  | inl same ↦ rw same (elim h [ inl e ↦ e | inr e ↦ rw same at e ])
  | inr differ ↦ rw differ (get-put_self id "modified" m)
]

module _ (rt : Runtime) (laws : IsRuntime rt) where
  entries :
      (d : Policies) (k : String) (p : SecurityPolicy)
      → In (k, p) (rt.order (Dict.items d)) ↔ (Dict.get k d ≡ some p)
  entries d k p = (
    λ i. (In-items k p d).0 ((laws.visits _ (k, p)).0 i),
    λ e. (laws.visits _ (k, p)).1 ((In-items k p d).1 e),
  )

  absent :
      (d : Policies) (id : String)
      → Dict.get id d ≡ none
      → (k : String) (p : SecurityPolicy) → In (k, p) (rt.order (Dict.items d))
      → k ≢ id
  absent d id gone k p i = λ q. cc ((entries d k p).0 i, ap (λ j. Dict.get j d) q, gone)

  module _ (from to : Policies) (id : String) where
    abbrev first_loop : Changes
    first_loop = each (mark_added from) (rt.order (Dict.items to)) Dict.empty

    get-first_loop : Dict.get id first_loop ≡ added_of (Dict.get id from) (Dict.get id to)
    get-first_loop = elim (Option-cases (Dict.get id to)) [
      | inl gone ↦
          each-absent (mark_added from) id none none
            (λ k p m. when_missing-ne (Dict.get k from) k id m) (rt.order (Dict.items to))
            Dict.empty (absent to id gone)
          ∙ get-empty id
          ∙ rw gone (elim (Dict.get id from) as (λ o. none ≡ added_of o none) [
            | none ↦ refl
            | some f ↦ refl
          ])
      | inr (t, there) ↦
          each-present (mark_added from) id none (added_of (Dict.get id from) (some t))
            (λ k p m. when_missing-ne (Dict.get k from) k id m) to
            (λ k p m e q h. rw q (when_missing_self (Dict.get id from) t id m h))
            (rt.order (Dict.items to)) Dict.empty t (λ k p. (entries to k p).0) (get-empty id)
            ((entries to id t).1 there)
          ∙ rw there refl
    ]

    pub get-changes :
        Dict.get id (changes rt from to) ≡ change_of rt (Dict.get id from) (Dict.get id to)
    unfolding changes
    get-changes = elim (Option-cases (Dict.get id from)) [
      | inl gone ↦
          each-absent (mark_changed rt to) id none none
            (λ k p m. compare-ne rt p (Dict.get k to) k id m) (rt.order (Dict.items from))
            first_loop (absent from id gone)
          ∙ get-first_loop
          ∙ rw gone (elim (Dict.get id to) as (λ o. added_of none o ≡ change_of rt none o) [
            | none ↦ refl
            | some t ↦ refl
          ])
      | inr (f, there) ↦
          each-present (mark_changed rt to) id none (change_of rt (some f) (Dict.get id to))
            (λ k p m. compare-ne rt p (Dict.get k to) k id m) from
            (λ k p m e q h.
              let same : p ≡ f = some-eq (sym e ∙ ap (λ j. Dict.get j from) q ∙ there) in
              rw (q, same) (compare_self rt f (Dict.get id to) id m h))
            (rt.order (Dict.items from)) first_loop f (λ k p. (entries from k p).0)
            (get-first_loop ∙ rw there refl) ((entries from id f).1 there)
          ∙ rw there refl
    ]

-- Between two versions that the history has, Diff names a policy added, removed or modified exactly
-- as the two versions have it, and names no other policy.
pub diff_lem :
    (rt : Runtime) (laws : IsRuntime rt) (from to : ℕ) (s : Store) (f t : ConfigVersion)
    → find_last from s.versions ≡ some f
    → find_last to s.versions ≡ some t
    → (m : Changes) × (diff rt from to s ≡ some m)
      × ((id : String)
          → Dict.get id m
            ≡ change_of rt
                (Dict.get id (snapshot_map f.policies Dict.empty))
                (Dict.get id (snapshot_map t.policies Dict.empty)))
unfolding diff
diff_lem rt laws from to s f t e h =
    let old = snapshot_map f.policies Dict.empty in
    let new = snapshot_map t.policies Dict.empty in
    (changes rt old new, rw (diff, e, h), λ id. get-changes rt laws old new id)
