-- ===== src/Segment/References.antt =====
-- The references from policies to tags: what CreatePolicy checks and DeleteTag protects.
use apexaegis_management_pla.Prelude.{
  ℕ, ◌⊎◌, refl, ◌≡◌, ◌≢◌, ap, ◌∙◌, inl, inr, true, false, not, none, some, String, List, [], ◌∷◌,
  arith, string_eq, In, if_cases, option_cases, Bool-cases, subst,
}
use text.Mathlib.TextEquality.{eq_iff}
use apexaegis_management_pla.Dict
use apexaegis_management_pla.Dict.{Dict, In-items, get-put_cases, get-remove_ne}
use apexaegis_management_pla.Segment.{
  SgtPolicy, Store, Result, Error, ok, err, not_found, referenced_by, Order, Visits, is_some,
  refers, find_reference, delete_tag, dropped, create_policy,
}
use apexaegis_management_pla.Segment.Tags.{after}

-- Each policy's source and destination are tags of the store.
pub record HasTags (s : Store) (pol : SgtPolicy) : Type 0 where
  pub source : is_some (Dict.get pol.source_sgt s.tags) ≡ true
  pub destination : is_some (Dict.get pol.destination_sgt s.tags) ≡ true

abbrev pub NoDangling : Store → Type 0
NoDangling s = (id : String) (pol : SgtPolicy) → Dict.get id s.policies ≡ some pol → HasTags s pol

find_reference-none :
    (id : String) (l : List (String × SgtPolicy))
    → find_reference id l ≡ none
    → (k : String) (pol : SgtPolicy) → In (k, pol) l
    → refers id pol ≡ false
unfolding find_reference
find_reference-none id [] h k pol i = elim i [ ]
find_reference-none id ((j, p) ∷ rest) h k pol i = elim (Bool-cases (refers id p)) [
  | inl hit ↦ absurd (cc (rw hit at h))
  | inr miss ↦ elim i [
    | inl q ↦ ap (λ (x : String × SgtPolicy). refers id x.1) q ∙ miss
    | inr later ↦ find_reference-none id rest (rw miss at h) k pol later
  ]
]

refers-false :
    (id : String) (pol : SgtPolicy)
    → refers id pol ≡ false
    → (id ≢ pol.source_sgt) × (id ≢ pol.destination_sgt)
refers-false id pol h = (
  λ q. ground (arith, eq_iff pol.source_sgt id, q, h),
  λ q. ground (arith, eq_iff pol.destination_sgt id, q, h),
)

-- What DeleteTag of `id` leaves of a policy `pol` that is stored at `key`: the policy itself, its two
-- tags if they were there, and, where it names the tag, the whole store with an error.
pub record IsProtected (s : Store) (r : Result Store) (id key : String) (pol : SgtPolicy)
    : Type 0 where
  pub stored : Dict.get key (after s r).policies ≡ some pol
  pub source : Dict.get pol.source_sgt (after s r).tags ≡ Dict.get pol.source_sgt s.tags
  pub destination :
      Dict.get pol.destination_sgt (after s r).tags ≡ Dict.get pol.destination_sgt s.tags
  pub refused : (refers id pol ≡ false) ⊎ ((e : Error) × (r ≡ err e))

err-IsProtected :
    (s : Store) (e : Error) (id key : String) (pol : SgtPolicy)
    → Dict.get key s.policies ≡ some pol
    → IsProtected s (err e) id key pol
err-IsProtected s e id key pol there = record {
  stored = there;
  source = refl;
  destination = refl;
  refused = inr (e, refl);
}

-- DeleteTag leaves every stored policy with the tags that it had, and fails while a stored policy names
-- the tag as its source or its destination.
pub delete_tag-IsProtected :
    (s : Store) (order : Order SgtPolicy)
    → Visits order
    → (id key : String) (pol : SgtPolicy) → Dict.get key s.policies ≡ some pol
    → IsProtected s (delete_tag order s id) id key pol
unfolding delete_tag
delete_tag-IsProtected s order visits id key pol there =
    let P = λ (r : Result Store). IsProtected s r id key pol in
    option_cases P (Dict.get id s.tags) (err (not_found id)) _
      (λ _. err-IsProtected s _ id key pol there)
      (λ tag found.
        option_cases P (find_reference id (order (Dict.items s.policies))) (ok (dropped s id tag))
          (λ other. err (referenced_by id other.name))
          (λ h.
            let i =
              (visits (Dict.items s.policies) (key, pol)).1
                ((In-items key pol s.policies).1 there) in
            let free = find_reference-none id _ h key pol i in
            let (m, n) = refers-false id pol free in
            record {
              stored = there;
              source = get-remove_ne id pol.source_sgt s.tags m;
              destination = get-remove_ne id pol.destination_sgt s.tags n;
              refused = inl free;
            })
          (λ other _. err-IsProtected s _ id key pol there))

module _ (s : Store) (c : NoDangling s) where
  -- If every stored policy has its tags, CreatePolicy leaves it so.
  pub create_policy-NoDangling :
      (now : ℕ) (pol : SgtPolicy) → NoDangling (after s (create_policy now s pol))
  unfolding create_policy
  create_policy-NoDangling now pol =
      let P = λ (r : Result Store). NoDangling (after s r) in
      if_cases P (is_some (Dict.get pol.id s.policies)) _ _ (λ _. c)
        (λ new.
          if_cases P (not (is_some (Dict.get pol.source_sgt s.tags))) _ _ (λ _. c)
            (λ src.
              if_cases P (not (is_some (Dict.get pol.destination_sgt s.tags))) _ _ (λ _. c)
                (λ dst. λ k p e. elim (get-put_cases pol.id k _ p s.policies e) [
                  | inl (same, q) ↦
                      subst (HasTags _) q
                        (record { source = ground (arith, src); destination = ground (arith, dst) })
                  | inr (other, old) ↦ record {
                    source = (c k p old).source;
                    destination = (c k p old).destination;
                  }
                ])))
