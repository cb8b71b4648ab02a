-- ===== src/Segment/Reachable.antt =====
-- The stores that a program can reach from NewStore of internal/segment/store.go by any sequence of
-- its operations, and what holds in all of them.
use apexaegis_management_pla.Prelude.{
  ℕ, ◌≤◌, ◌≡◌, refl, not, none, some, String, List, arith, Eq, string_eq, nat_eq, if_cases,
}
use apexaegis_management_pla.Dict
use apexaegis_management_pla.Dict.{Dict, get-empty}
use apexaegis_management_pla.Segment.{
  SecurityGroupTag, SgtPolicy, BranchSite, Store, Result, Folding, Order, is_some, stored,
  create_tag, update_tag, delete_tag, create_policy, update_policy, delete_policy,
}
use apexaegis_management_pla.Segment.Sites.{create_site, update_site, delete_site}
use apexaegis_management_pla.Segment.Defaults.{
  new_store, load_defaults, load_tags, load_policies, sgt_restricted, sgt_servers, sgt_iot,
  sgt_guest, sgt_corporate,
}
use apexaegis_management_pla.Segment.Consistent.{
  IsConsistent, stored-IsConsistent, tag_value_unique,
}
use apexaegis_management_pla.Segment.Tags.{
  after, create_tag-IsConsistent, update_tag-IsConsistent, delete_tag-IsConsistent,
}

pub data Reachable (f : Folding) : Store → Type 0 where
  started : (now : ℕ) → Reachable f (new_store now)
  tag_created :
      (s : Store) (now : ℕ) (tag : SecurityGroupTag)
      → Reachable f s
      → Reachable f (after s (create_tag f now s tag))
  tag_updated :
      (s : Store) (now : ℕ) (tag : SecurityGroupTag)
      → Reachable f s
      → Reachable f (after s (update_tag now s tag))
  tag_deleted :
      (s : Store) (order : Order SgtPolicy) (id : String)
      → Reachable f s
      → Reachable f (after s (delete_tag order s id))
  policy_created :
      (s : Store) (now : ℕ) (pol : SgtPolicy)
      → Reachable f s
      → Reachable f (after s (create_policy now s pol))
  policy_updated :
      (s : Store) (now : ℕ) (pol : SgtPolicy)
      → Reachable f s
      → Reachable f (after s (update_policy now s pol))
  policy_deleted :
      (s : Store) (id : String) → Reachable f s → Reachable f (after s (delete_policy s id))
  site_created :
      (s : Store) (now : ℕ) (site : BranchSite)
      → Reachable f s
      → Reachable f (after s (create_site now s site))
  site_updated :
      (s : Store) (now : ℕ) (site : BranchSite)
      → Reachable f s
      → Reachable f (after s (update_site now s site))
  site_deleted :
      (s : Store) (id : String) → Reachable f s → Reachable f (after s (delete_site s id))

-- Consistency is a matter of the two tables alone.
with_tables :
    (s : Store) (policies : Dict String SgtPolicy) (sites : Dict String BranchSite)
    (org_index : Dict String (List String))
    → IsConsistent s
    → IsConsistent (record s { policies = policies; sites = sites; org_index = org_index })
with_tables s policies sites org_index c = record {
  own_id = c.own_id;
  in_range = c.in_range;
  value_of_tag = c.value_of_tag;
  tag_of_value = c.tag_of_value;
}

load_step :
    (s : Store) (now : ℕ) (tag : SecurityGroupTag)
    → (1 ≤ tag.tag_value) × (tag.tag_value ≤ 65533)
    → Dict.get tag.id s.tags ≡ none
    → Dict.get tag.tag_value s.tag_values ≡ none
    → IsConsistent s
    → IsConsistent (record s {
      tags = Dict.put tag.id (record tag { created_at = now; updated_at = now }) s.tags;
      tag_values = Dict.put tag.tag_value tag.id s.tag_values;
    })
load_step s now tag range new free c =
    with_tables (stored now s tag) s.policies s.sites s.org_index
      (stored-IsConsistent s c now tag range new free)

nothing_stored :
    {K V : Type 0} ⦃e : Eq K⦄ {A : Type 0} (k : K) (v : V) → Dict.get k Dict.empty ≡ some v → A
nothing_stored k v h = absurd (cc (h, get-empty k))

abbrev empty_store : Store
empty_store = record {
  tags = Dict.empty;
  policies = Dict.empty;
  sites = Dict.empty;
  org_index = Dict.empty;
  tag_values = Dict.empty;
}

empty-IsConsistent : IsConsistent empty_store
empty-IsConsistent = record {
  own_id = λ id t. nothing_stored id t;
  in_range = λ id t. nothing_stored id t;
  value_of_tag = λ id t. nothing_stored id t;
  tag_of_value = λ v id. nothing_stored v id;
}

new_store-IsConsistent : (now : ℕ) → IsConsistent (new_store now)
unfolding new_store load_defaults load_tags load_policies Dict.get Dict.put Dict.empty
new_store-IsConsistent now = with_tables _ _ _ _ (
    load_step _ now (sgt_restricted now) (omega arith, omega arith) refl refl
      (load_step _ now (sgt_servers now) (omega arith, omega arith) refl refl
        (load_step _ now (sgt_iot now) (omega arith, omega arith) refl refl
          (load_step _ now (sgt_guest now) (omega arith, omega arith) refl refl
            (load_step _ now (sgt_corporate now) (omega arith, omega arith) refl refl
              empty-IsConsistent)))))

module _ (s : Store) (c : IsConsistent s) where
  policies-IsConsistent :
      (now : ℕ) (pol : SgtPolicy)
      → IsConsistent (after s (create_policy now s pol))
        × IsConsistent (after s (update_policy now s pol))
  unfolding create_policy update_policy
  policies-IsConsistent now pol =
      let P = λ (r : Result Store). IsConsistent (after s r) in
      (
        if_cases P (is_some (Dict.get pol.id s.policies)) _ _ (λ _. c)
            (λ _.
              if_cases P (not (is_some (Dict.get pol.source_sgt s.tags))) _ _ (λ _. c)
                (λ _.
                  if_cases P (not (is_some (Dict.get pol.destination_sgt s.tags))) _ _ (λ _. c)
                    (λ _. with_tables s _ s.sites s.org_index c))),
        if_cases P (is_some (Dict.get pol.id s.policies)) _ _
            (λ _. with_tables s _ s.sites s.org_index c) (λ _. c),
      )

  sites-IsConsistent :
      (now : ℕ) (site : BranchSite)
      → IsConsistent (after s (create_site now s site))
        × IsConsistent (after s (update_site now s site))
  unfolding create_site update_site
  sites-IsConsistent now site =
      let P = λ (r : Result Store). IsConsistent (after s r) in
      let there = is_some (Dict.get site.id s.sites) in
      (
        if_cases P there _ _ (λ _. c) (λ _. with_tables s s.policies _ s.org_index c),
        if_cases P there _ _ (λ _. with_tables s s.policies _ s.org_index c) (λ _. c),
      )

  delete_policy-IsConsistent : (id : String) → IsConsistent (after s (delete_policy s id))
  unfolding delete_policy
  delete_policy-IsConsistent id =
      if_cases (λ (r : Result Store). IsConsistent (after s r)) (is_some (Dict.get id s.policies)) _
        _ (λ _. with_tables s _ s.sites s.org_index c) (λ _. c)

  delete_site-IsConsistent : (id : String) → IsConsistent (after s (delete_site s id))
  unfolding delete_site
  delete_site-IsConsistent id =
      if_cases (λ (r : Result Store). IsConsistent (after s r)) (is_some (Dict.get id s.sites)) _ _
        (λ _. with_tables s s.policies _ s.org_index c) (λ _. c)

-- In every store that the operations reach from NewStore, the tag table and the table of tag values
-- agree: each tag stands under its id, its value is between 1 and 65533 and leads back to it, and
-- each value in use is the value of a tag.
pub Reachable-IsConsistent : (f : Folding) (s : Store) → Reachable f s → IsConsistent s
Reachable-IsConsistent f _ (started now) = new_store-IsConsistent now
Reachable-IsConsistent f _ (tag_created s now tag r) =
    create_tag-IsConsistent s (Reachable-IsConsistent f s r) f now tag
Reachable-IsConsistent f _ (tag_updated s now tag r) =
    update_tag-IsConsistent s (Reachable-IsConsistent f s r) now tag
Reachable-IsConsistent f _ (tag_deleted s order id r) =
    delete_tag-IsConsistent s (Reachable-IsConsistent f s r) order id
Reachable-IsConsistent f _ (policy_created s now pol r) =
    (policies-IsConsistent s (Reachable-IsConsistent f s r) now pol).0
Reachable-IsConsistent f _ (policy_updated s now pol r) =
    (policies-IsConsistent s (Reachable-IsConsistent f s r) now pol).1
Reachable-IsConsistent f _ (policy_deleted s id r) =
    delete_policy-IsConsistent s (Reachable-IsConsistent f s r) id
Reachable-IsConsistent f _ (site_created s now site r) =
    (sites-IsConsistent s (Reachable-IsConsistent f s r) now site).0
Reachable-IsConsistent f _ (site_updated s now site r) =
    (sites-IsConsistent s (Reachable-IsConsistent f s r) now site).1
Reachable-IsConsistent f _ (site_deleted s id r) =
    delete_site-IsConsistent s (Reachable-IsConsistent f s r) id

-- In every store that the operations reach from NewStore, two tags with the same value are the same
-- tag.
pub Reachable-unique_values :
    (f : Folding) (s : Store) (id id' : String) (t t' : SecurityGroupTag)
    → Reachable f s
    → Dict.get id s.tags ≡ some t
    → Dict.get id' s.tags ≡ some t'
    → t.tag_value ≡ t'.tag_value
    → id ≡ id'
Reachable-unique_values f s id id' t t' r =
    tag_value_unique s id id' t t' (Reachable-IsConsistent f s r)
