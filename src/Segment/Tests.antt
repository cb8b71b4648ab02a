-- ===== src/Segment/Tests.antt =====
-- Runs of the segment store on concrete tags, and the theorems at those inputs.
use apexaegis_management_pla.Prelude.{
  ◌≡◌, refl, ◌⊎◌, true, none, some, String, [], ◌∷◌, ◌==◌, string_eq, nat_eq,
}
use apexaegis_management_pla.Prelude.Int.{pos, ◌≤ℤ◌, ◌<ℤ◌, ◌+ℤ◌}
use apexaegis_management_pla.Dict
use apexaegis_management_pla.Dict.{get-empty}
use apexaegis_management_pla.Segment.{
  SecurityGroupTag, SgtPolicy, Store, err, Folding, Order, Visits, create_tag, check_tag,
  bad_domain, delete_tag, create_policy, find_reference, referenced_by, value_taken,
}
use apexaegis_management_pla.Segment.Tags.{after}
use apexaegis_management_pla.Segment.Consistent.{IsConsistent}
use apexaegis_management_pla.Segment.References.{IsProtected, delete_tag-IsProtected}
use apexaegis_management_pla.Segment.Classify.{
  Contexts, classify, best_of, consider, better, eligible, score_of, add_domains, add_domain,
  add_attributes, add_provided, classify-maximal, classify-attained,
}
use apexaegis_management_pla.Segment.Defaults.{
  new_store, load_defaults, load_tags, load_policies, sgt_guest,
}
use apexaegis_management_pla.Segment.Reachable.{started, tag_created, Reachable-IsConsistent}

-- Names in lower case already.
abbrev lower : Folding
lower = record { to_lower = λ s. s; equal_fold = λ a b. a == b }

abbrev in_order : {V : Type 0} → Order V
in_order l = l

in_order-Visits : {V : Type 0} → Visits {V = V} in_order
in_order-Visits l x = (λ i. i, λ i. i)

abbrev lab : SecurityGroupTag
lab = record {
  id = "sgt-lab";
  name = "Lab";
  description = "";
  org_id = "acme";
  tag_value = 40;
  color = "";
  domains = record { domain = "identity"; attributes = "guest" ∷ []; weight = pos 70 } ∷ [];
  propagation_method = "inline";
  enforcement = "sgacl";
  assigned_to = [];
  created_at = 0;
  updated_at = 0;
}

abbrev guest_context : Contexts
guest_context = Dict.put "identity" ("guest" ∷ []) Dict.empty

value_taken_test :
    create_tag lower 1 (new_store 0) (record lab { tag_value = 20 })
    ≡ err (value_taken 20 "sgt-guest")
unfolding create_tag check_tag bad_domain new_store load_defaults load_tags load_policies Dict.get
    Dict.put Dict.empty
value_taken_test = refl

referenced_test :
    delete_tag in_order (new_store 0) "sgt-guest"
    ≡ err (referenced_by "sgt-guest" "Guest → Restricted DENY")
unfolding delete_tag find_reference new_store load_defaults load_tags load_policies Dict.get
    Dict.put Dict.empty Dict.items
referenced_test = refl

classify_test :
    classify lower in_order (new_store 0) "acme" guest_context ≡ (some (sgt_guest 0), pos 50)
unfolding classify best_of consider better eligible score_of add_domains add_domain add_attributes
    add_provided new_store load_defaults load_tags load_policies ◌+ℤ◌ Dict.get Dict.put Dict.empty
    Dict.items
classify_test = refl

Reachable-IsConsistent_example :
    IsConsistent (after (new_store 0) (create_tag lower 1 (new_store 0) lab))
Reachable-IsConsistent_example =
    Reachable-IsConsistent lower _ (tag_created (new_store 0) 1 lab (started 0))

guest_stored : Dict.get "sgt-guest" (new_store 0).tags ≡ some (sgt_guest 0)
unfolding new_store load_defaults load_tags load_policies Dict.get Dict.put Dict.empty
guest_stored = refl

guest_eligible : eligible "acme" (sgt_guest 0) ≡ true
unfolding eligible
guest_eligible = refl

classify-maximal_example :
    score_of lower guest_context (sgt_guest 0)
    ≤ℤ (classify lower in_order (new_store 0) "acme" guest_context).1
classify-maximal_example =
    classify-maximal lower in_order in_order-Visits (new_store 0) "acme" guest_context "sgt-guest"
      (sgt_guest 0) guest_stored guest_eligible

abbrev lab_policy : SgtPolicy
lab_policy = record {
  id = "p1";
  name = "Guest to IoT";
  description = "";
  org_id = "acme";
  source_sgt = "sgt-guest";
  destination_sgt = "sgt-iot";
  action = "deny";
  protocols = [];
  ports = [];
  application_ids = [];
  log_enabled = true;
  priority = pos 1;
  enabled = true;
  created_at = 0;
  updated_at = 0;
}

abbrev no_policies : Store
no_policies = record (new_store 0) { policies = Dict.empty }

abbrev one_policy : Store
one_policy = after no_policies (create_policy 1 no_policies lab_policy)

lab_policy_stored :
    Dict.get "p1" one_policy.policies ≡ some (record lab_policy { created_at = 1; updated_at = 1 })
unfolding create_policy new_store load_defaults load_tags load_policies Dict.get Dict.put Dict.empty
lab_policy_stored = refl

delete_tag-IsProtected_example :
    IsProtected one_policy
      (delete_tag in_order one_policy "sgt-guest")
      "sgt-guest"
      "p1"
      (record lab_policy { created_at = 1; updated_at = 1 })
delete_tag-IsProtected_example =
    delete_tag-IsProtected one_policy in_order in_order-Visits "sgt-guest" "p1" _ lab_policy_stored

classify-attained_example :
    (classify lower in_order (new_store 0) "acme" guest_context ≡ (none, pos 0))
    ⊎ ((id : String) × (tag : SecurityGroupTag) × (Dict.get id (new_store 0).tags ≡ some tag)
        × (eligible "acme" tag ≡ true)
        × (classify lower in_order (new_store 0) "acme" guest_context
            ≡ (some tag, score_of lower guest_context tag))
        × (pos 0 <ℤ score_of lower guest_context tag))
classify-attained_example =
    classify-attained lower in_order in_order-Visits (new_store 0) "acme" guest_context
