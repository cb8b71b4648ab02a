-- ===== src/Segment.antt =====
-- Security group tags, their policies and branch sites: internal/segment/store.go. The maps of the
-- store are `Dict`s, time is an argument, and a method that fails leaves the store as it was.
pub mod Consistent
pub mod Tags
pub mod References
pub mod Classify
pub mod Sites
pub mod Defaults
pub mod Reachable
pub mod Tests
use apexaegis_management_pla.Prelude.{
  ℕ, ◌≤◌, ◌≡◌, ◌↔◌, Bool, true, false, not, ◌&&◌, ◌||◌, Option, none, some, String, List, [], ◌∷◌,
  ◌++◌, map, ltb, leb, eqb, if◌then◌else◌, Eq, ◌==◌, string_eq, nat_eq, In,
}
use apexaegis_management_pla.Prelude.Int.{ℤ, pos, ◌+ℤ◌, ltbℤ}
use apexaegis_management_pla.Dict
use apexaegis_management_pla.Dict.{Dict}

pub record DomainContext : Type 0 where
  pub domain : String
  pub attributes : List String
  pub weight : ℤ

pub record TagAssignment : Type 0 where
  pub type : String
  pub value : String
  pub provider : String

pub record SecurityGroupTag : Type 0 where
  pub id : String
  pub name : String
  pub description : String
  pub org_id : String
  pub tag_value : ℕ
  pub color : String
  pub domains : List DomainContext
  pub propagation_method : String
  pub enforcement : String
  pub assigned_to : List TagAssignment
  pub created_at : ℕ
  pub updated_at : ℕ

pub record SgtPolicy : Type 0 where
  pub id : String
  pub name : String
  pub description : String
  pub org_id : String
  pub source_sgt : String
  pub destination_sgt : String
  pub action : String
  pub protocols : List String
  pub ports : List String
  pub application_ids : List String
  pub log_enabled : Bool
  pub priority : ℤ
  pub enabled : Bool
  pub created_at : ℕ
  pub updated_at : ℕ

pub record BranchSite : Type 0 where
  pub id : String
  pub name : String
  pub org_id : String
  pub address : String
  pub country : String
  pub sgt_profile_id : String
  pub sdn_switch_ids : List String
  pub mesh_peer_id : String
  pub gateway_endpoint : String
  pub status : String
  pub created_at : ℕ
  pub updated_at : ℕ

pub record Store : Type 0 where
  pub tags : Dict String SecurityGroupTag
  pub policies : Dict String SgtPolicy
  pub sites : Dict String BranchSite
  pub org_index : Dict String (List String)
  pub tag_values : Dict ℕ String

pub data Error : Type 0 where
  already_exists : String → Error
  not_found : String → Error
  invalid_value : ℕ → Error
  value_taken : ℕ → String → Error
  no_domain : Error
  invalid_domain : String → Error
  referenced_by : String → String → Error
  source_not_found : String → Error
  destination_not_found : String → Error

pub data Result {ℓ} (A : Type ℓ) : Type ℓ where
  ok : A → Result A
  err : Error → Result A

-- strings.ToLower and strings.EqualFold.
pub record Folding : Type 0 where
  pub to_lower : String → String
  pub equal_fold : String → String → Bool

-- The order in which a `range` loop visits the entries of a map. Go promises only that it visits
-- exactly the entries.
abbrev pub Order : Type 0 → Type 0
Order V = List (String × V) → List (String × V)

abbrev pub Visits : {V : Type 0} → Order V → Type 0
Visits {V} order = (l : List (String × V)) (x : String × V) → In x (order l) ↔ In x l

abbrev pub is_some {ℓ} : {A : Type ℓ} → Option A → Bool
is_some none = false
is_some (some a) = true

abbrev pub out_of_range : ℕ → Bool
out_of_range v = eqb v 0 || leb 65534 v

-- The domains that CreateTag accepts, in lower case.
abbrev pub valid_domain : String → Bool
valid_domain d =
    d == "identity"
    || d == "device"
    || d == "application"
    || d == "data"
    || d == "location"
    || d == "time"

pub bad_domain : Folding → List DomainContext → Option String
bad_domain f [] = none
bad_domain f (d ∷ rest) =
    if valid_domain (f.to_lower d.domain) then bad_domain f rest else some d.domain

abbrev pub check_domains : Folding → List DomainContext → Option Error
check_domains f [] = some no_domain
check_domains f (d ∷ rest) = elim (bad_domain f (d ∷ rest)) [
  | none ↦ none
  | some name ↦ some (invalid_domain name)
]

-- The list under an organization, with nil for a missing key.
abbrev pub ids_of : Option (List String) → List String
ids_of none = []
ids_of (some ids) = ids

abbrev pub stored : ℕ → Store → SecurityGroupTag → Store
stored now s tag = record s {
  tags = Dict.put tag.id (record tag { created_at = now; updated_at = now }) s.tags;
  tag_values = Dict.put tag.tag_value tag.id s.tag_values;
  org_index =
      Dict.put tag.org_id (ids_of (Dict.get tag.org_id s.org_index) ++ (tag.id ∷ [])) s.org_index;
}

-- The checks of CreateTag, in the code's order.
unfoldable pub check_tag : Folding → Store → SecurityGroupTag → Option Error
unfolding bad_domain
check_tag f s tag =
    if is_some (Dict.get tag.id s.tags)
    then some (already_exists tag.id)
    else if out_of_range tag.tag_value
    then some (invalid_value tag.tag_value)
    else elim (Dict.get tag.tag_value s.tag_values) [
      | some existing ↦ some (value_taken tag.tag_value existing)
      | none ↦ check_domains f tag.domains
    ]

unfoldable pub create_tag : Folding → ℕ → Store → SecurityGroupTag → Result Store
unfolding check_tag
create_tag f now s tag = elim (check_tag f s tag) [ some e ↦ err e | none ↦ ok (stored now s tag) ]

unfoldable pub get_tag : Store → String → Result SecurityGroupTag
get_tag s id = elim (Dict.get id s.tags) [ none ↦ err (not_found id) | some tag ↦ ok tag ]

-- Whether another tag has the value.
abbrev pub other_owner : String → Option String → Option String
other_owner id none = none
other_owner id (some other) = if other == id then none else some other

abbrev pub moved : ℕ → Store → SecurityGroupTag → SecurityGroupTag → Store
moved now s tag existing = record s {
  tags = Dict.put tag.id (record tag { updated_at = now }) s.tags;
  tag_values = Dict.put tag.tag_value tag.id (Dict.remove existing.tag_value s.tag_values);
}

abbrev pub replaced : ℕ → Store → SecurityGroupTag → Store
replaced now s tag = record s { tags = Dict.put tag.id (record tag { updated_at = now }) s.tags }

-- The checks of UpdateTag on a new value.
unfoldable pub check_move : Store → SecurityGroupTag → Option Error
check_move s tag =
    if out_of_range tag.tag_value
    then some (invalid_value tag.tag_value)
    else elim (other_owner tag.id (Dict.get tag.tag_value s.tag_values)) [
      | some other ↦ some (value_taken tag.tag_value other)
      | none ↦ none
    ]

unfoldable pub move_tag : ℕ → Store → SecurityGroupTag → SecurityGroupTag → Result Store
unfolding check_move
move_tag now s tag existing = elim (check_move s tag) [
  | some e ↦ err e
  | none ↦ ok (moved now s tag existing)
]

unfoldable pub update_existing : ℕ → Store → SecurityGroupTag → SecurityGroupTag → Result Store
unfolding move_tag
update_existing now s tag existing =
    if eqb tag.tag_value existing.tag_value
    then ok (replaced now s tag)
    else move_tag now s tag existing

unfoldable pub update_tag : ℕ → Store → SecurityGroupTag → Result Store
unfolding update_existing
update_tag now s tag = elim (Dict.get tag.id s.tags) [
  | none ↦ err (not_found tag.id)
  | some existing ↦ update_existing now s tag existing
]

abbrev pub refers : String → SgtPolicy → Bool
refers id pol = pol.source_sgt == id || pol.destination_sgt == id

-- The first policy that a loop meets which names the tag.
unfoldable pub find_reference : String → List (String × SgtPolicy) → Option SgtPolicy
find_reference id [] = none
find_reference id ((k, pol) ∷ rest) = if refers id pol then some pol else find_reference id rest

unfoldable pub without_id : String → List String → List String
without_id id [] = []
without_id id (t ∷ rest) = let kept = without_id id rest in if t == id then kept else t ∷ kept

abbrev pub unindexed :
    String → SecurityGroupTag → Dict String (List String) → Dict String (List String)
unindexed id tag index = elim (Dict.get tag.org_id index) [
  | none ↦ index
  | some ids ↦ Dict.put tag.org_id (without_id id ids) index
]

abbrev pub dropped : Store → String → SecurityGroupTag → Store
dropped s id tag = record s {
  tags = Dict.remove id s.tags;
  tag_values = Dict.remove tag.tag_value s.tag_values;
  org_index = unindexed id tag s.org_index;
}

unfoldable pub delete_tag : Order SgtPolicy → Store → String → Result Store
unfolding find_reference without_id
delete_tag order s id = elim (Dict.get id s.tags) [
  | none ↦ err (not_found id)
  | some tag ↦ elim (find_reference id (order (Dict.items s.policies))) [
    | some pol ↦ err (referenced_by id pol.name)
    | none ↦ ok (dropped s id tag)
  ]
]

unfoldable pub present : List String → Dict String SecurityGroupTag → List SecurityGroupTag
present [] tags = []
present (id ∷ ids) tags =
    let rest = present ids tags in elim (Dict.get id tags) [ none ↦ rest | some tag ↦ tag ∷ rest ]

abbrev pub values : {V : Type 0} → List (String × V) → List V
values l = map (λ e. e.1) l

unfoldable pub list_tags : Order SecurityGroupTag → Store → String → List SecurityGroupTag
unfolding present
list_tags order s org =
    if org == ""
    then values (order (Dict.items s.tags))
    else present (ids_of (Dict.get org s.org_index)) s.tags

unfoldable pub create_policy : ℕ → Store → SgtPolicy → Result Store
create_policy now s pol =
    if is_some (Dict.get pol.id s.policies)
    then err (already_exists pol.id)
    else if not (is_some (Dict.get pol.source_sgt s.tags))
    then err (source_not_found pol.source_sgt)
    else if not (is_some (Dict.get pol.destination_sgt s.tags))
    then err (destination_not_found pol.destination_sgt)
    else ok (record s {
      policies = Dict.put pol.id (record pol { created_at = now; updated_at = now }) s.policies;
    })

unfoldable pub update_policy : ℕ → Store → SgtPolicy → Result Store
update_policy now s pol =
    if is_some (Dict.get pol.id s.policies)
    then ok (record s { policies = Dict.put pol.id (record pol { updated_at = now }) s.policies })
    else err (not_found pol.id)

unfoldable pub delete_policy : Store → String → Result Store
delete_policy s id =
    if is_some (Dict.get id s.policies)
    then ok (record s { policies = Dict.remove id s.policies })
    else err (not_found id)

unfoldable pub get_policy : Store → String → Result SgtPolicy
get_policy s id = elim (Dict.get id s.policies) [ none ↦ err (not_found id) | some pol ↦ ok pol ]
