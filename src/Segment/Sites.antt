-- ===== src/Segment/Sites.antt =====
-- The branch sites and the listings of internal/segment/store.go.
use apexaegis_management_pla.Prelude.{
  ℕ, ◌||◌, none, some, String, List, [], ◌∷◌, if◌then◌else◌, ◌==◌, string_eq,
}
use apexaegis_management_pla.Dict
use apexaegis_management_pla.Dict.{Dict}
use apexaegis_management_pla.Segment.{
  SecurityGroupTag, SgtPolicy, BranchSite, Store, Result, ok, err, already_exists, not_found, Order,
  is_some, list_tags,
}

unfoldable pub create_site : ℕ → Store → BranchSite → Result Store
create_site now s site =
    if is_some (Dict.get site.id s.sites)
    then err (already_exists site.id)
    else ok (record s {
      sites =
          Dict.put site.id
            (record site { created_at = now; updated_at = now; status = "provisioning" }) s.sites;
    })

unfoldable pub get_site : Store → String → Result BranchSite
get_site s id = elim (Dict.get id s.sites) [ none ↦ err (not_found id) | some site ↦ ok site ]

unfoldable pub update_site : ℕ → Store → BranchSite → Result Store
update_site now s site =
    if is_some (Dict.get site.id s.sites)
    then ok (record s { sites = Dict.put site.id (record site { updated_at = now }) s.sites })
    else err (not_found site.id)

unfoldable pub delete_site : Store → String → Result Store
delete_site s id =
    if is_some (Dict.get id s.sites)
    then ok (record s { sites = Dict.remove id s.sites })
    else err (not_found id)

unfoldable pub sites_of : String → List (String × BranchSite) → List BranchSite
sites_of org [] = []
sites_of org ((id, site) ∷ rest) =
    let others = sites_of org rest in
    if org == "" || site.org_id == org then site ∷ others else others

unfoldable pub list_sites : Order BranchSite → Store → String → List BranchSite
unfolding sites_of
list_sites order s org = sites_of org (order (Dict.items s.sites))

unfoldable pub policies_of : String → List (String × SgtPolicy) → List SgtPolicy
policies_of org [] = []
policies_of org ((id, pol) ∷ rest) =
    let others = policies_of org rest in
    if org == "" || pol.org_id == org then pol ∷ others else others

unfoldable pub list_policies : Order SgtPolicy → Store → String → List SgtPolicy
unfolding policies_of
list_policies order s org = policies_of org (order (Dict.items s.policies))

pub record SgtMatrix : Type 0 where
  pub org_id : String
  pub tags : List SecurityGroupTag
  pub policies : List SgtPolicy

unfoldable pub get_matrix : Order SecurityGroupTag → Order SgtPolicy → Store → String → SgtMatrix
unfolding list_policies
get_matrix tag_order order s org = record {
  org_id = org;
  tags = list_tags tag_order s org;
  policies = list_policies order s org;
}
