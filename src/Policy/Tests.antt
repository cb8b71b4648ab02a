-- ===== src/Policy/Tests.antt =====
-- Runs of the policy store on concrete policies, and the theorems at those inputs.
use apexaegis_management_pla.Prelude.{
  ◌≢◌, All, ◌+◌, ◌≡◌, ◌≤◌, ◌<◌, ◌↔◌, refl, true, false, some, List, [], ◌∷◌, ◌==◌, string_eq, arith,
}
use apexaegis_management_pla.Prelude.Int.{pos, ◌+ℤ◌}
use text.Mathlib.TextEquality.{eq_iff}
use apexaegis_management_pla.Prelude.{String}
use apexaegis_management_pla.Policy.{snapshot_map}
use apexaegis_management_pla.Dict
use apexaegis_management_pla.Policy.{
  SecurityPolicy, ConfigVersion, Store, Runtime, new_store, lock_config, check_lock, create, delete,
  revert, commit, list, with_sequence, max_sequence, get_version,
}
use apexaegis_management_pla.Policy.History.{Operation, run, run_all}
use apexaegis_management_pla.Policy.Versions.{IsValid, reachable-IsValid, get_version-retained}
use apexaegis_management_pla.Policy.Diff.{diff, diff_lem, find_last, changes, change_of, Changes}
use apexaegis_management_pla.Policy.Revert.{IsRuntime, SamePolicies, revert-SamePolicies}
use apexaegis_management_pla.Policy.Lock.{
  half_hour, IsByOther, creates, unlocks, looks, run_all-lock_config,
}

abbrev plain : Runtime
plain = record {
  order = λ l. l;
  sort_by_sequence = λ l. l;
  format_int = λ n. "n";
  same_json = λ p q. p.id == q.id;
}

plain-IsRuntime : IsRuntime plain
plain-IsRuntime = record { visits = λ l x. (λ i. i, λ i. i); sorts = λ l p. (λ i. i, λ i. i) }

abbrev allow : SecurityPolicy
allow = record {
  id = "allow";
  org_id = "acme";
  name = "Allow";
  sequence = pos 0;
  enabled = true;
  traffic_steering = [];
  access_methods = [];
  source_users = [];
  source_user_groups = [];
  source_devices = [];
  source_device_groups = [];
  source_device_posture = "any";
  source_addresses = [];
  source_ip_negate = false;
  dest_addresses = [];
  dest_cloud_apps = [];
  dest_url_categories = [];
  dest_ip_negate = false;
  services = [];
  http_methods = [];
  crud_operations = [];
  action = "allow";
  forward_proxy_addr = "";
  forward_proxy_port = pos 0;
  ssl_profile = [];
  atp_profiles = [];
  dns_filter_enabled = false;
  dns_block_categories = [];
  dns_allow_categories = [];
  dns_custom_blocklist = [];
  dns_custom_allowlist = [];
  dns_safe_search = false;
  web_filter_enabled = false;
  web_block_categories = [];
  web_allow_categories = [];
  web_custom_blocklist = [];
  web_custom_allowlist = [];
  web_safe_search = false;
  web_block_uncategorized = false;
  cloud_tenant_restrict = false;
  cloud_allowed_tenants = [];
  log_traffic = true;
  log_security_events = true;
}

-- One policy is created, and then deleted.
abbrev first_change : List Operation
first_change = Operation.create 1 "ann" allow ∷ []

abbrev deletion : List Operation
deletion = Operation.delete 2 "ann" "allow" ∷ []

abbrev with_allow : Store
with_allow = run_all plain first_change new_store

-- A policy without a sequence comes after all others.
sequence_test : Dict.get "allow" with_allow.policies ≡ some (record allow { sequence = pos 10 })
unfolding run_all run create check_lock with_sequence max_sequence commit list new_store ◌+ℤ◌
    Dict.get Dict.put Dict.empty Dict.items
sequence_test = refl

reachable-IsValid_example : IsValid with_allow
reachable-IsValid_example = reachable-IsValid plain first_change

get_version-retained_example :
    ((cv : ConfigVersion) × (get_version 1 with_allow ≡ some cv))
    ↔ ((1 ≤ 1) × (1 ≤ with_allow.version) × (with_allow.version < 1 + 10))
get_version-retained_example = get_version-retained plain first_change 1

one_version : 1 ≤ with_allow.version
unfolding run_all run create check_lock with_sequence max_sequence commit new_store
one_version = omega arith

two_versions : (run_all plain deletion with_allow).version < with_allow.version + 10
unfolding run_all run create delete check_lock with_sequence max_sequence commit new_store Dict.get
    Dict.put Dict.empty Dict.items ◌+ℤ◌ list
two_versions = omega arith

revert-SamePolicies_example :
    SamePolicies
      (revert plain 3 with_allow.version "bob" (run_all plain deletion with_allow)).0.policies
      with_allow.policies
revert-SamePolicies_example =
    revert-SamePolicies plain plain-IsRuntime first_change deletion 3 "bob" one_version two_versions

ann_locks : (lock_config 0 "ann" new_store).1 ≡ true
unfolding lock_config new_store
ann_locks = refl

abbrev by_bob : List Operation
by_bob = Operation.create 50 "bob" allow ∷ Operation.unlock "bob" false ∷ Operation.get_lock 60 ∷ []

abbrev ann : String
ann = "ann"

ann_is_not_bob : ann ≢ "bob"
ann_is_not_bob e = cc ((eq_iff "ann" "bob").1 e)

by_bob-IsByOther : All (IsByOther "ann" half_hour) by_bob
by_bob-IsByOther = (
  creates 50 "bob" allow ann_is_not_bob (omega arith),
  (unlocks "bob" ann_is_not_bob, (looks 60 (omega arith), tt)),
)

run_all-lock_config_example :
    run_all plain by_bob (lock_config 0 "ann" new_store).0 ≡ (lock_config 0 "ann" new_store).0
run_all-lock_config_example =
    run_all-lock_config plain 0 "ann" new_store by_bob ann_locks by_bob-IsByOther

abbrev empty_version : ConfigVersion
empty_version = record {
  version = 1;
  policies = [];
  author = "ann";
  message = "";
  change_type = "delete";
  policy_id = "";
  created_at = 0;
}

abbrev allow_version : ConfigVersion
allow_version = record empty_version { version = 2; policies = allow ∷ [] }

abbrev two_snapshots : Store
two_snapshots = record new_store { versions = empty_version ∷ allow_version ∷ []; version = 2 }

added_test : diff plain 1 2 two_snapshots ≡ some (Dict.put "allow" "added" Dict.empty)
unfolding diff find_last changes snapshot_map Dict.get Dict.put Dict.empty Dict.items
added_test = refl

first_found : find_last 1 two_snapshots.versions ≡ some empty_version
unfolding find_last
first_found = refl

second_found : find_last 2 two_snapshots.versions ≡ some allow_version
unfolding find_last
second_found = refl

diff_example :
    (m : Changes) × (diff plain 1 2 two_snapshots ≡ some m)
    × ((id : String)
        → Dict.get id m
          ≡ change_of plain
              (Dict.get id (snapshot_map [] Dict.empty))
              (Dict.get id (snapshot_map (allow ∷ []) Dict.empty)))
diff_example =
    diff_lem plain plain-IsRuntime 1 2 two_snapshots empty_version allow_version first_found
      second_found
