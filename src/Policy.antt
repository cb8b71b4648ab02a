-- ===== src/Policy.antt =====
-- The policy store with its version history and edit lock: internal/policy/store.go. Time is an
-- argument in nanoseconds, a method returns the store that it leaves beside its results, and the
-- version number is taken without its width of 63 bits.
pub mod History
pub mod Versions
pub mod Revert
pub mod Lock
pub mod Defaults
pub mod Diff
pub mod Tests
use apexaegis_management_pla.Prelude.{
  ℕ, suc, ◌<>◌, ◌+◌, ◌*◌, ◌≡◌, ◌≤◌, ◌<◌, ◌↔◌, Bool, true, false, not, ◌&&◌, ◌||◌, Option, none,
  some, String, List, [], ◌∷◌, ◌++◌, map, ltb, leb, eqb, length, drop, if◌then◌else◌, Eq, ◌==◌,
  string_eq, In,
}
use apexaegis_management_pla.Prelude.Int.{ℤ, pos, ◌+ℤ◌, ltbℤ}
use apexaegis_management_pla.Dict
use apexaegis_management_pla.Dict.{Dict}

pub record SecurityPolicy : Type 0 where
  pub id : String
  pub org_id : String
  pub name : String
  pub sequence : ℤ
  pub enabled : Bool
  pub traffic_steering : List String
  pub access_methods : List String
  pub source_users : List String
  pub source_user_groups : List String
  pub source_devices : List String
  pub source_device_groups : List String
  pub source_device_posture : String
  pub source_addresses : List ℕ
  pub source_ip_negate : Bool
  pub dest_addresses : List ℕ
  pub dest_cloud_apps : List ℕ
  pub dest_url_categories : List String
  pub dest_ip_negate : Bool
  pub services : List ℕ
  pub http_methods : List String
  pub crud_operations : List String
  pub action : String
  pub forward_proxy_addr : String
  pub forward_proxy_port : ℤ
  pub ssl_profile : List ℕ
  pub atp_profiles : List ℕ
  pub dns_filter_enabled : Bool
  pub dns_block_categories : List String
  pub dns_allow_categories : List String
  pub dns_custom_blocklist : List String
  pub dns_custom_allowlist : List String
  pub dns_safe_search : Bool
  pub web_filter_enabled : Bool
  pub web_block_categories : List String
  pub web_allow_categories : List String
  pub web_custom_blocklist : List String
  pub web_custom_allowlist : List String
  pub web_safe_search : Bool
  pub web_block_uncategorized : Bool
  pub cloud_tenant_restrict : Bool
  pub cloud_allowed_tenants : List String
  pub log_traffic : Bool
  pub log_security_events : Bool

pub record ConfigVersion : Type 0 where
  pub version : ℕ
  pub policies : List SecurityPolicy
  pub author : String
  pub message : String
  pub change_type : String
  pub policy_id : String
  pub created_at : ℕ

pub record ConfigLock : Type 0 where
  pub locked_by : String
  pub locked_at : ℕ
  pub expires_at : ℕ

-- `changes` is the buffered channel that OnChange hands to the hub.
pub record Store : Type 0 where
  pub policies : Dict String SecurityPolicy
  pub versions : List ConfigVersion
  pub version : ℕ
  pub lock : Option ConfigLock
  pub changes : List ℕ

-- What the store uses of Go: the order of a `range` loop over the policies, `sort.Slice` by the
-- sequence, FormatInt, and the comparison of two policies by their JSON.
pub record Runtime : Type 0 where
  pub order : List (String × SecurityPolicy) → List (String × SecurityPolicy)
  pub sort_by_sequence : List SecurityPolicy → List SecurityPolicy
  pub format_int : ℕ → String
  pub same_json : SecurityPolicy → SecurityPolicy → Bool

abbrev pub max_versions : ℕ
max_versions = 10

abbrev pub channel_size : ℕ
channel_size = 64

abbrev pub lock_duration : ℕ
lock_duration = 30 * 60 * 1000000000

unfoldable pub new_store : Store
new_store = record { policies = Dict.empty; versions = []; version = 0; lock = none; changes = [] }

abbrev pub values_of : List (String × SecurityPolicy) → List SecurityPolicy
values_of l = map (λ e. e.1) l

unfoldable pub list : Runtime → Store → List SecurityPolicy
list rt s = rt.sort_by_sequence (values_of (rt.order (Dict.items s.policies)))

-- Whether the lock still holds, and of another author.
abbrev pub held_by_other : ℕ → String → ConfigLock → Bool
held_by_other now author l = ltb now l.expires_at && not (l.locked_by == author)

abbrev pub relock : ℕ → String → Store → Store
relock now author s = record s {
  lock = some (record { locked_by = author; locked_at = now; expires_at = now + lock_duration });
}

-- Lock: the store, and whether the lock was taken. The lock that it returns is the store's.
unfoldable pub lock_config : ℕ → String → Store → Store × Bool
lock_config now author s = elim s.lock [
  | none ↦ (relock now author s, true)
  | some l ↦ if held_by_other now author l then (s, false) else (relock now author s, true)
]

unfoldable pub unlock : String → Bool → Store → Store × Bool
unlock author force s = elim s.lock [
  | none ↦ (s, true)
  | some l ↦
      if not force && not (l.locked_by == author)
      then (s, false)
      else (record s { lock = none }, true)
]

unfoldable pub get_lock : ℕ → Store → Store × Option ConfigLock
get_lock now s = elim s.lock [
  | none ↦ (s, none)
  | some l ↦ if ltb l.expires_at now then (record s { lock = none }, none) else (s, some l)
]

-- The message that refuses an author, with `none` for the empty one.
unfoldable pub check_lock : ℕ → String → Store → Option String
check_lock now author s = elim s.lock [
  | none ↦ none
  | some l ↦
      if ltb l.expires_at now
      then none
      else if l.locked_by == author
      then none
      else some ("config locked by " <> l.locked_by)
]

-- The send that does not block: nothing is sent to a full channel.
abbrev pub notify : ℕ → List ℕ → List ℕ
notify v q = if ltb (length q) channel_size then q ++ (v ∷ []) else q

abbrev pub trimmed : List ConfigVersion → List ConfigVersion
trimmed vs = if leb max_versions (length vs) then drop 1 vs else vs

-- The version that a commit appends.
abbrev pub snapshot : Runtime → ℕ → String → String → String → String → Store → ConfigVersion
snapshot rt now author message change_type policy_id s = record {
  version = suc s.version;
  policies = list rt s;
  author = author;
  message = message;
  change_type = change_type;
  policy_id = policy_id;
  created_at = now;
}

unfoldable pub commit : Runtime → ℕ → String → String → String → String → Store → Store
unfolding list
commit rt now author message change_type policy_id s = record s {
  version = suc s.version;
  versions = trimmed s.versions ++ (snapshot rt now author message change_type policy_id s ∷ []);
  changes = notify (suc s.version) s.changes;
}

-- The results of a change: the new version, a missing policy, or the lock's refusal.
pub data Change : Type 0 where
  committed : ℕ → Change
  missing : Change
  locked : String → Change

unfoldable pub max_sequence : List (String × SecurityPolicy) → ℤ → ℤ
max_sequence [] m = m
max_sequence ((k, p) ∷ rest) m = max_sequence rest (if ltbℤ m p.sequence then p.sequence else m)

unfoldable pub with_sequence : Runtime → Store → SecurityPolicy → SecurityPolicy
unfolding max_sequence
with_sequence rt s p =
    if ltbℤ (pos 0) p.sequence
    then p
    else record p { sequence = max_sequence (rt.order (Dict.items s.policies)) (pos 0) +ℤ pos 10 }

abbrev pub created : Runtime → ℕ → String → Store → SecurityPolicy → Store
created rt now author s p =
    commit rt now author ("Policy created: " <> p.name) "create" p.id
      (record s { policies = Dict.put p.id p s.policies })

unfoldable pub create : Runtime → ℕ → String → SecurityPolicy → Store → Store × Change
unfolding check_lock with_sequence commit
create rt now author p s = elim (check_lock now author s) [
  | some msg ↦ (s, locked msg)
  | none ↦ (created rt now author s (with_sequence rt s p), committed (suc s.version))
]

abbrev pub updated : Runtime → ℕ → String → Store → SecurityPolicy → Store
updated rt now author s p =
    commit rt now author ("Policy updated: " <> p.name) "update" p.id
      (record s { policies = Dict.put p.id p s.policies })

unfoldable pub update : Runtime → ℕ → String → SecurityPolicy → Store → Store × Change
unfolding check_lock commit
update rt now author p s = elim (check_lock now author s) [
  | some msg ↦ (s, locked msg)
  | none ↦ elim (Dict.get p.id s.policies) [
    | none ↦ (s, missing)
    | some old ↦ (updated rt now author s p, committed (suc s.version))
  ]
]

abbrev pub deleted : Runtime → ℕ → String → Store → String → SecurityPolicy → Store
deleted rt now author s id p =
    commit rt now author ("Policy deleted: " <> p.name) "delete" id
      (record s { policies = Dict.remove id s.policies })

unfoldable pub delete : Runtime → ℕ → String → String → Store → Store × Change
unfolding check_lock commit
delete rt now author id s = elim (check_lock now author s) [
  | some msg ↦ (s, locked msg)
  | none ↦ elim (Dict.get id s.policies) [
    | none ↦ (s, missing)
    | some p ↦ (deleted rt now author s id p, committed (suc s.version))
  ]
]

-- The first version of the history with a number.
unfoldable pub find_version : ℕ → List ConfigVersion → Option ConfigVersion
find_version v [] = none
find_version v (cv ∷ rest) = if eqb cv.version v then some cv else find_version v rest

unfoldable pub get_version : ℕ → Store → Option ConfigVersion
unfolding find_version
get_version v s = find_version v s.versions

-- policySnapshotMap, and the loop with which Revert fills the map.
unfoldable pub snapshot_map :
    List SecurityPolicy → Dict String SecurityPolicy → Dict String SecurityPolicy
snapshot_map [] m = m
snapshot_map (p ∷ ps) m = snapshot_map ps (Dict.put p.id p m)

abbrev pub restored : Runtime → ℕ → ℕ → String → Store → ConfigVersion → Store
restored rt now v author s cv =
    commit rt now author ("Reverted to version " <> (rt.format_int v)) "revert" ""
      (record s { policies = snapshot_map cv.policies Dict.empty })

unfoldable pub revert : Runtime → ℕ → ℕ → String → Store → Store × Change
unfolding find_version snapshot_map commit
revert rt now v author s = elim (find_version v s.versions) [
  | none ↦ (s, missing)
  | some cv ↦ (restored rt now v author s cv, committed (suc s.version))
]
