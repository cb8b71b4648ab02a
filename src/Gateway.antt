-- ===== src/Gateway.antt =====
-- The gateway registry: internal/gateway/registry.go. Time is an argument in nanoseconds, and the
-- calls that a method hands to the attached store are logged in their order.
pub mod Cleanup
pub mod Outcome
pub mod Listing
pub mod Mesh
pub mod Tests
use apexaegis_management_pla.Prelude.{
  ℕ, ◌+◌, ◌*◌, ◌≡◌, Bool, true, false, not, ◌&&◌, ◌||◌, Option, none, some, String, List, [], ◌∷◌,
  ◌++◌, map, ltb, if◌then◌else◌, Eq, ◌==◌, string_eq,
}
use apexaegis_management_pla.Dict
use apexaegis_management_pla.Dict.{Dict}

pub record GatewayNode : Type 0 where
  pub id : String
  pub region : String
  pub name : String
  pub location : String
  pub country : String
  pub provider : String
  pub public_host : String
  pub quic_endpoint : String
  pub tls_endpoint : String
  pub ping_endpoint : String
  pub version : String
  pub status : String
  pub deploy_mode : String
  pub mtls_issued : Bool
  pub cert_not_after : Option ℕ
  pub policy_version : ℕ
  pub last_heartbeat : ℕ
  pub metadata : Dict String String
  pub registered_at : ℕ

-- The methods of the interface Store that the registry calls.
pub data StoreCall : Type 0 where
  upsert : GatewayNode → StoreCall
  update_heartbeat : String → ℕ → StoreCall
  mark_offline : ℕ → StoreCall
  delete_stale : ℕ → StoreCall
  mark_mtls_issued : String → ℕ → StoreCall

-- The field `attached` says whether the registry has a store, and `calls` what it has asked of it.
pub record Registry : Type 0 where
  pub gateways : Dict String GatewayNode
  pub api_keys : Dict String String
  pub attached : Bool
  pub calls : List StoreCall
  pub private_access_ids : Dict String Bool
  pub stream_connected : Dict String Bool

abbrev pub offline_after : ℕ
offline_after = 5 * 60 * 1000000000

abbrev pub stale_remove_after : ℕ
stale_remove_after = 120 * 60 * 1000000000

unfoldable pub new_registry : Registry
new_registry = record {
  gateways = Dict.empty;
  api_keys = Dict.empty;
  attached = false;
  calls = [];
  private_access_ids = Dict.empty;
  stream_connected = Dict.empty;
}

abbrev pub call : StoreCall → Registry → Registry
call c r = if r.attached then record r { calls = r.calls ++ (c ∷ []) } else r

abbrev pub set_store : Registry → Registry
set_store r = record r { attached = true }

-- A lookup in a Go map of Booleans, which is false for a missing key.
abbrev pub is_set : Option Bool → Bool
is_set none = false
is_set (some b) = b

unfoldable pub set_stream_connected : ℕ → String → Bool → Registry → Registry
set_stream_connected now id true r = record r {
  stream_connected = Dict.put id true r.stream_connected;
  gateways = elim (Dict.get id r.gateways) [
    | none ↦ r.gateways
    | some gw ↦ Dict.put id (record gw { last_heartbeat = now; status = "online" }) r.gateways
  ];
}
set_stream_connected now id false r = record r {
  stream_connected = Dict.remove id r.stream_connected;
}

-- The loop of SetPrivateAccessIDs, over strings.TrimSpace.
unfoldable pub id_set : (String → String) → List String → Dict String Bool → Dict String Bool
id_set trim_space [] m = m
id_set trim_space (id ∷ ids) m =
    id_set trim_space ids (if trim_space id == "" then m else Dict.put (trim_space id) true m)

unfoldable pub set_private_access_ids : (String → String) → List String → Registry → Registry
unfolding id_set
set_private_access_ids trim_space ids r = record r {
  private_access_ids = id_set trim_space ids Dict.empty;
}

abbrev pub is_kind : Option String → Bool
is_kind none = false
is_kind (some kind) = kind == "private-access"

unfoldable pub is_private_access : Registry → GatewayNode → Bool
is_private_access r gw =
    is_kind (Dict.get "kind" gw.metadata) || is_set (Dict.get gw.id r.private_access_ids)

-- LoadFromDB, with the gateways that the attached store returns.
unfoldable pub put_all : List GatewayNode → Dict String GatewayNode → Dict String GatewayNode
put_all [] m = m
put_all (gw ∷ rest) m = put_all rest (Dict.put gw.id gw m)

unfoldable pub load_from_db : Option (List GatewayNode) → Registry → Registry × Bool
unfolding put_all
load_from_db none r = if r.attached then (r, false) else (r, true)
load_from_db (some loaded) r =
    if r.attached then (record r { gateways = put_all loaded r.gateways }, true) else (r, true)

-- The node that Register stores.
unfoldable pub registered : ℕ → GatewayNode → Option GatewayNode → GatewayNode
registered now node none = record node {
  last_heartbeat = now;
  registered_at = now;
  status = "online";
}
registered now node (some existing) = record node {
  last_heartbeat = now;
  mtls_issued = existing.mtls_issued;
  cert_not_after = existing.cert_not_after;
  registered_at = existing.registered_at;
  status = "online";
}

unfoldable pub register : ℕ → GatewayNode → Registry → Registry
unfolding registered
register now node r =
    let stored = registered now node (Dict.get node.id r.gateways) in
    call (upsert stored) (record r { gateways = Dict.put node.id stored r.gateways })

unfoldable pub heartbeat : ℕ → String → ℕ → Registry → Registry × Bool
heartbeat now id policy_version r = elim (Dict.get id r.gateways) [
  | none ↦ (r, false)
  | some gw ↦ (
    call (update_heartbeat id policy_version) (record r {
      gateways =
          Dict.put id
            (record gw { last_heartbeat = now; policy_version = policy_version; status = "online" })
            r.gateways;
    }),
    true,
  )
]

unfoldable pub get : Registry → String → Option GatewayNode
get r id = Dict.get id r.gateways

-- The order of a `range` loop over the gateways.
abbrev pub Order : Type 0
Order = List (String × GatewayNode) → List (String × GatewayNode)

unfoldable pub list : Order → Registry → List GatewayNode
list order r = map (λ e. e.1) (order (Dict.items r.gateways))

abbrev pub is_available : Registry → GatewayNode → Bool
is_available r gw = gw.status == "online" && not (is_private_access r gw)

abbrev pub is_broker : Registry → GatewayNode → Bool
is_broker r gw = gw.status == "online" && is_private_access r gw

unfoldable pub select : (GatewayNode → Bool) → List (String × GatewayNode) → List GatewayNode
select test [] = []
select test ((id, gw) ∷ rest) =
    let others = select test rest in if test gw then gw ∷ others else others

unfoldable pub list_available : Order → Registry → List GatewayNode
unfolding select
list_available order r = select (is_available r) (order (Dict.items r.gateways))

unfoldable pub list_private_access : Order → Registry → List GatewayNode
unfolding select
list_private_access order r = select (is_broker r) (order (Dict.items r.gateways))

unfoldable pub issue_mtls : String → ℕ → Registry → Registry
issue_mtls id not_after r = call (mark_mtls_issued id not_after) (record r {
  gateways = elim (Dict.get id r.gateways) [
    | none ↦ r.gateways
    | some gw ↦
        Dict.put id (record gw { mtls_issued = true; cert_not_after = some not_after }) r.gateways
  ];
})

unfoldable pub validate_api_key : Registry → String → Option String
validate_api_key r key = Dict.get key r.api_keys

unfoldable pub register_api_key : String → String → Registry → Registry
register_api_key key id r = record r { api_keys = Dict.put key id r.api_keys }

-- What the cleanup does with one gateway.
pub data Verdict : Type 0 where
  keep : Verdict
  drop : Verdict
  offline : Verdict

unfoldable pub verdict : ℕ → Bool → GatewayNode → Verdict
verdict now connected gw =
    if connected
    then keep
    else if ltb (gw.last_heartbeat + stale_remove_after) now
    then drop
    else if ltb (gw.last_heartbeat + offline_after) now && not (gw.status == "offline")
    then offline
    else keep

abbrev pub apply :
    Verdict → String → GatewayNode → Dict String GatewayNode → Dict String GatewayNode
apply keep id gw m = m
apply drop id gw m = Dict.remove id m
apply offline id gw m = Dict.put id (record gw { status = "offline" }) m

unfoldable pub sweep :
    ℕ
    → Dict String Bool
    → List (String × GatewayNode)
    → Dict String GatewayNode
    → Dict String GatewayNode
unfolding verdict
sweep now connected [] m = m
sweep now connected ((id, gw) ∷ rest) m =
    sweep now connected rest (apply (verdict now (is_set (Dict.get id connected)) gw) id gw m)

-- One tick of StartCleanupLoop.
unfoldable pub cleanup : Order → ℕ → Registry → Registry
unfolding sweep
cleanup order now r = call (delete_stale stale_remove_after) (
    call (mark_offline offline_after) (record r {
      gateways = sweep now r.stream_connected (order (Dict.items r.gateways)) r.gateways;
    }))
