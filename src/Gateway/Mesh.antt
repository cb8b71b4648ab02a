-- ===== src/Gateway/Mesh.antt =====
-- The coordinator of the peer-to-peer mesh: internal/gateway/mesh.go. The random identifier of a relay
-- allocation and the time are arguments; the two times that one call reads may differ.
pub mod Cleanup
pub mod FullMesh
pub mod Topology
pub mod Tests
use apexaegis_management_pla.Prelude.{
  ℕ, suc, ◌+◌, ◌*◌, Bool, true, false, ◌&&◌, Option, none, some, String, List, [], ◌∷◌, ◌++◌, map,
  ltb, if◌then◌else◌, ◌==◌, string_eq, length,
}
use apexaegis_management_pla.Prelude.Int.{ℤ, pos}
use apexaegis_management_pla.Dict
use apexaegis_management_pla.Dict.{Dict}
use apexaegis_management_pla.Dict.Each.{each}

pub record PeerEndpoint : Type 0 where
  pub kind : String
  pub address : String
  pub priority : ℤ

pub record MeshPeer : Type 0 where
  pub id : String
  pub org_id : String
  pub user_id : String
  pub peer_type : String
  pub public_key : String
  pub endpoints : List PeerEndpoint
  pub capabilities : List String
  pub status : String
  pub metadata : Dict String String
  pub registered_at : ℕ
  pub last_seen : ℕ

pub record RelayAllocation : Type 0 where
  pub id : String
  pub peer_id : String
  pub relay_addr : String
  pub gateway_id : String
  pub expires_at : ℕ
  pub allocated_at : ℕ

pub record MeshLink : Type 0 where
  pub peer_a : String
  pub peer_b : String
  pub protocol : String
  pub latency : ℤ
  pub status : String

pub record MeshTopology : Type 0 where
  pub peers : List MeshPeer
  pub links : List MeshLink
  pub relays : List RelayAllocation
  pub total_peers : ℕ
  pub online_peers : ℕ

pub record Coordinator : Type 0 where
  pub peers : Dict String MeshPeer
  pub relays : Dict String RelayAllocation

unfoldable pub new_coordinator : Coordinator
new_coordinator = record { peers = Dict.empty; relays = Dict.empty }

-- Only a peer that is not in the map is given a new time of registration, `registered`.
abbrev pub registered_time : ℕ → Option MeshPeer → MeshPeer → ℕ
registered_time registered none p = registered
registered_time registered (some old) p = p.registered_at

unfoldable pub register_peer : ℕ → ℕ → MeshPeer → Coordinator → Coordinator
register_peer seen registered p c = record c {
  peers =
      Dict.put p.id
        (record p {
          last_seen = seen;
          registered_at = registered_time registered (Dict.get p.id c.peers) p;
          status = "online";
        })
        c.peers;
}

unfoldable pub deregister_peer : String → Coordinator → Coordinator
deregister_peer id c = record c { peers = Dict.remove id c.peers }

unfoldable pub get_peer : String → Coordinator → Option MeshPeer
get_peer id c = Dict.get id c.peers

abbrev pub PeerOrder : Type 0
PeerOrder = List (String × MeshPeer) → List (String × MeshPeer)

abbrev pub RelayOrder : Type 0
RelayOrder = List (String × RelayAllocation) → List (String × RelayAllocation)

abbrev pub of_org : String → List (String × MeshPeer) → List MeshPeer
of_org org [] = []
of_org org ((id, p) ∷ rest) = let l = of_org org rest in if p.org_id == org then p ∷ l else l

unfoldable pub list_peers : PeerOrder → String → Coordinator → List MeshPeer
list_peers order org c = of_org org (order (Dict.items c.peers))

abbrev pub is_online : MeshPeer → Bool
is_online p = p.status == "online"

-- One round of the loop over the peers.
abbrev pub add_peer : String → MeshPeer → MeshTopology → MeshTopology
add_peer org p topo =
    if p.org_id == org
    then record topo {
      peers = topo.peers ++ (p ∷ []);
      total_peers = suc topo.total_peers;
      online_peers = if is_online p then suc topo.online_peers else topo.online_peers;
    }
    else topo

unfoldable pub add_peers : String → List (String × MeshPeer) → MeshTopology → MeshTopology
add_peers org [] topo = topo
add_peers org ((id, p) ∷ rest) topo = add_peers org rest (add_peer org p topo)

abbrev pub is_peer_of : String → Option MeshPeer → Bool
is_peer_of org none = false
is_peer_of org (some p) = p.org_id == org

unfoldable pub relays_of :
    Dict String MeshPeer → String → List (String × RelayAllocation) → List RelayAllocation
relays_of peers org [] = []
relays_of peers org ((id, r) ∷ rest) =
    let l = relays_of peers org rest in
    if is_peer_of org (Dict.get r.peer_id peers) then r ∷ l else l

abbrev pub online_of : List MeshPeer → List MeshPeer
online_of [] = []
online_of (p ∷ rest) = let l = online_of rest in if is_online p then p ∷ l else l

abbrev pub link : MeshPeer → MeshPeer → MeshLink
link a b = record {
  peer_a = a.id;
  peer_b = b.id;
  protocol = "quic";
  latency = pos 0;
  status = "active";
}

-- The two nested loops over the online peers.
unfoldable pub links_of : List MeshPeer → List MeshLink
links_of [] = []
links_of (a ∷ rest) = map (link a) rest ++ links_of rest

abbrev pub no_topology : MeshTopology
no_topology = record { peers = []; links = []; relays = []; total_peers = 0; online_peers = 0 }

unfoldable pub get_topology : PeerOrder → RelayOrder → String → Coordinator → MeshTopology
unfolding add_peers relays_of links_of
get_topology peer_order relay_order org c =
    let topo = add_peers org (peer_order (Dict.items c.peers)) no_topology in
    record topo {
      relays = relays_of c.peers org (relay_order (Dict.items c.relays));
      links = links_of (online_of topo.peers);
    }

abbrev pub relay_time : ℕ
relay_time = 10 * 60 * 1000000000

unfoldable pub allocate_relay :
    String → ℕ → ℕ → String → String → String → Coordinator → RelayAllocation × Coordinator
allocate_relay id now later peer_id gateway_id relay_addr c =
    let alloc : RelayAllocation = record {
      id = id;
      peer_id = peer_id;
      relay_addr = relay_addr;
      gateway_id = gateway_id;
      expires_at = now + relay_time;
      allocated_at = later;
    } in
    (alloc, record c { relays = Dict.put id alloc c.relays })

abbrev pub stale_after : ℕ
stale_after = 2 * 60 * 1000000000

abbrev pub is_stale : ℕ → MeshPeer → Bool
is_stale now p = ltb (p.last_seen + stale_after) now

abbrev pub mark : ℕ → String × MeshPeer → Dict String MeshPeer → Dict String MeshPeer
mark now (id, p) m = if is_stale now p then Dict.put id (record p { status = "offline" }) m else m

abbrev pub is_expired : ℕ → RelayAllocation → Bool
is_expired now r = ltb r.expires_at now

abbrev pub expire :
    ℕ → String × RelayAllocation → Dict String RelayAllocation → Dict String RelayAllocation
expire now (id, r) m = if is_expired now r then Dict.remove id m else m

-- One tick of the cleanup loop.
unfoldable pub cleanup : PeerOrder → RelayOrder → ℕ → Coordinator → Coordinator
cleanup peer_order relay_order now c = record {
  peers = each (mark now) (peer_order (Dict.items c.peers)) c.peers;
  relays = each (expire now) (relay_order (Dict.items c.relays)) c.relays;
}
