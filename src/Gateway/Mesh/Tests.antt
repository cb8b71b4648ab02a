-- ===== src/Gateway/Mesh/Tests.antt =====
-- The mesh coordinator of internal/gateway/mesh.go on two peers, and the theorems at those inputs.
use apexaegis_management_pla.Prelude.{◌≡◌, refl, some, [], string_eq}
use apexaegis_management_pla.Dict
use apexaegis_management_pla.Gateway.Mesh.{
  MeshPeer, RelayAllocation, Coordinator, PeerOrder, RelayOrder, new_coordinator, register_peer,
  allocate_relay, get_topology,
}
use apexaegis_management_pla.Gateway.Mesh.Cleanup.{Visits}
use apexaegis_management_pla.Gateway.Mesh.Topology.{IsMember, Joined}
use apexaegis_management_pla.Gateway.Mesh.FullMesh.{IsOwn, get_topology-Joined, get_topology-IsOwn}

abbrev laptop : MeshPeer
laptop = record {
  id = "laptop";
  org_id = "org";
  user_id = "u";
  peer_type = "endpoint";
  public_key = "key";
  endpoints = [];
  capabilities = [];
  status = "online";
  metadata = Dict.empty;
  registered_at = 0;
  last_seen = 0;
}

abbrev branch : MeshPeer
branch = record laptop { id = "branch"; peer_type = "onprem_gateway" }

abbrev both : Coordinator
both =
    (allocate_relay "r" 0 0 "laptop" "gw" "198.51.100.1:3478"
      (register_peer 0 0 branch (register_peer 0 0 laptop new_coordinator))).1

abbrev relay : RelayAllocation
relay = (allocate_relay "r" 0 0 "laptop" "gw" "198.51.100.1:3478" new_coordinator).0

abbrev peers_in_order : PeerOrder
peers_in_order l = l

abbrev relays_in_order : RelayOrder
relays_in_order l = l

peers_in_order-Visits : Visits peers_in_order
unfolding Visits
peers_in_order-Visits l x = (λ i. i, λ i. i)

relays_in_order-Visits : Visits relays_in_order
unfolding Visits
relays_in_order-Visits l x = (λ i. i, λ i. i)

laptop-IsMember : IsMember both "org" laptop
unfolding allocate_relay register_peer new_coordinator Dict.get Dict.put Dict.empty
laptop-IsMember = record { id = "laptop"; stored = refl; owner = refl; online = refl }

branch-IsMember : IsMember both "org" branch
unfolding allocate_relay register_peer new_coordinator Dict.get Dict.put Dict.empty
branch-IsMember = record { id = "branch"; stored = refl; owner = refl; online = refl }

-- A second registration keeps the time that comes with the peer, not that of the first one.
again_test :
    Dict.get "laptop" (register_peer 9 9 laptop (register_peer 5 5 laptop new_coordinator)).peers
    ≡ some (record laptop { last_seen = 9 })
unfolding register_peer new_coordinator Dict.get Dict.put Dict.empty
again_test = refl

get_topology-Joined_example :
    Joined laptop branch (get_topology peers_in_order relays_in_order "org" both).links
get_topology-Joined_example =
    get_topology-Joined peers_in_order relays_in_order peers_in_order-Visits both "org" laptop
      branch laptop-IsMember branch-IsMember (λ h. cc ((string_eq.beq_iff "laptop" "branch").1 h))

get_topology-IsOwn_example :
    IsOwn both "org" (get_topology peers_in_order relays_in_order "org" both)
get_topology-IsOwn_example =
    get_topology-IsOwn peers_in_order relays_in_order peers_in_order-Visits both "org"
