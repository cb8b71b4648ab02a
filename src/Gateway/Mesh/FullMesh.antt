-- ===== src/Gateway/Mesh/FullMesh.antt =====
-- GetTopology of internal/gateway/mesh.go links the online peers of one organization, each to each.
use apexaegis_management_pla.Prelude.{
  ℕ, suc, ◌+◌, ◌*◌, ◌≡◌, ◌≢◌, inl, inr, refl, sym, ap, Bool, some, String, List, [], ◌∷◌, ◌++◌, map,
  length, All, All-of_In, if_cases, string_eq, ◌==◌, In, Bool-cases, arith, length-append, subst,
  if◌then◌else◌,
}
use apexaegis_management_pla.Dict
use apexaegis_management_pla.Dict.{Dict, In-items}
use apexaegis_management_pla.Gateway.Mesh.{
  MeshPeer, MeshLink, MeshTopology, RelayAllocation, Coordinator, PeerOrder, RelayOrder, is_online,
  add_peer, add_peers, online_of, link, links_of, get_topology, no_topology,
}
use apexaegis_management_pla.Gateway.Mesh.Cleanup.{Visits}
use apexaegis_management_pla.Gateway.Mesh.Topology.{
  IsMember, Joined, In-of_org, links_of-Joined, In-links_of, In-relays_of, linked, IsMember-linked,
  linked-IsMember, peers-add_peers,
}

links-linked :
    (po : PeerOrder) (ro : RelayOrder) (visits : Visits po) (c : Coordinator) (org : String)
    → (get_topology po ro org c).links ≡ links_of (linked po visits c org)
unfolding get_topology
links-linked po ro visits c org =
    ap (λ l. links_of (online_of l)) (peers-add_peers org (po (Dict.items c.peers)) _)

-- Any two online peers of an organization, with different identifiers, are linked in its topology.
pub get_topology-Joined :
    (po : PeerOrder) (ro : RelayOrder)
    → Visits po
    → (c : Coordinator) (org : String) (a b : MeshPeer) → IsMember c org a
    → IsMember c org b
    → a.id ≢ b.id
    → Joined a b (get_topology po ro org c).links
get_topology-Joined po ro visits c org a b at_a at_b n =
    subst (Joined a b) (sym (links-linked po ro visits c org)) (
      links_of-Joined a b (linked po visits c org) n (IsMember-linked po visits c org a at_a)
        (IsMember-linked po visits c org b at_b))

-- A link between two members, and a relay of a peer of the organization.
pub data IsOwnLink (c : Coordinator) (org : String) : MeshLink → Type 0 where
  own : (a b : MeshPeer) → IsMember c org a → IsMember c org b → IsOwnLink c org (link a b)

pub record IsOwnRelay (c : Coordinator) (org : String) (r : RelayAllocation) : Type 0 where
  pub peer : MeshPeer
  pub stored : Dict.get r.peer_id c.peers ≡ some peer
  pub owner : peer.org_id ≡ org

-- A peer of the organization under an identifier of the map.
pub record IsOwnPeer (c : Coordinator) (org : String) (p : MeshPeer) : Type 0 where
  pub id : String
  pub stored : Dict.get id c.peers ≡ some p
  pub owner : p.org_id ≡ org

peers-IsOwnPeer :
    (po : PeerOrder) (ro : RelayOrder)
    → Visits po
    → (c : Coordinator) (org : String) (p : MeshPeer) → In p (get_topology po ro org c).peers
    → IsOwnPeer c org p
unfolding get_topology Visits
peers-IsOwnPeer po ro visits c org p i =
    let l = po (Dict.items c.peers) in
    let (id, k, owned) = In-of_org org p l (subst (In p) (peers-add_peers org l no_topology) i) in
    record {
      id = id;
      stored = (In-items id p c.peers).0 ((visits (Dict.items c.peers) (id, p)).0 k);
      owner = owned;
    }

links-IsOwnLink :
    (po : PeerOrder) (ro : RelayOrder)
    → Visits po
    → (c : Coordinator) (org : String) (k : MeshLink) → In k (get_topology po ro org c).links
    → IsOwnLink c org k
links-IsOwnLink po ro visits c org k i =
    let (a, b, e, at_a, at_b) =
      In-links_of k (linked po visits c org) (subst (In k) (links-linked po ro visits c org) i) in
    rw e (own a b (linked-IsMember po visits c org a at_a) (linked-IsMember po visits c org b at_b))

relays-IsOwnRelay :
    (po : PeerOrder) (ro : RelayOrder) (c : Coordinator) (org : String) (r : RelayAllocation)
    → In r (get_topology po ro org c).relays
    → IsOwnRelay c org r
unfolding get_topology
relays-IsOwnRelay po ro c org r i =
    let (p, there, owner) = In-relays_of c.peers org r (ro (Dict.items c.relays)) i in
    record { peer = p; stored = there; owner = owner }

-- The peers, links and relays that a topology shows are those of the organization.
pub record IsOwn (c : Coordinator) (org : String) (t : MeshTopology) : Type 0 where
  pub peers : All (IsOwnPeer c org) t.peers
  pub links : All (IsOwnLink c org) t.links
  pub relays : All (IsOwnRelay c org) t.relays

-- GetTopology shows an organization nothing of another: each peer of the topology is a stored peer of
-- the organization, each link joins two online ones, and each relay serves a stored one.
pub get_topology-IsOwn :
    (po : PeerOrder) (ro : RelayOrder)
    → Visits po
    → (c : Coordinator) (org : String) → IsOwn c org (get_topology po ro org c)
get_topology-IsOwn po ro visits c org = record {
  peers = All-of_In (IsOwnPeer c org) _ (peers-IsOwnPeer po ro visits c org);
  links = All-of_In (IsOwnLink c org) _ (links-IsOwnLink po ro visits c org);
  relays = All-of_In (IsOwnRelay c org) _ (relays-IsOwnRelay po ro c org);
}

length-map : {A B : Type 0} (f : A → B) (l : List A) → length (map f l) ≡ length l
length-map f [] = refl
length-map f (x ∷ l) = ap suc (length-map f l)

square : (n : ℕ) → suc n * suc n ≡ n * n + 2 * n + 1
square n = grind arith

length-links_of : (l : List MeshPeer) → 2 * length (links_of l) + length l ≡ length l * length l
unfolding links_of
length-links_of [] = refl
length-links_of (x ∷ l) =
    let first = length-append (map (link x) l) (links_of l) in
    let each = length-map (link x) l in
    let rest = length-links_of l in let sq = square (length l) in omega arith

-- What the counters of a topology say of its lists.
pub record IsTallied (t : MeshTopology) : Type 0 where
  pub total : t.total_peers ≡ length t.peers
  pub online : t.online_peers ≡ length (online_of t.peers)

abbrev one_if : Bool → ℕ
one_if b = if b then 1 else 0

length-online_of :
    (l : List MeshPeer) (p : MeshPeer)
    → length (online_of (l ++ (p ∷ []))) ≡ length (online_of l) + one_if (is_online p)
length-online_of [] p = elim (Bool-cases (is_online p)) [
  | inl on ↦ rw on refl
  | inr off ↦ rw off refl
]
length-online_of (q ∷ l) p =
    let rest = length-online_of l p in
    elim (Bool-cases (is_online q)) [ inl on ↦ rw on (omega (arith, rest)) | inr off ↦ rw off rest ]

add_peer-IsTallied :
    (org : String) (p : MeshPeer) (t : MeshTopology) → IsTallied t → IsTallied (add_peer org p t)
add_peer-IsTallied org p t h =
    let len = length-append t.peers (p ∷ []) in
    let on_len = length-online_of t.peers p in
    let total = h.total in
    let online = h.online in
    if_cases IsTallied (p.org_id == org) _ t
      (λ _. elim (Bool-cases (is_online p)) [
        | inl on ↦ record { total = omega arith; online = rw on (omega (arith, rw on at on_len)) }
        | inr off ↦ record {
          total = omega arith;
          online = rw off (omega (arith, rw off at on_len));
        }
      ])
      (λ _. h)

add_peers-IsTallied :
    (org : String) (l : List (String × MeshPeer)) (t : MeshTopology)
    → IsTallied t
    → IsTallied (add_peers org l t)
unfolding add_peers
add_peers-IsTallied org [] t h = h
add_peers-IsTallied org ((id, p) ∷ l) t h =
    add_peers-IsTallied org l (add_peer org p t) (add_peer-IsTallied org p t h)

-- The counters of a topology are the numbers of its peers and of those that are online, n say, and it
-- has n * (n - 1) / 2 links.
pub get_topology-IsTallied :
    (po : PeerOrder) (ro : RelayOrder) (c : Coordinator) (org : String)
    → IsTallied (get_topology po ro org c)
      × (2 * length (get_topology po ro org c).links + (get_topology po ro org c).online_peers
          ≡ (get_topology po ro org c).online_peers * (get_topology po ro org c).online_peers)
unfolding get_topology
get_topology-IsTallied po ro c org =
    let shown = add_peers org (po (Dict.items c.peers)) no_topology in
    let t : IsTallied shown =
      add_peers-IsTallied org (po (Dict.items c.peers)) no_topology
        (record { total = refl; online = refl }) in
    (
      record { total = t.total; online = t.online },
      rw t.online (length-links_of (online_of shown.peers)),
    )
