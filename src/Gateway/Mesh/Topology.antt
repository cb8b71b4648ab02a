-- ===== src/Gateway/Mesh/Topology.antt =====
-- The links and the relays of a topology of internal/gateway/mesh.go.
use apexaegis_management_pla.Prelude.{
  ◌≡◌, ◌≢◌, ◌⊎◌, inl, inr, refl, sym, ap, ◌∙◌, true, Option, none, some, String, List, [], ◌∷◌,
  ◌++◌, map, string_eq, ◌==◌, In, Bool-cases, append-nil, append_assoc,
}
use apexaegis_management_pla.Prelude.Members.{
  In-append_left, In-append_right, In-append_cases, In-map, In-map_cases,
}
use apexaegis_management_pla.Dict
use apexaegis_management_pla.Dict.{Dict, In-items}
use apexaegis_management_pla.Gateway.Mesh.{
  MeshPeer, MeshLink, MeshTopology, RelayAllocation, Coordinator, PeerOrder, of_org, is_online,
  add_peer, add_peers, is_peer_of, relays_of, online_of, link, links_of,
}
use apexaegis_management_pla.Gateway.Mesh.Cleanup.{Visits}

-- An online peer of the organization in the coordinator's map.
pub record IsMember (c : Coordinator) (org : String) (p : MeshPeer) : Type 0 where
  pub id : String
  pub stored : Dict.get id c.peers ≡ some p
  pub owner : p.org_id ≡ org
  pub online : p.status ≡ "online"

pub peers-add_peers :
    (org : String) (l : List (String × MeshPeer)) (topo : MeshTopology)
    → (add_peers org l topo).peers ≡ topo.peers ++ of_org org l
unfolding add_peers
peers-add_peers org [] topo = sym (append-nil topo.peers)
peers-add_peers org ((id, p) ∷ l) topo = elim (Bool-cases (p.org_id == org)) [
  | inl own ↦
      peers-add_peers org l (add_peer org p topo)
      ∙ rw own (append_assoc topo.peers (p ∷ []) (of_org org l))
  | inr other ↦ peers-add_peers org l (add_peer org p topo) ∙ rw other refl
]

of_org-In :
    (org id : String) (p : MeshPeer) (l : List (String × MeshPeer))
    → In (id, p) l
    → p.org_id ≡ org
    → In p (of_org org l)
of_org-In org id p [] i own = elim i [ ]
of_org-In org id p ((j, q) ∷ l) i own = elim (Bool-cases (q.org_id == org)) [
  | inl hit ↦ rw hit (elim i [
    | inl e ↦ inl (ap (λ (x : String × MeshPeer). x.1) e)
    | inr k ↦ inr (of_org-In org id p l k own)
  ])
  | inr miss ↦ rw miss (elim i [
    | inl e ↦ absurd (
        cc (
          (string_eq.beq_iff q.org_id org).1
              (ap (λ (x : String × MeshPeer). x.1.org_id) (sym e) ∙ own),
          miss,
        ))
    | inr k ↦ of_org-In org id p l k own
  ])
]

pub In-of_org :
    (org : String) (p : MeshPeer) (l : List (String × MeshPeer))
    → In p (of_org org l)
    → (id : String) × In (id, p) l × (p.org_id ≡ org)
In-of_org org p [] = λ i. elim i [ ]
In-of_org org p ((j, q) ∷ l) = elim (Bool-cases (q.org_id == org)) [
  | inl hit ↦ rw hit (λ i. elim i [
    | inl e ↦ (
      j,
      inl (ap (λ x. (j, x)) e),
      ap (λ (x : MeshPeer). x.org_id) e ∙ (string_eq.beq_iff q.org_id org).0 hit,
    )
    | inr k ↦ let (id, there, own) = In-of_org org p l k in (id, inr there, own)
  ])
  | inr miss ↦ rw miss (λ i. let (id, there, own) = In-of_org org p l i in (id, inr there, own))
]

online_of-In : (p : MeshPeer) (l : List MeshPeer) → In p l → is_online p ≡ true → In p (online_of l)
online_of-In p [] i on = elim i [ ]
online_of-In p (q ∷ l) i on = elim (Bool-cases (is_online q)) [
  | inl hit ↦ rw hit (elim i [ inl e ↦ inl e | inr j ↦ inr (online_of-In p l j on) ])
  | inr miss ↦
      rw miss
        (elim i [ inl e ↦ absurd (cc (ap is_online e, on, miss)) | inr j ↦ online_of-In p l j on ])
]

In-online_of :
    (p : MeshPeer) (l : List MeshPeer) → In p (online_of l) → In p l × (is_online p ≡ true)
In-online_of p [] = λ i. elim i [ ]
In-online_of p (q ∷ l) = elim (Bool-cases (is_online q)) [
  | inl hit ↦ rw hit (λ i. elim i [
    | inl e ↦ (inl e, ap is_online e ∙ hit)
    | inr j ↦ let (there, on) = In-online_of p l j in (inr there, on)
  ])
  | inr miss ↦ rw miss (λ i. let (there, on) = In-online_of p l i in (inr there, on))
]

-- A link between the two, in the order in which the loops meet them.
unfoldable pub Joined : MeshPeer → MeshPeer → List MeshLink → Type 0
Joined a b links = In (link a b) links ⊎ In (link b a) links

Joined-later :
    (a b : MeshPeer) (first rest : List MeshLink) → Joined a b rest → Joined a b (first ++ rest)
unfolding Joined
Joined-later a b first rest (inl i) = inl (In-append_right (link a b) first rest i)
Joined-later a b first rest (inr i) = inr (In-append_right (link b a) first rest i)

pub links_of-Joined :
    (a b : MeshPeer) (l : List MeshPeer) → a.id ≢ b.id → In a l → In b l → Joined a b (links_of l)
unfolding links_of Joined
links_of-Joined a b [] n i j = elim i [ ]
links_of-Joined a b (x ∷ l) n (inl e) (inl d) = absurd (n (ap (λ (p : MeshPeer). p.id) (e ∙ sym d)))
links_of-Joined a b (x ∷ l) n (inl e) (inr j) =
    inl (In-append_left (link a b) (map (link x) l) (links_of l) (rw e (In-map (link x) b l j)))
links_of-Joined a b (x ∷ l) n (inr i) (inl d) =
    inr (In-append_left (link b a) (map (link x) l) (links_of l) (rw d (In-map (link x) a l i)))
links_of-Joined a b (x ∷ l) n (inr i) (inr j) =
    Joined-later a b (map (link x) l) (links_of l) (links_of-Joined a b l n i j)

pub In-links_of :
    (k : MeshLink) (l : List MeshPeer)
    → In k (links_of l)
    → (a : MeshPeer) × (b : MeshPeer) × (k ≡ link a b) × In a l × In b l
unfolding links_of
In-links_of k [] i = elim i [ ]
In-links_of k (x ∷ l) i = elim (In-append_cases k (map (link x) l) (links_of l) i) [
  | inl first ↦
      let (b, e, there) = In-map_cases (link x) k l first in (x, b, e, inl refl, inr there)
  | inr later ↦ let (a, b, e, at_a, at_b) = In-links_of k l later in (a, b, e, inr at_a, inr at_b)
]

pub In-relays_of :
    (peers : Dict String MeshPeer) (org : String) (r : RelayAllocation)
    (l : List (String × RelayAllocation))
    → In r (relays_of peers org l)
    → (p : MeshPeer) × (Dict.get r.peer_id peers ≡ some p) × (p.org_id ≡ org)
unfolding relays_of
In-relays_of peers org r [] = λ i. elim i [ ]
In-relays_of peers org r ((j, q) ∷ l) =
    elim (Bool-cases (is_peer_of org (Dict.get q.peer_id peers))) [
      | inl hit ↦ rw hit (λ i. elim i [
        | inl e ↦
            owner (Dict.get q.peer_id peers) (Dict.get r.peer_id peers)
              (ap (λ (x : RelayAllocation). Dict.get x.peer_id peers) e) hit
        | inr k ↦ In-relays_of peers org r l k
      ])
      | inr miss ↦ rw miss (λ i. In-relays_of peers org r l i)
    ]
  where
    owner :
        (o u : Option MeshPeer)
        → u ≡ o
        → is_peer_of org o ≡ true
        → (p : MeshPeer) × (u ≡ some p) × (p.org_id ≡ org)
    owner none u e h = absurd (cc h)
    owner (some p) u e h = (p, e, (string_eq.beq_iff p.org_id org).0 h)

-- The online peers that get_topology links are the members.
module _ (order : PeerOrder) (visits : Visits order) (c : Coordinator) (org : String) where
  abbrev pub linked : List MeshPeer
  linked = online_of (of_org org (order (Dict.items c.peers)))

  pub IsMember-linked : (p : MeshPeer) → IsMember c org p → In p linked
  unfolding Visits
  IsMember-linked p m =
      online_of-In p _
        (of_org-In org m.id p (order (Dict.items c.peers))
          ((visits (Dict.items c.peers) (m.id, p)).1 ((In-items m.id p c.peers).1 m.stored))
          m.owner)
        ((string_eq.beq_iff p.status "online").1 m.online)

  pub linked-IsMember : (p : MeshPeer) → In p linked → IsMember c org p
  unfolding Visits
  linked-IsMember p i =
      let (j, on) = In-online_of p (of_org org (order (Dict.items c.peers))) i in
      let (id, k, own) = In-of_org org p (order (Dict.items c.peers)) j in
      record {
        id = id;
        stored = (In-items id p c.peers).0 ((visits (Dict.items c.peers) (id, p)).0 k);
        owner = own;
        online = (string_eq.beq_iff p.status "online").0 on;
      }
