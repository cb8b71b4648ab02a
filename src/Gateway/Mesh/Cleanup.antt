-- ===== src/Gateway/Mesh/Cleanup.antt =====
-- What a tick of the cleanup loop of internal/gateway/mesh.go leaves.
use apexaegis_management_pla.Prelude.{
  ℕ, ◌≡◌, ◌≢◌, ◌↔◌, ◌⊎◌, inl, inr, refl, ◌∙◌, Option, none, some, String, List, if_cases, string_eq,
  In, Bool-cases, if◌then◌else◌,
}
use apexaegis_management_pla.Dict
use apexaegis_management_pla.Dict.{Dict, get-put_self, get-put_ne, get-remove_self, get-remove_ne}
use apexaegis_management_pla.Dict.Each.{at_key, get-each}
use apexaegis_management_pla.Gateway.Mesh.{
  MeshPeer, RelayAllocation, Coordinator, PeerOrder, RelayOrder, is_stale, mark, is_expired, expire,
  cleanup,
}

-- An order visits the entries of a list, and no others.
unfoldable pub Visits {ℓ} : {A : Type ℓ} → (List A → List A) → Type ℓ
Visits {A} order = (l : List A) (x : A) → In x (order l) ↔ In x l

-- A peer and a relay after the tick.
abbrev pub marked : ℕ → MeshPeer → MeshPeer
marked now p = if is_stale now p then record p { status = "offline" } else p

abbrev pub kept : ℕ → RelayAllocation → Option RelayAllocation
kept now r = if is_expired now r then none else some r

mark-other :
    (now : ℕ) (id k : String) (p : MeshPeer) (m : Dict String MeshPeer)
    → k ≢ id
    → Dict.get id (mark now (k, p) m) ≡ Dict.get id m
mark-other now id k p m n =
    if_cases (λ (x : Dict String MeshPeer). Dict.get id x ≡ Dict.get id m) (is_stale now p) _ m
      (λ _. get-put_ne k id _ m n) (λ _. refl)

mark-hit :
    (now : ℕ) (id : String) (p : MeshPeer) (m : Dict String MeshPeer)
    → (Dict.get id m ≡ some p) ⊎ (Dict.get id m ≡ some (marked now p))
    → Dict.get id (mark now (id, p) m) ≡ some (marked now p)
mark-hit now id p m h = elim (Bool-cases (is_stale now p)) [
  | inl stale ↦ rw stale (get-put_self id (record p { status = "offline" }) m)
  | inr fresh ↦ rw fresh (elim h [ inl e ↦ e | inr e ↦ rw fresh at e ])
]

expire-other :
    (now : ℕ) (id k : String) (r : RelayAllocation) (m : Dict String RelayAllocation)
    → k ≢ id
    → Dict.get id (expire now (k, r) m) ≡ Dict.get id m
expire-other now id k r m n =
    if_cases (λ (x : Dict String RelayAllocation). Dict.get id x ≡ Dict.get id m) (is_expired now r)
      _ m (λ _. get-remove_ne k id m n) (λ _. refl)

expire-hit :
    (now : ℕ) (id : String) (r : RelayAllocation) (m : Dict String RelayAllocation)
    → (Dict.get id m ≡ some r) ⊎ (Dict.get id m ≡ kept now r)
    → Dict.get id (expire now (id, r) m) ≡ kept now r
expire-hit now id r m h = elim (Bool-cases (is_expired now r)) [
  | inl old ↦ rw old (get-remove_self id m)
  | inr live ↦ rw live (elim h [ inl e ↦ e | inr e ↦ rw live at e ])
]

start_at :
    {V : Type 0} {start x y : Option V} {v : V}
    → start ≡ some v
    → (x ≡ start) ⊎ (x ≡ y)
    → (x ≡ some v) ⊎ (x ≡ y)
start_at e (inl h) = inl (h ∙ e)
start_at e (inr h) = inr h

at_key_self :
    {V : Type 0} (target : V → Option V) (o : Option V) → at_key target o o ≡ at_key target none o
at_key_self target none = refl
at_key_self target (some v) = refl

-- In whatever order a tick visits the maps, it turns exactly the peers offline that have been silent for
-- more than two minutes, removes exactly the relays that have expired, and changes nothing else.
pub get-cleanup :
    (peer_order : PeerOrder) (relay_order : RelayOrder)
    → Visits peer_order
    → Visits relay_order
    → (now : ℕ) (c : Coordinator) (id : String)
    → (Dict.get id (cleanup peer_order relay_order now c).peers
        ≡ at_key (λ p. some (marked now p)) none (Dict.get id c.peers))
      × (Dict.get id (cleanup peer_order relay_order now c).relays
          ≡ at_key (kept now) none (Dict.get id c.relays))
unfolding cleanup Visits
get-cleanup peer_order relay_order visits relay_visits now c id =
    let at_peer = Dict.get id c.peers in
    let at_relay = Dict.get id c.relays in
    (
      get-each (mark now) c.peers id at_peer (λ p. some (marked now p)) (mark-other now id)
            (λ p m there h. mark-hit now id p m (start_at there h)) peer_order visits c.peers refl
          ∙ at_key_self (λ p. some (marked now p)) at_peer,
      get-each (expire now) c.relays id at_relay (kept now) (expire-other now id)
            (λ r m there h. expire-hit now id r m (start_at there h)) relay_order relay_visits
            c.relays refl
          ∙ at_key_self (kept now) at_relay,
    )
