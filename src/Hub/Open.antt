-- ===== src/Hub/Open.antt =====
-- The channels of internal/websocket/hub.go that are open, and when a send can panic.
use apexaegis_management_pla.Prelude.{
  ℕ, ◌≡◌, ◌≢◌, ◌↔◌, refl, sym, ap, ◌∙◌, subst, inl, inr, true, false, Option, none, some, String,
  List, [], ◌∷◌, if_cases, Bool-cases, some-eq, nat_eq, ◌==◌, In, if◌then◌else◌,
}
use apexaegis_management_pla.Dict
use apexaegis_management_pla.Dict.{
  Dict, In-items, get-put_cases, get-put_self, get-put_ne, get-remove_cases, get-remove_self,
  get-empty,
}
use apexaegis_management_pla.Hub.{
  Event, Client, Present, present, Hub, Outcome, done, blocked, panic, Order, Action, push, leave,
  take, shut_down, Reachable, start, enter, first, step, new_hub, register, new_client, enqueue,
  is_full, update, greet, send_to, offer_to, next, offer_all, broadcast, drop_present, unregister,
  close_each, close_all, take_from, receive, perform,
}

-- An order visits the entries of the set, and no others.
abbrev pub Visits : Order → Type 0
Visits order = (l : List (ℕ × Present)) (x : ℕ × Present) → In x (order l) ↔ In x l

-- A client that is in memory with an open channel.
pub record IsOpenAt (h : Hub) (id : ℕ) : Type 0 where
  pub client : Client
  pub stored : Dict.get id h.memory ≡ some client
  pub open_channel : client.is_closed ≡ false

-- Every client of the set is.
IsOpen : Hub → Type 0
IsOpen h = (id : ℕ) (p : Present) → Dict.get id h.clients ≡ some p → IsOpenAt h id

-- An outcome that is no panic and leaves the channels of the set open.
data IsSafe (clients : Dict ℕ Present → Type 0) : Outcome → Type 0 where
  safe : (h : Hub) → IsOpen h → clients h.clients → IsSafe clients (done h)
  waits : IsSafe clients blocked

IsSafe-not_panic : {C : Dict ℕ Present → Type 0} {o : Outcome} → IsSafe C o → o ≢ panic
IsSafe-not_panic (safe h i c) e = cc e
IsSafe-not_panic waits e = cc e

done_inj : {g h : Hub} → done g ≡ done h → g ≡ h
done_inj q = cc q

IsSafe-IsOpen :
    {C : Dict ℕ Present → Type 0} {o : Outcome} {h : Hub} → IsSafe C o → o ≡ done h → IsOpen h
IsSafe-IsOpen {h = h} (safe g i c) e = subst IsOpen (done_inj e) i
IsSafe-IsOpen waits e = absurd (cc e)

-- An update of a client that keeps its channel as open as it was.
IsOpen-update :
    (h : Hub) (id : ℕ) (c d : Client)
    → Dict.get id h.memory ≡ some c
    → d.is_closed ≡ c.is_closed
    → IsOpen h
    → IsOpen (update id d h)
unfolding IsOpen
IsOpen-update h id c d there same all k p e =
    let old = all k p e in
    elim (Bool-cases (id == k)) [
      | inl hit ↦
          let q : id ≡ k = (nat_eq.beq_iff id k).0 hit in
          let w : c ≡ old.client =
            some-eq (sym there ∙ ap (λ j. Dict.get j h.memory) q ∙ old.stored) in
          record {
            client = d;
            stored =
                ap (λ j. Dict.get j (Dict.put id d h.memory)) (sym q) ∙ get-put_self id d h.memory;
            open_channel = same ∙ ap (λ (x : Client). x.is_closed) w ∙ old.open_channel;
          }
      | inr miss ↦ record {
        client = old.client;
        stored =
            get-put_ne id k d h.memory (λ q. cc ((nat_eq.beq_iff id k).1 q, miss)) ∙ old.stored;
        open_channel = old.open_channel;
      }
    ]

-- The client leaves the set, and its channel is closed.
IsOpen-drop :
    (h : Hub) (id : ℕ) (d : Client)
    → IsOpen h
    → IsOpen (record h { clients = Dict.remove id h.clients; memory = Dict.put id d h.memory })
unfolding IsOpen
IsOpen-drop h id d all k p e =
    let (n, there) = get-remove_cases id k p h.clients e in
    let old = all k p there in
    record {
      client = old.client;
      stored = get-put_ne id k d h.memory n ∙ old.stored;
      open_channel = old.open_channel;
    }

abbrev Same : Hub → Dict ℕ Present → Type 0
Same h d = d ≡ h.clients

abbrev Any : Dict ℕ Present → Type 0
Any d = Unit

open_at :
    (h : Hub) (id : ℕ) (p : Present) → IsOpen h → Dict.get id h.clients ≡ some p → IsOpenAt h id
unfolding IsOpen
open_at h id p all e = all id p e

next-IsSafe :
    {C : Dict ℕ Present → Type 0} {f : Hub → Outcome} (o : Outcome)
    → IsSafe C o
    → ((g : Hub) → IsOpen g → IsSafe Any (f g))
    → IsSafe Any (next o f)
next-IsSafe _ (safe h i c) k = k h i
next-IsSafe _ waits k = waits

take_from-IsSafe :
    (id : ℕ) (h : Hub) (found : Option Client)
    → Dict.get id h.memory ≡ found
    → IsOpen h
    → IsSafe Any (take_from id h found)
take_from-IsSafe id h none e all = waits
take_from-IsSafe id h (some c) e all = taken c.queue
  where
    taken :
        (q : List Event)
        → IsSafe Any (elim q [
          | [] ↦ if c.is_closed then done h else blocked
          | m ∷ rest ↦ done (update id (record c { queue = rest }) h)
        ])
    taken [] = if_cases (IsSafe Any) c.is_closed (done h) blocked (λ _. safe h all tt) (λ _. waits)
    taken (m ∷ rest) = safe _ (IsOpen-update h id c (record c { queue = rest }) e refl all) tt

offer_to_cases :
    (P : Outcome → Type 0) (id : ℕ) (e : Event) (h : Hub) (c : Client)
    → Dict.get id h.memory ≡ some c
    → c.is_closed ≡ false
    → P (done h)
    → P (done (update id (enqueue e c) h))
    → P (offer_to id e h (Dict.get id h.memory))
offer_to_cases P id e h c there open_channel full sent =
    subst (λ found. P (offer_to id e h found)) (sym there)
      (if_cases P c.is_closed panic _ (λ closed. absurd (cc (closed, open_channel)))
        (λ _. if_cases P (is_full c) (done h) _ (λ _. full) (λ _. sent)))

weaken : {C : Dict ℕ Present → Type 0} (o : Outcome) → IsSafe C o → IsSafe Any o
weaken _ (safe h i c) = safe h i tt
weaken _ waits = waits

offer_all-IsSafe :
    (e : Event) (l : List (ℕ × Present)) (h : Hub)
    → ((id : ℕ) (p : Present) → In (id, p) l → Dict.get id h.clients ≡ some p)
    → IsOpen h
    → IsSafe (Same h) (offer_all e l h)
unfolding offer_all
offer_all-IsSafe e [] h from all = safe h all refl
offer_all-IsSafe e ((id, p) ∷ l) h from all =
    let c = open_at h id p all (from id p (inl refl)) in
    let later = λ (k : ℕ) (q : Present) (i : In (k, q) l). from k q (inr i) in
    offer_to_cases (λ o. IsSafe (Same h) (next o (λ g. offer_all e l g))) id e h c.client c.stored
      c.open_channel (offer_all-IsSafe e l h later all)
      (offer_all-IsSafe e l (update id (enqueue e c.client) h) later
        (IsOpen-update h id c.client (enqueue e c.client) c.stored refl all))

drop_present-IsSafe :
    (id : ℕ) (h : Hub) (found : Option Present)
    → Dict.get id h.clients ≡ found
    → IsOpen h
    → IsSafe Any (drop_present id h found)
drop_present-IsSafe id h none e all = safe h all tt
drop_present-IsSafe id h (some p) e all =
    let c = open_at h id p all e in
    rw (c.stored, c.open_channel)
      (safe _ (IsOpen-drop h id (record c.client { is_closed = true }) all) tt)

close_each-IsSafe : (l : List (ℕ × Present)) (h : Hub) → IsOpen h → IsSafe Any (close_each l h)
unfolding close_each
close_each-IsSafe [] h all = safe h all tt
close_each-IsSafe ((id, p) ∷ l) h all =
    next-IsSafe _ (drop_present-IsSafe id h (Dict.get id h.clients) refl all)
      (λ g i. close_each-IsSafe l g i)

-- What each action but the first message keeps.
perform-IsSafe :
    (order : Order)
    → Visits order
    → (a : Action) (h : Hub) → IsOpen h
    → IsSafe Any (perform order a h)
unfolding perform broadcast unregister receive close_all
perform-IsSafe order visits (push e) h all = weaken _ (
    offer_all-IsSafe e (order (Dict.items h.clients)) h
      (λ id p i. (In-items id p h.clients).0 ((visits (Dict.items h.clients) (id, p)).0 i)) all)
perform-IsSafe order visits (leave id) h all =
    drop_present-IsSafe id h (Dict.get id h.clients) refl all
perform-IsSafe order visits (take id) h all = take_from-IsSafe id h (Dict.get id h.memory) refl all
perform-IsSafe order visits shut_down h all = close_each-IsSafe (order (Dict.items h.clients)) h all

send_to-IsOpen :
    (id : ℕ) (e : Event) (h g : Hub) (found : Option Client)
    → Dict.get id h.memory ≡ found
    → IsOpen h
    → send_to id e h found ≡ done g
    → IsOpen g
send_to-IsOpen id e h g none there all = λ q. absurd (cc q)
send_to-IsOpen id e h g (some c) there all =
    let P = λ (o : Outcome). o ≡ done g → IsOpen g in
    if_cases P c.is_closed panic _ (λ _ q. absurd (cc q))
      (λ _.
        if_cases P (is_full c) blocked _ (λ _ q. absurd (cc q))
          (λ _ q. subst IsOpen (done_inj q) (IsOpen-update h id c (enqueue e c) there refl all)))

IsOpen-empty : IsOpen new_hub
unfolding IsOpen new_hub
IsOpen-empty id p e = absurd (cc (sym (get-empty id) ∙ e))

IsOpen-register :
    (h : Hub) (id : ℕ) (gateway_id : String) → IsOpen h → IsOpen (register id gateway_id h)
unfolding IsOpen register
IsOpen-register h id gateway_id all k p e = elim (Bool-cases (id == k)) [
  | inl hit ↦ record {
    client = new_client gateway_id;
    stored =
        ap (λ j. Dict.get j (Dict.put id (new_client gateway_id) h.memory))
          (sym ((nat_eq.beq_iff id k).0 hit))
        ∙ get-put_self id (new_client gateway_id) h.memory;
    open_channel = refl;
  }
  | inr miss ↦
      let n : id ≢ k = λ q. cc ((nat_eq.beq_iff id k).1 q, miss) in
      let old = all k p (sym (get-put_ne id k present h.clients n) ∙ e) in
      record {
        client = old.client;
        stored = get-put_ne id k (new_client gateway_id) h.memory n ∙ old.stored;
        open_channel = old.open_channel;
      }
]

Reachable-IsOpen : (order : Order) → Visits order → (h : Hub) → Reachable order h → IsOpen h
unfolding greet
Reachable-IsOpen order visits _ start = IsOpen-empty
Reachable-IsOpen order visits _ (enter h id gateway_id r new) =
    IsOpen-register h id gateway_id (Reachable-IsOpen order visits h r)
Reachable-IsOpen order visits _ (first h g id e r q) =
    send_to-IsOpen id e h g (Dict.get id h.memory) refl (Reachable-IsOpen order visits h r) q
Reachable-IsOpen order visits _ (step h g a r q) =
    IsSafe-IsOpen (perform-IsSafe order visits a h (Reachable-IsOpen order visits h r)) q

-- In whatever order the goroutines of the hub run, a broadcast, the end of a client, a read by its writer and
-- closeAll never send on a closed channel and never close one twice.
pub Reachable-not_panic :
    (order : Order)
    → Visits order
    → (h : Hub) → Reachable order h
    → (a : Action) → perform order a h ≢ panic
Reachable-not_panic order visits h r a =
    IsSafe-not_panic (perform-IsSafe order visits a h (Reachable-IsOpen order visits h r))
