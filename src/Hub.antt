-- ===== src/Hub.antt =====
-- The hub that pushes policy versions to the gateways: internal/websocket/hub.go. A client is the
-- number that stands for its pointer; `memory` holds what the pointers refer to, and `clients` the set
-- that the lock guards. json.Marshal of an event does not fail, and a channel holds the events
-- themselves. The sockets are not modelled: `receive` is the writer taking the next message, and
-- `unregister` the end of either of the two goroutines that serve a client.
pub mod Open
pub mod Tests
use apexaegis_management_pla.Prelude.{
  ℕ, ◌≡◌, Bool, true, false, Option, none, some, String, List, [], ◌∷◌, ◌++◌, ltb, length,
  if◌then◌else◌, nat_eq,
}
use apexaegis_management_pla.Prelude.Int.{ℤ}
use apexaegis_management_pla.Dict
use apexaegis_management_pla.Dict.{Dict}

pub record Event : Type 0 where
  pub kind : String
  pub version : ℤ
  pub time : ℤ

pub record Client : Type 0 where
  pub gateway_id : String
  pub queue : List Event
  pub is_closed : Bool

-- An element of a Go set.
pub data Present : Type 0 where
  present : Present

pub record Hub : Type 0 where
  pub clients : Dict ℕ Present
  pub memory : Dict ℕ Client

-- How a call ends: a send on a full channel waits, one on a closed channel panics.
pub data Outcome : Type 0 where
  done : Hub → Outcome
  blocked : Outcome
  panic : Outcome

unfoldable pub new_hub : Hub
new_hub = record { clients = Dict.empty; memory = Dict.empty }

abbrev pub channel_size : ℕ
channel_size = 64

abbrev pub new_client : String → Client
new_client gateway_id = record { gateway_id = gateway_id; queue = []; is_closed = false }

unfoldable pub register : ℕ → String → Hub → Hub
register id gateway_id h = record {
  clients = Dict.put id present h.clients;
  memory = Dict.put id (new_client gateway_id) h.memory;
}

abbrev pub enqueue : Event → Client → Client
enqueue e c = record c { queue = c.queue ++ (e ∷ []) }

abbrev pub is_full : Client → Bool
is_full c = if ltb (length c.queue) channel_size then false else true

abbrev pub update : ℕ → Client → Hub → Hub
update id c h = record h { memory = Dict.put id c h.memory }

-- `cl.send <- data`
abbrev pub send_to : ℕ → Event → Hub → Option Client → Outcome
send_to id e h none = panic
send_to id e h (some c) =
    if c.is_closed then panic else if is_full c then blocked else done (update id (enqueue e c) h)

-- The first message to a new client, which HandleSubscribe sends without the lock.
unfoldable pub greet : ℕ → Event → Hub → Outcome
greet id e h = send_to id e h (Dict.get id h.memory)

-- The send with a `default`.
abbrev pub offer_to : ℕ → Event → Hub → Option Client → Outcome
offer_to id e h none = panic
offer_to id e h (some c) =
    if c.is_closed then panic else if is_full c then done h else done (update id (enqueue e c) h)

abbrev pub next : Outcome → (Hub → Outcome) → Outcome
next (done h) f = f h
next blocked f = blocked
next panic f = panic

unfoldable pub offer_all : Event → List (ℕ × Present) → Hub → Outcome
offer_all e [] h = done h
offer_all e ((id, p) ∷ l) h = next (offer_to id e h (Dict.get id h.memory)) (λ g. offer_all e l g)

abbrev pub Order : Type 0
Order = List (ℕ × Present) → List (ℕ × Present)

unfoldable pub broadcast : Order → Event → Hub → Outcome
unfolding offer_all
broadcast order e h = offer_all e (order (Dict.items h.clients)) h

-- `close(cl.send)`
abbrev pub close_channel : ℕ → Hub → Option Client → Outcome
close_channel id h none = panic
close_channel id h (some c) =
    if c.is_closed then panic else done (update id (record c { is_closed = true }) h)

abbrev pub drop_present : ℕ → Hub → Option Present → Outcome
drop_present id h none = done h
drop_present id h (some p) =
    close_channel id (record h { clients = Dict.remove id h.clients }) (Dict.get id h.memory)

unfoldable pub unregister : ℕ → Hub → Outcome
unregister id h = drop_present id h (Dict.get id h.clients)

-- The loop of closeAll; a range over a map skips a key that is gone.
unfoldable pub close_each : List (ℕ × Present) → Hub → Outcome
close_each [] h = done h
close_each ((id, p) ∷ l) h = next (drop_present id h (Dict.get id h.clients)) (λ g. close_each l g)

unfoldable pub close_all : Order → Hub → Outcome
unfolding close_each
close_all order h = close_each (order (Dict.items h.clients)) h

abbrev pub take_from : ℕ → Hub → Option Client → Outcome
take_from id h none = blocked
take_from id h (some c) = elim c.queue [
  | [] ↦ if c.is_closed then done h else blocked
  | e ∷ rest ↦ done (update id (record c { queue = rest }) h)
]

unfoldable pub receive : ℕ → Hub → Outcome
receive id h = take_from id h (Dict.get id h.memory)

unfoldable pub connected_count : Hub → ℕ
connected_count h = length (Dict.items h.clients)

-- What the goroutines of the hub do, but for the registration and the first message.
pub data Action : Type 0 where
  push : Event → Action
  leave : ℕ → Action
  take : ℕ → Action
  shut_down : Action

unfoldable pub perform : Order → Action → Hub → Outcome
unfolding broadcast unregister receive close_all
perform order (push e) h = broadcast order e h
perform order (leave id) h = unregister id h
perform order (take id) h = receive id h
perform order shut_down h = close_all order h

-- The hubs that the program reaches, whatever the order of its goroutines. A registration brings a
-- pointer that was not in use.
pub data Reachable (order : Order) : Hub → Type 0 where
  start : Reachable order new_hub
  enter :
      (h : Hub) (id : ℕ) (gateway_id : String)
      → Reachable order h
      → Dict.get id h.memory ≡ none
      → Reachable order (register id gateway_id h)
  first :
      (h g : Hub) (id : ℕ) (e : Event)
      → Reachable order h
      → greet id e h ≡ done g
      → Reachable order g
  step :
      (h g : Hub) (a : Action) → Reachable order h → perform order a h ≡ done g → Reachable order g
