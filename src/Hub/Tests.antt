-- ===== src/Hub/Tests.antt =====
-- The hub of internal/websocket/hub.go with one gateway, and the theorem at that state.
use apexaegis_management_pla.Prelude.{ℕ, ◌≡◌, ◌≢◌, refl, Option, none, some, nat_eq}
use apexaegis_management_pla.Prelude.Int.{pos}
use apexaegis_management_pla.Dict
use apexaegis_management_pla.Dict.{get-empty}
use apexaegis_management_pla.Hub.{
  Event, Hub, Outcome, done, panic, Order, push, Reachable, start, enter, new_hub, register, greet,
  close_all, close_each, perform,
}
use apexaegis_management_pla.Hub.Open.{Visits, Reachable-not_panic}

abbrev in_order : Order
in_order l = l

in_order-Visits : Visits in_order
in_order-Visits l x = (λ i. i, λ i. i)

abbrev one : Hub
one = register 1 "gw-1" new_hub

one-Reachable : Reachable in_order one
unfolding new_hub
one-Reachable = enter new_hub 1 "gw-1" start (get-empty 1)

abbrev changed : Event
changed = record { kind = "policy_update"; version = pos 2; time = pos 0 }

abbrev taken_after : Outcome → ℕ → Option Outcome
taken_after (done h) id = some (greet id changed h)
taken_after o id = none

-- A shutdown between the registration of a gateway and its first message.
shut_down_test : taken_after (close_all in_order one) 1 ≡ some panic
unfolding new_hub register greet close_all close_each Dict.get Dict.put Dict.remove Dict.items
    Dict.empty
shut_down_test = refl

Reachable-not_panic_example : perform in_order (push changed) one ≢ panic
Reachable-not_panic_example =
    Reachable-not_panic in_order in_order-Visits one one-Reachable (push changed)
