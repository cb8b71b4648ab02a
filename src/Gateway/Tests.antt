-- ===== src/Gateway/Tests.antt =====
-- Runs of the gateway registry on concrete nodes, and the theorems at those inputs.
use apexaegis_management_pla.Prelude.{◌+◌, ◌≡◌, refl, false, none, some, string_eq}
use apexaegis_management_pla.Dict
use apexaegis_management_pla.Gateway.{
  GatewayNode, Registry, is_set, Order, new_registry, register, registered, cleanup, sweep, verdict,
  stale_remove_after, offline_after,
}
use apexaegis_management_pla.Gateway.Cleanup.{Visits}
use apexaegis_management_pla.Gateway.Outcome.{IsLeft, cleanup-IsLeft}

abbrev pop : GatewayNode
pop = record {
  id = "gw-1";
  region = "eu";
  name = "Paris";
  location = "";
  country = "FR";
  provider = "";
  public_host = "";
  quic_endpoint = "";
  tls_endpoint = "";
  ping_endpoint = "";
  version = "1";
  status = "online";
  deploy_mode = "cloud";
  mtls_issued = false;
  cert_not_after = none;
  policy_version = 0;
  last_heartbeat = 0;
  metadata = Dict.empty;
  registered_at = 0;
}

abbrev one : Registry
one = register 0 pop new_registry

abbrev in_order : Order
in_order l = l

in_order-Visits : Visits in_order
in_order-Visits l x = (λ i. i, λ i. i)

pop_stored : Dict.get "gw-1" one.gateways ≡ some pop
unfolding register registered new_registry Dict.get Dict.put Dict.empty
pop_stored = refl

-- Silent for two hours and a nanosecond.
removed_test : Dict.get "gw-1" (cleanup in_order (stale_remove_after + 1) one).gateways ≡ none
unfolding cleanup sweep verdict register registered new_registry Dict.get Dict.put Dict.remove
    Dict.empty Dict.items
removed_test = refl

offline_test :
    Dict.get "gw-1" (cleanup in_order (offline_after + 1) one).gateways
    ≡ some (record pop { status = "offline" })
unfolding cleanup sweep verdict register registered new_registry Dict.get Dict.put Dict.remove
    Dict.empty Dict.items
offline_test = refl

cleanup-IsLeft_example :
    IsLeft
      (offline_after + 1)
      (is_set (Dict.get "gw-1" one.stream_connected))
      (Dict.get "gw-1" one.gateways)
      (Dict.get "gw-1" (cleanup in_order (offline_after + 1) one).gateways)
cleanup-IsLeft_example = cleanup-IsLeft in_order in_order-Visits (offline_after + 1) one "gw-1"
