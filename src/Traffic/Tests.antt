-- ===== src/Traffic/Tests.antt =====
-- The traffic log on concrete entries, and the theorems at those inputs.
use apexaegis_management_pla.Prelude.{◌≡◌, refl, true, false, List, [], ◌∷◌, string_eq}
use mathlib.Core.List.{reverse}
use apexaegis_management_pla.Dict
use apexaegis_management_pla.Prelude.Int.{pos}
use apexaegis_management_pla.Traffic.{
  Entry, Store, Filter, Order, new_store, ingest, query, subscribe, unsubscribe, matches_filter,
}
use apexaegis_management_pla.Traffic.Bounded.{Operation, IsTail, run, ingested, run-IsTail}
use apexaegis_management_pla.Traffic.Query.{limited, selected, query_lem}

abbrev seen : Entry
seen = record {
  id = "1";
  timestamp = 5;
  gateway_id = "gw";
  org_id = "org";
  user_id = "u";
  device_id = "d";
  client_ip = "";
  dest_host = "example";
  dest_ip = "";
  dest_port = pos 443;
  protocol = "https";
  http_method = "GET";
  url = "/";
  user_agent = "";
  action = "allow";
  policy_name = "";
  policy_id = "";
  block_reason = "";
  bytes_sent = pos 1;
  bytes_recv = pos 2;
  duration = 0;
  ssl_inspected = true;
  ssl_version = "1.3";
  atp_verdict = "clean";
  dlp_violation = false;
  casb_app = "";
  casb_classify = "";
  rbi_isolated = false;
  fwaas_action = "";
  dns_query = "";
  dns_blocked = false;
  tenant_restrict = false;
}

abbrev later : Entry
later = record seen { id = "2"; timestamp = 0; action = "deny" }

abbrev in_order : Order
in_order l = l

abbrev history : List Operation
history =
    Operation.ingest 6 seen
    ∷ Operation.subscribe "console"
    ∷ Operation.ingest 7 later
    ∷ Operation.unsubscribe "console"
    ∷ []

abbrev logged : Store
logged = run in_order history new_store

abbrev newest : Filter
newest = record {
  org_id = "org";
  user_id = "";
  gateway_id = "";
  dest_host = "";
  action = "";
  since = 0;
  until = 0;
  limit = pos 1;
}

-- The second entry is stamped on arrival.
newest_test : query logged newest ≡ record later { timestamp = 7 } ∷ []
unfolding run new_store ingest subscribe unsubscribe query matches_filter Dict.get Dict.put
    Dict.remove Dict.empty Dict.items
newest_test = refl

run-IsTail_example : IsTail (ingested history) logged.entries
run-IsTail_example = run-IsTail in_order history

query_example : query logged newest ≡ limited (pos 1) (selected newest (reverse logged.entries))
query_example = query_lem logged newest
