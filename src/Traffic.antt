-- ===== src/Traffic.antt =====
-- The traffic log: internal/trafficlog/store.go. An instant is the number of nanoseconds since Go's
-- zero time, and a duration is the 64 bits of its float.
pub mod Bounded
pub mod Query
pub mod Counts
pub mod Tests
use apexaegis_management_pla.Prelude.{
  ℕ, suc, ◌+◌, ◌/◌, ◌≡◌, Bool, true, false, not, ◌&&◌, ◌||◌, Option, none, some, String, List, [],
  ◌∷◌, ◌++◌, ltb, leb, eqb, length, drop, if◌then◌else◌, Eq, ◌==◌, string_eq,
}
use apexaegis_management_pla.Prelude.Int.{ℤ, pos, negsuc, add_int64}
use apexaegis_management_pla.Dict
use apexaegis_management_pla.Dict.{Dict}
use apexaegis_management_pla.Dict.Each.{each}
use mathlib.Core.List.{reverse}

pub record Entry : Type 0 where
  pub id : String
  pub timestamp : ℕ
  pub gateway_id : String
  pub org_id : String
  pub user_id : String
  pub device_id : String
  pub client_ip : String
  pub dest_host : String
  pub dest_ip : String
  pub dest_port : ℤ
  pub protocol : String
  pub http_method : String
  pub url : String
  pub user_agent : String
  pub action : String
  pub policy_name : String
  pub policy_id : String
  pub block_reason : String
  pub bytes_sent : ℤ
  pub bytes_recv : ℤ
  pub duration : ℕ
  pub ssl_inspected : Bool
  pub ssl_version : String
  pub atp_verdict : String
  pub dlp_violation : Bool
  pub casb_app : String
  pub casb_classify : String
  pub rbi_isolated : Bool
  pub fwaas_action : String
  pub dns_query : String
  pub dns_blocked : Bool
  pub tenant_restrict : Bool

-- A subscriber's channel is what it holds.
pub record Store : Type 0 where
  pub entries : List Entry
  pub max_entries : ℕ
  pub subs : Dict String (List Entry)

abbrev pub default_max_entries : ℕ
default_max_entries = 100000

abbrev pub channel_size : ℕ
channel_size = 256

unfoldable pub new_store : Store
new_store = record { entries = []; max_entries = default_max_entries; subs = Dict.empty }

abbrev pub stamped : ℕ → Entry → Entry
stamped now e = if eqb e.timestamp 0 then record e { timestamp = now } else e

-- A full log loses its oldest tenth.
abbrev pub trimmed : ℕ → List Entry → List Entry
trimmed max l = if leb max (length l) then drop (max / 10) l else l

-- The send that does not block.
abbrev pub offer : Entry → List Entry → List Entry
offer e q = if ltb (length q) channel_size then q ++ (e ∷ []) else q

abbrev pub Order : Type 0
Order = List (String × List Entry) → List (String × List Entry)

abbrev pub deliver :
    Entry → String × List Entry → Dict String (List Entry) → Dict String (List Entry)
deliver e (id, q) m = Dict.put id (offer e q) m

unfoldable pub ingest : Order → ℕ → Entry → Store → Store
ingest order now e s = record s {
  entries = trimmed s.max_entries s.entries ++ (stamped now e ∷ []);
  subs = each (deliver (stamped now e)) (order (Dict.items s.subs)) s.subs;
}

pub record Filter : Type 0 where
  pub org_id : String
  pub user_id : String
  pub gateway_id : String
  pub dest_host : String
  pub action : String
  pub since : ℕ
  pub until : ℕ
  pub limit : ℤ

-- Whether a criterion is set and differs.
abbrev pub differs : String → String → Bool
differs wanted value = not (wanted == "") && not (value == wanted)

unfoldable pub matches_filter : Entry → Filter → Bool
matches_filter e f =
    if differs f.org_id e.org_id
    then false
    else if differs f.user_id e.user_id
    then false
    else if differs f.gateway_id e.gateway_id
    then false
    else if differs f.dest_host e.dest_host
    then false
    else if differs f.action e.action
    then false
    else if not (eqb f.since 0) && ltb e.timestamp f.since
    then false
    else not (not (eqb f.until 0) && ltb f.until e.timestamp)

-- `limit > 0 && n >= limit`
abbrev pub is_full : ℤ → ℕ → Bool
is_full (pos limit) n = ltb 0 limit && leb limit n
is_full (negsuc k) n = false

-- The loop of Query, over the entries from the last to the first.
unfoldable pub scan : Filter → List Entry → List Entry → List Entry
scan f [] results = results
scan f (e ∷ rest) results =
    let more = scan f rest (results ++ (e ∷ [])) in
    let skip = scan f rest results in
    if not (matches_filter e f)
    then skip
    else if is_full f.limit (length (results ++ (e ∷ [])))
    then results ++ (e ∷ [])
    else more

unfoldable pub query : Store → Filter → List Entry
unfolding scan
query s f = scan f (reverse s.entries) []

unfoldable pub subscribe : String → Store → Store
subscribe id s = record s { subs = Dict.put id [] s.subs }

unfoldable pub unsubscribe : String → Store → Store
unsubscribe id s = elim (Dict.get id s.subs) [
  | none ↦ s
  | some q ↦ record s { subs = Dict.remove id s.subs }
]

unfoldable pub count : Store → ℕ
count s = length s.entries

pub record TrafficStats : Type 0 where
  pub total_entries : ℕ
  pub allowed : ℕ
  pub denied : ℕ
  pub monitored : ℕ
  pub isolated : ℕ
  pub bytes_sent : ℤ
  pub bytes_recv : ℤ
  pub dlp_violations : ℕ
  pub atp_detections : ℕ
  pub ssl_inspected : ℕ
  pub dns_blocked : ℕ

abbrev pub no_stats : TrafficStats
no_stats = record {
  total_entries = 0;
  allowed = 0;
  denied = 0;
  monitored = 0;
  isolated = 0;
  bytes_sent = pos 0;
  bytes_recv = pos 0;
  dlp_violations = 0;
  atp_detections = 0;
  ssl_inspected = 0;
  dns_blocked = 0;
}

abbrev pub bump : Bool → ℕ → ℕ
bump b n = if b then suc n else n

-- The switch over the action.
abbrev pub tally_action : String → TrafficStats → TrafficStats
tally_action action st =
    if action == "allow"
    then record st { allowed = suc st.allowed }
    else if action == "deny"
    then record st { denied = suc st.denied }
    else if action == "monitor"
    then record st { monitored = suc st.monitored }
    else if action == "isolate"
    then record st { isolated = suc st.isolated }
    else st

abbrev pub is_detection : String → Bool
is_detection verdict = not (verdict == "") && not (verdict == "clean")

abbrev pub tally : Entry → TrafficStats → TrafficStats
tally e st =
    let acted = tally_action e.action (record st {
      total_entries = suc st.total_entries;
      bytes_sent = add_int64 st.bytes_sent e.bytes_sent;
      bytes_recv = add_int64 st.bytes_recv e.bytes_recv;
    }) in
    record acted {
      dlp_violations = bump e.dlp_violation acted.dlp_violations;
      atp_detections = bump (is_detection e.atp_verdict) acted.atp_detections;
      ssl_inspected = bump e.ssl_inspected acted.ssl_inspected;
      dns_blocked = bump e.dns_blocked acted.dns_blocked;
    }

abbrev pub counts : String → Entry → Bool
counts org e = org == "" || e.org_id == org

unfoldable pub stats_from : String → List Entry → TrafficStats → TrafficStats
stats_from org [] st = st
stats_from org (e ∷ rest) st = stats_from org rest (if counts org e then tally e st else st)

unfoldable pub stats : Store → String → TrafficStats
unfolding stats_from
stats s org = stats_from org s.entries no_stats
