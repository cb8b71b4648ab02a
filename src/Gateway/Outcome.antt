-- ===== src/Gateway/Outcome.antt =====
-- What one tick of the cleanup loop of internal/gateway/registry.go leaves of each gateway.
use apexaegis_management_pla.Prelude.{
  ℕ, ◌+◌, ◌*◌, ◌≤◌, ◌<◌, subst, if_cases, ltb, false, ◌≡◌, inl, inr, refl, sym, ap, ◌∙◌, Bool, true,
  Option, none, some, String, ◌==◌, string_eq, arith, Option-cases, Bool-cases,
}
use apexaegis_management_pla.Dict
use apexaegis_management_pla.Dict.{
  Dict, In-items, get-put_self, get-put_ne, get-remove_self, get-remove_ne,
}
use apexaegis_management_pla.Gateway.{
  GatewayNode, Registry, Order, Verdict, verdict, cleanup, stale_remove_after, offline_after,
  is_set, set_stream_connected,
}
use apexaegis_management_pla.Gateway.Cleanup.{Visits, outcome, left, get-cleanup}

abbrev minute : ℕ
minute = 60 * 1000000000

-- What a tick at `now` leaves of a gateway, in minutes since its last heartbeat: a connected one is as
-- it was, and so is one that was heard of in the last 5 minutes; one that was heard of in the last 120
-- is offline; and one that was silent for longer is gone.
pub data IsLeft (now : ℕ) (connected : Bool)
    : Option GatewayNode → Option GatewayNode → Type 0 where
  absent : IsLeft now connected none none
  live : (gw : GatewayNode) → connected ≡ true → IsLeft now connected (some gw) (some gw)
  recent :
      (gw : GatewayNode)
      → now ≤ gw.last_heartbeat + 5 * minute
      → IsLeft now connected (some gw) (some gw)
  quiet :
      (gw : GatewayNode)
      → connected ≡ false
      → gw.last_heartbeat + 5 * minute < now
      → now ≤ gw.last_heartbeat + 120 * minute
      → IsLeft now connected (some gw) (some (record gw { status = "offline" }))
  stale :
      (gw : GatewayNode)
      → connected ≡ false
      → gw.last_heartbeat + 120 * minute < now
      → IsLeft now connected (some gw) none

outcome-IsLeft :
    (now : ℕ) (connected : Bool) (gw : GatewayNode)
    → IsLeft now connected (some gw) (outcome (verdict now connected gw) gw)
unfolding verdict
outcome-IsLeft now connected gw =
    let P = λ (v : Verdict). IsLeft now connected (some gw) (outcome v gw) in
    if_cases P connected _ _ (λ on. live gw on)
      (λ off.
        if_cases P (ltb (gw.last_heartbeat + stale_remove_after) now) _ _
          (λ old. stale gw off (ground arith))
          (λ young. elim (Bool-cases (ltb (gw.last_heartbeat + offline_after) now)) [
            | inr new ↦ rw new (recent gw (ground arith))
            | inl silent ↦
                let is_quiet = quiet gw off (ground arith) (ground arith) in
                elim (Bool-cases (gw.status == "offline")) [
                  | inr other ↦ rw (silent, other) is_quiet
                  | inl same ↦
                      let e : gw.status ≡ "offline" =
                        (string_eq.beq_iff gw.status "offline").0 same in
                      rw (silent, same)
                        (subst
                          (λ st. IsLeft now connected (some gw) (some (record gw { status = st })))
                          (sym e) is_quiet)
                ]
          ]))

-- One tick of the cleanup leaves a gateway as it was if its policy stream is connected or its last
-- heartbeat is at most 5 minutes old, removes it if the heartbeat is more than 120 minutes old, marks
-- it offline in between, and adds none.
pub cleanup-IsLeft :
    (order : Order) (visits : Visits order) (now : ℕ) (r : Registry) (id : String)
    → IsLeft now
        (is_set (Dict.get id r.stream_connected))
        (Dict.get id r.gateways)
        (Dict.get id (cleanup order now r).gateways)
cleanup-IsLeft order visits now r id =
    let connected = is_set (Dict.get id r.stream_connected) in
    subst (IsLeft now connected (Dict.get id r.gateways)) (sym (get-cleanup order visits now r id))
      (elim (Option-cases (Dict.get id r.gateways)) [
        | inl gone ↦ rw gone absent
        | inr (gw, there) ↦ rw there (outcome-IsLeft now connected gw)
      ])

left-connected :
    (now : ℕ) (connected : Dict String Bool) (id : String) (gw : GatewayNode)
    → is_set (Dict.get id connected) ≡ true
    → left now connected id (some gw) ≡ some gw
unfolding verdict
left-connected now connected id gw h = rw h refl

stream_set :
    (now : ℕ) (r : Registry) (id : String)
    → is_set (Dict.get id (set_stream_connected now id true r).stream_connected) ≡ true
unfolding set_stream_connected
stream_set now r id = rw (get-put_self id true r.stream_connected) refl

get-set_stream_connected :
    (now : ℕ) (r : Registry) (id : String) (gw : GatewayNode)
    → Dict.get id r.gateways ≡ some gw
    → Dict.get id (set_stream_connected now id true r).gateways
      ≡ some (record gw { last_heartbeat = now; status = "online" })
unfolding set_stream_connected Dict.get
get-set_stream_connected now r id gw there =
    rw (set_stream_connected, there)
      (get-put_self id (record gw { last_heartbeat = now; status = "online" }) r.gateways)

-- A registered gateway whose policy stream is connected is online at once, and stays registered and
-- online over a later tick of the cleanup, however long it sends no heartbeat.
pub cleanup-set_stream_connected :
    (order : Order) (visits : Visits order) (now later : ℕ) (r : Registry) (id : String)
    (gw : GatewayNode)
    → Dict.get id r.gateways ≡ some gw
    → Dict.get id (cleanup order later (set_stream_connected now id true r)).gateways
      ≡ some (record gw { last_heartbeat = now; status = "online" })
cleanup-set_stream_connected order visits now later r id gw there =
    let t = set_stream_connected now id true r in
    get-cleanup order visits later t id
    ∙ ap (left later t.stream_connected id) (get-set_stream_connected now r id gw there)
    ∙ left-connected later t.stream_connected id _ (stream_set now r id)
