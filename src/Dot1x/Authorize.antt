-- ===== src/Dot1x/Authorize.antt =====
-- What Authorize of internal/dot1x/authenticator.go makes of the sessions that the operations leave.
use apexaegis_management_pla.Prelude.{
  ◌≡◌, refl, sym, ap, ◌∙◌, subst, inl, inr, Bool, true, false, Option, none, some, String, List, [],
  ◌∷◌, if_cases, option_cases, Bool-cases, some-eq, string_eq, ◌==◌, ◌<>◌,
}
use apexaegis_management_pla.Prelude.Int.{pos}
use apexaegis_management_pla.Dict
use apexaegis_management_pla.Dict.{Dict, get-put_cases, get-put_self, get-put_ne, get-empty}
use apexaegis_management_pla.Dot1x.{
  with_entry, create_session, authenticate_mab, AuthResponse, Outside, Times, AuthRequest,
  AuthzRequest, AuthzResponse, MacAuthEntry, Session, Authenticator, Reply, answer, panic,
  new_authenticator, authenticate, disconnect_session, authorize, authorize_found, apply_group,
  apply_groups, allowed_by, denied, normalize_mac,
}
use apexaegis_management_pla.Dot1x.Admission.{authenticate-IsJudged}
use apexaegis_management_pla.Dot1x.Sessions.{
  Operation, left, run, AllDefault, AllDefault-empty, stored-IsDefault, log_in-AllDefault,
  run-AllDefault,
}

-- What the groups of a user leave of an answer.
record IsSame (r q : AuthzResponse) : Type 0 where
  allowed : q.allowed ≡ r.allowed
  vlan : q.vlan ≡ r.vlan
  group : q.segment_group ≡ r.segment_group

apply_group-IsSame : (g : String) (r q : AuthzResponse) → IsSame r q → IsSame r (apply_group g q)
apply_group-IsSame g r q h =
    let e = h.allowed in
    let v = h.vlan in
    let k = h.group in
    if_cases (IsSame r) (g == "network-admins") _ _
      (λ _. record { allowed = e; vlan = v; group = k })
      (λ _.
        if_cases (IsSame r) (g == "contractors") _ _
          (λ _. record { allowed = e; vlan = v; group = k })
          (λ _.
            if_cases (IsSame r) (g == "iot-devices") _ q
              (λ _. record { allowed = e; vlan = v; group = k }) (λ _. h)))

apply_groups-IsSame :
    (l : List String) (r q : AuthzResponse) → IsSame r q → IsSame r (apply_groups l q)
unfolding apply_groups
apply_groups-IsSame [] r q h = h
apply_groups-IsSame (g ∷ l) r q h =
    apply_groups-IsSame l r (apply_group g q) (apply_group-IsSame g r q h)

session_cases {ℓ} :
    (o : Outside) (req : AuthzRequest) (found : Option Session) (P : Option AuthzResponse → Type ℓ)
    → (found ≡ none → P (some denied))
    → ((s : Session) → found ≡ some s → P (authorize_found o req (some s)))
    → P (authorize_found o req found)
unfolding authorize_found
session_cases o req none P gone there = gone refl
session_cases o req (some s) P gone there = there s refl

authorize-IsDefault :
    (o : Outside) (req : AuthzRequest) (a : Authenticator) (r : AuthzResponse)
    → AllDefault a.sessions
    → authorize o req a ≡ some r
    → r.allowed ≡ true
    → (r.vlan ≡ pos 100) × (r.segment_group ≡ "default")
unfolding authorize authorize_found
authorize-IsDefault o req a r all =
    let P = λ (x : Option AuthzResponse).
      x ≡ some r → r.allowed ≡ true → (r.vlan ≡ pos 100) × (r.segment_group ≡ "default") in
    session_cases o req (Dict.get req.session_id a.sessions) P
      (λ _ e h. absurd (cc (ap (λ (x : AuthzResponse). x.allowed) (some-eq e), h)))
      (λ s there.
        option_cases P o.users none _ (λ _ e. absurd (cc e))
          (λ users _ e h.
            let d = stored-IsDefault a.sessions req.session_id s all there in
            let groups = users.get_user_groups req.username req.org_id in
            let same =
              apply_groups-IsSame groups (allowed_by s) (allowed_by s)
                (record { allowed = refl; vlan = refl; group = refl }) in
            (
              sym (ap (λ (x : AuthzResponse). x.vlan) (some-eq e)) ∙ same.vlan ∙ d.vlan,
              sym (ap (λ (x : AuthzResponse). x.segment_group) (some-eq e)) ∙ same.group ∙ d.group,
            )))

authenticate-is_mab :
    (o : Outside) (t : Times) (req : AuthRequest) (a : Authenticator)
    → req.eap_method ≡ "MAB"
    → authenticate o t req a ≡ authenticate_mab o t req a
unfolding authenticate
authenticate-is_mab o t req a mab = rw (authenticate, mab) refl

authenticate_mab-found :
    (o : Outside) (t : Times) (req : AuthRequest) (a : Authenticator) (e : MacAuthEntry)
    → Dict.get (normalize_mac o req.mac_address) a.mac_db ≡ some e
    → authenticate_mab o t req a ≡ with_entry e (create_session o t req ("mab:" <> e.device_name) a)
unfolding authenticate_mab
authenticate_mab-found o t req a e there = rw (authenticate_mab, there) refl

-- The VLAN and the group of an answer of Authenticate.
abbrev GivesEntry : MacAuthEntry → Reply → Type 0
GivesEntry e panic = Unit {0}
GivesEntry e (answer p b) = (p.assigned_vlan ≡ e.vlan) × (p.segment_group ≡ e.segment_group)

authenticate-GivesEntry :
    (o : Outside) (t : Times) (req : AuthRequest) (a : Authenticator) (e : MacAuthEntry)
    → req.eap_method ≡ "MAB"
    → Dict.get (normalize_mac o req.mac_address) a.mac_db ≡ some e
    → GivesEntry e (authenticate o t req a)
unfolding create_session
authenticate-GivesEntry o t req a e mab there =
    subst (GivesEntry e)
      (sym (authenticate-is_mab o t req a mab ∙ authenticate_mab-found o t req a e there))
      (refl, refl)

-- After any operations on a new authenticator, a station that authenticates by a registered MAC address
-- is answered the VLAN and the group of its entry; and whatever operations follow, every answer of
-- Authorize that allows something, on its session too, names VLAN 100 and the group "default".
pub authorize-authenticate :
    (o : Outside) (before after : List Operation) (t : Times) (req : AuthRequest) (e : MacAuthEntry)
    (p : AuthResponse) (b : Authenticator) (later : AuthzRequest) (r : AuthzResponse)
    → req.eap_method ≡ "MAB"
    → Dict.get (normalize_mac o req.mac_address) (run o before new_authenticator).mac_db ≡ some e
    → authenticate o t req (run o before new_authenticator) ≡ answer p b
    → authorize o later (run o after b) ≡ some r
    → r.allowed ≡ true
    → (p.assigned_vlan ≡ e.vlan)
      × (p.segment_group ≡ e.segment_group)
      × (r.vlan ≡ pos 100)
      × (r.segment_group ≡ "default")
unfolding new_authenticator
authorize-authenticate o before after t req e p b later r mab there given asked allowed =
    let a = run o before new_authenticator in
    let first : AllDefault a.sessions =
      run-AllDefault o before new_authenticator AllDefault-empty in
    let second : AllDefault b.sessions =
      subst (λ (x : Reply). AllDefault (left x a).sessions) given
        (log_in-AllDefault o t req a (authenticate o t req a) (authenticate-IsJudged o t req a)
          first) in
    let (vlan, group) =
      subst (GivesEntry e) given (authenticate-GivesEntry o t req a e mab there) in
    let (default_vlan, default_group) =
      authorize-IsDefault o later (run o after b) r (run-AllDefault o after b second) asked
        allowed in
    (vlan, group, default_vlan, default_group)

-- Authorize answers for a session that has been disconnected what it answered before.
pub authorize-disconnect_session :
    (o : Outside) (id : String) (req : AuthzRequest) (a : Authenticator)
    → authorize o req (disconnect_session id a).1 ≡ authorize o req a
unfolding authorize authorize_found disconnect_session
authorize-disconnect_session o id req a =
    option_cases (λ (x : Bool × Authenticator). authorize o req x.1 ≡ authorize o req a)
      (Dict.get id a.sessions) (false, a) _ (λ _. refl)
      (λ s there.
        let ended = record s { state = "disconnected" } in
        elim (Bool-cases (id == req.session_id)) [
          | inl e ↦
              let q : id ≡ req.session_id = (string_eq.beq_iff id req.session_id).0 e in
              ap (λ k. authorize_found o req (Dict.get k (Dict.put id ended a.sessions))) (sym q)
              ∙ ap (authorize_found o req) (get-put_self id ended a.sessions)
              ∙ sym (ap (authorize_found o req) (ap (λ k. Dict.get k a.sessions) (sym q) ∙ there))
          | inr e ↦ ap (authorize_found o req) (
              get-put_ne id req.session_id ended a.sessions
                (λ q. cc ((string_eq.beq_iff id req.session_id).1 q, e)))
        ])
