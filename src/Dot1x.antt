-- ===== src/Dot1x.antt =====
-- The 802.1X authenticator: internal/dot1x/authenticator.go. A call of a user store that is nil panics.
-- Between its two looks at the state a call of Authenticate holds no lock; it is taken in one piece.
mod Types
pub mod Admission
pub mod Sessions
pub mod Authorize
pub mod Decide
pub mod Tests
pub use Types.*
use apexaegis_management_pla.Prelude.{
  ℕ, Bool, true, false, not, ◌&&◌, ◌||◌, Option, none, some, String, List, [], ◌∷◌, ltb,
  if◌then◌else◌, ◌==◌, ◌<>◌, string_eq,
}
use apexaegis_management_pla.Prelude.Int.{ℤ, pos}
use apexaegis_management_pla.Dict
use apexaegis_management_pla.Dict.{Dict}

unfoldable pub new_authenticator : Authenticator
new_authenticator = record { sessions = Dict.empty; mac_db = Dict.empty }

abbrev pub normalize_mac : Outside → String → String
normalize_mac o mac = elim (o.parse_mac mac) [ none ↦ mac | some hw ↦ hw ]

abbrev pub rejected : String → AuthResponse
rejected message = record {
  outcome = reject;
  session_id = "";
  username = "";
  assigned_vlan = pos 0;
  segment_group = "";
  acl_name = "";
  session_timeout = pos 0;
  reauth_period = pos 0;
  message = message;
}

abbrev pub session_id : Outside → AuthRequest → ℕ → String
session_id o req ms = "dot1x-" <> req.switch_id <> "-" <> req.port_id <> "-" <> o.decimal ms

abbrev pub new_session : Outside → Times → AuthRequest → String → Session
new_session o t req username = record {
  id = session_id o req t.milliseconds;
  switch_id = req.switch_id;
  port_id = req.port_id;
  mac_address = normalize_mac o req.mac_address;
  username = username;
  eap_method = req.eap_method;
  vlan = pos 100;
  segment_group = "default";
  state = "authenticated";
  started_at = t.started;
  last_activity = t.active;
  input_bytes = pos 0;
  output_bytes = pos 0;
  org_id = req.org_id;
}

abbrev pub accepted : Session → AuthResponse
accepted sess = record {
  outcome = success;
  session_id = sess.id;
  username = sess.username;
  assigned_vlan = sess.vlan;
  segment_group = sess.segment_group;
  acl_name = "";
  session_timeout = pos 28800;
  reauth_period = pos 3600;
  message = "Authenticated";
}

unfoldable pub create_session : Outside → Times → AuthRequest → String → Authenticator → Reply
create_session o t req username a =
    let sess = new_session o t req username in
    answer (accepted sess) (record a { sessions = Dict.put sess.id sess a.sessions })

abbrev pub is_valid_at : ℕ → Certificate → Bool
is_valid_at now cert = not (ltb now cert.not_before || ltb cert.not_after now)

-- From the decoded block on.
abbrev pub check_certificate :
    Outside → Times → AuthRequest → Option Certificate → Authenticator → Reply
check_certificate o t req none a = answer (rejected "Certificate parse failed") a
check_certificate o t req (some cert) a =
    if not (is_valid_at t.checked cert)
    then answer (rejected "Certificate expired or not yet valid") a
    else if cert.common_name == ""
    then answer (rejected "Certificate has no Common Name") a
    else create_session o t req cert.common_name a

unfoldable pub authenticate_eap_tls : Outside → Times → AuthRequest → Authenticator → Reply
authenticate_eap_tls o t req a =
    if req.client_cert_pem == ""
    then answer (rejected "Client certificate required for EAP-TLS") a
    else elim (o.decode_pem req.client_cert_pem) [
      | none ↦ answer (rejected "Invalid certificate format") a
      | some block ↦ check_certificate o t req (o.parse_certificate block) a
    ]

-- What ValidateCredentials gives, `none` for an error.
abbrev pub check_password : Outside → Times → AuthRequest → Option Bool → Authenticator → Reply
check_password o t req none a = answer (rejected "Authentication service error") a
check_password o t req (some valid) a =
    if not valid
    then answer (rejected "Invalid credentials") a
    else create_session o t req req.username a

unfoldable pub authenticate_password : Outside → Times → AuthRequest → Authenticator → Reply
authenticate_password o t req a =
    if req.username == "" || req.password == ""
    then answer (rejected "Username and password required") a
    else elim o.users [
      | none ↦ panic
      | some users ↦
          check_password o t req (users.validate_credentials req.username req.password req.org_id) a
    ]

abbrev pub with_entry : MacAuthEntry → Reply → Reply
with_entry e panic = panic
with_entry e (answer r a) =
    answer (record r { assigned_vlan = e.vlan; segment_group = e.segment_group }) a

unfoldable pub authenticate_mab : Outside → Times → AuthRequest → Authenticator → Reply
authenticate_mab o t req a = elim (Dict.get (normalize_mac o req.mac_address) a.mac_db) [
  | none ↦ answer (rejected "MAC address not in whitelist") a
  | some e ↦ with_entry e (create_session o t req ("mab:" <> e.device_name) a)
]

unfoldable pub authenticate : Outside → Times → AuthRequest → Authenticator → Reply
unfolding authenticate_eap_tls authenticate_password authenticate_mab
authenticate o t req a =
    if req.eap_method == "EAP-TLS"
    then authenticate_eap_tls o t req a
    else if req.eap_method == "EAP-TTLS" || req.eap_method == "PEAP"
    then authenticate_password o t req a
    else if req.eap_method == "MAB"
    then authenticate_mab o t req a
    else answer (rejected "Unsupported EAP method") a

abbrev denied : AuthzResponse
denied = record {
  allowed = false;
  vlan = pos 0;
  segment_group = "";
  acl_name = "";
  qos_policy = "";
  max_bandwidth = pos 0;
  message = "Session not found";
}

abbrev pub apply_group : String → AuthzResponse → AuthzResponse
apply_group g r =
    if g == "network-admins"
    then record r { acl_name = "full-access" }
    else if g == "contractors"
    then record r { acl_name = "restricted"; max_bandwidth = pos 10000 }
    else if g == "iot-devices"
    then record r { acl_name = "iot-restricted"; max_bandwidth = pos 5000 }
    else r

unfoldable pub apply_groups : List String → AuthzResponse → AuthzResponse
apply_groups [] r = r
apply_groups (g ∷ rest) r = apply_groups rest (apply_group g r)

abbrev pub allowed_by : Session → AuthzResponse
allowed_by sess = record {
  allowed = true;
  vlan = sess.vlan;
  segment_group = sess.segment_group;
  acl_name = "";
  qos_policy = "";
  max_bandwidth = pos 0;
  message = "";
}

-- The answer on a session that was looked up; `none` is a panic.
unfoldable pub authorize_found : Outside → AuthzRequest → Option Session → Option AuthzResponse
unfolding apply_groups
authorize_found o req none = some denied
authorize_found o req (some sess) = elim o.users [
  | none ↦ none
  | some users ↦
      some (apply_groups (users.get_user_groups req.username req.org_id) (allowed_by sess))
]

unfoldable pub authorize : Outside → AuthzRequest → Authenticator → Option AuthzResponse
unfolding authorize_found
authorize o req a = authorize_found o req (Dict.get req.session_id a.sessions)

-- The switch over the kind of an accounting record.
abbrev pub account : ℕ → AcctRequest → Session → Session
account now req sess =
    if req.kind == "start"
    then record sess { state = "authenticated"; started_at = now }
    else if req.kind == "interim-update"
    then record sess {
      input_bytes = req.input_bytes;
      output_bytes = req.output_bytes;
      last_activity = now;
    }
    else if req.kind == "stop"
    then record sess {
      state = "disconnected";
      input_bytes = req.input_bytes;
      output_bytes = req.output_bytes;
    }
    else sess

unfoldable pub record_accounting : ℕ → AcctRequest → Authenticator → Authenticator
record_accounting now req a = elim (Dict.get req.session_id a.sessions) [
  | none ↦ a
  | some sess ↦ record a { sessions = Dict.put req.session_id (account now req sess) a.sessions }
]

abbrev pub SessionOrder : Type 0
SessionOrder = List (String × Session) → List (String × Session)

abbrev pub EntryOrder : Type 0
EntryOrder = List (String × MacAuthEntry) → List (String × MacAuthEntry)

-- `if orgID != "" && s.OrgID != orgID`
abbrev pub is_hidden : String → String → Bool
is_hidden org_id owner = not (org_id == "") && not (owner == org_id)

abbrev pub sessions_of : String → List (String × Session) → List Session
sessions_of org_id [] = []
sessions_of org_id ((id, s) ∷ rest) =
    let l = sessions_of org_id rest in if is_hidden org_id s.org_id then l else s ∷ l

unfoldable pub list_sessions : SessionOrder → String → Authenticator → List Session
list_sessions order org_id a = sessions_of org_id (order (Dict.items a.sessions))

unfoldable pub get_session : String → Authenticator → Option Session
get_session id a = Dict.get id a.sessions

unfoldable pub disconnect_session : String → Authenticator → Bool × Authenticator
disconnect_session id a = elim (Dict.get id a.sessions) [
  | none ↦ (false, a)
  | some s ↦
      (true, record a { sessions = Dict.put id (record s { state = "disconnected" }) a.sessions })
]

unfoldable pub register_mac : Outside → ℕ → MacAuthEntry → Authenticator → Authenticator
register_mac o now e a =
    let mac = normalize_mac o e.mac_address in
    record a { mac_db = Dict.put mac (record e { mac_address = mac; created_at = now }) a.mac_db }

unfoldable pub remove_mac : Outside → String → Authenticator → Bool × Authenticator
remove_mac o mac a = elim (Dict.get (normalize_mac o mac) a.mac_db) [
  | none ↦ (false, a)
  | some e ↦ (true, record a { mac_db = Dict.remove (normalize_mac o mac) a.mac_db })
]

abbrev pub entries_of : String → List (String × MacAuthEntry) → List MacAuthEntry
entries_of org_id [] = []
entries_of org_id ((id, e) ∷ rest) =
    let l = entries_of org_id rest in if is_hidden org_id e.org_id then l else e ∷ l

unfoldable pub list_macs : EntryOrder → String → Authenticator → List MacAuthEntry
list_macs order org_id a = entries_of org_id (order (Dict.items a.mac_db))
