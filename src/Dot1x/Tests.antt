-- ===== src/Dot1x/Tests.antt =====
-- The 802.1X authenticator on a printer and on a laptop, and the theorems at those inputs.
use apexaegis_management_pla.Prelude.{
  ◌≡◌, refl, true, none, some, List, [], ◌∷◌, if◌then◌else◌, ◌==◌, string_eq,
}
use apexaegis_management_pla.Prelude.Int.{pos}
use apexaegis_management_pla.Dict
use apexaegis_management_pla.Dot1x.{
  AuthResponse, success, answer, normalize_mac, Outside, Times, UserStore, AuthRequest,
  AuthzRequest, AuthzResponse, AcctRequest, MacAuthEntry, Authenticator, Certificate,
  new_authenticator, authenticate, authenticate_mab, create_session, register_mac,
  disconnect_session, authorize, authorize_found, apply_groups, record_accounting,
}
use apexaegis_management_pla.Dot1x.Admission.{IsJudged, authenticate-IsJudged}
use apexaegis_management_pla.Dot1x.Sessions.{
  Operation, log_in, add_mac, disconnect, count, run, perform,
}
use apexaegis_management_pla.Dot1x.Authorize.{authorize-authenticate}
use apexaegis_management_pla.Dot1x.Decide.{Texts, IsAnswer, decide, decide-IsAnswer}

abbrev directory : UserStore
directory = record {
  validate_credentials = λ user password org. some true;
  get_user_groups = λ user org. "iot-devices" ∷ [];
}

abbrev in_2026 : Certificate
in_2026 = record { not_before = 10; not_after = 20; common_name = "laptop" }

abbrev around : Outside
around = record {
  decode_pem = λ s. if s == "" then none else some (1 ∷ []);
  parse_certificate = λ block. some in_2026;
  parse_mac = λ mac. some mac;
  decimal = λ n. "7";
  users = some directory;
}

abbrev printer : MacAuthEntry
printer = record {
  mac_address = "00:00:5e:00:53:01";
  device_name = "printer";
  device_type = "printer";
  vlan = pos 30;
  segment_group = "printers";
  org_id = "org";
  created_at = 0;
}

abbrev bypass : AuthRequest
bypass = record {
  switch_id = "sw";
  port_id = "1";
  mac_address = "00:00:5e:00:53:01";
  eap_method = "MAB";
  username = "";
  password = "";
  client_cert_pem = "";
  nas_identifier = "";
  called_station = "";
  org_id = "another org";
}

abbrev at_noon : Times
at_noon = record { checked = 12; milliseconds = 7; started = 12; active = 12 }

abbrev history : List Operation
history = add_mac 11 printer ∷ log_in at_noon bypass ∷ []

abbrev after : Authenticator
after = run around history new_authenticator

abbrev session : AuthzRequest
session = record {
  session_id = "dot1x-sw-1-7";
  switch_id = "sw";
  port_id = "1";
  mac_address = "00:00:5e:00:53:01";
  username = "mab:printer";
  device_type = "";
  org_id = "org";
}

abbrev limited : AuthzResponse
limited = record {
  allowed = true;
  vlan = pos 100;
  segment_group = "default";
  acl_name = "iot-restricted";
  qos_policy = "";
  max_bandwidth = pos 5000;
  message = "";
}

-- The printer is registered for VLAN 30 in another organization than that of the request.
limited_test : authorize around session after ≡ some limited
unfolding authorize authorize_found apply_groups run perform register_mac authenticate
    authenticate_mab create_session new_authenticator Dict.get Dict.put Dict.empty
limited_test = refl

abbrev restart : AcctRequest
restart = record {
  session_id = "dot1x-sw-1-7";
  kind = "start";
  switch_id = "sw";
  port_id = "1";
  mac_address = "";
  username = "";
  input_bytes = pos 0;
  output_bytes = pos 0;
  duration = pos 0;
  reason = "";
  org_id = "";
}

abbrev ended : List Operation
ended = disconnect "dot1x-sw-1-7" ∷ count 13 restart ∷ []

-- An accounting record brings a disconnected session back.
restart_test :
    Dict.get "dot1x-sw-1-7" (run around ended after).sessions
    ≡ Dict.get "dot1x-sw-1-7" (record_accounting 13 restart after).sessions
unfolding run perform register_mac authenticate authenticate_mab create_session new_authenticator
    disconnect_session record_accounting Dict.get Dict.put Dict.empty
restart_test = refl

authenticate-IsJudged_example :
    IsJudged around at_noon bypass after (authenticate around at_noon bypass after)
authenticate-IsJudged_example = authenticate-IsJudged around at_noon bypass after

abbrev registered : List Operation
registered = add_mac 11 printer ∷ []

abbrev with_printer : Authenticator
with_printer = run around registered new_authenticator

abbrev stored_printer : MacAuthEntry
stored_printer = record printer { created_at = 11 }

printer_stored :
    Dict.get (normalize_mac around bypass.mac_address) with_printer.mac_db ≡ some stored_printer
unfolding run perform register_mac new_authenticator Dict.get Dict.put Dict.empty
printer_stored = refl

abbrev printer_answer : AuthResponse
printer_answer = record {
  outcome = success;
  session_id = "dot1x-sw-1-7";
  username = "mab:printer";
  assigned_vlan = pos 30;
  segment_group = "printers";
  acl_name = "";
  session_timeout = pos 28800;
  reauth_period = pos 3600;
  message = "Authenticated";
}

printer_answered : authenticate around at_noon bypass with_printer ≡ answer printer_answer after
unfolding run perform register_mac authenticate authenticate_mab create_session new_authenticator
    Dict.get Dict.put Dict.empty
printer_answered = refl

limited_later : authorize around session (run around [] after) ≡ some limited
unfolding run new_authenticator
limited_later = limited_test

-- The printer is put in VLAN 30 by Authenticate, and in VLAN 100 by Authorize.
authorize-authenticate_example :
    (printer_answer.assigned_vlan ≡ pos 30)
    × (printer_answer.segment_group ≡ "printers")
    × (limited.vlan ≡ pos 100)
    × (limited.segment_group ≡ "default")
authorize-authenticate_example =
    authorize-authenticate around registered [] at_noon bypass stored_printer printer_answer after
      session limited refl printer_stored printer_answered limited_later refl

abbrev texts : Texts
texts = record { encode_pem = λ raw. "pem"; to_text = λ b. "text"; to_bytes = λ s. [] }

-- The program starts the authenticator without a user store.
abbrev unattended : Outside
unattended = record around { users = none }

decide-IsAnswer_example :
    IsAnswer unattended at_noon
      (1 ∷ [])
      (decide unattended at_noon texts (1 ∷ []) [] [] [] new_authenticator)
decide-IsAnswer_example =
    decide-IsAnswer unattended at_noon texts (1 ∷ []) [] [] [] new_authenticator refl refl
