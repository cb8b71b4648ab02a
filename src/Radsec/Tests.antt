-- ===== src/Radsec/Tests.antt =====
-- Concrete packets, an engine whose handshake takes one flight, and the theorems on them.
use apexaegis_management_pla.Prelude.{
  ℕ, ◌≡◌, refl, ◌≢◌, inr, Bool, true, false, none, some, List, [], ◌∷◌, ◌++◌, arith, length, take,
  replicate, length-replicate, if◌then◌else◌, bytes_eq,
}
use apexaegis_management_pla.Dict
use apexaegis_management_pla.Radsec.Radius.{
  Packet, ok, err, stuck, bad_attribute, parse_packet, encode, IsPacket, declared_length,
  total_length, encode_attributes, parse_attributes, access_accept, first, add, all_values, all_in,
  first_in,
}
use apexaegis_management_pla.Radsec.Radius.RoundTrip.{parse-encode}
use apexaegis_management_pla.Radsec.Radius.Accepted.{encode-parse, parse_packet-ne-stuck}
use apexaegis_management_pla.Radsec.Authenticator.{
  Digest, zeros, finalized, verify_message_authenticator, accepted, panics,
}
use apexaegis_management_pla.Radsec.Authenticator.Verify.{
  authenticator_of, around, verdict, verify_lem, verify-finalized, verify_panics,
}
use apexaegis_management_pla.Radsec.Eap.{
  EapPacket, parse_eap, encode_eap, collect_eap_message, add_eap_message, response, add_chunks,
  flatten, eap_tls_data, encode_result,
}
use apexaegis_management_pla.Radsec.Eap.RoundTrip.{parse-encode_eap}
use apexaegis_management_pla.Radsec.Eap.Fragments.{transfer, receive, receive-transfer}
use apexaegis_management_pla.Radsec.Mppe.{salt_encrypt}
use apexaegis_management_pla.Radsec.Mppe.Decrypt.{decrypt, decrypt-salt_encrypt}
use apexaegis_management_pla.Radsec.Server.{
  Engine, Context, Session, Server, pending, complete, handle_access_request, state, save,
}
use apexaegis_management_pla.Radsec.Server.Genuine.{AllGenuine, Granted, save-AllGenuine}
use apexaegis_management_pla.Radsec.Authenticator.{find_value}
use apexaegis_management_pla.Prelude.{◌∙◌}
use apexaegis_management_pla.Radsec.Server.Connection.{
  serve, serve_packet, serve_verified, answered, IsAuthentic, serve-IsAuthentic, code-finalized,
}
use apexaegis_management_pla.Radsec.Server.Reachable.{started, handled, Reachable-AllGenuine}
use apexaegis_management_pla.Radsec.Server.Accept.{accept-Granted}

-- An Access-Request with a User-Name and a short Message-Authenticator.
abbrev small : Packet
small = record {
  code = 1;
  identifier = 7;
  authenticator = zeros;
  attributes = record { type = 1; value = b'b' ∷ b'o' ∷ b'b' ∷ [] } ∷ [];
}

small-IsPacket : IsPacket small
unfolding total_length
small-IsPacket = record { full_authenticator = refl; fitting = omega arith; bounded = omega arith }

parse-encode_example : parse_packet (encode small ++ (9 ∷ [])) ≡ ok small
parse-encode_example = parse-encode small (9 ∷ []) small-IsPacket

abbrev wire : List ℕ
wire = 1 ∷ 7 ∷ 0 ∷ 25 ∷ (zeros ++ (1 ∷ 5 ∷ b'b' ∷ b'o' ∷ b'b' ∷ []))

encode-small : encode small ≡ wire
unfolding encode encode_attributes total_length
encode-small = refl

parse_wire : parse_packet wire ≡ ok small
unfolding parse_packet parse_attributes
parse_wire = refl

-- An attribute that claims more bytes than the packet has.
parse_overlong : parse_packet (1 ∷ 7 ∷ 0 ∷ 22 ∷ (zeros ++ (1 ∷ 9 ∷ []))) ≡ err (bad_attribute 9 20)
unfolding parse_packet parse_attributes
parse_overlong = refl

encode-parse_example : encode small ≡ take (declared_length wire) wire
encode-parse_example = encode-parse wire small (omega arith) parse_wire

parse_packet-ne-stuck_example : parse_packet wire ≢ err stuck
parse_packet-ne-stuck_example = parse_packet-ne-stuck wire

-- A stand-in for MD5: sixteen times the length of the message.
abbrev toy : Digest
toy = record {
  md5 = λ m. replicate 16 (length m);
  hmac_md5 = λ k m. replicate 16 (length m);
  md5_size = λ m. length-replicate 16 (length m);
  hmac_size = λ k m. length-replicate 16 (length m);
}

verify_example :
    verify_message_authenticator toy (around small [] [] zeros) (encode (around small [] [] zeros))
    ≡ verdict toy (encode (around small [] [] zeros)) zeros
verify_example = verify_lem toy small [] [] zeros refl tt refl

verify-finalized_example :
    let q = record (finalized toy (around small [] [] zeros) zeros) { authenticator = zeros } in
    verify_message_authenticator toy q (encode q) ≡ accepted
verify-finalized_example = verify-finalized toy small zeros [] [] zeros refl tt tt

verify_panics_example :
    let q = record small { attributes = authenticator_of [] ∷ [] } in
    verify_message_authenticator toy q (encode q) ≡ panics
verify_panics_example = verify_panics toy small [] [] refl tt (omega arith)

abbrev identity : EapPacket
identity = record { code = response; identifier = 3; type = 1; payload = b'b' ∷ [] }

parse-encode_eap_example : parse_eap (encode_eap identity ++ (0 ∷ [])) ≡ some identity
parse-encode_eap_example = parse-encode_eap identity (0 ∷ []) (inr refl) (omega arith)

receive-transfer_example : receive [] (transfer 3 9 (replicate 2500 5) 0) ≡ some (replicate 2500 5)
receive-transfer_example =
    receive-transfer 3 9 (replicate 2500 5) (omega (arith, length-replicate {A = ℕ} 2500 5))

decrypt-salt_encrypt_example :
    decrypt toy
      (salt_encrypt toy (1 ∷ 2 ∷ []) (7 ∷ 8 ∷ 9 ∷ []) zeros).0
      (salt_encrypt toy (1 ∷ 2 ∷ []) (7 ∷ 8 ∷ 9 ∷ []) zeros).1
      zeros
    ≡ 7 ∷ 8 ∷ 9 ∷ []
decrypt-salt_encrypt_example =
    decrypt-salt_encrypt toy (1 ∷ 2 ∷ []) (7 ∷ 8 ∷ 9 ∷ []) zeros (omega arith)

-- A TLS server whose handshake completes with the first flight, and a policy that accepts.
abbrev easy : Engine
easy = record {
  Tls = Bool;
  Certificate = Unit {0};
  fresh = false;
  feed = λ t bytes. (true, []);
  progress = λ t. if t then complete else pending;
  certificate = λ t. if t then some tt else none;
  export_msk = λ t. none;
  common_name = λ c. b'd' ∷ [];
  organization = λ c. [];
  decide = λ c nas station org. record {
    accept = true;
    username = [];
    vlan = 0;
    acl = [];
    session_timeout = 0;
    message = [];
  };
  itoa = λ n. [];
  feed_complete = λ t bytes h. refl;
}

abbrev outside : Context
outside = record { now = 5; token = 8 ∷ []; salts = none; conn = 0 }

abbrev waiting_session : Session easy
waiting_session = record {
  id = 4 ∷ [];
  tls = false;
  eap_id = 9;
  reassembly = [];
  out_frags = [];
  out_offset = 0;
  hs_complete = false;
  nas = [];
  station = [];
  org_id = [];
  created = 0;
}

abbrev idle : Server easy
idle = record { sessions = Dict.empty ⦃e = bytes_eq⦄; live = Dict.empty ⦃e = bytes_eq⦄ }

idle-AllGenuine : AllGenuine easy idle
idle-AllGenuine token sess e = absurd (cc (Dict.get-empty {V = Session easy} token))

abbrev running : Server easy
running = save easy idle waiting_session

running-AllGenuine : AllGenuine easy running
running-AllGenuine = save-AllGenuine easy idle waiting_session idle-AllGenuine (λ h. cc)

-- The peer's only flight, in the conversation with the State 4.
abbrev last_flight : Packet
last_flight = record {
  code = 1;
  identifier = 6;
  authenticator = zeros;
  attributes =
      record { type = 24; value = 4 ∷ [] }
      ∷ record { type = 79; value = 2 ∷ 9 ∷ 0 ∷ 7 ∷ 13 ∷ 0 ∷ 22 ∷ [] }
      ∷ [];
}

accepts_flight : (handle_access_request easy toy outside last_flight running).1.code ≡ access_accept
unfolding handle_access_request Dict.get Dict.put Dict.empty collect_eap_message all_values all_in
    flatten parse_eap eap_tls_data first first_in add_eap_message add_chunks add encode_result
    Dict.remove
accepts_flight = refl

accept-Granted_example :
    Granted easy running (first last_flight state)
    × (Dict.get ⦃e = bytes_eq⦄
          (first last_flight state)
          (handle_access_request easy toy outside last_flight running).0.sessions
        ≡ none)
accept-Granted_example =
    accept-Granted easy toy outside last_flight running running-AllGenuine accepts_flight

abbrev flight_bytes : List ℕ
flight_bytes = encode last_flight

abbrev flight_result : Server easy × Packet
flight_result = handle_access_request easy toy outside last_flight running

abbrev flight_answer : Packet
flight_answer = finalized toy flight_result.1 zeros

flight_served : serve easy toy outside flight_bytes running ≡ answered flight_result.0 flight_answer
unfolding serve serve_packet serve_verified parse_packet parse_attributes encode encode_attributes
    total_length verify_message_authenticator find_value
flight_served = refl

answer_code : flight_answer.code ≡ access_accept
answer_code = code-finalized toy flight_result.1 zeros ∙ accepts_flight

serve-IsAuthentic_example :
    IsAuthentic easy toy outside flight_bytes running running-AllGenuine flight_result.0
      flight_answer
serve-IsAuthentic_example =
    serve-IsAuthentic easy toy outside flight_bytes running running-AllGenuine flight_result.0
      flight_answer flight_served answer_code

Reachable-AllGenuine_example :
    AllGenuine easy (handle_access_request easy toy outside last_flight idle).0
Reachable-AllGenuine_example =
    Reachable-AllGenuine easy _ (handled idle toy outside last_flight started)
