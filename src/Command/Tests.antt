-- ===== src/Command/Tests.antt =====
-- The command signing of internal/security/command_signing.go on one command, with a toy signature.
use apexaegis_management_pla.Prelude.{
  ◌≡◌, refl, true, false, some, [], ◌∷◌, string_eq, bytes_beq, subst, some-eq, arith,
}
use apexaegis_management_pla.Prelude.Int.{pos, scale_int64}
use apexaegis_management_pla.Dict
use apexaegis_management_pla.Command.{
  Crypto, KeyRing, SigningKey, SignedCommand, IssueCommandRequest, CommandVerifyRequest, Drawn,
  Service, check, new_service, issue_command, issued, signed, verify_command, run,
}
use apexaegis_management_pla.Command.Once.{verify_command-once}
use apexaegis_management_pla.Command.Verified.{IsKey, request_of, verify-issue_command}

-- One text for all bytes, and a signature that is the message.
abbrev toy : Crypto
toy = record {
  sha256_hex = λ s. "hash";
  encode_hex = λ b. "hex";
  decode_hex = λ s. 1 ∷ [];
  sign = λ key m. 1 ∷ [];
  verify = λ key m signature. bytes_beq signature (1 ∷ []);
}

abbrev key : SigningKey
key = record { id = "key"; private_key = []; public_key = [] }

abbrev ring : KeyRing
ring = record { active_key = "key"; keys = Dict.put "key" key Dict.empty }

abbrev restart : IssueCommandRequest
restart = record {
  command_type = "tunnel_restart";
  target_id = "agent";
  payload = "{}";
  ttl_minutes = pos 0;
}

abbrev drawn : Drawn
drawn = record { id = "cmd-1"; nonce = some (1 ∷ []); at = 5; later = 5 }

abbrev command : SignedCommand
command = signed toy key drawn (1 ∷ []) restart "admin"

abbrev stored : Service
stored = record { commands = Dict.put "cmd-1" command Dict.empty; nonces = Dict.empty }

abbrev request : CommandVerifyRequest
request = record { command_id = "cmd-1"; payload_hash = "hash"; signature = "hex"; nonce = "hex" }

issued_test : issue_command toy ring drawn restart "admin" new_service ≡ issued command stored
unfolding issue_command new_service Dict.get Dict.put Dict.empty
issued_test = refl

valid_test : (verify_command toy ring 6 request stored).0.valid ≡ true
unfolding verify_command scale_int64 Dict.get Dict.put Dict.empty
valid_test = refl

verify_command-once_example :
    (verify_command toy ring 8 request
      (run toy (check ring 7 request ∷ []) (verify_command toy ring 6 request stored).1)).0.valid
    ≡ false
verify_command-once_example =
    verify_command-once toy ring ring 6 8 request request (check ring 7 request ∷ []) stored
      valid_test refl

ring-IsKey :
    (k : SigningKey) → Dict.get ring.active_key ring.keys ≡ some k → IsKey toy ring.active_key k
unfolding Dict.get Dict.put Dict.empty
ring-IsKey k e = subst (IsKey toy "key") (some-eq e) (record { own_id = refl; pair = λ m. refl })

verify-issue_command_example :
    (verify_command toy ring 6 (request_of command) stored).0.valid ≡ true
unfolding Dict.get Dict.put Dict.empty scale_int64 new_service
verify-issue_command_example =
    verify-issue_command toy ring drawn restart "admin" new_service stored command 6 ring-IsKey
      (λ private m. refl) issued_test (omega arith) refl
