-- ===== src/Signing/Tests.antt =====
-- Tests of internal/security/code_signing.go with a toy signature, which is one byte.
use apexaegis_management_pla.Prelude.{◌≡◌, refl, inl, some, [], ◌∷◌, string_eq, bytes_beq}
use apexaegis_management_pla.Dict
use apexaegis_management_pla.Signing.{
  Crypto, SignedArtifact, SigningKey, SignRequest, Service, NewKey, Drawn, signed, Orders,
  artifact_of, key_of, new_service, generate_key, sign, verify,
}
use apexaegis_management_pla.Signing.Verified.{Reachable, Visits, IsAccepted, verify-sign}

abbrev toy : Crypto
toy = record {
  encode_hex = λ b. "01";
  decode_hex = λ s. some (1 ∷ []);
  sign = λ key m. 1 ∷ [];
  verify = λ key m signature. bytes_beq signature (1 ∷ []);
}

abbrev in_order : Orders
in_order = record { keys = λ l. l; artifacts = λ l. l }

in_order-Visits : Visits in_order
in_order-Visits l x = (λ i. i, λ i. i)

abbrev root : NewKey
root = record { id = "csk-1"; pair = some (2 ∷ [], 3 ∷ []); at = 0 }

abbrev key : SigningKey
key = key_of toy root "root-signing-key" (2 ∷ []) (3 ∷ [])

abbrev started : Service
started = record {
  keys = Dict.put "csk-1" key Dict.empty;
  artifacts = Dict.empty;
  active_key = "csk-1";
}

new_service_test : new_service toy root ≡ some started
unfolding new_service generate_key
new_service_test = refl

abbrev update : SignRequest
update = record {
  artifact_name = "agent";
  artifact_type = "binary";
  version = "1.2";
  sha256 = "00";
}

abbrev drawn : Drawn
drawn = record { id = "art-1"; at = 5; later = 6 }

abbrev artifact : SignedArtifact
artifact = artifact_of toy drawn key (1 ∷ []) update "admin"

abbrev stored : Service
stored = record started { artifacts = Dict.put "art-1" artifact started.artifacts }

sign_test : sign toy drawn update "admin" started ≡ signed artifact stored
unfolding sign Dict.get Dict.put Dict.empty
sign_test = refl

verify-sign_example : IsAccepted (
    verify toy in_order
      (record { sha256 = artifact.sha256; signature = artifact.signature; key_id = "" })
      stored)
verify-sign_example =
    verify-sign toy in_order (λ key message. refl) in_order-Visits drawn update "admin" started
      stored artifact (Reachable.started root started (λ message. refl) new_service_test) ""
      sign_test (inl refl)
