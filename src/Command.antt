-- ===== src/Command.antt =====
-- Signed management commands: internal/security/command_signing.go. The keys are those of the code
-- signing service, read under its own lock; random bytes and the clock are arguments.
pub mod Once
pub mod Verified
pub mod Tests
use apexaegis_management_pla.Prelude.{
  ℕ, ◌+◌, ◌*◌, Bool, true, false, not, ◌&&◌, ◌||◌, Option, none, some, String, List, [], ◌∷◌, ltb,
  if◌then◌else◌, ◌==◌, string_eq,
}
use apexaegis_management_pla.Prelude.Int.{ℤ, pos, negsuc, scale_int64}
use apexaegis_management_pla.Dict
use apexaegis_management_pla.Dict.{Dict}

-- SHA-256 of a text in hexadecimal, package hex, where decoding gives what it read before an error,
-- and ed25519's Sign and Verify.
pub record Crypto : Type 0 where
  pub sha256_hex : String → String
  pub encode_hex : List ℕ → String
  pub decode_hex : String → List ℕ
  pub sign : List ℕ → List ℕ → List ℕ
  pub verify : List ℕ → List ℕ → List ℕ → Bool

-- What is read of the code signing service.
pub record SigningKey : Type 0 where
  pub id : String
  pub private_key : List ℕ
  pub public_key : List ℕ

pub record KeyRing : Type 0 where
  pub active_key : String
  pub keys : Dict String SigningKey

pub record SignedCommand : Type 0 where
  pub id : String
  pub command_type : String
  pub target_id : String
  pub payload : String
  pub payload_hash : String
  pub signature : String
  pub signing_key_id : String
  pub issued_by : String
  pub issued_at : ℕ
  pub expires_at : ℕ
  pub executed : Bool
  pub executed_at : Option ℕ
  pub nonce : String

pub record IssueCommandRequest : Type 0 where
  pub command_type : String
  pub target_id : String
  pub payload : String
  pub ttl_minutes : ℤ

pub record CommandVerifyRequest : Type 0 where
  pub command_id : String
  pub payload_hash : String
  pub signature : String
  pub nonce : String

pub record CommandVerifyResponse : Type 0 where
  pub valid : Bool
  pub expired : Bool
  pub message : String

pub record Service : Type 0 where
  pub commands : Dict String SignedCommand
  pub nonces : Dict String Bool

unfoldable pub new_service : Service
new_service = record { commands = Dict.empty; nonces = Dict.empty }

pub data Issued : Type 0 where
  issued : SignedCommand → Service → Issued
  no_key : Issued
  no_nonce : Issued

-- What a call of IssueCommand draws: the new identifier, the nonce unless rand.Read fails, and the
-- two times that it reads.
pub record Drawn : Type 0 where
  pub id : String
  pub nonce : Option (List ℕ)
  pub at : ℕ
  pub later : ℕ

abbrev pub minute : ℕ
minute = 60 * 1000000000

-- A time to live that is not positive is 15 minutes.
abbrev pub ttl_of : ℤ → ℕ
ttl_of (pos n) = if ltb 0 n then n else 15 * minute
ttl_of (negsuc n) = 15 * minute

abbrev pub signed :
    Crypto → SigningKey → Drawn → List ℕ → IssueCommandRequest → String → SignedCommand
signed k key w nonce req issued_by =
    let hash = k.sha256_hex req.payload in
    record {
      id = w.id;
      command_type = req.command_type;
      target_id = req.target_id;
      payload = req.payload;
      payload_hash = hash;
      signature = k.encode_hex (k.sign key.private_key (k.decode_hex hash));
      signing_key_id = key.id;
      issued_by = issued_by;
      issued_at = w.at;
      expires_at = w.later + ttl_of (scale_int64 req.ttl_minutes minute);
      executed = false;
      executed_at = none;
      nonce = k.encode_hex nonce;
    }

abbrev pub store_command : SignedCommand → Service → Issued
store_command cmd s = issued cmd (record s { commands = Dict.put cmd.id cmd s.commands })

unfoldable pub issue_command :
    Crypto → KeyRing → Drawn → IssueCommandRequest → String → Service → Issued
issue_command k ring w req issued_by s = elim (Dict.get ring.active_key ring.keys) [
  | none ↦ no_key
  | some key ↦ elim w.nonce [
    | none ↦ no_nonce
    | some nonce ↦ store_command (signed k key w nonce req issued_by) s
  ]
]

abbrev pub refuse : String → CommandVerifyResponse
refuse message = record { valid = false; expired = false; message = message }

abbrev pub is_used : Option Bool → Bool
is_used none = false
is_used (some b) = b

abbrev pub Answer : Type 0
Answer = CommandVerifyResponse × Service

abbrev pub executed_by : ℕ → CommandVerifyRequest → SignedCommand → Service → Answer
executed_by now req cmd s = (
  record { valid = true; expired = false; message = "Command verified — proceed with execution" },
  record {
    commands =
        Dict.put req.command_id (record cmd { executed = true; executed_at = some now }) s.commands;
    nonces = Dict.put req.nonce true s.nonces;
  },
)

-- The check against the key, once the request agrees with the command.
abbrev pub verify_with :
    Crypto → ℕ → CommandVerifyRequest → SignedCommand → Service → Option SigningKey → Answer
verify_with k now req cmd s none = (refuse "Signing key not found", s)
verify_with k now req cmd s (some key) =
    if not (k.verify key.public_key (k.decode_hex cmd.payload_hash) (k.decode_hex cmd.signature))
    then (refuse "Signature verification failed", s)
    else executed_by now req cmd s

abbrev pub verify_found :
    Crypto → KeyRing → ℕ → CommandVerifyRequest → Service → SignedCommand → Answer
verify_found k ring now req s cmd =
    if ltb cmd.expires_at now
    then (record { valid = false; expired = true; message = "Command has expired" }, s)
    else if is_used (Dict.get req.nonce s.nonces)
    then (refuse "Nonce already used (replay detected)", s)
    else if not (req.nonce == cmd.nonce)
    then (refuse "Nonce mismatch", s)
    else if not (req.payload_hash == cmd.payload_hash)
    then (refuse "Payload hash mismatch", s)
    else if not (req.signature == cmd.signature)
    then (refuse "Signature mismatch", s)
    else verify_with k now req cmd s (Dict.get cmd.signing_key_id ring.keys)

unfoldable pub verify_command : Crypto → KeyRing → ℕ → CommandVerifyRequest → Service → Answer
verify_command k ring now req s = elim (Dict.get req.command_id s.commands) [
  | none ↦ (refuse "Unknown command", s)
  | some cmd ↦ verify_found k ring now req s cmd
]

unfoldable pub get_command : String → Service → Option SignedCommand
get_command id s = Dict.get id s.commands

abbrev pub Order : Type 0
Order = List (String × SignedCommand) → List (String × SignedCommand)

abbrev pub is_pending : ℕ → String → SignedCommand → Bool
is_pending now target_id cmd =
    not cmd.executed
    && not (ltb cmd.expires_at now)
    && (cmd.target_id == target_id || cmd.target_id == "*")

abbrev pub pending_of : ℕ → String → List (String × SignedCommand) → List SignedCommand
pending_of now target_id [] = []
pending_of now target_id ((id, cmd) ∷ rest) =
    let l = pending_of now target_id rest in if is_pending now target_id cmd then cmd ∷ l else l

-- The clock is read for each command; `now` is one time for all.
unfoldable pub get_pending_commands : Order → ℕ → String → Service → List SignedCommand
get_pending_commands order now target_id s =
    pending_of now target_id (order (Dict.items s.commands))

-- What may happen to the service, with the keys of that time.
pub data Operation : Type 0 where
  issue : KeyRing → Drawn → IssueCommandRequest → String → Operation
  check : KeyRing → ℕ → CommandVerifyRequest → Operation

abbrev pub left : Issued → Service → Service
left (issued cmd s) before = s
left no_key before = before
left no_nonce before = before

unfoldable pub perform : Crypto → Operation → Service → Service
unfolding issue_command verify_command
perform k (issue ring w req issued_by) s = left (issue_command k ring w req issued_by s) s
perform k (check ring now req) s = (verify_command k ring now req s).1

unfoldable pub run : Crypto → List Operation → Service → Service
unfolding perform
run k [] s = s
run k (op ∷ ops) s = run k ops (perform k op s)
