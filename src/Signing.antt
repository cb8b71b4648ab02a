-- ===== src/Signing.antt =====
-- Signed artifacts: internal/security/code_signing.go. Random bytes, identifiers and the clock are
-- arguments, and so are Ed25519 and package hex.
pub mod Verified
pub mod Tests
use apexaegis_management_pla.Prelude.{
  ℕ, ◌+◌, ◌*◌, Bool, true, false, not, ◌&&◌, Option, none, some, String, List, [], ◌∷◌,
  if◌then◌else◌, ◌==◌, string_eq,
}
use apexaegis_management_pla.Dict
use apexaegis_management_pla.Dict.{Dict}

-- The arguments are those of ed25519.Sign and Verify: the key comes first, then the message, and the
-- signature last.
pub record Crypto : Type 0 where
  pub encode_hex : List ℕ → String
  pub decode_hex : String → Option (List ℕ)
  pub sign : List ℕ → List ℕ → List ℕ
  pub verify : List ℕ → List ℕ → List ℕ → Bool

pub record SignedArtifact : Type 0 where
  pub id : String
  pub artifact_name : String
  pub artifact_type : String
  pub version : String
  pub sha256 : String
  pub signature : String
  pub signing_key_id : String
  pub signed_at : ℕ
  pub expires_at : ℕ
  pub signed_by : String
  pub verified_at : Option ℕ
  pub verified : Bool

pub record SigningKey : Type 0 where
  pub id : String
  pub label : String
  pub public_key : List ℕ
  pub private_key : List ℕ
  pub public_hex : String
  pub created_at : ℕ
  pub active : Bool

pub record SignRequest : Type 0 where
  pub artifact_name : String
  pub artifact_type : String
  pub version : String
  pub sha256 : String

pub record VerifyRequest : Type 0 where
  pub sha256 : String
  pub signature : String
  pub key_id : String

pub record VerifyResponse : Type 0 where
  pub valid : Bool
  pub key_id : String
  pub artifact_id : String
  pub message : String

pub record Service : Type 0 where
  pub keys : Dict String SigningKey
  pub artifacts : Dict String SignedArtifact
  pub active_key : String

-- What GenerateKey draws: the identifier, the public and the private key unless there is an error, and
-- the time.
pub record NewKey : Type 0 where
  pub id : String
  pub pair : Option (List ℕ × List ℕ)
  pub at : ℕ

abbrev pub key_of : Crypto → NewKey → String → List ℕ → List ℕ → SigningKey
key_of c w label public private = record {
  id = w.id;
  label = label;
  public_key = public;
  private_key = private;
  public_hex = c.encode_hex public;
  created_at = w.at;
  active = true;
}

-- `none` is an error.
unfoldable pub generate_key : Crypto → NewKey → String → Service → Option (SigningKey × Service)
generate_key c w label s = elim w.pair [
  | none ↦ none
  | some (public, private) ↦
      let key = key_of c w label public private in
      some (key, record s { keys = Dict.put w.id key s.keys })
]

abbrev pub no_keys : Service
no_keys = record { keys = Dict.empty; artifacts = Dict.empty; active_key = "" }

-- `none` where the key is nil, on which the code panics.
unfoldable pub new_service : Crypto → NewKey → Option Service
unfolding generate_key
new_service c w = elim (generate_key c w "root-signing-key" no_keys) [
  | none ↦ none
  | some (key, s) ↦ some (record s { active_key = key.id })
]

-- The identifier and the times that Sign reads.
pub record Drawn : Type 0 where
  pub id : String
  pub at : ℕ
  pub later : ℕ

abbrev pub year : ℕ
year = 365 * (24 * (3600 * 1000000000))

abbrev pub artifact_of :
    Crypto → Drawn → SigningKey → List ℕ → SignRequest → String → SignedArtifact
artifact_of c w key digest req signed_by = record {
  id = w.id;
  artifact_name = req.artifact_name;
  artifact_type = req.artifact_type;
  version = req.version;
  sha256 = req.sha256;
  signature = c.encode_hex (c.sign key.private_key digest);
  signing_key_id = key.id;
  signed_at = w.at;
  expires_at = w.later + year;
  signed_by = signed_by;
  verified_at = none;
  verified = true;
}

pub data Signed : Type 0 where
  signed : SignedArtifact → Service → Signed
  no_active_key : Signed
  bad_sha256 : Signed

abbrev pub store_artifact : SignedArtifact → Service → Signed
store_artifact a s = signed a (record s { artifacts = Dict.put a.id a s.artifacts })

unfoldable pub sign : Crypto → Drawn → SignRequest → String → Service → Signed
sign c w req signed_by s = elim (Dict.get s.active_key s.keys) [
  | none ↦ no_active_key
  | some key ↦ elim (c.decode_hex req.sha256) [
    | none ↦ bad_sha256
    | some digest ↦ store_artifact (artifact_of c w key digest req signed_by) s
  ]
]

abbrev pub bool_msg : Bool → String
bool_msg true = "Signature verified"
bool_msg false = "Signature verification failed"

-- The orders of the two loops over maps.
pub record Orders : Type 0 where
  pub keys : List (String × SigningKey) → List (String × SigningKey)
  pub artifacts : List (String × SignedArtifact) → List (String × SignedArtifact)

abbrev pub artifact_id : VerifyRequest → List (String × SignedArtifact) → String
artifact_id req [] = ""
artifact_id req ((id, a) ∷ rest) =
    let later = artifact_id req rest in
    if a.sha256 == req.sha256 && a.signature == req.signature then a.id else later

abbrev pub find_key : Crypto → List ℕ → List ℕ → List (String × SigningKey) → Option SigningKey
find_key c digest sig [] = none
find_key c digest sig ((id, key) ∷ rest) =
    let later = find_key c digest sig rest in
    if c.verify key.public_key digest sig then some key else later

abbrev pub by_any : String → Option SigningKey → VerifyResponse
by_any artifact (some key) = record {
  valid = true;
  key_id = key.id;
  artifact_id = artifact;
  message = "Signature verified";
}
by_any artifact none = record {
  valid = false;
  key_id = "";
  artifact_id = "";
  message = "Signature verification failed — no matching key";
}

abbrev pub by_key : Crypto → List ℕ → List ℕ → String → Option SigningKey → VerifyResponse
by_key c digest sig id none = record {
  valid = false;
  key_id = "";
  artifact_id = "";
  message = "Unknown signing key";
}
by_key c digest sig id (some key) =
    let valid = c.verify key.public_key digest sig in
    record { valid = valid; key_id = id; artifact_id = ""; message = bool_msg valid }

abbrev pub check_signature :
    Crypto → Orders → List ℕ → List ℕ → VerifyRequest → Service → VerifyResponse
check_signature c order digest sig req s =
    if not (req.key_id == "")
    then by_key c digest sig req.key_id (Dict.get req.key_id s.keys)
    else by_any (artifact_id req (order.artifacts (Dict.items s.artifacts)))
        (find_key c digest sig (order.keys (Dict.items s.keys)))

pub data Checked : Type 0 where
  answered : VerifyResponse → Checked
  bad_digest bad_signature : Checked

unfoldable pub verify : Crypto → Orders → VerifyRequest → Service → Checked
verify c order req s = elim (c.decode_hex req.sha256) [
  | none ↦ bad_digest
  | some digest ↦ elim (c.decode_hex req.signature) [
    | none ↦ bad_signature
    | some sig ↦ answered (check_signature c order digest sig req s)
  ]
]

-- `none` is an error.
unfoldable pub get_public_key : String → Service → Option String
get_public_key id s = elim (Dict.get id s.keys) [ none ↦ none | some key ↦ some key.public_hex ]
