-- ===== src/Dot1x/Types.antt =====
-- The messages and the state of internal/dot1x/authenticator.go, and what surrounds it.
use apexaegis_management_pla.Prelude.{ℕ, Bool, Option, String, List, string_eq}
use apexaegis_management_pla.Prelude.Int.{ℤ}
use apexaegis_management_pla.Dict.{Dict}

pub data AuthResult : Type 0 where
  success reject challenge : AuthResult

-- An EAP method is the text that the request brings.
pub record AuthRequest : Type 0 where
  pub switch_id : String
  pub port_id : String
  pub mac_address : String
  pub eap_method : String
  pub username : String
  pub password : String
  pub client_cert_pem : String
  pub nas_identifier : String
  pub called_station : String
  pub org_id : String

-- The field Attributes, which the authenticator never sets, is left out.
pub record AuthResponse : Type 0 where
  pub outcome : AuthResult
  pub session_id : String
  pub username : String
  pub assigned_vlan : ℤ
  pub segment_group : String
  pub acl_name : String
  pub session_timeout : ℤ
  pub reauth_period : ℤ
  pub message : String

pub record AuthzRequest : Type 0 where
  pub session_id : String
  pub switch_id : String
  pub port_id : String
  pub mac_address : String
  pub username : String
  pub device_type : String
  pub org_id : String

pub record AuthzResponse : Type 0 where
  pub allowed : Bool
  pub vlan : ℤ
  pub segment_group : String
  pub acl_name : String
  pub qos_policy : String
  pub max_bandwidth : ℤ
  pub message : String

pub record AcctRequest : Type 0 where
  pub session_id : String
  pub kind : String
  pub switch_id : String
  pub port_id : String
  pub mac_address : String
  pub username : String
  pub input_bytes : ℤ
  pub output_bytes : ℤ
  pub duration : ℤ
  pub reason : String
  pub org_id : String

pub record Session : Type 0 where
  pub id : String
  pub switch_id : String
  pub port_id : String
  pub mac_address : String
  pub username : String
  pub eap_method : String
  pub vlan : ℤ
  pub segment_group : String
  pub state : String
  pub started_at : ℕ
  pub last_activity : ℕ
  pub input_bytes : ℤ
  pub output_bytes : ℤ
  pub org_id : String

pub record MacAuthEntry : Type 0 where
  pub mac_address : String
  pub device_name : String
  pub device_type : String
  pub vlan : ℤ
  pub segment_group : String
  pub org_id : String
  pub created_at : ℕ

pub record Authenticator : Type 0 where
  pub sessions : Dict String Session
  pub mac_db : Dict String MacAuthEntry

-- The interface UserStore: `none` is an error of ValidateCredentials, and the groups are those that
-- GetUserGroups returns, with or without an error.
pub record UserStore : Type 0 where
  pub validate_credentials : String → String → String → Option Bool
  pub get_user_groups : String → String → List String

-- The fields of crypto/x509's certificate that the authenticator reads.
pub record Certificate : Type 0 where
  pub not_before : ℕ
  pub not_after : ℕ
  pub common_name : String

-- pem.Decode, x509.ParseCertificate, net.ParseMAC with the String method of its result, the verb %d,
-- and the user store, `none` where it is nil.
pub record Outside : Type 0 where
  pub decode_pem : String → Option (List ℕ)
  pub parse_certificate : List ℕ → Option Certificate
  pub parse_mac : String → Option String
  pub decimal : ℕ → String
  pub users : Option UserStore

-- The times that a call of Authenticate reads.
pub record Times : Type 0 where
  pub checked : ℕ
  pub milliseconds : ℕ
  pub started : ℕ
  pub active : ℕ

pub data Reply : Type 0 where
  answer : AuthResponse → Authenticator → Reply
  panic : Reply
