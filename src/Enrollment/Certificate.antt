-- ===== src/Enrollment/Certificate.antt =====
-- EnrollDeviceCertificate of internal/security/enrollment.go. The certificate authority, which signs a
-- request and reads the end of a certificate, is a parameter; times are in nanoseconds.
use apexaegis_management_pla.Prelude.{ℕ, ◌+◌, ◌*◌, Option, none, some, String, ltb, if◌then◌else◌}
use apexaegis_management_pla.Prelude.Int.{ℤ}
use apexaegis_management_pla.Enrollment.{
  EnrolledAgent, EnrollAgentRequest, Service, Drawn, TokenOrder, ok, err, Error, enroll_agent, hour,
  positive_or,
}

pub record EnrollDeviceCertificateRequest : Type 0 where
  pub token : String
  pub device_name : String
  pub device_os : String
  pub device_arch : String
  pub csr_pem : String
  pub valid_days : ℤ

pub record EnrollDeviceCertificateResponse : Type 0 where
  pub agent_id : String
  pub cert_pem : String
  pub ca_cert_pem : String
  pub not_after : ℕ
  pub group_id : String
  pub group_name : String
  pub device_name : String

pub record Authority : Type 0 where
  pub sign_device_csr : String → String → ℕ → Option String
  pub ca_cert_pem : String
  pub end_of : String → Option ℕ

pub data Issued : Type 0 where
  issued : EnrollDeviceCertificateResponse → Issued
  no_authority : Issued
  not_enrolled : Error → Issued
  not_signed : Issued

abbrev pub at_most : ℕ → ℕ → ℕ
at_most limit n = if ltb limit n then limit else n

abbrev pub days_of : ℤ → ℕ
days_of wanted = at_most 825 (positive_or 365 wanted)

abbrev pub expiry : Option ℕ → ℕ → ℕ
expiry (some end) default = end
expiry none default = default

abbrev pub response :
    Authority
    → EnrolledAgent
    → EnrollDeviceCertificateRequest
    → String
    → ℕ
    → EnrollDeviceCertificateResponse
response ca a req cert now = record {
  agent_id = a.id;
  cert_pem = cert;
  ca_cert_pem = ca.ca_cert_pem;
  not_after = expiry (ca.end_of cert) (now + days_of req.valid_days * (24 * hour));
  group_id = a.group_id;
  group_name = a.group_name;
  device_name = a.device_name;
}

abbrev pub sign_for :
    Authority → EnrollDeviceCertificateRequest → ℕ → EnrolledAgent → Service → Issued × Service
sign_for ca req now a s = elim (ca.sign_device_csr a.id req.csr_pem (days_of req.valid_days)) [
  | none ↦ (not_signed, s)
  | some cert ↦ (issued (response ca a req cert now), s)
]

abbrev pub agent_request : EnrollDeviceCertificateRequest → EnrollAgentRequest
agent_request req = record {
  token = req.token;
  device_name = req.device_name;
  device_os = req.device_os;
  device_arch = req.device_arch;
}

-- The time is the one read after the signature.
abbrev pub enroll_device_certificate :
    TokenOrder
    → Option Authority
    → Drawn
    → EnrollDeviceCertificateRequest
    → ℕ
    → Service
    → Issued × Service
enroll_device_certificate order none w req now s = (no_authority, s)
enroll_device_certificate order (some ca) w req now s =
    elim (enroll_agent order w (agent_request req) s) [
      | ok a u ↦ sign_for ca req now a u
      | err e ↦ (not_enrolled e, s)
    ]
