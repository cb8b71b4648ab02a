-- ===== src/Dot1x/Admission.antt =====
-- Whom Authenticate of internal/dot1x/authenticator.go lets in.
use apexaegis_management_pla.Prelude.{
  ℕ, ◌≡◌, ◌≢◌, ◌≤◌, ◌⊎◌, inl, inr, refl, Bool, true, false, not, ◌||◌, Option, none, some, String,
  List, if_cases, option_cases, Bool-cases, string_eq, ◌==◌, ◌<>◌, arith,
}
use apexaegis_management_pla.Dict
use apexaegis_management_pla.Dot1x.{
  Outside, Times, UserStore, AuthRequest, AuthResponse, success, Authenticator, Certificate,
  MacAuthEntry, Reply, answer, panic, rejected, session_id, new_session, create_session,
  is_valid_at, check_certificate, authenticate_eap_tls, check_password, authenticate_password,
  authenticate_mab, authenticate, normalize_mac, accepted,
}

-- What lets a station in, and under which name.
pub data IsAdmitted (o : Outside) (t : Times) (req : AuthRequest) (a : Authenticator)
    : String → Type 0 where
  by_certificate :
      (block : List ℕ) (cert : Certificate)
      → req.eap_method ≡ "EAP-TLS"
      → o.decode_pem req.client_cert_pem ≡ some block
      → o.parse_certificate block ≡ some cert
      → cert.not_before ≤ t.checked
      → t.checked ≤ cert.not_after
      → cert.common_name ≢ ""
      → IsAdmitted o t req a cert.common_name
  by_password :
      (users : UserStore)
      → (req.eap_method ≡ "EAP-TTLS") ⊎ (req.eap_method ≡ "PEAP")
      → o.users ≡ some users
      → users.validate_credentials req.username req.password req.org_id ≡ some true
      → IsAdmitted o t req a req.username
  by_mac :
      (e : MacAuthEntry)
      → req.eap_method ≡ "MAB"
      → Dict.get (normalize_mac o req.mac_address) a.mac_db ≡ some e
      → IsAdmitted o t req a ("mab:" <> e.device_name)

-- How a call ends: it refuses and changes nothing, or it lets the station in and stores its session,
-- or it panics.
pub data IsJudged (o : Outside) (t : Times) (req : AuthRequest) (a : Authenticator)
    : Reply → Type 0 where
  refused : (message : String) → IsJudged o t req a (answer (rejected message) a)
  granted :
      (username : String) (r : AuthResponse)
      → IsAdmitted o t req a username
      → r.outcome ≡ success
      → r.username ≡ username
      → r.session_id ≡ session_id o req t.milliseconds
      → IsJudged o t req a (
          answer r (record a {
            sessions =
                Dict.put
                  (session_id o req t.milliseconds)
                  (new_session o t req username)
                  a.sessions;
          }))
  panicked : o.users ≡ none → IsJudged o t req a panic

module _ (o : Outside) (t : Times) (req : AuthRequest) (a : Authenticator) where
  abbrev Judged : Reply → Type 0
  Judged r = IsJudged o t req a r

  created :
      (username : String)
      → IsAdmitted o t req a username
      → Judged (create_session o t req username a)
  unfolding create_session
  created username h = granted username (accepted (new_session o t req username)) h refl refl refl

  not-true : (b : Bool) → not b ≡ false → b ≡ true
  not-true b h = ground arith

  valid-bounds :
      (cert : Certificate)
      → not (is_valid_at t.checked cert) ≡ false
      → (cert.not_before ≤ t.checked) × (t.checked ≤ cert.not_after)
  valid-bounds cert h = (ground arith, ground arith)

  named : (s : String) → (s == "") ≡ false → s ≢ ""
  named s h e = cc ((string_eq.beq_iff s "").1 e, h)

  check_certificate-Judged :
      (block : List ℕ) (c : Option Certificate)
      → req.eap_method ≡ "EAP-TLS"
      → o.decode_pem req.client_cert_pem ≡ some block
      → o.parse_certificate block ≡ c
      → Judged (check_certificate o t req c a)
  check_certificate-Judged block none m d p = refused "Certificate parse failed"
  check_certificate-Judged block (some cert) m d p =
      if_cases Judged (not (is_valid_at t.checked cert)) _ _
        (λ _. refused "Certificate expired or not yet valid")
        (λ valid.
          if_cases Judged (cert.common_name == "") _ _
            (λ _. refused "Certificate has no Common Name")
            (λ set.
              let (from, until) = valid-bounds cert valid in
              created cert.common_name
                (by_certificate block cert m d p from until (named cert.common_name set))))

  authenticate_eap_tls-Judged : req.eap_method ≡ "EAP-TLS" → Judged (authenticate_eap_tls o t req a)
  unfolding authenticate_eap_tls
  authenticate_eap_tls-Judged m =
      if_cases Judged (req.client_cert_pem == "") _ _
        (λ _. refused "Client certificate required for EAP-TLS")
        (λ _.
          option_cases Judged (o.decode_pem req.client_cert_pem) _ _
            (λ _. refused "Invalid certificate format")
            (λ block d. check_certificate-Judged block (o.parse_certificate block) m d refl))

  check_password-Judged :
      (users : UserStore) (v : Option Bool)
      → (req.eap_method ≡ "EAP-TTLS") ⊎ (req.eap_method ≡ "PEAP")
      → o.users ≡ some users
      → users.validate_credentials req.username req.password req.org_id ≡ v
      → Judged (check_password o t req v a)
  check_password-Judged users none m u e = refused "Authentication service error"
  check_password-Judged users (some false) m u e = refused "Invalid credentials"
  check_password-Judged users (some true) m u e = created req.username (by_password users m u e)

  authenticate_password-Judged :
      (req.eap_method ≡ "EAP-TTLS") ⊎ (req.eap_method ≡ "PEAP")
      → Judged (authenticate_password o t req a)
  unfolding authenticate_password
  authenticate_password-Judged m =
      if_cases Judged (req.username == "" || req.password == "") _ _
        (λ _. refused "Username and password required")
        (λ _.
          option_cases Judged o.users _ _ (λ u. panicked u)
            (λ users u. check_password-Judged users _ m u refl))

  authenticate_mab-Judged : req.eap_method ≡ "MAB" → Judged (authenticate_mab o t req a)
  unfolding authenticate_mab create_session
  authenticate_mab-Judged m =
      option_cases Judged (Dict.get (normalize_mac o req.mac_address) a.mac_db) _ _
        (λ _. refused "MAC address not in whitelist")
        (λ e found. granted ("mab:" <> e.device_name) _ (by_mac e m found) refl refl refl)

  password_method :
      (req.eap_method == "EAP-TTLS" || req.eap_method == "PEAP") ≡ true
      → (req.eap_method ≡ "EAP-TTLS") ⊎ (req.eap_method ≡ "PEAP")
  password_method h = elim (Bool-cases (req.eap_method == "EAP-TTLS")) [
    | inl e ↦ inl ((string_eq.beq_iff req.eap_method "EAP-TTLS").0 e)
    | inr e ↦ inr ((string_eq.beq_iff req.eap_method "PEAP").0 (rw e at h))
  ]

-- Authenticate refuses a station and changes nothing, or it stores one new session for a station with
-- a certificate that is in its time and names somebody, or with a password that the user store has
-- accepted, or with a registered MAC address; it panics only where there is no user store.
pub authenticate-IsJudged :
    (o : Outside) (t : Times) (req : AuthRequest) (a : Authenticator)
    → IsJudged o t req a (authenticate o t req a)
unfolding authenticate
authenticate-IsJudged o t req a =
    if_cases (IsJudged o t req a) (req.eap_method == "EAP-TLS") _ _
      (λ m.
        authenticate_eap_tls-Judged o t req a ((string_eq.beq_iff req.eap_method "EAP-TLS").0 m))
      (λ _.
        if_cases (IsJudged o t req a) (req.eap_method == "EAP-TTLS" || req.eap_method == "PEAP") _ _
          (λ m. authenticate_password-Judged o t req a (password_method o t req a m))
          (λ _.
            if_cases (IsJudged o t req a) (req.eap_method == "MAB") _ _
              (λ m.
                authenticate_mab-Judged o t req a ((string_eq.beq_iff req.eap_method "MAB").0 m))
              (λ _. refused "Unsupported EAP method")))
