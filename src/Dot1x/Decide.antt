-- ===== src/Dot1x/Decide.antt =====
-- The adapter through which the RadSec server asks the authenticator: cmd/server/radsec_pdp.go.
use apexaegis_management_pla.Prelude.{
  ℕ, ◌≡◌, ◌≢◌, ◌≤◌, ◌↔◌, refl, sym, ap, ◌∙◌, Bool, true, false, not, Option, none, some, String,
  List, if_cases, Bool-cases, inl, inr, string_eq, ◌==◌, arith,
}
use apexaegis_management_pla.Prelude.Int.{ℤ, pos, negsuc}
use apexaegis_management_pla.Radsec.Server.{Decision}
use apexaegis_management_pla.Dot1x.{
  Outside, Times, AuthRequest, AuthResponse, AuthResult, success, reject, challenge, Authenticator,
  Certificate, Reply, answer, panic, is_valid_at, check_certificate, authenticate,
  authenticate_eap_tls, create_session, rejected,
}

-- pem.EncodeToMemory, and the texts of Go as the bytes that the RadSec server has.
pub record Texts : Type 0 where
  pub encode_pem : List ℕ → String
  pub to_text : List ℕ → String
  pub to_bytes : String → List ℕ

abbrev pub is_success : AuthResult → Bool
is_success success = true
is_success reject = false
is_success challenge = false

-- The VLAN and the timeout of a response are never negative.
abbrev pub to_ℕ : ℤ → ℕ
to_ℕ (pos n) = n
to_ℕ (negsuc n) = 0

abbrev pub request : Texts → List ℕ → List ℕ → List ℕ → List ℕ → AuthRequest
request x raw nas station org = record {
  switch_id = x.to_text nas;
  port_id = "radsec";
  mac_address = x.to_text station;
  eap_method = "EAP-TLS";
  username = "";
  password = "";
  client_cert_pem = x.encode_pem raw;
  nas_identifier = x.to_text nas;
  called_station = "";
  org_id = x.to_text org;
}

abbrev pub decision : Texts → AuthResponse → Decision
decision x r = record {
  accept = is_success r.outcome;
  username = x.to_bytes r.username;
  vlan = to_ℕ r.assigned_vlan;
  acl = x.to_bytes r.acl_name;
  session_timeout = to_ℕ r.session_timeout;
  message = x.to_bytes r.message;
}

-- `none` is a panic.
abbrev pub decided : Texts → Reply → Option (Decision × Authenticator)
decided x (answer r a) = some (decision x r, a)
decided x panic = none

-- `raw` is the certificate in DER.
unfoldable pub decide :
    Outside
    → Times
    → Texts
    → List ℕ
    → List ℕ
    → List ℕ
    → List ℕ
    → Authenticator
    → Option (Decision × Authenticator)
decide o t x raw nas station org a = decided x (authenticate o t (request x raw nas station org) a)

-- A certificate that the authenticator takes at a time.
pub record IsAcceptable (now : ℕ) (cert : Certificate) : Type 0 where
  pub from : cert.not_before ≤ now
  pub until : now ≤ cert.not_after
  pub named : cert.common_name ≢ ""

-- An answer that accepts exactly if a certificate was read and is acceptable.
pub record IsAnswer (o : Outside) (t : Times) (raw : List ℕ) (r : Option (Decision × Authenticator))
    : Type 0 where
  pub given : Decision
  pub left : Authenticator
  pub answers : r ≡ some (given, left)
  pub exact :
      (given.accept ≡ true)
      ↔ ((cert : Certificate) × (o.parse_certificate raw ≡ some cert) × IsAcceptable t.checked cert)

module _ (o : Outside) (t : Times) (x : Texts) (raw : List ℕ) (req : AuthRequest)
    (a : Authenticator) where
  abbrev Answer : Reply → Type 0
  Answer r = IsAnswer o t raw (decided x r)

  refusal :
      (message : String)
      → ((cert : Certificate) → o.parse_certificate raw ≡ some cert → ¬ IsAcceptable t.checked cert)
      → Answer (answer (rejected message) a)
  refusal message n = record {
    given = decision x (rejected message);
    left = a;
    answers = refl;
    exact = (λ h. absurd (cc h), λ (cert, e, ok). absurd (n cert e ok));
  }

  consent :
      (cert : Certificate)
      → o.parse_certificate raw ≡ some cert
      → IsAcceptable t.checked cert
      → Answer (create_session o t req cert.common_name a)
  unfolding create_session
  consent cert e ok = record {
    given = _;
    left = _;
    answers = refl;
    exact = (λ h. (cert, e, ok), λ h. refl);
  }

  check_certificate-Answer :
      (c : Option Certificate)
      → o.parse_certificate raw ≡ c
      → Answer (check_certificate o t req c a)
  check_certificate-Answer none e = refusal "Certificate parse failed" (λ cert f ok. cc (sym e ∙ f))
  check_certificate-Answer (some cert) e =
      if_cases Answer (not (is_valid_at t.checked cert)) _ _
        (λ bad. refusal "Certificate expired or not yet valid" (λ other f ok.
          let q : cert ≡ other = cc (sym e ∙ f) in
          let from = ok.from in let until = ok.until in ground arith))
        (λ valid.
          if_cases Answer (cert.common_name == "") _ _
            (λ empty. refusal "Certificate has no Common Name" (λ other f ok.
              let q : cert ≡ other = cc (sym e ∙ f) in
              ok.named (
                ap (λ (y : Certificate). y.common_name) (sym q)
                ∙ (string_eq.beq_iff cert.common_name "").0 empty)))
            (λ set. consent cert e (record {
              from = ground arith;
              until = ground arith;
              named = λ z. cc ((string_eq.beq_iff cert.common_name "").1 z, set);
            })))

-- Decide never panics, though the authenticator has no user store, and accepts exactly the certificates
-- that parse, are in their time and name somebody, if pem.Decode reads what pem.EncodeToMemory wrote and
-- finds nothing in an empty text.
pub decide-IsAnswer :
    (o : Outside) (t : Times) (x : Texts) (raw nas station org : List ℕ) (a : Authenticator)
    → o.decode_pem (x.encode_pem raw) ≡ some raw
    → o.decode_pem "" ≡ none
    → IsAnswer o t raw (decide o t x raw nas station org a)
unfolding decide authenticate authenticate_eap_tls
decide-IsAnswer o t x raw nas station org a reads nothing =
    let set : (x.encode_pem raw == "") ≡ false = elim (Bool-cases (x.encode_pem raw == "")) [
      | inl e ↦ absurd (
          cc
            (sym reads ∙ ap o.decode_pem ((string_eq.beq_iff (x.encode_pem raw) "").0 e) ∙ nothing))
      | inr e ↦ e
    ] in
    rw (set, reads)
      (check_certificate-Answer o t x raw (request x raw nas station org) a
        (o.parse_certificate raw) refl)
