-- ===== src/Features/Catalog.antt =====
-- The feature catalogue: DefaultFeatures of internal/features/store.go.
use apexaegis_management_pla.Prelude.{ℕ, Bool, true, false, String, List, [], ◌∷◌}

pub record Feature : Type 0 where
  pub id : String
  pub name : String
  pub category : String
  pub description : String
  pub enabled : Bool
  pub min_plan : String
  pub trial_days : ℕ
  pub trial_end : String
  pub updated_by : String
  pub updated_at : ℕ

-- A literal of the catalogue, whose other fields are the zero values.
abbrev entry : String → String → String → String → Bool → String → ℕ → Feature
entry id name category description enabled min_plan trial_days = record {
  id = id;
  name = name;
  category = category;
  description = description;
  enabled = enabled;
  min_plan = min_plan;
  trial_days = trial_days;
  trial_end = "";
  updated_by = "";
  updated_at = 0;
}

unfoldable pub default_features : List Feature
default_features =
    entry "firewall" "Stateful Firewall" "Network Security"
      "L3/L4 stateful packet inspection with zone-based policies" true "standard" 0
    ∷ entry "sdwan" "SD-WAN Optimizer" "Network Security"
        "Application-aware path selection and link quality monitoring" true "standard" 0
    ∷ entry "vpn-ipsec" "IPSec VPN" "Network Security"
        "Site-to-site and remote-access IPSec tunnels" true "standard" 0
    ∷ entry "vpn-ssl" "SSL VPN" "Network Security" "Clientless and full-tunnel SSL VPN" true
        "standard" 0
    ∷ entry "ztna" "Zero Trust Network Access" "Network Security"
        "Identity-aware application access without traditional VPN" true "professional" 0
    ∷ entry "atp" "Advanced Threat Protection" "Threat Protection"
        "Real-time threat detection with sandboxing and behavioral analysis" true "professional" 30
    ∷ entry "ips" "Intrusion Prevention System" "Threat Protection"
        "Signature and anomaly-based intrusion prevention" true "professional" 30
    ∷ entry "antivirus" "AegisAV Engine" "Threat Protection"
        "Multi-engine antivirus with proxy and flow-based inspection" true "professional" 30
    ∷ entry "sandboxing" "AegisSandbox" "Threat Protection"
        "Cloud-based sandbox detonation for zero-day threats" false "enterprise" 14
    ∷ entry "web-filter" "Web Filter" "Content Security"
        "URL categorization and web content filtering" true "professional" 30
    ∷ entry "dns-filter" "DNS Filter" "Content Security"
        "DNS-layer threat blocking and category filtering" true "standard" 0
    ∷ entry "app-control" "Application Control" "Content Security"
        "Deep packet inspection for application identification and control" true "professional" 0
    ∷ entry "dlp" "Data Loss Prevention" "Content Security"
        "Content inspection for sensitive data exfiltration prevention" false "enterprise" 14
    ∷ entry "casb" "Cloud Access Security Broker" "Content Security"
        "Inline and API-based SaaS security and shadow IT discovery" false "enterprise" 14
    ∷ entry "ssl-inspect" "SSL Deep Inspection" "SSL / Inspection"
        "TLS/SSL interception with certificate re-signing" true "professional" 0
    ∷ entry "ssh-inspect" "SSH Inspection" "SSL / Inspection"
        "SSH protocol inspection for command auditing" false "enterprise" 0
    ∷ entry "sso-saml" "SAML SSO" "Identity" "SAML 2.0 single sign-on integration" true "standard" 0
    ∷ entry "sso-oidc" "OIDC SSO" "Identity" "OpenID Connect single sign-on integration" true
        "standard" 0
    ∷ entry "mfa" "Multi-Factor Authentication" "Identity"
        "TOTP, FIDO2/WebAuthn, and push-based MFA" true "standard" 0
    ∷ entry "dot1x" "802.1X NAC" "Identity" "Network access control with RADIUS/EAP authentication"
        false "enterprise" 14
    ∷ entry "device-posture" "Device Posture Check" "Identity"
        "Endpoint compliance verification before granting access" true "professional" 0
    ∷ entry "audit-log" "Audit Logging" "Compliance & Visibility"
        "Comprehensive audit trail for all administrative actions" true "standard" 0
    ∷ entry "siem-export" "SIEM Integration" "Compliance & Visibility"
        "Log export to Splunk, Sentinel, Chronicle via syslog/CEF" false "enterprise" 0
    ∷ entry "compliance-report" "Compliance Reporting" "Compliance & Visibility"
        "Automated compliance reports for SOC2, ISO27001, PCI-DSS" true "professional" 0
    ∷ entry "ueba" "User & Entity Behavior Analytics" "Compliance & Visibility"
        "ML-based anomaly detection for insider threats" false "enterprise" 14
    ∷ entry "sdn-microseg" "SDN Micro-segmentation" "Advanced"
        "Software-defined network segmentation with dynamic policy" false "enterprise" 0
    ∷ entry "iap" "Identity-Aware Proxy" "Advanced"
        "Application-level access proxy with per-request authorization" true "professional" 0
    ∷ entry "ghosted-apps" "GhostedApps Detection" "Advanced"
        "Detect and replace legacy security agents with ApexAegis" true "professional" 0
    ∷ entry "scion" "SCION Path-Aware Networking" "Advanced"
        "Multi-path internet routing with cryptographic path control" false "enterprise" 0
    ∷ []
