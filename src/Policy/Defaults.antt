-- ===== src/Policy/Defaults.antt =====
-- LoadDefaults of internal/policy/store.go.
use apexaegis_management_pla.Prelude.{ℕ, true, false, List, [], ◌∷◌, string_eq}
use apexaegis_management_pla.Prelude.Int.{pos}
use apexaegis_management_pla.Policy.{SecurityPolicy, Store, Runtime, snapshot_map, commit}

-- Go's zero value.
abbrev zero_policy : SecurityPolicy
zero_policy = record {
  id = "";
  org_id = "";
  name = "";
  sequence = pos 0;
  enabled = false;
  traffic_steering = [];
  access_methods = [];
  source_users = [];
  source_user_groups = [];
  source_devices = [];
  source_device_groups = [];
  source_device_posture = "";
  source_addresses = [];
  source_ip_negate = false;
  dest_addresses = [];
  dest_cloud_apps = [];
  dest_url_categories = [];
  dest_ip_negate = false;
  services = [];
  http_methods = [];
  crud_operations = [];
  action = "";
  forward_proxy_addr = "";
  forward_proxy_port = pos 0;
  ssl_profile = [];
  atp_profiles = [];
  dns_filter_enabled = false;
  dns_block_categories = [];
  dns_allow_categories = [];
  dns_custom_blocklist = [];
  dns_custom_allowlist = [];
  dns_safe_search = false;
  web_filter_enabled = false;
  web_block_categories = [];
  web_allow_categories = [];
  web_custom_blocklist = [];
  web_custom_allowlist = [];
  web_safe_search = false;
  web_block_uncategorized = false;
  cloud_tenant_restrict = false;
  cloud_allowed_tenants = [];
  log_traffic = false;
  log_security_events = false;
}

abbrev default_allow_all : SecurityPolicy
default_allow_all = record zero_policy {
  id = "default-allow-all";
  org_id = "a0000000-0000-0000-0000-000000000001";
  name = "Allow All (Dev)";
  sequence = pos 1000;
  enabled = true;
  action = "allow";
  log_traffic = true;
  log_security_events = true;
}

abbrev block_malware_domains : SecurityPolicy
block_malware_domains = record zero_policy {
  id = "block-malware-domains";
  org_id = "a0000000-0000-0000-0000-000000000001";
  name = "Block Known Malware Domains";
  sequence = pos 10;
  enabled = true;
  action = "deny";
  dns_filter_enabled = true;
  dns_custom_blocklist = "*.malware.test" ∷ "*.phishing.test" ∷ "evil.example.com" ∷ [];
  log_traffic = true;
  log_security_events = true;
}

abbrev pub defaults : List SecurityPolicy
defaults = default_allow_all ∷ block_malware_domains ∷ []

unfoldable pub load_defaults : Runtime → ℕ → Store → Store
unfolding snapshot_map commit
load_defaults rt now s =
    commit rt now "system" "Default policies loaded" "create" ""
      (record s { policies = snapshot_map defaults s.policies })
