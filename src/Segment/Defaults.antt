-- ===== src/Segment/Defaults.antt =====
-- The templates with which NewStore of internal/segment/store.go fills a store.
use apexaegis_management_pla.Prelude.{ℕ, true, List, [], ◌∷◌, string_eq, nat_eq}
use apexaegis_management_pla.Prelude.Int.{pos}
use apexaegis_management_pla.Dict
use apexaegis_management_pla.Segment.{SecurityGroupTag, SgtPolicy, Store}

abbrev pub sgt_corporate : ℕ → SecurityGroupTag
sgt_corporate now = record {
  id = "sgt-corporate";
  name = "Corporate Users";
  tag_value = 10;
  description = "Authenticated corporate employees with managed devices";
  org_id = "template";
  color = "#3B82F6";
  propagation_method = "inline";
  enforcement = "sgacl";
  domains =
      record {
        domain = "identity";
        attributes = ("employee" ∷ "contractor-full-time" ∷ []);
        weight = pos 40;
      }
      ∷ record {
        domain = "device";
        attributes = ("managed" ∷ "compliant" ∷ "encrypted-disk" ∷ []);
        weight = pos 30;
      }
      ∷ record { domain = "location"; attributes = ("office" ∷ "vpn" ∷ []); weight = pos 15 }
      ∷ record {
        domain = "time";
        attributes = ("business-hours" ∷ "after-hours" ∷ []);
        weight = pos 15;
      }
      ∷ [];
  assigned_to =
      record { type = "user-group"; value = "Corporate-Employees"; provider = "idp" }
      ∷ record { type = "device-posture"; value = "compliant"; provider = "posture-check" }
      ∷ [];
  created_at = now;
  updated_at = now;
}

abbrev pub sgt_guest : ℕ → SecurityGroupTag
sgt_guest now = record {
  id = "sgt-guest";
  name = "Guest";
  tag_value = 20;
  description = "Guest and BYOD users with limited access";
  org_id = "template";
  color = "#F59E0B";
  propagation_method = "inline";
  enforcement = "sgacl";
  domains =
      record {
        domain = "identity";
        attributes = ("guest" ∷ "visitor" ∷ "byod" ∷ []);
        weight = pos 50;
      }
      ∷ record { domain = "device"; attributes = ("unmanaged" ∷ "unknown" ∷ []); weight = pos 30 }
      ∷ record { domain = "application"; attributes = ("internet-only" ∷ []); weight = pos 20 }
      ∷ [];
  assigned_to = record { type = "user-group"; value = "Guest-WiFi"; provider = "dot1x" } ∷ [];
  created_at = now;
  updated_at = now;
}

abbrev pub sgt_iot : ℕ → SecurityGroupTag
sgt_iot now = record {
  id = "sgt-iot";
  name = "IoT / OT Devices";
  tag_value = 30;
  description = "Internet of Things and operational technology devices";
  org_id = "template";
  color = "#F97316";
  propagation_method = "sxp";
  enforcement = "sgacl";
  domains =
      record {
        domain = "device";
        attributes = ("iot-sensor" ∷ "ot-controller" ∷ "camera" ∷ "hvac" ∷ []);
        weight = pos 50;
      }
      ∷ record {
        domain = "data";
        attributes = ("telemetry" ∷ "control-plane" ∷ []);
        weight = pos 30;
      }
      ∷ record {
        domain = "application";
        attributes = ("mqtt" ∷ "coap" ∷ "modbus" ∷ []);
        weight = pos 20;
      }
      ∷ [];
  assigned_to =
      record { type = "device-posture"; value = "iot-profile"; provider = "posture-check" }
      ∷ record { type = "application"; value = "iot-protocols"; provider = "api" }
      ∷ [];
  created_at = now;
  updated_at = now;
}

abbrev pub sgt_servers : ℕ → SecurityGroupTag
sgt_servers now = record {
  id = "sgt-servers";
  name = "Production Servers";
  tag_value = 100;
  description = "Production server workloads — application and database tiers";
  org_id = "template";
  color = "#10B981";
  propagation_method = "inline";
  enforcement = "sgacl";
  domains =
      record {
        domain = "application";
        attributes = ("production" ∷ "tier-1" ∷ "tier-2" ∷ []);
        weight = pos 40;
      }
      ∷ record {
        domain = "data";
        attributes = ("confidential" ∷ "pii" ∷ "financial" ∷ []);
        weight = pos 35;
      }
      ∷ record {
        domain = "device";
        attributes = ("server" ∷ "vm" ∷ "container" ∷ []);
        weight = pos 25;
      }
      ∷ [];
  assigned_to =
      record { type = "application"; value = "production-workloads"; provider = "api" } ∷ [];
  created_at = now;
  updated_at = now;
}

abbrev pub sgt_restricted : ℕ → SecurityGroupTag
sgt_restricted now = record {
  id = "sgt-restricted";
  name = "Restricted / Management";
  tag_value = 999;
  description = "Highly restricted infrastructure management access";
  org_id = "template";
  color = "#EF4444";
  propagation_method = "inline";
  enforcement = "sgacl";
  domains =
      record {
        domain = "identity";
        attributes = ("admin" ∷ "network-ops" ∷ "security-ops" ∷ []);
        weight = pos 40;
      }
      ∷ record {
        domain = "device";
        attributes = ("managed" ∷ "hardened" ∷ "mfa-verified" ∷ []);
        weight = pos 35;
      }
      ∷ record {
        domain = "location";
        attributes = ("secure-zone" ∷ "jump-host" ∷ []);
        weight = pos 25;
      }
      ∷ [];
  assigned_to =
      record { type = "user-group"; value = "Infrastructure-Admins"; provider = "idp" }
      ∷ record { type = "device-posture"; value = "hardened"; provider = "posture-check" }
      ∷ [];
  created_at = now;
  updated_at = now;
}

abbrev sgp_corp_servers : ℕ → SgtPolicy
sgp_corp_servers now = record {
  id = "sgp-corp-servers";
  name = "Corporate → Servers";
  description = "";
  org_id = "template";
  source_sgt = "sgt-corporate";
  destination_sgt = "sgt-servers";
  action = "allow";
  protocols = ("TCP" ∷ []);
  ports = ("443" ∷ "8443" ∷ []);
  application_ids = [];
  log_enabled = true;
  priority = pos 10;
  enabled = true;
  created_at = now;
  updated_at = now;
}

abbrev sgp_guest_deny_servers : ℕ → SgtPolicy
sgp_guest_deny_servers now = record {
  id = "sgp-guest-deny-servers";
  name = "Guest → Servers DENY";
  description = "";
  org_id = "template";
  source_sgt = "sgt-guest";
  destination_sgt = "sgt-servers";
  action = "deny";
  protocols = ("any" ∷ []);
  ports = ("any" ∷ []);
  application_ids = [];
  log_enabled = true;
  priority = pos 5;
  enabled = true;
  created_at = now;
  updated_at = now;
}

abbrev sgp_guest_deny_restricted : ℕ → SgtPolicy
sgp_guest_deny_restricted now = record {
  id = "sgp-guest-deny-restricted";
  name = "Guest → Restricted DENY";
  description = "";
  org_id = "template";
  source_sgt = "sgt-guest";
  destination_sgt = "sgt-restricted";
  action = "deny";
  protocols = ("any" ∷ []);
  ports = ("any" ∷ []);
  application_ids = [];
  log_enabled = true;
  priority = pos 5;
  enabled = true;
  created_at = now;
  updated_at = now;
}

abbrev sgp_iot_servers_monitor : ℕ → SgtPolicy
sgp_iot_servers_monitor now = record {
  id = "sgp-iot-servers-monitor";
  name = "IoT → Servers MONITOR";
  description = "";
  org_id = "template";
  source_sgt = "sgt-iot";
  destination_sgt = "sgt-servers";
  action = "monitor";
  protocols = ("TCP" ∷ "UDP" ∷ []);
  ports = ("1883" ∷ "8883" ∷ []);
  application_ids = [];
  log_enabled = true;
  priority = pos 15;
  enabled = true;
  created_at = now;
  updated_at = now;
}

abbrev sgp_iot_deny_restricted : ℕ → SgtPolicy
sgp_iot_deny_restricted now = record {
  id = "sgp-iot-deny-restricted";
  name = "IoT → Restricted DENY";
  description = "";
  org_id = "template";
  source_sgt = "sgt-iot";
  destination_sgt = "sgt-restricted";
  action = "deny";
  protocols = ("any" ∷ []);
  ports = ("any" ∷ []);
  application_ids = [];
  log_enabled = true;
  priority = pos 5;
  enabled = true;
  created_at = now;
  updated_at = now;
}

abbrev sgp_corp_restricted : ℕ → SgtPolicy
sgp_corp_restricted now = record {
  id = "sgp-corp-restricted";
  name = "Corporate → Restricted";
  description = "";
  org_id = "template";
  source_sgt = "sgt-corporate";
  destination_sgt = "sgt-restricted";
  action = "monitor";
  protocols = ("TCP" ∷ []);
  ports = ("22" ∷ "443" ∷ "3389" ∷ []);
  application_ids = [];
  log_enabled = true;
  priority = pos 20;
  enabled = true;
  created_at = now;
  updated_at = now;
}

abbrev default_tags : ℕ → List SecurityGroupTag
default_tags now =
    sgt_corporate now ∷ sgt_guest now ∷ sgt_iot now ∷ sgt_servers now ∷ sgt_restricted now ∷ []

abbrev default_policies : ℕ → List SgtPolicy
default_policies now =
    sgp_corp_servers now
    ∷ sgp_guest_deny_servers now
    ∷ sgp_guest_deny_restricted now
    ∷ sgp_iot_servers_monitor now
    ∷ sgp_iot_deny_restricted now
    ∷ sgp_corp_restricted now
    ∷ []

unfoldable pub load_tags : List SecurityGroupTag → Store → Store
load_tags [] s = s
load_tags (tag ∷ rest) s = load_tags rest (record s {
  tags = Dict.put tag.id tag s.tags;
  tag_values = Dict.put tag.tag_value tag.id s.tag_values;
})

unfoldable pub load_policies : List SgtPolicy → Store → Store
load_policies [] s = s
load_policies (pol ∷ rest) s =
    load_policies rest (record s { policies = Dict.put pol.id pol s.policies })

unfoldable pub load_defaults : ℕ → Store → Store
unfolding load_tags load_policies
load_defaults now s = load_policies (default_policies now) (load_tags (default_tags now) s)

unfoldable pub new_store : ℕ → Store
unfolding load_defaults
new_store now = load_defaults now (record {
  tags = Dict.empty;
  policies = Dict.empty;
  sites = Dict.empty;
  org_index = Dict.empty;
  tag_values = Dict.empty;
})
