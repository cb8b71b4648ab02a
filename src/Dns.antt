-- ===== src/Dns.antt =====
-- DNS security: the policy of a group (internal/dnssecurity) and the risk of a domain
-- (internal/dnsrisk).
pub mod Security
pub mod Risk
pub mod Tests
