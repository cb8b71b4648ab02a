-- ===== src/Radsec.antt =====
-- The RADIUS-over-TLS server, internal/radsec.
pub mod Radius
pub mod Eap
pub mod Authenticator
pub mod Mppe
pub mod Server
pub mod Tests
