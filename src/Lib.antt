-- ===== src/Lib.antt =====
-- The core of the management plane: how it admits devices over RadSec and 802.1X, how it tags and
-- segments them, how it versions its security policies and pushes them, which gateways and mesh
-- links it offers, how it signs commands, how it gathers threat feeds and rates domains, logs
-- traffic and licenses features.
--
-- The program is a server in Go (cmd/server) around in-memory stores, each behind one mutex. A
-- method of a store is modelled as a function from the store that it finds to the store that it
-- leaves, since the mutex lets one method run at a time; a sequence of calls is a list of
-- operations or a relation. The RadSec server locks only its tables: a request is taken in one
-- piece there, and two requests of one conversation at once are not modelled.
--
-- Files, and the code that they model:
--
-- Prelude, Prelude/*: shared tests, lists, bytes, XOR, signed integers and, as a parameter, the
-- text functions of Go. Dict: Go's maps, and the laws that the stores use of them; Dict/Each: a
-- loop over a map. No code of the repository is modelled there.
--
-- Radsec/Radius: internal/radsec/radius.go, parsePacket as `parse_packet`, encode, add, first and all
-- as `all_values`. Radsec/Authenticator: finalize and verifyMessageAuthenticator of the same file.
-- Radsec/Eap: internal/radsec/eap.go, parseEAP, encode, eapTLSData, buildEAPTLSFragment and the
-- EAP-Message attributes. Radsec/Mppe: internal/radsec/mppe.go, saltEncrypt and addMPPEKeys.
-- Radsec/Server: internal/radsec/server.go, handleAccessRequest with startConversation, advance,
-- sendNextFragment and finish; the state is the session table and the table of live connections.
-- Radsec/Server/Connection: a round of handleConn, and the reaper; Radsec/Server/Stream: readRADIUS,
-- Disconnect and the poller; Radsec/Server/Reachable: the states
-- that the server reaches. The other modules below these hold the proofs, named for what they prove.
--
-- Segment: internal/segment/store.go, tags and policies; Segment/Classify: ClassifyByContext;
-- Segment/Sites: sites, listings and the matrix; Segment/Defaults: loadDefaults; Segment/Reachable:
-- the stores that the operations reach from NewStore.
--
-- Policy: internal/policy/store.go; Policy/Diff: Diff; Policy/Defaults: LoadDefaults; Policy/History
-- lists the operations; Policy/Versions, Policy/Revert and Policy/Lock hold the proofs.
--
-- Gateway: internal/gateway/registry.go; Gateway/Cleanup, Gateway/Outcome and Gateway/Listing hold
-- the proofs. Gateway/Mesh: internal/gateway/mesh.go, peers, relays, GetTopology and a tick of
-- cleanupLoop.
--
-- Dot1x: internal/dot1x/authenticator.go, with its messages and its state in Dot1x/Types;
-- Dot1x/Decide also models the adapter cmd/server/radsec_pdp.go, through which the RadSec server
-- asks for its decision. Hub: internal/websocket/hub.go, each goroutine's access to the clients as
-- a step.
--
-- Signing: internal/security/code_signing.go. Command: internal/security/command_signing.go, which
-- reads the keys of the former. Enrollment: internal/security/enrollment.go, with
-- EnrollDeviceCertificate in Enrollment/Certificate. Traffic: internal/trafficlog/store.go.
-- Dns/Security: internal/dnssecurity/policy.go. Dns/Risk: internal/dnsrisk/engine.go, Assess with
-- its heuristics. Features: internal/features/store.go, with the catalogue in Features/Catalog.
-- Threatfeed: internal/threatfeed/feed.go and store.go.
--
-- The parts meet in the program's wiring (cmd/server): a commit of the policy store sends its
-- version to the channel from which the hub pushes it to gateways. The RadSec server admits a
-- device by a decision that is an argument of its model, and that Dot1x/Decide gives in the running
-- program. The DNS risk engine downgrades its verdict by the policy of Dns/Security, which a
-- resolver finds. Besides the policy store in memory the program has one over the database
-- (internal/db/policy_store.go) behind the same interface, which is not modelled.
--
-- What stands for code that is not read here is an argument: MD5 and HMAC-MD5 (`Digest`), the TLS
-- server, the certificate and the policy decision (`Engine`), random tokens and salts, the clock,
-- the order of a loop over a map, sort.Slice, strings.ToLower, EqualFold and TrimSpace, FormatInt,
-- PEM, X.509, SHA-256 and Ed25519, net.ParseMAC, time.Format and Parse, the user store, the threat
-- and log databases, and the persistence of the gateways, which is a log of calls. A theorem that
-- depends on one of them names what it assumes.
--
-- Bounds: bytes keep their range where a theorem needs it, and the length bytes and the EAP
-- identifier keep their wrap-around. Scores, sequences and version numbers are taken without the
-- width of Go's int and int64, which they do not reach in fewer than 2^31 changes with the weights
-- of 1 to 100 and sequences that the program uses. The loop of parsePacket has the length of the
-- input as fuel, which is enough since an attribute that passes the guard has two bytes at least;
-- the transfer of a TLS message has one unit for each 1000 bytes and one more; the reader of a
-- stream has one unit for each packet.
--
-- Not modelled: the listener and the certificates of the RadSec server, the sockets of the hub, and
-- the code around the stores that talks to databases, browsers, identity providers and feeds.
-- Sharing of pointers between a store and its callers is not modelled: the values that a method
-- stores or returns are copies.
pub mod Prelude
pub mod Dict
pub mod Radsec
pub mod Dot1x
pub mod Command
pub mod Enrollment
pub mod Signing
pub mod Segment
pub mod Policy
pub mod Hub
pub mod Gateway
pub mod Threatfeed
pub mod Traffic
pub mod Dns
pub mod Features
