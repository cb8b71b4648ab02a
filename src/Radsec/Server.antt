-- ===== src/Radsec/Server.antt =====
-- The EAP-TLS conversations of the RadSec server: internal/radsec/server.go. A handler takes the
-- server's state, and returns the new state with the response before `finalize`. The handshake of
-- crypto/tls, the policy engine and strconv.Itoa are parameters; time, the random State token, the
-- random salts and the connection are arguments. A request is handled in one piece: two requests of
-- one conversation on two connections are not interleaved.
pub mod Reply
pub mod Genuine
pub mod Handlers
pub mod Accept
pub mod Connection
pub mod Stream
pub mod Reachable
use apexaegis_management_pla.Prelude.{
  ℕ, zero, suc, ◌+◌, ◌-◌, ◌%◌, ◌≤◌, ◌≡◌, Bool, true, false, not, ◌&&◌, ◌||◌, Option, none, some,
  List, [], ◌∷◌, ◌++◌, length, ltb, leb, eqb, if◌then◌else◌, Eq, ◌==◌, bytes_eq, be32,
}
use apexaegis_management_pla.Dict
use apexaegis_management_pla.Dict.{Dict}
use apexaegis_management_pla.Radsec.Radius.{
  Packet, add, first, access_accept, access_reject, access_challenge, message_authenticator,
}
use apexaegis_management_pla.Radsec.Authenticator.{Digest, zeros, finalize}
use apexaegis_management_pla.Radsec.Eap.{
  EapPacket, Frame, parse_eap, eap_tls_data, collect_eap_message, add_eap_message, encode_result,
  build_start, build_ack, build_fragment, response, success, failure, type_identity, type_nak,
  type_tls,
}
use apexaegis_management_pla.Radsec.Mppe.{add_mppe_keys}

-- How far a handshake is: running, ended by an error, or complete.
pub data Progress : Type 0 where
  pending failed complete : Progress

pub record Decision : Type 0 where
  pub accept : Bool
  pub username : List ℕ
  pub vlan : ℕ
  pub acl : List ℕ
  pub session_timeout : ℕ
  pub message : List ℕ

-- `feed` pushes a flight of the peer to the TLS server and collects its next flight; `progress` reads
-- `doneCh` and `hsErr`; `certificate` is the first peer certificate; `export_msk` is `deriveMSK`.
-- A handshake that is complete stays so: `doneCh` is closed once, and `hsErr` is set before that.
pub record Engine : Type 1 where
  pub Tls : Type 0
  pub Certificate : Type 0
  pub fresh : Tls
  pub feed : Tls → List ℕ → Tls × List ℕ
  pub progress : Tls → Progress
  pub certificate : Tls → Option Certificate
  pub export_msk : Tls → Option (List ℕ)
  pub common_name : Certificate → List ℕ
  pub organization : Certificate → List (List ℕ)
  pub decide : Certificate → List ℕ → List ℕ → List ℕ → Decision
  pub itoa : ℕ → List ℕ
  pub feed_complete :
      (t : Tls) (bytes : List ℕ) → progress t ≡ complete → progress (feed t bytes).0 ≡ complete

abbrev pub user_name : ℕ
user_name = 1

abbrev pub filter_id : ℕ
filter_id = 11

abbrev pub reply_message : ℕ
reply_message = 18

abbrev pub state : ℕ
state = 24

abbrev pub session_timeout : ℕ
session_timeout = 27

abbrev pub calling_station_id : ℕ
calling_station_id = 31

abbrev pub nas_identifier : ℕ
nas_identifier = 32

abbrev pub acct_session_id : ℕ
acct_session_id = 44

abbrev pub tunnel_type : ℕ
tunnel_type = 64

abbrev pub tunnel_medium_type : ℕ
tunnel_medium_type = 65

abbrev pub tunnel_private_group : ℕ
tunnel_private_group = 81

-- "access denied"
abbrev pub denied : List ℕ
denied = b'a' ∷ b'c' ∷ b'c' ∷ b'e' ∷ b's' ∷ b's' ∷ 32 ∷ b'd' ∷ b'e' ∷ b'n' ∷ b'i' ∷ b'e' ∷ b'd' ∷ []

-- What one request brings from outside.
pub record Context : Type 0 where
  pub now : ℕ
  pub token : List ℕ
  pub salts : Option (List ℕ × List ℕ)
  pub conn : ℕ

abbrev pub new_response : ℕ → Packet → Packet
new_response code req = record {
  code = code;
  identifier = req.identifier;
  authenticator = zeros;
  attributes = [];
}

abbrev pub reject : Packet → Packet
reject p = add (new_response access_reject p) reply_message denied

abbrev pub when_text : List ℕ → (List ℕ → Packet) → Packet → Packet
when_text [] f p = p
when_text (c ∷ text) f p = f (c ∷ text)

abbrev pub non_empty : List ℕ → List ℕ → List ℕ
non_empty [] b = b
non_empty (c ∷ a) b = c ∷ a

abbrev pub head_or_empty : List (List ℕ) → List ℕ
head_or_empty [] = []
head_or_empty (o ∷ os) = o

module _ (g : Engine) where
  open g use {Tls, Certificate, feed, progress, certificate, export_msk, decide, itoa}

  pub record Session : Type 0 where
    pub id : List ℕ
    pub tls : Tls
    pub eap_id : ℕ
    pub reassembly : List ℕ
    pub out_frags : List ℕ
    pub out_offset : ℕ
    pub hs_complete : Bool
    pub nas : List ℕ
    pub station : List ℕ
    pub org_id : List ℕ
    pub created : ℕ

  pub record Server : Type 0 where
    pub sessions : Dict (List ℕ) Session
    pub live : Dict (List ℕ) ℕ

  abbrev pub Handled : Type 0
  Handled = Server × Packet

  abbrev pub save : Server → Session → Server
  save s sess = record s { sessions = Dict.put sess.id sess s.sessions }

  abbrev pub destroy : Server → Session → Server
  destroy s sess = record s { sessions = Dict.remove sess.id s.sessions }

  unfoldable pub challenge : Packet → Session → List ℕ → Packet
  challenge p sess eap =
      add (add_eap_message (add (new_response access_challenge p) message_authenticator zeros) eap)
        state sess.id

  unfoldable pub reject_session : Server → Packet → Session → Handled
  reject_session s p sess = (destroy s sess, reject p)

  unfoldable pub add_vlan : Packet → ℕ → Packet
  add_vlan p vlan =
      add (add (add p tunnel_type (1 ∷ 0 ∷ 0 ∷ 13 ∷ [])) tunnel_medium_type (1 ∷ 0 ∷ 0 ∷ 6 ∷ []))
        tunnel_private_group (1 ∷ itoa vlan)

  abbrev pub next_id : Session → ℕ
  next_id sess = (sess.eap_id + 1) % 256

  -- The Organization of the certificate where the session has no organization of its own.
  abbrev pub org_of : Session → Certificate → List ℕ
  org_of sess cert = non_empty sess.org_id (head_or_empty (g.organization cert))

  abbrev pub decision_of : Session → Certificate → Decision
  decision_of sess cert = decide cert sess.nas sess.station (org_of sess cert)

  abbrev pub with_keys : Digest → Context → Packet → Option (List ℕ) → Packet → Packet
  with_keys d c p none resp = resp
  with_keys d c p (some msk) resp = add_mppe_keys d resp msk p.authenticator c.salts

  unfoldable pub accept_packet : Digest → Context → Packet → Session → Certificate → Packet
  unfolding add_vlan
  accept_packet d c p sess cert =
      let dec = decision_of sess cert in
      let r0 = add (new_response access_accept p) message_authenticator zeros in
      let r1 = add_eap_message r0 (encode_result success (next_id sess)) in
      let r2 = add r1 user_name (non_empty dec.username (g.common_name cert)) in
      let r3 = if ltb 0 dec.vlan then add_vlan r2 dec.vlan else r2 in
      let r4 = when_text dec.acl (add r3 filter_id) r3 in
      let r5 =
        if ltb 0 dec.session_timeout
        then add r4 session_timeout (be32 dec.session_timeout)
        else r4 in
      with_keys d c p (export_msk sess.tls) r5

  unfoldable pub refuse_packet : Packet → Session → Decision → Packet
  refuse_packet p sess dec =
      let r =
        add_eap_message (new_response access_reject p) (encode_result failure (next_id sess)) in
      when_text dec.message (add r reply_message) r

  -- The connection is remembered for later disconnects if the request names an accounting session.
  abbrev pub track : Context → Packet → Server → Server
  track c p s =
      let acct = first p acct_session_id in
      if acct == [] then s else record s { live = Dict.put acct c.conn s.live }

  unfoldable pub finish_with : Digest → Context → Packet → Server → Session → Certificate → Handled
  unfolding accept_packet refuse_packet
  finish_with d c p s sess cert =
      let dec = decision_of sess cert in
      if dec.accept
      then (destroy (track c p s) sess, accept_packet d c p sess cert)
      else (destroy s sess, refuse_packet p sess dec)

  unfoldable pub finish : Digest → Context → Packet → Server → Session → Handled
  unfolding finish_with reject_session
  finish d c p s sess = elim (certificate sess.tls) [
    | none ↦ reject_session s p sess
    | some cert ↦ finish_with d c p s sess cert
  ]

  -- The session after its next fragment has been sent.
  unfoldable pub sent : Session → Session
  sent sess =
      let f = build_fragment (next_id sess) sess.out_frags sess.out_offset in
      if leb (length sess.out_frags) f.next
      then record sess { eap_id = next_id sess; out_frags = []; out_offset = 0 }
      else record sess { eap_id = next_id sess; out_offset = f.next }

  unfoldable pub send_next_fragment : Packet → Server → Session → Handled
  unfolding sent challenge
  send_next_fragment p s sess =
      let f = build_fragment (next_id sess) sess.out_frags sess.out_offset in
      (save s (sent sess), challenge p sess f.packet)

  -- An empty response of the peer: an acknowledgement, or nothing that was asked for.
  unfoldable pub acknowledged : Digest → Context → Packet → Server → Session → Handled
  unfolding send_next_fragment finish reject_session
  acknowledged d c p s sess =
      if ltb sess.out_offset (length sess.out_frags)
      then send_next_fragment p s sess
      else if sess.hs_complete
      then finish d c p s sess
      else reject_session s p sess

  -- The server's flight goes out, or the decision is taken if there is none.
  unfoldable pub flight : Digest → Context → Packet → Server → Session → List ℕ → Handled
  unfolding finish reject_session send_next_fragment
  flight d c p s sess [] = if sess.hs_complete then finish d c p s sess else reject_session s p sess
  flight d c p s sess (x ∷ out) =
      send_next_fragment p s (record sess { out_frags = x ∷ out; out_offset = 0 })

  -- A whole flight of the peer goes to the TLS server.
  unfoldable pub fed : Digest → Context → Packet → Server → Session → List ℕ → Handled
  unfolding flight reject_session
  fed d c p s sess whole =
      let (tls, out) = feed sess.tls whole in
      let sess' = record sess { tls = tls; reassembly = [] } in
      elim (progress tls) [
        | pending ↦ flight d c p s sess' out
        | failed ↦ reject_session s p sess'
        | complete ↦ flight d c p s (record sess' { hs_complete = true }) out
      ]

  -- The session with a fragment of the peer, whose acknowledgement goes out.
  abbrev pub waiting : Session → Frame → Session
  waiting sess f = record sess { reassembly = sess.reassembly ++ f.tls; eap_id = next_id sess }

  unfoldable pub advance_with : Digest → Context → Packet → Server → Session → Frame → Handled
  unfolding acknowledged fed challenge
  advance_with d c p s sess f =
      if (eqb (length f.tls) 0) && not f.more
      then acknowledged d c p s sess
      else if f.more
      then (save s (waiting sess f), challenge p sess (build_ack (next_id sess)))
      else fed d c p s sess (sess.reassembly ++ f.tls)

  unfoldable pub advance : Digest → Context → Packet → Server → Session → EapPacket → Handled
  unfolding advance_with reject_session
  advance d c p s sess eap = elim (eap_tls_data eap.payload) [
    | none ↦ reject_session s p sess
    | some f ↦ advance_with d c p s sess f
  ]

  abbrev pub new_session : Context → Packet → EapPacket → Session
  new_session c p eap = record {
    id = c.token;
    tls = g.fresh;
    eap_id = (eap.identifier + 1) % 256;
    reassembly = [];
    out_frags = [];
    out_offset = 0;
    hs_complete = false;
    nas = first p nas_identifier;
    station = first p calling_station_id;
    org_id = [];
    created = c.now;
  }

  unfoldable pub start_conversation : Context → Packet → Server → EapPacket → Handled
  unfolding challenge
  start_conversation c p s eap =
      let sess = new_session c p eap in (save s sess, challenge p sess (build_start sess.eap_id))

  -- A request with a State that names a session.
  unfoldable pub continue_with : Digest → Context → Packet → Server → EapPacket → Session → Handled
  unfolding advance
  continue_with d c p s eap sess =
      if eqb eap.type type_tls then advance d c p s sess eap else (s, reject p)

  -- A request with no State: only an EAP-Response/Identity opens a conversation.
  unfoldable pub opened : Context → Packet → Server → EapPacket → Handled
  unfolding start_conversation
  opened c p s eap =
      if (eqb eap.code response) && (eqb eap.type type_identity)
      then start_conversation c p s eap
      else (s, reject p)

  unfoldable pub resumed : Digest → Context → Packet → Server → EapPacket → Handled
  unfolding continue_with
  resumed d c p s eap = elim (Dict.get (first p state) s.sessions) [
    | none ↦ (s, reject p)
    | some sess ↦ continue_with d c p s eap sess
  ]

  unfoldable pub handle_eap : Digest → Context → Packet → Server → EapPacket → Handled
  unfolding opened resumed
  handle_eap d c p s eap = if first p state == [] then opened c p s eap else resumed d c p s eap

  unfoldable pub handle_message : Digest → Context → Packet → Server → List ℕ → Handled
  unfolding handle_eap
  handle_message d c p s raw = elim (parse_eap raw) [
    | none ↦ (s, reject p)
    | some eap ↦ handle_eap d c p s eap
  ]

  unfoldable pub handle_access_request : Digest → Context → Packet → Server → Handled
  unfolding handle_message
  handle_access_request d c p s =
      let raw = collect_eap_message p in
      if raw == [] then (s, reject p) else handle_message d c p s raw
