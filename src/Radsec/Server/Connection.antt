-- ===== src/Radsec/Server/Connection.antt =====
-- One round of the loop of handleConn in internal/radsec/server.go over a packet that was read, and
-- the reaper of stale conversations.
use apexaegis_management_pla.Prelude.{
  ℕ, ◌+◌, ◌*◌, ◌≡◌, refl, sym, ap, ◌∙◌, List, [], ◌∷◌, ltb, eqb, if◌then◌else◌, bytes_eq, if_cases,
  eqb_iff,
}
use apexaegis_management_pla.Dict
use apexaegis_management_pla.Dict.{Dict, In-items, get-remove_self, get-remove_ne, get-remove_cases}
use apexaegis_management_pla.Radsec.Radius.{
  Packet, Parsed, ok, err, parse_packet, first, access_request, access_accept,
}
use apexaegis_management_pla.Radsec.Authenticator.{
  Digest, Verdict, accepted, refused, panics, verify_message_authenticator, finalized, seal,
  has_authenticator,
}
use apexaegis_management_pla.Radsec.Server.{
  Engine, Context, Server, Session, handle_access_request, state,
}
use apexaegis_management_pla.Radsec.Server.Genuine.{AllGenuine, Granted}
use apexaegis_management_pla.Radsec.Server.Accept.{accept-Granted}

-- What one packet comes to: the connection goes on without an answer, an answer is written, or the
-- process panics. An answer is the packet that `finalize` encodes.
pub data Served (g : Engine) : Type 0 where
  ignored : Served g
  answered : Server g → Packet → Served g
  crashed : Served g

module _ (g : Engine) (d : Digest) (c : Context) where
  abbrev pub respond : Packet → Server g × Packet → Served g
  respond p (s, resp) = answered s (finalized d resp p.authenticator)

  unfoldable pub serve_verified : Packet → Server g → Verdict → Served g
  serve_verified p s accepted = respond p (handle_access_request g d c p s)
  serve_verified p s refused = ignored
  serve_verified p s panics = crashed

  unfoldable pub serve_packet : List ℕ → Server g → Packet → Served g
  unfolding serve_verified
  serve_packet raw s p =
      if eqb p.code access_request
      then serve_verified p s (verify_message_authenticator d p raw)
      else ignored

  unfoldable pub serve : List ℕ → Server g → Served g
  unfolding serve_packet
  serve raw s = elim (parse_packet raw) [ err e ↦ ignored | ok p ↦ serve_packet raw s p ]

abbrev pub two_minutes : ℕ
two_minutes = 2 * 60 * 1000000000

module _ (g : Engine) where
  unfoldable pub reap_all :
      ℕ → List (List ℕ × Session g) → Dict (List ℕ) (Session g) → Dict (List ℕ) (Session g)
  reap_all now [] m = m
  reap_all now ((token, sess) ∷ rest) m =
      reap_all now rest (if ltb (sess.created + two_minutes) now then Dict.remove token m else m)

  -- One tick of the reaper.
  unfoldable pub reap :
      (List (List ℕ × Session g) → List (List ℕ × Session g)) → ℕ → Server g → Server g
  unfolding reap_all
  reap order now s = record s { sessions = reap_all now (order (Dict.items s.sessions)) s.sessions }

pub code-finalized : (d : Digest) (p : Packet) (a : List ℕ) → (finalized d p a).code ≡ p.code
unfolding finalized seal
code-finalized d p a =
    if_cases (λ (q : Packet). q.code ≡ p.code) (has_authenticator p.attributes) _ _ (λ _. refl)
      (λ _. refl)

module _ (g : Engine) (d : Digest) (c : Context) (raw : List ℕ) (s : Server g) (v : AllGenuine g s)
    (t : Server g) (resp : Packet) where
  -- Why an answer that accepts a device may be written.
  pub record IsAuthentic : Type 0 where
    pub request : Packet
    pub parsed : parse_packet raw ≡ ok request
    pub asked : request.code ≡ access_request
    pub verified : verify_message_authenticator d request raw ≡ accepted
    pub granted : Granted g s (first request state)

  serve_verified-IsAuthentic :
      (p : Packet) (x : Verdict)
      → parse_packet raw ≡ ok p
      → p.code ≡ access_request
      → verify_message_authenticator d p raw ≡ x
      → serve_verified g d c p s x ≡ answered t resp
      → resp.code ≡ access_accept
      → IsAuthentic
  unfolding serve_verified
  serve_verified-IsAuthentic p accepted e q h answer code =
      let r = (handle_access_request g d c p s).1 in
      let same : finalized d r p.authenticator ≡ resp = cc (answer) in
      record {
        request = p;
        parsed = e;
        asked = q;
        verified = h;
        granted =
            (accept-Granted g d c p s v (
              sym (code-finalized d r p.authenticator)
              ∙ ap (λ (x : Packet). x.code) same
              ∙ code)).0;
      }
  serve_verified-IsAuthentic p refused e q h answer code = absurd (cc answer)
  serve_verified-IsAuthentic p panics e q h answer code = absurd (cc answer)

  serve_packet-IsAuthentic :
      (p : Packet)
      → parse_packet raw ≡ ok p
      → serve_packet g d c raw s p ≡ answered t resp
      → resp.code ≡ access_accept
      → IsAuthentic
  unfolding serve_packet
  serve_packet-IsAuthentic p e =
      if_cases (λ (r : Served g). r ≡ answered t resp → resp.code ≡ access_accept → IsAuthentic)
        (eqb p.code access_request) _ _
        (λ q. serve_verified-IsAuthentic p _ e ((eqb_iff p.code access_request).0 q) refl)
        (λ _ h code. absurd (cc h))

  serve_parsed :
      (x : Parsed Packet)
      → parse_packet raw ≡ x
      → (elim x [ err e ↦ ignored | ok p ↦ serve_packet g d c raw s p ]) ≡ answered t resp
      → resp.code ≡ access_accept
      → IsAuthentic
  serve_parsed (err e) q h code = absurd (cc h)
  serve_parsed (ok p) q h code = serve_packet-IsAuthentic p q h code

  -- On genuine sessions, an Access-Accept is written to a connection only in answer to bytes that parse
  -- as an Access-Request, whose Message-Authenticator passes the check, and whose State names a
  -- conversation with a complete handshake and a certificate that the policy engine accepts.
  pub serve-IsAuthentic :
      serve g d c raw s ≡ answered t resp → resp.code ≡ access_accept → IsAuthentic
  unfolding serve
  serve-IsAuthentic = serve_parsed (parse_packet raw) refl
