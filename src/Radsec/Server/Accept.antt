-- ===== src/Radsec/Server/Accept.antt =====
-- When the server accepts a device, and what a request does to the conversations.
use apexaegis_management_pla.Prelude.{ℕ, ◌≡◌, ◌≢◌, none, List, [], ◌==◌, bytes_eq, if_cases}
use apexaegis_management_pla.Dict
use apexaegis_management_pla.Dict.{Dict, get-put, get-remove, get-remove_self}
use apexaegis_management_pla.Radsec.Radius.{Packet, first, access_accept}
use apexaegis_management_pla.Radsec.Authenticator.{Digest}
use apexaegis_management_pla.Radsec.Eap.{collect_eap_message}
use apexaegis_management_pla.Radsec.Server.{
  Engine, Context, Server, reject, handle_message, handle_access_request, state,
}
use apexaegis_management_pla.Radsec.Server.Genuine.{AllGenuine, Granted, Sound}
use apexaegis_management_pla.Radsec.Server.Handlers.{rejected, handle_message-Sound}

module _ (g : Engine) (d : Digest) (c : Context) (p : Packet) (s : Server g)
    (v : AllGenuine g s) where
  handle_access_request-Sound : Sound g c p s (first p state) (handle_access_request g d c p s)
  unfolding handle_access_request
  handle_access_request-Sound =
      if_cases (Sound g c p s (first p state)) (collect_eap_message p == []) (s, reject p)
        (handle_message g d c p s (collect_eap_message p)) (λ _. rejected g d c p s _ v)
        (λ _. handle_message-Sound g d c p s v _)

  -- Handling an Access-Request keeps the sessions genuine: each stands under its own State token, and
  -- is marked complete only if its handshake is.
  pub handle_access_request-AllGenuine : AllGenuine g (handle_access_request g d c p s).0
  handle_access_request-AllGenuine = handle_access_request-Sound.kept

  -- On genuine sessions, an Access-Accept is sent only for a conversation that the State of the request
  -- names, whose handshake is complete, whose peer showed a certificate, and for whose certificate
  -- and station the policy engine accepts; and after it the State names no session.
  pub accept-Granted :
      (handle_access_request g d c p s).1.code ≡ access_accept
      → Granted g s (first p state)
        × (Dict.get (first p state) (handle_access_request g d c p s).0.sessions ≡ none)
  accept-Granted = handle_access_request-Sound.granted

  -- On genuine sessions, a request leaves every conversation alone but the one that its State names and
  -- the one that it may open.
  other_conversations :
      (other : List ℕ)
      → other ≢ first p state
      → other ≢ c.token
      → Dict.get other (handle_access_request g d c p s).0.sessions ≡ Dict.get other s.sessions
  other_conversations = handle_access_request-Sound.isolated

  -- On genuine sessions, every response carries the identifier of its request.
  pub identifier-handle_access_request :
      (handle_access_request g d c p s).1.identifier ≡ p.identifier
  identifier-handle_access_request = handle_access_request-Sound.answered
