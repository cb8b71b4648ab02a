-- ===== src/Radsec/Server/Handlers.antt =====
-- Each handler of a conversation keeps the sessions genuine and accepts only what is granted.
use apexaegis_management_pla.Prelude.{
  ℕ, ◌≡◌, refl, ap, ◌∙◌, ◌⊎◌, inl, inr, Bool, true, not, ◌&&◌, some, List, [], ◌∷◌, ◌++◌, arith,
  length, eqb, Bool-cases, ◌==◌, bytes_eq, if_cases, option_cases,
}
use mathlib.Core.Bool.{false≢true}
use apexaegis_management_pla.Dict
use apexaegis_management_pla.Dict.{Dict, get-put, get-remove, get-remove_self}
use apexaegis_management_pla.Radsec.Radius.{Packet, first, access_reject, access_challenge}
use apexaegis_management_pla.Radsec.Authenticator.{Digest}
use apexaegis_management_pla.Radsec.Eap.{build_ack, EapPacket, Frame, parse_eap, eap_tls_data}
use apexaegis_management_pla.Radsec.Server.{
  Engine, Context, Session, Server, Progress, pending, failed, complete, reject, save, challenge,
  reject_session, track, finish_with, finish, sent, send_next_fragment, acknowledged, flight, fed,
  advance_with, advance, start_conversation, continue_with, handle_eap, opened, resumed,
  handle_message, decision_of, state, waiting, next_id, new_session,
}
use apexaegis_management_pla.Radsec.Server.Reply.{
  reject-Head, challenge-Head, accept_packet-Head, refuse_packet-Head,
}
use apexaegis_management_pla.Radsec.Server.Genuine.{
  AllGenuine, Live, Sound, save-AllGenuine, destroy-AllGenuine, save-Elsewhere, destroy-Elsewhere,
  not_accepted,
}

progress_cases {ℓ κ} :
    {B : Type ℓ} (P : B → Type κ) (o : Progress) (x y z : B)
    → (o ≡ pending → P x)
    → (o ≡ failed → P y)
    → (o ≡ complete → P z)
    → P (elim o [ pending ↦ x | failed ↦ y | complete ↦ z ])
progress_cases P pending x y z a b c = a refl
progress_cases P failed x y z a b c = b refl
progress_cases P complete x y z a b c = c refl

module _ (g : Engine) where
  sent_handshake :
      (sess : Session g)
      → (sess.hs_complete ≡ true → g.progress sess.tls ≡ complete)
      → (sent g sess).hs_complete ≡ true
      → g.progress (sent g sess).tls ≡ complete
  unfolding sent
  sent_handshake sess h =
      if_cases (λ (x : Session g). x.hs_complete ≡ true → g.progress x.tls ≡ complete) _ _ _
        (λ _. h) (λ _. h)

  sent_id : (sess : Session g) → (sent g sess).id ≡ sess.id
  unfolding sent
  sent_id sess = if_cases (λ (x : Session g). x.id ≡ sess.id) _ _ _ (λ _. refl) (λ _. refl)

  module _ (d : Digest) (c : Context) (p : Packet) (s : Server g) (token : List ℕ)
      (v : AllGenuine g s) where
    pub rejected : Sound g c p s token (s, reject p)
    rejected =
        not_accepted g access_reject (reject-Head g p) (λ e. omega arith) v (λ other _ _. refl)

    reject_session-Sound :
        (sess : Session g) → sess.id ≡ token → Sound g c p s token (reject_session g s p sess)
    unfolding reject_session
    reject_session-Sound sess own =
        not_accepted g access_reject (reject-Head g p) (λ e. omega arith)
          (destroy-AllGenuine g s sess v) (destroy-Elsewhere g c token s sess own)

    challenged :
        (sess : Session g) (eap : List ℕ)
        → (sess.hs_complete ≡ true → g.progress sess.tls ≡ complete)
        → (sess.id ≡ token) ⊎ (sess.id ≡ c.token)
        → (s' : Session g) → Sound g c p s token (save g s sess, challenge g p s' eap)
    challenged sess eap h own s' =
        not_accepted g access_challenge (challenge-Head g p s' eap) (λ e. omega arith)
          (save-AllGenuine g s sess v h) (save-Elsewhere g c token s sess own)

    track-AllGenuine : AllGenuine g (track g c p s)
    track-AllGenuine = elim (Bool-cases (first p 44 == [])) [
      | inl none_named ↦ rw none_named v
      | inr named ↦ rw named v
    ]

    track_sessions : (track g c p s).sessions ≡ s.sessions
    track_sessions =
        if_cases (λ (t : Server g). t.sessions ≡ s.sessions) _ _ _ (λ _. refl) (λ _. refl)

    finish_with-Sound :
        (sess : Session g) (cert : g.Certificate)
        → Live g s token sess
        → sess.hs_complete ≡ true
        → g.certificate sess.tls ≡ some cert
        → Sound g c p s token (finish_with g d c p s sess cert)
    unfolding finish_with
    finish_with-Sound sess cert l hs shown =
        if_cases (Sound g c p s token) _ _ _
          (λ allowed. record {
            kept = destroy-AllGenuine g (track g c p s) sess track-AllGenuine;
            granted = λ _. (
              record {
                old = l.old;
                found = l.found;
                final = sess;
                cert = cert;
                same_conversation = l.same_conversation;
                handshake_complete = l.handshake hs;
                shown = shown;
                same_station = l.same_station;
                permitted = allowed;
              },
              rw (← l.own_token) (get-remove_self sess.id (track g c p s).sessions),
            );
            isolated = λ other n m.
                destroy-Elsewhere g c token (track g c p s) sess l.own_token other n m
                ∙ ap (Dict.get other) track_sessions;
            answered = (accept_packet-Head g d c p sess cert).same_identifier;
          })
          (λ _.
            not_accepted g access_reject (refuse_packet-Head g p sess (decision_of g sess cert))
              (λ e. omega arith) (destroy-AllGenuine g s sess v)
              (destroy-Elsewhere g c token s sess l.own_token))

    finish-Sound :
        (sess : Session g)
        → Live g s token sess
        → sess.hs_complete ≡ true
        → Sound g c p s token (finish g d c p s sess)
    unfolding finish
    finish-Sound sess l hs =
        option_cases (Sound g c p s token) (g.certificate sess.tls) _ _
          (λ _. reject_session-Sound sess l.own_token)
          (λ cert e. finish_with-Sound sess cert l hs e)

    send_next_fragment-Sound :
        (sess : Session g)
        → (sess.hs_complete ≡ true → g.progress sess.tls ≡ complete)
        → sess.id ≡ token
        → Sound g c p s token (send_next_fragment g p s sess)
    unfolding send_next_fragment
    send_next_fragment-Sound sess h own =
        challenged (sent g sess) _ (sent_handshake sess h) (inl (sent_id sess ∙ own)) sess

    acknowledged-Sound :
        (sess : Session g) → Live g s token sess → Sound g c p s token (acknowledged g d c p s sess)
    unfolding acknowledged
    acknowledged-Sound sess l =
        if_cases (Sound g c p s token) _ _ _
          (λ _. send_next_fragment-Sound sess l.handshake l.own_token)
          (λ _.
            if_cases (Sound g c p s token) _ _ _ (λ hs. finish-Sound sess l hs)
              (λ _. reject_session-Sound sess l.own_token))

    flight-Sound :
        (sess : Session g) (out : List ℕ)
        → Live g s token sess
        → Sound g c p s token (flight g d c p s sess out)
    unfolding flight
    flight-Sound sess [] l =
        if_cases (Sound g c p s token) _ _ _ (λ hs. finish-Sound sess l hs)
          (λ _. reject_session-Sound sess l.own_token)
    flight-Sound sess (x ∷ out) l = send_next_fragment-Sound _ l.handshake l.own_token

    -- A session that has been fed one more flight.
    fed-Live :
        (sess : Session g) (whole : List ℕ) (hs : Bool)
        → Dict.get token s.sessions ≡ some sess
        → (hs ≡ true → g.progress (g.feed sess.tls whole).0 ≡ complete)
        → Live g s token
            (record sess { tls = (g.feed sess.tls whole).0; reassembly = []; hs_complete = hs })
    fed-Live sess whole hs found h = record {
      old = sess;
      found = found;
      own_token = (v token sess found).own_token;
      same_conversation = inr (whole, refl);
      handshake = h;
      same_station = (refl, refl);
    }

    fed-Sound :
        (sess : Session g) (whole : List ℕ)
        → Dict.get token s.sessions ≡ some sess
        → Sound g c p s token (fed g d c p s sess whole)
    unfolding fed
    fed-Sound sess whole found =
        let after : Session g = record sess { tls = (g.feed sess.tls whole).0; reassembly = [] } in
        progress_cases (Sound g c p s token) (g.progress after.tls) _ _ _
          (λ _. flight-Sound _ (g.feed sess.tls whole).1 (
            fed-Live sess whole sess.hs_complete found
              (λ hs. g.feed_complete sess.tls whole ((v token sess found).handshake hs))))
          (λ _. reject_session-Sound after (v token sess found).own_token)
          (λ e. flight-Sound _ (g.feed sess.tls whole).1 (fed-Live sess whole true found (λ _. e)))

    found-Live : (sess : Session g) → Dict.get token s.sessions ≡ some sess → Live g s token sess
    found-Live sess found = record {
      old = sess;
      found = found;
      own_token = (v token sess found).own_token;
      same_conversation = inl refl;
      handshake = (v token sess found).handshake;
      same_station = (refl, refl);
    }

    advance_with-Sound :
        (sess : Session g) (f : Frame)
        → Dict.get token s.sessions ≡ some sess
        → Sound g c p s token (advance_with g d c p s sess f)
    unfolding advance_with
    advance_with-Sound sess f found =
        if_cases (Sound g c p s token) (eqb (length f.tls) 0 && not f.more)
          (acknowledged g d c p s sess) _ (λ _. acknowledged-Sound sess (found-Live sess found))
          (λ _.
            if_cases (Sound g c p s token) f.more
              (save g s (waiting g sess f), challenge g p sess (build_ack (next_id g sess)))
              (fed g d c p s sess (sess.reassembly ++ f.tls))
              (λ _.
                challenged (waiting g sess f) _ (v token sess found).handshake
                  (inl (v token sess found).own_token) sess)
              (λ _. fed-Sound sess (sess.reassembly ++ f.tls) found))

    advance-Sound :
        (sess : Session g) (eap : EapPacket)
        → Dict.get token s.sessions ≡ some sess
        → Sound g c p s token (advance g d c p s sess eap)
    unfolding advance
    advance-Sound sess eap found =
        option_cases (Sound g c p s token) (eap_tls_data eap.payload) _ _
          (λ _. reject_session-Sound sess (v token sess found).own_token)
          (λ f _. advance_with-Sound sess f found)

    continue_with-Sound :
        (eap : EapPacket) (sess : Session g)
        → Dict.get token s.sessions ≡ some sess
        → Sound g c p s token (continue_with g d c p s eap sess)
    unfolding continue_with
    continue_with-Sound eap sess found =
        if_cases (Sound g c p s token) _ _ _ (λ _. advance-Sound sess eap found) (λ _. rejected)

    start_conversation-Sound :
        (eap : EapPacket) → Sound g c p s token (start_conversation g c p s eap)
    unfolding start_conversation
    start_conversation-Sound eap =
        challenged (new_session g c p eap) _ (λ e. absurd (false≢true e)) (inr refl)
          (new_session g c p eap)

  module _ (d : Digest) (c : Context) (p : Packet) (s : Server g) (v : AllGenuine g s) where
    resumed-Sound : (eap : EapPacket) → Sound g c p s (first p state) (resumed g d c p s eap)
    unfolding resumed
    resumed-Sound eap =
        option_cases (Sound g c p s (first p state)) (Dict.get (first p state) s.sessions) _ _
          (λ _. rejected d c p s _ v) (λ sess found. continue_with-Sound d c p s _ v eap sess found)

    opened-Sound : (eap : EapPacket) → Sound g c p s (first p state) (opened g c p s eap)
    unfolding opened
    opened-Sound eap =
        if_cases (Sound g c p s (first p state)) _ _ _
          (λ _. start_conversation-Sound d c p s _ v eap) (λ _. rejected d c p s _ v)

    handle_eap-Sound : (eap : EapPacket) → Sound g c p s (first p state) (handle_eap g d c p s eap)
    unfolding handle_eap
    handle_eap-Sound eap =
        if_cases (Sound g c p s (first p state)) (first p state == []) (opened g c p s eap)
          (resumed g d c p s eap) (λ _. opened-Sound eap) (λ _. resumed-Sound eap)

    pub handle_message-Sound :
        (raw : List ℕ) → Sound g c p s (first p state) (handle_message g d c p s raw)
    unfolding handle_message
    handle_message-Sound raw =
        option_cases (Sound g c p s (first p state)) (parse_eap raw) _ _ (λ _. rejected d c p s _ v)
          (λ eap _. handle_eap-Sound eap)
