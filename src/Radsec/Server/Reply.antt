-- ===== src/Radsec/Server/Reply.antt =====
-- What every response has in common: its code, and the identifier of its request.
use apexaegis_management_pla.Prelude.{
  ℕ, zero, suc, ◌≡◌, refl, Bool, true, false, Option, none, some, List, [], ◌∷◌, min, length, take,
  drop, ltb, if◌then◌else◌, be32,
}
use apexaegis_management_pla.Radsec.Radius.{
  Packet, add, access_accept, access_reject, access_challenge, message_authenticator, eap_message,
}
use apexaegis_management_pla.Radsec.Authenticator.{Digest, zeros}
use apexaegis_management_pla.Radsec.Eap.{
  add_eap_message, add_chunks, encode_result, success, failure,
}
use apexaegis_management_pla.Radsec.Mppe.{add_mppe_keys}
use apexaegis_management_pla.Radsec.Server.{
  Engine, Context, Session, Decision, new_response, reject, when_text, challenge, add_vlan,
  accept_packet, refuse_packet, with_keys, user_name, filter_id, session_timeout, reply_message,
  non_empty, decision_of, next_id,
}

-- The code and the identifier that a response begins with.
pub record Head (code identifier : ℕ) (r : Packet) : Type 0 where
  pub same_code : r.code ≡ code
  pub same_identifier : r.identifier ≡ identifier

module _ {code identifier : ℕ} where
  add-Head :
      (r : Packet) (t : ℕ) (v : List ℕ) → Head code identifier r → Head code identifier (add r t v)
  unfolding add
  add-Head r t v h = record { same_code = h.same_code; same_identifier = h.same_identifier }

  add_chunks-Head :
      (fuel : ℕ) (r : Packet) (eap : List ℕ)
      → Head code identifier r
      → Head code identifier (add_chunks fuel r eap)
  unfolding add_chunks
  add_chunks-Head fuel r [] h = h
  add_chunks-Head zero r (x ∷ eap) h = h
  add_chunks-Head (suc fuel) r (x ∷ eap) h =
      let n : ℕ = min (suc (length eap)) 253 in
      add_chunks-Head fuel (add r eap_message (take n (x ∷ eap))) (drop n (x ∷ eap))
        (add-Head r eap_message (take n (x ∷ eap)) h)

  add_eap_message-Head :
      (r : Packet) (eap : List ℕ)
      → Head code identifier r
      → Head code identifier (add_eap_message r eap)
  unfolding add_eap_message
  add_eap_message-Head r eap h = add_chunks-Head (length eap) r eap h

  if-Head :
      (b : Bool) (r r' : Packet)
      → Head code identifier r
      → Head code identifier r'
      → Head code identifier (if b then r else r')
  if-Head true r r' h h' = h
  if-Head false r r' h h' = h'

  when_text-Head :
      (text : List ℕ) (t : ℕ) (r : Packet)
      → Head code identifier r
      → Head code identifier (when_text text (add r t) r)
  when_text-Head [] t r h = h
  when_text-Head (c ∷ text) t r h = add-Head r t (c ∷ text) h

  add_mppe_keys-Head :
      (d : Digest) (r : Packet) (msk auth : List ℕ) (salts : Option (List ℕ × List ℕ))
      → Head code identifier r
      → Head code identifier (add_mppe_keys d r msk auth salts)
  unfolding add_mppe_keys
  add_mppe_keys-Head d r msk auth none h = h
  add_mppe_keys-Head d r msk auth (some (a, b)) h =
      if-Head (ltb (length msk) 64) r _ h (add-Head _ _ _ (add-Head _ _ _ h))

module _ (g : Engine) where
  with_keys-Head :
      (d : Digest) (c : Context) (p : Packet) (msk : Option (List ℕ)) (r : Packet) {code : ℕ}
      → Head code p.identifier r
      → Head code p.identifier (with_keys g d c p msk r)
  with_keys-Head d c p none r h = h
  with_keys-Head d c p (some msk) r h = add_mppe_keys-Head d r msk p.authenticator c.salts h

  pub reject-Head : (p : Packet) → Head access_reject p.identifier (reject p)
  reject-Head p = add-Head _ _ _ (record { same_code = refl; same_identifier = refl })

  pub challenge-Head :
      (p : Packet) (sess : Session g) (eap : List ℕ)
      → Head access_challenge p.identifier (challenge g p sess eap)
  unfolding challenge
  challenge-Head p sess eap = add-Head _ _ _ (
      add_eap_message-Head _ eap
        (add-Head _ _ _ (record { same_code = refl; same_identifier = refl })))

  pub accept_packet-Head :
      (d : Digest) (c : Context) (p : Packet) (sess : Session g) (cert : g.Certificate)
      → Head access_accept p.identifier (accept_packet g d c p sess cert)
  unfolding accept_packet add_vlan
  accept_packet-Head d c p sess cert =
      let start : Head access_accept p.identifier (new_response access_accept p) = record {
        same_code = refl;
        same_identifier = refl;
      } in
      let dec = decision_of g sess cert in
      let named = add-Head _ user_name (non_empty dec.username (g.common_name cert)) (
        add_eap_message-Head _ (encode_result success (next_id g sess))
          (add-Head _ message_authenticator zeros start)) in
      let placed =
        if-Head (ltb 0 dec.vlan) _ _ (add-Head _ _ _ (add-Head _ _ _ (add-Head _ _ _ named)))
          named in
      let limited = when_text-Head dec.acl filter_id _ placed in
      let timed =
        if-Head (ltb 0 dec.session_timeout) _ _
          (add-Head _ session_timeout (be32 dec.session_timeout) limited) limited in
      with_keys-Head d c p (g.export_msk sess.tls) _ timed

  pub refuse_packet-Head :
      (p : Packet) (sess : Session g) (dec : Decision)
      → Head access_reject p.identifier (refuse_packet g p sess dec)
  unfolding refuse_packet
  refuse_packet-Head p sess dec = when_text-Head dec.message reply_message _ (
      add_eap_message-Head _ (encode_result failure (next_id g sess))
        (record { same_code = refl; same_identifier = refl }))
