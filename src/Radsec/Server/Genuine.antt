-- ===== src/Radsec/Server/Genuine.antt =====
-- What is kept and promised in every step of a conversation, and the two ways to change the sessions.
use apexaegis_management_pla.Prelude.{
  ℕ, ◌≡◌, ◌≢◌, sym, ◌∙◌, ◌⊎◌, inl, inr, true, none, some, List, Bool-cases, ◌==◌, bytes_eq, subst,
  bytes_beq_iff, some-eq,
}
use apexaegis_management_pla.Dict
use apexaegis_management_pla.Dict.{Dict, get-put, get-remove, get-remove_self}
use apexaegis_management_pla.Radsec.Radius.{Packet, access_accept}
use apexaegis_management_pla.Radsec.Server.{
  Engine, Context, Session, Server, complete, Handled, save, destroy, decision_of,
}
use apexaegis_management_pla.Radsec.Server.Reply.{Head}

module _ (g : Engine) where
  -- A session stands under its own State token, and is marked complete only if its handshake is.
  pub record IsGenuine (token : List ℕ) (sess : Session g) : Type 0 where
    pub own_token : sess.id ≡ token
    pub handshake : sess.hs_complete ≡ true → g.progress sess.tls ≡ complete

  abbrev pub AllGenuine : Server g → Type 0
  AllGenuine s =
      (token : List ℕ) (sess : Session g)
      → Dict.get token s.sessions ≡ some sess
      → IsGenuine token sess

  -- Why a device may be accepted in the conversation `token` of the server `s`: the handshake of that
  -- conversation, perhaps with one more flight, is complete, the device showed a certificate, and
  -- the policy engine accepts that certificate.
  pub record Granted (s : Server g) (token : List ℕ) : Type 0 where
    pub old : Session g
    pub found : Dict.get token s.sessions ≡ some old
    pub final : Session g
    pub cert : g.Certificate
    pub same_conversation :
        (final.tls ≡ old.tls) ⊎ ((bytes : List ℕ) × (final.tls ≡ (g.feed old.tls bytes).0))
    pub handshake_complete : g.progress final.tls ≡ complete
    pub shown : g.certificate final.tls ≡ some cert
    pub same_station : (final.nas ≡ old.nas) × (final.station ≡ old.station)
    pub permitted : (decision_of g final cert).accept ≡ true

  pub save-AllGenuine :
      (s : Server g) (sess : Session g)
      → AllGenuine s
      → (sess.hs_complete ≡ true → g.progress sess.tls ≡ complete)
      → AllGenuine (save g s sess)
  save-AllGenuine s sess v h token other e = elim (Bool-cases (sess.id == token)) [
    | inl same ↦
        let stored : some sess ≡ some other =
          sym (rw same at (get-put sess.id token sess s.sessions)) ∙ e in
        subst (IsGenuine token) (some-eq stored)
          (record { own_token = (bytes_beq_iff sess.id token).0 same; handshake = h })
    | inr another ↦ v token other (sym (rw another at (get-put sess.id token sess s.sessions)) ∙ e)
  ]

  pub destroy-AllGenuine :
      (s : Server g) (sess : Session g) → AllGenuine s → AllGenuine (destroy g s sess)
  destroy-AllGenuine s sess v token other e = elim (Bool-cases (sess.id == token)) [
    | inl same ↦ absurd (cc (rw same at (get-remove sess.id token s.sessions), e))
    | inr another ↦ v token other (sym (rw another at (get-remove sess.id token s.sessions)) ∙ e)
  ]

  -- A session of the server `s` on its way through a handler.
  pub record Live (s : Server g) (token : List ℕ) (sess : Session g) : Type 0 where
    pub old : Session g
    pub found : Dict.get token s.sessions ≡ some old
    pub own_token : sess.id ≡ token
    pub same_conversation :
        (sess.tls ≡ old.tls) ⊎ ((bytes : List ℕ) × (sess.tls ≡ (g.feed old.tls bytes).0))
    pub handshake : sess.hs_complete ≡ true → g.progress sess.tls ≡ complete
    pub same_station : (sess.nas ≡ old.nas) × (sess.station ≡ old.station)

  -- What every handler of the conversation `token` promises of its result.
  pub record Sound (c : Context) (p : Packet) (s : Server g) (token : List ℕ) (h : Handled g)
      : Type 0 where
    pub kept : AllGenuine h.0
    pub granted : h.1.code ≡ access_accept → Granted s token × (Dict.get token h.0.sessions ≡ none)
    pub isolated :
        (other : List ℕ)
        → other ≢ token
        → other ≢ c.token
        → Dict.get other h.0.sessions ≡ Dict.get other s.sessions
    pub answered : h.1.identifier ≡ p.identifier

  -- The sessions but for those under two tokens.
  abbrev pub Elsewhere : Context → List ℕ → Server g → Server g → Type 0
  Elsewhere c token s s' =
      (other : List ℕ)
      → other ≢ token
      → other ≢ c.token
      → Dict.get other s'.sessions ≡ Dict.get other s.sessions

  pub save-Elsewhere :
      (c : Context) (token : List ℕ) (s : Server g) (sess : Session g)
      → (sess.id ≡ token) ⊎ (sess.id ≡ c.token)
      → Elsewhere c token s (save g s sess)
  save-Elsewhere c token s sess own other n m = elim (Bool-cases (sess.id == other)) [
    | inl same ↦ absurd (clash own ((bytes_beq_iff sess.id other).0 same))
    | inr another ↦ rw (get-put sess.id other sess s.sessions, another)
  ]
    where
      clash : (sess.id ≡ token) ⊎ (sess.id ≡ c.token) → sess.id ≡ other → ⊥
      clash (inl e) q = n (sym q ∙ e)
      clash (inr e) q = m (sym q ∙ e)

  pub destroy-Elsewhere :
      (c : Context) (token : List ℕ) (s : Server g) (sess : Session g)
      → sess.id ≡ token
      → Elsewhere c token s (destroy g s sess)
  destroy-Elsewhere c token s sess own other n m = elim (Bool-cases (sess.id == other)) [
    | inl same ↦ absurd (n (sym ((bytes_beq_iff sess.id other).0 same) ∙ own))
    | inr another ↦ rw (get-remove sess.id other s.sessions, another)
  ]

  pub not_accepted :
      {c : Context} {p : Packet} {s s' : Server g} {token : List ℕ} {r : Packet} (code : ℕ)
      → Head code p.identifier r
      → code ≢ access_accept
      → AllGenuine s'
      → Elsewhere c token s s'
      → Sound c p s token (s', r)
  not_accepted code h ne v away = record {
    kept = v;
    granted = λ e. absurd (ne (sym h.same_code ∙ e));
    isolated = away;
    answered = h.same_identifier;
  }
