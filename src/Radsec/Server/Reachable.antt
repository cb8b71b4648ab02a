-- ===== src/Radsec/Server/Reachable.antt =====
-- The states that the RadSec server reaches by requests and ticks of its reaper.
use apexaegis_management_pla.Prelude.{
  ℕ, ◌+◌, ◌≡◌, ◌≢◌, ◌↔◌, ◌⊎◌, inl, inr, refl, sym, ap, ◌∙◌, Bool, false, Option, none, some, List,
  [], ◌∷◌, ltb, if◌then◌else◌, ◌==◌, bytes_eq, In, if_cases, Bool-cases, Option-cases, some-eq,
}
use apexaegis_management_pla.Dict
use apexaegis_management_pla.Dict.{
  Dict, In-items, get-empty, get-remove_self, get-remove_ne, get-remove_cases,
}
use apexaegis_management_pla.Radsec.Radius.{Packet}
use apexaegis_management_pla.Radsec.Authenticator.{Digest}
use apexaegis_management_pla.Radsec.Server.{Engine, Context, Server, Session, handle_access_request}
use apexaegis_management_pla.Radsec.Server.Genuine.{AllGenuine}
use apexaegis_management_pla.Radsec.Server.Accept.{handle_access_request-AllGenuine}
use apexaegis_management_pla.Radsec.Server.Connection.{reap, reap_all, two_minutes}

module _ (g : Engine) where
  abbrev pub Sessions : Type 0
  Sessions = Dict (List ℕ) (Session g)

  abbrev pub Order : Type 0
  Order = List (List ℕ × Session g) → List (List ℕ × Session g)

  abbrev pub is_stale : ℕ → Session g → Bool
  is_stale now sess = ltb (sess.created + two_minutes) now

  -- What the reaper leaves of a session.
  abbrev pub left : ℕ → Option (Session g) → Option (Session g)
  left now none = none
  left now (some sess) = if is_stale now sess then none else some sess

  reap_all-none :
      (now : ℕ) (l : List (List ℕ × Session g)) (m : Sessions) (id : List ℕ)
      → Dict.get id m ≡ none
      → Dict.get id (reap_all g now l m) ≡ none
  unfolding reap_all
  reap_all-none now [] m id h = h
  reap_all-none now ((k, x) ∷ l) m id h = reap_all-none now l _ id (
      if_cases (λ (n : Sessions). Dict.get id n ≡ none) (is_stale now x) _ _
        (λ _. elim (Bool-cases (k == id)) [
          | inl same ↦
              let q : k ≡ id = (bytes_eq.beq_iff k id).0 same in
              ap (λ j. Dict.get id (Dict.remove j m)) q ∙ get-remove_self id m
          | inr miss ↦ get-remove_ne k id m (λ q. cc ((bytes_eq.beq_iff k id).1 q, miss)) ∙ h
        ])
        (λ _. h))

  -- The visits of the loop to a session that stands in the map.
  reap_all-some :
      (now : ℕ) (start : Sessions) (id : List ℕ) (sess : Session g)
      → Dict.get id start ≡ some sess
      → (l : List (List ℕ × Session g)) (m : Sessions)
      → ((k : List ℕ) (x : Session g) → In (k, x) l → Dict.get k start ≡ some x)
      → Dict.get id m ≡ some sess
      → ((is_stale now sess ≡ false) ⊎ In (id, sess) l)
      → Dict.get id (reap_all g now l m) ≡ left now (some sess)
  unfolding reap_all
  reap_all-some now start id sess there [] m from h (inl fresh) = rw fresh h
  reap_all-some now start id sess there [] m from h (inr i) = elim i [ ]
  reap_all-some now start id sess there ((k, x) ∷ l) m from h p = elim (Bool-cases (k == id)) [
    | inl same ↦
        let q : k ≡ id = (bytes_eq.beq_iff k id).0 same in
        let e : x ≡ sess =
          some-eq (sym (from k x (inl refl)) ∙ ap (λ j. Dict.get j start) q ∙ there) in
        elim (Bool-cases (is_stale now sess)) [
          | inl stale ↦
              rw (q, e, stale) (reap_all-none now l (Dict.remove id m) id (get-remove_self id m))
          | inr fresh ↦
              let rest =
                reap_all-some now start id sess there l m (λ j y i. from j y (inr i)) h
                  (inl fresh) in
              rw (q, e, fresh) (rest ∙ rw fresh refl)
        ]
    | inr miss ↦
        let n : k ≢ id = λ q. cc ((bytes_eq.beq_iff k id).1 q, miss) in
        reap_all-some now start id sess there l _ (λ j y i. from j y (inr i))
          (if_cases (λ (y : Sessions). Dict.get id y ≡ some sess) (is_stale now x) _ _
            (λ _. get-remove_ne k id m n ∙ h) (λ _. h))
          (elim p [
            | inl fresh ↦ inl fresh
            | inr i ↦ elim i [
              | inl e ↦ absurd (n (ap (λ (y : List ℕ × Session g). y.0) (sym e)))
              | inr j ↦ inr j
            ]
          ])
  ]

  -- One tick of the reaper removes exactly the sessions that are older than two minutes.
  pub get-reap :
      (order : Order)
      (visits : (l : List (List ℕ × Session g)) (x : List ℕ × Session g) → In x (order l) ↔ In x l)
      (now : ℕ) (s : Server g) (id : List ℕ)
      → Dict.get id (reap g order now s).sessions ≡ left now (Dict.get id s.sessions)
  unfolding reap
  get-reap order visits now s id = elim (Option-cases (Dict.get id s.sessions)) [
    | inl gone ↦ rw gone (reap_all-none now (order (Dict.items s.sessions)) s.sessions id gone)
    | inr (sess, there) ↦
        reap_all-some now s.sessions id sess there (order (Dict.items s.sessions)) s.sessions
          (λ k x i. (In-items k x s.sessions).0 ((visits _ (k, x)).0 i)) there
          (inr ((visits _ (id, sess)).1 ((In-items id sess s.sessions).1 there)))
        ∙ rw there refl
  ]

  reap_all-some-before :
      (now : ℕ) (l : List (List ℕ × Session g)) (m : Sessions) (id : List ℕ) (sess : Session g)
      → Dict.get id (reap_all g now l m) ≡ some sess
      → Dict.get id m ≡ some sess
  unfolding reap_all
  reap_all-some-before now [] m id sess h = h
  reap_all-some-before now ((k, x) ∷ l) m id sess h =
      if_cases (λ (n : Sessions). Dict.get id n ≡ some sess → Dict.get id m ≡ some sess)
        (is_stale now x) _ _ (λ _ e. (get-remove_cases k id sess m e).1) (λ _ e. e)
        (reap_all-some-before now l _ id sess h)

  reap-AllGenuine :
      (order : Order) (now : ℕ) (s : Server g) → AllGenuine g s → AllGenuine g (reap g order now s)
  unfolding reap
  reap-AllGenuine order now s v token sess h =
      v token sess
        (reap_all-some-before now (order (Dict.items s.sessions)) s.sessions token sess h)

  -- The states from the start of the server on. Two requests are not handled at once.
  pub data Reachable : Server g → Type 0 where
    started : Reachable (record { sessions = Dict.empty; live = Dict.empty })
    handled :
        (s : Server g) (d : Digest) (c : Context) (p : Packet)
        → Reachable s
        → Reachable (handle_access_request g d c p s).0
    reaped : (s : Server g) (order : Order) (now : ℕ) → Reachable s → Reachable (reap g order now s)

  -- In every state that requests and the reaper reach from the start of the server, each session
  -- stands under its own State token and is marked complete only if its handshake is.
  pub Reachable-AllGenuine : (s : Server g) → Reachable s → AllGenuine g s
  Reachable-AllGenuine _ started = λ token sess h. absurd (cc (h, get-empty token))
  Reachable-AllGenuine _ (handled s d c p r) =
      handle_access_request-AllGenuine g d c p s (Reachable-AllGenuine s r)
  Reachable-AllGenuine _ (reaped s order now r) =
      reap-AllGenuine order now s (Reachable-AllGenuine s r)
