-- ===== src/Enrollment/Uses.antt =====
-- How often a token of internal/security/enrollment.go enrolls an agent.
use apexaegis_management_pla.Prelude.{
  ℕ, suc, ◌≡◌, ◌≢◌, ◌≤◌, ◌<◌, ◌↔◌, refl, sym, ap, ◌∙◌, subst, inl, inr, Bool, true, false, Option,
  none, some, String, List, [], ◌∷◌, ltb, leb, if_cases, option_cases, Bool-cases, some-eq,
  string_eq, ◌==◌, In, arith, if◌then◌else◌,
}
use apexaegis_management_pla.Dict
use apexaegis_management_pla.Dict.{Dict, In-items, get-put, get-put_self, get-empty}
use apexaegis_management_pla.Enrollment.{
  EnrollmentToken, EnrolledAgent, CreateTokenRequest, EnrollAgentRequest, Service, Drawn,
  TokenOrder, Enrolled, ok, fresh_token, create_token, find_token, agent_of, used_by, registered,
  admit, enroll_agent, revoke_token, deactivate_agent, Reachable, start, created, enrolled,
  withdrawn, deactivated, new_service,
}

-- The agents that a token has enrolled.
abbrev pub uses : String → List EnrolledAgent → ℕ
uses id [] = 0
uses id (a ∷ log) = let n = uses id log in if a.token_id == id then suc n else n

abbrev pub Visits : TokenOrder → Type 0
Visits order =
    (l : List (String × EnrollmentToken)) (x : String × EnrollmentToken) → In x (order l) ↔ In x l

-- What the log says of the token at an identifier.
abbrev CountedAt : String → List EnrolledAgent → Option EnrollmentToken → Type 0
CountedAt id log none = uses id log ≡ 0
CountedAt id log (some t) = (t.id ≡ id) × (uses id log ≡ t.used_count) × (t.used_count ≤ t.max_uses)

Counted : List EnrolledAgent → Service → Type 0
Counted log s = (id : String) → CountedAt id log (Dict.get id s.tokens)

counted_at :
    (log : List EnrolledAgent) (s : Service) (id : String) (found : Option EnrollmentToken)
    → Counted log s
    → Dict.get id s.tokens ≡ found
    → CountedAt id log found
unfolding Counted
counted_at log s id found all e = subst (CountedAt id log) e (all id)

Counted-put :
    (log after : List EnrolledAgent) (s u : Service) (key : String) (t : EnrollmentToken)
    → u.tokens ≡ Dict.put key t s.tokens
    → ((id : String) → key ≢ id → uses id after ≡ uses id log)
    → CountedAt key after (some t)
    → Counted log s
    → Counted after u
unfolding Counted
Counted-put log after s u key t e same new all id =
    subst (λ d. CountedAt id after (Dict.get id d)) (sym e)
      (subst (CountedAt id after) (sym (get-put key id t s.tokens)) (elim (Bool-cases (key == id)) [
        | inl hit ↦
            rw hit (subst (λ k. CountedAt k after (some t)) ((string_eq.beq_iff key id).0 hit) new)
        | inr miss ↦
            let n : key ≢ id = λ q. cc ((string_eq.beq_iff key id).1 q, miss) in
            rw miss (other id (Dict.get id s.tokens) (same id n) (all id))
      ]))
  where
    other :
        (id : String) (found : Option EnrollmentToken)
        → uses id after ≡ uses id log
        → CountedAt id log found
        → CountedAt id after found
    other id none e c = e ∙ c
    other id (some t) e (own, c, bound) = (own, e ∙ c, bound)

find_token-In :
    (value key : String) (t : EnrollmentToken) (l : List (String × EnrollmentToken))
    → find_token value l ≡ some (key, t)
    → In (key, t) l
unfolding find_token
find_token-In value key t [] = λ e. absurd (cc e)
find_token-In value key t ((id, x) ∷ l) =
    if_cases
      (λ (o : Option (String × EnrollmentToken)). o ≡ some (key, t) → In (key, t) ((id, x) ∷ l))
      (x.token == value) (some (id, x)) (find_token value l) (λ _ e. inl (sym (some-eq e)))
      (λ _ e. inr (find_token-In value key t l e))

uses-other :
    (a : EnrolledAgent) (log : List EnrolledAgent) (key id : String)
    → a.token_id ≡ key
    → key ≢ id
    → uses id (a ∷ log) ≡ uses id log
uses-other a log key id e n =
    let miss : (a.token_id == id) ≡ false = elim (Bool-cases (a.token_id == id)) [
      | inl hit ↦ absurd (n (sym e ∙ (string_eq.beq_iff a.token_id id).0 hit))
      | inr miss ↦ miss
    ] in
    rw miss refl

uses-own :
    (a : EnrolledAgent) (log : List EnrolledAgent) (key : String)
    → a.token_id ≡ key
    → uses key (a ∷ log) ≡ suc (uses key log)
uses-own a log key e = rw ((string_eq.beq_iff a.token_id key).1 e) refl

ok_agent : {a b : EnrolledAgent} {s u : Service} → ok a s ≡ ok b u → a ≡ b
ok_agent e = cc e

ok_service : {a b : EnrolledAgent} {s u : Service} → ok a s ≡ ok b u → s ≡ u
ok_service e = cc e

module _ (log : List EnrolledAgent) (s u : Service) (w : Drawn) (req : EnrollAgentRequest)
    (a : EnrolledAgent) (all : Counted log s) where
  admit-Counted :
      (key : String) (t : EnrollmentToken)
      → Dict.get key s.tokens ≡ some t
      → admit w req key t s ≡ ok a u
      → Counted (a ∷ log) u
  admit-Counted key t there =
      let (own, count, bound) = counted_at log s key (some t) all there in
      let P = λ (r : Enrolled). r ≡ ok a u → Counted (a ∷ log) u in
      if_cases P t.revoked _ _ (λ _ e. absurd (cc e))
        (λ _.
          if_cases P (ltb t.expires_at w.at) _ _ (λ _ e. absurd (cc e))
            (λ _.
              if_cases P (leb t.max_uses t.used_count) _ _ (λ _ e. absurd (cc e))
                (λ room.
                  option_cases P w.secret _ (λ secret. registered w secret req key t s)
                    (λ _ e. absurd (cc e))
                    (λ secret _ e.
                      let new = agent_of w secret req t in
                      let below : t.used_count < t.max_uses = ground arith in
                      let same : (id : String) → key ≢ id → uses id (new ∷ log) ≡ uses id log =
                        λ id n. uses-other new log key id own n in
                      let more = uses-own new log key own in
                      let v : Service = record {
                        tokens = Dict.put key (used_by w req t) s.tokens;
                        agents = Dict.put w.id new s.agents;
                      } in
                      subst (λ (x : Service). Counted (a ∷ log) x) (ok_service e)
                        (subst (λ (b : EnrolledAgent). Counted (b ∷ log) v) (ok_agent e)
                          (Counted-put log (new ∷ log) s v key (used_by w req t) refl same
                            (own, more ∙ ap suc count, omega arith) all))))))

  enroll-Counted :
      (order : TokenOrder)
      → Visits order
      → enroll_agent order w req s ≡ ok a u
      → Counted (a ∷ log) u
  unfolding enroll_agent
  enroll-Counted order visits =
      let P = λ (r : Enrolled). r ≡ ok a u → Counted (a ∷ log) u in
      option_cases P (find_token req.token (order (Dict.items s.tokens))) _ _ (λ _ e. absurd (cc e))
        (λ (key, t) found e.
          admit-Counted key t
            ((In-items key t s.tokens).0 (
              (visits (Dict.items s.tokens) (key, t)).0
                (find_token-In req.token key t (order (Dict.items s.tokens)) found)))
            e)

create-Counted :
    (log : List EnrolledAgent) (s u : Service) (w : Drawn) (req : CreateTokenRequest)
    (created_by : String) (t : EnrollmentToken)
    → Counted log s
    → Dict.get w.id s.tokens ≡ none
    → create_token w req created_by s ≡ some (t, u)
    → Counted log u
unfolding create_token
create-Counted log s u w req created_by t all fresh =
    let P = λ (r : Option (EnrollmentToken × Service)). r ≡ some (t, u) → Counted log u in
    option_cases P w.secret none _ (λ _ e. absurd (cc e))
      (λ secret _ e.
        let new = fresh_token w secret req created_by in
        let v : Service = record s { tokens = Dict.put w.id new s.tokens } in
        subst (λ (x : Service). Counted log x)
          (ap (λ (x : EnrollmentToken × Service). x.1) (some-eq e))
          (Counted-put log log s v w.id new refl (λ _ _. refl)
            (refl, counted_at log s w.id none all fresh, omega arith) all))

revoke-Counted :
    (log : List EnrolledAgent) (s : Service) (id : String)
    → Counted log s
    → Counted log (revoke_token id s).1
unfolding revoke_token
revoke-Counted log s id all =
    option_cases (λ (r : Bool × Service). Counted log r.1) (Dict.get id s.tokens) (false, s) _
      (λ _. all)
      (λ t there.
        Counted-put log log s _ id (record t { revoked = true }) refl (λ _ _. refl)
          (counted_at log s id (some t) all there) all)

deactivate-Counted :
    (log : List EnrolledAgent) (s : Service) (id : String)
    → Counted log s
    → Counted log (deactivate_agent id s).1
unfolding deactivate_agent Counted
deactivate-Counted log s id all =
    option_cases (λ (r : Bool × Service). Counted log r.1) (Dict.get id s.agents) (false, s) _
      (λ _. all) (λ a _. all)

Counted-empty : Counted [] new_service
unfolding Counted new_service
Counted-empty id = rw (get-empty id) refl

Reachable-Counted :
    (order : TokenOrder)
    → Visits order
    → (log : List EnrolledAgent) (s : Service) → Reachable order log s
    → Counted log s
Reachable-Counted order visits _ _ start = Counted-empty
Reachable-Counted order visits _ _ (created log s u w req by t r fresh e) =
    create-Counted log s u w req by t (Reachable-Counted order visits log s r) fresh e
Reachable-Counted order visits _ _ (enrolled log s u w req a r e) =
    enroll-Counted log s u w req a (Reachable-Counted order visits log s r) order visits e
Reachable-Counted order visits _ _ (withdrawn log s id r) =
    revoke-Counted log s id (Reachable-Counted order visits log s r)
Reachable-Counted order visits _ _ (deactivated log s id r) =
    deactivate-Counted log s id (Reachable-Counted order visits log s r)

-- In every state that the program reaches, the agents that a stored token has enrolled are as many as its
-- counter says, and never more than its maximum of uses.
pub Reachable-uses :
    (order : TokenOrder)
    → Visits order
    → (log : List EnrolledAgent) (s : Service) (id : String) (t : EnrollmentToken)
    → Reachable order log s
    → Dict.get id s.tokens ≡ some t
    → (uses id log ≡ t.used_count) × (uses id log ≤ t.max_uses)
Reachable-uses order visits log s id t r there =
    let (_, count, bound) =
      counted_at log s id (some t) (Reachable-Counted order visits log s r) there in
    (count, omega arith)
