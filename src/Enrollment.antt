-- ===== src/Enrollment.antt =====
-- Enrollment tokens and the agents enrolled with them: internal/security/enrollment.go. Random texts,
-- identifiers and the clock are arguments. The loop that looks for a token by its value stops at the
-- first that it meets.
pub mod Certificate
pub mod Uses
pub mod Tests
use apexaegis_management_pla.Prelude.{
  ◌≡◌, ℕ, suc, ◌+◌, ◌*◌, Bool, true, false, not, ◌&&◌, ◌||◌, Option, none, some, String, List, [],
  ◌∷◌, ltb, leb, if◌then◌else◌, ◌==◌, string_eq,
}
use apexaegis_management_pla.Prelude.Int.{ℤ, pos, negsuc, scale_int64}
use apexaegis_management_pla.Dict
use apexaegis_management_pla.Dict.{Dict}

-- MaxUses is positive by CreateToken, and UsedCount counts up from 0.
pub record EnrollmentToken : Type 0 where
  pub id : String
  pub token : String
  pub label : String
  pub group_id : String
  pub group_name : String
  pub created_by : String
  pub created_at : ℕ
  pub expires_at : ℕ
  pub max_uses : ℕ
  pub used_count : ℕ
  pub revoked : Bool
  pub last_used_at : Option ℕ
  pub last_used_by : String

pub record EnrolledAgent : Type 0 where
  pub id : String
  pub device_name : String
  pub device_os : String
  pub device_arch : String
  pub token_id : String
  pub group_id : String
  pub group_name : String
  pub enrolled_at : ℕ
  pub enrolled_by : String
  pub last_seen : ℕ
  pub agent_secret : String
  pub active : Bool

pub record CreateTokenRequest : Type 0 where
  pub label : String
  pub group_id : String
  pub group_name : String
  pub max_uses : ℤ
  pub ttl_hours : ℤ

pub record EnrollAgentRequest : Type 0 where
  pub token : String
  pub device_name : String
  pub device_os : String
  pub device_arch : String

pub record Service : Type 0 where
  pub tokens : Dict String EnrollmentToken
  pub agents : Dict String EnrolledAgent

unfoldable pub new_service : Service
new_service = record { tokens = Dict.empty; agents = Dict.empty }

abbrev pub hour : ℕ
hour = 3600 * 1000000000

abbrev pub positive_or : ℕ → ℤ → ℕ
positive_or default (pos n) = if ltb 0 n then n else default
positive_or default (negsuc n) = default

-- The identifier, the random text, `none` where rand.Read fails, and the times that a call reads.
pub record Drawn : Type 0 where
  pub id : String
  pub secret : Option String
  pub at : ℕ
  pub later : ℕ

abbrev pub fresh_token : Drawn → String → CreateTokenRequest → String → EnrollmentToken
fresh_token w secret req created_by = record {
  id = w.id;
  token = secret;
  label = req.label;
  group_id = req.group_id;
  group_name = req.group_name;
  created_by = created_by;
  created_at = w.at;
  expires_at = w.later + positive_or (24 * hour) (scale_int64 req.ttl_hours hour);
  max_uses = positive_or 1 req.max_uses;
  used_count = 0;
  revoked = false;
  last_used_at = none;
  last_used_by = "";
}

-- `none` is an error.
unfoldable pub create_token :
    Drawn → CreateTokenRequest → String → Service → Option (EnrollmentToken × Service)
create_token w req created_by s = elim w.secret [
  | none ↦ none
  | some secret ↦
      let t = fresh_token w secret req created_by in
      some (t, record s { tokens = Dict.put w.id t s.tokens })
]

abbrev pub TokenOrder : Type 0
TokenOrder = List (String × EnrollmentToken) → List (String × EnrollmentToken)

unfoldable pub find_token :
    String → List (String × EnrollmentToken) → Option (String × EnrollmentToken)
find_token value [] = none
find_token value ((id, t) ∷ rest) =
    let later = find_token value rest in if t.token == value then some (id, t) else later

pub data Error : Type 0 where
  invalid revoked expired exhausted no_secret : Error

pub data Enrolled : Type 0 where
  ok : EnrolledAgent → Service → Enrolled
  err : Error → Enrolled

abbrev pub agent_of : Drawn → String → EnrollAgentRequest → EnrollmentToken → EnrolledAgent
agent_of w secret req t = record {
  id = w.id;
  device_name = req.device_name;
  device_os = req.device_os;
  device_arch = req.device_arch;
  token_id = t.id;
  group_id = t.group_id;
  group_name = t.group_name;
  enrolled_at = w.later;
  enrolled_by = t.created_by;
  last_seen = w.later;
  agent_secret = secret;
  active = true;
}

abbrev pub used_by : Drawn → EnrollAgentRequest → EnrollmentToken → EnrollmentToken
used_by w req t = record t {
  used_count = suc t.used_count;
  last_used_at = some w.later;
  last_used_by = req.device_name;
}

abbrev pub registered :
    Drawn → String → EnrollAgentRequest → String → EnrollmentToken → Service → Enrolled
registered w secret req key t s = ok (agent_of w secret req t) (record {
  tokens = Dict.put key (used_by w req t) s.tokens;
  agents = Dict.put w.id (agent_of w secret req t) s.agents;
})

abbrev pub admit : Drawn → EnrollAgentRequest → String → EnrollmentToken → Service → Enrolled
admit w req key t s =
    if t.revoked
    then err Error.revoked
    else if ltb t.expires_at w.at
    then err Error.expired
    else if leb t.max_uses t.used_count
    then err exhausted
    else elim w.secret [ none ↦ err no_secret | some secret ↦ registered w secret req key t s ]

unfoldable pub enroll_agent : TokenOrder → Drawn → EnrollAgentRequest → Service → Enrolled
unfolding find_token
enroll_agent order w req s = elim (find_token req.token (order (Dict.items s.tokens))) [
  | none ↦ err invalid
  | some (key, t) ↦ admit w req key t s
]

-- Whether the token was found.
unfoldable pub revoke_token : String → Service → Bool × Service
revoke_token id s = elim (Dict.get id s.tokens) [
  | none ↦ (false, s)
  | some t ↦ (true, record s { tokens = Dict.put id (record t { revoked = true }) s.tokens })
]

unfoldable pub deactivate_agent : String → Service → Bool × Service
deactivate_agent id s = elim (Dict.get id s.agents) [
  | none ↦ (false, s)
  | some a ↦ (true, record s { agents = Dict.put id (record a { active = false }) s.agents })
]

abbrev pub AgentOrder : Type 0
AgentOrder = List (String × EnrolledAgent) → List (String × EnrolledAgent)

abbrev pub without_secrets : List (String × EnrolledAgent) → List EnrolledAgent
without_secrets [] = []
without_secrets ((id, a) ∷ rest) = record a { agent_secret = "" } ∷ without_secrets rest

unfoldable pub list_agents : AgentOrder → Service → List EnrolledAgent
list_agents order s = without_secrets (order (Dict.items s.agents))

-- The states that the program reaches, with the agents enrolled on the way, the latest first. A new
-- token has an identifier that is not in use.
pub data Reachable (order : TokenOrder) : List EnrolledAgent → Service → Type 0 where
  start : Reachable order [] new_service
  created :
      (log : List EnrolledAgent) (s u : Service) (w : Drawn) (req : CreateTokenRequest)
      (created_by : String) (t : EnrollmentToken)
      → Reachable order log s
      → Dict.get w.id s.tokens ≡ none
      → create_token w req created_by s ≡ some (t, u)
      → Reachable order log u
  enrolled :
      (log : List EnrolledAgent) (s u : Service) (w : Drawn) (req : EnrollAgentRequest)
      (a : EnrolledAgent)
      → Reachable order log s
      → enroll_agent order w req s ≡ ok a u
      → Reachable order (a ∷ log) u
  withdrawn :
      (log : List EnrolledAgent) (s : Service) (id : String)
      → Reachable order log s
      → Reachable order log (revoke_token id s).1
  deactivated :
      (log : List EnrolledAgent) (s : Service) (id : String)
      → Reachable order log s
      → Reachable order log (deactivate_agent id s).1
