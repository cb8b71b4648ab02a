-- ===== src/Enrollment/Tests.antt =====
-- Tests of internal/security/enrollment.go on a token of two uses.
use apexaegis_management_pla.Prelude.{◌≡◌, ◌≤◌, refl, [], ◌∷◌, none, some, string_eq}
use apexaegis_management_pla.Prelude.Int
use apexaegis_management_pla.Prelude.Int.{pos}
use apexaegis_management_pla.Dict
use apexaegis_management_pla.Dict.{Dict}
use apexaegis_management_pla.Enrollment.{
  EnrollmentToken, EnrolledAgent, CreateTokenRequest, EnrollAgentRequest, Service, Drawn,
  TokenOrder, ok, fresh_token, create_token, find_token, agent_of, used_by, enroll_agent, Reachable,
  start, created, enrolled, new_service,
}
use apexaegis_management_pla.Enrollment.Uses.{uses, Visits, Reachable-uses}

abbrev in_order : TokenOrder
in_order l = l

in_order-Visits : Visits in_order
in_order-Visits l x = (λ i. i, λ i. i)

abbrev first : Drawn
first = record { id = "etk-1"; secret = some "aa"; at = 0; later = 0 }

abbrev second : Drawn
second = record { id = "agt-1"; secret = some "bb"; at = 5; later = 6 }

abbrev two_uses : CreateTokenRequest
two_uses = record {
  label = "lab";
  group_id = "g";
  group_name = "G";
  max_uses = pos 2;
  ttl_hours = pos 1;
}

abbrev token : EnrollmentToken
token = fresh_token first "aa" two_uses "admin"

abbrev laptop : EnrollAgentRequest
laptop = record { token = "aa"; device_name = "laptop"; device_os = "linux"; device_arch = "arm64" }

abbrev with_token : Service
with_token = record new_service { tokens = Dict.put "etk-1" token new_service.tokens }

abbrev agent : EnrolledAgent
agent = agent_of second "bb" laptop token

abbrev used : EnrollmentToken
used = used_by second laptop token

abbrev with_agent : Service
with_agent = record {
  tokens = Dict.put "etk-1" used with_token.tokens;
  agents = Dict.put "agt-1" agent with_token.agents;
}

create_token_test : create_token first two_uses "admin" new_service ≡ some (token, with_token)
unfolding create_token new_service
create_token_test = refl

enroll_agent_test : enroll_agent in_order second laptop with_token ≡ ok agent with_agent
unfolding enroll_agent find_token new_service Dict.put Dict.empty Dict.items Int.scale_int64
enroll_agent_test = refl

fresh : Dict.get "etk-1" new_service.tokens ≡ none
unfolding new_service Dict.empty Dict.get
fresh = refl

with_agent-Reachable : Reachable in_order (agent ∷ []) with_agent
with_agent-Reachable =
    enrolled [] with_token with_agent second laptop agent
      (created [] new_service with_token first two_uses "admin" token start fresh create_token_test)
      enroll_agent_test

with_agent_token : Dict.get "etk-1" with_agent.tokens ≡ some used
unfolding new_service Dict.put Dict.empty Dict.get
with_agent_token = refl

Reachable-uses_example :
    (uses "etk-1" (agent ∷ []) ≡ used.used_count) × (uses "etk-1" (agent ∷ []) ≤ used.max_uses)
Reachable-uses_example =
    Reachable-uses in_order in_order-Visits (agent ∷ []) with_agent "etk-1" used
      with_agent-Reachable with_agent_token
