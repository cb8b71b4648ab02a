-- ===== src/Dot1x/Sessions.antt =====
-- The sessions of internal/dot1x/authenticator.go that the operations leave are on the default VLAN.
use apexaegis_management_pla.Prelude.{
  ℕ, ◌≡◌, refl, sym, ◌∙◌, subst, inl, inr, Bool, false, some, String, List, [], ◌∷◌, if_cases,
  option_cases, string_eq, ◌==◌,
}
use apexaegis_management_pla.Prelude.Int.{pos}
use apexaegis_management_pla.Dict
use apexaegis_management_pla.Dict.{Dict, get-put_cases, get-put_self, get-put_ne, get-empty}
use apexaegis_management_pla.Dot1x.{
  Outside, Times, AuthRequest, AcctRequest, MacAuthEntry, Session, Authenticator, Reply, answer,
  panic, new_session, session_id, authenticate, account, record_accounting, disconnect_session,
  register_mac, remove_mac, normalize_mac,
}
use apexaegis_management_pla.Dot1x.Admission.{
  IsJudged, refused, granted, panicked, authenticate-IsJudged,
}

pub data Operation : Type 0 where
  log_in : Times → AuthRequest → Operation
  count : ℕ → AcctRequest → Operation
  disconnect : String → Operation
  add_mac : ℕ → MacAuthEntry → Operation
  drop_mac : String → Operation

-- A panic ends the call and leaves the state.
abbrev pub left : Reply → Authenticator → Authenticator
left (answer r b) a = b
left panic a = a

unfoldable pub perform : Outside → Operation → Authenticator → Authenticator
perform o (log_in t req) a = left (authenticate o t req a) a
perform o (count now req) a = record_accounting now req a
perform o (disconnect id) a = (disconnect_session id a).1
perform o (add_mac now e) a = register_mac o now e a
perform o (drop_mac mac) a = (remove_mac o mac a).1

unfoldable pub run : Outside → List Operation → Authenticator → Authenticator
unfolding perform
run o [] a = a
run o (op ∷ ops) a = run o ops (perform o op a)

-- A session on the default VLAN and in the default group.
pub record IsDefault (s : Session) : Type 0 where
  pub vlan : s.vlan ≡ pos 100
  pub group : s.segment_group ≡ "default"

pub AllDefault : Dict String Session → Type 0
AllDefault d = (id : String) (s : Session) → Dict.get id d ≡ some s → IsDefault s

AllDefault-put :
    (k : String) (s : Session) (d : Dict String Session)
    → AllDefault d
    → IsDefault s
    → AllDefault (Dict.put k s d)
unfolding AllDefault
AllDefault-put k s d all new id u h = elim (get-put_cases k id s u d h) [
  | inl (_, q) ↦ subst IsDefault q new
  | inr (_, there) ↦ all id u there
]

pub AllDefault-empty : AllDefault Dict.empty
unfolding AllDefault
AllDefault-empty id s h = absurd (cc (sym (get-empty id) ∙ h))

pub stored-IsDefault :
    (d : Dict String Session) (id : String) (s : Session)
    → AllDefault d
    → Dict.get id d ≡ some s
    → IsDefault s
unfolding AllDefault
stored-IsDefault d id s all e = all id s e

account-IsDefault :
    (now : ℕ) (req : AcctRequest) (s : Session) → IsDefault s → IsDefault (account now req s)
account-IsDefault now req s h =
    let same = λ (u : Session) (v : u.vlan ≡ s.vlan) (g : u.segment_group ≡ s.segment_group).
      is_default u (v ∙ h.vlan) (g ∙ h.group) in
    if_cases IsDefault (req.kind == "start") _ _ (λ _. same _ refl refl)
      (λ _.
        if_cases IsDefault (req.kind == "interim-update") _ _ (λ _. same _ refl refl)
          (λ _. if_cases IsDefault (req.kind == "stop") _ s (λ _. same _ refl refl) (λ _. h)))
  where
    is_default : (u : Session) → u.vlan ≡ pos 100 → u.segment_group ≡ "default" → IsDefault u
    is_default u v g = record { vlan = v; group = g }

pub log_in-AllDefault :
    (o : Outside) (t : Times) (req : AuthRequest) (a : Authenticator) (r : Reply)
    → IsJudged o t req a r
    → AllDefault a.sessions
    → AllDefault (left r a).sessions
log_in-AllDefault o t req a _ (refused m) all = all
log_in-AllDefault o t req a _ (granted u r h s n i) all =
    AllDefault-put (session_id o req t.milliseconds) (new_session o t req u) a.sessions all
      (record { vlan = refl; group = refl })
log_in-AllDefault o t req a _ (panicked h) all = all

perform-AllDefault :
    (o : Outside) (op : Operation) (a : Authenticator)
    → AllDefault a.sessions
    → AllDefault (perform o op a).sessions
unfolding perform record_accounting disconnect_session register_mac remove_mac
perform-AllDefault o (log_in t req) a all =
    log_in-AllDefault o t req a (authenticate o t req a) (authenticate-IsJudged o t req a) all
perform-AllDefault o (count now req) a all =
    option_cases (λ (b : Authenticator). AllDefault b.sessions) (Dict.get req.session_id a.sessions)
      a _ (λ _. all)
      (λ s e.
        AllDefault-put req.session_id (account now req s) a.sessions all
          (account-IsDefault now req s (stored-IsDefault a.sessions req.session_id s all e)))
perform-AllDefault o (disconnect id) a all =
    option_cases (λ (b : Bool × Authenticator). AllDefault b.1.sessions) (Dict.get id a.sessions)
      (false, a) _ (λ _. all)
      (λ s e.
        let d = stored-IsDefault a.sessions id s all e in
        AllDefault-put id (record s { state = "disconnected" }) a.sessions all
          (record { vlan = d.vlan; group = d.group }))
perform-AllDefault o (add_mac now e) a all = all
perform-AllDefault o (drop_mac mac) a all =
    option_cases (λ (b : Bool × Authenticator). AllDefault b.1.sessions)
      (Dict.get (normalize_mac o mac) a.mac_db) (false, a) _ (λ _. all) (λ e _. all)

pub run-AllDefault :
    (o : Outside) (ops : List Operation) (a : Authenticator)
    → AllDefault a.sessions
    → AllDefault (run o ops a).sessions
unfolding run
run-AllDefault o [] a all = all
run-AllDefault o (op ∷ ops) a all =
    run-AllDefault o ops (perform o op a) (perform-AllDefault o op a all)
