-- ===== src/Policy/History.antt =====
-- The version history of internal/policy/store.go: which versions it keeps, and that every operation
-- appends at most one.
use apexaegis_management_pla.Prelude.{
  ℕ, ◌≡◌, inl, inr, refl, sym, subst, ap, ◌∙◌, Bool, not, ◌&&◌, Option, some, String, List, [], ◌∷◌,
  ltb, drop, ◌==◌, string_eq, if_cases, option_cases,
}
use apexaegis_management_pla.Dict
use apexaegis_management_pla.Dict.{Dict, get-put_cases, get-remove_cases, get-empty}
use apexaegis_management_pla.Policy
use apexaegis_management_pla.Policy.Defaults
use apexaegis_management_pla.Policy.{
  SecurityPolicy, ConfigVersion, ConfigLock, Store, Runtime, new_store, lock_config, check_lock,
  commit, list, trimmed, find_version, snapshot_map, with_sequence, created, updated, deleted,
  restored, Change, held_by_other, relock, get_version,
}

-- The calls that change a store, and the hub's receive from the channel.
pub data Operation : Type 0 where
  lock : ℕ → String → Operation
  unlock : String → Bool → Operation
  get_lock : ℕ → Operation
  create : ℕ → String → SecurityPolicy → Operation
  update : ℕ → String → SecurityPolicy → Operation
  delete : ℕ → String → String → Operation
  revert : ℕ → ℕ → String → Operation
  load_defaults : ℕ → Operation
  receive : Operation

unfoldable pub run : Runtime → Operation → Store → Store
run rt (Operation.lock now author) s = (lock_config now author s).0
run rt (Operation.unlock author force) s = (Policy.unlock author force s).0
run rt (Operation.get_lock now) s = (Policy.get_lock now s).0
run rt (Operation.create now author p) s = (Policy.create rt now author p s).0
run rt (Operation.update now author p) s = (Policy.update rt now author p s).0
run rt (Operation.delete now author id) s = (Policy.delete rt now author id s).0
run rt (Operation.revert now v author) s = (Policy.revert rt now v author s).0
run rt (Operation.load_defaults now) s = Defaults.load_defaults rt now s
run rt Operation.receive s = record s { changes = drop 1 s.changes }

unfoldable pub run_all : Runtime → List Operation → Store → Store
unfolding run
run_all rt [] s = s
run_all rt (op ∷ ops) s = run_all rt ops (run rt op s)

-- Each policy stands under its own id.
abbrev pub OwnIds : Dict String SecurityPolicy → Type 0
OwnIds m = (id : String) (p : SecurityPolicy) → Dict.get id m ≡ some p → p.id ≡ id

-- An operation leaves policies and history alone, or commits a set of policies.
pub data Step (rt : Runtime) (s : Store) : Store → Type 0 where
  quiet :
      (t : Store)
      → t.policies ≡ s.policies
      → t.versions ≡ s.versions
      → t.version ≡ s.version
      → Step rt s t
  commits :
      (m : Dict String SecurityPolicy) (now : ℕ) (author message change_type policy_id : String)
      → OwnIds m
      → Step rt s (commit rt now author message change_type policy_id (record s { policies = m }))

put-OwnIds :
    (p : SecurityPolicy) (m : Dict String SecurityPolicy) → OwnIds m → OwnIds (Dict.put p.id p m)
put-OwnIds p m own id q e = elim (get-put_cases p.id id p q m e) [
  | inl (k, same) ↦ ap (λ (x : SecurityPolicy). x.id) (sym same) ∙ k
  | inr (n, old) ↦ own id q old
]

snapshot_map-OwnIds :
    (ps : List SecurityPolicy) (m : Dict String SecurityPolicy)
    → OwnIds m
    → OwnIds (snapshot_map ps m)
unfolding snapshot_map
snapshot_map-OwnIds [] m own = own
snapshot_map-OwnIds (p ∷ ps) m own = snapshot_map-OwnIds ps (Dict.put p.id p m) (put-OwnIds p m own)

module _ (rt : Runtime) (s : Store) where
  same : Step rt s s
  same = quiet s refl refl refl

  lock-Step : (now : ℕ) (author : String) → Step rt s (lock_config now author s).0
  unfolding lock_config
  lock-Step now author =
      option_cases (λ (r : Store × Bool). Step rt s r.0) s.lock _ _ (λ _. quiet _ refl refl refl)
        (λ l _.
          if_cases (λ (r : Store × Bool). Step rt s r.0) (held_by_other now author l) _ _
            (λ _. same) (λ _. quiet _ refl refl refl))

  unlock-Step : (author : String) (force : Bool) → Step rt s (Policy.unlock author force s).0
  unfolding Policy.unlock
  unlock-Step author force =
      option_cases (λ (r : Store × Bool). Step rt s r.0) s.lock _ _ (λ _. same)
        (λ l _.
          if_cases (λ (r : Store × Bool). Step rt s r.0) (not force && not (l.locked_by == author))
            _ _ (λ _. same) (λ _. quiet _ refl refl refl))

  get_lock-Step : (now : ℕ) → Step rt s (Policy.get_lock now s).0
  unfolding Policy.get_lock
  get_lock-Step now =
      option_cases (λ (r : Store × Option ConfigLock). Step rt s r.0) s.lock _ _ (λ _. same)
        (λ l _.
          if_cases (λ (r : Store × Option ConfigLock). Step rt s r.0) (ltb l.expires_at now) _ _
            (λ _. quiet _ refl refl refl) (λ _. same))

  module _ (own : OwnIds s.policies) where
    create-Step :
        (now : ℕ) (author : String) (p : SecurityPolicy)
        → Step rt s (Policy.create rt now author p s).0
    unfolding Policy.create
    create-Step now author p =
        option_cases (λ (r : Store × Change). Step rt s r.0) (check_lock now author s) _ _
          (λ _.
            commits _ now author _ "create" _ (put-OwnIds (with_sequence rt s p) s.policies own))
          (λ msg _. same)

    update-Step :
        (now : ℕ) (author : String) (p : SecurityPolicy)
        → Step rt s (Policy.update rt now author p s).0
    unfolding Policy.update
    update-Step now author p =
        option_cases (λ (r : Store × Change). Step rt s r.0) (check_lock now author s) _ _
          (λ _.
            option_cases (λ (r : Store × Change). Step rt s r.0) (Dict.get p.id s.policies) _ _
              (λ _. same)
              (λ old _. commits _ now author _ "update" _ (put-OwnIds p s.policies own)))
          (λ msg _. same)

    delete-Step : (now : ℕ) (author id : String) → Step rt s (Policy.delete rt now author id s).0
    unfolding Policy.delete
    delete-Step now author id =
        option_cases (λ (r : Store × Change). Step rt s r.0) (check_lock now author s) _ _
          (λ _.
            option_cases (λ (r : Store × Change). Step rt s r.0) (Dict.get id s.policies) _ _
              (λ _. same)
              (λ p _.
                commits _ now author _ "delete" _
                  (λ k q e. own k q (get-remove_cases id k q s.policies e).1)))
          (λ msg _. same)

  revert-Step : (now v : ℕ) (author : String) → Step rt s (Policy.revert rt now v author s).0
  unfolding Policy.revert
  revert-Step now v author =
      option_cases (λ (r : Store × Change). Step rt s r.0) (find_version v s.versions) _ _
        (λ _. same)
        (λ cv _.
          commits _ now author _ "revert" _
            (snapshot_map-OwnIds cv.policies Dict.empty (λ id q e. absurd (cc (e, get-empty id)))))

load_defaults_lem :
    (rt : Runtime) (now : ℕ) (s : Store)
    → Defaults.load_defaults rt now s
      ≡ commit rt now "system" "Default policies loaded" "create" ""
          (record s { policies = snapshot_map Defaults.defaults s.policies })
unfolding Defaults.load_defaults
load_defaults_lem rt now s = refl

pub run-Step :
    (rt : Runtime) (s : Store) (op : Operation) → OwnIds s.policies → Step rt s (run rt op s)
unfolding run
run-Step rt s (Operation.lock now author) own = lock-Step rt s now author
run-Step rt s (Operation.unlock author force) own = unlock-Step rt s author force
run-Step rt s (Operation.get_lock now) own = get_lock-Step rt s now
run-Step rt s (Operation.create now author p) own = create-Step rt s own now author p
run-Step rt s (Operation.update now author p) own = update-Step rt s own now author p
run-Step rt s (Operation.delete now author id) own = delete-Step rt s own now author id
run-Step rt s (Operation.revert now v author) own = revert-Step rt s now v author
run-Step rt s (Operation.load_defaults now) own =
    subst (Step rt s) (sym (load_defaults_lem rt now s))
      (commits _ now "system" _ "create" _ (snapshot_map-OwnIds Defaults.defaults s.policies own))
run-Step rt s Operation.receive own = quiet _ refl refl refl
