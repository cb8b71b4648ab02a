-- ===== src/Features.antt =====
-- Feature licensing: internal/features/store.go. The map holds pointers, and an operation changes the
-- feature that its key holds; the operations hold the lock from start to end. A time is nanoseconds.
mod Catalog
pub mod Cases
pub mod Kept
pub mod Licence
pub mod Expired
pub mod Tests
pub use Catalog.{Feature}
unfoldable pub use Catalog.{default_features}
use apexaegis_management_pla.Prelude.{
  ℕ, ◌+◌, ◌*◌, Bool, true, false, not, ◌&&◌, Option, none, some, String, List, [], ◌∷◌, ltb, eqb,
  map, if◌then◌else◌, ◌==◌, string_eq,
}
use apexaegis_management_pla.Dict
use apexaegis_management_pla.Dict.{Dict}

-- time.RFC3339 of Go's package time, which is not part of the repository: Format, and Parse that gives
-- `none` where it fails.
pub record Rfc3339 : Type 0 where
  pub format : ℕ → String
  pub parse : String → Option ℕ

pub record Store : Type 0 where
  pub features : Dict String Feature

-- A missing key of planRank gives 0.
unfoldable pub plan_rank : String → ℕ
plan_rank plan =
    if plan == "standard"
    then 1
    else if plan == "professional"
    then 2
    else if plan == "enterprise"
    then 3
    else 0

abbrev pub fill : (Feature → ℕ) → List Feature → Dict String Feature → Dict String Feature
fill clock [] m = m
fill clock (f ∷ rest) m =
    fill clock rest (Dict.put f.id (record f { updated_at = clock f; updated_by = "system" }) m)

-- `clock` gives the time at which each entry is stored.
unfoldable pub new_store : (Feature → ℕ) → Store
unfolding default_features
new_store clock = record { features = fill clock default_features Dict.empty }

abbrev pub Order : Type 0
Order = List (String × Feature) → List (String × Feature)

unfoldable pub list : Order → Store → List Feature
list order s = map (λ (x : String × Feature). x.1) (order (Dict.items s.features))

unfoldable pub get : String → Store → Option Feature
get id s = Dict.get id s.features

pub data Error : Type 0 where
  not_found : String → Error
  plan_required : String → String → String → Error
  no_trial : String → Error
  trial_used : String → Error

pub data Outcome : Type 0 where
  ok : Feature → Store → Outcome
  err : Error → Outcome

abbrev pub stored : String → Feature → Store → Outcome
stored id f s = ok f (record s { features = Dict.put id f s.features })

abbrev pub toggled : ℕ → Bool → String → Feature → Feature
toggled now enabled actor f = record f { enabled = enabled; updated_by = actor; updated_at = now }

unfoldable pub toggle : ℕ → String → Bool → String → String → Store → Outcome
unfolding plan_rank
toggle now id enabled org_plan actor s = elim (Dict.get id s.features) [
  | none ↦ err (not_found id)
  | some f ↦
      if enabled && ltb (plan_rank org_plan) (plan_rank f.min_plan)
      then err (plan_required f.name f.min_plan org_plan)
      else stored id (toggled now enabled actor f) s
]

abbrev pub day : ℕ
day = 24 * 3600 * 1000000000

-- The clock is read twice, at `now` and `later`.
abbrev pub on_trial : Rfc3339 → ℕ → ℕ → String → Feature → Feature
on_trial t now later actor f = record f {
  enabled = true;
  trial_end = t.format (now + f.trial_days * day);
  updated_by = actor;
  updated_at = later;
}

unfoldable pub start_trial : Rfc3339 → ℕ → ℕ → String → String → Store → Outcome
start_trial t now later id actor s = elim (Dict.get id s.features) [
  | none ↦ err (not_found id)
  | some f ↦
      if eqb f.trial_days 0
      then err (no_trial f.name)
      else if not (f.trial_end == "")
      then err (trial_used f.name)
      else stored id (on_trial t now later actor f) s
]

-- A trial's end that does not parse does not end it.
abbrev pub is_over : ℕ → Option ℕ → Bool
is_over now none = false
is_over now (some end) = ltb end now

abbrev pub is_active : Rfc3339 → ℕ → Feature → Bool
is_active t now f =
    if not f.enabled
    then false
    else if not (f.trial_end == "") && is_over now (t.parse f.trial_end)
    then false
    else true

unfoldable pub is_enabled : Rfc3339 → ℕ → String → Store → Bool
is_enabled t now id s = elim (Dict.get id s.features) [ none ↦ false | some f ↦ is_active t now f ]

pub data Operation : Type 0 where
  switch : ℕ → String → Bool → String → String → Operation
  begin_trial : ℕ → ℕ → String → String → Operation

-- What an operation leaves, which changes nothing where it fails.
abbrev pub left : Outcome → Store → Store
left (ok f s) before = s
left (err e) before = before

unfoldable pub perform : Rfc3339 → Operation → Store → Store
unfolding toggle start_trial
perform t (switch now id enabled org_plan actor) s = left (toggle now id enabled org_plan actor s) s
perform t (begin_trial now later id actor) s = left (start_trial t now later id actor s) s

unfoldable pub run : Rfc3339 → List Operation → Store → Store
unfolding perform
run t [] s = s
run t (op ∷ ops) s = run t ops (perform t op s)
