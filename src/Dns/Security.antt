-- ===== src/Dns/Security.antt =====
-- Which threat categories a group's policy denies: internal/dnssecurity/policy.go.
use apexaegis_management_pla.Prelude.{
  ◌≡◌, ◌≢◌, refl, ap, ◌∙◌, Bool, true, false, not, ◌&&◌, ◌||◌, Option, none, some, String, List, [],
  ◌∷◌, if◌then◌else◌, ◌==◌, string_eq, Bool-cases, inl, inr,
}
use apexaegis_management_pla.Dict
use apexaegis_management_pla.Dict.{Dict, get-empty, get-put_self, get-put_ne}

abbrev pub categories : List String
categories = "nrd" ∷ "nod" ∷ "dga" ∷ "malicious" ∷ "spyware" ∷ []

pub record Policy : Type 0 where
  pub enabled : Bool
  pub actions : Dict String String

-- A configured action counts if it is one of the two.
abbrev pub is_action : String → Bool
is_action v = v == "allow" || v == "deny"

abbrev pub action_of : Option String → String
action_of none = "deny"
action_of (some v) = if is_action v then v else "deny"

unfoldable pub set_actions :
    Dict String String → List String → Dict String String → Dict String String
set_actions configured [] m = m
set_actions configured (cat ∷ rest) m =
    set_actions configured rest (Dict.put cat (action_of (Dict.get cat configured)) m)

unfoldable pub from_flags : Bool → Dict String String → Policy
unfolding set_actions
from_flags false configured = record { enabled = false; actions = Dict.empty }
from_flags true configured = record {
  enabled = true;
  actions = set_actions configured categories Dict.empty;
}

-- A JSON value, as far as FromSettings tells values apart.
pub data Value : Type 0 where
  text : String → Value
  other : Value

pub data Setting : Type 0 where
  object : List (String × Value) → Setting
  scalar : Setting

-- The entries of the settings' object "categories" in the order of the loop.
abbrev pub raw_categories : Option Setting → List (String × Value)
raw_categories none = []
raw_categories (some (object l)) = l
raw_categories (some scalar) = []

abbrev pub take_text : String → Value → Dict String String → Dict String String
take_text k (text s) m = Dict.put k s m
take_text k other m = m

unfoldable pub texts : List (String × Value) → Dict String String → Dict String String
texts [] m = m
texts ((k, v) ∷ rest) m = texts rest (take_text k v m)

unfoldable pub from_settings : Bool → Dict String Setting → Policy
unfolding from_flags texts
from_settings flag settings =
    from_flags flag (texts (raw_categories (Dict.get "categories" settings)) Dict.empty)

-- The lookup of a missing key is the empty string.
abbrev pub or_empty : Option String → String
or_empty none = ""
or_empty (some v) = v

unfoldable pub denies : Policy → String → Bool
denies p category =
    if not p.enabled || category == ""
    then false
    else not (or_empty (Dict.get category p.actions) == "allow")

abbrev pub is_member : String → List String → Bool
is_member c [] = false
is_member c (x ∷ rest) = x == c || is_member c rest

abbrev pub allows : Option String → Bool
allows none = false
allows (some v) = v == "allow"

get-set_actions :
    (configured : Dict String String) (l : List String) (m : Dict String String) (c : String)
    → Dict.get c (set_actions configured l m)
      ≡ (if is_member c l then some (action_of (Dict.get c configured)) else Dict.get c m)
unfolding set_actions
get-set_actions configured [] m c = refl
get-set_actions configured (x ∷ l) m c =
    get-set_actions configured l (Dict.put x (action_of (Dict.get x configured)) m) c
    ∙ elim (Bool-cases (x == c)) [
      | inl hit ↦
          let q : x ≡ c = (string_eq.beq_iff x c).0 hit in
          let e =
            ap (λ k. Dict.get c (Dict.put k (action_of (Dict.get k configured)) m)) q
            ∙ get-put_self c (action_of (Dict.get c configured)) m in
          rw (hit, e) (same_branches (is_member c l) _)
      | inr miss ↦
          let n : x ≢ c = λ q. cc ((string_eq.beq_iff x c).1 q, miss) in
          rw (miss, get-put_ne x c (action_of (Dict.get x configured)) m n) refl
    ]
  where
    same_branches : (b : Bool) (x : Option String) → (if b then x else x) ≡ x
    same_branches true x = refl
    same_branches false x = refl

allow-action_of : (o : Option String) → (action_of o == "allow") ≡ allows o
allow-action_of none = refl
allow-action_of (some v) = elim (Bool-cases (v == "allow")) [
  | inl hit ↦ rw hit hit
  | inr miss ↦ elim (Bool-cases (v == "deny")) [
    | inl deny ↦ rw (miss, deny) miss
    | inr neither ↦ rw (miss, neither) refl
  ]
]

allow-lookup :
    (b : Bool) (o g : Option String)
    → g ≡ (if b then some (action_of o) else none)
    → (or_empty g == "allow") ≡ (b && allows o)
allow-lookup true o g e = rw e (allow-action_of o)
allow-lookup false o g e = rw e refl

-- A group denies a category exactly when its feature flag is on, the category is named, and it is not
-- one of the five known ones that the group has configured as allowed.
pub denies-from_flags :
    (flag : Bool) (configured : Dict String String) (category : String)
    → denies (from_flags flag configured) category ≡ (
        flag
        && not (category == "")
        && not (is_member category categories && allows (Dict.get category configured)))
unfolding denies from_flags
denies-from_flags false configured category = refl
denies-from_flags true configured category = elim (Bool-cases (category == "")) [
  | inl unnamed ↦ rw unnamed refl
  | inr named ↦
      let found = Dict.get category (set_actions configured categories Dict.empty) in
      let known = is_member category categories in
      let e : found ≡ (if known then some (action_of (Dict.get category configured)) else none) =
        get-set_actions configured categories Dict.empty category
        ∙ ap (λ o. if known then some (action_of (Dict.get category configured)) else o)
            (get-empty category) in
      rw named (ap not (allow-lookup known (Dict.get category configured) found e))
]
