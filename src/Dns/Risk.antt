-- ===== src/Dns/Risk.antt =====
-- The DNS risk assessment: internal/dnsrisk/engine.go. The stores, the resolver and the text functions
-- are parameters; a ratio of two lengths below 0.15 or 0.25 is compared without division.
pub mod Bounds
pub mod Deny
use apexaegis_management_pla.Prelude.{
  ℕ, ◌+◌, ◌*◌, ◌≡◌, ◌<>◌, Bool, true, false, not, ◌&&◌, ◌||◌, Option, none, some, String, List, [],
  ◌∷◌, ◌++◌, ltb, leb, length, if◌then◌else◌, ◌==◌, string_eq,
}
use apexaegis_management_pla.Prelude.Int.{ℤ, pos, negsuc, ◌+ℤ◌, ltbℤ}
use apexaegis_management_pla.Prelude.Text.{Text, join}
use apexaegis_management_pla.Dns.Security.{Policy}

pub data Verdict : Type 0 where
  allow monitor deny : Verdict

pub data Confidence : Type 0 where
  low medium high : Confidence

pub data Source : Type 0 where
  cache live : Source

pub record Signals : Type 0 where
  pub dga_like : Bool
  pub domain_age : String
  pub geo_risk : String
  pub newly_observed : Bool
  pub reputation : String

pub record Assessment : Type 0 where
  pub domain : String
  pub score : ℤ
  pub verdict : Verdict
  pub confidence : Confidence
  pub source : Source
  pub signals : Signals
  pub top_factors : List String
  pub rationale : String

pub data Error : Type 0 where
  domain_required : Error
  resolve_policy : Error

pub data Result : Type 0 where
  ok : Assessment → Result
  err : Error → Result

-- A hit of the threat store.
pub record Threat : Type 0 where
  pub level : String
  pub category : String

-- What surrounds the engine. A store that is nil is `none`; a query of the threat store that fails or
-- finds nothing gives `none`, and so does the log store's; the latter gives the time of the newest
-- record. The resolver gives `none` if it fails.
pub record Outside : Type 0 where
  pub text : Text
  pub vowels : String → ℕ
  pub threat_store : Option (String → String → Option Threat)
  pub dns_log_store : Option (String → String → Option ℕ)
  pub resolve : String → String → Option Policy

pub record Reputation : Type 0 where
  pub name : String
  pub category : String
  pub level : String
  pub score : ℤ

abbrev pub rated : Threat → String → ℤ → Reputation
rated t name score = record { name = name; category = t.category; level = t.level; score = score }

abbrev pub hit : Threat → Reputation
hit t =
    if t.level == "critical"
    then rated t "malicious" (pos 55)
    else if t.level == "high"
    then rated t "malicious" (pos 45)
    else if t.level == "medium"
    then rated t "suspicious" (pos 30)
    else rated t "suspicious" (pos 20)

abbrev pub no_hit : String → Reputation
no_hit name = record { name = name; category = ""; level = ""; score = pos 0 }

-- The loop over the suffixes of the domain, longest first.
unfoldable pub search_suffixes : (String → Option Threat) → List String → Reputation
search_suffixes query [] = no_hit "clean"
search_suffixes query (part ∷ rest) = elim (query (join "." (part ∷ rest))) [
  | none ↦ search_suffixes query rest
  | some t ↦ hit t
]

unfoldable pub reputation : Outside → String → String → Reputation
unfolding search_suffixes
reputation o org domain = elim o.threat_store [
  | none ↦ no_hit "unknown"
  | some query ↦ search_suffixes (query org) (o.text.split domain ".")
]

-- A signal and its score.
abbrev pub Scored : Type 0 → Type 0
Scored A = A × ℤ

abbrev pub week : ℕ
week = 7 * 24 * 3600 * 1000000000

unfoldable pub estimate_newly_observed : Outside → ℕ → String → String → Scored Bool
estimate_newly_observed o now org domain = elim o.dns_log_store [
  | none ↦ (false, pos 0)
  | some log ↦ elim (log org domain) [
    | none ↦ (true, pos 10)
    | some created ↦ if ltb (created + week) now then (true, pos 5) else (false, pos 0)
  ]
]

abbrev pub dga_label : Outside → String → Scored Bool
dga_label o label =
    if ltb (o.text.len label) 12
    then (false, pos 0)
    else if ltb (o.vowels label * 100) (15 * o.text.len label)
    then (true, pos 25)
    else if ltb (o.vowels label * 100) (25 * o.text.len label)
    then (true, pos 15)
    else (false, pos 0)

-- Labels of a domain, of which fewer than two make no estimate.
unfoldable pub dga_like : Outside → List String → Scored Bool
dga_like o [] = (false, pos 0)
dga_like o (label ∷ []) = (false, pos 0)
dga_like o (label ∷ next ∷ rest) = dga_label o label

unfoldable pub is_dictionary_word : Outside → String → Bool
is_dictionary_word o s =
    let w = o.text.to_lower s in
    w == "internet"
    || w == "bad"
    || w == "guys"
    || w == "mail"
    || w == "web"
    || w == "www"
    || w == "api"
    || w == "app"
    || w == "login"
    || w == "secure"

abbrev pub age_label : Outside → String → String → Scored String
age_label o lower label =
    if o.text.contains "opendns" lower || o.text.contains "cisco" lower
    then ("established", negsuc 4)
    else if leb (o.text.len label) 6 && is_dictionary_word o label
    then ("established", negsuc 4)
    else if ltb 15 (o.text.len label)
    then ("new", pos 10)
    else ("established", pos 0)

unfoldable pub estimate_domain_age : Outside → String → List String → Scored String
unfolding is_dictionary_word
estimate_domain_age o domain [] = ("unknown", pos 0)
estimate_domain_age o domain (label ∷ []) = ("unknown", pos 0)
estimate_domain_age o domain (label ∷ next ∷ rest) = age_label o (o.text.to_lower domain) label

unfoldable pub estimate_geo_risk : Outside → String → Scored String
estimate_geo_risk o domain =
    let ends = λ (s : String). o.text.has_suffix s (o.text.to_lower domain) in
    if ends ".ru" || ends ".cn" || ends ".tk"
    then ("medium", pos 10)
    else if ends ".ml" || ends ".ga"
    then ("high", pos 15)
    else ("low", pos 0)

-- `a <= b`
abbrev pub lebℤ : ℤ → ℤ → Bool
lebℤ a b = not (ltbℤ b a)

unfoldable pub clamp_score : ℤ → ℤ
clamp_score s = if ltbℤ s (pos 0) then pos 0 else if ltbℤ (pos 100) s then pos 100 else s

unfoldable pub verdict_from_score : ℤ → Verdict
verdict_from_score s = if lebℤ (pos 70) s then deny else if lebℤ (pos 40) s then monitor else allow

unfoldable pub confidence_from_score : ℤ → Confidence
confidence_from_score s =
    if lebℤ (pos 70) s || ltbℤ s (pos 20) then high else if lebℤ (pos 40) s then medium else low

-- A disabled policy never denies.
abbrev pub downgrade : Policy → Verdict → Verdict
downgrade p deny = if p.enabled then deny else monitor
downgrade p monitor = monitor
downgrade p allow = allow

abbrev pub when : Bool → List String → List String → List String
when b yes_list no_list = if b then yes_list else no_list

abbrev pub reputation_factors : Reputation → List String
reputation_factors r =
    if r.name == "malicious"
    then ("Threat-feed hit: " <> r.category <> " (" <> r.level <> ")") ∷ []
    else if r.name == "suspicious"
    then ("Suspicious reputation: " <> r.category) ∷ []
    else []

abbrev pub reputation_parts : Text → String → Reputation → List String
reputation_parts t domain r =
    if r.name == "malicious"
    then ("The domain "
        <> t.quote domain
        <> " matches a "
        <> r.category
        <> " threat-intelligence entry ("
        <> r.level
        <> " confidence).")
      ∷ []
    else if r.name == "suspicious"
    then ("The domain "
        <> t.quote domain
        <> " has a suspicious reputation flag ("
        <> r.category
        <> ").")
      ∷ []
    else []

unfoldable pub factors : Reputation → Signals → List String
factors r g =
    reputation_factors r
    ++ ((if g.dga_like then "DGA-like label detected" else "No DGA-like pattern")
        ∷ (if g.newly_observed then "Newly observed domain" else "Domain previously observed")
        ∷ ("Domain age: " <> g.domain_age)
        ∷ ("Geo risk: " <> g.geo_risk)
        ∷ [])

abbrev pub action_text : Verdict → String
action_text deny = "blocked"
action_text monitor = "allowed but logged for monitoring"
action_text allow = "allowed"

abbrev pub policy_note : Policy → String
policy_note p =
    if p.enabled
    then " DNS security policy is enabled for your group."
    else " DNS security policy is currently disabled for your group, so the verdict was downgraded to monitor-only."

-- `%d` of a score, which is not negative.
abbrev pub score_text : Text → ℤ → String
score_text t (pos n) = t.decimal n
score_text t (negsuc n) = "-" <> t.decimal (n + 1)

unfoldable pub rationale : Text → String → Reputation → Signals → ℤ → Verdict → Policy → String
rationale t domain r g score verdict p =
    let parts =
      reputation_parts t domain r
      ++ (when g.dga_like
            ("The subdomain has low vowel entropy, consistent with algorithmically generated names."
              ∷ [])
            []
          ++ when g.newly_observed ("This domain has not been seen on the network recently." ∷ [])
              []) in
    join " " parts
    <> " Risk score "
    <> score_text t score
    <> "/100. The policy decision for "
    <> t.quote domain
    <> " is "
    <> action_text verdict
    <> "."
    <> policy_note p

unfoldable pub normalize_domain : Text → String → String
normalize_domain t d =
    let bare =
      t.trim_prefix "www."
        (t.trim_prefix "https://" (t.trim_prefix "http://" (t.to_lower (t.trim_space d)))) in
    t.before ":" (t.before "/" bare)

-- The sum of the scores in the code's order.
unfoldable pub total_score : ℤ → ℤ → ℤ → ℤ → ℤ → ℤ
total_score rep dga age geo obs = rep +ℤ dga +ℤ age +ℤ geo +ℤ obs

-- The assessment of a normalized domain under a resolved policy.
unfoldable pub assessed : Outside → ℕ → String → String → Policy → Assessment
unfolding reputation dga_like estimate_domain_age estimate_geo_risk estimate_newly_observed
    clamp_score verdict_from_score confidence_from_score factors rationale total_score
assessed o now org domain p =
    let rep = reputation o org domain in
    let labels = o.text.split domain "." in
    let dga = dga_like o labels in
    let age = estimate_domain_age o domain labels in
    let geo = estimate_geo_risk o domain in
    let obs = estimate_newly_observed o now org domain in
    let score = clamp_score (total_score rep.score dga.1 age.1 geo.1 obs.1) in
    let signals : Signals = record {
      dga_like = dga.0;
      domain_age = age.0;
      geo_risk = geo.0;
      newly_observed = obs.0;
      reputation = rep.name;
    } in
    let verdict = downgrade p (verdict_from_score score) in
    record {
      domain = domain;
      score = score;
      verdict = verdict;
      confidence = confidence_from_score score;
      source = cache;
      signals = signals;
      top_factors = factors rep signals;
      rationale = rationale o.text domain rep signals score verdict p;
    }

unfoldable pub assess : Outside → ℕ → String → String → String → Result
unfolding normalize_domain assessed
assess o now org device raw =
    let domain = normalize_domain o.text raw in
    if domain == "" then err domain_required else elim (o.resolve org device) [
      | none ↦ err resolve_policy
      | some p ↦ ok (assessed o now org domain p)
    ]
