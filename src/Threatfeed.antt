-- ===== src/Threatfeed.antt =====
-- Threat feeds: internal/threatfeed/feed.go and store.go. What the providers fetch is an argument, in
-- the order in which their results arrive at the channel; sort.Strings, SHA-256 and the text functions
-- are parameters.
pub mod Collected
pub mod Tests
use apexaegis_management_pla.Prelude.{
  ℕ, Bool, true, false, not, ◌&&◌, ◌||◌, Option, none, some, String, List, [], ◌∷◌, ◌++◌, map,
  if◌then◌else◌, ◌==◌, ◌<>◌, string_eq, length, ltb,
}
use apexaegis_management_pla.Prelude.Text.{Text, join}
use apexaegis_management_pla.Dict
use apexaegis_management_pla.Dict.{Dict}
use apexaegis_management_pla.Dict.Each.{each}

pub record ThreatEntry : Type 0 where
  pub domain : String
  pub category : String
  pub source : String

-- strings.HasPrefix with the prefix first, ContainsAny with the characters first, the line in front of
-- the first `#` or `!` (none without one), Fields, net.ParseIP, and SplitN at the first `=`.
pub record Words : Type 0 where
  pub text : Text
  pub has_prefix : String → String → Bool
  pub contains_any : String → String → Bool
  pub before_comment : String → Option String
  pub fields : String → List String
  pub is_ip : String → Bool
  pub split_equals : String → Option (String × String)

unfoldable pub normalize_domain : Words → String → String
normalize_domain w raw =
    let d =
      w.text.trim_prefix "*." (w.text.trim_suffix "." (w.text.to_lower (w.text.trim_space raw))) in
    if d == "" || w.contains_any " /:" d || not (w.text.contains "." d)
    then ""
    else if w.is_ip d
    then ""
    else d

abbrev pub strip_comment : Words → String → String
strip_comment w line = elim (w.before_comment line) [ none ↦ line | some s ↦ w.text.trim_space s ]

abbrev pub strip_adblock : Words → String → String
strip_adblock w line =
    if w.has_prefix "||" line
    then w.text.trim_suffix "^" (w.text.trim_space (w.text.trim_prefix "||" line))
    else line

abbrev pub pick_field : Words → List String → String
pick_field w [] = ""
pick_field w (f ∷ []) = normalize_domain w f
pick_field w (f ∷ g ∷ rest) = normalize_domain w g

unfoldable pub extract_domain : Words → String → String
extract_domain w line =
    if line == "" || w.has_prefix "#" line || w.has_prefix "!" line
    then ""
    else pick_field w (w.fields (strip_adblock w (strip_comment w line)))

-- An element of a Go set.
pub data Present : Type 0 where
  present : Present

abbrev pub is_seen : Option Present → Bool
is_seen none = false
is_seen (some p) = true

-- The loop over the lines of the scanner.
unfoldable pub scan_lines : Words → List String → Dict String Present → List String
unfolding extract_domain
scan_lines w [] seen = []
scan_lines w (line ∷ rest) seen =
    let d = extract_domain w (w.text.trim_space line) in
    let skipped = scan_lines w rest seen in
    let taken = d ∷ scan_lines w rest (Dict.put d present seen) in
    if d == "" || is_seen (Dict.get d seen) then skipped else taken

-- `failed` is the scanner's error.
unfoldable pub parse_domain_list : Words → List String → Option String → Option (List String)
unfolding scan_lines
parse_domain_list w lines none = some (scan_lines w lines Dict.empty)
parse_domain_list w lines (some failed) = none

unfoldable pub tag : String → String → List String → List ThreatEntry
tag name category [] = []
tag name category (d ∷ rest) =
    record { domain = d; category = category; source = name } ∷ tag name category rest

-- What a provider sends: its entries and its error.
pub record Fetched : Type 0 where
  pub entries : List ThreatEntry
  pub failure : Option String

abbrev pub Merged : Type 0
Merged = Dict String (Dict String Present)

abbrev pub or_new : Option (Dict String Present) → Dict String Present
or_new none = Dict.empty
or_new (some cats) = cats

abbrev pub is_blank : ThreatEntry → Bool
is_blank e = e.domain == "" || e.category == ""

abbrev pub merge_entry : ThreatEntry → Merged → Merged
merge_entry e m =
    if is_blank e
    then m
    else Dict.put e.domain (Dict.put e.category present (or_new (Dict.get e.domain m))) m

unfoldable pub merge_entries : List ThreatEntry → Merged → Merged
merge_entries [] m = m
merge_entries (e ∷ rest) m = merge_entries rest (merge_entry e m)

unfoldable pub merge_all : List Fetched → Merged → Merged
unfolding merge_entries
merge_all [] m = m
merge_all (r ∷ rest) m = merge_all rest (merge_entries r.entries m)

abbrev pub failures : List Fetched → List String
failures [] = []
failures (r ∷ rest) = let l = failures rest in elim r.failure [ none ↦ l | some f ↦ f ∷ l ]

-- The orders of the loops over the two kinds of maps, and sort.Strings.
pub record Orders : Type 0 where
  pub domains : List (String × Dict String Present) → List (String × Dict String Present)
  pub categories : List (String × Present) → List (String × Present)
  pub sort : List String → List String

abbrev pub keys_of : List (String × Present) → List String
keys_of [] = []
keys_of ((k, p) ∷ rest) = k ∷ keys_of rest

abbrev pub listed : Orders → Dict String Present → List String
listed o cats = o.sort (keys_of (o.categories (Dict.items cats)))

abbrev pub publish :
    Orders → String × Dict String Present → Dict String (List String) → Dict String (List String)
publish o (domain, cats) out = Dict.put domain (listed o cats) out

abbrev pub error_text : Text → List String → Option String
error_text t [] = none
error_text t (f ∷ rest) = some (
    "threatfeed: "
    <> t.decimal (length (f ∷ rest))
    <> " provider error(s): "
    <> join "; " (f ∷ rest))

unfoldable pub collect : Orders → Text → List Fetched → Dict String (List String) × Option String
unfolding merge_all
collect o t arrived =
    let merged = merge_all arrived Dict.empty in
    (each (publish o) (o.domains (Dict.items merged)) Dict.empty, error_text t (failures arrived))

pub record Store : Type 0 where
  pub domains : Dict String (List String)
  pub revision : String

unfoldable pub new_store : Store
new_store = record { domains = Dict.empty; revision = "" }

abbrev pub is_failure : Option String → Bool
is_failure none = false
is_failure (some f) = true

abbrev pub is_empty : Dict String (List String) → Bool
is_empty d = not (ltb 0 (length (Dict.items d)))

-- `digest` is computeRevision.
abbrev pub replaced :
    (Dict String (List String) → String) → Dict String (List String) → Option String → Store → Store
replaced digest domains failure s =
    if is_empty domains && is_failure failure
    then s
    else record { domains = domains; revision = digest domains }

unfoldable pub refresh :
    Orders
    → Text
    → (Dict String (List String) → String)
    → List Fetched
    → Store
    → Store × Option String
unfolding collect
refresh o t digest arrived s =
    let (domains, failure) = collect o t arrived in (replaced digest domains failure s, failure)

pub record DomainListProvider : Type 0 where
  pub provider_name : String
  pub cat : String
  pub url : String

abbrev pub feed_spec :
    Words → Option (String × String) → List DomainListProvider → List DomainListProvider
feed_spec w none more = more
feed_spec w (some (k, v)) more =
    let cat = w.text.trim_space k in
    let url = w.text.trim_space v in
    if cat == "" || url == ""
    then more
    else record { provider_name = cat <> "-feed"; cat = cat; url = url } ∷ more

-- The loop over the parts between commas.
unfoldable pub feed_specs : Words → List String → List DomainListProvider
feed_specs w [] = []
feed_specs w (raw ∷ rest) =
    let more = feed_specs w rest in
    let part = w.text.trim_space raw in
    if part == "" then more else feed_spec w (w.split_equals part) more

unfoldable pub parse_feed_specs : Words → String → List DomainListProvider
unfolding feed_specs
parse_feed_specs w spec = feed_specs w (w.text.split spec ",")
