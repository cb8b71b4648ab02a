-- ===== src/Threatfeed/Tests.antt =====
-- The feeds of internal/threatfeed on two providers, one of which fails, and the theorem at that input.
use apexaegis_management_pla.Prelude.{
  ◌≡◌, ◌↔◌, refl, true, none, some, String, List, [], ◌∷◌, string_eq,
}
use apexaegis_management_pla.Prelude.Text.{Text}
use apexaegis_management_pla.Dict
use apexaegis_management_pla.Threatfeed.{
  ThreatEntry, Fetched, Orders, Store, new_store, merge_all, merge_entries, collect, refresh,
}
use apexaegis_management_pla.Threatfeed.Collected.{
  IsServed, IsFaithful, is_reported, collect-IsServed,
}

abbrev in_order : Orders
in_order = record { domains = λ l. l; categories = λ l. l; sort = λ l. l }

in_order-IsFaithful : IsFaithful in_order
in_order-IsFaithful = record {
  domains = λ l x. (λ i. i, λ i. i);
  categories = λ l x. (λ i. i, λ i. i);
  sort = λ l c. (λ i. i, λ i. i);
}

abbrev plain : Text
plain = record {
  to_lower = λ s. s;
  trim_space = λ s. s;
  trim_prefix = λ p s. s;
  trim_suffix = λ p s. s;
  before = λ sep s. s;
  split = λ s sep. s ∷ [];
  contains = λ p s. true;
  has_suffix = λ p s. true;
  len = λ s. 0;
  quote = λ s. s;
  decimal = λ n. "1";
}

abbrev entry : String → String → ThreatEntry
entry domain category = record { domain = domain; category = category; source = "feed" }

abbrev arrived : List Fetched
arrived =
    record { entries = []; failure = some "timeout" }
    ∷ record {
      entries = entry "x.example" "malicious" ∷ entry "x.example" "nrd" ∷ [];
      failure = none;
    }
    ∷ []

abbrev fed : Store
fed = (refresh in_order plain (λ d. "rev") arrived new_store).0

served_test : Dict.get "x.example" fed.domains ≡ some ("nrd" ∷ "malicious" ∷ [])
unfolding refresh collect merge_all merge_entries new_store Dict.get Dict.put Dict.items Dict.empty
served_test = refl

-- A refresh in which every provider fails.
outage_test :
    (refresh in_order plain
      (λ d. "other")
      (record { entries = []; failure = some "down" } ∷ [])
      fed).0
    ≡ fed
unfolding refresh collect merge_all merge_entries new_store Dict.get Dict.put Dict.items Dict.empty
outage_test = refl

collect-IsServed_example :
    IsServed "x.example" "nrd" (collect in_order plain arrived).0
    ↔ (is_reported "x.example" "nrd" arrived ≡ true)
collect-IsServed_example =
    collect-IsServed in_order plain arrived "x.example" "nrd" in_order-IsFaithful
