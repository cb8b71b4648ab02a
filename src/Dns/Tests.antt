-- ===== src/Dns/Tests.antt =====
-- The DNS risk assessment on a concrete domain, and the theorems at those inputs.
use apexaegis_management_pla.Prelude.{◌≡◌, refl, true, false, none, some, [], ◌∷◌, ◌==◌, string_eq}
use apexaegis_management_pla.Prelude.Int.{pos, ◌+ℤ◌}
use apexaegis_management_pla.Prelude.Text.{Text}
use apexaegis_management_pla.Dict
use apexaegis_management_pla.Dns.Security.{Policy, from_flags, denies, denies-from_flags}
use apexaegis_management_pla.Dns.Risk.{Outside, Threat, Assessment, assess, assessed}
use apexaegis_management_pla.Dns.Risk.Deny.{IsDenied, assess-IsDenied}

-- Text functions that read the domain "evil.example" right.
abbrev plain : Text
plain = record {
  to_lower = λ s. s;
  trim_space = λ s. s;
  trim_prefix = λ prefix s. s;
  trim_suffix = λ suffix s. s;
  before = λ sep s. s;
  split = λ s sep. "evil" ∷ "example" ∷ [];
  contains = λ part s. false;
  has_suffix = λ part s. false;
  len = λ s. 4;
  quote = λ s. s;
  decimal = λ n. "70";
}

abbrev listed : Threat
listed = record { level = "critical"; category = "botnet" }

abbrev switched_on : Policy
switched_on = from_flags true Dict.empty

-- Nothing logged, and a top-level domain that the code rates as a high risk.
abbrev around : Outside
around = record {
  text = record plain { has_suffix = λ part s. part == ".ml" };
  vowels = λ s. 2;
  threat_store = some (λ org domain. some listed);
  dns_log_store = some (λ org domain. none);
  resolve = λ org device. some switched_on;
}

abbrev evil : Assessment
evil = assessed around 0 "org" "evil.example" switched_on

evil_score : evil.score ≡ pos 80
unfolding assessed from_flags ◌+ℤ◌
evil_score = refl

assess-IsDenied_example : IsDenied around "org" "device" evil
unfolding assess assessed from_flags ◌+ℤ◌
assess-IsDenied_example = assess-IsDenied around 0 "org" "device" "evil.example" evil refl refl

denies-from_flags_example :
    denies (from_flags true (Dict.put "dga" "allow" Dict.empty)) "dga" ≡ false
unfolding Dict.get Dict.put Dict.empty
denies-from_flags_example = denies-from_flags true (Dict.put "dga" "allow" Dict.empty) "dga"
