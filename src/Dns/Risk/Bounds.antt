-- ===== src/Dns/Risk/Bounds.antt =====
-- The range of each score of internal/dnsrisk/engine.go.
use apexaegis_management_pla.Prelude.{
  ℕ, ◌+◌, Bool, true, false, String, List, [], ◌∷◌, ltb, leb, ◌||◌, ◌&&◌, if_cases, option_cases,
  arith, string_eq, if◌then◌else◌,
}
use apexaegis_management_pla.Prelude.Int.{ℤ, pos, negsuc, ◌+ℤ◌, ◌≤ℤ◌, +ℤ_parts}
use apexaegis_management_pla.Dns.Risk.{
  Outside, Scored, dga_like, estimate_domain_age, estimate_geo_risk, estimate_newly_observed,
  clamp_score, week, is_dictionary_word,
}

pub clamp_score_bounds : (s : ℤ) → (pos 0 ≤ℤ clamp_score s) × (clamp_score s ≤ℤ pos 100)
unfolding clamp_score
clamp_score_bounds (pos n) = ground arith
clamp_score_bounds (negsuc n) = ground arith

pub dga_like_bound : (o : Outside) (labels : List String) → (dga_like o labels).1 ≤ℤ pos 25
unfolding dga_like
dga_like_bound o [] = omega arith
dga_like_bound o (l ∷ []) = omega arith
dga_like_bound o (l ∷ m ∷ rest) = ground arith

abbrev aged : String → ℤ → Scored String
aged name score = (name, score)

-- The three tests of `age_label`.
age_bound :
    (known short long : Bool)
    → (if known
        then aged "established" (negsuc 4)
        else if short
        then aged "established" (negsuc 4)
        else if long
        then aged "new" (pos 10)
        else aged "established" (pos 0)).1
      ≤ℤ pos 10
age_bound true short long = omega arith
age_bound false true long = omega arith
age_bound false false true = omega arith
age_bound false false false = omega arith

pub domain_age_bound :
    (o : Outside) (domain : String) (labels : List String)
    → (estimate_domain_age o domain labels).1 ≤ℤ pos 10
unfolding estimate_domain_age
domain_age_bound o domain [] = omega arith
domain_age_bound o domain (l ∷ []) = omega arith
domain_age_bound o domain (l ∷ m ∷ rest) =
    age_bound
      (o.text.contains "opendns" (o.text.to_lower domain)
        || o.text.contains "cisco" (o.text.to_lower domain))
      (leb (o.text.len l) 6 && is_dictionary_word o l) (ltb 15 (o.text.len l))

pub geo_risk_bound : (o : Outside) (domain : String) → (estimate_geo_risk o domain).1 ≤ℤ pos 15
unfolding estimate_geo_risk
geo_risk_bound o domain = ground arith

pub newly_observed_bound :
    (o : Outside) (now : ℕ) (org domain : String)
    → (estimate_newly_observed o now org domain).1 ≤ℤ pos 10
unfolding estimate_newly_observed
newly_observed_bound o now org domain =
    let P = λ (x : Scored Bool). x.1 ≤ℤ pos 10 in
    option_cases P o.dns_log_store _ _ (λ _. omega arith)
      (λ log _.
        option_cases P (log org domain) _ _ (λ _. omega arith)
          (λ created _.
            if_cases P (ltb (created + week) now) _ _ (λ _. omega arith) (λ _. omega arith)))

pub +ℤ-mono : (a b : ℤ) (m n : ℕ) → a ≤ℤ pos m → b ≤ℤ pos n → (a +ℤ b) ≤ℤ pos (m + n)
+ℤ-mono a b m n h k = omega (arith, +ℤ_parts a b)
