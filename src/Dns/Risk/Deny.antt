-- ===== src/Dns/Risk/Deny.antt =====
-- When the risk assessment of internal/dnsrisk/engine.go denies a domain.
use apexaegis_management_pla.Prelude.{
  ℕ, suc, ◌≡◌, ◌⊎◌, inl, inr, refl, sym, subst, Bool, true, false, not, Option, some, String, List,
  [], ◌∷◌, drop, if_cases, option_cases, Option-cases, Bool-cases, arith, ◌==◌, string_eq,
}
use apexaegis_management_pla.Prelude.Int.{ℤ, pos, negsuc, ◌≤ℤ◌, ltbℤ, ltbℤ→le}
use apexaegis_management_pla.Prelude.Text.{join}
use apexaegis_management_pla.Dns.Security.{Policy}
use apexaegis_management_pla.Dns.Risk.{
  Outside, Error, Verdict, allow, monitor, deny, Assessment, Result, ok, err, Threat,
  search_suffixes, reputation, verdict_from_score, downgrade, lebℤ, clamp_score, total_score,
  assessed, assess, dga_like, estimate_domain_age, estimate_geo_risk, estimate_newly_observed,
  normalize_domain, domain_required, resolve_policy,
}
use apexaegis_management_pla.Dns.Risk.Bounds.{
  dga_like_bound, domain_age_bound, geo_risk_bound, newly_observed_bound, +ℤ-mono,
}

-- The threat store knows the domain or a suffix of it.
pub record IsThreat (o : Outside) (org domain : String) : Type 0 where
  pub query : String → String → Option Threat
  pub attached : o.threat_store ≡ some query
  pub cut : ℕ
  pub threat : Threat
  pub known : query org (join "." (drop cut (o.text.split domain "."))) ≡ some threat

search_suffixes_cases :
    (query : String → Option Threat) (labels : List String)
    → ((search_suffixes query labels).score ≡ pos 0)
      ⊎ ((cut : ℕ) × (t : Threat) × (query (join "." (drop cut labels)) ≡ some t))
unfolding search_suffixes
search_suffixes_cases query [] = inl refl
search_suffixes_cases query (part ∷ rest) = elim (Option-cases (query (join "." (part ∷ rest)))) [
  | inl miss ↦ elim (search_suffixes_cases query rest) [
    | inl e ↦ inl (rw (search_suffixes, miss) e)
    | inr (cut, t, e) ↦ inr (suc cut, t, e)
  ]
  | inr (t, e) ↦ inr (0, t, e)
]

reputation_cases :
    (o : Outside) (org domain : String)
    → ((reputation o org domain).score ≡ pos 0) ⊎ IsThreat o org domain
unfolding reputation
reputation_cases o org domain = elim (Option-cases o.threat_store) [
  | inl nil ↦ inl (rw nil refl)
  | inr (query, e) ↦ elim (search_suffixes_cases (query org) (o.text.split domain ".")) [
    | inl zero_score ↦ inl (rw e zero_score)
    | inr (cut, t, known) ↦
        inr (record { query = query; attached = e; cut = cut; threat = t; known = known })
  ]
]

verdict-deny : (s : ℤ) → verdict_from_score s ≡ deny → pos 70 ≤ℤ s
unfolding verdict_from_score
verdict-deny s =
    if_cases (λ v. v ≡ deny → pos 70 ≤ℤ s) (lebℤ (pos 70) s) _ _
      (λ h _. ltbℤ→le s (pos 70) (not-true (ltbℤ s (pos 70)) h))
      (λ _.
        if_cases (λ v. v ≡ deny → pos 70 ≤ℤ s) (lebℤ (pos 40) s) _ _ (λ _ e. absurd (cc e))
          (λ _ e. absurd (cc e)))
  where
    not-true : (b : Bool) → not b ≡ true → b ≡ false
    not-true true h = sym h
    not-true false h = refl

downgrade-deny : (p : Policy) (v : Verdict) → downgrade p v ≡ deny → (v ≡ deny) × (p.enabled ≡ true)
downgrade-deny p deny e = elim (Bool-cases p.enabled) [
  | inl on ↦ (refl, on)
  | inr off ↦ absurd (cc (rw off at e))
]
downgrade-deny p monitor e = absurd (cc e)
downgrade-deny p allow e = absurd (cc e)

clamp-reached : (s : ℤ) → pos 70 ≤ℤ clamp_score s → pos 70 ≤ℤ s
unfolding clamp_score
clamp-reached (pos n) h = ground arith
clamp-reached (negsuc n) h = ground arith

-- Without a reputation the other signals score 60 at most.
total_score_bound :
    (o : Outside) (now : ℕ) (org domain : String) (labels : List String)
    → total_score
        (pos 0)
        (dga_like o labels).1
        (estimate_domain_age o domain labels).1
        (estimate_geo_risk o domain).1
        (estimate_newly_observed o now org domain).1
      ≤ℤ pos 60
unfolding total_score
total_score_bound o now org domain labels =
    let z : pos 0 ≤ℤ pos 0 = omega arith in
    +ℤ-mono _ _ 50 10
      (+ℤ-mono _ _ 35 15
        (+ℤ-mono _ _ 25 10 (+ℤ-mono (pos 0) (dga_like o labels).1 0 25 z (dga_like_bound o labels))
          (domain_age_bound o domain labels))
        (geo_risk_bound o domain))
      (newly_observed_bound o now org domain)

-- Why a domain is denied.
pub record IsDenied (o : Outside) (org device : String) (a : Assessment) : Type 0 where
  pub policy : Policy
  pub resolved : o.resolve org device ≡ some policy
  pub enabled : policy.enabled ≡ true
  pub risky : pos 70 ≤ℤ a.score
  pub threat : IsThreat o org a.domain

ok_inj : {a b : Assessment} → ok a ≡ ok b → a ≡ b
ok_inj h = cc h

not-err : {e : Error} {a : Assessment} → ¬ (err e ≡ ok a)
not-err h = cc h

assessed-IsDenied :
    (o : Outside) (now : ℕ) (org device domain : String) (p : Policy)
    → o.resolve org device ≡ some p
    → (assessed o now org domain p).verdict ≡ deny
    → IsDenied o org device (assessed o now org domain p)
unfolding assessed
assessed-IsDenied o now org device domain p found d =
    let labels = o.text.split domain "." in
    let score = λ (r : ℤ). clamp_score (
      total_score r (dga_like o labels).1 (estimate_domain_age o domain labels).1
        (estimate_geo_risk o domain).1 (estimate_newly_observed o now org domain).1) in
    let (risky_verdict, on) = downgrade-deny p _ d in
    let risky : pos 70 ≤ℤ score (reputation o org domain).score = verdict-deny _ risky_verdict in
    record {
      policy = p;
      resolved = found;
      enabled = on;
      risky = risky;
      threat = elim (reputation_cases o org domain) [
        | inr known ↦ known
        | inl none_known ↦
            let reached =
              clamp-reached
                (total_score (pos 0) (dga_like o labels).1 (estimate_domain_age o domain labels).1
                  (estimate_geo_risk o domain).1 (estimate_newly_observed o now org domain).1)
                (subst (λ r. pos 70 ≤ℤ score r) none_known risky) in
            let low = total_score_bound o now org domain labels in
            absurd (omega (arith, reached, low))
      ];
    }

-- `assess` denies a domain only if the policy of the device is enabled, the score is 70 at least and
-- the threat store knows the domain or a suffix of it: the other signals together do not suffice.
pub assess-IsDenied :
    (o : Outside) (now : ℕ) (org device raw : String) (a : Assessment)
    → assess o now org device raw ≡ ok a
    → a.verdict ≡ deny
    → IsDenied o org device a
unfolding assess
assess-IsDenied o now org device raw a =
    let domain = normalize_domain o.text raw in
    let P = λ (r : Result). r ≡ ok a → a.verdict ≡ deny → IsDenied o org device a in
    if_cases P (domain == "") (err domain_required) _ (λ _ h. absurd (not-err h))
      (λ _.
        option_cases P (o.resolve org device) (err resolve_policy)
          (λ p. ok (assessed o now org domain p)) (λ _ h. absurd (not-err h))
          (λ p found h d.
            subst (λ b. b.verdict ≡ deny → IsDenied o org device b) (ok_inj h)
              (assessed-IsDenied o now org device domain p found) d))
