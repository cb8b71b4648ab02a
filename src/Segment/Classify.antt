-- ===== src/Segment/Classify.antt =====
-- ClassifyByContext of internal/segment/store.go: the tag with the highest score for a context. The
-- score is an `int`, taken here without its width.
use apexaegis_management_pla.Prelude.{
  ◌≡◌, refl, ap, ◌⊎◌, inl, inr, Bool, true, ◌||◌, Option, none, some, String, List, [], ◌∷◌, arith,
  if◌then◌else◌, ◌==◌, string_eq, if_cases, In,
}
use apexaegis_management_pla.Prelude.Int.{
  ℤ, pos, ◌+ℤ◌, ◌≤ℤ◌, ◌<ℤ◌, ltbℤ, leℤ_trans, ltbℤ→lt, ltbℤ→le,
}
use apexaegis_management_pla.Dict
use apexaegis_management_pla.Dict.{Dict, In-items}
use apexaegis_management_pla.Segment.{
  SecurityGroupTag, DomainContext, Store, Folding, Order, Visits,
}

-- The contexts that a caller provides: attributes under the name of their domain.
abbrev pub Contexts : Type 0
Contexts = Dict String (List String)

-- The loop over the provided attributes, for one attribute of the tag.
unfoldable pub add_provided : Folding → ℤ → String → List String → ℤ → ℤ
add_provided f weight attr [] score = score
add_provided f weight attr (p ∷ ps) score =
    add_provided f weight attr ps (if f.equal_fold attr p then score +ℤ weight else score)

unfoldable pub add_attributes : Folding → ℤ → List String → List String → ℤ → ℤ
unfolding add_provided
add_attributes f weight [] provided score = score
add_attributes f weight (attr ∷ rest) provided score =
    add_attributes f weight rest provided (add_provided f weight attr provided score)

unfoldable pub add_domain : Folding → Contexts → DomainContext → ℤ → ℤ
unfolding add_attributes
add_domain f contexts d score = elim (Dict.get d.domain contexts) [
  | none ↦ score
  | some provided ↦ add_attributes f d.weight d.attributes provided score
]

unfoldable pub add_domains : Folding → Contexts → List DomainContext → ℤ → ℤ
unfolding add_domain
add_domains f contexts [] score = score
add_domains f contexts (d ∷ rest) score =
    add_domains f contexts rest (add_domain f contexts d score)

unfoldable pub score_of : Folding → Contexts → SecurityGroupTag → ℤ
unfolding add_domains
score_of f contexts tag = add_domains f contexts tag.domains (pos 0)

unfoldable pub eligible : String → SecurityGroupTag → Bool
eligible org tag = tag.org_id == org || tag.org_id == "template"

-- The best tag so far and its score.
abbrev pub Best : Type 0
Best = Option SecurityGroupTag × ℤ

unfoldable pub better : Folding → Contexts → SecurityGroupTag → Best → Best
better f contexts tag best =
    if ltbℤ best.1 (score_of f contexts tag) then (some tag, score_of f contexts tag) else best

unfoldable pub consider : Folding → String → Contexts → SecurityGroupTag → Best → Best
unfolding better
consider f org contexts tag best = if eligible org tag then better f contexts tag best else best

unfoldable pub best_of :
    Folding → String → Contexts → List (String × SecurityGroupTag) → Best → Best
unfolding consider
best_of f org contexts [] best = best
best_of f org contexts ((id, tag) ∷ rest) best =
    best_of f org contexts rest (consider f org contexts tag best)

unfoldable pub classify : Folding → Order SecurityGroupTag → Store → String → Contexts → Best
unfolding best_of
classify f order s org contexts = best_of f org contexts (order (Dict.items s.tags)) (none, pos 0)

-- What the loop's result is: an eligible tag of the list with a positive score that is its own, or
-- no tag with score 0.
abbrev pub Attained : Folding → String → Contexts → List (String × SecurityGroupTag) → Best → Type 0
Attained f org contexts l best =
    (best ≡ (none, pos 0))
    ⊎ ((id : String) × (tag : SecurityGroupTag) × In (id, tag) l
        × (eligible org tag ≡ true)
        × (best ≡ (some tag, score_of f contexts tag))
        × (pos 0 <ℤ score_of f contexts tag))

module _ (f : Folding) (org : String) (contexts : Contexts) where
  consider-grows :
      (tag : SecurityGroupTag) (best : Best) → best.1 ≤ℤ (consider f org contexts tag best).1
  unfolding consider better
  consider-grows tag best =
      if_cases (λ (r : Best). best.1 ≤ℤ r.1) (eligible org tag) _ _
        (λ _.
          if_cases (λ (r : Best). best.1 ≤ℤ r.1) (ltbℤ best.1 (score_of f contexts tag)) _ _
            (λ h.
              let lt : best.1 <ℤ score_of f contexts tag =
                ltbℤ→lt best.1 (score_of f contexts tag) h in
              omega arith)
            (λ _. omega arith))
        (λ _. omega arith)

  consider-reaches :
      (tag : SecurityGroupTag) (best : Best)
      → eligible org tag ≡ true
      → score_of f contexts tag ≤ℤ (consider f org contexts tag best).1
  unfolding consider better
  consider-reaches tag best e = rw e (
      if_cases (λ (r : Best). score_of f contexts tag ≤ℤ r.1)
        (ltbℤ best.1 (score_of f contexts tag)) _ _ (λ _. omega arith)
        (λ h. ltbℤ→le best.1 (score_of f contexts tag) h))

  best_of-grows :
      (l : List (String × SecurityGroupTag)) (best : Best)
      → best.1 ≤ℤ (best_of f org contexts l best).1
  unfolding best_of
  best_of-grows [] best = omega arith
  best_of-grows ((id, tag) ∷ rest) best =
      leℤ_trans best.1 (consider f org contexts tag best).1
        (best_of f org contexts rest (consider f org contexts tag best)).1 (consider-grows tag best)
        (best_of-grows rest (consider f org contexts tag best))

  best_of-maximal :
      (l : List (String × SecurityGroupTag)) (best : Best) (id : String) (tag : SecurityGroupTag)
      → In (id, tag) l
      → eligible org tag ≡ true
      → score_of f contexts tag ≤ℤ (best_of f org contexts l best).1
  unfolding best_of
  best_of-maximal [] best id tag i e = elim i [ ]
  best_of-maximal ((id', tag') ∷ rest) best id tag (inl q) e =
      let same : tag ≡ tag' = ap (λ (x : String × SecurityGroupTag). x.1) q in
      leℤ_trans (score_of f contexts tag) (consider f org contexts tag' best).1
        (best_of f org contexts rest (consider f org contexts tag' best)).1
        (rw (← same) (consider-reaches tag best e))
        (best_of-grows rest (consider f org contexts tag' best))
  best_of-maximal ((id', tag') ∷ rest) best id tag (inr i) e =
      best_of-maximal rest (consider f org contexts tag' best) id tag i e

  consider-Attained :
      (all : List (String × SecurityGroupTag)) (id : String) (tag : SecurityGroupTag) (best : Best)
      → In (id, tag) all
      → Attained f org contexts all best
      → pos 0 ≤ℤ best.1
      → Attained f org contexts all (consider f org contexts tag best)
  unfolding consider better
  consider-Attained all id tag best i a low =
      if_cases (Attained f org contexts all) (eligible org tag) _ _
        (λ e.
          if_cases (Attained f org contexts all) (ltbℤ best.1 (score_of f contexts tag)) _ _
            (λ h.
              let lt : best.1 <ℤ score_of f contexts tag =
                ltbℤ→lt best.1 (score_of f contexts tag) h in
              inr (id, tag, i, e, refl, omega arith))
            (λ _. a))
        (λ _. a)

  -- The loop on a rest of the list `all`, from a best tag that is one of `all`.
  best_of-Attained :
      (all l : List (String × SecurityGroupTag)) (best : Best)
      → ((x : String × SecurityGroupTag) → In x l → In x all)
      → Attained f org contexts all best
      → pos 0 ≤ℤ best.1
      → Attained f org contexts all (best_of f org contexts l best)
  unfolding best_of
  best_of-Attained all [] best part a low = a
  best_of-Attained all ((id, tag) ∷ rest) best part a low =
      best_of-Attained all rest (consider f org contexts tag best) (λ x i. part x (inr i))
        (consider-Attained all id tag best (part (id, tag) (inl refl)) a low)
        (leℤ_trans (pos 0) best.1 (consider f org contexts tag best).1 low
          (consider-grows tag best))

module _ (f : Folding) (order : Order SecurityGroupTag) (visits : Visits order) (s : Store)
    (org : String) (contexts : Contexts) where
  -- The score that ClassifyByContext returns is at least that of every stored tag of the
  -- organization or of the templates.
  pub classify-maximal :
      (id : String) (tag : SecurityGroupTag)
      → Dict.get id s.tags ≡ some tag
      → eligible org tag ≡ true
      → score_of f contexts tag ≤ℤ (classify f order s org contexts).1
  unfolding classify
  classify-maximal id tag there e =
      best_of-maximal f org contexts (order (Dict.items s.tags)) (none, pos 0) id tag
        ((visits (Dict.items s.tags) (id, tag)).1 ((In-items id tag s.tags).1 there)) e

  -- ClassifyByContext returns no tag and the score 0, or a stored tag of the organization or of the
  -- templates with its own score, which is positive.
  pub classify-attained :
      (classify f order s org contexts ≡ (none, pos 0))
      ⊎ ((id : String) × (tag : SecurityGroupTag) × (Dict.get id s.tags ≡ some tag)
          × (eligible org tag ≡ true)
          × (classify f order s org contexts ≡ (some tag, score_of f contexts tag))
          × (pos 0 <ℤ score_of f contexts tag))
  unfolding classify
  classify-attained =
      elim (best_of-Attained f org contexts (order (Dict.items s.tags)) (order (Dict.items s.tags))
        (none, pos 0) (λ x i. i) (inl refl) (omega arith)) [
          | inl e ↦ inl e
          | inr (id, tag, i, e, q, h) ↦ inr (
            id,
            tag,
            (In-items id tag s.tags).0 ((visits (Dict.items s.tags) (id, tag)).0 i),
            e,
            q,
            h,
          )
        ]
