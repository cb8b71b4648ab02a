-- ===== src/Segment/Consistent.antt =====
-- The tag table and the table of tag values agree, and every operation on tags keeps them so.
use apexaegis_management_pla.Prelude.{
  ℕ, ◌≤◌, ◌≡◌, ◌≢◌, sym, ap, ◌∙◌, inl, inr, none, some, String, ◌==◌, string_eq, nat_eq, Bool-cases,
  some-eq, subst,
}
use text.Mathlib.TextEquality.{eq_iff}
use apexaegis_management_pla.Dict
use apexaegis_management_pla.Dict.{
  Dict, get-put_self, get-remove_self, get-put_cases, get-remove_cases, get-put_ne, get-remove_ne,
}
use apexaegis_management_pla.Segment.{SecurityGroupTag, Store, stored, moved, replaced, dropped}

-- Each tag stands under its own id, its value is in range and leads back to it, and each value in
-- use is the value of a tag.
pub record IsConsistent (s : Store) : Type 0 where
  pub own_id : (id : String) (t : SecurityGroupTag) → Dict.get id s.tags ≡ some t → t.id ≡ id
  pub in_range :
      (id : String) (t : SecurityGroupTag)
      → Dict.get id s.tags ≡ some t
      → (1 ≤ t.tag_value) × (t.tag_value ≤ 65533)
  pub value_of_tag :
      (id : String) (t : SecurityGroupTag)
      → Dict.get id s.tags ≡ some t
      → Dict.get t.tag_value s.tag_values ≡ some id
  pub tag_of_value :
      (v : ℕ) (id : String)
      → Dict.get v s.tag_values ≡ some id
      → (t : SecurityGroupTag) × (Dict.get id s.tags ≡ some t) × (t.tag_value ≡ v)

-- In a consistent store two tags never have the same value.
pub tag_value_unique :
    (s : Store) (id id' : String) (t t' : SecurityGroupTag)
    → IsConsistent s
    → Dict.get id s.tags ≡ some t
    → Dict.get id' s.tags ≡ some t'
    → t.tag_value ≡ t'.tag_value
    → id ≡ id'
tag_value_unique s id id' t t' c e e' h =
    some-eq
      (sym (c.value_of_tag id t e) ∙ ap (λ v. Dict.get v s.tag_values) h ∙ c.value_of_tag id' t' e')

module _ (s : Store) (c : IsConsistent s) where
  -- A value that some tag has is not free.
  value_in_use :
      (id : String) (t : SecurityGroupTag) (v : ℕ)
      → Dict.get v s.tag_values ≡ none
      → Dict.get id s.tags ≡ some t
      → t.tag_value ≢ v
  value_in_use id t v free e q =
      cc (c.value_of_tag id t e, ap (λ k. Dict.get k s.tag_values) q, free)

  module _ (now : ℕ) (tag : SecurityGroupTag)
      (fits : (1 ≤ tag.tag_value) × (tag.tag_value ≤ 65533)) where
    pub stored-IsConsistent :
        Dict.get tag.id s.tags ≡ none
        → Dict.get tag.tag_value s.tag_values ≡ none
        → IsConsistent (stored now s tag)
    stored-IsConsistent new free = record {
      own_id = λ id t e. elim (get-put_cases tag.id id _ t s.tags e) [
        | inl (k, q) ↦ cc
        | inr (n, old) ↦ c.own_id id t old
      ];
      in_range = λ id t e. elim (get-put_cases tag.id id _ t s.tags e) [
        | inl (k, q) ↦
            subst (λ (x : SecurityGroupTag). (1 ≤ x.tag_value) × (x.tag_value ≤ 65533)) q fits
        | inr (n, old) ↦ c.in_range id t old
      ];
      value_of_tag = λ id t e. elim (get-put_cases tag.id id _ t s.tags e) [
        | inl (k, q) ↦
            ap (λ (x : SecurityGroupTag). Dict.get x.tag_value (stored now s tag).tag_values)
              (sym q)
            ∙ get-put_self tag.tag_value tag.id s.tag_values
            ∙ ap some k
        | inr (n, old) ↦
            get-put_ne tag.tag_value t.tag_value tag.id s.tag_values
              (λ q. value_in_use id t tag.tag_value free old (sym q))
            ∙ c.value_of_tag id t old
      ];
      tag_of_value = λ v id e. elim (get-put_cases tag.tag_value v tag.id id s.tag_values e) [
        | inl (k, q) ↦ (
          record tag { created_at = now; updated_at = now },
          rw (← q) (get-put_self tag.id _ s.tags),
          k,
        )
        | inr (n, old) ↦
            let (t, found, same) = c.tag_of_value v id old in
            (t, get-put_ne tag.id id _ s.tags (λ q. cc) ∙ found, same)
      ];
    }

    -- The update of a tag that stands in the store as `existing`.
    module _ (existing : SecurityGroupTag) (found : Dict.get tag.id s.tags ≡ some existing) where
      pub replaced-IsConsistent :
          tag.tag_value ≡ existing.tag_value → IsConsistent (replaced now s tag)
      replaced-IsConsistent same = record {
        own_id = λ id t e. elim (get-put_cases tag.id id _ t s.tags e) [
          | inl (k, q) ↦ cc
          | inr (n, old) ↦ c.own_id id t old
        ];
        in_range = λ id t e. elim (get-put_cases tag.id id _ t s.tags e) [
          | inl (k, q) ↦
              subst (λ (x : SecurityGroupTag). (1 ≤ x.tag_value) × (x.tag_value ≤ 65533)) q fits
          | inr (n, old) ↦ c.in_range id t old
        ];
        value_of_tag = λ id t e. elim (get-put_cases tag.id id _ t s.tags e) [
          | inl (k, q) ↦
              ap (λ (x : SecurityGroupTag). Dict.get x.tag_value s.tag_values) (sym q)
              ∙ ap (λ v. Dict.get v s.tag_values) same
              ∙ c.value_of_tag tag.id existing found
              ∙ ap some k
          | inr (n, old) ↦ c.value_of_tag id t old
        ];
        tag_of_value = λ v id e.
            let (t, old, value) = c.tag_of_value v id e in
            elim (Bool-cases (tag.id == id)) [
              | inl hit ↦
                  let k : tag.id ≡ id = (eq_iff tag.id id).0 hit in
                  let q : t ≡ existing =
                    some-eq (sym old ∙ ap (λ i. Dict.get i s.tags) (sym k) ∙ found) in
                  (
                    record tag { updated_at = now },
                    rw (← k) (get-put_self tag.id _ s.tags),
                    same ∙ ap (λ (x : SecurityGroupTag). x.tag_value) (sym q) ∙ value,
                  )
              | inr miss ↦ (
                t,
                get-put_ne tag.id id _ s.tags (λ k. cc ((eq_iff tag.id id).1 k, miss)) ∙ old,
                value,
              )
            ];
      }

      pub moved-IsConsistent :
          Dict.get tag.tag_value s.tag_values ≡ none → IsConsistent (moved now s tag existing)
      moved-IsConsistent free = record {
        own_id = λ id t e. elim (get-put_cases tag.id id _ t s.tags e) [
          | inl (k, q) ↦ cc
          | inr (n, old) ↦ c.own_id id t old
        ];
        in_range = λ id t e. elim (get-put_cases tag.id id _ t s.tags e) [
          | inl (k, q) ↦
              subst (λ (x : SecurityGroupTag). (1 ≤ x.tag_value) × (x.tag_value ≤ 65533)) q fits
          | inr (n, old) ↦ c.in_range id t old
        ];
        value_of_tag = λ id t e. elim (get-put_cases tag.id id _ t s.tags e) [
          | inl (k, q) ↦
              ap
                (λ (x : SecurityGroupTag).
                  Dict.get x.tag_value (moved now s tag existing).tag_values)
                (sym q)
              ∙ get-put_self tag.tag_value tag.id _
              ∙ ap some k
          | inr (n, old) ↦
              get-put_ne tag.tag_value t.tag_value tag.id _
                (λ q. value_in_use id t tag.tag_value free old (sym q))
              ∙ get-remove_ne existing.tag_value t.tag_value s.tag_values
                  (λ q. n (tag_value_unique s tag.id id existing t c found old q))
              ∙ c.value_of_tag id t old
        ];
        tag_of_value = λ v id e. elim (get-put_cases tag.tag_value v tag.id id _ e) [
          | inl (k, q) ↦
              (record tag { updated_at = now }, rw (← q) (get-put_self tag.id _ s.tags), k)
          | inr (n, rest) ↦
              let (m, old) = get-remove_cases existing.tag_value v id s.tag_values rest in
              let (t, there, value) = c.tag_of_value v id old in
              (
                t,
                get-put_ne tag.id id _ s.tags (λ k. m (
                      ap (λ (x : SecurityGroupTag). x.tag_value)
                        (some-eq (sym found ∙ ap (λ i. Dict.get i s.tags) k ∙ there))
                      ∙ value))
                    ∙ there,
                value,
              )
        ];
      }

  pub dropped-IsConsistent :
      (id : String) (tag : SecurityGroupTag)
      → Dict.get id s.tags ≡ some tag
      → IsConsistent (dropped s id tag)
  dropped-IsConsistent id tag found = record {
    own_id = λ j t e. c.own_id j t (get-remove_cases id j t s.tags e).1;
    in_range = λ j t e. c.in_range j t (get-remove_cases id j t s.tags e).1;
    value_of_tag = λ j t e.
        let (n, old) = get-remove_cases id j t s.tags e in
        get-remove_ne tag.tag_value t.tag_value s.tag_values
          (λ q. n (tag_value_unique s id j tag t c found old q))
        ∙ c.value_of_tag j t old;
    tag_of_value = λ v j e.
        let (n, old) = get-remove_cases tag.tag_value v j s.tag_values e in
        let (t, there, value) = c.tag_of_value v j old in
        (
          t,
          get-remove_ne id j s.tags (λ k. n (
                ap (λ (x : SecurityGroupTag). x.tag_value)
                  (some-eq (sym found ∙ ap (λ i. Dict.get i s.tags) k ∙ there))
                ∙ value))
              ∙ there,
          value,
        );
  }
