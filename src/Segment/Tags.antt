-- ===== src/Segment/Tags.antt =====
-- What the operations on tags keep, and what a successful one has done.
use apexaegis_management_pla.Prelude.{
  ℕ, ◌≤◌, ◌≡◌, refl, sym, ap, ◌∙◌, ◌⊎◌, inl, inr, false, Option, none, some, String, arith, eqb,
  eqb_iff, string_eq, nat_eq, if_cases, option_cases, some-eq,
}
use text.Mathlib.TextEquality.{eq_iff}
use apexaegis_management_pla.Dict
use apexaegis_management_pla.Dict.{
  Dict, get-put_self, get-remove_self, get-put_cases, get-remove_cases, get-put_ne, get-remove_ne,
}
use apexaegis_management_pla.Segment.{
  SecurityGroupTag, SgtPolicy, Store, Result, ok, err, Error, Folding, Order, create_tag,
  update_tag, update_existing, move_tag, check_tag, check_move, delete_tag, stored, moved, replaced,
  dropped, out_of_range, other_owner, check_domains, is_some, find_reference, referenced_by,
  value_taken, not_found,
}
use apexaegis_management_pla.Segment.Consistent.{
  IsConsistent, stored-IsConsistent, replaced-IsConsistent, moved-IsConsistent,
  dropped-IsConsistent,
}

-- The store that an operation leaves, which is the old one where it fails.
abbrev pub after : Store → Result Store → Store
after s (ok t) = t
after s (err e) = s

range_of : (v : ℕ) → out_of_range v ≡ false → (1 ≤ v) × (v ≤ 65533)
range_of v h = ground arith

is_some-false : (o : Option SecurityGroupTag) → is_some o ≡ false → o ≡ none
is_some-false none h = refl
is_some-false (some t) h = cc

-- What the checks of CreateTag leave of a tag that passes them.
abbrev pub Admissible : Store → SecurityGroupTag → Type 0
Admissible s tag =
    (Dict.get tag.id s.tags ≡ none)
    × (Dict.get tag.tag_value s.tag_values ≡ none)
    × (1 ≤ tag.tag_value)
    × (tag.tag_value ≤ 65533)

pub check_tag-none :
    (f : Folding) (s : Store) (tag : SecurityGroupTag) → check_tag f s tag ≡ none → Admissible s tag
unfolding check_tag
check_tag-none f s tag =
    if_cases (λ r. r ≡ none → Admissible s tag) (is_some (Dict.get tag.id s.tags)) _ _ (λ _ h. cc)
      (λ new.
        if_cases (λ r. r ≡ none → Admissible s tag) (out_of_range tag.tag_value) _ _ (λ _ h. cc)
          (λ range.
            option_cases (λ r. r ≡ none → Admissible s tag) (Dict.get tag.tag_value s.tag_values)
              (check_domains f tag.domains) (λ existing. some (value_taken tag.tag_value existing))
              (λ free h.
                let (low, high) = range_of _ range in (is_some-false _ new, free, low, high))
              (λ x taken h. cc)))

other_owner-none :
    (s : Store) (id : String) (v : ℕ) (o : Option String)
    → other_owner id o ≡ none
    → (o ≡ none) ⊎ (o ≡ some id)
other_owner-none s id v none h = inl refl
other_owner-none s id v (some other) h = ground (arith, eq_iff other id)

check_move-none :
    (s : Store) (tag : SecurityGroupTag)
    → check_move s tag ≡ none
    → ((1 ≤ tag.tag_value) × (tag.tag_value ≤ 65533))
      × (other_owner tag.id (Dict.get tag.tag_value s.tag_values) ≡ none)
unfolding check_move
check_move-none s tag =
    let G = λ (r : Option Error).
      r ≡ none
      → ((1 ≤ tag.tag_value) × (tag.tag_value ≤ 65533))
        × (other_owner tag.id (Dict.get tag.tag_value s.tag_values) ≡ none) in
    if_cases G (out_of_range tag.tag_value) _ _ (λ _ h. cc)
      (λ range.
        option_cases G (other_owner tag.id (Dict.get tag.tag_value s.tag_values)) none
          (λ other. some (value_taken tag.tag_value other)) (λ free h. (range_of _ range, free))
          (λ x taken h. cc))

module _ (s : Store) (c : IsConsistent s) where
  -- CreateTag keeps the tables consistent, whether it succeeds or fails.
  pub create_tag-IsConsistent :
      (f : Folding) (now : ℕ) (tag : SecurityGroupTag)
      → IsConsistent (after s (create_tag f now s tag))
  unfolding create_tag
  create_tag-IsConsistent f now tag =
      option_cases (λ r. IsConsistent (after s r)) (check_tag f s tag) (ok (stored now s tag))
        (λ e. err e)
        (λ h.
          let (new, free, low, high) = check_tag-none f s tag h in
          stored-IsConsistent s c now tag (low, high) new free)
        (λ e h. c)

  move_tag-IsConsistent :
      (now : ℕ) (tag existing : SecurityGroupTag)
      → Dict.get tag.id s.tags ≡ some existing
      → eqb tag.tag_value existing.tag_value ≡ false
      → IsConsistent (after s (move_tag now s tag existing))
  unfolding move_tag
  move_tag-IsConsistent now tag existing found differs =
      option_cases (λ r. IsConsistent (after s r)) (check_move s tag)
        (ok (moved now s tag existing)) (λ e. err e)
        (λ h.
          let (range, free) = check_move-none s tag h in
          elim (other_owner-none s tag.id tag.tag_value _ free) [
            | inl none_there ↦ moved-IsConsistent s c now tag range existing found none_there
            | inr own ↦
                let (t, there, value) = c.tag_of_value tag.tag_value tag.id own in
                let same : t ≡ existing = some-eq (sym there ∙ found) in
                let e : tag.tag_value ≡ existing.tag_value =
                  sym value ∙ ap (λ (x : SecurityGroupTag). x.tag_value) same in
                ground (arith, e, differs)
          ])
        (λ e h. c)

  -- UpdateTag keeps the tables consistent, whether it succeeds or fails.
  pub update_tag-IsConsistent :
      (now : ℕ) (tag : SecurityGroupTag) → IsConsistent (after s (update_tag now s tag))
  unfolding update_tag update_existing
  update_tag-IsConsistent now tag =
      option_cases (λ r. IsConsistent (after s r)) (Dict.get tag.id s.tags) (err (not_found tag.id))
        (λ existing. update_existing now s tag existing) (λ h. c)
        (λ existing found.
          if_cases (λ r. IsConsistent (after s r)) (eqb tag.tag_value existing.tag_value)
            (ok (replaced now s tag)) (move_tag now s tag existing)
            (λ same.
              let e : tag.tag_value ≡ existing.tag_value =
                ground (arith, eqb_iff tag.tag_value existing.tag_value) in
              let (low, high) = c.in_range tag.id existing found in
              replaced-IsConsistent s c now tag (omega arith, omega arith) existing found e)
            (λ differs. move_tag-IsConsistent now tag existing found differs))

  -- DeleteTag keeps the tables consistent, whether it succeeds or fails.
  pub delete_tag-IsConsistent :
      (order : Order SgtPolicy) (id : String) → IsConsistent (after s (delete_tag order s id))
  unfolding delete_tag
  delete_tag-IsConsistent order id =
      option_cases (λ r. IsConsistent (after s r)) (Dict.get id s.tags) (err (not_found id)) _
        (λ h. c)
        (λ tag found.
          option_cases (λ r. IsConsistent (after s r))
            (find_reference id (order (Dict.items s.policies))) (ok (dropped s id tag))
            (λ pol. err (referenced_by id pol.name)) (λ h. dropped-IsConsistent s c id tag found)
            (λ pol h. c))
