-- ===== src/Threatfeed/Collected.antt =====
-- What Collect of internal/threatfeed/feed.go serves, and what Refresh of store.go keeps.
use apexaegis_management_pla.Prelude.{
  ◌≡◌, ◌↔◌, refl, sym, ap, ◌∙◌, subst, inl, inr, Bool, true, false, not, ◌&&◌, ◌||◌, Option, none,
  some, String, List, [], ◌∷◌, ◌==◌, string_eq, In, Bool-cases, Option-cases, some-eq,
}
use apexaegis_management_pla.Prelude.Text.{Text}
use apexaegis_management_pla.Dict
use apexaegis_management_pla.Dict.{Dict, get-put, get-empty, get-put_self, get-put_ne, In-items}
use apexaegis_management_pla.Dict.Each.{each, at_key, get-each}
use apexaegis_management_pla.Threatfeed.{
  ThreatEntry, Present, present, is_seen, Fetched, Merged, or_new, is_blank, merge_entry,
  merge_entries, merge_all, Orders, keys_of, listed, publish, collect,
}

-- An entry that names a domain and a category, these.
abbrev pub covers : String → String → ThreatEntry → Bool
covers d c e = not (is_blank e) && (e.domain == d && e.category == c)

abbrev pub any_entry : String → String → List ThreatEntry → Bool
any_entry d c [] = false
any_entry d c (e ∷ rest) = covers d c e || any_entry d c rest

-- Some provider has sent such an entry.
abbrev pub is_reported : String → String → List Fetched → Bool
is_reported d c [] = false
is_reported d c (r ∷ rest) = any_entry d c r.entries || is_reported d c rest

abbrev has : String → String → Merged → Bool
has d c m = is_seen (Dict.get c (or_new (Dict.get d m)))

has-put :
    (d c dom cat : String) (m : Merged)
    → has d c (Dict.put dom (Dict.put cat present (or_new (Dict.get dom m))) m)
      ≡ ((dom == d && cat == c) || has d c m)
has-put d c dom cat m = elim (Bool-cases (dom == d)) [
  | inl same ↦
      let q : dom ≡ d = (string_eq.beq_iff dom d).0 same in
      rw
        (
          get-put dom d (Dict.put cat present (or_new (Dict.get dom m))) m,
          same,
          get-put cat c present (or_new (Dict.get dom m)),
        )
        (elim (Bool-cases (cat == c)) [
          | inl hit ↦ rw hit refl
          | inr miss ↦ rw miss (ap (λ k. is_seen (Dict.get c (or_new (Dict.get k m)))) q)
        ])
  | inr other ↦ rw (get-put dom d (Dict.put cat present (or_new (Dict.get dom m))) m, other) refl
]

has-merge_entry :
    (d c : String) (e : ThreatEntry) (m : Merged)
    → has d c (merge_entry e m) ≡ (covers d c e || has d c m)
has-merge_entry d c e m = elim (Bool-cases (is_blank e)) [
  | inl blank ↦ rw blank refl
  | inr named ↦ rw named (has-put d c e.domain e.category m)
]

or_assoc : (a b c : Bool) → (b || (a || c)) ≡ ((a || b) || c)
or_assoc true true c = refl
or_assoc true false c = refl
or_assoc false b c = refl

has-merge_entries :
    (d c : String) (l : List ThreatEntry) (m : Merged)
    → has d c (merge_entries l m) ≡ (any_entry d c l || has d c m)
unfolding merge_entries
has-merge_entries d c [] m = refl
has-merge_entries d c (e ∷ l) m =
    has-merge_entries d c l (merge_entry e m)
    ∙ ap (λ b. any_entry d c l || b) (has-merge_entry d c e m)
    ∙ or_assoc (covers d c e) (any_entry d c l) (has d c m)

has-merge_all :
    (d c : String) (l : List Fetched) (m : Merged)
    → has d c (merge_all l m) ≡ (is_reported d c l || has d c m)
unfolding merge_all
has-merge_all d c [] m = refl
has-merge_all d c (r ∷ l) m =
    has-merge_all d c l (merge_entries r.entries m)
    ∙ ap (λ b. is_reported d c l || b) (has-merge_entries d c r.entries m)
    ∙ or_assoc (any_entry d c r.entries) (is_reported d c l) (has d c m)

keys_of-In : (c : String) (l : List (String × Present)) → In c (keys_of l) → In (c, present) l
keys_of-In c [] i = elim i [ ]
keys_of-In c ((k, present) ∷ l) (inl e) = inl (ap (λ x. (x, present)) e)
keys_of-In c ((k, present) ∷ l) (inr i) = inr (keys_of-In c l i)

In-keys_of : (c : String) (l : List (String × Present)) → In (c, present) l → In c (keys_of l)
In-keys_of c [] i = elim i [ ]
In-keys_of c ((k, p) ∷ l) (inl e) = inl (ap (λ (x : String × Present). x.0) e)
In-keys_of c ((k, p) ∷ l) (inr i) = inr (In-keys_of c l i)

seen-present : (o : Option Present) → is_seen o ≡ true → o ≡ some present
seen-present none h = absurd (cc h)
seen-present (some present) h = refl

-- The domain is served with the category.
pub record IsServed (d c : String) (out : Dict String (List String)) : Type 0 where
  pub categories : List String
  pub found : Dict.get d out ≡ some categories
  pub category : In c categories

-- What the orders and the sort may do to a list: nothing to its members.
pub record IsFaithful (o : Orders) : Type 0 where
  pub domains :
      (l : List (String × Dict String Present)) (x : String × Dict String Present)
      → In x (o.domains l) ↔ In x l
  pub categories :
      (l : List (String × Present)) (x : String × Present) → In x (o.categories l) ↔ In x l
  pub sort : (l : List String) (c : String) → In c (o.sort l) ↔ In c l

module _ (o : Orders) (f : IsFaithful o) where
  listed-In :
      (c : String) (cats : Dict String Present)
      → In c (listed o cats)
      → is_seen (Dict.get c cats) ≡ true
  listed-In c cats i =
      let j = keys_of-In c (o.categories (Dict.items cats)) ((f.sort _ c).0 i) in
      ap is_seen ((In-items c present cats).0 ((f.categories (Dict.items cats) (c, present)).0 j))

  In-listed :
      (c : String) (cats : Dict String Present)
      → is_seen (Dict.get c cats) ≡ true
      → In c (listed o cats)
  In-listed c cats h =
      let i = (In-items c present cats).1 (seen-present (Dict.get c cats) h) in
      (f.sort _ c).1 (
        In-keys_of c (o.categories (Dict.items cats))
          ((f.categories (Dict.items cats) (c, present)).1 i))

  served_at :
      (merged : Merged) (d : String)
      → Dict.get d (each (publish o) (o.domains (Dict.items merged)) Dict.empty)
        ≡ at_key (λ cats. some (listed o cats)) none (Dict.get d merged)
  served_at merged d =
      get-each (publish o) merged d none (λ cats. some (listed o cats))
        (λ k cats m n. get-put_ne k d (listed o cats) m n)
        (λ cats m _ _. get-put_self d (listed o cats) m) o.domains f.domains Dict.empty
        (get-empty d)

  served→has :
      (merged : Merged) (d c : String)
      → IsServed d c (each (publish o) (o.domains (Dict.items merged)) Dict.empty)
      → has d c merged ≡ true
  served→has merged d c s = elim (Option-cases (Dict.get d merged)) [
    | inl gone ↦ absurd (
        cc
          (sym s.found ∙ served_at merged d ∙ ap (at_key (λ cats. some (listed o cats)) none) gone))
    | inr (cats, there) ↦
        let same : listed o cats ≡ s.categories = some-eq (
          sym (served_at merged d ∙ ap (at_key (λ cats. some (listed o cats)) none) there)
          ∙ s.found) in
        rw there (listed-In c cats (subst (In c) (sym same) s.category))
  ]

  has→served :
      (merged : Merged) (d c : String)
      → has d c merged ≡ true
      → IsServed d c (each (publish o) (o.domains (Dict.items merged)) Dict.empty)
  has→served merged d c h = elim (Option-cases (Dict.get d merged)) [
    | inl gone ↦ absurd (cc (rw (gone, get-empty c) at h))
    | inr (cats, there) ↦ record {
      categories = listed o cats;
      found = served_at merged d ∙ ap (at_key (λ cats. some (listed o cats)) none) there;
      category = In-listed c cats (rw there at h);
    }
  ]

-- Collect serves a domain with a category exactly if some provider has sent an entry that names both,
-- in whatever order the providers answer and the maps are read, whether or not others have failed.
pub collect-IsServed :
    (o : Orders) (t : Text) (arrived : List Fetched) (d c : String)
    → IsFaithful o
    → IsServed d c (collect o t arrived).0 ↔ (is_reported d c arrived ≡ true)
unfolding collect
collect-IsServed o t arrived d c f =
    let merged = merge_all arrived Dict.empty in
    let e : has d c merged ≡ is_reported d c arrived =
      has-merge_all d c arrived Dict.empty
      ∙ rw (get-empty d, get-empty c) (or_false (is_reported d c arrived)) in
    (λ s. sym e ∙ served→has o f merged d c s, λ h. has→served o f merged d c (e ∙ h))
  where
    or_false : (b : Bool) → (b || false) ≡ b
    or_false true = refl
    or_false false = refl
