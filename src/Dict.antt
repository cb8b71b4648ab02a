-- ===== src/Dict.antt =====
-- Go's maps. Each key occurs once, by the record's last field, and clients have the laws below.
-- The order of `items` is not that of a `range` loop, which Go leaves open: such a loop takes an
-- `Order` as an argument, and a theorem about it holds of every order that visits all entries.
pub mod Each
use apexaegis_management_pla.Prelude.{
  ◌≡◌, refl, sym, ◌∙◌, ◌↔◌, ◌⊎◌, inl, inr, Bool, true, false, ◌&&◌, Option, none, some, List, [],
  ◌∷◌, arith, if◌then◌else◌, Eq, ◌==◌, Bool-cases, In, beq_self, some-eq, ◌≢◌,
}

abbrev pub is_none {ℓ} : {A : Type ℓ} → Option A → Bool
is_none none = true
is_none (some a) = false

module _ {ℓ κ} {K : Type ℓ} {V : Type κ} ⦃e : Eq K⦄ where
  abbrev pub lookup : K → List (K × V) → Option V
  lookup k [] = none
  lookup k ((j, v) ∷ l) = if j == k then some v else lookup k l

  abbrev pub without : K → List (K × V) → List (K × V)
  without k [] = []
  without k ((j, v) ∷ l) = let rest = without k l in if j == k then rest else (j, v) ∷ rest

  abbrev pub distinct : List (K × V) → Bool
  distinct [] = true
  distinct ((k, v) ∷ l) = is_none (lookup k l) && distinct l

  lookup-without :
      (k j : K) (l : List (K × V)) → lookup j (without k l) ≡ (if k == j then none else lookup j l)
  lookup-without k j [] = ground arith
  lookup-without k j ((i, v) ∷ l) =
      ground (arith, lookup-without k j l, e.beq_iff i k, e.beq_iff i j, e.beq_iff k j)

  pub distinct-without :
      (k : K) (l : List (K × V)) → distinct l ≡ true → distinct (without k l) ≡ true
  distinct-without k [] h = refl
  distinct-without k ((j, v) ∷ l) h =
      ground (arith, distinct-without k l, lookup-without k j l, e.beq_iff j k, e.beq_iff k j)

  pub distinct-put :
      (k : K) (v : V) (l : List (K × V))
      → distinct l ≡ true
      → distinct ((k, v) ∷ without k l) ≡ true
  distinct-put k v l h = ground (arith, distinct-without k l, lookup-without k k l, e.beq_iff k k)

  lookup-In : (k : K) (v : V) (l : List (K × V)) → lookup k l ≡ some v → In (k, v) l
  lookup-In k v [] h = cc
  lookup-In k v ((j, w) ∷ l) h = elim (Bool-cases (j == k)) [
    | inl hit ↦ inl (ground (arith, e.beq_iff j k))
    | inr miss ↦ inr (lookup-In k v l (rw miss at h))
  ]

  In-lookup :
      (k : K) (v : V) (l : List (K × V)) → distinct l ≡ true → In (k, v) l → lookup k l ≡ some v
  In-lookup k v [] d i = elim i [ ]
  In-lookup k v ((j, w) ∷ l) d (inl p) = ground (arith, e.beq_iff j k)
  In-lookup k v ((j, w) ∷ l) d (inr i) =
      ground (arith, e.beq_iff j k, In-lookup k v l (ground arith) i)

pub record Dict {ℓ κ} (K : Type ℓ) (V : Type κ) ⦃e : Eq K⦄ : Type (ℓ ⊔ κ) where
  entries : List (K × V)
  once : distinct entries ≡ true

module _ {ℓ κ} {K : Type ℓ} {V : Type κ} ⦃e : Eq K⦄ where
  unfoldable pub empty : Dict K V
  empty = record { entries = []; once = refl }

  -- v, ok := d[k]
  unfoldable pub get : K → Dict K V → Option V
  get k d = lookup k d.entries

  -- d[k] = v
  unfoldable pub put : K → V → Dict K V → Dict K V
  put k v d = record {
    entries = (k, v) ∷ without k d.entries;
    once = distinct-put k v d.entries d.once;
  }

  -- delete(d, k)
  unfoldable pub remove : K → Dict K V → Dict K V
  remove k d = record { entries = without k d.entries; once = distinct-without k d.entries d.once }

  unfoldable pub items : Dict K V → List (K × V)
  items d = d.entries

  pub get-empty : (k : K) → get k empty ≡ none
  unfolding get empty
  get-empty k = refl

  pub get-put :
      (k j : K) (v : V) (d : Dict K V) → get j (put k v d) ≡ (if k == j then some v else get j d)
  unfolding get put
  get-put k j v d = ground (arith, lookup-without k j d.entries, e.beq_iff k j)

  pub get-remove :
      (k j : K) (d : Dict K V) → get j (remove k d) ≡ (if k == j then none else get j d)
  unfolding get remove
  get-remove k j d = lookup-without k j d.entries

  -- The items are exactly the keys with their values.
  pub In-items : (k : K) (v : V) (d : Dict K V) → In (k, v) (items d) ↔ (get k d ≡ some v)
  unfolding get items
  In-items k v d = (In-lookup k v d.entries d.once, lookup-In k v d.entries)

  pub get-put_self : (k : K) (v : V) (d : Dict K V) → get k (put k v d) ≡ some v
  get-put_self k v d = rw (get-put k k v d, beq_self k)

  pub get-remove_self : (k : K) (d : Dict K V) → get k (remove k d) ≡ none
  get-remove_self k d = rw (get-remove k k d, beq_self k)

  -- A lookup after a write or a deletion, by cases on the key.
  pub get-put_cases :
      (k j : K) (v w : V) (d : Dict K V)
      → get j (put k v d) ≡ some w
      → ((k ≡ j) × (v ≡ w)) ⊎ ((k ≢ j) × (get j d ≡ some w))
  get-put_cases k j v w d h = elim (Bool-cases (k == j)) [
    | inl same ↦ inl ((e.beq_iff k j).0 same, some-eq (sym (rw same at (get-put k j v d)) ∙ h))
    | inr other ↦
        inr (λ q. cc ((e.beq_iff k j).1 q, other), sym (rw other at (get-put k j v d)) ∙ h)
  ]

  pub get-remove_cases :
      (k j : K) (w : V) (d : Dict K V) → get j (remove k d) ≡ some w → (k ≢ j) × (get j d ≡ some w)
  get-remove_cases k j w d h = elim (Bool-cases (k == j)) [
    | inl same ↦ absurd (cc (rw same at (get-remove k j d), h))
    | inr other ↦ (λ q. cc ((e.beq_iff k j).1 q, other), sym (rw other at (get-remove k j d)) ∙ h)
  ]

  pub get-put_ne : (k j : K) (v : V) (d : Dict K V) → k ≢ j → get j (put k v d) ≡ get j d
  get-put_ne k j v d n = elim (Bool-cases (k == j)) [
    | inl same ↦ absurd (n ((e.beq_iff k j).0 same))
    | inr other ↦ rw (get-put k j v d, other)
  ]

  pub get-remove_ne : (k j : K) (d : Dict K V) → k ≢ j → get j (remove k d) ≡ get j d
  get-remove_ne k j d n = elim (Bool-cases (k == j)) [
    | inl same ↦ absurd (n ((e.beq_iff k j).0 same))
    | inr other ↦ rw (get-remove k j d, other)
  ]
