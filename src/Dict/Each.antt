-- ===== src/Dict/Each.antt =====
-- A `range` loop over a map whose body changes a map at the key of the entry alone.
use apexaegis_management_pla.Prelude.{
  ◌≡◌, ◌≢◌, ◌↔◌, ◌⊎◌, inl, inr, refl, sym, ap, ◌∙◌, Option, none, some, List, [], ◌∷◌, Eq, ◌==◌, In,
  Bool-cases, Option-cases, some-eq,
}
use apexaegis_management_pla.Dict
use apexaegis_management_pla.Dict.{Dict, In-items}

abbrev pub each {ℓ κ} : {A : Type ℓ} {M : Type κ} → (A → M → M) → List A → M → M
each body [] m = m
each body (x ∷ l) m = each body l (body x m)

-- What the loop leaves at a key: the old value where the map has no entry.
abbrev pub at_key {κ μ} :
    {V : Type κ} {W : Type μ} → (V → Option W) → Option W → Option V → Option W
at_key target start none = start
at_key target start (some v) = target v

module _ {ℓ κ μ} {K : Type ℓ} {V : Type κ} {W : Type μ} ⦃eq : Eq K⦄ where
  module _ (body : K × V → Dict K W → Dict K W) (d : Dict K V) (id : K) (start : Option W)
      (target : V → Option W)
      (other : (k : K) (v : V) (m : Dict K W)
        → k ≢ id
        → Dict.get id (body (k, v) m) ≡ Dict.get id m)
      (hit : (v : V) (m : Dict K W)
        → Dict.get id d ≡ some v
        → (Dict.get id m ≡ start) ⊎ (Dict.get id m ≡ target v)
        → Dict.get id (body (id, v) m) ≡ target v) where
    -- The entries that the loop visits are those of the map.
    abbrev From : List (K × V) → Type (ℓ ⊔ κ)
    From l = (k : K) (v : V) → In (k, v) l → Dict.get k d ≡ some v

    each-absent :
        (l : List (K × V)) (m : Dict K W)
        → From l
        → Dict.get id d ≡ none
        → Dict.get id (each body l m) ≡ Dict.get id m
    each-absent [] m from e = refl
    each-absent ((k, v) ∷ l) m from e =
        each-absent l (body (k, v) m) (λ j w i. from j w (inr i)) e
        ∙ other k v m (λ q. cc (sym e ∙ ap (λ j. Dict.get j d) (sym q) ∙ from k v (inl refl)))

    hit_at :
        (k : K) (v : V) (m : Dict K W) (w : V)
        → Dict.get id d ≡ some w
        → Dict.get k d ≡ some v
        → k ≡ id
        → (Dict.get id m ≡ start) ⊎ (Dict.get id m ≡ target w)
        → Dict.get id (body (k, v) m) ≡ target w
    hit_at k v m w there e q h =
        let same : v ≡ w = some-eq (sym e ∙ ap (λ j. Dict.get j d) q ∙ there) in
        rw (q, same) (hit w m there h)

    each-done :
        (l : List (K × V)) (m : Dict K W) (w : V)
        → Dict.get id d ≡ some w
        → From l
        → Dict.get id m ≡ target w
        → Dict.get id (each body l m) ≡ target w
    each-done [] m w there from h = h
    each-done ((k, v) ∷ l) m w there from h =
        each-done l (body (k, v) m) w there (λ j x i. from j x (inr i))
          (elim (Bool-cases (k == id)) [
            | inl same ↦
                hit_at k v m w there (from k v (inl refl)) ((eq.beq_iff k id).0 same) (inr h)
            | inr miss ↦ other k v m (λ q. cc ((eq.beq_iff k id).1 q, miss)) ∙ h
          ])

    each-present :
        (l : List (K × V)) (m : Dict K W) (w : V)
        → Dict.get id d ≡ some w
        → From l
        → Dict.get id m ≡ start
        → In (id, w) l
        → Dict.get id (each body l m) ≡ target w
    each-present [] m w there from h i = elim i [ ]
    each-present ((k, v) ∷ l) m w there from h i = elim (Bool-cases (k == id)) [
      | inl same ↦
          each-done l (body (k, v) m) w there (λ j x i. from j x (inr i))
            (hit_at k v m w there (from k v (inl refl)) ((eq.beq_iff k id).0 same) (inl h))
      | inr miss ↦
          let n : k ≢ id = λ e. cc ((eq.beq_iff k id).1 e, miss) in
          elim i [
            | inl e ↦ absurd (n (ap (λ (x : K × V). x.0) (sym e)))
            | inr j ↦
                each-present l (body (k, v) m) w there (λ a b i. from a b (inr i))
                  (other k v m n ∙ h) j
          ]
    ]

    -- The loop over the entries in any order leaves at a key what the key's own entry says.
    pub get-each :
        (order : List (K × V) → List (K × V))
        (visits : (l : List (K × V)) (x : K × V) → In x (order l) ↔ In x l) (m : Dict K W)
        → Dict.get id m ≡ start
        → Dict.get id (each body (order (Dict.items d)) m) ≡ at_key target start (Dict.get id d)
    get-each order visits m h =
        let l = order (Dict.items d) in
        let from : From l = λ k v i. (In-items k v d).0 ((visits (Dict.items d) (k, v)).0 i) in
        elim (Option-cases (Dict.get id d)) [
          | inl gone ↦ each-absent l m from gone ∙ h ∙ rw gone refl
          | inr (w, there) ↦
              each-present l m w there from h
                ((visits (Dict.items d) (id, w)).1 ((In-items id w d).1 there))
              ∙ rw there refl
        ]
