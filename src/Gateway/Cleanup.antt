-- ===== src/Gateway/Cleanup.antt =====
-- One tick of the cleanup loop of internal/gateway/registry.go applies its verdict to each gateway once.
use apexaegis_management_pla.Prelude.{
  ℕ, ◌≡◌, ◌≢◌, ◌↔◌, ◌⊎◌, inl, inr, refl, sym, ap, ◌∙◌, Bool, Option, none, some, String, List, [],
  ◌∷◌, ◌==◌, string_eq, arith, In, Option-cases, Bool-cases, some-eq,
}
use apexaegis_management_pla.Dict
use apexaegis_management_pla.Dict.{
  Dict, In-items, get-put_self, get-put_ne, get-remove_self, get-remove_ne,
}
use apexaegis_management_pla.Gateway.{
  GatewayNode, Registry, StoreCall, Order, Verdict, keep, drop, offline, verdict, apply, sweep,
  cleanup, call, is_set,
}

-- What is left of a gateway, by the verdict on it.
abbrev pub outcome : Verdict → GatewayNode → Option GatewayNode
outcome keep gw = some gw
outcome drop gw = none
outcome offline gw = some (record gw { status = "offline" })

abbrev pub left : ℕ → Dict String Bool → String → Option GatewayNode → Option GatewayNode
left now connected id none = none
left now connected id (some gw) = outcome (verdict now (is_set (Dict.get id connected)) gw) gw

get-apply_self :
    (v : Verdict) (id : String) (gw : GatewayNode) (m : Dict String GatewayNode)
    → (Dict.get id m ≡ some gw) ⊎ (Dict.get id m ≡ outcome v gw)
    → Dict.get id (apply v id gw m) ≡ outcome v gw
get-apply_self keep id gw m (inl h) = h
get-apply_self keep id gw m (inr h) = h
get-apply_self drop id gw m h = get-remove_self id m
get-apply_self offline id gw m h = get-put_self id _ m

get-apply_ne :
    (v : Verdict) (id j : String) (gw : GatewayNode) (m : Dict String GatewayNode)
    → id ≢ j
    → Dict.get j (apply v id gw m) ≡ Dict.get j m
get-apply_ne keep id j gw m n = refl
get-apply_ne drop id j gw m n = get-remove_ne id j m n
get-apply_ne offline id j gw m n = get-put_ne id j _ m n

module _ (now : ℕ) (connected : Dict String Bool) (start : Dict String GatewayNode)
    (id : String) where
  -- The entries that the loop visits are those of the map it started with.
  abbrev From : List (String × GatewayNode) → Type 0
  From l = (k : String) (g : GatewayNode) → In (k, g) l → Dict.get k start ≡ some g

  From-rest : (x : String × GatewayNode) (l : List (String × GatewayNode)) → From (x ∷ l) → From l
  From-rest x l from k g i = from k g (inr i)

  sweep-absent :
      (l : List (String × GatewayNode)) (m : Dict String GatewayNode)
      → From l
      → Dict.get id start ≡ none
      → Dict.get id (sweep now connected l m) ≡ Dict.get id m
  unfolding sweep
  sweep-absent [] m from e = refl
  sweep-absent ((k, g) ∷ l) m from e =
      let n : k ≢ id = λ q. cc (sym e ∙ ap (λ j. Dict.get j start) (sym q) ∙ from k g (inl refl)) in
      sweep-absent l _ (From-rest (k, g) l from) e
      ∙ get-apply_ne (verdict now (is_set (Dict.get k connected)) g) k id g m n

  module _ (gw : GatewayNode) (there : Dict.get id start ≡ some gw) where
    abbrev goal : Option GatewayNode
    goal = outcome (verdict now (is_set (Dict.get id connected)) gw) gw

    -- One visit, of this gateway or of another.
    visit :
        (k : String) (g : GatewayNode) (m : Dict String GatewayNode)
        → Dict.get k start ≡ some g
        → (Dict.get id m ≡ some gw) ⊎ (Dict.get id m ≡ goal)
        → let t = apply (verdict now (is_set (Dict.get k connected)) g) k g m in
          (Dict.get id t ≡ goal) ⊎ ((k ≢ id) × (Dict.get id t ≡ Dict.get id m))
    visit k g m e h = elim (Bool-cases (k == id)) [
      | inl hit ↦
          let q : k ≡ id = (string_eq.beq_iff k id).0 hit in
          let same : g ≡ gw = some-eq (sym e ∙ ap (λ j. Dict.get j start) q ∙ there) in
          let done = get-apply_self (verdict now (is_set (Dict.get id connected)) gw) id gw m h in
          inl (rw (q, same) done)
      | inr miss ↦
          let n : k ≢ id = λ q. cc ((string_eq.beq_iff k id).1 q, miss) in
          inr (n, get-apply_ne (verdict now (is_set (Dict.get k connected)) g) k id g m n)
    ]

    sweep-done :
        (l : List (String × GatewayNode)) (m : Dict String GatewayNode)
        → From l
        → Dict.get id m ≡ goal
        → Dict.get id (sweep now connected l m) ≡ goal
    unfolding sweep
    sweep-done [] m from h = h
    sweep-done ((k, g) ∷ l) m from h =
        sweep-done l _ (From-rest (k, g) l from)
          (elim (visit k g m (from k g (inl refl)) (inr h)) [ inl e ↦ e | inr (n, e) ↦ e ∙ h ])

    sweep-present :
        (l : List (String × GatewayNode)) (m : Dict String GatewayNode)
        → From l
        → Dict.get id m ≡ some gw
        → In (id, gw) l
        → Dict.get id (sweep now connected l m) ≡ goal
    unfolding sweep
    sweep-present [] m from h i = elim i [ ]
    sweep-present ((k, g) ∷ l) m from h i = elim (visit k g m (from k g (inl refl)) (inl h)) [
      | inl e ↦ sweep-done l _ (From-rest (k, g) l from) e
      | inr (n, e) ↦ elim i [
        | inl q ↦ absurd (n (ap (λ (x : String × GatewayNode). x.0) (sym q)))
        | inr j ↦ sweep-present l _ (From-rest (k, g) l from) (e ∙ h) j
      ]
    ]

-- What Go promises of a `range` loop over the gateways: it visits exactly the entries.
abbrev pub Visits : Order → Type 0
Visits order =
    (l : List (String × GatewayNode)) (x : String × GatewayNode) → In x (order l) ↔ In x l

call-gateways : (c : StoreCall) (r : Registry) → (call c r).gateways ≡ r.gateways
call-gateways c r = ground arith

pub get-cleanup :
    (order : Order) (visits : Visits order) (now : ℕ) (r : Registry) (id : String)
    → Dict.get id (cleanup order now r).gateways
      ≡ left now r.stream_connected id (Dict.get id r.gateways)
unfolding cleanup
get-cleanup order visits now r id =
    let l = order (Dict.items r.gateways) in
    let from : (k : String) (g : GatewayNode) → In (k, g) l → Dict.get k r.gateways ≡ some g =
      λ k g i. (In-items k g r.gateways).0 ((visits _ (k, g)).0 i) in
    ap (Dict.get id) (call-gateways _ _ ∙ call-gateways _ _)
    ∙ elim (Option-cases (Dict.get id r.gateways)) [
      | inl gone ↦
          sweep-absent now r.stream_connected r.gateways id l r.gateways from gone ∙ rw gone refl
      | inr (gw, there) ↦
          sweep-present now r.stream_connected r.gateways id gw there l r.gateways from there
            ((visits _ (id, gw)).1 ((In-items id gw r.gateways).1 there))
          ∙ rw there refl
    ]
