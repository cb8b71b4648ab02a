-- ===== src/Gateway/Listing.antt =====
-- The two listings of internal/gateway/registry.go: every online gateway is in exactly one.
use apexaegis_management_pla.Prelude.{
  ◌≡◌, ◌↔◌, ◌⊎◌, inl, inr, refl, sym, ap, ◌∙◌, Bool, true, some, String, List, [], ◌∷◌, ◌==◌,
  string_eq, In, Bool-cases,
}
use apexaegis_management_pla.Dict
use apexaegis_management_pla.Dict.{Dict, In-items}
use apexaegis_management_pla.Gateway.{
  GatewayNode, Registry, Order, select, is_available, is_broker, list_available,
  list_private_access, is_private_access,
}
use apexaegis_management_pla.Gateway.Cleanup.{Visits}

-- The gateways that a loop with a test selects.
In-select :
    (test : GatewayNode → Bool) (l : List (String × GatewayNode)) (gw : GatewayNode)
    → In gw (select test l) ↔ ((id : String) × In (id, gw) l × (test gw ≡ true))
unfolding select
In-select test [] gw = (λ i. elim i [ ], λ (id, i, h). elim i [ ])
In-select test ((k, g) ∷ l) gw = elim (Bool-cases (test g)) [
  | inl hit ↦ (
    λ i. elim (rw hit at i) [
      | inl e ↦ (k, inl (ap (λ x. (k, x)) e), ap test e ∙ hit)
      | inr j ↦ let (id, n, h) = (In-select test l gw).0 j in (id, inr n, h)
    ],
    λ (id, i, h). rw hit (elim i [
      | inl e ↦ inl (ap (λ (x : String × GatewayNode). x.1) e)
      | inr j ↦ inr ((In-select test l gw).1 (id, j, h))
    ]),
  )
  | inr miss ↦ (
    λ i. let (id, n, h) = (In-select test l gw).0 (rw miss at i) in (id, inr n, h),
    λ (id, i, h). rw miss (elim i [
      | inl e ↦ absurd (cc (sym h ∙ ap (λ (x : String × GatewayNode). test x.1) e ∙ miss))
      | inr j ↦ (In-select test l gw).1 (id, j, h)
    ]),
  )
]

module _ (order : Order) (visits : Visits order) (r : Registry) (gw : GatewayNode) where
  listed :
      (test : GatewayNode → Bool)
      → In gw (select test (order (Dict.items r.gateways)))
        ↔ ((id : String) × (Dict.get id r.gateways ≡ some gw) × (test gw ≡ true))
  listed test = (
    λ i.
        let (id, j, h) = (In-select test _ gw).0 i in
        (id, (In-items id gw r.gateways).0 ((visits _ (id, gw)).0 j), h),
    λ (id, e, h).
        (In-select test _ gw).1 (id, (visits _ (id, gw)).1 ((In-items id gw r.gateways).1 e), h),
  )

  -- A gateway is in ListAvailable exactly when it is registered, online and no private-access
  -- broker, and in ListPrivateAccess exactly when it is registered, online and a broker.
  pub listings_lem :
      (In gw (list_available order r)
        ↔ ((id : String) × (Dict.get id r.gateways ≡ some gw) × (is_available r gw ≡ true)))
      × (In gw (list_private_access order r)
          ↔ ((id : String) × (Dict.get id r.gateways ≡ some gw) × (is_broker r gw ≡ true)))
  unfolding list_available list_private_access
  listings_lem = (listed (is_available r), listed (is_broker r))

-- ListAvailable and ListPrivateAccess together hold every registered gateway that is online, and
-- share none.
pub listings-disjoint :
    (order : Order) (visits : Visits order) (r : Registry) (id : String) (gw : GatewayNode)
    → Dict.get id r.gateways ≡ some gw
    → (gw.status == "online") ≡ true
    → (In gw (list_available order r) × ¬ (In gw (list_private_access order r)))
      ⊎ (In gw (list_private_access order r) × ¬ (In gw (list_available order r)))
listings-disjoint order visits r id gw there online =
    let (a, b) = listings_lem order visits r gw in
    elim (Bool-cases (is_private_access r gw)) [
      | inl private ↦ inr (
        b.1 (id, there, rw (online, private) refl),
        λ i. let (k, e, h) = a.0 i in cc (rw (online, private) at h),
      )
      | inr public ↦ inl (
        a.1 (id, there, rw (online, public) refl),
        λ i. let (k, e, h) = b.0 i in cc (rw (online, public) at h),
      )
    ]
