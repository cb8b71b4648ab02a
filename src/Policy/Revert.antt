-- ===== src/Policy/Revert.antt =====
-- Revert of internal/policy/store.go: a later revert to a version restores the policies of that time.
use apexaegis_management_pla.Prelude.{
  ℕ, suc, ◌+◌, ◌≡◌, ◌≢◌, ◌≤◌, ◌<◌, ◌↔◌, ◌⊎◌, inl, inr, refl, sym, ap, subst, ◌∙◌, true, false, none,
  some, String, List, [], ◌∷◌, ◌++◌, length, leb, eqb, ◌==◌, string_eq, arith, In, if_cases,
  Option-cases, Bool-cases, some-eq,
}
use apexaegis_management_pla.Dict
use apexaegis_management_pla.Dict.{Dict, In-items, get-empty, get-put_self, get-put_ne}
use apexaegis_management_pla.Policy.{
  SecurityPolicy, ConfigVersion, Store, Runtime, new_store, commit, list, snapshot, trimmed,
  values_of, find_version, snapshot_map, revert, max_versions,
}
use apexaegis_management_pla.Policy.History.{
  Operation, run, run_all, OwnIds, Step, quiet, commits, run-Step,
}
use apexaegis_management_pla.Policy.Versions.{
  IsValid, Numbered, find_version-range, find_version-retained, run-IsValid, new_store-IsValid,
  reachable-IsValid,
}

-- What Go promises of a `range` loop and of sort.Slice: they visit and keep exactly the elements.
pub record IsRuntime (rt : Runtime) : Type 0 where
  pub visits :
      (l : List (String × SecurityPolicy)) (x : String × SecurityPolicy)
      → In x (rt.order l) ↔ In x l
  pub sorts : (l : List SecurityPolicy) (p : SecurityPolicy) → In p (rt.sort_by_sequence l) ↔ In p l

-- Two maps hold the same policies.
abbrev pub SamePolicies : Dict String SecurityPolicy → Dict String SecurityPolicy → Type 0
SamePolicies m n = (id : String) → Dict.get id m ≡ Dict.get id n

In-values :
    (l : List (String × SecurityPolicy)) (p : SecurityPolicy)
    → In p (values_of l) ↔ ((id : String) × In (id, p) l)
In-values [] p = (λ i. elim i [ ], λ (id, i). elim i [ ])
In-values ((k, q) ∷ l) p = (
  λ i. elim i [
    | inl e ↦ (k, inl (ap (λ (x : SecurityPolicy). (k, x)) e))
    | inr j ↦ let (id, n) = (In-values l p).0 j in (id, inr n)
  ],
  λ (id, i). elim i [
    | inl e ↦ inl (ap (λ (x : String × SecurityPolicy). x.1) e)
    | inr j ↦ inr ((In-values l p).1 (id, j))
  ],
)

In-list :
    (rt : Runtime) (laws : IsRuntime rt) (s : Store) (p : SecurityPolicy)
    → In p (list rt s) ↔ ((id : String) × (Dict.get id s.policies ≡ some p))
unfolding list
In-list rt laws s p = (
  λ i.
      let (id, j) = (In-values _ p).0 ((laws.sorts _ p).0 i) in
      (id, (In-items id p s.policies).0 ((laws.visits _ (id, p)).0 j)),
  λ (id, e).
      (laws.sorts _ p).1
        ((In-values _ p).1 (id, (laws.visits _ (id, p)).1 ((In-items id p s.policies).1 e))),
)

-- The map that a list of policies fills: the policy of an id is one of the list, or the old one
-- where the list has none.
get-snapshot_map :
    (ps : List SecurityPolicy) (m : Dict String SecurityPolicy) (id : String)
    → ((p : SecurityPolicy) × In p ps × (p.id ≡ id) × (Dict.get id (snapshot_map ps m) ≡ some p))
      ⊎ (((p : SecurityPolicy) → In p ps → p.id ≢ id)
          × (Dict.get id (snapshot_map ps m) ≡ Dict.get id m))
unfolding snapshot_map
get-snapshot_map [] m id = inr (λ p i. elim i [ ], refl)
get-snapshot_map (p ∷ ps) m id = elim (get-snapshot_map ps (Dict.put p.id p m) id) [
  | inl (q, i, e, g) ↦ inl (q, inr i, e, g)
  | inr (unseen, g) ↦ elim (Bool-cases (p.id == id)) [
    | inl hit ↦
        let e : p.id ≡ id = (string_eq.beq_iff p.id id).0 hit in
        inl (
          p,
          inl refl,
          e,
          g ∙ subst (λ k. Dict.get k (Dict.put p.id p m) ≡ some p) e (get-put_self p.id p m),
        )
    | inr miss ↦
        let n : p.id ≢ id = λ e. cc ((string_eq.beq_iff p.id id).1 e, miss) in
        inr (
          λ q i. elim i [
            | inl same ↦ λ e. n (ap (λ (x : SecurityPolicy). x.id) (sym same) ∙ e)
            | inr later ↦ unseen q later
          ],
          g ∙ get-put_ne p.id id p m n,
        )
  ]
]

-- The policies that a snapshot of a store holds are those of the store.
snapshot-SamePolicies :
    (rt : Runtime) (laws : IsRuntime rt) (s : Store)
    → OwnIds s.policies
    → SamePolicies (snapshot_map (list rt s) Dict.empty) s.policies
snapshot-SamePolicies rt laws s own id = elim (get-snapshot_map (list rt s) Dict.empty id) [
  | inl (p, i, e, g) ↦
      let (k, there) = (In-list rt laws s p).0 i in
      g ∙ sym (subst (λ j. Dict.get j s.policies ≡ some p) (sym (own k p there) ∙ e) there)
  | inr (unseen, g) ↦ elim (Option-cases (Dict.get id s.policies)) [
    | inl gone ↦ g ∙ get-empty id ∙ sym gone
    | inr (p, there) ↦ absurd (unseen p ((In-list rt laws s p).1 (id, there)) (own id p there))
  ]
]

-- The current version, where the history has it, is a snapshot of the current policies.
abbrev pub IsCurrent : Store → Type 0
IsCurrent s =
    (cv : ConfigVersion)
    → find_version s.version s.versions ≡ some cv
    → SamePolicies (snapshot_map cv.policies Dict.empty) s.policies

find_version-append :
    (v : ℕ) (vs : List ConfigVersion) (cv : ConfigVersion)
    → (find_version v vs ≡ none → find_version v (vs ++ (cv ∷ [])) ≡ find_version v (cv ∷ []))
      × ((w : ConfigVersion)
          → find_version v vs ≡ some w
          → find_version v (vs ++ (cv ∷ [])) ≡ some w)
unfolding find_version
find_version-append v [] cv = (λ h. refl, λ w h. absurd (cc h))
find_version-append v (x ∷ vs) cv = elim (Bool-cases (eqb x.version v)) [
  | inl hit ↦ (λ h. absurd (cc (rw hit at h)), λ w h. rw hit (rw hit at h))
  | inr miss ↦
      let (a, b) = find_version-append v vs cv in
      (λ h. rw miss (a (rw miss at h)), λ w h. rw miss (b w (rw miss at h)))
]

-- The history before a commit has what the trimmed one has.
find_version-trimmed :
    (v n : ℕ) (vs : List ConfigVersion) (cv : ConfigVersion)
    → Numbered n vs
    → find_version v (trimmed vs) ≡ some cv
    → find_version v vs ≡ some cv
unfolding find_version
find_version-trimmed v n [] cv h = λ e. e
find_version-trimmed v n (x ∷ vs) cv h =
    if_cases
      (λ (l : List ConfigVersion). find_version v l ≡ some cv → find_version v (x ∷ vs) ≡ some cv)
      (leb max_versions (length (x ∷ vs))) vs (x ∷ vs)
      (λ _ e.
        let (low, high, q) = find_version-range (suc n) v vs cv h.1 e in
        let number = h.0 in let other : eqb x.version v ≡ false = ground arith in rw other e)
      (λ _ e. e)

module _ (rt : Runtime) (laws : IsRuntime rt) (s : Store) (valid : IsValid s) where
  not_yet : find_version (suc s.version) (trimmed s.versions) ≡ none
  not_yet = elim (Option-cases (find_version (suc s.version) (trimmed s.versions))) [
    | inl e ↦ e
    | inr (cv, e) ↦
        let h = valid.history in
        let counted = h.counted in
        let found = find_version-trimmed (suc s.version) h.start s.versions cv h.numbered e in
        let (low, high, q) =
          find_version-range h.start (suc s.version) s.versions cv h.numbered found in
        absurd (omega arith)
  ]

  Step-find_version :
      (t : Store) (v : ℕ) (cv : ConfigVersion)
      → Step rt s t
      → v ≤ s.version
      → find_version v t.versions ≡ some cv
      → find_version v s.versions ≡ some cv
  unfolding commit find_version
  Step-find_version t v cv (quiet _ p vs n) low e = subst (λ l. find_version v l ≡ some cv) vs e
  Step-find_version _ v cv (commits m now author message change_type policy_id own) low e =
      let new = snapshot rt now author message change_type policy_id (record s { policies = m }) in
      let (a, b) = find_version-append v (trimmed s.versions) new in
      elim (Option-cases (find_version v (trimmed s.versions))) [
        | inl gone ↦
            let other : eqb (suc s.version) v ≡ false = ground arith in
            absurd (cc (rw other at (sym (a gone) ∙ e)))
        | inr (w, there) ↦
            find_version-trimmed v valid.history.start s.versions cv valid.history.numbered
              (there ∙ sym (b w there) ∙ e)
      ]

  Step-version : (t : Store) → Step rt s t → s.version ≤ t.version
  unfolding commit
  Step-version t (quiet _ p vs n) = omega arith
  Step-version _ (commits m now author message change_type policy_id own) = omega arith

  Step-IsCurrent : (t : Store) → Step rt s t → IsCurrent s → IsCurrent t
  unfolding commit find_version
  Step-IsCurrent t (quiet _ p vs n) current cv e id =
      current cv
        (subst (λ (l : List ConfigVersion). find_version s.version l ≡ some cv) vs
          (subst (λ k. find_version k t.versions ≡ some cv) n e))
        id
      ∙ sym (ap (Dict.get id) p)
  Step-IsCurrent _ (commits m now author message change_type policy_id own) current cv e id =
      let t = record s { policies = m } in
      let found =
        (find_version-append (suc s.version) (trimmed s.versions)
            (snapshot rt now author message change_type policy_id t)).0
          not_yet in
      let hit : eqb (suc s.version) (suc s.version) ≡ true = ground arith in
      let same = some-eq (sym (rw hit at found) ∙ e) in
      subst
        (λ (x : ConfigVersion). Dict.get id (snapshot_map x.policies Dict.empty) ≡ Dict.get id m)
        same (snapshot-SamePolicies rt laws t own id)

module _ (rt : Runtime) (laws : IsRuntime rt) where
  Later :
      (ops : List Operation) (s : Store)
      → IsValid s
      → IsValid (run_all rt ops s)
        × (s.version ≤ (run_all rt ops s).version)
        × ((v : ℕ) (cv : ConfigVersion)
            → v ≤ s.version
            → find_version v (run_all rt ops s).versions ≡ some cv
            → find_version v s.versions ≡ some cv)
        × (IsCurrent s → IsCurrent (run_all rt ops s))
  unfolding run_all
  Later [] s valid = (valid, omega arith, λ v cv low e. e, λ current. current)
  Later (op ∷ ops) s valid =
      let t = run rt op s in
      let step = run-Step rt s op valid.own_ids in
      let (after, grows, finds, keeps) = Later ops t (run-IsValid rt op s valid) in
      let up = Step-version rt laws s valid t step in
      (
        after,
        omega arith,
        λ v cv low e.
            Step-find_version rt laws s valid t v cv step low (finds v cv (omega arith) e),
        λ current. keeps (Step-IsCurrent rt laws s valid t step current),
      )

  new_store-IsCurrent : IsCurrent new_store
  unfolding new_store find_version
  new_store-IsCurrent cv e = absurd (cc e)

  revert-found :
      (now v : ℕ) (author : String) (s : Store) (cv : ConfigVersion)
      → find_version v s.versions ≡ some cv
      → (revert rt now v author s).0.policies ≡ snapshot_map cv.policies Dict.empty
  unfolding revert commit
  revert-found now v author s cv e = rw (revert, e)

  -- Take any sequence of operations on a new store, and any further sequence after it. While the
  -- version number that the first sequence reached is one of the last ten, a revert to it restores
  -- exactly the policies that the store had then.
  pub revert-SamePolicies :
      (before after : List Operation) (now : ℕ) (author : String)
      → 1 ≤ (run_all rt before new_store).version
      → (run_all rt after (run_all rt before new_store)).version
        < (run_all rt before new_store).version + 10
      → SamePolicies
          (revert rt now
            (run_all rt before new_store).version
            author
            (run_all rt after (run_all rt before new_store))).0.policies
          (run_all rt before new_store).policies
  revert-SamePolicies before after now author one recent id =
      let s = run_all rt before new_store in
      let t = run_all rt after s in
      let valid = reachable-IsValid rt before in
      let current = (Later before new_store new_store-IsValid).3 new_store-IsCurrent in
      let (still, grows, finds, keeps) = Later after s valid in
      let h = still.history in
      let counted = h.counted in
      let size = h.size in
      let (cv, found) =
        find_version-retained h.start s.version t.versions h.numbered (omega arith) (omega arith) in
      ap (Dict.get id) (revert-found now s.version author t cv found)
      ∙ current cv (finds s.version cv (omega arith) found) id
