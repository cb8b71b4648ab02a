-- ===== src/Policy/Versions.antt =====
-- Which versions the history of internal/policy/store.go keeps.
use apexaegis_management_pla.Prelude.{
  ℕ, suc, ◌+◌, ◌≡◌, ◌≢◌, ◌≤◌, ◌<◌, ◌↔◌, inl, inr, refl, sym, ap, ◌∙◌, subst, some, List, [], ◌∷◌,
  ◌++◌, leb, eqb, length, min, length-append, string_eq, arith, if_cases, eqb_iff, some-eq,
  Bool-cases,
}
use apexaegis_management_pla.Dict.{get-empty}
use apexaegis_management_pla.Policy.{
  ConfigVersion, Store, Runtime, new_store, commit, trimmed, find_version, get_version,
  max_versions,
}
use apexaegis_management_pla.Policy.History.{
  Operation, run, run_all, OwnIds, Step, quiet, commits, run-Step,
}

-- The versions are numbered n + 1, n + 2 and so on.
abbrev pub Numbered : ℕ → List ConfigVersion → Type 0
Numbered n [] = Unit
Numbered n (cv ∷ rest) = (cv.version ≡ suc n) × Numbered (suc n) rest

-- The history holds the last ten versions up to the current one, in order.
pub record IsHistory (vs : List ConfigVersion) (n : ℕ) : Type 0 where
  pub start : ℕ
  pub counted : start + length vs ≡ n
  pub size : length vs ≡ min 10 n
  pub numbered : Numbered start vs

Numbered-append :
    (n : ℕ) (vs : List ConfigVersion) (cv : ConfigVersion)
    → Numbered n vs
    → cv.version ≡ suc (n + length vs)
    → Numbered n (vs ++ (cv ∷ []))
Numbered-append n [] cv h e = (omega arith, tt)
Numbered-append n (v ∷ vs) cv (p, h) e = (p, Numbered-append (suc n) vs cv h (omega arith))

trimmed-IsHistory :
    (vs : List ConfigVersion) (n : ℕ)
    → IsHistory vs n
    → (m : ℕ) × (m + length (trimmed vs) ≡ n)
      × (length (trimmed vs) ≡ min 9 n)
      × Numbered m (trimmed vs)
trimmed-IsHistory [] n h = let c = h.counted in let z = h.size in (n, omega arith, omega arith, tt)
trimmed-IsHistory (v ∷ vs) n h =
    let c = h.counted in
    let z = h.size in
    if_cases
      (λ (l : List ConfigVersion).
        (m : ℕ) × (m + length l ≡ n) × (length l ≡ min 9 n) × Numbered m l)
      (leb max_versions (length (v ∷ vs))) vs (v ∷ vs)
      (λ e. (suc h.start, omega arith, ground arith, h.numbered.1))
      (λ e. (h.start, c, ground arith, h.numbered))

pub commit-IsHistory :
    (vs : List ConfigVersion) (n : ℕ) (cv : ConfigVersion)
    → IsHistory vs n
    → cv.version ≡ suc n
    → IsHistory (trimmed vs ++ (cv ∷ [])) (suc n)
commit-IsHistory vs n cv h e =
    let (m, c, z, num) = trimmed-IsHistory vs n h in
    let l = length-append (trimmed vs) (cv ∷ []) in
    record {
      start = m;
      counted = omega arith;
      size = omega arith;
      numbered = Numbered-append m (trimmed vs) cv num (omega arith);
    }

-- A search below the first number or above the last finds nothing.
pub find_version-range :
    (n v : ℕ) (vs : List ConfigVersion) (cv : ConfigVersion)
    → Numbered n vs
    → find_version v vs ≡ some cv
    → (n < v) × (v ≤ n + length vs) × (cv.version ≡ v)
unfolding find_version
find_version-range n v [] cv h e = absurd (cc e)
find_version-range n v (w ∷ vs) cv (p, h) e = elim (Bool-cases (eqb w.version v)) [
  | inl hit ↦
      let q : w.version ≡ v = (eqb_iff w.version v).0 hit in
      let same : w ≡ cv = some-eq (rw hit at e) in
      (omega arith, omega arith, ap (λ (x : ConfigVersion). x.version) (sym same) ∙ q)
  | inr miss ↦
      let (low, high, q) = find_version-range (suc n) v vs cv h (rw miss at e) in
      (omega arith, omega arith, q)
]

pub find_version-retained :
    (n v : ℕ) (vs : List ConfigVersion)
    → Numbered n vs
    → n < v
    → v ≤ n + length vs
    → (cv : ConfigVersion) × (find_version v vs ≡ some cv)
unfolding find_version
find_version-retained n v [] h low high = absurd (ground arith)
find_version-retained n v (w ∷ vs) (p, h) low high = elim (Bool-cases (eqb w.version v)) [
  | inl hit ↦ (w, rw (hit))
  | inr miss ↦
      let q : w.version ≢ v = λ e. cc ((eqb_iff w.version v).1 e, miss) in
      let (cv, found) = find_version-retained (suc n) v vs h (omega arith) (omega arith) in
      (cv, rw (miss, found))
]

-- What every operation keeps: the policies stand under their ids and the history is in order.
pub record IsValid (s : Store) : Type 0 where
  pub own_ids : OwnIds s.policies
  pub history : IsHistory s.versions s.version

pub new_store-IsValid : IsValid new_store
unfolding new_store
new_store-IsValid = record {
  own_ids = λ id p e. absurd (cc (e, get-empty id));
  history = record { start = 0; counted = refl; size = refl; numbered = tt };
}

Step-IsValid : (rt : Runtime) (s t : Store) → Step rt s t → IsValid s → IsValid t
unfolding commit
Step-IsValid rt s t (quiet _ p v n) h = record {
  own_ids = subst OwnIds (sym p) h.own_ids;
  history =
      subst (λ (m : ℕ). IsHistory t.versions m) (sym n)
        (subst (λ vs. IsHistory vs s.version) (sym v) h.history);
}
Step-IsValid rt s _ (commits m now author message change_type policy_id own) h = record {
  own_ids = own;
  history = commit-IsHistory s.versions s.version _ h.history refl;
}

pub run-IsValid : (rt : Runtime) (op : Operation) (s : Store) → IsValid s → IsValid (run rt op s)
run-IsValid rt op s h = Step-IsValid rt s (run rt op s) (run-Step rt s op h.own_ids) h

run_all-IsValid :
    (rt : Runtime) (ops : List Operation) (s : Store) → IsValid s → IsValid (run_all rt ops s)
unfolding run_all
run_all-IsValid rt [] s h = h
run_all-IsValid rt (op ∷ ops) s h = run_all-IsValid rt ops (run rt op s) (run-IsValid rt op s h)

-- After any sequence of operations on a new store, every policy stands under its own id and the
-- history holds the last ten versions, fewer before the tenth, numbered consecutively up to the
-- current one.
pub reachable-IsValid : (rt : Runtime) (ops : List Operation) → IsValid (run_all rt ops new_store)
reachable-IsValid rt ops = run_all-IsValid rt ops new_store new_store-IsValid

-- After any sequence of operations on a new store, GetVersion finds a number exactly when it is
-- that of one of the last ten versions.
pub get_version-retained :
    (rt : Runtime) (ops : List Operation) (v : ℕ)
    → ((cv : ConfigVersion) × (get_version v (run_all rt ops new_store) ≡ some cv)) ↔ (
        (1 ≤ v)
        × (v ≤ (run_all rt ops new_store).version)
        × ((run_all rt ops new_store).version < v + 10))
unfolding get_version
get_version-retained rt ops v =
    let s = run_all rt ops new_store in
    let h = (reachable-IsValid rt ops).history in
    let c = h.counted in
    let z = h.size in
    (
      λ (cv, e).
          let (low, high, q) = find_version-range h.start v s.versions cv h.numbered e in
          (omega arith, omega arith, omega arith),
      λ (one, low, high).
          find_version-retained h.start v s.versions h.numbered (omega arith) (omega arith),
    )
