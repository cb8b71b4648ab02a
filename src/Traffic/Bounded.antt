-- ===== src/Traffic/Bounded.antt =====
-- What the log of internal/trafficlog/store.go keeps of the entries that it is given.
use apexaegis_management_pla.Prelude.{
  ℕ, zero, suc, ◌+◌, ◌-◌, ◌≡◌, ◌≤◌, ◌<◌, refl, sym, ap, ◌⊎◌, inl, inr, ◌∙◌, String, List, [], ◌∷◌,
  ◌++◌, leb, length, drop, length-append, length-drop, drop-drop, append-nil, append_assoc,
  if_cases, option_cases, arith, string_eq, subst,
}
use apexaegis_management_pla.Dict
use apexaegis_management_pla.Traffic
use apexaegis_management_pla.Traffic.{
  Entry, Store, Order, new_store, stamped, trimmed, default_max_entries,
}

pub data Operation : Type 0 where
  ingest : ℕ → Entry → Operation
  subscribe : String → Operation
  unsubscribe : String → Operation

unfoldable pub run : Order → List Operation → Store → Store
run order [] s = s
run order (Operation.ingest now e ∷ ops) s = run order ops (Traffic.ingest order now e s)
run order (Operation.subscribe id ∷ ops) s = run order ops (Traffic.subscribe id s)
run order (Operation.unsubscribe id ∷ ops) s = run order ops (Traffic.unsubscribe id s)

-- The entries that the operations bring, in their order.
abbrev pub ingested : List Operation → List Entry
ingested [] = []
ingested (Operation.ingest now e ∷ ops) = stamped now e ∷ ingested ops
ingested (Operation.subscribe id ∷ ops) = ingested ops
ingested (Operation.unsubscribe id ∷ ops) = ingested ops

-- The log is the end of all entries, and all of them until it has been full.
pub record IsTail (all log : List Entry) : Type 0 where
  pub start : ℕ
  pub within : start ≤ length all
  pub rest : log ≡ drop start all
  pub bounded : length log ≤ default_max_entries
  pub complete : (start ≡ 0) ⊎ (default_max_entries < length all)

drop-append_short :
    (k : ℕ) (xs ys : List Entry) → k ≤ length xs → drop k (xs ++ ys) ≡ drop k xs ++ ys
drop-append_short zero xs ys h = refl
drop-append_short (suc k) [] ys h = absurd (ground arith)
drop-append_short (suc k) (x ∷ xs) ys h = drop-append_short k xs ys (omega arith)

ingest-IsTail :
    (all log : List Entry) (e : Entry)
    → IsTail all log
    → IsTail (all ++ (e ∷ [])) (trimmed default_max_entries log ++ (e ∷ []))
ingest-IsTail all log e t =
    let w = t.within in
    let b = t.bounded in
    let la = length-append all (e ∷ []) in
    let ll : length log ≡ length all - t.start = ap length t.rest ∙ length-drop t.start all in
    if_cases (λ (l : List Entry). IsTail (all ++ (e ∷ [])) (l ++ (e ∷ [])))
      (leb default_max_entries (length log)) (drop 10000 log) log
      (λ full.
        let k = t.start + 10000 in
        let lf : default_max_entries ≤ length log = ground arith in
        let cut = length-append (drop 10000 log) (e ∷ []) in
        let ld = length-drop 10000 log in
        record {
          start = k;
          within = omega arith;
          rest =
              ap (λ l. drop 10000 l ++ (e ∷ [])) t.rest
              ∙ ap (λ l. l ++ (e ∷ [])) (drop-drop 10000 t.start k all refl)
              ∙ sym (drop-append_short k all (e ∷ []) (omega arith));
          bounded = omega arith;
          complete = inr (omega arith);
        })
      (λ room.
        let lf : length log < default_max_entries = ground arith in
        let cut = length-append log (e ∷ []) in
        let c = t.complete in
        record {
          start = t.start;
          within = omega arith;
          rest = ap (λ l. l ++ (e ∷ [])) t.rest ∙ sym (drop-append_short t.start all (e ∷ []) w);
          bounded = omega arith;
          complete = elim c [ inl all_of_it ↦ inl all_of_it | inr more ↦ inr (omega arith) ];
        })

-- The part of the state that the theorem below is about.
abbrev HasTail : List Entry → Store → Type 0
HasTail all s = IsTail all s.entries × (s.max_entries ≡ default_max_entries)

run-HasTail :
    (order : Order) (ops : List Operation) (all : List Entry) (s : Store)
    → HasTail all s
    → HasTail (all ++ ingested ops) (run order ops s)
unfolding run Traffic.ingest Traffic.subscribe Traffic.unsubscribe
run-HasTail order [] all s h = rw (append-nil) h
run-HasTail order (Operation.ingest now e ∷ ops) all s (t, m) =
    subst (λ l. HasTail l (run order ops (Traffic.ingest order now e s)))
      (append_assoc all (stamped now e ∷ []) (ingested ops))
      (run-HasTail order ops (all ++ (stamped now e ∷ [])) (Traffic.ingest order now e s) (
        subst
            (λ max.
              IsTail (all ++ (stamped now e ∷ [])) (trimmed max s.entries ++ (stamped now e ∷ [])))
            (sym m) (ingest-IsTail all s.entries (stamped now e) t),
        m,
      ))
run-HasTail order (Operation.subscribe id ∷ ops) all s h =
    run-HasTail order ops all (Traffic.subscribe id s) h
run-HasTail order (Operation.unsubscribe id ∷ ops) all s h =
    run-HasTail order ops all (Traffic.unsubscribe id s)
      (option_cases (HasTail all) (Dict.get id s.subs) _ _ (λ _. h) (λ q _. h))

-- After any operations on a new log it holds at most 100000 entries, which are the last ones that it
-- was given, in their order, and all of them if there were no more than that.
pub run-IsTail :
    (order : Order) (ops : List Operation) → IsTail (ingested ops) (run order ops new_store).entries
unfolding new_store
run-IsTail order ops =
    (run-HasTail order ops [] new_store (
      record {
        start = 0;
        within = omega arith;
        rest = refl;
        bounded = omega arith;
        complete = inl refl;
      },
      refl,
    )).0
