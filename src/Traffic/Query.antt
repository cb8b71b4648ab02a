-- ===== src/Traffic/Query.antt =====
-- Query of internal/trafficlog/store.go against a reference: filter the log backwards, then cut.
use apexaegis_management_pla.Prelude.{
  zero, suc, ◌≡◌, refl, sym, ap, ◌∙◌, true, false, List, [], ◌∷◌, ◌++◌, length, take, length-append,
  take-append, take_all, append-nil, append_assoc, if◌then◌else◌, arith, Bool-cases, inl, inr,
}
use apexaegis_management_pla.Prelude.Int.{ℤ, pos, negsuc}
use apexaegis_management_pla.Traffic.{Entry, Store, Filter, matches_filter, is_full, scan, query}
use mathlib.Core.List.{reverse}

unfoldable pub selected : Filter → List Entry → List Entry
selected f [] = []
selected f (e ∷ rest) =
    let others = selected f rest in if matches_filter e f then e ∷ others else others

-- A limit of zero or less is none.
abbrev pub limited : ℤ → List Entry → List Entry
limited (pos zero) l = l
limited (pos (suc n)) l = take (suc n) l
limited (negsuc k) l = l

limited_room : (limit : ℤ) (l : List Entry) → is_full limit (length l) ≡ false → limited limit l ≡ l
limited_room (pos zero) l h = refl
limited_room (pos (suc n)) l h = take_all (suc n) l (ground arith)
limited_room (negsuc k) l h = refl

limited_full :
    (limit : ℤ) (l : List Entry) (e : Entry) (rest : List Entry)
    → is_full limit (length l) ≡ false
    → is_full limit (length (l ++ (e ∷ []))) ≡ true
    → limited limit ((l ++ (e ∷ [])) ++ rest) ≡ l ++ (e ∷ [])
limited_full (pos zero) l e rest room full = absurd (ground arith)
limited_full (pos (suc n)) l e rest room full =
    let len = length-append l (e ∷ []) in take-append (suc n) (l ++ (e ∷ [])) rest (ground arith)
limited_full (negsuc k) l e rest room full = absurd (ground arith)

scan_lem :
    (f : Filter) (l r : List Entry)
    → is_full f.limit (length r) ≡ false
    → scan f l r ≡ limited f.limit (r ++ selected f l)
unfolding scan selected
scan_lem f [] r room = sym (ap (limited f.limit) (append-nil r) ∙ limited_room f.limit r room)
scan_lem f (e ∷ l) r room = elim (Bool-cases (matches_filter e f)) [
  | inl hit ↦ elim (Bool-cases (is_full f.limit (length (r ++ (e ∷ []))))) [
    | inl full ↦
        rw (hit, full)
          (sym (
            ap (limited f.limit) (sym (append_assoc r (e ∷ []) (selected f l)))
            ∙ limited_full f.limit r e (selected f l) room full))
    | inr more ↦
        rw (hit, more)
          (scan_lem f l (r ++ (e ∷ [])) more
            ∙ ap (limited f.limit) (append_assoc r (e ∷ []) (selected f l)))
  ]
  | inr miss ↦ rw miss (scan_lem f l r room)
]

empty_room : (limit : ℤ) → is_full limit 0 ≡ false
empty_room (pos zero) = refl
empty_room (pos (suc n)) = ground arith
empty_room (negsuc k) = refl

-- Query returns the entries that match, the newest first, cut after the limit if that is positive.
pub query_lem :
    (s : Store) (f : Filter) → query s f ≡ limited f.limit (selected f (reverse s.entries))
unfolding query
query_lem s f = scan_lem f (reverse s.entries) [] (empty_room f.limit)
