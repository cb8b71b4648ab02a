-- ===== src/Radsec/Eap/Messages.antt =====
-- EAP-Message attributes: what is added is what is collected.
use apexaegis_management_pla.Prelude.{
  ℕ, zero, suc, ◌≤◌, ◌≡◌, refl, sym, ap, ◌∙◌, List, [], ◌∷◌, ◌++◌, arith, min, length, take, drop,
  take-append-drop, length-take, length-drop, append-nil, append_assoc, All, All-append,
}
use apexaegis_management_pla.Radsec.Radius.{
  Attribute, Packet, add, all_values, all_in, eap_message, FitsAttribute,
}
use apexaegis_management_pla.Radsec.Eap.{flatten, collect_eap_message, add_chunks, add_eap_message}

all_in-append : (t : ℕ) (xs ys : List Attribute) → all_in t (xs ++ ys) ≡ all_in t xs ++ all_in t ys
unfolding all_in
all_in-append t [] ys = refl
all_in-append t (a ∷ xs) ys = ground (arith, all_in-append t xs ys)

flatten-append : (xs ys : List (List ℕ)) → flatten (xs ++ ys) ≡ flatten xs ++ flatten ys
unfolding flatten
flatten-append [] ys = refl
flatten-append (v ∷ xs) ys = rw (flatten-append xs ys, append_assoc v (flatten xs) (flatten ys))

collect-add_one :
    (p : Packet) (v : List ℕ)
    → collect_eap_message (add p eap_message v) ≡ collect_eap_message p ++ v
unfolding collect_eap_message all_values add flatten all_in
collect-add_one p v =
    rw all_in-append
      (rw flatten-append (ap (◌++◌ (flatten (all_in eap_message p.attributes))) (append-nil v)))

collect-add_chunks :
    (fuel : ℕ) (p : Packet) (eap : List ℕ)
    → length eap ≤ fuel
    → collect_eap_message (add_chunks fuel p eap) ≡ collect_eap_message p ++ eap
unfolding add_chunks
collect-add_chunks fuel p [] h = sym (append-nil _)
collect-add_chunks zero p (x ∷ eap) h = absurd (omega arith)
collect-add_chunks (suc fuel) p (x ∷ eap) h =
    let n : ℕ = min (suc (length eap)) 253 in
    collect-add_chunks fuel (add p eap_message (take n (x ∷ eap))) (drop n (x ∷ eap))
      (omega (arith, length-drop n (x ∷ eap)))
    ∙ rw (collect-add_one p (take n (x ∷ eap))) (
        append_assoc (collect_eap_message p) (take n (x ∷ eap)) (drop n (x ∷ eap))
        ∙ ap (◌++◌ (collect_eap_message p)) (take-append-drop n (x ∷ eap)))

-- What addEAPMessage splits over several attributes, collectEAPMessage reads back in one piece,
-- behind the EAP-Message that the packet had.
pub collect-add_eap_message :
    (p : Packet) (eap : List ℕ)
    → collect_eap_message (add_eap_message p eap) ≡ collect_eap_message p ++ eap
unfolding add_eap_message
collect-add_eap_message p eap = collect-add_chunks (length eap) p eap (omega arith)

add-FitsAttribute :
    (p : Packet) (t : ℕ) (v : List ℕ)
    → All FitsAttribute p.attributes
    → length v ≤ 253
    → All FitsAttribute (add p t v).attributes
unfolding add
add-FitsAttribute p t v h k = All-append FitsAttribute p.attributes _ h (k, tt)

add_chunks-FitsAttribute :
    (fuel : ℕ) (p : Packet) (eap : List ℕ)
    → All FitsAttribute p.attributes
    → All FitsAttribute (add_chunks fuel p eap).attributes
unfolding add_chunks
add_chunks-FitsAttribute fuel p [] h = h
add_chunks-FitsAttribute zero p (x ∷ eap) h = h
add_chunks-FitsAttribute (suc fuel) p (x ∷ eap) h =
    let n : ℕ = min (suc (length eap)) 253 in
    add_chunks-FitsAttribute fuel (add p eap_message (take n (x ∷ eap))) (drop n (x ∷ eap)) (
      add-FitsAttribute p eap_message (take n (x ∷ eap)) h (omega (arith, length-take n (x ∷ eap))))

-- No attribute that addEAPMessage adds is longer than the wire format allows.
pub add_eap_message-FitsAttribute :
    (p : Packet) (eap : List ℕ)
    → All FitsAttribute p.attributes
    → All FitsAttribute (add_eap_message p eap).attributes
unfolding add_eap_message
add_eap_message-FitsAttribute p eap h = add_chunks-FitsAttribute (length eap) p eap h
