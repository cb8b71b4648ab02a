-- ===== src/Radsec/Radius/RoundTrip.antt =====
-- Encoding and parsing of RADIUS packets are inverse to one another.
use apexaegis_management_pla.Prelude.{
  ℕ, zero, suc, ◌+◌, ◌%◌, false, ◌-◌, ◌≤◌, ◌≡◌, refl, sym, ◌∙◌, ap, List, [], ◌∷◌, ◌++◌, arith,
  length, take, drop, length-append, take-append, drop-append, append_assoc, All, ltb, ◌||◌,
}
use apexaegis_management_pla.Radsec.Radius.{
  Attribute, Packet, ok, parse_attributes, parse_packet, encode_attributes, total_length, encode,
  IsPacket, FitsAttribute, declared_length, prepend, with_header,
}

pub length-encode_attributes : (l : List Attribute) → length (encode_attributes l) ≡ total_length l
unfolding encode_attributes total_length
length-encode_attributes [] = refl
length-encode_attributes (a ∷ rest) =
    omega (arith, length-append a.value (encode_attributes rest), length-encode_attributes rest)

pub drop-two : (n a b : ℕ) (l : List ℕ) → 2 ≤ n → drop n (a ∷ b ∷ l) ≡ drop (n - 2) l
drop-two zero a b l h = absurd (omega arith)
drop-two (suc zero) a b l h = absurd (omega arith)
drop-two (suc (suc n)) a b l h =
    let e : suc (suc n) - 2 ≡ n = omega arith in ap (λ k. drop k l) (sym e)

-- One round of the loop over an attribute whose length byte is right.
parse_attributes_step :
    (fuel i t : ℕ) (v rest : List ℕ)
    → length v ≤ 253
    → parse_attributes (suc fuel) i (t ∷ ((2 + length v) % 256) ∷ (v ++ rest))
      ≡ prepend (record { type = t; value = v }) (parse_attributes fuel (i + (2 + length v)) rest)
unfolding parse_attributes
parse_attributes_step fuel i t v rest h =
    let alen : (2 + length v) % 256 ≡ 2 + length v = omega arith in
    let size : 2 + length v - 2 ≡ length v = omega arith in
    let fits : (ltb (2 + length v) 2 || ltb (length (v ++ rest) + 2) (2 + length v)) ≡ false =
      ground (arith, length-append v rest) in
    let next : drop (2 + length v) (t ∷ (2 + length v) ∷ (v ++ rest)) ≡ rest =
      drop-two (2 + length v) t (2 + length v) (v ++ rest) (omega arith)
      ∙ ap (λ k. drop k (v ++ rest)) size
      ∙ drop-append (length v) v rest refl in
    rw (alen, fits, size, take-append (length v) v rest refl, next)

parse-encode_attributes :
    (fuel i : ℕ) (l : List Attribute)
    → All FitsAttribute l
    → total_length l ≤ fuel
    → parse_attributes fuel i (encode_attributes l) ≡ ok l
unfolding encode_attributes total_length
parse-encode_attributes fuel i [] h f = unfold parse_attributes in refl
parse-encode_attributes zero i (a ∷ rest) h f = absurd (omega arith)
parse-encode_attributes (suc fuel) i (a ∷ rest) (h, hs) f = rw (
  parse_attributes_step fuel i a.type a.value (encode_attributes rest) h,
  parse-encode_attributes fuel (i + (2 + length a.value)) rest hs (omega arith),
)

length-encode : (p : Packet) → IsPacket p → length (encode p) ≡ 20 + total_length p.attributes
unfolding encode
length-encode p w = omega (
  arith,
  w.full_authenticator,
  length-append p.authenticator (encode_attributes p.attributes),
  length-encode_attributes p.attributes,
)

declared-encode :
    (p : Packet) (more : List ℕ)
    → IsPacket p
    → declared_length (encode p ++ more) ≡ 20 + total_length p.attributes
unfolding encode
declared-encode p more w = omega (arith, w.bounded)

-- What parsePacket does once its guards have passed.
pub parse_packet_body :
    (b : List ℕ) (n : ℕ)
    → declared_length b ≡ n
    → 20 ≤ n
    → n ≤ length b
    → parse_packet b ≡ with_header b (parse_attributes (length b) 20 (drop 20 (take n b)))
unfolding parse_packet
parse_packet_body b n e lo hi =
    let long : ltb (length b) 20 ≡ false = ground arith in
    let fits : (ltb n 20 || ltb (length b) n) ≡ false = ground arith in rw (long, e, fits)

drop-encode : (p : Packet) → IsPacket p → drop 20 (encode p) ≡ encode_attributes p.attributes
unfolding encode
drop-encode p w = drop-append 16 p.authenticator _ w.full_authenticator

header-encode :
    (p : Packet) (more : List ℕ)
    → IsPacket p
    → with_header (encode p ++ more) (ok p.attributes) ≡ ok p
unfolding encode
header-encode p more w = rw (append_assoc p.authenticator (encode_attributes p.attributes) more) (
    ap (λ a. ok (record p { authenticator = a }))
      (take-append 16 p.authenticator _ w.full_authenticator))

-- Parsing what `encode` wrote gives the packet back, whatever follows it in the buffer, if the
-- authenticator has 16 bytes, no value is longer than 253 bytes and the whole fits 16 bits.
pub parse-encode :
    (p : Packet) (more : List ℕ) → IsPacket p → parse_packet (encode p ++ more) ≡ ok p
parse-encode p more w =
    let size = length-encode p w in
    let total = length-append (encode p) more in
    rw
      (
        parse_packet_body (encode p ++ more) _ (declared-encode p more w) (omega arith)
            (omega (arith, size, total)),
        take-append (20 + total_length p.attributes) (encode p) more size,
        drop-encode p w,
        parse-encode_attributes (length (encode p ++ more)) 20 p.attributes w.fitting
            (omega (arith, size, total)),
      )
      (header-encode p more w)
