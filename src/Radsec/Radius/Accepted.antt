-- ===== src/Radsec/Radius/Accepted.antt =====
-- What parsePacket accepts: it never reads past its input, and it loses no byte of the packet.
use apexaegis_management_pla.Prelude.{
  ℕ, zero, suc, ◌+◌, ◌-◌, ◌%◌, ◌/◌, ◌≤◌, ◌≡◌, refl, sym, subst, take-drop-take, drop-drop, ◌≢◌,
  List, [], ◌∷◌, ◌++◌, arith, length, take, drop, length-take, length-drop, take-append-drop, All,
  IsByte, get_or-IsByte, inl, inr, Bool-cases, ltb, ◌||◌, All-drop, All-take, be16, get_or,
}
use apexaegis_management_pla.Radsec.Radius.{
  Attribute, Packet, Parsed, ok, err, stuck, parse_attributes, parse_packet, encode_attributes,
  total_length, encode, IsPacket, FitsAttribute, declared_length, prepend, with_header,
}
use apexaegis_management_pla.Radsec.Radius.RoundTrip.{length-encode_attributes, drop-two}

prepend-eq-ok :
    (a : Attribute) (r : Parsed (List Attribute)) {l : List Attribute}
    → prepend a r ≡ ok l
    → (l' : List Attribute) × (r ≡ ok l') × (l ≡ a ∷ l')
prepend-eq-ok a (ok l') e = (l', refl, cc)
prepend-eq-ok a (err x) e = cc

-- What one accepted round of the loop says.
record Accepted (fuel i t alen : ℕ) (rest : List ℕ) (l : List Attribute) : Type 0 where
  tail : List Attribute
  long : 2 ≤ alen
  fits : alen ≤ length rest + 2
  split : l ≡ record { type = t; value = take (alen - 2) rest } ∷ tail
  parsed : parse_attributes fuel (i + alen) (drop (alen - 2) rest) ≡ ok tail

parse_attributes-Accepted :
    (fuel i t alen : ℕ) (rest : List ℕ) (l : List Attribute)
    → parse_attributes (suc fuel) i (t ∷ alen ∷ rest) ≡ ok l
    → Accepted fuel i t alen rest l
unfolding parse_attributes
parse_attributes-Accepted fuel i t alen rest l e =
    elim (Bool-cases (ltb alen 2 || ltb (length rest + 2) alen)) [
      | inl bad ↦ absurd (cc (rw bad at e))
      | inr good ↦
          let (tail, parsed, split) = prepend-eq-ok _ _ (rw good at e) in
          record {
            tail = tail;
            long = ground arith;
            fits = ground arith;
            split = split;
            parsed = rw (← drop-two alen t alen rest (ground arith)) parsed;
          }
    ]

encode-parse_attributes :
    (fuel i : ℕ) (b : List ℕ) (l : List Attribute)
    → All IsByte b
    → parse_attributes fuel i b ≡ ok l
    → encode_attributes l ≡ b
unfolding encode_attributes
encode-parse_attributes fuel i [] l h e = unfold parse_attributes in ground arith
encode-parse_attributes zero i (t ∷ rest) l h e = unfold parse_attributes in cc
encode-parse_attributes (suc fuel) i (t ∷ []) l h e = unfold parse_attributes in cc
encode-parse_attributes (suc fuel) i (t ∷ alen ∷ rest) l (ht, (ha, hr)) e =
    let a = parse_attributes-Accepted fuel i t alen rest l e in
    let size : (2 + length (take (alen - 2) rest)) % 256 ≡ alen =
      omega (arith, length-take (alen - 2) rest, a.long, a.fits) in
    let ih =
      encode-parse_attributes fuel (i + alen) (drop (alen - 2) rest) a.tail
        (All-drop IsByte (alen - 2) rest hr) a.parsed in
    rw (a.split, size, ih, take-append-drop (alen - 2) rest)

parse_attributes-FitsAttribute :
    (fuel i : ℕ) (b : List ℕ) (l : List Attribute)
    → All IsByte b
    → parse_attributes fuel i b ≡ ok l
    → All FitsAttribute l
parse_attributes-FitsAttribute fuel i [] l h e = unfold parse_attributes in ground arith
parse_attributes-FitsAttribute zero i (t ∷ rest) l h e = unfold parse_attributes in cc
parse_attributes-FitsAttribute (suc fuel) i (t ∷ []) l h e = unfold parse_attributes in cc
parse_attributes-FitsAttribute (suc fuel) i (t ∷ alen ∷ rest) l (ht, (ha, hr)) e =
    let a = parse_attributes-Accepted fuel i t alen rest l e in
    rw a.split (
      omega (arith, length-take (alen - 2) rest),
      parse_attributes-FitsAttribute fuel (i + alen) (drop (alen - 2) rest) a.tail
          (All-drop IsByte (alen - 2) rest hr) a.parsed,
    )

-- What one accepted packet says of its input.
record AcceptedPacket (b : List ℕ) (p : Packet) : Type 0 where
  low : 20 ≤ declared_length b
  high : declared_length b ≤ length b
  attributes : List Attribute
  parsed : parse_attributes (length b) 20 (drop 20 (take (declared_length b) b)) ≡ ok attributes
  header : with_header b (ok attributes) ≡ ok p

with_header-eq-ok :
    (b : List ℕ) (r : Parsed (List Attribute)) (p : Packet)
    → with_header b r ≡ ok p
    → (l : List Attribute) × (r ≡ ok l) × (with_header b (ok l) ≡ ok p)
with_header-eq-ok b (ok l) p e = (l, refl, e)
with_header-eq-ok b (err x) p e = cc

parse_packet-AcceptedPacket : (b : List ℕ) (p : Packet) → parse_packet b ≡ ok p → AcceptedPacket b p
unfolding parse_packet
parse_packet-AcceptedPacket b p e = elim (Bool-cases (ltb (length b) 20)) [
  | inl short ↦ absurd (cc (rw short at e))
  | inr long ↦
      elim (Bool-cases (ltb (declared_length b) 20 || ltb (length b) (declared_length b))) [
        | inl bad ↦ absurd (cc (rw (long, bad) at e))
        | inr good ↦
            let (l, parsed, header) = with_header-eq-ok b _ p (rw (long, good) at e) in
            record {
              low = ground arith;
              high = ground arith;
              attributes = l;
              parsed = parsed;
              header = header;
            }
      ]
]

accepted_total :
    (b : List ℕ) (p : Packet) (a : AcceptedPacket b p)
    → All IsByte b
    → 20 + total_length a.attributes ≡ declared_length b
accepted_total b p a h =
    let n = declared_length b in
    let size = length-encode_attributes a.attributes in
    let same =
      encode-parse_attributes (length b) 20 (drop 20 (take n b)) a.attributes
        (All-drop IsByte 20 _ (All-take IsByte n b h)) a.parsed in
    omega (arith, rw same at size, length-drop 20 (take n b), length-take n b, a.low, a.high)

-- The four bytes in front of the authenticator.
take_header :
    (b : List ℕ) (n : ℕ)
    → All IsByte b
    → declared_length b ≡ n
    → 20 ≤ n
    → n ≤ length b
    → get_or b 0 0 ∷ get_or b 1 0 ∷ (be16 n ++ drop 4 (take n b)) ≡ take n b
take_header [] n h e lo hi = absurd (omega arith)
take_header (b0 ∷ []) n h e lo hi = absurd (omega arith)
take_header (b0 ∷ b1 ∷ []) n h e lo hi = absurd (omega arith)
take_header (b0 ∷ b1 ∷ b2 ∷ []) n h e lo hi = absurd (omega arith)
take_header (b0 ∷ b1 ∷ b2 ∷ b3 ∷ rest) n (h0, (h1, (h2, (h3, hs)))) e lo hi =
    let m : n ≡ suc (suc (suc (suc (n - 4)))) = omega arith in
    let high : n / 256 % 256 ≡ b2 = omega arith in
    let low : n % 256 ≡ b3 = omega arith in
    rw (high, low)
      (subst
        (λ k.
          b0 ∷ b1 ∷ b2 ∷ b3 ∷ drop 4 (take k (b0 ∷ b1 ∷ b2 ∷ b3 ∷ rest))
          ≡ take k (b0 ∷ b1 ∷ b2 ∷ b3 ∷ rest))
        (sym m) refl)

-- Behind the first four bytes: the authenticator and the attributes.
take_body :
    (b : List ℕ) (n : ℕ) → 20 ≤ n → take 16 (drop 4 b) ++ drop 20 (take n b) ≡ drop 4 (take n b)
take_body b n lo =
    rw (← take-drop-take 16 4 n b (omega arith), ← drop-drop 16 4 20 (take n b) refl)
      (take-append-drop 16 (drop 4 (take n b)))

encoded : Parsed Packet → List ℕ
unfolding encode
encoded (ok p) = encode p
encoded (err x) = []

encode-AcceptedPacket :
    (b : List ℕ) (p : Packet) (a : AcceptedPacket b p)
    → All IsByte b
    → encode p ≡ take (declared_length b) b
unfolding encoded
encode-AcceptedPacket b p a h =
    let n = declared_length b in
    let same =
      encode-parse_attributes (length b) 20 (drop 20 (take n b)) a.attributes
        (All-drop IsByte 20 _ (All-take IsByte n b h)) a.parsed in
    subst (λ (r : Parsed Packet). encoded r ≡ take n b) a.header
      (rw (accepted_total b p a h, same, take_body b n a.low) (take_header b n h refl a.low a.high))

-- On bytes, a packet that parsePacket accepts is written by `encode` exactly as it stood in the
-- input: `encode` gives back the first `declared_length b` bytes.
pub encode-parse :
    (b : List ℕ) (p : Packet)
    → All IsByte b
    → parse_packet b ≡ ok p
    → encode p ≡ take (declared_length b) b
encode-parse b p h e = encode-AcceptedPacket b p (parse_packet-AcceptedPacket b p e) h

abbrev Holds : Parsed Packet → Type 0
Holds (ok p) = IsPacket p
Holds (err x) = Unit {0}

-- What parsePacket accepts of a byte string has a full authenticator, attribute values of at most
-- 253 bytes and a total length of 16 bits.
pub parse_packet-IsPacket :
    (b : List ℕ) (p : Packet) → All IsByte b → parse_packet b ≡ ok p → IsPacket p
parse_packet-IsPacket b p h e =
    let n = declared_length b in
    let a = parse_packet-AcceptedPacket b p e in
    subst Holds a.header (record {
      full_authenticator = omega (arith, length-take 16 (drop 4 b), length-drop 4 b, a.low, a.high);
      fitting =
          parse_attributes-FitsAttribute (length b) 20 (drop 20 (take n b)) a.attributes
            (All-drop IsByte 20 _ (All-take IsByte n b h)) a.parsed;
      bounded = omega (arith, accepted_total b p a h, get_or-IsByte b 2 h, get_or-IsByte b 3 h);
    })

prepend-eq-stuck :
    (a : Attribute) (r : Parsed (List Attribute)) → prepend a r ≡ err stuck → r ≡ err stuck
prepend-eq-stuck a (ok l) e = cc
prepend-eq-stuck a (err x) e = e

parse_attributes-ne-stuck :
    (fuel i : ℕ) (b : List ℕ) → length b ≤ fuel → parse_attributes fuel i b ≢ err stuck
unfolding parse_attributes
parse_attributes-ne-stuck fuel i [] f e = cc
parse_attributes-ne-stuck zero i (t ∷ rest) f e = absurd (omega arith)
parse_attributes-ne-stuck (suc fuel) i (t ∷ []) f e = cc
parse_attributes-ne-stuck (suc fuel) i (t ∷ alen ∷ rest) f e =
    elim (Bool-cases (ltb alen 2 || ltb (length rest + 2) alen)) [
      | inl bad ↦ cc (rw bad at e)
      | inr good ↦
          let long : 2 ≤ alen = ground arith in
          parse_attributes-ne-stuck fuel (i + alen) (drop alen (t ∷ alen ∷ rest))
            (omega (arith, length-drop alen (t ∷ alen ∷ rest)))
            (prepend-eq-stuck _ _ (rw good at e))
    ]

with_header-eq-stuck :
    (b : List ℕ) (r : Parsed (List Attribute)) → with_header b r ≡ err stuck → r ≡ err stuck
with_header-eq-stuck b (ok l) e = cc
with_header-eq-stuck b (err x) e = cc

-- parsePacket ends on every input: its loop over the attributes, which moves on by the length byte of
-- each, ends within as many rounds as the input has bytes.
pub parse_packet-ne-stuck : (b : List ℕ) → parse_packet b ≢ err stuck
unfolding parse_packet
parse_packet-ne-stuck b e = elim (Bool-cases (ltb (length b) 20)) [
  | inl short ↦ cc (rw short at e)
  | inr long ↦
      elim (Bool-cases (ltb (declared_length b) 20 || ltb (length b) (declared_length b))) [
        | inl bad ↦ cc (rw (long, bad) at e)
        | inr good ↦
            parse_attributes-ne-stuck (length b) 20 (drop 20 (take (declared_length b) b))
              (omega (
                arith,
                length-drop 20 (take (declared_length b) b),
                length-take (declared_length b) b,
              ))
              (with_header-eq-stuck b _ (rw (long, good) at e))
      ]
]
