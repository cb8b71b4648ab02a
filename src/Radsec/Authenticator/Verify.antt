-- ===== src/Radsec/Authenticator/Verify.antt =====
-- What `verifyMessageAuthenticator` decides, and that it accepts what `finalize` seals.
use apexaegis_management_pla.Prelude.{
  ℕ, ◌+◌, ◌%◌, false, ◌<◌, ◌≡◌, refl, sym, ap, ◌∙◌, ◌≢◌, List, [], ◌∷◌, ◌++◌, arith, length, drop,
  length-append, take-append, drop-append, take_all, drop_all, append_assoc, All, ltb, be16, some,
  true, drop-drop, bytes_beq, bytes_beq_iff, if◌then◌else◌, append-nil,
}
use apexaegis_management_pla.Radsec.Radius.{
  Attribute, Packet, encode_attributes, total_length, encode, message_authenticator,
}
use apexaegis_management_pla.Radsec.Radius.RoundTrip.{length-encode_attributes}
use apexaegis_management_pla.Radsec.Authenticator.{
  Digest, radsec_secret, zeros, copy, has_authenticator, set_authenticators, Verdict, accepted,
  refused, panics, find_value, seal, finalized, check_at, verify_message_authenticator,
}

abbrev pub authenticator_of : List ℕ → Attribute
authenticator_of v = record { type = message_authenticator; value = v }

abbrev pub IsOther : Attribute → Type 0
IsOther a = a.type ≢ message_authenticator

total_length-append :
    (xs ys : List Attribute) → total_length (xs ++ ys) ≡ total_length xs + total_length ys
unfolding total_length
total_length-append [] ys = omega arith
total_length-append (a ∷ xs) ys = omega (arith, total_length-append xs ys)

encode_attributes-append :
    (xs ys : List Attribute)
    → encode_attributes (xs ++ ys) ≡ encode_attributes xs ++ encode_attributes ys
unfolding encode_attributes
encode_attributes-append [] ys = refl
encode_attributes-append (a ∷ xs) ys =
    rw (encode_attributes-append xs ys, append_assoc a.value (encode_attributes xs))

find_value-append :
    (off : ℕ) (front back : List Attribute) (v : List ℕ)
    → All IsOther front
    → find_value off (front ++ (authenticator_of v ∷ back)) ≡ some (off + total_length front + 2)
unfolding find_value total_length
find_value-append off [] back v h = ap some (omega arith)
find_value-append off (a ∷ front) back v (h, hs) =
    ground (arith, find_value-append (off + (2 + length a.value)) front back v hs)

-- A packet with one Message-Authenticator between two lists of other attributes.
abbrev pub around : Packet → List Attribute → List Attribute → List ℕ → Packet
around p front back v = record p { attributes = front ++ (authenticator_of v ∷ back) }

-- The bytes in front of the Message-Authenticator's value.
before : Packet → List Attribute → List Attribute → List ℕ
before p front back =
    p.code
    ∷ p.identifier
    ∷ (be16 (20 + (total_length front + (18 + total_length back)))
        ++ (p.authenticator ++ (encode_attributes front ++ (message_authenticator ∷ 18 ∷ []))))

encode_attributes-cons :
    (v : List ℕ) (back : List Attribute)
    → encode_attributes (authenticator_of v ∷ back)
      ≡ message_authenticator ∷ ((2 + length v) % 256) ∷ (v ++ encode_attributes back)
unfolding encode_attributes
encode_attributes-cons v back = refl

total_length-cons :
    (v : List ℕ) (back : List Attribute)
    → length v ≡ 16
    → total_length (authenticator_of v ∷ back) ≡ 18 + total_length back
unfolding total_length
total_length-cons v back h = omega arith

encode-around :
    (p : Packet) (front back : List Attribute) (v : List ℕ)
    → length v ≡ 16
    → encode (around p front back v) ≡ before p front back ++ (v ++ encode_attributes back)
unfolding encode before
encode-around p front back v h =
    let alen : (2 + length v) % 256 ≡ 18 = omega arith in
    let size : total_length (front ++ (authenticator_of v ∷ back))
        ≡ total_length front + (18 + total_length back) =
      total_length-append front (authenticator_of v ∷ back)
      ∙ omega (arith, total_length-cons v back h) in
    rw (size, encode_attributes-append front (authenticator_of v ∷ back))
      (rw (encode_attributes-cons v back, alen) (simp append_assoc))

length-before :
    (p : Packet) (front back : List Attribute)
    → length p.authenticator ≡ 16
    → length (before p front back) ≡ 20 + total_length front + 2
unfolding before
length-before p front back h = omega (
  arith,
  h,
  length-append p.authenticator (encode_attributes front ++ (message_authenticator ∷ 18 ∷ [])),
  length-append (encode_attributes front) (message_authenticator ∷ 18 ∷ []),
  length-encode_attributes front,
)

abbrev pub verdict : Digest → List ℕ → List ℕ → Verdict
verdict d message v = if bytes_beq (d.hmac_md5 radsec_secret message) v then accepted else refused

check_at-around :
    (d : Digest) (l v r : List ℕ) (idx : ℕ)
    → length l ≡ idx
    → length v ≡ 16
    → check_at d idx (l ++ (v ++ r)) ≡ verdict d (l ++ (zeros ++ r)) v
unfolding check_at
check_at-around d l v r idx hl hv =
    let inside : ltb (length (l ++ (v ++ r))) (idx + 16) ≡ false =
      ground (arith, length-append l (v ++ r), length-append v r) in
    let behind : drop (idx + 16) (l ++ (v ++ r)) ≡ r =
      sym (drop-drop 16 idx (idx + 16) (l ++ (v ++ r)) refl)
      ∙ rw (drop-append idx l (v ++ r) hl) (drop-append 16 v r hv) in
    rw (
      inside,
      behind,
      take-append idx l (v ++ r) hl,
      drop-append idx l (v ++ r) hl,
      take-append 16 v r hv,
    )

verify_some :
    (d : Digest) (p : Packet) (raw : List ℕ) (idx : ℕ)
    → find_value 20 p.attributes ≡ some idx
    → verify_message_authenticator d p raw ≡ check_at d idx raw
unfolding verify_message_authenticator
verify_some d p raw idx e = rw (e, verify_message_authenticator)

-- On the encoding of a packet with one Message-Authenticator of 16 bytes, the check passes exactly
-- if those bytes are the HMAC of the encoding with zeros in their place.
pub verify_lem :
    (d : Digest) (p : Packet) (front back : List Attribute) (v : List ℕ)
    → length p.authenticator ≡ 16
    → All IsOther front
    → length v ≡ 16
    → verify_message_authenticator d (around p front back v) (encode (around p front back v))
      ≡ verdict d (encode (around p front back zeros)) v
verify_lem d p front back v ha hf hv =
    verify_some d (around p front back v) _ _ (find_value-append 20 front back v hf)
    ∙ rw (encode-around p front back v hv, encode-around p front back zeros refl)
        (check_at-around d (before p front back) v (encode_attributes back) _
          (length-before p front back ha) hv)

set_authenticators-others :
    (f : List ℕ → List ℕ) (l : List Attribute) → All IsOther l → set_authenticators f l ≡ l
unfolding set_authenticators
set_authenticators-others f [] h = refl
set_authenticators-others f (a ∷ l) (h, hs) = ground (arith, set_authenticators-others f l hs)

set_authenticators-around :
    (f : List ℕ → List ℕ) (front back : List Attribute) (v : List ℕ)
    → All IsOther front
    → All IsOther back
    → set_authenticators f (front ++ (authenticator_of v ∷ back))
      ≡ front ++ (authenticator_of (f v) ∷ back)
unfolding set_authenticators
set_authenticators-around f [] back v h k =
    ap (◌∷◌ (authenticator_of (f v))) (set_authenticators-others f back k)
set_authenticators-around f (a ∷ front) back v (h, hs) k =
    ground (arith, set_authenticators-around f front back v hs k)

has_authenticator-around :
    (front back : List Attribute) (v : List ℕ)
    → has_authenticator (front ++ (authenticator_of v ∷ back)) ≡ true
unfolding has_authenticator
has_authenticator-around [] back v = refl
has_authenticator-around (a ∷ front) back v = ground (arith, has_authenticator-around front back v)

-- The HMAC that `finalize` puts into a packet.
abbrev sealing : Digest → Packet → List ℕ → List Attribute → List Attribute → List ℕ
sealing d p request_auth front back = copy zeros (
    d.hmac_md5 radsec_secret
      (encode (around (record p { authenticator = request_auth }) front back zeros)))

seal-around :
    (d : Digest) (p : Packet) (front back : List Attribute) (v : List ℕ)
    → All IsOther front
    → All IsOther back
    → seal d (around p front back v)
      ≡ around p front back
          (copy zeros (d.hmac_md5 radsec_secret (encode (around p front back zeros))))
unfolding seal
seal-around d p front back v hf hb =
    rw
      (
        has_authenticator-around front back v,
        set_authenticators-around (λ _. zeros) front back v hf hb,
      )
      (rw
        (set_authenticators-around
          (λ u. copy u (d.hmac_md5 radsec_secret (encode (around p front back zeros)))) front back
          zeros hf hb)
        refl)

copy_full : (dst src : List ℕ) → length dst ≡ 16 → length src ≡ 16 → copy dst src ≡ src
copy_full dst src h k =
    rw (h, k, take_all 16 src (omega arith), drop_all 16 dst (omega arith)) (append-nil src)

-- A response with one Message-Authenticator that `finalize` has sealed passes the peer's check,
-- which reads it under the authenticator of the request (RFC 3579).
pub verify-finalized :
    (d : Digest) (p : Packet) (request_auth : List ℕ) (front back : List Attribute) (v : List ℕ)
    → length request_auth ≡ 16
    → All IsOther front
    → All IsOther back
    → let q = record (finalized d (around p front back v) request_auth) {
      authenticator = request_auth;
    } in
      verify_message_authenticator d q (encode q) ≡ accepted
unfolding finalized
verify-finalized d p request_auth front back v hr hf hb =
    let q : Packet = record p { authenticator = request_auth } in
    let sum : List ℕ = d.hmac_md5 radsec_secret (encode (around q front back zeros)) in
    rw (seal-around d q front back v hf hb, copy_full zeros sum refl (d.hmac_size _ _))
      (verify_lem d q front back sum hr hf (d.hmac_size _ _) ∙ rw ((bytes_beq_iff sum sum).1 refl))

check_at_past :
    (d : Digest) (idx : ℕ) (raw : List ℕ) → length raw < idx + 16 → check_at d idx raw ≡ panics
unfolding check_at
check_at_past d idx raw h = ground arith

length-encode_any :
    (p : Packet) → length p.authenticator ≡ 16 → length (encode p) ≡ 20 + total_length p.attributes
unfolding encode
length-encode_any p h = omega (
  arith,
  length-append p.authenticator (encode_attributes p.attributes),
  length-encode_attributes p.attributes,
)

total_length_last : (v : List ℕ) → total_length (authenticator_of v ∷ []) ≡ 2 + length v
unfolding total_length
total_length_last v = omega arith

-- The check panics on the encoding of every packet whose only Message-Authenticator is its last
-- attribute and has a value of less than 16 bytes.
pub verify_panics :
    (d : Digest) (p : Packet) (front : List Attribute) (v : List ℕ)
    → length p.authenticator ≡ 16
    → All IsOther front
    → length v < 16
    → let q = record p { attributes = front ++ (authenticator_of v ∷ []) } in
      verify_message_authenticator d q (encode q) ≡ panics
verify_panics d p front v ha hf hv =
    let q : Packet = around p front [] v in
    verify_some d q _ _ (find_value-append 20 front [] v hf)
    ∙ check_at_past d _ _ (
        omega (
          arith,
          length-encode_any q ha,
          total_length-append front (authenticator_of v ∷ []),
          total_length_last v,
        ))
