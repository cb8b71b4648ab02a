-- ===== src/Radsec/Radius.antt =====
-- RADIUS packets: internal/radsec/radius.go. A byte slice is a list of numbers.
pub mod RoundTrip
pub mod Accepted
use apexaegis_management_pla.Prelude.{
  ℕ, zero, suc, ◌+◌, ◌-◌, ◌*◌, ◌/◌, ◌%◌, ◌<◌, ◌≤◌, ◌≡◌, Bool, true, false, ◌||◌, List, [], ◌∷◌,
  ◌++◌, Option, none, some, ltb, eqb, if◌then◌else◌, length, take, drop, get_or, replicate, be16,
  u16, IsByte, All,
}

pub record Attribute : Type 0 where
  pub type : ℕ
  pub value : List ℕ

-- The 16 bytes of the authenticator are a list; `IsPacket` says that there are 16.
pub record Packet : Type 0 where
  pub code : ℕ
  pub identifier : ℕ
  pub authenticator : List ℕ
  pub attributes : List Attribute

abbrev pub access_request : ℕ
access_request = 1

abbrev pub access_accept : ℕ
access_accept = 2

abbrev pub access_reject : ℕ
access_reject = 3

abbrev pub access_challenge : ℕ
access_challenge = 11

abbrev pub eap_message : ℕ
eap_message = 79

abbrev pub message_authenticator : ℕ
message_authenticator = 80

-- `stuck` is no Go value: the loop over the attributes ran out of fuel.
pub data ParseError : Type 0 where
  short_packet : ParseError
  bad_length : ℕ → ℕ → ParseError
  bad_attribute : ℕ → ℕ → ParseError
  stuck : ParseError

pub data Parsed {ℓ} (A : Type ℓ) : Type ℓ where
  ok : A → Parsed A
  err : ParseError → Parsed A

abbrev pub prepend : Attribute → Parsed (List Attribute) → Parsed (List Attribute)
prepend a (ok rest) = ok (a ∷ rest)
prepend a (err e) = err e

-- The loop of parsePacket at index `i`; the list is `b[i:length]`, which `i += alen` shortens by `alen`.
unfoldable pub parse_attributes : ℕ → ℕ → List ℕ → Parsed (List Attribute)
parse_attributes fuel i [] = ok []
parse_attributes zero i (t ∷ rest) = err stuck
parse_attributes (suc fuel) i (t ∷ []) = err short_packet
parse_attributes (suc fuel) i (t ∷ alen ∷ rest) =
    let more = parse_attributes fuel (i + alen) (drop alen (t ∷ alen ∷ rest)) in
    if ltb alen 2 || ltb (length rest + 2) alen
    then err (bad_attribute alen i)
    else prepend (record { type = t; value = take (alen - 2) rest }) more

abbrev with_header : List ℕ → Parsed (List Attribute) → Parsed Packet
with_header b (ok attributes) = ok (record {
  code = get_or b 0 0;
  identifier = get_or b 1 0;
  authenticator = take 16 (drop 4 b);
  attributes = attributes;
})
with_header b (err e) = err e

abbrev pub declared_length : List ℕ → ℕ
declared_length b = u16 (get_or b 2 0) (get_or b 3 0)

-- An attribute that the guard lets pass takes two bytes at least, so `length b` rounds are enough.
unfoldable pub parse_packet : List ℕ → Parsed Packet
parse_packet b =
    let n = declared_length b in
    if ltb (length b) 20
    then err short_packet
    else if ltb n 20 || ltb (length b) n
    then err (bad_length n (length b))
    else with_header b (parse_attributes (length b) 20 (drop 20 (take n b)))

-- `byte(2 + len(a.Value))` keeps its wrap-around.
unfoldable pub encode_attributes : List Attribute → List ℕ
encode_attributes [] = []
encode_attributes (a ∷ rest) =
    a.type ∷ ((2 + length a.value) % 256) ∷ (a.value ++ encode_attributes rest)

unfoldable pub total_length : List Attribute → ℕ
total_length [] = 0
total_length (a ∷ rest) = 2 + length a.value + total_length rest

unfoldable pub encode : Packet → List ℕ
encode p =
    p.code
    ∷ p.identifier
    ∷ (be16 (20 + total_length p.attributes) ++ (p.authenticator ++ encode_attributes p.attributes))

unfoldable pub add : Packet → ℕ → List ℕ → Packet
add p t v = record p { attributes = p.attributes ++ (record { type = t; value = v } ∷ []) }

unfoldable pub first_in : ℕ → List Attribute → Option (List ℕ)
first_in t [] = none
first_in t (a ∷ rest) = if eqb a.type t then some a.value else first_in t rest

-- Go's nil for a missing attribute reads as the empty slice.
unfoldable pub first : Packet → ℕ → List ℕ
unfolding first_in
first p t = elim (first_in t p.attributes) [ none ↦ [] | some v ↦ v ]

unfoldable pub all_in : ℕ → List Attribute → List (List ℕ)
all_in t [] = []
all_in t (a ∷ rest) = if eqb a.type t then a.value ∷ all_in t rest else all_in t rest

unfoldable pub all_values : Packet → ℕ → List (List ℕ)
all_values p t = all_in t p.attributes

abbrev pub FitsAttribute : Attribute → Type 0
FitsAttribute a = length a.value ≤ 253

-- What the wire format can carry.
pub record IsPacket (p : Packet) : Type 0 where
  pub full_authenticator : length p.authenticator ≡ 16
  pub fitting : All FitsAttribute p.attributes
  pub bounded : 20 + total_length p.attributes < 65536
