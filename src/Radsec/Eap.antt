-- ===== src/Radsec/Eap.antt =====
-- EAP packets and EAP-TLS frames: internal/radsec/eap.go. An error is `none`: each is errBadEAP.
pub mod RoundTrip
pub mod Messages
pub mod Fragments
use Prim.Native.Nat.{bit_and, bit_or}
use apexaegis_management_pla.Prelude.{
  ℕ, zero, suc, ◌+◌, ◌-◌, ◌≤◌, Bool, true, false, not, ◌||◌, List, [], ◌∷◌, ◌++◌, Option, none,
  some, min, ltb, eqb, if◌then◌else◌, length, take, drop, get_or, be16, be32, u16,
}
use apexaegis_management_pla.Radsec.Radius.{Packet, add, all_values, eap_message}

abbrev pub request : ℕ
request = 1

abbrev pub response : ℕ
response = 2

abbrev pub success : ℕ
success = 3

abbrev pub failure : ℕ
failure = 4

abbrev pub type_identity : ℕ
type_identity = 1

abbrev pub type_nak : ℕ
type_nak = 3

abbrev pub type_tls : ℕ
type_tls = 13

abbrev pub flag_length : ℕ
flag_length = 0x80

abbrev pub flag_more : ℕ
flag_more = 0x40

abbrev pub flag_start : ℕ
flag_start = 0x20

abbrev pub fragment_size : ℕ
fragment_size = 1000

-- `type` and `payload` are 0 and empty in a packet that is no Request or Response.
pub record EapPacket : Type 0 where
  pub code : ℕ
  pub identifier : ℕ
  pub type : ℕ
  pub payload : List ℕ

abbrev pub has_type : ℕ → Bool
has_type code = eqb code request || eqb code response

unfoldable pub parse_eap : List ℕ → Option EapPacket
parse_eap b =
    let n = u16 (get_or b 2 0) (get_or b 3 0) in
    let code = get_or b 0 0 in
    let id = get_or b 1 0 in
    if ltb (length b) 4
    then none
    else if ltb n 4 || ltb (length b) n
    then none
    else if has_type code
    then (if ltb n 5
        then none
        else some (record {
          code = code;
          identifier = id;
          type = get_or b 4 0;
          payload = drop 5 (take n b);
        }))
    else some (record { code = code; identifier = id; type = 0; payload = [] })

unfoldable pub encode_eap : EapPacket → List ℕ
encode_eap e = e.code ∷ e.identifier ∷ (be16 (5 + length e.payload) ++ (e.type ∷ e.payload))

-- A bare EAP-Success or EAP-Failure.
unfoldable pub encode_result : ℕ → ℕ → List ℕ
encode_result code id = code ∷ id ∷ be16 4

-- What `eapTLSData` returns: the TLS bytes, the start flag and the more flag.
pub record Frame : Type 0 where
  pub tls : List ℕ
  pub start : Bool
  pub more : Bool

abbrev pub has_flag : ℕ → ℕ → Bool
has_flag flags flag = not (eqb (bit_and flags flag) 0)

-- The four bytes of the TLS message length are skipped where the length flag is set.
unfoldable pub eap_tls_data : List ℕ → Option Frame
eap_tls_data [] = none
eap_tls_data (flags ∷ rest) =
    let start = has_flag flags flag_start in
    let more = has_flag flags flag_more in
    if has_flag flags flag_length
    then (if ltb (suc (length rest)) 5
        then none
        else some (record { tls = drop 4 rest; start = start; more = more }))
    else some (record { tls = rest; start = start; more = more })

abbrev pub tls_request : ℕ → List ℕ → EapPacket
tls_request id payload = record {
  code = request;
  identifier = id;
  type = type_tls;
  payload = payload;
}

unfoldable pub build_start : ℕ → List ℕ
unfolding encode_eap
build_start id = encode_eap (tls_request id (flag_start ∷ []))

unfoldable pub build_ack : ℕ → List ℕ
unfolding encode_eap
build_ack id = encode_eap (tls_request id (0 ∷ []))

-- What `buildEAPTLSFragment` returns.
pub record Fragment : Type 0 where
  pub packet : List ℕ
  pub next : ℕ
  pub more : Bool

abbrev pub chunk_size : List ℕ → ℕ → ℕ
chunk_size tls offset = min (length tls - offset) fragment_size

abbrev pub chunk_at : List ℕ → ℕ → List ℕ
chunk_at tls offset = take (chunk_size tls offset) (drop offset tls)

abbrev pub more_after : List ℕ → ℕ → Bool
more_after tls offset = ltb (chunk_size tls offset) (length tls - offset)

abbrev pub fragment_data : List ℕ → ℕ → List ℕ
fragment_data tls offset =
    let flags = if more_after tls offset then bit_or 0 flag_more else 0 in
    if eqb offset 0
    then bit_or flags flag_length ∷ (be32 (length tls) ++ chunk_at tls offset)
    else flags ∷ chunk_at tls offset

-- The offset is at most the length of the message: Go's slice expression panics past it.
unfoldable pub build_fragment : ℕ → List ℕ → ℕ → Fragment
unfolding encode_eap
build_fragment id tls offset = record {
  packet = encode_eap (tls_request id (fragment_data tls offset));
  next = offset + chunk_size tls offset;
  more = more_after tls offset;
}

unfoldable pub flatten : List (List ℕ) → List ℕ
flatten [] = []
flatten (v ∷ vs) = v ++ flatten vs

-- The values of all EAP-Message attributes, one after the other.
unfoldable pub collect_eap_message : Packet → List ℕ
unfolding flatten
collect_eap_message p = flatten (all_values p eap_message)

-- The loop of addEAPMessage. A round takes a byte at least, so `length eap` rounds are enough.
unfoldable pub add_chunks : ℕ → Packet → List ℕ → Packet
add_chunks fuel p [] = p
add_chunks zero p (x ∷ eap) = p
add_chunks (suc fuel) p (x ∷ eap) =
    let n = min (suc (length eap)) 253 in
    add_chunks fuel (add p eap_message (take n (x ∷ eap))) (drop n (x ∷ eap))

unfoldable pub add_eap_message : Packet → List ℕ → Packet
unfolding add_chunks
add_eap_message p eap = add_chunks (length eap) p eap
