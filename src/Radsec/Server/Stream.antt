-- ===== src/Radsec/Server/Stream.antt =====
-- The framing of a RadSec connection, readRADIUS of internal/radsec/server.go, and Disconnect.
use apexaegis_management_pla.Prelude.{
  ℕ, zero, suc, ◌+◌, ◌-◌, ◌%◌, ◌/◌, Bool, ◌||◌, Option, none, some, List, [], ◌∷◌, ◌++◌, length,
  take, drop, ltb, if◌then◌else◌, bytes_eq,
}
use apexaegis_management_pla.Dict
use apexaegis_management_pla.Radsec.Radius.{Packet, declared_length, encode, total_length, add}
use apexaegis_management_pla.Radsec.Authenticator.{Digest, zeros, finalize}
use apexaegis_management_pla.Radsec.Server.{Engine, Server, acct_session_id}

-- The bytes of one packet and those behind it, from a stream that ends; `none` is an error.
abbrev pub read_body : List ℕ → List ℕ → Option (List ℕ × List ℕ)
read_body hdr s =
    let n = declared_length hdr in
    if ltb n 20 || ltb 65535 n
    then none
    else if ltb 20 n
    then (if ltb (length s) (n - 20) then none else some (hdr ++ take (n - 20) s, drop (n - 20) s))
    else some (hdr, s)

unfoldable pub read_radius : List ℕ → Option (List ℕ × List ℕ)
read_radius s = if ltb (length s) 20 then none else read_body (take 20 s) (drop 20 s)

-- The packets that the loop of handleConn reads until the first error.
unfoldable pub packets : ℕ → List ℕ → List (List ℕ)
unfolding read_radius
packets zero s = []
packets (suc fuel) s = elim (read_radius s) [ none ↦ [] | some (b, rest) ↦ b ∷ packets fuel rest ]

-- What a tick of featureFlagPoller leaves of the flag; a check that fails is `none`.
abbrev pub poll : Option Bool → Bool → Bool
poll none enabled = enabled
poll (some flag) enabled = flag

abbrev pub disconnect_request : ℕ
disconnect_request = 40

-- The connection to write to, and what is written.
unfoldable pub disconnect : {g : Engine} → Digest → ℕ → List ℕ → Server g → Option (ℕ × List ℕ)
disconnect d nanoseconds acct s = elim (Dict.get acct s.live) [
  | none ↦ none
  | some conn ↦
      let req : Packet = record {
        code = disconnect_request;
        identifier = nanoseconds % 256;
        authenticator = zeros;
        attributes = [];
      } in
      some (conn, finalize d (add req acct_session_id acct) zeros)
]

-- What several packets look like on the wire.
unfoldable pub encode_all : List Packet → List ℕ
encode_all [] = []
encode_all (p ∷ rest) = encode p ++ encode_all rest

abbrev header : Packet → List ℕ
header p =
    let n = 20 + total_length p.attributes in
    p.code ∷ p.identifier ∷ (n / 256 % 256) ∷ (n % 256) ∷ p.authenticator

abbrev some_rest : List ℕ → List ℕ → Option (List ℕ × List ℕ)
some_rest b rest = some (b, rest)
