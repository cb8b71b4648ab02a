-- ===== src/Radsec/Eap/Fragments.antt =====
-- Fragmentation of a TLS message: `buildEAPTLSFragment` against a peer that reassembles.
use apexaegis_management_pla.Prelude.{
  ℕ, zero, suc, ◌+◌, ◌*◌, ◌%◌, ◌≤◌, ◌<◌, ◌≡◌, refl, sym, ap, ◌∙◌, false, inl, inr, List, [], ◌∷◌,
  ◌++◌, Option, none, some, arith, length, drop, take-append-drop, length-take, length-drop,
  append-nil, append_assoc, Bool-cases, eqb, if◌then◌else◌, drop-drop, take_all,
}
use apexaegis_management_pla.Radsec.Eap.{
  EapPacket, parse_eap, encode_eap, eap_tls_data, build_fragment, tls_request, fragment_data,
  chunk_at, chunk_size, more_after, fragment_size,
}
use apexaegis_management_pla.Radsec.Eap.RoundTrip.{parse-encode_eap}

abbrev bind {ℓ κ} : {A : Type ℓ} {B : Type κ} → Option A → (A → Option B) → Option B
bind none f = none
bind (some a) f = f a

-- The packets of one message, in the order in which the peer's acknowledgements call for them.
-- `fuel` bounds their number.
unfoldable pub transfer : ℕ → ℕ → List ℕ → ℕ → List (List ℕ)
transfer zero id tls offset = []
transfer (suc fuel) id tls offset =
    let rest = transfer fuel ((id + 1) % 256) tls (build_fragment id tls offset).next in
    (build_fragment id tls offset).packet
    ∷ (if (build_fragment id tls offset).more then rest else [])

-- A peer of RFC 5216: it appends the TLS bytes until a packet without the more flag.
unfoldable pub receive : List ℕ → List (List ℕ) → Option (List ℕ)
receive acc [] = none
receive acc (packet ∷ rest) = bind (parse_eap packet) λ e.
    bind (eap_tls_data e.payload)
      λ f. let more = receive (acc ++ f.tls) rest in if f.more then more else some (acc ++ f.tls)

length-fragment_data : (tls : List ℕ) (offset : ℕ) → length (fragment_data tls offset) ≤ 1005
length-fragment_data tls offset =
    let chunk = length-take (chunk_size tls offset) (drop offset tls) in
    elim (Bool-cases (eqb offset 0)) [
      | inl first ↦ rw first (omega (arith, chunk))
      | inr later ↦ rw later (omega (arith, chunk))
    ]

parse-fragment :
    (id : ℕ) (tls : List ℕ) (offset : ℕ)
    → parse_eap (build_fragment id tls offset).packet
      ≡ some (tls_request id (fragment_data tls offset))
unfolding build_fragment
parse-fragment id tls offset =
    let e : EapPacket = tls_request id (fragment_data tls offset) in
    ap parse_eap (sym (append-nil (encode_eap e)))
    ∙ parse-encode_eap e [] (inl refl) (omega (arith, length-fragment_data tls offset))

data-fragment :
    (tls : List ℕ) (offset : ℕ)
    → eap_tls_data (fragment_data tls offset)
      ≡ some (record { tls = chunk_at tls offset; start = false; more = more_after tls offset })
unfolding eap_tls_data
data-fragment tls offset = elim (Bool-cases (eqb offset 0)) [
  | inl first ↦ elim (Bool-cases (more_after tls offset)) [
    | inl m ↦ rw (first, m) (ground arith)
    | inr m ↦ rw (first, m) (ground arith)
  ]
  | inr later ↦ elim (Bool-cases (more_after tls offset)) [
    | inl m ↦ rw (later, m)
    | inr m ↦ rw (later, m)
  ]
]

receive-fragment :
    (acc : List ℕ) (id : ℕ) (tls : List ℕ) (offset : ℕ) (rest : List (List ℕ))
    → receive acc ((build_fragment id tls offset).packet ∷ rest) ≡ (
        if more_after tls offset
        then receive (acc ++ chunk_at tls offset) rest
        else some (acc ++ chunk_at tls offset))
unfolding receive
receive-fragment acc id tls offset rest =
    rw (parse-fragment id tls offset, data-fragment tls offset)

more-build_fragment :
    (id : ℕ) (tls : List ℕ) (offset : ℕ)
    → (build_fragment id tls offset).more ≡ more_after tls offset
unfolding build_fragment
more-build_fragment id tls offset = refl

next-build_fragment :
    (id : ℕ) (tls : List ℕ) (offset : ℕ)
    → (build_fragment id tls offset).next ≡ offset + chunk_size tls offset
unfolding build_fragment
next-build_fragment id tls offset = refl

-- The last chunk is all that is left.
last_chunk :
    (tls : List ℕ) (offset : ℕ)
    → more_after tls offset ≡ false
    → chunk_at tls offset ≡ drop offset tls
last_chunk tls offset h =
    take_all (chunk_size tls offset) (drop offset tls) (ground (arith, length-drop offset tls))

next_chunk :
    (tls : List ℕ) (offset : ℕ)
    → chunk_at tls offset ++ drop (offset + chunk_size tls offset) tls ≡ drop offset tls
next_chunk tls offset =
    rw (← drop-drop (chunk_size tls offset) offset (offset + chunk_size tls offset) tls refl)
      (take-append-drop (chunk_size tls offset) (drop offset tls))

receive-transfer_from :
    (fuel : ℕ) (acc : List ℕ) (id : ℕ) (tls : List ℕ) (offset : ℕ)
    → offset ≤ length tls
    → length tls < offset + fragment_size * fuel
    → receive acc (transfer fuel id tls offset) ≡ some (acc ++ drop offset tls)
unfolding transfer
receive-transfer_from zero acc id tls offset le h = absurd (omega arith)
receive-transfer_from (suc fuel) acc id tls offset le h =
    receive-fragment acc id tls offset _ ∙ elim (Bool-cases (more_after tls offset)) [
      | inl m ↦
          rw (m, more-build_fragment id tls offset, m, next-build_fragment id tls offset)
            (receive-transfer_from fuel (acc ++ chunk_at tls offset) ((id + 1) % 256) tls
                (offset + chunk_size tls offset) (omega arith) (ground arith)
              ∙ rw (append_assoc acc (chunk_at tls offset), next_chunk tls offset))
      | inr m ↦ rw (m, last_chunk tls offset m)
    ]

-- A peer that appends what the fragments carry ends with the message that the server fragmented,
-- after `fuel` fragments at most, where 1000 * fuel is more than the length of the message.
pub receive-transfer :
    (fuel id : ℕ) (tls : List ℕ)
    → length tls < fragment_size * fuel
    → receive [] (transfer fuel id tls 0) ≡ some tls
receive-transfer fuel id tls h = receive-transfer_from fuel [] id tls 0 (omega arith) (omega arith)
