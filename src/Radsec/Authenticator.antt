-- ===== src/Radsec/Authenticator.antt =====
-- The authenticators of a RADIUS packet: `finalize` and `verifyMessageAuthenticator` of
-- internal/radsec/radius.go. MD5 and HMAC-MD5 are parameters.
pub mod Verify
use apexaegis_management_pla.Prelude.{
  ℕ, ◌+◌, ◌≡◌, Bool, true, false, List, [], ◌∷◌, ◌++◌, map, Option, none, some, ltb, eqb,
  if◌then◌else◌, length, take, drop, replicate, bytes_beq,
}
use apexaegis_management_pla.Radsec.Radius.{Attribute, Packet, encode, message_authenticator}

-- crypto/md5 and crypto/hmac: functions on byte strings with results of 16 bytes.
pub record Digest : Type 0 where
  pub md5 : List ℕ → List ℕ
  pub hmac_md5 : List ℕ → List ℕ → List ℕ
  pub md5_size : (message : List ℕ) → length (md5 message) ≡ 16
  pub hmac_size : (key message : List ℕ) → length (hmac_md5 key message) ≡ 16

-- The shared secret "radsec" of RFC 6614.
abbrev pub radsec_secret : List ℕ
radsec_secret = b'r' ∷ b'a' ∷ b'd' ∷ b's' ∷ b'e' ∷ b'c' ∷ []

abbrev pub zeros : List ℕ
zeros = replicate 16 0

-- Go's `copy(dst, src)`.
abbrev pub copy : List ℕ → List ℕ → List ℕ
copy dst src = take (length dst) src ++ drop (length src) dst

unfoldable pub has_authenticator : List Attribute → Bool
has_authenticator [] = false
has_authenticator (a ∷ rest) =
    if eqb a.type message_authenticator then true else has_authenticator rest

abbrev set_value : (List ℕ → List ℕ) → Attribute → Attribute
set_value f a = if eqb a.type message_authenticator then record a { value = f a.value } else a

-- Each Message-Authenticator's value is replaced.
unfoldable pub set_authenticators : (List ℕ → List ℕ) → List Attribute → List Attribute
set_authenticators f [] = []
set_authenticators f (a ∷ rest) = set_value f a ∷ set_authenticators f rest

-- The outcome of a check: `panics` is Go's run-time panic on a slice out of range.
pub data Verdict : Type 0 where
  accepted refused panics : Verdict

-- The offset of the value of the first Message-Authenticator.
unfoldable pub find_value : ℕ → List Attribute → Option ℕ
find_value off [] = none
find_value off (a ∷ rest) =
    if eqb a.type message_authenticator
    then some (off + 2)
    else find_value (off + (2 + length a.value)) rest

module _ (d : Digest) where
  -- The packet whose Message-Authenticators, if it has any, hold the HMAC of itself with zeros there.
  unfoldable pub seal : Packet → Packet
  unfolding has_authenticator set_authenticators
  seal p =
      let blank = record p { attributes = set_authenticators (λ _. zeros) p.attributes } in
      if has_authenticator p.attributes
      then record blank {
        attributes =
            set_authenticators (λ v. copy v (d.hmac_md5 radsec_secret (encode blank)))
              blank.attributes;
      }
      else p

  -- What `finalize` makes of the packet that it is called on.
  unfoldable pub finalized : Packet → List ℕ → Packet
  unfolding seal
  finalized p request_auth =
      let q = seal (record p { authenticator = request_auth }) in
      record q { authenticator = copy q.authenticator (d.md5 (encode q ++ radsec_secret)) }

  unfoldable pub finalize : Packet → List ℕ → List ℕ
  unfolding finalized
  finalize p request_auth = encode (finalized p request_auth)

  -- The check at the offset of the value. `tmp[idx:idx+16]` panics past the end of the copy.
  unfoldable pub check_at : ℕ → List ℕ → Verdict
  check_at idx raw =
      let want = take 16 (drop idx raw) in
      let tmp = take idx raw ++ (zeros ++ drop (idx + 16) raw) in
      if ltb (length raw) (idx + 16)
      then panics
      else if bytes_beq (d.hmac_md5 radsec_secret tmp) want
      then accepted
      else refused

  -- A packet with no Message-Authenticator passes.
  unfoldable pub verify_message_authenticator : Packet → List ℕ → Verdict
  unfolding find_value check_at
  verify_message_authenticator p raw = elim (find_value 20 p.attributes) [
    | none ↦ accepted
    | some idx ↦ check_at idx raw
  ]
