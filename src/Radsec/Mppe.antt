-- ===== src/Radsec/Mppe.antt =====
-- The MS-MPPE keys of an Access-Accept: internal/radsec/mppe.go. The random salts are arguments, with
-- `none` where the random source fails.
pub mod Decrypt
use Prim.Native.Nat.{bit_or, bit_xor}
use apexaegis_management_pla.Prelude.{
  ℕ, zero, suc, ◌+◌, ◌-◌, ◌%◌, ◌/◌, List, [], ◌∷◌, ◌++◌, Option, none, some, Bool, ltb,
  if◌then◌else◌, length, take, drop, replicate, be32,
}
use apexaegis_management_pla.Radsec.Radius.{Packet, add}
use apexaegis_management_pla.Radsec.Authenticator.{Digest, radsec_secret}

abbrev pub vendor_specific : ℕ
vendor_specific = 26

abbrev pub vendor_microsoft : ℕ
vendor_microsoft = 311

abbrev pub mppe_send_key : ℕ
mppe_send_key = 16

abbrev pub mppe_recv_key : ℕ
mppe_recv_key = 17

abbrev pub msk_len : ℕ
msk_len = 64

abbrev pub xor_bytes : List ℕ → List ℕ → List ℕ
xor_bytes [] bs = []
xor_bytes (p ∷ ps) [] = p ∷ ps
xor_bytes (p ∷ ps) (b ∷ bs) = bit_xor p b ∷ xor_bytes ps bs

-- `for len(plain)%16 != 0 { plain = append(plain, 0) }`
abbrev pub pad : List ℕ → List ℕ
pad plain = plain ++ replicate ((16 - length plain % 16) % 16) 0

-- `salt[0] |= 0x80`
abbrev pub mark_salt : List ℕ → List ℕ
mark_salt [] = []
mark_salt (s ∷ salt) = bit_or s 0x80 ∷ salt

-- The key behind its length, padded.
abbrev pub plaintext : List ℕ → List ℕ
plaintext key = pad ((length key % 256) ∷ key)

module _ (d : Digest) where
  -- The loop over the blocks. `seed` is what is hashed behind the secret: the request's authenticator
  -- and the salt, then the block before. `rounds` counts the blocks.
  unfoldable pub encrypt_blocks : ℕ → List ℕ → List ℕ → List ℕ
  encrypt_blocks zero seed plain = []
  encrypt_blocks (suc rounds) seed plain =
      let block = xor_bytes (take 16 plain) (d.md5 (radsec_secret ++ seed)) in
      block ++ encrypt_blocks rounds block (drop 16 plain)

  -- The marked salt and the ciphertext.
  unfoldable pub salt_encrypt : List ℕ → List ℕ → List ℕ → List ℕ × List ℕ
  unfolding encrypt_blocks
  salt_encrypt random key request_auth =
      let salt = mark_salt random in
      let plain = plaintext key in
      (salt, encrypt_blocks (length plain / 16) (request_auth ++ salt) plain)

  unfoldable pub vendor_attribute : ℕ → List ℕ → List ℕ → List ℕ → List ℕ
  unfolding salt_encrypt
  vendor_attribute vendor_type random key request_auth =
      let (salt, enc) = salt_encrypt random key request_auth in
      be32 vendor_microsoft ++ (vendor_type ∷ ((2 + length (salt ++ enc)) % 256) ∷ (salt ++ enc))

  -- A failure of the random source leaves the packet as it was.
  unfoldable pub add_mppe_keys : Packet → List ℕ → List ℕ → Option (List ℕ × List ℕ) → Packet
  unfolding vendor_attribute
  add_mppe_keys p msk request_auth none = p
  add_mppe_keys p msk request_auth (some (send_salt, recv_salt)) =
      let recv_key = take 32 msk in
      let send_key = take 32 (drop 32 msk) in
      if ltb (length msk) msk_len
      then p
      else add
          (add p vendor_specific (vendor_attribute mppe_send_key send_salt send_key request_auth))
          vendor_specific (vendor_attribute mppe_recv_key recv_salt recv_key request_auth)
