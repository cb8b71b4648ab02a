-- ===== src/Radsec/Mppe/Decrypt.antt =====
-- The receiver's side of RFC 2548: it recovers the keys that `saltEncrypt` hid.
use apexaegis_management_pla.Prelude.{
  ℕ, zero, suc, ◌-◌, ◌*◌, ◌/◌, ◌%◌, ◌<◌, ◌≡◌, refl, ap, List, [], ◌∷◌, ◌++◌, arith, length, take,
  drop, replicate, length-append, length-replicate, length-take, length-drop, take-append,
  drop-append, take-append-drop,
}
use apexaegis_management_pla.Prelude.Bits.{bit_xor_twice}
use apexaegis_management_pla.Radsec.Authenticator.{Digest, radsec_secret}
use apexaegis_management_pla.Radsec.Mppe.{
  xor_bytes, mark_salt, encrypt_blocks, plaintext, salt_encrypt,
}

length-xor_bytes : (ps bs : List ℕ) → length (xor_bytes ps bs) ≡ length ps
length-xor_bytes [] bs = refl
length-xor_bytes (p ∷ ps) [] = refl
length-xor_bytes (p ∷ ps) (b ∷ bs) = ap suc (length-xor_bytes ps bs)

xor_bytes_twice : (ps bs : List ℕ) → xor_bytes (xor_bytes ps bs) bs ≡ ps
xor_bytes_twice [] bs = refl
xor_bytes_twice (p ∷ ps) [] = refl
xor_bytes_twice (p ∷ ps) (b ∷ bs) = cc (bit_xor_twice p b, xor_bytes_twice ps bs)

-- The padding fills whole blocks.
length-plaintext : (key : List ℕ) → length (plaintext key) ≡ 16 * (length (plaintext key) / 16)
length-plaintext key =
    let n : ℕ = suc (length key) in
    let k : ℕ = (16 - n % 16) % 16 in
    omega (arith, length-append key (replicate k 0), length-replicate {A = ℕ} k 0)

module _ (d : Digest) where
  -- The receiver hashes the same seeds, since each block's seed is the ciphertext block before.
  decrypt_blocks : ℕ → List ℕ → List ℕ → List ℕ
  decrypt_blocks zero seed cipher = []
  decrypt_blocks (suc rounds) seed cipher =
      xor_bytes (take 16 cipher) (d.md5 (radsec_secret ++ seed))
      ++ decrypt_blocks rounds (take 16 cipher) (drop 16 cipher)

  decrypt-encrypt_blocks :
      (rounds : ℕ) (seed plain : List ℕ)
      → length plain ≡ 16 * rounds
      → decrypt_blocks rounds seed (encrypt_blocks d rounds seed plain) ≡ plain
  unfolding decrypt_blocks encrypt_blocks
  decrypt-encrypt_blocks zero seed [] h = refl
  decrypt-encrypt_blocks zero seed (x ∷ plain) h = absurd (omega arith)
  decrypt-encrypt_blocks (suc rounds) seed plain h =
      let hash = d.md5 (radsec_secret ++ seed) in
      let block = xor_bytes (take 16 plain) hash in
      let size : length block ≡ 16 =
        omega (arith, length-xor_bytes (take 16 plain) hash, length-take 16 plain) in
      rw
        (
          take-append 16 block (encrypt_blocks d rounds block (drop 16 plain)) size,
          drop-append 16 block (encrypt_blocks d rounds block (drop 16 plain)) size,
          xor_bytes_twice (take 16 plain) hash,
          decrypt-encrypt_blocks rounds block (drop 16 plain) (omega (arith, length-drop 16 plain)),
        )
        (take-append-drop 16 plain)

  -- The receiver's key: as many bytes as the first byte of the plaintext says.
  pub key_of : List ℕ → List ℕ
  key_of [] = []
  key_of (n ∷ plain) = take n plain

  unfoldable pub decrypt : List ℕ → List ℕ → List ℕ → List ℕ
  unfolding decrypt_blocks key_of
  decrypt salt cipher request_auth =
      key_of (decrypt_blocks (length cipher / 16) (request_auth ++ salt) cipher)

  length-encrypt_blocks :
      (rounds : ℕ) (seed plain : List ℕ)
      → length plain ≡ 16 * rounds
      → length (encrypt_blocks d rounds seed plain) ≡ 16 * rounds
  unfolding encrypt_blocks
  length-encrypt_blocks zero seed plain h = omega arith
  length-encrypt_blocks (suc rounds) seed plain h =
      let hash = d.md5 (radsec_secret ++ seed) in
      let block = xor_bytes (take 16 plain) hash in
      omega (
        arith,
        length-append block (encrypt_blocks d rounds block (drop 16 plain)),
        length-xor_bytes (take 16 plain) hash,
        length-take 16 plain,
        length-encrypt_blocks rounds block (drop 16 plain) (omega (arith, length-drop 16 plain)),
      )

  key_of-plaintext : (key : List ℕ) → length key < 256 → key_of (plaintext key) ≡ key
  unfolding key_of
  key_of-plaintext key h =
      let small : length key % 256 ≡ length key = omega arith in
      rw small (take-append (length key) key _ refl)

  -- A key of at most 255 bytes is recovered from the salt and the ciphertext by a receiver that
  -- knows the request's authenticator, whatever the random bytes of the salt.
  pub decrypt-salt_encrypt :
      (random key request_auth : List ℕ)
      → length key < 256
      → let sent = salt_encrypt d random key request_auth in
        decrypt sent.0 sent.1 request_auth ≡ key
  unfolding decrypt salt_encrypt
  decrypt-salt_encrypt random key request_auth h =
      let plain : List ℕ = plaintext key in
      let whole = length-plaintext key in
      let seed : List ℕ = request_auth ++ mark_salt random in
      let rounds : length (encrypt_blocks d (length plain / 16) seed plain) / 16
          ≡ length plain / 16 =
        omega (arith, length-encrypt_blocks (length plain / 16) seed plain whole) in
      rw (rounds, decrypt-encrypt_blocks (length plain / 16) seed plain whole)
        (key_of-plaintext key h)
