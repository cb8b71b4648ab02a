-- ===== src/Signing/Verified.antt =====
-- Verify of internal/security/code_signing.go on what Sign signed.
use apexaegis_management_pla.Prelude.{
  ℕ, ◌≡◌, ◌↔◌, ◌⊎◌, refl, sym, ap, ◌∙◌, subst, inl, inr, true, not, Option, none, some, some-eq,
  String, List, [], ◌∷◌, if_cases, option_cases, string_eq, ◌==◌, In,
}
use apexaegis_management_pla.Dict
use apexaegis_management_pla.Dict.{Dict, In-items, get-put_cases, get-empty}
use apexaegis_management_pla.Signing.{
  Crypto, SignedArtifact, SigningKey, SignRequest, VerifyRequest, VerifyResponse, Service, Drawn,
  Signed, signed, Orders, Checked, answered, artifact_of, sign, find_key, by_any, by_key,
  check_signature, verify, NewKey, new_service, no_keys, generate_key, key_of,
}

-- Decoding reads the signatures that encoding wrote.
abbrev pub HexRoundTrip : Crypto → Type 0
HexRoundTrip c =
    (key message : List ℕ)
    → c.decode_hex (c.encode_hex (c.sign key message)) ≡ some (c.sign key message)

-- The public key verifies what the private key signs.
abbrev pub Matches : Crypto → List ℕ → List ℕ → Type 0
Matches c public private =
    (message : List ℕ) → c.verify public message (c.sign private message) ≡ true

-- What ed25519.GenerateKey draws is a pair of keys that match.
abbrev pub DrawsPair : Crypto → Option (List ℕ × List ℕ) → Type 0
DrawsPair c none = Unit {0}
DrawsPair c (some (public, private)) = Matches c public private

-- The states that the program reaches.
pub data Reachable (c : Crypto) : Service → Type 0 where
  started :
      (w : NewKey) (s : Service) → DrawsPair c w.pair → new_service c w ≡ some s → Reachable c s
  generated :
      (w : NewKey) (label : String) (key : SigningKey) (s u : Service)
      → Reachable c s
      → DrawsPair c w.pair
      → generate_key c w label s ≡ some (key, u)
      → Reachable c u
  used :
      (w : Drawn) (req : SignRequest) (signed_by : String) (a : SignedArtifact) (s u : Service)
      → Reachable c s
      → sign c w req signed_by s ≡ signed a u
      → Reachable c u

abbrev pub Visits : Orders → Type 0
Visits order =
    (l : List (String × SigningKey)) (x : String × SigningKey) → In x (order.keys l) ↔ In x l

abbrev pub IsAccepted : Checked → Type 0
IsAccepted (answered r) = r.valid ≡ true
IsAccepted _ = ⊥

find_key-In :
    (c : Crypto) (digest sig : List ℕ) (artifact id : String) (key : SigningKey)
    (l : List (String × SigningKey))
    → In (id, key) l
    → c.verify key.public_key digest sig ≡ true
    → (by_any artifact (find_key c digest sig l)).valid ≡ true
find_key-In c digest sig artifact id key [] i e = elim i [ ]
find_key-In c digest sig artifact id key ((j, k) ∷ l) i e =
    if_cases (λ (o : Option SigningKey). (by_any artifact o).valid ≡ true)
      (c.verify k.public_key digest sig) (some k) (find_key c digest sig l) (λ _. refl)
      (λ miss. elim i [
        | inl p ↦ cc (p, miss, e)
        | inr r ↦ find_key-In c digest sig artifact id key l r e
      ])

verify-IsAccepted :
    (c : Crypto) (order : Orders) (r : VerifyRequest) (v : Service) (digest sig : List ℕ)
    → c.decode_hex r.sha256 ≡ some digest
    → c.decode_hex r.signature ≡ some sig
    → (check_signature c order digest sig r v).valid ≡ true
    → IsAccepted (verify c order r v)
unfolding verify
verify-IsAccepted c order r v digest sig d g h = rw (d, g, IsAccepted) h

signed_artifact : {a b : SignedArtifact} {s u : Service} → signed a s ≡ signed b u → a ≡ b
signed_artifact e = cc e

signed_service : {a b : SignedArtifact} {s u : Service} → signed a s ≡ signed b u → s ≡ u
signed_service e = cc e

-- Every stored key is a pair that matches.
KeysMatch : Crypto → Service → Type 0
KeysMatch c s =
    (id : String) (key : SigningKey)
    → Dict.get id s.keys ≡ some key
    → Matches c key.public_key key.private_key

generate_key-KeysMatch :
    (c : Crypto) (w : NewKey) (label : String) (key : SigningKey) (s u : Service)
    → KeysMatch c s
    → DrawsPair c w.pair
    → generate_key c w label s ≡ some (key, u)
    → KeysMatch c u
unfolding generate_key KeysMatch
generate_key-KeysMatch c w label key s u all drawn =
    let P = λ (r : Option (SigningKey × Service)). r ≡ some (key, u) → KeysMatch c u in
    option_cases P w.pair none _ (λ _ e. absurd (cc e))
      (λ (public, private) e q.
        let pair : Matches c public private = subst (DrawsPair c) e drawn in
        let new = key_of c w label public private in
        let added : KeysMatch c (record s { keys = Dict.put w.id new s.keys }) = λ id k there.
          elim (get-put_cases w.id id new k s.keys there) [
            | inl (_, same) ↦
                subst (λ (x : SigningKey). Matches c x.public_key x.private_key) same pair
            | inr (_, old) ↦ all id k old
          ] in
        subst (KeysMatch c) (ap (λ (x : SigningKey × Service). x.1) (some-eq q)) added)

new_service-KeysMatch :
    (c : Crypto) (w : NewKey) (s : Service)
    → DrawsPair c w.pair
    → new_service c w ≡ some s
    → KeysMatch c s
unfolding new_service KeysMatch
new_service-KeysMatch c w s drawn =
    let P = λ (r : Option Service). r ≡ some s → KeysMatch c s in
    option_cases P (generate_key c w "root-signing-key" no_keys) none _ (λ _ e. absurd (cc e))
      (λ (key, t) e q. subst (KeysMatch c) (some-eq q) (
        generate_key-KeysMatch c w "root-signing-key" key no_keys t
          (λ id k there. absurd (cc (sym (get-empty id) ∙ there))) drawn e))

sign-keys :
    (c : Crypto) (w : Drawn) (req : SignRequest) (signed_by : String) (a : SignedArtifact)
    (s u : Service)
    → sign c w req signed_by s ≡ signed a u
    → u.keys ≡ s.keys
unfolding sign
sign-keys c w req signed_by a s u =
    let P = λ (r : Signed). r ≡ signed a u → u.keys ≡ s.keys in
    option_cases P (Dict.get s.active_key s.keys) _ _ (λ _ e. absurd (cc e))
      (λ key _.
        option_cases P (c.decode_hex req.sha256) _ _ (λ _ e. absurd (cc e))
          (λ digest _ e. ap (λ (x : Service). x.keys) (sym (signed_service e))))

Reachable-KeysMatch : (c : Crypto) (s : Service) → Reachable c s → KeysMatch c s
unfolding KeysMatch
Reachable-KeysMatch c _ (started w s drawn e) = new_service-KeysMatch c w s drawn e
Reachable-KeysMatch c _ (generated w label key s u r drawn e) =
    generate_key-KeysMatch c w label key s u (Reachable-KeysMatch c s r) drawn e
Reachable-KeysMatch c _ (used w req signed_by a s u r e) = λ id key there.
    Reachable-KeysMatch c s r id key
      (ap (Dict.get id) (sym (sign-keys c w req signed_by a s u e)) ∙ there)

module _ (c : Crypto) (order : Orders) (hex : HexRoundTrip c) (visits : Visits order) (w : Drawn)
    (req : SignRequest) (signed_by : String) (s u : Service) (a : SignedArtifact)
    (reach : Reachable c s) where
  check-IsValid :
      (digest : List ℕ) (key : SigningKey) (v : Service) (r : VerifyRequest)
      → Dict.get s.active_key s.keys ≡ some key
      → v.keys ≡ s.keys
      → (r.key_id ≡ "") ⊎ (r.key_id ≡ s.active_key)
      → (check_signature c order digest (c.sign key.private_key digest) r v).valid ≡ true
  unfolding KeysMatch
  check-IsValid digest key v r there same which =
      let good = Reachable-KeysMatch c s reach s.active_key key there digest in
      if_cases (λ (x : VerifyResponse). x.valid ≡ true) (not (r.key_id == "")) _ _
        (λ named. elim which [
          | inl e ↦ absurd (cc (named, (string_eq.beq_iff r.key_id "").1 e))
          | inr e ↦
              subst
                (λ (o : Option SigningKey).
                  (by_key c digest (c.sign key.private_key digest) r.key_id o).valid ≡ true)
                (sym (
                  ap (λ (d : Dict String SigningKey). Dict.get r.key_id d) same
                  ∙ ap (λ id. Dict.get id s.keys) e
                  ∙ there))
                good
        ])
        (λ _.
          find_key-In c digest (c.sign key.private_key digest) _ s.active_key key
            (order.keys (Dict.items v.keys))
            ((visits (Dict.items v.keys) (s.active_key, key)).1
              ((In-items s.active_key key v.keys).1 (ap (Dict.get s.active_key) same ∙ there)))
            good)

  -- If hex decoding reads back what it wrote and every key pair that was generated verifies its own
  -- signatures, an artifact that Sign signed in a reachable state is accepted by Verify in the state that
  -- Sign leaves, under the key that was active or with no key named, whatever order the loop over the
  -- keys takes.
  pub verify-sign :
      (key_id : String)
      → sign c w req signed_by s ≡ signed a u
      → (key_id ≡ "") ⊎ (key_id ≡ s.active_key)
      → IsAccepted (
          verify c order (record { sha256 = a.sha256; signature = a.signature; key_id = key_id }) u)
  unfolding sign
  verify-sign key_id =
      let asked : SignedArtifact → VerifyRequest =
        λ x. record { sha256 = x.sha256; signature = x.signature; key_id = key_id } in
      let P = λ (x : Signed).
        x ≡ signed a u
        → (key_id ≡ "") ⊎ (key_id ≡ s.active_key)
        → IsAccepted (verify c order (asked a) u) in
      option_cases P (Dict.get s.active_key s.keys) _ _ (λ _ e. absurd (cc e))
        (λ key there.
          option_cases P (c.decode_hex req.sha256) _ _ (λ _ e. absurd (cc e))
            (λ digest d e which.
              let b = artifact_of c w key digest req signed_by in
              let v : Service = record s { artifacts = Dict.put b.id b s.artifacts } in
              subst (λ (x : SignedArtifact). IsAccepted (verify c order (asked x) u))
                (signed_artifact e)
                (subst (λ (x : Service). IsAccepted (verify c order (asked b) x)) (signed_service e)
                  (verify-IsAccepted c order (asked b) v digest (c.sign key.private_key digest) d
                    (hex key.private_key digest)
                    (check-IsValid digest key v (asked b) there refl which)))))
