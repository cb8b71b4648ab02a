-- ===== src/Command/Once.antt =====
-- A nonce of internal/security/command_signing.go lets one command through, once.
use apexaegis_management_pla.Prelude.{
  ℕ, ◌≡◌, ◌≤◌, refl, sym, ap, ◌∙◌, inl, inr, Bool, true, false, not, Option, none, some, String,
  List, [], ◌∷◌, ltb, if_cases, option_cases, Bool-cases, string_eq, ◌==◌, arith,
}
use apexaegis_management_pla.Dict
use apexaegis_management_pla.Dict.{get-put_self, get-put_ne}
use apexaegis_management_pla.Command.{
  Crypto, KeyRing, SigningKey, SignedCommand, CommandVerifyRequest, CommandVerifyResponse, Service,
  Issued, no_key, no_nonce, Answer, is_used, executed_by, verify_with, verify_found, verify_command,
  issue_command, store_command, signed, left, Operation, issue, check, perform, run,
}

-- What a valid answer has checked.
pub record IsSound (k : Crypto) (ring : KeyRing) (now : ℕ) (req : CommandVerifyRequest)
    (s : Service) (cmd : SignedCommand) : Type 0 where
  pub stored : Dict.get req.command_id s.commands ≡ some cmd
  pub in_time : now ≤ cmd.expires_at
  pub unused : is_used (Dict.get req.nonce s.nonces) ≡ false
  pub same_nonce : req.nonce ≡ cmd.nonce
  pub same_hash : req.payload_hash ≡ cmd.payload_hash
  pub same_signature : req.signature ≡ cmd.signature
  pub key : SigningKey
  pub found : Dict.get cmd.signing_key_id ring.keys ≡ some key
  pub genuine :
      k.verify key.public_key (k.decode_hex cmd.payload_hash) (k.decode_hex cmd.signature) ≡ true

not-false : (b : Bool) → not b ≡ false → b ≡ true
not-false b h = ground arith

equal : (a b : String) → not (a == b) ≡ false → a ≡ b
equal a b h = (string_eq.beq_iff a b).0 (not-false (a == b) h)

module _ {ℓ} (P : Answer → Type ℓ) (k : Crypto) (ring : KeyRing) (now : ℕ)
    (req : CommandVerifyRequest) (s : Service)
    (refused : (r : CommandVerifyResponse) → r.valid ≡ false → P (r, s))
    (done : (cmd : SignedCommand)
      → IsSound k ring now req s cmd
      → P (executed_by now req cmd s)) where
  verify_found_cases :
      (cmd : SignedCommand)
      → Dict.get req.command_id s.commands ≡ some cmd
      → P (verify_found k ring now req s cmd)
  verify_found_cases cmd there =
      if_cases P (ltb cmd.expires_at now) _ _ (λ _. refused _ refl)
        (λ fresh.
          if_cases P (is_used (Dict.get req.nonce s.nonces)) _ _ (λ _. refused _ refl)
            (λ unused.
              if_cases P (not (req.nonce == cmd.nonce)) _ _ (λ _. refused _ refl)
                (λ n.
                  if_cases P (not (req.payload_hash == cmd.payload_hash)) _ _ (λ _. refused _ refl)
                    (λ h.
                      if_cases P (not (req.signature == cmd.signature)) _ _ (λ _. refused _ refl)
                        (λ g.
                          key_cases cmd there fresh unused n h g
                            (Dict.get cmd.signing_key_id ring.keys) refl)))))
    where
      key_cases :
          (cmd : SignedCommand)
          → Dict.get req.command_id s.commands ≡ some cmd
          → ltb cmd.expires_at now ≡ false
          → is_used (Dict.get req.nonce s.nonces) ≡ false
          → not (req.nonce == cmd.nonce) ≡ false
          → not (req.payload_hash == cmd.payload_hash) ≡ false
          → not (req.signature == cmd.signature) ≡ false
          → (key : Option SigningKey) → Dict.get cmd.signing_key_id ring.keys ≡ key
          → P (verify_with k now req cmd s key)
      key_cases cmd there fresh unused n h g none e = refused _ refl
      key_cases cmd there fresh unused n h g (some key) e =
          if_cases P
            (not (
              k.verify key.public_key (k.decode_hex cmd.payload_hash) (k.decode_hex cmd.signature)))
            _ _ (λ _. refused _ refl)
            (λ v. done cmd (record {
              stored = there;
              in_time = ground arith;
              unused = unused;
              same_nonce = equal req.nonce cmd.nonce n;
              same_hash = equal req.payload_hash cmd.payload_hash h;
              same_signature = equal req.signature cmd.signature g;
              key = key;
              found = e;
              genuine = not-false _ v;
            }))

  pub verify_command_cases : P (verify_command k ring now req s)
  unfolding verify_command
  verify_command_cases =
      option_cases P (Dict.get req.command_id s.commands) _ _ (λ _. refused _ refl)
        verify_found_cases

abbrev IsUsed : String → Service → Type 0
IsUsed n s = Dict.get n s.nonces ≡ some true

IsUsed-executed_by :
    (n : String) (now : ℕ) (req : CommandVerifyRequest) (cmd : SignedCommand) (s : Service)
    → IsUsed n s
    → IsUsed n (executed_by now req cmd s).1
IsUsed-executed_by n now req cmd s h = elim (Bool-cases (req.nonce == n)) [
  | inl e ↦
      ap (λ m. Dict.get m (Dict.put req.nonce true s.nonces))
        (sym ((string_eq.beq_iff req.nonce n).0 e))
      ∙ get-put_self req.nonce true s.nonces
  | inr e ↦
      get-put_ne req.nonce n true s.nonces (λ q. cc ((string_eq.beq_iff req.nonce n).1 q, e)) ∙ h
]

perform-IsUsed :
    (k : Crypto) (op : Operation) (n : String) (s : Service)
    → IsUsed n s
    → IsUsed n (perform k op s)
unfolding perform issue_command
perform-IsUsed k (issue ring w req issued_by) n s h =
    let P = λ (i : Issued). IsUsed n (left i s) in
    option_cases P (Dict.get ring.active_key ring.keys) no_key _ (λ _. h)
      (λ key _.
        option_cases P w.nonce no_nonce
          (λ nonce. store_command (signed k key w nonce req issued_by) s) (λ _. h) (λ nonce _. h))
perform-IsUsed k (check ring now req) n s h =
    verify_command_cases (λ a. IsUsed n a.1) k ring now req s (λ r _. h)
      (λ cmd _. IsUsed-executed_by n now req cmd s h)

run-IsUsed :
    (k : Crypto) (ops : List Operation) (n : String) (s : Service)
    → IsUsed n s
    → IsUsed n (run k ops s)
unfolding run
run-IsUsed k [] n s h = h
run-IsUsed k (op ∷ ops) n s h = run-IsUsed k ops n (perform k op s) (perform-IsUsed k op n s h)

valid-IsUsed :
    (k : Crypto) (ring : KeyRing) (now : ℕ) (req : CommandVerifyRequest) (s : Service)
    → (verify_command k ring now req s).0.valid ≡ true
    → IsUsed req.nonce (verify_command k ring now req s).1
valid-IsUsed k ring now req s =
    verify_command_cases (λ a. a.0.valid ≡ true → IsUsed req.nonce a.1) k ring now req s
      (λ r e h. absurd (cc (e, h))) (λ cmd _ _. get-put_self req.nonce true s.nonces)

-- After a valid answer no request with the same nonce is answered valid again, whatever is issued and
-- checked in between and whatever the keys are then.
pub verify_command-once :
    (k : Crypto) (ring later_ring : KeyRing) (now later : ℕ) (req again : CommandVerifyRequest)
    (ops : List Operation) (s : Service)
    → (verify_command k ring now req s).0.valid ≡ true
    → again.nonce ≡ req.nonce
    → (verify_command k later_ring later again
        (run k ops (verify_command k ring now req s).1)).0.valid
      ≡ false
verify_command-once k ring later_ring now later req again ops s h same =
    let t = run k ops (verify_command k ring now req s).1 in
    let used =
      run-IsUsed k ops req.nonce (verify_command k ring now req s).1
        (valid-IsUsed k ring now req s h) in
    verify_command_cases (λ a. a.0.valid ≡ false) k later_ring later again t (λ r e. e)
      (λ cmd sound.
        absurd
          (cc (sym sound.unused ∙ ap (λ n. is_used (Dict.get n t.nonces)) same ∙ ap is_used used)))
