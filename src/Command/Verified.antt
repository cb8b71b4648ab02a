-- ===== src/Command/Verified.antt =====
-- A command that internal/security/command_signing.go has issued passes its own check.
use apexaegis_management_pla.Prelude.{
  ℕ, ◌≡◌, ◌≤◌, refl, ap, ◌∙◌, subst, true, false, some, String, List, ltb, option_cases, string_eq,
  arith,
}
use apexaegis_management_pla.Dict
use apexaegis_management_pla.Dict.{get-put_self}
use apexaegis_management_pla.Command.{
  Crypto, KeyRing, SigningKey, SignedCommand, IssueCommandRequest, CommandVerifyRequest,
  CommandVerifyResponse, Drawn, Service, Issued, issued, no_key, no_nonce, is_used, executed_by,
  verify_command, issue_command, store_command, signed,
}
use apexaegis_management_pla.Command.Once.{IsSound}

-- The request of the agent that has received the command.
abbrev pub request_of : SignedCommand → CommandVerifyRequest
request_of cmd = record {
  command_id = cmd.id;
  payload_hash = cmd.payload_hash;
  signature = cmd.signature;
  nonce = cmd.nonce;
}

-- A key stands under its identifier, and checks what it signs.
pub record IsKey (k : Crypto) (id : String) (key : SigningKey) : Type 0 where
  pub own_id : key.id ≡ id
  pub pair : (m : List ℕ) → k.verify key.public_key m (k.sign key.private_key m) ≡ true

sound-executed :
    (k : Crypto) (ring : KeyRing) (now : ℕ) (req : CommandVerifyRequest) (s : Service)
    (cmd : SignedCommand)
    → IsSound k ring now req s cmd
    → verify_command k ring now req s ≡ executed_by now req cmd s
unfolding verify_command
sound-executed k ring now req s cmd w =
    let in_time = w.in_time in
    let fresh : ltb cmd.expires_at now ≡ false = ground arith in
    let n = (string_eq.beq_iff req.nonce cmd.nonce).1 w.same_nonce in
    let h = (string_eq.beq_iff req.payload_hash cmd.payload_hash).1 w.same_hash in
    let g = (string_eq.beq_iff req.signature cmd.signature).1 w.same_signature in
    rw (verify_command, w.stored, fresh, w.unused, n, h, g, w.found, w.genuine) refl

signed-valid :
    (k : Crypto) (ring : KeyRing) (key : SigningKey) (w : Drawn) (nonce : List ℕ)
    (req : IssueCommandRequest) (issued_by : String) (s : Service) (now : ℕ)
    → Dict.get ring.active_key ring.keys ≡ some key
    → IsKey k ring.active_key key
    → ((m : List ℕ)
        → k.decode_hex (k.encode_hex (k.sign key.private_key m)) ≡ k.sign key.private_key m)
    → now ≤ (signed k key w nonce req issued_by).expires_at
    → is_used (Dict.get (k.encode_hex nonce) s.nonces) ≡ false
    → (verify_command k ring now (request_of (signed k key w nonce req issued_by)) (record s {
      commands = Dict.put w.id (signed k key w nonce req issued_by) s.commands;
    })).0.valid
      ≡ true
signed-valid k ring key w nonce req issued_by s now found is_key reads in_time unused =
    let cmd = signed k key w nonce req issued_by in
    let t : Service = record s { commands = Dict.put w.id cmd s.commands } in
    let m = k.decode_hex (k.sha256_hex req.payload) in
    ap (λ (a : CommandVerifyResponse × Service). a.0.valid)
      (sound-executed k ring now (request_of cmd) t cmd (record {
        stored = get-put_self w.id cmd s.commands;
        in_time = in_time;
        unused = unused;
        same_nonce = refl;
        same_hash = refl;
        same_signature = refl;
        key = key;
        found = ap (λ i. Dict.get i ring.keys) is_key.own_id ∙ found;
        genuine = rw (reads m) (is_key.pair m);
      }))

-- A command that IssueCommand returns is answered valid when its agent checks it in time and its nonce
-- has not been used, if the hexadecimal text of a signature is read as it was written and the keys are pairs.
pub verify-issue_command :
    (k : Crypto) (ring : KeyRing) (w : Drawn) (req : IssueCommandRequest) (issued_by : String)
    (s t : Service) (cmd : SignedCommand) (now : ℕ)
    → ((key : SigningKey)
        → Dict.get ring.active_key ring.keys ≡ some key
        → IsKey k ring.active_key key)
    → ((private m : List ℕ) → k.decode_hex (k.encode_hex (k.sign private m)) ≡ k.sign private m)
    → issue_command k ring w req issued_by s ≡ issued cmd t
    → now ≤ cmd.expires_at
    → is_used (Dict.get cmd.nonce s.nonces) ≡ false
    → (verify_command k ring now (request_of cmd) t).0.valid ≡ true
unfolding issue_command
verify-issue_command k ring w req issued_by s t cmd now keys reads =
    let Goal = λ (c : SignedCommand) (u : Service).
      now ≤ c.expires_at
      → is_used (Dict.get c.nonce s.nonces) ≡ false
      → (verify_command k ring now (request_of c) u).0.valid ≡ true in
    let P = λ (i : Issued). i ≡ issued cmd t → Goal cmd t in
    option_cases P (Dict.get ring.active_key ring.keys) no_key _ (λ _ e. absurd (cc e))
      (λ key found.
        option_cases P w.nonce no_nonce
          (λ nonce. store_command (signed k key w nonce req issued_by) s) (λ _ e. absurd (cc e))
          (λ nonce _ e.
            let c = signed k key w nonce req issued_by in
            let u : Service = record s { commands = Dict.put w.id c s.commands } in
            let same_command : c ≡ cmd = issued_command e in
            let same_service : u ≡ t = issued_service e in
            subst (λ v. Goal cmd v) same_service
              (subst (λ x. Goal x u) same_command
                (signed-valid k ring key w nonce req issued_by s now found (keys key found)
                  (reads key.private_key)))))
  where
    issued_command : {c d : SignedCommand} {u v : Service} → issued c u ≡ issued d v → c ≡ d
    issued_command e = cc e

    issued_service : {c d : SignedCommand} {u v : Service} → issued c u ≡ issued d v → u ≡ v
    issued_service e = cc e
