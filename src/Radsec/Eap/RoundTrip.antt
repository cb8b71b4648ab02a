-- ===== src/Radsec/Eap/RoundTrip.antt =====
-- Encoding and parsing of EAP packets.
use apexaegis_management_pla.Prelude.{
  ℕ, suc, ◌≤◌, ◌≡◌, refl, ◌⊎◌, inl, inr, List, ◌∷◌, ◌++◌, some, arith, length, take, length-append,
  take-append, ltb, ◌||◌, false, true, u16, ap, ◌∙◌,
}
use apexaegis_management_pla.Radsec.Eap.{
  EapPacket, parse_eap, encode_eap, request, response, has_type,
}

abbrev pub HasType : EapPacket → Type 0
HasType e = (e.code ≡ request) ⊎ (e.code ≡ response)

parse_eap_typed :
    (c id hi lo t m : ℕ) (rest : List ℕ)
    → has_type c ≡ true
    → u16 hi lo ≡ suc (suc (suc (suc (suc m))))
    → m ≤ length rest
    → parse_eap (c ∷ id ∷ hi ∷ lo ∷ t ∷ rest)
      ≡ some (record { code = c; identifier = id; type = t; payload = take m rest })
unfolding parse_eap
parse_eap_typed c id hi lo t m rest hc hn hm =
    let long : ltb (length (c ∷ id ∷ hi ∷ lo ∷ t ∷ rest)) 4 ≡ false = ground arith in
    let fits : (ltb (suc (suc (suc (suc (suc m))))) 4
          || ltb (length (c ∷ id ∷ hi ∷ lo ∷ t ∷ rest)) (suc (suc (suc (suc (suc m))))))
        ≡ false =
      ground arith in
    let typed : ltb (suc (suc (suc (suc (suc m))))) 5 ≡ false = ground arith in
    rw (hn, long, fits, hc, typed)

HasType-has_type : (e : EapPacket) → HasType e → has_type e.code ≡ true
HasType-has_type e (inl c) = rw c
HasType-has_type e (inr c) = rw c

-- A Request or a Response of at most 65535 bytes is read back as it was written, whatever follows
-- it in the buffer.
pub parse-encode_eap :
    (e : EapPacket) (more : List ℕ)
    → HasType e
    → length e.payload ≤ 65530
    → parse_eap (encode_eap e ++ more) ≡ some e
unfolding encode_eap
parse-encode_eap e more c h =
    parse_eap_typed e.code e.identifier _ _ e.type (length e.payload) (e.payload ++ more)
      (HasType-has_type e c) (omega arith) (omega (arith, length-append e.payload more))
    ∙ ap (λ d. some (record e { payload = d })) (take-append (length e.payload) e.payload more refl)
