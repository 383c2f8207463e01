-- ===== src/Broker/Signature.antt =====
-- apps/broker/src/capability.ts: a capability that was issued verifies, and one that verifies carries the bytes of
-- the signature of its claims. Other texts with these bytes verify too: `Buffer.from(…, "hex")` stops at the first
-- pair that is not hexadecimal.
use tabgrant.Common.{
  ℕ, ◌≡◌, refl, ◌&&◌, String, true, List, [], ◌∷◌, some, inl, inr, arith, Option-cases, Bool-cases,
}
use tabgrant.Protocol.Text.{codes}
use tabgrant.Protocol.Platform.{Platform}
use tabgrant.Protocol.Access.{Capability, claims_schema, capability_schema}
use tabgrant.Broker.Capability.{
  CapabilityGrant, issue, verify, sign_claims, hex_bytes, same_bytes, claims_of_grant,
  to_protocol_scopes,
}

pub same_bytes_refl : (xs : List ℕ) → same_bytes xs xs ≡ true
unfolding same_bytes
same_bytes_refl [] = refl
same_bytes_refl (x ∷ xs) = ground (arith, same_bytes_refl xs)

pub same_bytes_sound : (xs ys : List ℕ) → same_bytes xs ys ≡ true → xs ≡ ys
unfolding same_bytes
same_bytes_sound [] [] e = refl
same_bytes_sound [] (y ∷ ys) e = absurd (cc)
same_bytes_sound (x ∷ xs) [] e = absurd (cc)
same_bytes_sound (x ∷ xs) (y ∷ ys) e =
    let head : x ≡ y = ground arith in let tail = same_bytes_sound xs ys (ground arith) in cc

issue-IsSigned :
    (p : Platform) (secret : String) (g : CapabilityGrant) (id nonce : String) (c : Capability)
    → issue p secret g id nonce ≡ some c
    → (capability_schema p c ≡ true) × (c.signature ≡ sign_claims p secret c.claims)
unfolding issue
issue-IsSigned p secret g id nonce c e =
    elim (Option-cases (to_protocol_scopes g.declared_model_provider g.scopes)) [
      | inl bad ↦ absurd (cc (rw (bad, issue) at e))
      | inr (scopes, good) ↦
          let claims = claims_of_grant p g scopes id nonce in
          let signed : Capability = record {
            claims = claims;
            signature = sign_claims p secret claims;
          } in
          elim (Bool-cases (claims_schema p claims && capability_schema p signed)) [
            | inr refused ↦ absurd (cc (rw (good, issue, refused) at e))
            | inl fits ↦
                let e' = rw (good, issue, fits) at e in
                let is : signed ≡ c = cc in
                let schema : capability_schema p signed ≡ true = ground arith in
                rw (← is) (schema, refl)
          ]
    ]

-- Every capability that is issued verifies with the same secret.
pub verify-issue :
    (p : Platform) (secret : String) (g : CapabilityGrant) (id nonce : String) (c : Capability)
    → issue p secret g id nonce ≡ some c
    → verify p secret c ≡ true
unfolding verify
verify-issue p secret g id nonce c e =
    let (fits, signed) = issue-IsSigned p secret g id nonce c e in
    let same = same_bytes_refl (hex_bytes (codes (sign_claims p secret c.claims))) in
    rw (fits, signed) same

-- A capability that verifies fits its schema, and its signature has the bytes of the
-- signature of its own claims.
pub verify_sound :
    (p : Platform) (secret : String) (c : Capability)
    → verify p secret c ≡ true
    → (capability_schema p c ≡ true)
      × (hex_bytes (codes c.signature) ≡ hex_bytes (codes (sign_claims p secret c.claims)))
unfolding verify
verify_sound p secret c e = (ground arith, same_bytes_sound _ _ (ground arith))
