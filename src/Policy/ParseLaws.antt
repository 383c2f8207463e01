-- ===== src/Policy/ParseLaws.antt =====
-- `safeParse` as packages/policy/src/engine.ts uses it: what it accepts.
use tabgrant.Common.{◌≡◌, ◌↔◌, Bool, true, some, arith}
use tabgrant.Policy.Request.{Unknown, malformed, shaped, safe_parse}

module _ {A : Type 0} (schema : A → Bool) where
  pub safe_parse-eq-some :
      (u : Unknown A) (a : A)
      → (safe_parse schema u ≡ some a) ↔ ((u ≡ shaped a) × (schema a ≡ true))
  safe_parse-eq-some (malformed kind) a = ((λ e. absurd (cc)), (λ (e, h). absurd (cc)))
  safe_parse-eq-some (shaped b) a = ground arith

  pub safe_parse-shaped :
      (u : Unknown A) (a : A) → u ≡ shaped a → schema a ≡ true → safe_parse schema u ≡ some a
  safe_parse-shaped u a e h = (safe_parse-eq-some u a).1 (e, h)
