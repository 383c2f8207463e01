-- ===== src/Policy/GrantLaws.antt =====
-- `validateGrant` of packages/policy/src/engine.ts against `GrantHolds`.
use tabgrant.Common.{◌≡◌, ◌↔◌, String, false, List, [], ◌∷◌, none, arith, ===_iff, refl}
use tabgrant.Protocol.Access.{Capability, PolicyLease}
use tabgrant.Policy.Request.{PolicyContext}
use tabgrant.Policy.Grant.{some_differ, context_pairs, context_mismatch, validate_grant}
use tabgrant.Policy.Permits.{SameContext, GrantHolds}

abbrev AllSame : List (String × String) → Type 0
AllSame [] = Unit
AllSame ((a, b) ∷ pairs) = (a ≡ b) × AllSame pairs

some_differ_iff : (pairs : List (String × String)) → (some_differ pairs ≡ false) ↔ AllSame pairs
unfolding some_differ
some_differ_iff [] = ((λ e. tt), (λ t. refl))
some_differ_iff ((a, b) ∷ pairs) = ground (arith, ===_iff a b, some_differ_iff pairs)

SameContext-of_pairs :
    (c : Capability) (l : PolicyLease) (x : PolicyContext)
    → AllSame (context_pairs c l x)
    → SameContext c l x
SameContext-of_pairs c l x
      (
        e1,
        (e2, (e3, (e4, (e5, (e6, (e7, (e8, (e9, (e10, (e11, (e12, (e13, (e14, (e15, _)))))))))))))),
      ) =
    record {
      client = e1;
      task = e2;
      browser = e3;
      tab = e4;
      document = e5;
      origin = e6;
      audience = e7;
      policy = e8;
      lease_capability = e9;
      lease_client = e10;
      lease_task = e11;
      lease_browser = e12;
      lease_tab = e13;
      lease_document = e14;
      lease_origin = e15;
    }

pairs_of_SameContext :
    (c : Capability) (l : PolicyLease) (x : PolicyContext)
    → SameContext c l x
    → AllSame (context_pairs c l x)
pairs_of_SameContext c l x s = (
  s.client,
  (
    s.task,
    (
      s.browser,
      (
        s.tab,
        (
          s.document,
          (
            s.origin,
            (
              s.audience,
              (
                s.policy,
                (
                  s.lease_capability,
                  (
                    s.lease_client,
                    (
                      s.lease_task,
                      (s.lease_browser, (s.lease_tab, (s.lease_document, (s.lease_origin, tt)))),
                    ),
                  ),
                ),
              ),
            ),
          ),
        ),
      ),
    ),
  ),
)

-- `contextMismatch` finds nothing exactly when the capability and the lease name the client, task, browser,
-- tab, document, origin, audience and policy of the call, and the lease names the capability.
pub context_mismatch_iff :
    (c : Capability) (l : PolicyLease) (x : PolicyContext)
    → (context_mismatch c l x ≡ false) ↔ SameContext c l x
unfolding context_mismatch
context_mismatch_iff c l x =
    let (to, from) = some_differ_iff (context_pairs c l x) in
    ((λ e. SameContext-of_pairs c l x (to e)), (λ s. from (pairs_of_SameContext c l x s)))

pub GrantHolds-of_none :
    (c : Capability) (l : PolicyLease) (x : PolicyContext) (kind : String)
    → validate_grant c l x kind ≡ none
    → GrantHolds c l x
unfolding validate_grant
GrantHolds-of_none c l x kind e = record {
  signed = ground arith;
  enterprise = ground arith;
  rate = ground arith;
  context = (context_mismatch_iff c l x).0 (ground arith);
  begun = ground arith;
  unexpired = ground arith;
  attenuates = ground arith;
  lease_active = ground arith;
  lease_unexpired = ground arith;
  lease_busy = ground arith;
  uses_left = ground arith;
}

pub none_of_GrantHolds :
    (c : Capability) (l : PolicyLease) (x : PolicyContext) (kind : String)
    → GrantHolds c l x
    → validate_grant c l x kind ≡ none
unfolding validate_grant
none_of_GrantHolds c l x kind h =
    let same : context_mismatch c l x ≡ false = (context_mismatch_iff c l x).1 h.context in
    ground arith
