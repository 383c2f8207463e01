-- ===== src/Policy/EngineLaws.antt =====
-- `evaluatePolicy` of packages/policy/src/engine.ts: exactly when it allows an action, exactly when it
-- allows a preview, and what every decision carries.
use tabgrant.Common.{
  ◌≡◌, ◌≢◌, ◌↔◌, ◌⊎◌, inl, inr, refl, true, false, none, some, arith, Option-cases, is_some,
}
use tabgrant.Protocol.Platform.{Platform}
use tabgrant.Protocol.Primitives.{r2, r3}
use tabgrant.Protocol.Actions.{Action, action_kind, action_schema, approval_schema}
use tabgrant.Protocol.Access.{Capability, PolicyLease, capability_schema, lease_schema}
use tabgrant.Protocol.Decision.{PolicyDecision, allow, allow_prepare, deny, error_code_fits}
use tabgrant.Policy.Canonicalize.{hash_action}
use tabgrant.Policy.Request.{
  PolicyEvaluationRequest, Phase, prepare, commit, shaped, safe_parse, risk_by_action,
  forbidden_code_for_kind, action_kind_of, allow_decision, allow_prepare_decision,
}
use tabgrant.Policy.Grant.{validate_grant}
use tabgrant.Policy.Scopes.{stale_reference, data_class_allowed, required_scope_present}
use tabgrant.Policy.Approval.{validate_approval, check_receipt}
use tabgrant.Policy.Engine.{decide_by_risk, evaluate_parsed, evaluate_policy}
use tabgrant.Policy.Permits.{Vetted, ApprovalBound, IsLowRisk, Permitted, Previewed}
use tabgrant.Policy.GrantLaws.{GrantHolds-of_none, none_of_GrantHolds}
use tabgrant.Policy.ScopeLaws.{
  stale_reference_iff, data_class_allowed_iff, InScope-of_required, required_of_InScope,
}
use tabgrant.Policy.ParseLaws.{safe_parse-eq-some, safe_parse-shaped}
use tabgrant.Policy.ApprovalLaws.{Bound_of_validated, validated_of_Bound}

-- A denial names its reason by a code and grants no hash.
abbrev IsDenial : PolicyDecision → Type 0
IsDenial d = (d.outcome ≡ deny) × (is_some d.error_code ≡ true) × (d.action_hash ≡ none)

abbrev IsConsistent : PolicyDecision → Type 0
IsConsistent d =
    (error_code_fits d.outcome d.error_code ≡ true) × ((d.outcome ≡ deny) ↔ (d.action_hash ≡ none))

IsConsistent-of_denial : (d : PolicyDecision) → IsDenial d → IsConsistent d
IsConsistent-of_denial d (o, c, h) = (rw o c, ((λ e. h), (λ e. o)))

grant-IsDenial :
    (c : Capability) (l : PolicyLease) (q : PolicyEvaluationRequest) (a : Action)
    (d : PolicyDecision)
    → validate_grant c l q.context (action_kind a) ≡ some d
    → IsDenial d
unfolding validate_grant
grant-IsDenial c l q a d e = ground arith

approval-IsDenial :
    (p : Platform) (q : PolicyEvaluationRequest) (a : Action) (c : Capability) (d : PolicyDecision)
    → validate_approval p (safe_parse (approval_schema p) q.approval) a c q.context ≡ some d
    → IsDenial d
unfolding validate_approval check_receipt
approval-IsDenial p q a c d e = ground arith

evaluate_parsed-admitted :
    (p : Platform) (q : PolicyEvaluationRequest) (a : Action) (c : Capability) (l : PolicyLease)
    → (evaluate_parsed p q a c l).outcome ≢ deny
    → (validate_grant c l q.context (action_kind a) ≡ none)
      × (stale_reference a q.context ≡ false)
      × (data_class_allowed a c ≡ true)
      × (required_scope_present p a c ≡ true)
unfolding evaluate_parsed
evaluate_parsed-admitted p q a c l h =
    elim (Option-cases (validate_grant c l q.context (action_kind a))) [
      | inl passed ↦ (passed, ground arith, ground arith, ground arith)
      | inr (d, failed) ↦
          let denied = grant-IsDenial c l q a d failed in
          absurd (h (rw (failed, evaluate_parsed) denied.0))
    ]

record Stages (p : Platform) (q : PolicyEvaluationRequest) : Type 0 where
  action : Action
  capability : Capability
  lease : PolicyLease
  vetted : Vetted p q action capability lease

-- A decision other than a denial has passed every check, and the risk decides.
Stages-of_admitted :
    (p : Platform) (q : PolicyEvaluationRequest) → (evaluate_policy p q).outcome ≢ deny → Stages p q
unfolding evaluate_policy action_kind_of
Stages-of_admitted p q h =
    elim (Option-cases (forbidden_code_for_kind p (action_kind_of q.action))) [
      | inr (code, bad) ↦ absurd (h (rw (bad, evaluate_policy)))
      | inl fine ↦ elim (Option-cases (safe_parse (action_schema p) q.action)) [
        | inl bad ↦ absurd (h (rw (fine, bad, evaluate_policy)))
        | inr (a, pa) ↦ elim (Option-cases (safe_parse (capability_schema p) q.capability)) [
          | inl bad ↦ absurd (h (rw (fine, pa, bad, evaluate_policy)))
          | inr (c, pc) ↦ elim (Option-cases (safe_parse (lease_schema p) q.lease)) [
            | inl bad ↦ absurd (h (rw (fine, pa, pc, bad, evaluate_policy)))
            | inr (l, pl) ↦
                let (ea, fa) = (safe_parse-eq-some (action_schema p) q.action a).0 pa in
                let (ec, fc) = (safe_parse-eq-some (capability_schema p) q.capability c).0 pc in
                let (el, fl) = (safe_parse-eq-some (lease_schema p) q.lease l).0 pl in
                let (g, s, d, r) =
                  evaluate_parsed-admitted p q a c l
                    (λ e. h (rw (fine, pa, pc, pl, evaluate_policy) e)) in
                record {
                  action = a;
                  capability = c;
                  lease = l;
                  vetted = record {
                    is_action = ea;
                    action_fits = fa;
                    not_prohibited = rw (ea, action_kind_of) at fine;
                    is_capability = ec;
                    capability_fits = fc;
                    is_lease = el;
                    lease_fits = fl;
                    grant = GrantHolds-of_none c l q.context (action_kind a) g;
                    fresh = (stale_reference_iff a q.context).0 s;
                    data_within = (data_class_allowed_iff a c).0 d;
                    in_scope = InScope-of_required p a c r;
                  };
                }
          ]
        ]
      ]
    ]

-- Vetted requests are decided by risk and phase alone.
evaluate-Vetted :
    (p : Platform) (q : PolicyEvaluationRequest) (a : Action) (c : Capability) (l : PolicyLease)
    → Vetted p q a c l
    → evaluate_policy p q ≡ decide_by_risk p q a c q.phase
unfolding evaluate_policy evaluate_parsed action_kind_of
evaluate-Vetted p q a c l v =
    let pa = safe_parse-shaped (action_schema p) q.action a v.is_action v.action_fits in
    let pc =
      safe_parse-shaped (capability_schema p) q.capability c v.is_capability v.capability_fits in
    let pl = safe_parse-shaped (lease_schema p) q.lease l v.is_lease v.lease_fits in
    let fine : forbidden_code_for_kind p (action_kind_of q.action) ≡ none =
      rw v.is_action v.not_prohibited in
    rw (
      fine,
      pa,
      pc,
      pl,
      evaluate_policy,
      none_of_GrantHolds c l q.context (action_kind a) v.grant,
      (stale_reference_iff a q.context).1 v.fresh,
      (data_class_allowed_iff a c).1 v.data_within,
      required_of_InScope p a c v.in_scope,
    )

module _ (p : Platform) (q : PolicyEvaluationRequest) (a : Action) (c : Capability) where
  decide-allow :
      (phase : Phase)
      → (decide_by_risk p q a c phase).outcome ≡ allow
      → ((phase ≡ prepare) × IsLowRisk a)
        ⊎ ((phase ≡ commit) × (risk_by_action a ≡ r2) × ApprovalBound p q a c)
  unfolding decide_by_risk allow_prepare_decision allow_decision
  decide-allow prepare e = inl (refl, ground arith)
  decide-allow commit e =
      elim (Option-cases
        (validate_approval p (safe_parse (approval_schema p) q.approval) a c q.context)) [
          | inl passed ↦ inr (refl, ground arith, Bound_of_validated p q a c passed)
          | inr (d, failed) ↦ absurd (ground (arith, approval-IsDenial p q a c d failed))
        ]

  decide-allow_prepare :
      (phase : Phase)
      → (decide_by_risk p q a c phase).outcome ≡ allow_prepare
      → (phase ≡ prepare) × ((risk_by_action a ≡ r2) ⊎ (risk_by_action a ≡ r3))
  unfolding decide_by_risk allow_prepare_decision allow_decision
  decide-allow_prepare prepare e = ground arith
  decide-allow_prepare commit e =
      elim (Option-cases
        (validate_approval p (safe_parse (approval_schema p) q.approval) a c q.context)) [
          | inl passed ↦ absurd (ground arith)
          | inr (d, failed) ↦ absurd (ground (arith, approval-IsDenial p q a c d failed))
        ]

-- `evaluatePolicy` answers ALLOW exactly when the request is permitted: shaped and well-formed
-- arguments, a kind that is not prohibited, a grant that holds, fresh references, data classes and
-- scope within the capability, and a low risk to prepare or, to commit, risk R2 with a bound approval.
pub evaluate_policy-allow_iff :
    (p : Platform) (q : PolicyEvaluationRequest)
    → ((evaluate_policy p q).outcome ≡ allow) ↔ Permitted p q
unfolding decide_by_risk allow_decision
evaluate_policy-allow_iff p q = (
  (λ e.
      let s = Stages-of_admitted p q (λ d. cc) in
      let decided = evaluate-Vetted p q s.action s.capability s.lease s.vetted in
      record {
        action = s.action;
        capability = s.capability;
        lease = s.lease;
        vetted = s.vetted;
        justified = decide-allow p q s.action s.capability q.phase (rw decided at e);
      }),
  (λ h.
      let decided = evaluate-Vetted p q h.action h.capability h.lease h.vetted in
      elim h.justified [
        | inl (phase, low) ↦ rw (decided, phase) (ground arith)
        | inr (phase, risk, bound) ↦
            let passed = validated_of_Bound p q h.action h.capability bound in
            rw (decided, phase, decide_by_risk, risk, passed) refl
      ]),
)

-- `evaluatePolicy` answers ALLOW_PREPARE exactly for a vetted request to prepare an action of risk R2 or R3.
pub evaluate_policy-allow_prepare_iff :
    (p : Platform) (q : PolicyEvaluationRequest)
    → ((evaluate_policy p q).outcome ≡ allow_prepare) ↔ Previewed p q
unfolding decide_by_risk allow_prepare_decision
evaluate_policy-allow_prepare_iff p q = (
  (λ e.
      let s = Stages-of_admitted p q (λ d. cc) in
      let decided = evaluate-Vetted p q s.action s.capability s.lease s.vetted in
      let found = decide-allow_prepare p q s.action s.capability q.phase (rw decided at e) in
      record {
        action = s.action;
        capability = s.capability;
        lease = s.lease;
        vetted = s.vetted;
        preparing = found.0;
        risky = found.1;
      }),
  (λ h.
      let decided = evaluate-Vetted p q h.action h.capability h.lease h.vetted in
      rw (decided, h.preparing) (ground (arith, h.risky))),
)

decide-IsConsistent :
    (p : Platform) (q : PolicyEvaluationRequest) (a : Action) (c : Capability) (phase : Phase)
    → IsConsistent (decide_by_risk p q a c phase)
unfolding decide_by_risk allow_prepare_decision allow_decision
decide-IsConsistent p q a c prepare = ground arith
decide-IsConsistent p q a c commit =
    elim (Option-cases
      (validate_approval p (safe_parse (approval_schema p) q.approval) a c q.context)) [
        | inl passed ↦ ground arith
        | inr (d, failed) ↦
            let denied = IsConsistent-of_denial d (approval-IsDenial p q a c d failed) in
            ground arith
      ]

evaluate_parsed-IsConsistent :
    (p : Platform) (q : PolicyEvaluationRequest) (a : Action) (c : Capability) (l : PolicyLease)
    → IsConsistent (evaluate_parsed p q a c l)
unfolding evaluate_parsed
evaluate_parsed-IsConsistent p q a c l =
    elim (Option-cases (validate_grant c l q.context (action_kind a))) [
      | inl passed ↦ ground (arith, decide-IsConsistent p q a c q.phase)
      | inr (d, failed) ↦
          rw (failed, evaluate_parsed) (IsConsistent-of_denial d (grant-IsDenial c l q a d failed))
    ]

evaluate_policy-IsConsistent :
    (p : Platform) (q : PolicyEvaluationRequest) → IsConsistent (evaluate_policy p q)
unfolding evaluate_policy
evaluate_policy-IsConsistent p q =
    elim (Option-cases (forbidden_code_for_kind p (action_kind_of q.action))) [
      | inr (code, bad) ↦ rw (bad, evaluate_policy) (ground arith)
      | inl fine ↦ elim (Option-cases (safe_parse (action_schema p) q.action)) [
        | inl bad ↦ rw (fine, bad, evaluate_policy) (ground arith)
        | inr (a, pa) ↦ elim (Option-cases (safe_parse (capability_schema p) q.capability)) [
          | inl bad ↦ rw (fine, pa, bad, evaluate_policy) (ground arith)
          | inr (c, pc) ↦ elim (Option-cases (safe_parse (lease_schema p) q.lease)) [
            | inl bad ↦ rw (fine, pa, pc, bad, evaluate_policy) (ground arith)
            | inr (l, pl) ↦
                rw (fine, pa, pc, pl, evaluate_policy) (evaluate_parsed-IsConsistent p q a c l)
          ]
        ]
      ]
    ]

decide-hash :
    (p : Platform) (q : PolicyEvaluationRequest) (a : Action) (c : Capability) (phase : Phase)
    → (decide_by_risk p q a c phase).outcome ≢ deny
    → (decide_by_risk p q a c phase).action_hash ≡ some (hash_action p a)
unfolding decide_by_risk allow_prepare_decision allow_decision
decide-hash p q a c prepare h = ground arith
decide-hash p q a c commit h =
    elim (Option-cases
      (validate_approval p (safe_parse (approval_schema p) q.approval) a c q.context)) [
        | inl passed ↦ ground arith
        | inr (d, failed) ↦ absurd (ground (arith, approval-IsDenial p q a c d failed))
      ]

-- Every decision carries an error code exactly when it is a denial, and an action hash exactly when
-- it is not.
pub evaluate_policy-carries :
    (p : Platform) (q : PolicyEvaluationRequest)
    → (error_code_fits (evaluate_policy p q).outcome (evaluate_policy p q).error_code ≡ true)
      × (((evaluate_policy p q).outcome ≡ deny) ↔ ((evaluate_policy p q).action_hash ≡ none))
evaluate_policy-carries p q = evaluate_policy-IsConsistent p q

-- The hash that a decision carries is the one of the action that was asked for: for a request whose
-- action has the shape of one, and a decision that is no denial.
pub evaluate_policy-action_hash :
    (p : Platform) (q : PolicyEvaluationRequest) (a : Action)
    → q.action ≡ shaped a
    → (evaluate_policy p q).outcome ≢ deny
    → (evaluate_policy p q).action_hash ≡ some (hash_action p a)
evaluate_policy-action_hash p q a e admitted =
    let s = Stages-of_admitted p q admitted in
    let decided = evaluate-Vetted p q s.action s.capability s.lease s.vetted in
    let same : s.action ≡ a = cc (s.vetted.is_action) in
    rw (decided, ← same)
      (decide-hash p q s.action s.capability q.phase (λ d. admitted (rw decided d)))
