-- ===== src/Policy/ApprovalLaws.antt =====
-- `validateApproval` of packages/policy/src/engine.ts against `ApprovalBound`.
use tabgrant.Common.{
  ◌≡◌, ◌↔◌, inl, inr, refl, sym, ap, String, true, false, List, [], ◌∷◌, Option, none, some, arith,
  ===_iff, Option-cases, Bool-cases,
}
use tabgrant.Protocol.Platform.{Platform}
use tabgrant.Protocol.Actions.{Action, ApprovalReceipt, approval_schema}
use tabgrant.Protocol.Access.{Capability}
use tabgrant.Policy.Request.{PreparedActionState, PolicyEvaluationRequest, shaped, safe_parse}
use tabgrant.Policy.Grant.{is_true}
use tabgrant.Policy.Approval.{some_unmet, approval_pairs, check_receipt, validate_approval}
use tabgrant.Policy.ParseLaws.{safe_parse-eq-some, safe_parse-shaped}
use tabgrant.Policy.Permits.{ApprovalBound}

abbrev AllMet : List (String × Option String) → Type 0
AllMet [] = Unit
AllMet ((a, b) ∷ pairs) = (b ≡ some a) × AllMet pairs

some_unmet_iff : (pairs : List (String × Option String)) → (some_unmet pairs ≡ false) ↔ AllMet pairs
unfolding some_unmet
some_unmet_iff [] = ((λ e. tt), (λ t. refl))
some_unmet_iff ((a, none) ∷ pairs) = ground arith
some_unmet_iff ((a, some b) ∷ pairs) = ground (arith, ===_iff a b, some_unmet_iff pairs)

module _ (p : Platform) (q : PolicyEvaluationRequest) (a : Action) (c : Capability) where
  Bound_of_receipt :
      (r : ApprovalReceipt) (stored : PreparedActionState)
      → q.context.prepared ≡ some stored
      → q.approval ≡ shaped r
      → approval_schema p r ≡ true
      → is_true q.context.approval_signature_verified ≡ true
      → check_receipt p r stored a c q.context ≡ none
      → ApprovalBound p q a c
  unfolding check_receipt
  Bound_of_receipt r stored is_stored is_receipt fits signed e =
      let (e1, (e2, (e3, (e4, (e5, (e6, (e7, (e8, (e9, (e10, (e11, _))))))))))) =
        (some_unmet_iff (approval_pairs p r stored a c q.context)).0 (ground arith) in
      record {
        stored = stored;
        receipt = r;
        is_stored = is_stored;
        is_receipt = is_receipt;
        well_formed = fits;
        verified = ground arith;
        unspent = ground arith;
        begun = ground arith;
        unexpired = ground arith;
        same_prepare = cc;
        same_action = cc;
        prepared_action = cc;
        prepared_state = cc;
        same_state = e5;
        client = cc;
        task = cc;
        tab = cc;
        document = cc;
        origin = cc;
        policy = cc;
        present_after = ground arith;
        present_before = ground arith;
      }

  pub Bound_of_validated :
      validate_approval p (safe_parse (approval_schema p) q.approval) a c q.context ≡ none
      → ApprovalBound p q a c
  unfolding validate_approval
  Bound_of_validated e = elim (Option-cases q.context.prepared) [
    | inl missing ↦ absurd (cc (rw (missing, validate_approval) at e))
    | inr (stored, is_stored) ↦ elim (Option-cases (safe_parse (approval_schema p) q.approval)) [
      | inl missing ↦ absurd (cc (rw (is_stored, missing, validate_approval) at e))
      | inr (r, parsed) ↦
          let (is_receipt, fits) = (safe_parse-eq-some (approval_schema p) q.approval r).0 parsed in
          elim (Bool-cases (is_true q.context.approval_signature_verified)) [
            | inl signed ↦ Bound_of_receipt r stored is_stored is_receipt fits signed (ground arith)
            | inr unsigned ↦ absurd (ground arith)
          ]
    ]
  ]

  receipt_of_Bound :
      (b : ApprovalBound p q a c) → check_receipt p b.receipt b.stored a c q.context ≡ none
  unfolding check_receipt
  receipt_of_Bound b =
      let met : some_unmet (approval_pairs p b.receipt b.stored a c q.context) ≡ false =
        (some_unmet_iff (approval_pairs p b.receipt b.stored a c q.context)).1 (
          ap some (sym b.same_prepare),
          (
            ap some (sym b.same_action),
            (
              ap some (sym b.prepared_action),
              (
                ap some (sym b.prepared_state),
                (
                  b.same_state,
                  (
                    ap some (sym b.client),
                    (
                      ap some (sym b.task),
                      (
                        ap some (sym b.tab),
                        (
                          ap some (sym b.document),
                          (ap some (sym b.origin), (ap some (sym b.policy), tt)),
                        ),
                      ),
                    ),
                  ),
                ),
              ),
            ),
          ),
        ) in
      ground (arith, b.unspent, b.begun, b.unexpired, b.present_after, b.present_before)

  pub validated_of_Bound :
      ApprovalBound p q a c
      → validate_approval p (safe_parse (approval_schema p) q.approval) a c q.context ≡ none
  unfolding validate_approval
  validated_of_Bound b =
      let held = receipt_of_Bound b in
      let parsed =
        safe_parse-shaped (approval_schema p) q.approval b.receipt b.is_receipt b.well_formed in
      rw (b.is_stored, parsed, b.verified, validate_approval) held
