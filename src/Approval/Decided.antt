-- ===== src/Approval/Decided.antt =====
-- What evaluate_effective_quality (src/quantara/quality_approval.py) decides.
use quantara.Prelude.{
  ℕ, ◌≡◌, ◌⊎◌, inl, inr, refl, sym, ◌∙◌, subst, Option, none, some, List, Bool-cases, if_true,
  if_false,
}
use quantara.Text.{Text, codes, text_eq, text_eq_iff}
use quantara.Hashing.{utf_8}
use quantara.Errors.{ok, >>=-eq-ok, ok_injective}
use quantara.Approval.{
  QualityApprovalRecord, RawState, raw_pass, raw_warn_blocked, raw_fail, RawReport, report_identity,
}
use quantara.Approval.Decision.{
  pass, warn_blocked, warn_approved, fail, EffectiveQualityDecision, Expected, authenticate,
  decide_policy_2, decide_warnings, decide, evaluate_effective_quality,
}
use quantara.Approval.Approves.{Approves, authenticate-Approves}

-- The decision for each state of the report.
abbrev pub Decides :
    (List ℕ → Text)
    → RawReport
    → RawState
    → Text
    → Option QualityApprovalRecord
    → Expected
    → EffectiveQualityDecision
    → Type 0
Decides sha256_hex report raw_fail version approval expected d = d.effective_state ≡ fail
Decides sha256_hex report raw_pass version approval expected d =
    (d.effective_state ≡ pass) × (approval ≡ none)
Decides sha256_hex report raw_warn_blocked version approval expected d =
    ((d.effective_state ≡ warn_blocked)
      × ((version ≡ codes "1") ⊎ ((version ≡ codes "2") × (approval ≡ none))))
    ⊎ ((d.effective_state ≡ warn_approved)
        × (version ≡ codes "2")
        × ((r : QualityApprovalRecord) × (approval ≡ some r)
            × (d.approval_record_sha256 ≡ some r.record_sha256)
            × Approves sha256_hex report d.raw_identity_sha256 r expected))

-- The decision keeps the report's state and the digest of its identity.
abbrev pub IsAbout : RawState → Text → EffectiveQualityDecision → Type 0
IsAbout state sha d = (d.raw_state ≡ state) × (d.raw_identity_sha256 ≡ sha)

decide_policy_2-Decides :
    (sha256_hex : List ℕ → Text) (report : RawReport) (raw_identity sha : Text)
    (approval : Option QualityApprovalRecord) (expected : Expected) (d : EffectiveQualityDecision)
    → decide_policy_2 sha256_hex report raw_identity sha approval expected ≡ ok d
    → IsAbout raw_warn_blocked sha d
      × Decides sha256_hex report raw_warn_blocked (codes "2") approval expected d
unfolding decide_policy_2
decide_policy_2-Decides sha256_hex report raw_identity sha none expected d h =
    subst
      (λ e.
        IsAbout raw_warn_blocked sha e
        × Decides sha256_hex report raw_warn_blocked (codes "2") none expected e)
      (ok_injective h) ((refl, refl), inl (refl, inr (refl, refl)))
decide_policy_2-Decides sha256_hex report raw_identity sha (some r) expected d h =
    let (u, e, f) = >>=-eq-ok (authenticate sha256_hex report sha r expected) _ h in
    subst
      (λ e.
        IsAbout raw_warn_blocked sha e
        × Decides sha256_hex report raw_warn_blocked (codes "2") (some r) expected e)
      (ok_injective f)
      (
        (refl, refl),
        inr (refl, refl, (r, refl, refl, authenticate-Approves sha256_hex report sha r expected e)),
      )

decide_warnings-Decides :
    (sha256_hex : List ℕ → Text) (report : RawReport) (version raw_identity sha : Text)
    (approval : Option QualityApprovalRecord) (expected : Expected) (d : EffectiveQualityDecision)
    → decide_warnings sha256_hex report version raw_identity sha approval expected ≡ ok d
    → IsAbout raw_warn_blocked sha d
      × Decides sha256_hex report raw_warn_blocked version approval expected d
unfolding decide_warnings
decide_warnings-Decides sha256_hex report version raw_identity sha approval expected d h =
    elim (Bool-cases (text_eq version (codes "1"))) [
      | inl one ↦
          subst
            (λ e.
              IsAbout raw_warn_blocked sha e
              × Decides sha256_hex report raw_warn_blocked version approval expected e)
            (ok_injective (sym (if_true _ _ _ one) ∙ h))
            ((refl, refl), inl (refl, inl ((text_eq_iff version (codes "1")).0 one)))
      | inr other ↦
          let k = sym (if_false _ _ _ other) ∙ h in
          elim (Bool-cases (text_eq version (codes "2"))) [
            | inl two ↦
                subst
                  (λ v.
                    IsAbout raw_warn_blocked sha d
                    × Decides sha256_hex report raw_warn_blocked v approval expected d)
                  (sym ((text_eq_iff version (codes "2")).0 two))
                  (decide_policy_2-Decides sha256_hex report raw_identity sha approval expected d
                    (sym (if_true _ _ _ two) ∙ k))
            | inr neither ↦ let clash = sym (if_false _ _ _ neither) ∙ k in cc
          ]
    ]

decide-Decides :
    (sha256_hex : List ℕ → Text) (report : RawReport) (state : RawState)
    (version raw_identity sha : Text) (approval : Option QualityApprovalRecord)
    (expected : Expected) (d : EffectiveQualityDecision)
    → decide sha256_hex report state version raw_identity sha approval expected ≡ ok d
    → IsAbout state sha d × Decides sha256_hex report state version approval expected d
unfolding decide
decide-Decides sha256_hex report raw_fail version raw_identity sha approval expected d h =
    subst
      (λ e. IsAbout raw_fail sha e × Decides sha256_hex report raw_fail version approval expected e)
      (ok_injective h) ((refl, refl), refl)
decide-Decides sha256_hex report raw_pass version raw_identity sha none expected d h =
    subst (λ e. IsAbout raw_pass sha e × Decides sha256_hex report raw_pass version none expected e)
      (ok_injective h) ((refl, refl), (refl, refl))
decide-Decides sha256_hex report raw_pass version raw_identity sha (some r) expected d h = cc
decide-Decides sha256_hex report raw_warn_blocked version raw_identity sha approval expected d h =
    decide_warnings-Decides sha256_hex report version raw_identity sha approval expected d h

-- A decision keeps the state of the report and the digest of its identity. A FAIL stays FAIL, a PASS
-- stays PASS and takes no record, and a report with warnings is WARN_APPROVED only under policy 2
-- with a record whose hash verifies, which is bound to this report and to the arguments given, and
-- which covers each warning by its check, count and digest, with as many findings as there are
-- warnings; it is WARN_BLOCKED under policy 1 or without a record.
pub evaluate_effective_quality-Decides :
    (sha256_hex : List ℕ → Text) (report : RawReport) (version : Text)
    (approval : Option QualityApprovalRecord) (expected : Expected) (d : EffectiveQualityDecision)
    → evaluate_effective_quality sha256_hex report version approval expected ≡ ok d
    → (identity : Text) × (report_identity report ≡ ok identity)
      × IsAbout report.state (sha256_hex (utf_8 identity)) d
      × Decides sha256_hex report report.state version approval expected d
unfolding evaluate_effective_quality
evaluate_effective_quality-Decides sha256_hex report version approval expected d h =
    let (identity, e, f) = >>=-eq-ok (report_identity report) _ h in
    let (about, decides) =
      decide-Decides sha256_hex report report.state version identity (sha256_hex (utf_8 identity))
        approval expected d f in
    (identity, e, about, decides)
