-- ===== src/Approval/Decision.antt =====
-- src/quantara/quality_approval.py: evaluate_effective_quality. An argument that is None is `none`.
use quantara.Prelude.{
  ℕ, Bool, true, false, not, ◌&&◌, Option, none, some, List, [], ◌∷◌, length, ltb, if◌then◌else◌,
}
use quantara.Prelude.Int.{ℤ, leb_ℤ}
use quantara.Text.{Text, codes, text_eq}
use quantara.Json.{Fields, string, object, no_fields}
use quantara.Jcs.{canonicalize}
use quantara.Hashing.{utf_8}
use quantara.Hashing.Columns.{◌▸◌}
use quantara.Approval.{
  ApprovedFinding, QualityApprovalRecord, verify_self_hash, ReportFinding, finding,
  canonical_finding_sha256, RawState, raw_pass, raw_warn_blocked, raw_fail, RawReport,
  report_identity,
}
use quantara.Errors.{Result, ok, err, quality_approval_rejected, raise_if, ◌>>=◌, ◌>>◌}

pub data EffectiveState : Type 0 where
  pass warn_blocked warn_approved fail : EffectiveState

pub record EffectiveQualityDecision : Type 0 where
  pub effective_state : EffectiveState
  pub raw_state : RawState
  pub policy_version : Text
  pub raw_identity : Text
  pub raw_identity_sha256 : Text
  pub approval_record_id : Option Text
  pub approval_record_sha256 : Option Text

unfoldable pub state_name : EffectiveState → Text
state_name pass = codes "PASS"
state_name warn_blocked = codes "WARN_BLOCKED"
state_name warn_approved = codes "WARN_APPROVED"
state_name fail = codes "FAIL"

-- An entry that is there if the value is not None.
unfoldable pub optional_field : (key : Text) → Option Text → Fields → Fields
optional_field key none entries = entries
optional_field key (some value) entries = Fields.entry key (string value) entries

-- The payload of the decision; the order of its entries is that of the source.
unfoldable pub decision_identity : EffectiveQualityDecision → Result Text
unfolding optional_field state_name
decision_identity self = canonicalize (
    object (
      ("policy_version", string self.policy_version)
      ▸ ("raw_identity_sha256", string self.raw_identity_sha256)
      ▸ ("effective_state", string (state_name self.effective_state))
      ▸ optional_field (codes "approval_record_id") self.approval_record_id
          (optional_field (codes "approval_record_sha256") self.approval_record_sha256 no_fields)))

-- `[f for f in raw_report.findings if f.outcome == "warn"]`
unfoldable pub warnings_of : List ReportFinding → List ReportFinding
warnings_of [] = []
warnings_of (f ∷ findings) =
    let rest = warnings_of findings in if text_eq f.outcome (codes "warn") then f ∷ rest else rest

-- What a later entry leaves of an earlier one.
unfoldable pub latest : {A : Type 0} → Option A → Bool → A → Option A
latest (some later) found f = some later
latest none true f = some f
latest none false f = none

-- `{af.check_id: af for af in approved_findings}`: the last one of a check id is kept.
unfoldable pub approved_for : Text → List ApprovedFinding → Option ApprovedFinding
unfolding latest
approved_for check_id [] = none
approved_for check_id (f ∷ findings) =
    latest (approved_for check_id findings) (text_eq f.check_id check_id) f

unfoldable pub int_eq : ℤ → ℤ → Bool
int_eq a b = leb_ℤ a b && leb_ℤ b a

-- The body of the loop over the warnings.
unfoldable pub check_approved :
    (sha256_hex : List ℕ → Text) → Option ApprovedFinding → ReportFinding → Result (Unit {0})
unfolding int_eq
check_approved sha256_hex none w = err quality_approval_rejected
check_approved sha256_hex (some approved) w = do
  raise_if (not (int_eq approved.count w.count)) quality_approval_rejected
  digest ← canonical_finding_sha256 sha256_hex (finding w)
  raise_if (not (text_eq approved.canonical_finding_sha256 digest)) quality_approval_rejected

unfoldable pub check_warnings :
    (sha256_hex : List ℕ → Text) (approved : List ApprovedFinding)
    → List ReportFinding
    → Result (Unit {0})
unfolding approved_for
check_warnings sha256_hex approved [] = ok tt
check_warnings sha256_hex approved (w ∷ warnings) = do
  check_approved sha256_hex (approved_for w.check_id approved) w
  check_warnings sha256_hex approved warnings

-- `expected is not None and actual != expected`
unfoldable pub differs : (actual : Text) (expected : Option Text) → Bool
differs actual none = false
differs actual (some expected) = not (text_eq actual expected)

unfoldable pub texts_eq : List Text → List Text → Bool
texts_eq [] [] = true
texts_eq [] (t ∷ ts) = false
texts_eq (s ∷ ss) [] = false
texts_eq (s ∷ ss) (t ∷ ts) = text_eq s t && texts_eq ss ts

-- `Sequence[str] | str | None`
pub data Sources : Type 0 where
  not_given : Sources
  one : Text → Sources
  many : List Text → Sources

unfoldable pub sources_differ : (actual : List Text) → Sources → Bool
unfolding texts_eq
sources_differ actual not_given = false
sources_differ actual (one s) = not (texts_eq actual (s ∷ []))
sources_differ actual (many ss) = not (texts_eq actual ss)

-- The other arguments, which bind the record to one dataset.
pub record Expected : Type 0 where
  pub dataset_id : Option Text
  pub canonical_content_hash : Option Text
  pub schema_fingerprint : Option Text
  pub source_sha256 : Sources

-- Everything that is checked of a record under policy 2.
unfoldable pub authenticate :
    (sha256_hex : List ℕ → Text)
    → RawReport
    → (raw_identity_sha : Text) → QualityApprovalRecord
    → Expected
    → Result (Unit {0})
unfolding differs sources_differ warnings_of
authenticate sha256_hex report raw_identity_sha record_ expected = do
  verify_self_hash sha256_hex record_
  raise_if (not (text_eq record_.quality_policy_version (codes "2"))) quality_approval_rejected
  raise_if (differs record_.dataset_id expected.dataset_id) quality_approval_rejected
  raise_if (differs record_.canonical_content_hash expected.canonical_content_hash)
      quality_approval_rejected
  raise_if (differs record_.schema_fingerprint expected.schema_fingerprint)
      quality_approval_rejected
  raise_if (sources_differ record_.source_sha256 expected.source_sha256) quality_approval_rejected
  raise_if (not (text_eq record_.quality_identity_sha256 raw_identity_sha))
      quality_approval_rejected
  let warnings = warnings_of report.findings
  raise_if (ltb (length warnings) (length record_.approved_findings)) quality_approval_rejected
  raise_if (ltb (length record_.approved_findings) (length warnings)) quality_approval_rejected
  check_warnings sha256_hex record_.approved_findings warnings

-- A decision without an approval record.
abbrev pub plain_decision :
    EffectiveState → RawState → (policy_version raw_identity sha : Text) → EffectiveQualityDecision
plain_decision effective raw policy_version raw_identity sha = record {
  effective_state = effective;
  raw_state = raw;
  policy_version = policy_version;
  raw_identity = raw_identity;
  raw_identity_sha256 = sha;
  approval_record_id = none;
  approval_record_sha256 = none;
}

-- The part for a report with warnings, under policy 2.
unfoldable pub decide_policy_2 :
    (sha256_hex : List ℕ → Text)
    → RawReport
    → (raw_identity sha : Text) → Option QualityApprovalRecord
    → Expected
    → Result EffectiveQualityDecision
decide_policy_2 sha256_hex report raw_identity sha none expected =
    ok (plain_decision warn_blocked raw_warn_blocked (codes "2") raw_identity sha)
decide_policy_2 sha256_hex report raw_identity sha (some approval) expected = do
  authenticate sha256_hex report sha approval expected
  ok (record {
    effective_state = warn_approved;
    raw_state = raw_warn_blocked;
    policy_version = codes "2";
    raw_identity = raw_identity;
    raw_identity_sha256 = sha;
    approval_record_id = some approval.record_id;
    approval_record_sha256 = some approval.record_sha256;
  })

-- The part for a report with warnings.
unfoldable pub decide_warnings :
    (sha256_hex : List ℕ → Text)
    → RawReport
    → (policy_version raw_identity sha : Text) → Option QualityApprovalRecord
    → Expected
    → Result EffectiveQualityDecision
decide_warnings sha256_hex report policy_version raw_identity sha approval expected =
    if text_eq policy_version (codes "1")
    then ok (plain_decision warn_blocked raw_warn_blocked (codes "1") raw_identity sha)
    else if text_eq policy_version (codes "2")
    then decide_policy_2 sha256_hex report raw_identity sha approval expected
    else err quality_approval_rejected

unfoldable pub decide :
    (sha256_hex : List ℕ → Text)
    → RawReport
    → RawState
    → (policy_version raw_identity sha : Text) → Option QualityApprovalRecord
    → Expected
    → Result EffectiveQualityDecision
decide sha256_hex report raw_fail policy_version raw_identity sha approval expected =
    ok (plain_decision fail raw_fail policy_version raw_identity sha)
decide sha256_hex report raw_pass policy_version raw_identity sha none expected =
    ok (plain_decision pass raw_pass policy_version raw_identity sha)
decide sha256_hex report raw_pass policy_version raw_identity sha (some approval) expected =
    err quality_approval_rejected
decide sha256_hex report raw_warn_blocked policy_version raw_identity sha approval expected =
    decide_warnings sha256_hex report policy_version raw_identity sha approval expected

unfoldable pub evaluate_effective_quality :
    (sha256_hex : List ℕ → Text)
    → RawReport
    → (quality_policy_version : Text) → Option QualityApprovalRecord
    → Expected
    → Result EffectiveQualityDecision
evaluate_effective_quality sha256_hex report policy_version approval expected = do
  raw_identity ← report_identity report
  decide sha256_hex report report.state policy_version raw_identity
      (sha256_hex (utf_8 raw_identity)) approval expected
