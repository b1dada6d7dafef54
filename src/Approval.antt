-- ===== src/Approval.antt =====
-- src/quantara/quality_approval.py: approval records, what their hash covers, and the digest of a finding.
-- SHA-256 is an argument; a finding here has the five attributes of `quality.Finding`, its evidence too.
pub mod Patterns
pub mod Shapes
pub mod Record
pub mod Decision
pub mod Approves
pub mod Parsed
pub mod Valid
pub mod Decided
mod Tests
use quantara.Prelude.{
  ℕ, Bool, true, false, not, Option, none, some, List, [], ◌∷◌, ◌++◌, if◌then◌else◌,
}
use quantara.Prelude.Int.{ℤ}
use quantara.Text.{Text, codes, text_eq}
use quantara.Json.{
  Json, Items, Fields, int, string, array, object, no_items, item, no_fields, entry, get,
}
use quantara.Jcs.{canonicalize}
use quantara.Hashing.{utf_8, quality_identity}
use quantara.Hashing.Columns.{◌▸◌, string_items}
use quantara.Errors.{
  Result, ok, err, quality_approval_rejected, type_error, key_error, raise_if, ◌>>=◌, ◌>>◌,
}

pub record ApprovedFinding : Type 0 where
  pub check_id : Text
  pub count : ℤ
  pub canonical_finding_sha256 : Text

pub record QualityApprovalRecord : Type 0 where
  pub schema : Text
  pub record_id : Text
  pub dataset_id : Text
  pub canonical_content_hash : Text
  pub schema_fingerprint : Text
  pub source_sha256 : List Text
  pub quality_policy_version : Text
  pub quality_identity_sha256 : Text
  pub approved_findings : List ApprovedFinding
  pub approver : Text
  pub decision_time_utc : Text
  pub rationale : Text
  pub scope : Text
  pub record_sha256 : Text

unfoldable pub finding_items : List ApprovedFinding → Items
finding_items [] = no_items
finding_items (f ∷ findings) =
    item
      (object (
        ("check_id", string f.check_id)
        ▸ ("count", int f.count)
        ▸ ("canonical_finding_sha256", string f.canonical_finding_sha256)
        ▸ no_fields))
      (finding_items findings)

unfoldable pub canonical_semantics : QualityApprovalRecord → Json
unfolding finding_items
canonical_semantics self = object (
    ("schema", string self.schema)
    ▸ ("record_id", string self.record_id)
    ▸ ("dataset_id", string self.dataset_id)
    ▸ ("canonical_content_hash", string self.canonical_content_hash)
    ▸ ("schema_fingerprint", string self.schema_fingerprint)
    ▸ ("source_sha256", array (string_items self.source_sha256))
    ▸ ("quality_policy_version", string self.quality_policy_version)
    ▸ ("quality_identity_sha256", string self.quality_identity_sha256)
    ▸ ("approved_findings", array (finding_items self.approved_findings))
    ▸ ("approver", string self.approver)
    ▸ ("decision_time_utc", string self.decision_time_utc)
    ▸ ("rationale", string self.rationale)
    ▸ ("scope", string self.scope)
    ▸ no_fields)

unfoldable pub canonical_semantics_json : QualityApprovalRecord → Result Text
canonical_semantics_json self = canonicalize (canonical_semantics self)

unfoldable pub verify_self_hash :
    (sha256_hex : List ℕ → Text) → QualityApprovalRecord → Result (Unit {0})
verify_self_hash sha256_hex self = do
  text ← canonical_semantics_json self
  raise_if (not (text_eq (sha256_hex (utf_8 text)) self.record_sha256)) quality_approval_rejected

-- A finding of a report, with the strings of its outcome and severity.
pub record ReportFinding : Type 0 where
  pub check_id : Text
  pub outcome : Text
  pub severity : Text
  pub count : ℤ
  pub evidence : Fields

-- The dictionary of the five attributes, which the identity of a report lists too.
unfoldable pub finding_fields : ReportFinding → Fields
finding_fields f =
    ("check_id", string f.check_id)
    ▸ ("count", int f.count)
    ▸ ("evidence", object f.evidence)
    ▸ ("outcome", string f.outcome)
    ▸ ("severity", string f.severity)
    ▸ no_fields

-- What `canonical_finding_sha256` may be called with.
pub data FindingLike : Type 0 where
  finding : ReportFinding → FindingLike
  mapping : Fields → FindingLike
  unknown : FindingLike

-- `mapping[key]`
unfoldable pub lookup : Text → Fields → Result Json
unfolding get
lookup key entries = elim (get key entries) [ none ↦ err key_error | some value ↦ ok value ]

unfoldable pub finding_payload : FindingLike → Result Fields
unfolding lookup finding_fields
finding_payload (finding f) = ok (finding_fields f)
finding_payload (mapping entries) = do
  check_id ← lookup (codes "check_id") entries
  count ← lookup (codes "count") entries
  evidence ← lookup (codes "evidence") entries
  outcome ← lookup (codes "outcome") entries
  severity ← lookup (codes "severity") entries
  ok (
      ("check_id", check_id)
      ▸ ("count", count)
      ▸ ("evidence", evidence)
      ▸ ("outcome", outcome)
      ▸ ("severity", severity)
      ▸ no_fields)
finding_payload unknown = err type_error

unfoldable pub canonical_finding_sha256 : (sha256_hex : List ℕ → Text) → FindingLike → Result Text
canonical_finding_sha256 sha256_hex f = do
  payload ← finding_payload f
  text ← canonicalize (object payload)
  ok (sha256_hex (utf_8 text))

-- A report: its state is one of three strings.
pub data RawState : Type 0 where
  raw_pass raw_warn_blocked raw_fail : RawState

pub record RawReport : Type 0 where
  pub findings : List ReportFinding
  pub state : RawState

unfoldable pub finding_dicts : List ReportFinding → List Fields
finding_dicts [] = []
finding_dicts (f ∷ findings) = finding_fields f ∷ finding_dicts findings

-- `raw_report.identity()`
unfoldable pub report_identity : RawReport → Result Text
unfolding finding_dicts
report_identity report = quality_identity (finding_dicts report.findings)
