-- ===== src/Approval/Record.antt =====
-- src/quantara/quality_approval.py: parse_approval_dict. What Python decides of a character or a value is an
-- argument: `is_space` (stripped by str.strip), `is_decimal` (matched by `\d`), and `as_datetime`, the
-- formatted time of a value that YAML made a datetime. Keys of mappings are strings.
use quantara.Prelude.{
  ℕ, Bool, false, not, ◌||◌, Option, none, some, List, [], ◌∷◌, ◌==◌, if◌then◌else◌,
}
use quantara.Prelude.Int.{ℤ, pos}
use quantara.Text.{Text, codes, text_eq}
use quantara.Json.{Json, Items, Fields, int, string, array, object, no_items, item}
use quantara.Approval.{ApprovedFinding, QualityApprovalRecord, verify_self_hash, lookup}
use quantara.Errors.{Result, ok, err, quality_approval_rejected, type_error, raise_if, ◌>>=◌, ◌>>◌}
use quantara.Approval.Patterns.{
  approvable_warning_check_ids, approval_schema, approval_top_level_keys, approved_finding_keys,
  check_keys, contains, matches_sha256_hex, matches_utc_timestamp,
}

-- `isinstance(value, str) and test(value)`, or the exception.
unfoldable pub text_that : (test : Text → Bool) → Json → Result Text
text_that test (string t) = if test t then ok t else err quality_approval_rejected
text_that test _ = err quality_approval_rejected

-- `val.strip()` is not empty.
unfoldable pub is_not_blank : (is_space : ℕ → Bool) → Text → Bool
is_not_blank is_space [] = false
is_not_blank is_space (c ∷ cs) = not (is_space c) || is_not_blank is_space cs

-- `"*" in val or "?" in val`
unfoldable pub has_wildcard : Text → Bool
has_wildcard [] = false
has_wildcard (c ∷ cs) = c == b'*' || c == b'?' || has_wildcard cs

unfoldable pub check_wildcards : List Text → Result (Unit {0})
unfolding has_wildcard
check_wildcards [] = ok tt
check_wildcards (t ∷ ts) = do
  raise_if (has_wildcard t) quality_approval_rejected
  check_wildcards ts

unfoldable pub digest_field : Text → Fields → Result Text
unfolding lookup
digest_field key entries = do value ← lookup key entries; text_that matches_sha256_hex value

unfoldable pub word_field : (is_space : ℕ → Bool) → Text → Fields → Result Text
unfolding lookup
word_field is_space key entries = do
  value ← lookup key entries
  text_that (is_not_blank is_space) value

-- The list of source digests.
unfoldable pub parse_source_items : Items → Result (List Text)
parse_source_items no_items = ok []
parse_source_items (item value items) = do
  digest ← text_that matches_sha256_hex value
  more ← parse_source_items items
  ok (digest ∷ more)

unfoldable pub parse_sources : Json → Result (List Text)
parse_sources (array (item value items)) = parse_source_items (item value items)
parse_sources _ = err quality_approval_rejected

-- `check_id not in APPROVABLE_WARNING_CHECK_IDS`; a list or a mapping cannot be looked up.
unfoldable pub parse_check_id : (seen : List Text) → Json → Result Text
unfolding contains
parse_check_id seen (string t) = do
  raise_if (not (contains t approvable_warning_check_ids)) quality_approval_rejected
  raise_if (contains t seen) quality_approval_rejected
  ok t
parse_check_id seen (array items) = err type_error
parse_check_id seen (object entries) = err type_error
parse_check_id seen _ = err quality_approval_rejected

unfoldable pub parse_finding_count : Json → Result ℤ
parse_finding_count (int (pos n)) = if n == 0 then err quality_approval_rejected else ok (pos n)
parse_finding_count _ = err quality_approval_rejected

-- One round of the loop over the approved findings.
unfoldable pub parse_finding : (seen : List Text) → Json → Result ApprovedFinding
unfolding lookup
parse_finding seen (object entries) = do
  check_keys approved_finding_keys entries
  id_value ← lookup (codes "check_id") entries
  id ← parse_check_id seen id_value
  count_value ← lookup (codes "count") entries
  count ← parse_finding_count count_value
  digest ← digest_field (codes "canonical_finding_sha256") entries
  ok (record { check_id = id; count = count; canonical_finding_sha256 = digest })
parse_finding seen _ = err quality_approval_rejected

unfoldable pub parse_finding_items : (seen : List Text) → Items → Result (List ApprovedFinding)
parse_finding_items seen no_items = ok []
parse_finding_items seen (item value items) = do
  f ← parse_finding seen value
  more ← parse_finding_items (f.check_id ∷ seen) items
  ok (f ∷ more)

unfoldable pub parse_findings : Json → Result (List ApprovedFinding)
parse_findings (array (item value items)) = parse_finding_items [] (item value items)
parse_findings _ = err quality_approval_rejected

-- The time as a string, whatever YAML made of it.
unfoldable pub time_value : (as_datetime : Json → Option Text) → Json → Json
time_value as_datetime value = elim (as_datetime value) [ none ↦ value | some t ↦ string t ]

unfoldable pub is_schema : Text → Bool
is_schema t = text_eq t approval_schema

-- The fields of a mapping whose keys are those of a record.
unfoldable pub parse_record_fields :
    (is_space is_decimal : ℕ → Bool) (as_datetime : Json → Option Text)
    → Fields
    → Result QualityApprovalRecord
unfolding lookup is_schema time_value
parse_record_fields is_space is_decimal as_datetime document = do
  schema_value ← lookup (codes "schema") document
  schema ← text_that is_schema schema_value
  record_id ← word_field is_space (codes "record_id") document
  dataset_id ← word_field is_space (codes "dataset_id") document
  approver ← word_field is_space (codes "approver") document
  given_time ← lookup (codes "decision_time_utc") document
  time ← text_that (is_not_blank is_space) (time_value as_datetime given_time)
  rationale ← word_field is_space (codes "rationale") document
  scope ← word_field is_space (codes "scope") document
  policy ← word_field is_space (codes "quality_policy_version") document
  check_wildcards (dataset_id ∷ rationale ∷ scope ∷ [])
  raise_if (not (matches_utc_timestamp is_decimal time)) quality_approval_rejected
  content ← digest_field (codes "canonical_content_hash") document
  fingerprint ← digest_field (codes "schema_fingerprint") document
  identity ← digest_field (codes "quality_identity_sha256") document
  self ← digest_field (codes "record_sha256") document
  sources_value ← lookup (codes "source_sha256") document
  sources ← parse_sources sources_value
  findings_value ← lookup (codes "approved_findings") document
  findings ← parse_findings findings_value
  ok (record {
    schema = schema;
    record_id = record_id;
    dataset_id = dataset_id;
    canonical_content_hash = content;
    schema_fingerprint = fingerprint;
    source_sha256 = sources;
    quality_policy_version = policy;
    quality_identity_sha256 = identity;
    approved_findings = findings;
    approver = approver;
    decision_time_utc = time;
    rationale = rationale;
    scope = scope;
    record_sha256 = self;
  })

unfoldable pub parse_approval_dict :
    (sha256_hex : List ℕ → Text) (is_space is_decimal : ℕ → Bool) (as_datetime : Json → Option Text)
    → Json
    → Result QualityApprovalRecord
parse_approval_dict sha256_hex is_space is_decimal as_datetime (object document) = do
  check_keys approval_top_level_keys document
  parsed ← parse_record_fields is_space is_decimal as_datetime document
  verify_self_hash sha256_hex parsed
  ok parsed
parse_approval_dict sha256_hex is_space is_decimal as_datetime _ = err quality_approval_rejected
