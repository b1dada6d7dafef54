-- ===== src/Approval/Tests.antt =====
-- An approval of one warning, with a digest that is always the same.
use quantara.Prelude.{ℕ, ◌≡◌, refl, Bool, true, none, some, List, [], ◌∷◌, ◌++◌, ◌==◌, replicate}
use quantara.Prelude.Int.{pos}
use quantara.Text.{Text, codes, text_eq, is_digit, numeral, numeral_loop}
use quantara.Json.{Json, int, string, array, object, no_items, item, no_fields, get}
use quantara.Errors.{ok}
use quantara.Jcs.{
  escape, escape_all, leb_bytes, utf_16_be, utf_16_be_char, serialize_string, serialize_int,
  insert_key, sort_keys, join_fields, serialize, serialize_items, serialize_fields, canonicalize,
}
use quantara.Hashing.{utf_8, quality_identity, normalized_checks, without_timestamp}
use quantara.Hashing.Columns.{◌▸◌, string_items}
use quantara.Hashing.Content.{all_of}
use quantara.Approval.{
  QualityApprovalRecord, finding_items, canonical_semantics, canonical_semantics_json,
  verify_self_hash, finding_fields, finding_payload, canonical_finding_sha256, lookup,
  raw_warn_blocked, RawReport, finding_dicts, report_identity,
}
use quantara.Approval.Decision.{
  EffectiveQualityDecision, warnings_of, latest, approved_for, int_eq, check_approved,
  check_warnings, differs, texts_eq, sources_differ, one, Expected, authenticate, decide_policy_2,
  decide_warnings, decide, evaluate_effective_quality,
}
use quantara.Approval.Record.{
  text_that, is_not_blank, has_wildcard, check_wildcards, digest_field, word_field,
  parse_source_items, parse_sources, parse_check_id, parse_finding_count, parse_finding,
  parse_finding_items, parse_findings, time_value, is_schema, parse_record_fields,
  parse_approval_dict,
}
use quantara.Approval.Patterns.{
  contains, has_key, has_all, only_known, check_keys, is_lower_hex, at_end, repeats,
  matches_sha256_hex, matches_groups, matches_utc_timestamp, approval_schema,
}
use quantara.Approval.Decided.{IsAbout, Decides, evaluate_effective_quality-Decides}
use quantara.Approval.Valid.{IsValid, parse_approval_dict-IsValid}

abbrev zeros : Text
zeros = replicate 64 b'0'

abbrev always_zeros : List ℕ → Text
always_zeros b = zeros

abbrev report : RawReport
report = record {
  findings =
      record {
        check_id = codes "zero_volume_candle";
        outcome = codes "warn";
        severity = codes "warning";
        count = pos 2;
        evidence = no_fields;
      }
      ∷ [];
  state = raw_warn_blocked;
}

abbrev approval : QualityApprovalRecord
approval = record {
  schema = approval_schema;
  record_id = codes "r1";
  dataset_id = codes "d1";
  canonical_content_hash = zeros;
  schema_fingerprint = zeros;
  source_sha256 = zeros ∷ [];
  quality_policy_version = codes "2";
  quality_identity_sha256 = zeros;
  approved_findings =
      record {
        check_id = codes "zero_volume_candle";
        count = pos 2;
        canonical_finding_sha256 = zeros;
      }
      ∷ [];
  approver = codes "someone";
  decision_time_utc = codes "2024-01-01T00:00:00Z";
  rationale = codes "no trades";
  scope = codes "january";
  record_sha256 = zeros;
}

abbrev expected : Expected
expected = record {
  dataset_id = some (codes "d1");
  canonical_content_hash = some zeros;
  schema_fingerprint = none;
  source_sha256 = one zeros;
}

decision :
    (d : EffectiveQualityDecision) × (evaluate_effective_quality always_zeros report
        (codes "2")
        (some approval)
        expected
      ≡ ok d)
unfolding evaluate_effective_quality report_identity finding_dicts finding_fields quality_identity
    normalized_checks without_timestamp text_eq decide decide_warnings decide_policy_2 authenticate
    verify_self_hash canonical_semantics_json canonical_semantics finding_items differs
    sources_differ texts_eq warnings_of check_warnings check_approved approved_for latest int_eq
    canonical_finding_sha256 finding_payload canonicalize serialize serialize_items serialize_fields
    join_fields sort_keys insert_key leb_bytes utf_16_be utf_16_be_char serialize_string escape_all
    escape serialize_int numeral numeral_loop string_items
decision = (_, refl)

evaluate_effective_quality-Decides_example :
    (identity : Text) × (report_identity report ≡ ok identity)
    × IsAbout raw_warn_blocked (always_zeros (utf_8 identity)) decision.0
    × Decides always_zeros report raw_warn_blocked (codes "2") (some approval) expected decision.0
evaluate_effective_quality-Decides_example =
    evaluate_effective_quality-Decides always_zeros report (codes "2") (some approval) expected
      decision.0 decision.1

abbrev document : Json
document = object (
    ("schema", string approval_schema)
    ▸ ("record_id", string (codes "r1"))
    ▸ ("dataset_id", string (codes "d1"))
    ▸ ("canonical_content_hash", string zeros)
    ▸ ("schema_fingerprint", string zeros)
    ▸ ("source_sha256", array (item (string zeros) no_items))
    ▸ ("quality_policy_version", string (codes "2"))
    ▸ ("quality_identity_sha256", string zeros)
    ▸ (
      "approved_findings",
      array (
          item
            (object (
              ("check_id", string (codes "zero_volume_candle"))
              ▸ ("count", int (pos 2))
              ▸ ("canonical_finding_sha256", string zeros)
              ▸ no_fields))
            no_items),
    )
    ▸ ("approver", string (codes "someone"))
    ▸ ("decision_time_utc", string (codes "2024-01-01T00:00:00Z"))
    ▸ ("rationale", string (codes "no trades"))
    ▸ ("scope", string (codes "january"))
    ▸ ("record_sha256", string zeros)
    ▸ no_fields)

abbrev is_blank : ℕ → Bool
is_blank c = c == b' '

document_parses :
    parse_approval_dict always_zeros is_blank is_digit (λ v. none) document ≡ ok approval
unfolding parse_approval_dict check_keys has_all has_key only_known contains text_eq
    parse_record_fields lookup get text_that is_schema word_field is_not_blank time_value
    check_wildcards has_wildcard matches_utc_timestamp matches_groups repeats all_of at_end
    digest_field matches_sha256_hex is_lower_hex parse_sources parse_source_items parse_findings
    parse_finding_items parse_finding parse_check_id parse_finding_count verify_self_hash
    canonical_semantics_json canonical_semantics finding_items canonicalize serialize
    serialize_items serialize_fields join_fields sort_keys insert_key leb_bytes utf_16_be
    utf_16_be_char string_items
document_parses = refl

parse_approval_dict-IsValid_example :
    (verify_self_hash always_zeros approval ≡ ok tt) × IsValid is_blank is_digit approval
parse_approval_dict-IsValid_example =
    parse_approval_dict-IsValid always_zeros is_blank is_digit (λ v. none) document approval
      document_parses

-- The pattern of a digest takes a line feed behind it.
digest_and_line_feed : matches_sha256_hex (zeros ++ 10 ∷ []) ≡ true
unfolding matches_sha256_hex repeats all_of is_lower_hex at_end
digest_and_line_feed = refl
