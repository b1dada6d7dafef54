-- ===== src/Approval/Patterns.antt =====
-- src/quantara/quality_approval.py: the keys of a record, and the patterns of its strings.
use quantara.Prelude.{
  ℕ, suc, Bool, true, false, not, ◌&&◌, ◌||◌, List, [], ◌∷◌, length, take, drop, leb, ◌==◌,
}
use quantara.Text.{Text, codes, text_eq, is_digit}
use quantara.Json.{Fields, no_fields, entry}
use quantara.Hashing.Content.{all_of}
use quantara.Errors.{Result, quality_approval_rejected, raise_if, ◌>>◌}

abbrev pub approval_schema : Text
approval_schema = codes "quantara.quality-warning-approval/v1"

abbrev pub approval_top_level_keys : List Text
approval_top_level_keys =
    codes "schema"
    ∷ codes "record_id"
    ∷ codes "dataset_id"
    ∷ codes "canonical_content_hash"
    ∷ codes "schema_fingerprint"
    ∷ codes "source_sha256"
    ∷ codes "quality_policy_version"
    ∷ codes "quality_identity_sha256"
    ∷ codes "approved_findings"
    ∷ codes "approver"
    ∷ codes "decision_time_utc"
    ∷ codes "rationale"
    ∷ codes "scope"
    ∷ codes "record_sha256"
    ∷ []

abbrev pub approved_finding_keys : List Text
approved_finding_keys = codes "check_id" ∷ codes "count" ∷ codes "canonical_finding_sha256" ∷ []

abbrev pub approvable_warning_check_ids : List Text
approvable_warning_check_ids =
    codes "zero_volume_candle"
    ∷ codes "source_order_invalid"
    ∷ codes "nonzero_source_ignore"
    ∷ codes "transport_metadata_difference"
    ∷ codes "derived_zero_volume_bucket"
    ∷ []

unfoldable pub contains : Text → List Text → Bool
contains t [] = false
contains t (s ∷ ss) = text_eq t s || contains t ss

unfoldable pub has_key : Text → Fields → Bool
has_key key no_fields = false
has_key key (entry name value entries) = text_eq key name || has_key key entries

-- `required - keys` is empty.
unfoldable pub has_all : (required : List Text) → Fields → Bool
has_all [] entries = true
has_all (key ∷ required) entries = has_key key entries && has_all required entries

-- `keys - known` is empty.
unfoldable pub only_known : (known : List Text) → Fields → Bool
only_known known no_fields = true
only_known known (entry name value entries) = contains name known && only_known known entries

unfoldable pub check_keys : (keys : List Text) → Fields → Result (Unit {0})
check_keys keys entries = do
  raise_if (not (has_all keys entries)) quality_approval_rejected
  raise_if (not (only_known keys entries)) quality_approval_rejected

-- `[0-9a-f]`
unfoldable pub is_lower_hex : ℕ → Bool
is_lower_hex c = is_digit c || (leb b'a' c && leb c b'f')

-- `$` matches at the end and before a line feed there.
unfoldable pub at_end : Text → Bool
at_end [] = true
at_end (c ∷ []) = c == 10
at_end (c ∷ d ∷ cs) = false

-- A class of characters, `n` times.
unfoldable pub repeats : (ℕ → Bool) → ℕ → Text → Bool
unfolding all_of
repeats test n t = leb n (length t) && all_of test (take n t)

unfoldable pub matches_sha256_hex : Text → Bool
unfolding repeats is_lower_hex at_end
matches_sha256_hex t = repeats is_lower_hex 64 t && at_end (drop 64 t)

-- A pattern of digit groups and separators: `d` digits, then the separator, and so on.
unfoldable pub matches_groups : (is_decimal : ℕ → Bool) → List (ℕ × ℕ) → Text → Bool
unfolding repeats at_end
matches_groups is_decimal [] t = at_end t
matches_groups is_decimal ((digits, separator) ∷ groups) t =
    repeats is_decimal digits t
    && repeats (λ c. c == separator) 1 (drop digits t)
    && matches_groups is_decimal groups (drop (suc digits) t)

unfoldable pub matches_utc_timestamp : (is_decimal : ℕ → Bool) → Text → Bool
matches_utc_timestamp is_decimal =
    matches_groups is_decimal
      ((4, b'-') ∷ (2, b'-') ∷ (2, b'T') ∷ (2, b':') ∷ (2, b':') ∷ (2, b'Z') ∷ [])
