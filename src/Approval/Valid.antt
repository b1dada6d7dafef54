-- ===== src/Approval/Valid.antt =====
-- A record that parse_approval_dict (src/quantara/quality_approval.py) gives is valid as a whole.
use quantara.Prelude.{
  ℕ, ◌≡◌, ◌≢◌, ◌⊎◌, inl, inr, ◌||◌, Bool-cases, arith, ap, sym, ◌∙◌, refl, subst, Bool, true, false,
  not, Option, List, [], ◌∷◌, All,
}
use quantara.Text.{Text, codes, text_eq_iff}
use quantara.Json.{Json, Fields, null, float, foreign, bool, int, string, array, object}
use quantara.Errors.{
  ok, >>=-eq-ok, raise_if-eq-ok, ok_injective, Ensures, Ensures-bind, Ensures-guard, Ensures-ok,
}
use quantara.Approval.{QualityApprovalRecord, verify_self_hash, lookup}
use quantara.Approval.Record.{
  text_that, is_not_blank, has_wildcard, check_wildcards, digest_field, word_field, parse_sources,
  parse_findings, time_value, is_schema, parse_record_fields, parse_approval_dict,
}
use quantara.Approval.Shapes.{IsDigest, IsTimestamp, matches_utc_timestamp-IsTimestamp}
use quantara.Approval.Patterns.{
  approval_schema, approval_top_level_keys, check_keys, matches_utc_timestamp,
}
use quantara.Approval.Parsed.{
  SomeApproved, text_that-holds, digest_field-holds, parse_sources-digests,
  parse_findings-SomeApproved,
}

-- A character that is not stripped.
abbrev pub HasWord : (is_space : ℕ → Bool) → Text → Type 0
HasWord is_space [] = ⊥
HasWord is_space (c ∷ cs) = (is_space c ≡ false) ⊎ HasWord is_space cs

-- No `*` and no `?`.
abbrev pub IsPlain : Text → Type 0
IsPlain = All (λ c. (c ≢ b'*') × (c ≢ b'?'))

-- What each field of a record has been checked for.
pub record IsValid (is_space is_decimal : ℕ → Bool) (r : QualityApprovalRecord) : Type 0 where
  pub schema_known : r.schema ≡ approval_schema
  pub words : All (HasWord is_space) (
      r.record_id ∷ r.dataset_id ∷ r.approver ∷ r.decision_time_utc ∷ r.rationale ∷ r.scope
      ∷ r.quality_policy_version ∷ [])
  pub no_wildcards : All IsPlain (r.dataset_id ∷ r.rationale ∷ r.scope ∷ [])
  pub time_strict : IsTimestamp is_decimal r.decision_time_utc
  pub digests : All IsDigest (
      r.canonical_content_hash ∷ r.schema_fingerprint ∷ r.quality_identity_sha256 ∷ r.record_sha256
      ∷ r.source_sha256)
  pub findings : SomeApproved r.approved_findings

true_of_not : (b : Bool) → not b ≡ false → b ≡ true
true_of_not true h = refl
true_of_not false h = cc

text_that-is_schema : (v : Json) (t : Text) → text_that is_schema v ≡ ok t → t ≡ approval_schema
unfolding is_schema
text_that-is_schema v t h = (text_eq_iff t approval_schema).0 (text_that-holds is_schema v t h)

is_not_blank-HasWord :
    (is_space : ℕ → Bool) (t : Text) → is_not_blank is_space t ≡ true → HasWord is_space t
unfolding is_not_blank
is_not_blank-HasWord is_space [] h = cc
is_not_blank-HasWord is_space (c ∷ cs) h = elim (Bool-cases (is_space c)) [
  | inl blank ↦ inr (
      is_not_blank-HasWord is_space cs
        (sym (ap (λ b. not b || is_not_blank is_space cs) blank) ∙ h))
  | inr word ↦ inl word
]

word_field-HasWord :
    (is_space : ℕ → Bool) (key : Text) (entries : Fields) (t : Text)
    → word_field is_space key entries ≡ ok t
    → HasWord is_space t
unfolding word_field
word_field-HasWord is_space key entries t h =
    let (v, e, f) = >>=-eq-ok (lookup key entries) _ h in
    is_not_blank-HasWord is_space t (text_that-holds (is_not_blank is_space) v t f)

has_wildcard-IsPlain : (t : Text) → has_wildcard t ≡ false → IsPlain t
unfolding has_wildcard
has_wildcard-IsPlain [] h = tt
has_wildcard-IsPlain (c ∷ cs) h =
    ((λ e. ground arith, λ e. ground arith), has_wildcard-IsPlain cs (ground arith))

check_wildcards-IsPlain : (ts : List Text) → check_wildcards ts ≡ ok tt → All IsPlain ts
unfolding check_wildcards
check_wildcards-IsPlain [] h = tt
check_wildcards-IsPlain (t ∷ ts) h =
    let (a, k) = raise_if-eq-ok (has_wildcard t) _ _ h in
    (has_wildcard-IsPlain t a, check_wildcards-IsPlain ts k)

parse_record_fields-IsValid :
    (is_space is_decimal : ℕ → Bool) (as_datetime : Json → Option Text) (document : Fields)
    → Ensures
        (IsValid is_space is_decimal)
        (parse_record_fields is_space is_decimal as_datetime document)
unfolding parse_record_fields
parse_record_fields-IsValid is_space is_decimal as_datetime document =
    Ensures-bind (lookup (codes "schema") document) _ λ schema_value _.
      Ensures-bind (text_that is_schema schema_value) _ λ schema known.
        Ensures-bind (word_field is_space (codes "record_id") document) _ λ record_id w1.
          Ensures-bind (word_field is_space (codes "dataset_id") document) _ λ dataset_id w2.
            Ensures-bind (word_field is_space (codes "approver") document) _ λ approver w3.
              Ensures-bind (lookup (codes "decision_time_utc") document) _ λ given_time _.
                Ensures-bind (text_that (is_not_blank is_space) (time_value as_datetime given_time))
                  _
                  λ time w4.
                    Ensures-bind (word_field is_space (codes "rationale") document) _
                      λ rationale w5.
                        Ensures-bind (word_field is_space (codes "scope") document) _ λ scope w6.
                          Ensures-bind
                            (word_field is_space (codes "quality_policy_version") document) _
                            λ policy w7.
                              Ensures-bind (check_wildcards (dataset_id ∷ rationale ∷ scope ∷ [])) _
                                λ u plain.
                                  Ensures-guard (not (matches_utc_timestamp is_decimal time)) _ _
                                    λ strict.
                                      Ensures-bind
                                        (digest_field (codes "canonical_content_hash") document) _
                                        λ content c.
                                          Ensures-bind
                                            (digest_field (codes "schema_fingerprint") document) _
                                            λ fingerprint f.
                                              Ensures-bind
                                                (digest_field (codes "quality_identity_sha256")
                                                  document)
                                                _
                                                λ identity i.
                                                  Ensures-bind
                                                    (digest_field (codes "record_sha256") document)
                                                    _
                                                    λ self s.
                                                      Ensures-bind
                                                        (lookup (codes "source_sha256") document) _
                                                        λ sources_value _.
                                                          Ensures-bind (parse_sources sources_value)
                                                            _
                                                            λ sources d.
                                                            Ensures-bind
                                                            (lookup (codes "approved_findings")
                                                            document)
                                                            _
                                                            λ findings_value _.
                                                            Ensures-bind
                                                            (parse_findings findings_value) _
                                                            λ findings g.
                                                            Ensures-ok
                                                            {b = record {
                                                            schema = schema;
                                                            record_id = record_id;
                                                            dataset_id = dataset_id;
                                                            canonical_content_hash = content;
                                                            schema_fingerprint = fingerprint;
                                                            source_sha256 = sources;
                                                            quality_policy_version = policy;
                                                            quality_identity_sha256 = identity;
                                                            approved_findings = findings;
                                                            approver = approver;
                                                            decision_time_utc = time;
                                                            rationale = rationale;
                                                            scope = scope;
                                                            record_sha256 = self;
                                                            }}
                                                            (record {
                                                            schema_known =
                                                            text_that-is_schema schema_value schema
                                                            known;
                                                            words = (
                                                            word_field-HasWord is_space
                                                            (codes "record_id") document record_id
                                                            w1,
                                                            (
                                                            word_field-HasWord is_space
                                                            (codes "dataset_id") document dataset_id
                                                            w2,
                                                            (
                                                            word_field-HasWord is_space
                                                            (codes "approver") document approver w3,
                                                            (
                                                            is_not_blank-HasWord is_space time (
                                                            text_that-holds (is_not_blank is_space)
                                                            (time_value as_datetime given_time) time
                                                            w4),
                                                            (
                                                            word_field-HasWord is_space
                                                            (codes "rationale") document rationale
                                                            w5,
                                                            (
                                                            word_field-HasWord is_space
                                                            (codes "scope") document scope w6,
                                                            (
                                                            word_field-HasWord is_space
                                                            (codes "quality_policy_version")
                                                            document policy w7,
                                                            tt,
                                                            ),
                                                            ),
                                                            ),
                                                            ),
                                                            ),
                                                            ),
                                                            );
                                                            no_wildcards =
                                                            check_wildcards-IsPlain
                                                            (dataset_id ∷ rationale ∷ scope ∷ [])
                                                            plain;
                                                            time_strict =
                                                            matches_utc_timestamp-IsTimestamp
                                                            is_decimal time
                                                            (true_of_not
                                                            (matches_utc_timestamp is_decimal time)
                                                            strict);
                                                            digests = (
                                                            digest_field-holds
                                                            (codes "canonical_content_hash")
                                                            document content c,
                                                            (
                                                            digest_field-holds
                                                            (codes "schema_fingerprint") document
                                                            fingerprint f,
                                                            (
                                                            digest_field-holds
                                                            (codes "quality_identity_sha256")
                                                            document identity i,
                                                            (
                                                            digest_field-holds
                                                            (codes "record_sha256") document self s,
                                                            parse_sources-digests sources_value
                                                            sources d,
                                                            ),
                                                            ),
                                                            ),
                                                            );
                                                            findings =
                                                            parse_findings-SomeApproved
                                                            findings_value findings g;
                                                            })

-- A record that parses has a hash of its own that verifies, the known schema, no blank identity,
-- dataset, approver, time, rationale, scope or policy version, no wildcard in its dataset, rationale and
-- scope, a time of the strict pattern, digests of their pattern where digests belong, and at least one
-- approved finding; each is of a check that may be approved and that no other one names, with a positive count
-- and a digest.
pub parse_approval_dict-IsValid :
    (sha256_hex : List ℕ → Text) (is_space is_decimal : ℕ → Bool) (as_datetime : Json → Option Text)
    (v : Json) (r : QualityApprovalRecord)
    → parse_approval_dict sha256_hex is_space is_decimal as_datetime v ≡ ok r
    → (verify_self_hash sha256_hex r ≡ ok tt) × IsValid is_space is_decimal r
unfolding parse_approval_dict
parse_approval_dict-IsValid sha256_hex is_space is_decimal as_datetime (object document) r h =
    let (u, _, a) = >>=-eq-ok (check_keys approval_top_level_keys document) _ h in
    let (parsed, p, b) =
      >>=-eq-ok (parse_record_fields is_space is_decimal as_datetime document) _ a in
    let (w, q, c) = >>=-eq-ok (verify_self_hash sha256_hex parsed) _ b in
    subst (λ z. (verify_self_hash sha256_hex z ≡ ok tt) × IsValid is_space is_decimal z)
      (ok_injective c)
      (q, (parse_record_fields-IsValid is_space is_decimal as_datetime document).at parsed p)
parse_approval_dict-IsValid sha256_hex is_space is_decimal as_datetime null r h = cc
parse_approval_dict-IsValid sha256_hex is_space is_decimal as_datetime float r h = cc
parse_approval_dict-IsValid sha256_hex is_space is_decimal as_datetime foreign r h = cc
parse_approval_dict-IsValid sha256_hex is_space is_decimal as_datetime (bool b) r h = cc
parse_approval_dict-IsValid sha256_hex is_space is_decimal as_datetime (int n) r h = cc
parse_approval_dict-IsValid sha256_hex is_space is_decimal as_datetime (string s) r h = cc
parse_approval_dict-IsValid sha256_hex is_space is_decimal as_datetime (array items) r h = cc
