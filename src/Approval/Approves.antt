-- ===== src/Approval/Approves.antt =====
-- What the checks of an approval record (src/quantara/quality_approval.py) demand of it.
use quantara.Prelude.{
  ℕ, ◌≡◌, ◌⊎◌, inl, inr, refl, sym, ap, ◌∙◌, Bool, true, false, not, Option, none, some, List, [],
  ◌∷◌, All, arith, length, ltb, Bool-cases,
}
use quantara.Prelude.Int.{ℤ, eq_of_parts}
use quantara.Text.{Text, codes, text_eq, text_eq_iff}
use quantara.Hashing.{utf_8}
use quantara.Errors.{ok, raise_if, quality_approval_rejected, >>=-eq-ok, raise_if-eq-ok}
use quantara.Approval.{
  ApprovedFinding, QualityApprovalRecord, canonical_semantics_json, verify_self_hash, ReportFinding,
  finding, canonical_finding_sha256, RawReport,
}
use quantara.Approval.Decision.{
  warnings_of, latest, approved_for, int_eq, check_approved, check_warnings, differs, texts_eq,
  Sources, not_given, one, many, sources_differ, Expected, authenticate,
}

-- It is one of the list.
abbrev pub IsIn : ApprovedFinding → List ApprovedFinding → Type 0
IsIn f [] = ⊥
IsIn f (a ∷ approved) = (f ≡ a) ⊎ IsIn f approved

-- The approved finding says of the warning its check, its count and the digest of all it holds.
abbrev pub Covers : (List ℕ → Text) → ApprovedFinding → ReportFinding → Type 0
Covers sha256_hex f w =
    (f.check_id ≡ w.check_id)
    × (f.count ≡ w.count)
    × (canonical_finding_sha256 sha256_hex (finding w) ≡ ok f.canonical_finding_sha256)

abbrev pub IsCovered : (List ℕ → Text) → List ApprovedFinding → ReportFinding → Type 0
IsCovered sha256_hex approved w = (f : ApprovedFinding) × IsIn f approved × Covers sha256_hex f w

-- An argument that is given is the record's own.
abbrev pub Agrees : Text → Option Text → Type 0
Agrees actual expected = (t : Text) → expected ≡ some t → actual ≡ t

abbrev pub SourcesAgree : List Text → Sources → Type 0
SourcesAgree actual not_given = Unit
SourcesAgree actual (one s) = actual ≡ s ∷ []
SourcesAgree actual (many ss) = actual ≡ ss

-- The record is about this report and this dataset, and covers each warning.
pub record Approves (sha256_hex : List ℕ → Text) (report : RawReport) (raw_sha : Text)
    (approval : QualityApprovalRecord) (expected : Expected) : Type 0 where
  pub self_hash :
      (t : Text) × (canonical_semantics_json approval ≡ ok t)
      × (sha256_hex (utf_8 t) ≡ approval.record_sha256)
  pub policy : approval.quality_policy_version ≡ codes "2"
  pub same_dataset : Agrees approval.dataset_id expected.dataset_id
  pub same_content : Agrees approval.canonical_content_hash expected.canonical_content_hash
  pub same_schema : Agrees approval.schema_fingerprint expected.schema_fingerprint
  pub same_sources : SourcesAgree approval.source_sha256 expected.source_sha256
  pub same_report : approval.quality_identity_sha256 ≡ raw_sha
  pub none_extra : length approval.approved_findings ≡ length (warnings_of report.findings)
  pub all_covered :
      All (IsCovered sha256_hex approval.approved_findings) (warnings_of report.findings)

-- A guard on an equality that is passed.
pub text_guard :
    (s t : Text) → raise_if (not (text_eq s t)) quality_approval_rejected ≡ ok tt → s ≡ t
text_guard s t h = elim (Bool-cases (text_eq s t)) [
  | inl same ↦ (text_eq_iff s t).0 same
  | inr other ↦ cc
]

pub not-text_eq : (s t : Text) → not (text_eq s t) ≡ false → s ≡ t
not-text_eq s t h = (text_eq_iff s t).0 (ground arith)

differs-Agrees :
    (actual : Text) (expected : Option Text)
    → differs actual expected ≡ false
    → Agrees actual expected
unfolding differs
differs-Agrees actual none h t e = cc
differs-Agrees actual (some x) h t e = not-text_eq actual x h ∙ cc

texts_eq-eq : (ss ts : List Text) → texts_eq ss ts ≡ true → ss ≡ ts
unfolding texts_eq
texts_eq-eq [] [] h = refl
texts_eq-eq [] (t ∷ ts) h = cc
texts_eq-eq (s ∷ ss) [] h = cc
texts_eq-eq (s ∷ ss) (t ∷ ts) h =
    let e : s ≡ t = (text_eq_iff s t).0 (ground arith) in
    let f : ss ≡ ts = texts_eq-eq ss ts (ground arith) in rw (e, f) refl

sources_differ-Agree :
    (actual : List Text) (expected : Sources)
    → sources_differ actual expected ≡ false
    → SourcesAgree actual expected
unfolding sources_differ
sources_differ-Agree actual not_given h = tt
sources_differ-Agree actual (one s) h = texts_eq-eq actual (s ∷ []) (ground arith)
sources_differ-Agree actual (many ss) h = texts_eq-eq actual ss (ground arith)

latest-some :
    {A : Type 0} (o : Option A) (b : Bool) (a f : A)
    → latest o b a ≡ some f
    → (o ≡ some f) ⊎ ((b ≡ true) × (a ≡ f))
unfolding latest
latest-some (some later) b a f h = inl h
latest-some none true a f h = inr (refl, cc)
latest-some none false a f h = cc

approved_for-IsIn :
    (check_id : Text) (approved : List ApprovedFinding) (f : ApprovedFinding)
    → approved_for check_id approved ≡ some f
    → IsIn f approved × (f.check_id ≡ check_id)
unfolding approved_for
approved_for-IsIn check_id [] f h = cc
approved_for-IsIn check_id (a ∷ approved) f h =
    elim (latest-some (approved_for check_id approved) (text_eq a.check_id check_id) a f h) [
      | inl e ↦ let (m, q) = approved_for-IsIn check_id approved f e in (inr m, q)
      | inr (same, e) ↦ (
        inl (sym e),
        ap (λ (x : ApprovedFinding). x.check_id) (sym e) ∙ (text_eq_iff a.check_id check_id).0 same,
      )
    ]

int_eq-eq : (a b : ℤ) → int_eq a b ≡ true → a ≡ b
unfolding int_eq
int_eq-eq a b h = eq_of_parts a b (ground arith)

check_approved-Covers :
    (sha256_hex : List ℕ → Text) (o : Option ApprovedFinding) (w : ReportFinding)
    → check_approved sha256_hex o w ≡ ok tt
    → (f : ApprovedFinding) × (o ≡ some f)
      × (f.count ≡ w.count)
      × (canonical_finding_sha256 sha256_hex (finding w) ≡ ok f.canonical_finding_sha256)
unfolding check_approved
check_approved-Covers sha256_hex none w h = cc
check_approved-Covers sha256_hex (some f) w h =
    let (same_count, k) =
      raise_if-eq-ok (not (int_eq f.count w.count)) quality_approval_rejected _ h in
    let (digest, e, g) = >>=-eq-ok (canonical_finding_sha256 sha256_hex (finding w)) _ k in
    (
      f,
      refl,
      int_eq-eq f.count w.count (ground arith),
      e ∙ ap ok (sym (text_guard f.canonical_finding_sha256 digest g)),
    )

check_approved-IsCovered :
    (sha256_hex : List ℕ → Text) (approved : List ApprovedFinding) (w : ReportFinding)
    → check_approved sha256_hex (approved_for w.check_id approved) w ≡ ok tt
    → IsCovered sha256_hex approved w
check_approved-IsCovered sha256_hex approved w h =
    let (f, found, same_count, digest) =
      check_approved-Covers sha256_hex (approved_for w.check_id approved) w h in
    let (m, same_id) = approved_for-IsIn w.check_id approved f found in
    (f, m, (same_id, same_count, digest))

check_warnings-IsCovered :
    (sha256_hex : List ℕ → Text) (approved : List ApprovedFinding) (warnings : List ReportFinding)
    → check_warnings sha256_hex approved warnings ≡ ok tt
    → All (IsCovered sha256_hex approved) warnings
unfolding check_warnings
check_warnings-IsCovered sha256_hex approved [] h = tt
check_warnings-IsCovered sha256_hex approved (w ∷ warnings) h =
    let (u, e, f) =
      >>=-eq-ok (check_approved sha256_hex (approved_for w.check_id approved) w) _ h in
    (
      check_approved-IsCovered sha256_hex approved w e,
      check_warnings-IsCovered sha256_hex approved warnings f,
    )

same_length : (m n : ℕ) → ltb n m ≡ false → ltb m n ≡ false → m ≡ n
same_length m n h k = ground arith

-- What passes the checks of a record approves the report.
pub authenticate-Approves :
    (sha256_hex : List ℕ → Text) (report : RawReport) (raw_sha : Text)
    (approval : QualityApprovalRecord) (expected : Expected)
    → authenticate sha256_hex report raw_sha approval expected ≡ ok tt
    → Approves sha256_hex report raw_sha approval expected
unfolding authenticate verify_self_hash
authenticate-Approves sha256_hex report raw_sha approval expected h =
    let (u, self, a) = >>=-eq-ok (verify_self_hash sha256_hex approval) _ h in
    let (text, e, g) = >>=-eq-ok (canonical_semantics_json approval) _ self in
    let (policy, b) = raise_if-eq-ok _ quality_approval_rejected _ a in
    let (dataset, c) = raise_if-eq-ok _ quality_approval_rejected _ b in
    let (content, d) = raise_if-eq-ok _ quality_approval_rejected _ c in
    let (schema, f) = raise_if-eq-ok _ quality_approval_rejected _ d in
    let (sources, i) = raise_if-eq-ok _ quality_approval_rejected _ f in
    let (identity, j) = raise_if-eq-ok _ quality_approval_rejected _ i in
    let (extra, k) = raise_if-eq-ok _ quality_approval_rejected _ j in
    let (missing, l) = raise_if-eq-ok _ quality_approval_rejected _ k in
    record {
      self_hash = (text, e, text_guard (sha256_hex (utf_8 text)) approval.record_sha256 g);
      policy = not-text_eq approval.quality_policy_version (codes "2") policy;
      same_dataset = differs-Agrees approval.dataset_id expected.dataset_id dataset;
      same_content =
          differs-Agrees approval.canonical_content_hash expected.canonical_content_hash content;
      same_schema = differs-Agrees approval.schema_fingerprint expected.schema_fingerprint schema;
      same_sources = sources_differ-Agree approval.source_sha256 expected.source_sha256 sources;
      same_report = not-text_eq approval.quality_identity_sha256 raw_sha identity;
      none_extra =
          same_length (length approval.approved_findings) (length (warnings_of report.findings))
            extra missing;
      all_covered =
          check_warnings-IsCovered sha256_hex approval.approved_findings
            (warnings_of report.findings) l;
    }
