-- ===== src/Approval/Parsed.antt =====
-- What holds of the records that parse_approval_dict (src/quantara/quality_approval.py) gives.
use quantara.Prelude.{
  ℕ, zero, suc, ◌≡◌, ◌≢◌, sym, ◌∙◌, subst, Bool, true, false, not, List, [], ◌∷◌, All, Bool-cases,
  inl, inr, if_true, if_false, ◌==◌, arith,
}
use quantara.Prelude.Int.{ℤ, pos, negsuc}
use quantara.Text.{Text, codes}
use quantara.Json.{
  Json, Items, Fields, null, float, foreign, bool, int, string, array, object, no_items, item,
}
use quantara.Errors.{ok, >>=-eq-ok, raise_if-eq-ok, ok_injective}
use quantara.Approval.{ApprovedFinding, lookup}
use quantara.Approval.Record.{
  text_that, digest_field, parse_source_items, parse_sources, parse_check_id, parse_finding_count,
  parse_finding, parse_finding_items, parse_findings,
}
use quantara.Approval.Shapes.{
  IsDigest, IsOneOf, matches_sha256_hex-IsDigest, contains-IsOneOf, contains-absent,
}
use quantara.Approval.Patterns.{
  approved_finding_keys, approvable_warning_check_ids, contains, check_keys, matches_sha256_hex,
}

abbrev pub IsPositive : ℤ → Type 0
IsPositive n = (k : ℕ) × (n ≡ pos (suc k))

-- One approved finding, behind those of the checks `seen`.
abbrev pub IsApproved : List Text → ApprovedFinding → Type 0
IsApproved seen f =
    IsOneOf f.check_id approvable_warning_check_ids
    × All (λ s. f.check_id ≢ s) seen
    × IsPositive f.count
    × IsDigest f.canonical_finding_sha256

-- Approved findings of different checks.
abbrev pub AreApproved : List Text → List ApprovedFinding → Type 0
AreApproved seen [] = Unit
AreApproved seen (f ∷ findings) = IsApproved seen f × AreApproved (f.check_id ∷ seen) findings

pub text_that-holds :
    (test : Text → Bool) (v : Json) (t : Text) → text_that test v ≡ ok t → test t ≡ true
unfolding text_that
text_that-holds test (string s) t h = elim (Bool-cases (test s)) [
  | inl passes ↦ subst (λ z. test z ≡ true) (ok_injective (sym (if_true _ _ _ passes) ∙ h)) passes
  | inr fails ↦ let clash = sym (if_false _ _ _ fails) ∙ h in cc
]
text_that-holds test null t h = cc
text_that-holds test float t h = cc
text_that-holds test foreign t h = cc
text_that-holds test (bool b) t h = cc
text_that-holds test (int n) t h = cc
text_that-holds test (array items) t h = cc
text_that-holds test (object entries) t h = cc

pub digest_field-holds :
    (key : Text) (entries : Fields) (t : Text) → digest_field key entries ≡ ok t → IsDigest t
unfolding digest_field
digest_field-holds key entries t h =
    let (v, e, f) = >>=-eq-ok (lookup key entries) _ h in
    matches_sha256_hex-IsDigest t (text_that-holds matches_sha256_hex v t f)

parse_check_id-holds :
    (seen : List Text) (v : Json) (t : Text)
    → parse_check_id seen v ≡ ok t
    → (contains t approvable_warning_check_ids ≡ true) × (contains t seen ≡ false)
unfolding parse_check_id
parse_check_id-holds seen (string s) t h =
    let (a, k) = raise_if-eq-ok (not (contains s approvable_warning_check_ids)) _ _ h in
    let (b, l) = raise_if-eq-ok (contains s seen) _ _ k in
    subst (λ z. (contains z approvable_warning_check_ids ≡ true) × (contains z seen ≡ false))
      (ok_injective l) (ground arith, b)
parse_check_id-holds seen null t h = cc
parse_check_id-holds seen float t h = cc
parse_check_id-holds seen foreign t h = cc
parse_check_id-holds seen (bool b) t h = cc
parse_check_id-holds seen (int n) t h = cc
parse_check_id-holds seen (array items) t h = cc
parse_check_id-holds seen (object entries) t h = cc

parse_finding_count-holds : (v : Json) (n : ℤ) → parse_finding_count v ≡ ok n → IsPositive n
unfolding parse_finding_count
parse_finding_count-holds (int (pos zero)) n h = cc
parse_finding_count-holds (int (pos (suc k))) n h =
    let positive : (suc k == 0) ≡ false = ground arith in
    (k, sym (ok_injective (sym (if_false _ _ _ positive) ∙ h)))
parse_finding_count-holds (int (negsuc k)) n h = cc
parse_finding_count-holds (string s) n h = cc
parse_finding_count-holds null n h = cc
parse_finding_count-holds float n h = cc
parse_finding_count-holds foreign n h = cc
parse_finding_count-holds (bool b) n h = cc
parse_finding_count-holds (array items) n h = cc
parse_finding_count-holds (object entries) n h = cc

parse_finding-IsApproved :
    (seen : List Text) (v : Json) (f : ApprovedFinding)
    → parse_finding seen v ≡ ok f
    → IsApproved seen f
unfolding parse_finding
parse_finding-IsApproved seen (object entries) f h =
    let (u, _, a) = >>=-eq-ok (check_keys approved_finding_keys entries) _ h in
    let (id_value, _, b) = >>=-eq-ok (lookup (codes "check_id") entries) _ a in
    let (id, p, c) = >>=-eq-ok (parse_check_id seen id_value) _ b in
    let (count_value, _, d) = >>=-eq-ok (lookup (codes "count") entries) _ c in
    let (count, q, e) = >>=-eq-ok (parse_finding_count count_value) _ d in
    let (digest, r, g) = >>=-eq-ok (digest_field (codes "canonical_finding_sha256") entries) _ e in
    let (known, new) = parse_check_id-holds seen id_value id p in
    subst (IsApproved seen) (ok_injective g) (
      contains-IsOneOf id approvable_warning_check_ids known,
      contains-absent id seen new,
      parse_finding_count-holds count_value count q,
      digest_field-holds (codes "canonical_finding_sha256") entries digest r,
    )
parse_finding-IsApproved seen null f h = cc
parse_finding-IsApproved seen float f h = cc
parse_finding-IsApproved seen foreign f h = cc
parse_finding-IsApproved seen (bool b) f h = cc
parse_finding-IsApproved seen (int n) f h = cc
parse_finding-IsApproved seen (string s) f h = cc
parse_finding-IsApproved seen (array items) f h = cc

parse_finding_items-AreApproved :
    (seen : List Text) (items : Items) (fs : List ApprovedFinding)
    → parse_finding_items seen items ≡ ok fs
    → AreApproved seen fs
unfolding parse_finding_items
parse_finding_items-AreApproved seen no_items fs h = subst (AreApproved seen) (ok_injective h) tt
parse_finding_items-AreApproved seen (item v items) fs h =
    let (f, p, a) = >>=-eq-ok (parse_finding seen v) _ h in
    let (more, q, b) = >>=-eq-ok (parse_finding_items (f.check_id ∷ seen) items) _ a in
    subst (AreApproved seen) (ok_injective b) (
      parse_finding-IsApproved seen v f p,
      parse_finding_items-AreApproved (f.check_id ∷ seen) items more q,
    )

parse_source_items-digests :
    (items : Items) (ts : List Text) → parse_source_items items ≡ ok ts → All IsDigest ts
unfolding parse_source_items
parse_source_items-digests no_items ts h = subst (All IsDigest) (ok_injective h) tt
parse_source_items-digests (item v items) ts h =
    let (t, p, a) = >>=-eq-ok (text_that matches_sha256_hex v) _ h in
    let (more, q, b) = >>=-eq-ok (parse_source_items items) _ a in
    subst (All IsDigest) (ok_injective b) (
      matches_sha256_hex-IsDigest t (text_that-holds matches_sha256_hex v t p),
      parse_source_items-digests items more q,
    )

pub parse_sources-digests : (v : Json) (ts : List Text) → parse_sources v ≡ ok ts → All IsDigest ts
unfolding parse_sources
parse_sources-digests (array (item v items)) ts h = parse_source_items-digests (item v items) ts h
parse_sources-digests (array no_items) ts h = cc
parse_sources-digests null ts h = cc
parse_sources-digests float ts h = cc
parse_sources-digests foreign ts h = cc
parse_sources-digests (bool b) ts h = cc
parse_sources-digests (int n) ts h = cc
parse_sources-digests (string s) ts h = cc
parse_sources-digests (object entries) ts h = cc

parse_finding_items-nonempty :
    (seen : List Text) (v : Json) (items : Items) (fs : List ApprovedFinding)
    → parse_finding_items seen (item v items) ≡ ok fs
    → fs ≢ []
unfolding parse_finding_items
parse_finding_items-nonempty seen v items fs h empty =
    let (f, p, a) = >>=-eq-ok (parse_finding seen v) _ h in
    let (more, q, b) = >>=-eq-ok (parse_finding_items (f.check_id ∷ seen) items) _ a in
    let clash = ok_injective b ∙ empty in cc

-- At least one finding, and all of them approved.
abbrev pub SomeApproved : List ApprovedFinding → Type 0
SomeApproved fs = (fs ≢ []) × AreApproved [] fs

pub parse_findings-SomeApproved :
    (v : Json) (fs : List ApprovedFinding) → parse_findings v ≡ ok fs → SomeApproved fs
unfolding parse_findings
parse_findings-SomeApproved (array (item v items)) fs h =
    let approved = parse_finding_items-AreApproved [] (item v items) fs h in
    (parse_finding_items-nonempty [] v items fs h, approved)
parse_findings-SomeApproved (array no_items) fs h = cc
parse_findings-SomeApproved null fs h = cc
parse_findings-SomeApproved float fs h = cc
parse_findings-SomeApproved foreign fs h = cc
parse_findings-SomeApproved (bool b) fs h = cc
parse_findings-SomeApproved (int n) fs h = cc
parse_findings-SomeApproved (string s) fs h = cc
parse_findings-SomeApproved (object entries) fs h = cc
