-- ===== src/Archive/Accepted.antt =====
-- The archives that src/quantara/archive.py accepts, and the bytes that it then gives.
use mathlib.Core.Option.{some-injective}
use quantara.Prelude.{
  ℕ, ◌+◌, ◌*◌, ◌≤◌, ◌<◌, ◌≡◌, ◌↔◌, refl, sym, ap, ◌∙◌, subst, Bool, true, false, not, ◌&&◌, Option,
  none, some, List, [], ◌∷◌, length, length-append, arith, ltb, ltb→lt, ◌==◌, Bool-cases, inl, inr,
  if_true, if_false,
}
use quantara.Text.{Text}
use quantara.Errors.{ok, unsafe_zip_member, raise_if, >>=-eq-ok, raise_if-eq-ok, ok_injective}
use quantara.Archive.Names.{IsRelative, name_is_safe-IsRelative}
use quantara.Archive.{
  max_member_bytes, max_compression_ratio, ZipInfo, MemberSpec, name_is_safe, all_safe, select,
  only_member, is_empty, check_sizes, spec_of, inspect_infos, inspect_zip, stream_chunks,
  read_member_bytes,
}

-- A member with a relative name of the pattern, not larger than the cap, and not more than 100 times as
-- large as what is stored of it, if anything is.
abbrev pub IsAcceptable : (Text → Bool) → ZipInfo → Type 0
IsAcceptable fullmatch info =
    IsRelative info.filename
    × (fullmatch info.filename ≡ true)
    × (info.file_size ≤ max_member_bytes)
    × (0 < info.compress_size → info.file_size ≤ max_compression_ratio * info.compress_size)

raise_if-ok : (c : Bool) → raise_if c unsafe_zip_member ≡ ok tt → c ≡ false
raise_if-ok true h = cc
raise_if-ok false h = refl

check_sizes-holds :
    (info : ZipInfo)
    → (check_sizes info ≡ ok tt) ↔ (
        (info.file_size ≤ max_member_bytes)
        × (0 < info.compress_size → info.file_size ≤ max_compression_ratio * info.compress_size))
unfolding check_sizes
check_sizes-holds info = (
  λ h.
      let (a, k) = raise_if-eq-ok (ltb max_member_bytes info.file_size) _ _ h in
      let b = raise_if-ok _ k in (ground arith, λ stored. ground arith),
  λ (a, b).
      let small : ltb max_member_bytes info.file_size ≡ false = ground arith in
      let dense : (ltb 0 info.compress_size
            && ltb (max_compression_ratio * info.compress_size) info.file_size)
          ≡ false =
        elim (Bool-cases (ltb 0 info.compress_size)) [
          | inl stored ↦ let r = b (ltb→lt 0 info.compress_size stored) in ground arith
          | inr nothing ↦ ground arith
        ] in
      rw (small, dense) refl,
)

only_member-ok : (infos : List ZipInfo) (m : ZipInfo) → only_member infos ≡ ok m → infos ≡ m ∷ []
unfolding only_member
only_member-ok [] m h = cc
only_member-ok (info ∷ []) m h = ap (λ z. z ∷ []) (ok_injective h)
only_member-ok (info ∷ other ∷ infos) m h = cc

is_empty-eq : {A : Type 0} (as_ : List A) → is_empty as_ ≡ true → as_ ≡ []
unfolding is_empty
is_empty-eq [] h = refl
is_empty-eq (a ∷ as_) h = cc

-- What is not selected by a test is selected by its contrary.
select-all :
    (test : Text → Bool) (infos : List ZipInfo)
    → select (λ name. not (test name)) infos ≡ []
    → select test infos ≡ infos
unfolding select
select-all test [] h = refl
select-all test (info ∷ infos) h = elim (Bool-cases (test info.filename)) [
  | inl yes_ ↦
      if_true _ _ _ yes_
      ∙ ap (λ z. info ∷ z) (select-all test infos (sym (if_false _ _ _ (ap not yes_)) ∙ h))
  | inr no_ ↦ let clash = sym (if_true _ _ _ (ap not no_)) ∙ h in cc
]

-- One member that passes each check.
single-ok :
    (fullmatch : Text → Bool) (info : ZipInfo)
    → IsAcceptable fullmatch info
    → inspect_infos fullmatch (info ∷ []) ≡ ok (spec_of info)
unfolding inspect_infos is_empty all_safe select only_member
single-ok fullmatch info (relative, matching, small, dense) =
    let safe = (name_is_safe-IsRelative info.filename).1 relative in
    rw (safe, matching, (check_sizes-holds info).1 (small, dense)) refl

single-safe : (m : ZipInfo) → not (all_safe (m ∷ [])) ≡ false → name_is_safe m.filename ≡ true
unfolding all_safe
single-safe m h = ground arith

single-matches :
    (fullmatch : Text → Bool) (m : ZipInfo)
    → only_member (select fullmatch (m ∷ [])) ≡ ok m
    → fullmatch m.filename ≡ true
unfolding only_member select
single-matches fullmatch m h = elim (Bool-cases (fullmatch m.filename)) [
  | inl passes ↦ passes
  | inr fails ↦ let clash = sym (ap only_member (if_false _ _ _ fails)) ∙ h in cc
]

inspect_infos-IsAcceptable :
    (fullmatch : Text → Bool) (infos : List ZipInfo) (spec : MemberSpec)
    → inspect_infos fullmatch infos ≡ ok spec
    → (info : ZipInfo) × (infos ≡ info ∷ []) × (spec ≡ spec_of info) × IsAcceptable fullmatch info
unfolding inspect_infos
inspect_infos-IsAcceptable fullmatch infos spec h =
    let (some_member, a) = raise_if-eq-ok (is_empty infos) _ _ h in
    let (safe, b) = raise_if-eq-ok (not (all_safe infos)) _ _ a in
    let (member, chosen, c) = >>=-eq-ok (only_member (select fullmatch infos)) _ b in
    let (no_other, d) =
      raise_if-eq-ok (not (is_empty (select (λ name. not (fullmatch name)) infos))) _ _ c in
    let (u, sizes, e) = >>=-eq-ok (check_sizes member) _ d in
    let one : infos ≡ member ∷ [] =
      sym (
        select-all fullmatch infos
          (is_empty-eq (select (λ name. not (fullmatch name)) infos) (ground arith)))
      ∙ only_member-ok (select fullmatch infos) member chosen in
    let safe_one : not (all_safe (member ∷ [])) ≡ false =
      subst (λ z. not (all_safe z) ≡ false) one safe in
    let chosen_one : only_member (select fullmatch (member ∷ [])) ≡ ok member =
      subst (λ z. only_member (select fullmatch z) ≡ ok member) one chosen in
    let (size_ok, ratio_ok) = (check_sizes-holds member).0 sizes in
    (
      member,
      one,
      sym (ok_injective e),
      (
        (name_is_safe-IsRelative member.filename).0 (single-safe member safe_one),
        single-matches fullmatch member chosen_one,
        size_ok,
        ratio_ok,
      ),
    )

-- An archive is accepted exactly if its central directory lists one member and this is acceptable,
-- and what is returned are the name and the sizes of that member.
pub inspect_zip-IsAcceptable :
    (fullmatch : Text → Bool) (bundle : Option (List ZipInfo)) (spec : MemberSpec)
    → (inspect_zip fullmatch bundle ≡ ok spec) ↔ (
        (info : ZipInfo) × (bundle ≡ some (info ∷ []))
        × (spec ≡ spec_of info)
        × IsAcceptable fullmatch info)
unfolding inspect_zip
inspect_zip-IsAcceptable fullmatch none spec = (λ h. cc, λ w. let (info, e, f, g) = w in cc)
inspect_zip-IsAcceptable fullmatch (some infos) spec = (
  λ h.
      let (info, one, same, good) = inspect_infos-IsAcceptable fullmatch infos spec h in
      (info, ap some one, same, good),
  λ w.
      let (info, one, same, good) = w in
      subst (λ z. inspect_infos fullmatch z ≡ ok spec) (sym (some-injective _ _ one))
        (single-ok fullmatch info good ∙ ap ok (sym same)),
)

stream_chunks-length :
    (total : ℕ) (chunks : List (Option (List ℕ))) (spec : MemberSpec) (bytes : List ℕ)
    → stream_chunks total chunks spec ≡ ok bytes
    → total + length bytes ≡ spec.uncompressed_size
unfolding stream_chunks
stream_chunks-length total [] spec bytes h =
    let (same, k) = raise_if-eq-ok (not (total == spec.uncompressed_size)) _ _ h in
    let e = ap length (sym (ok_injective k)) in ground arith
stream_chunks-length total (none ∷ chunks) spec bytes h = cc
stream_chunks-length total (some chunk ∷ chunks) spec bytes h =
    let (more, e, f) = >>=-eq-ok (stream_chunks (total + length chunk) chunks spec) _ h in
    omega (
      arith,
      stream_chunks-length (total + length chunk) chunks spec more e,
      length-append chunk more,
      ap (length {A = ℕ}) (ok_injective f),
    )

-- The bytes that are read of a member that was accepted are as many as it declares, and not more than
-- the cap, whatever chunks the library gives.
pub read_member_bytes-length :
    (fullmatch : Text → Bool) (bundle : Option (List ZipInfo)) (spec : MemberSpec)
    (chunks : Option (List (Option (List ℕ)))) (bytes : List ℕ)
    → inspect_zip fullmatch bundle ≡ ok spec
    → read_member_bytes chunks spec ≡ ok bytes
    → (length bytes ≡ spec.uncompressed_size) × (length bytes ≤ max_member_bytes)
unfolding read_member_bytes
read_member_bytes-length fullmatch bundle spec none bytes h k = cc
read_member_bytes-length fullmatch bundle spec (some chunks) bytes h k =
    let (info, one, same, good) = (inspect_zip-IsAcceptable fullmatch bundle spec).0 h in
    let declared = stream_chunks-length 0 chunks spec bytes k in
    let size : spec.uncompressed_size ≡ info.file_size =
      ap (λ (m : MemberSpec). m.uncompressed_size) same in
    let cap = good.2 in (omega arith, omega arith)
