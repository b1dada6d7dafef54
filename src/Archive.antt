-- ===== src/Archive.antt =====
-- src/quantara/archive.py: the inspection of a ZIP archive, and the reading of its member. What the zipfile
-- library finds is an argument: the central directory (`none` where it raises BadZipFile) and the
-- chunks of a member; `fullmatch` is the compiled member pattern. The ratio of sizes is a
-- quotient of floats in the source; with the sizes under the cap it exceeds 100 exactly if this does.
pub mod Accepted
pub mod Names
mod Tests
use quantara.Prelude.{
  ℕ, suc, ◌+◌, ◌*◌, Bool, true, false, not, ◌&&◌, ◌||◌, Option, none, some, List, [], ◌∷◌, ◌++◌,
  length, ltb, leb, ◌==◌, if◌then◌else◌,
}
use quantara.Text.{Text, codes, text_eq}
use quantara.Errors.{Result, ok, err, unsafe_zip_member, corrupt_archive, raise_if, ◌>>=◌, ◌>>◌}

abbrev pub max_member_bytes : ℕ
max_member_bytes = 268435456

abbrev pub max_compression_ratio : ℕ
max_compression_ratio = 100

-- What is used of a `ZipInfo`.
pub record ZipInfo : Type 0 where
  pub filename : Text
  pub file_size : ℕ
  pub compress_size : ℕ

pub record MemberSpec : Type 0 where
  pub name : Text
  pub uncompressed_size : ℕ
  pub compressed_size : ℕ

abbrev pub is_separator : ℕ → Bool
is_separator c = c == b'\\' || c == b'/'

-- A character in front of the first segment.
unfoldable pub put_first : ℕ → List Text → List Text
put_first c [] = (c ∷ []) ∷ []
put_first c (s ∷ ss) = (c ∷ s) ∷ ss

-- `re.split(r"[\\/]", name)`
unfoldable pub segments : Text → List Text
unfolding put_first
segments [] = [] ∷ []
segments (c ∷ cs) = let rest = segments cs in if is_separator c then [] ∷ rest else put_first c rest

-- `[A-Za-z]`
abbrev pub is_letter : ℕ → Bool
is_letter c = (leb b'A' c && leb c b'Z') || (leb b'a' c && leb c b'z')

unfoldable pub has_drive : Text → Bool
has_drive (c ∷ d ∷ cs) = is_letter c && d == b':'
has_drive _ = false

unfoldable pub has_traversal : List Text → Bool
has_traversal [] = false
has_traversal (s ∷ ss) = text_eq s (codes "..") || has_traversal ss

-- The test for two backslashes in front is part of that for one.
unfoldable pub name_is_safe : Text → Bool
unfolding has_drive has_traversal segments
name_is_safe [] = false
name_is_safe (c ∷ cs) =
    if c == b'/' || c == b'\\'
    then false
    else if has_drive (c ∷ cs)
    then false
    else not (has_traversal (segments (c ∷ cs)))

unfoldable pub all_safe : List ZipInfo → Bool
all_safe [] = true
all_safe (info ∷ infos) = name_is_safe info.filename && all_safe infos

-- `[info for info in infos if test(info.filename)]`
unfoldable pub select : (test : Text → Bool) → List ZipInfo → List ZipInfo
select test [] = []
select test (info ∷ infos) =
    let rest = select test infos in if test info.filename then info ∷ rest else rest

-- The one member, where there is one.
unfoldable pub only_member : List ZipInfo → Result ZipInfo
only_member (info ∷ []) = ok info
only_member _ = err corrupt_archive

unfoldable pub is_empty {ℓ} : {A : Type ℓ} → List A → Bool
is_empty [] = true
is_empty (a ∷ as_) = false

unfoldable pub check_sizes : ZipInfo → Result (Unit {0})
check_sizes member = do
  raise_if (ltb max_member_bytes member.file_size) unsafe_zip_member
  raise_if
      (ltb 0 member.compress_size
        && ltb (max_compression_ratio * member.compress_size) member.file_size)
      unsafe_zip_member

abbrev pub spec_of : ZipInfo → MemberSpec
spec_of member = record {
  name = member.filename;
  uncompressed_size = member.file_size;
  compressed_size = member.compress_size;
}

unfoldable pub inspect_infos : (fullmatch : Text → Bool) → List ZipInfo → Result MemberSpec
unfolding all_safe select only_member is_empty
inspect_infos fullmatch infos = do
  raise_if (is_empty infos) corrupt_archive
  raise_if (not (all_safe infos)) unsafe_zip_member
  member ← only_member (select fullmatch infos)
  raise_if (not (is_empty (select (λ name. not (fullmatch name)) infos))) unsafe_zip_member
  check_sizes member
  ok (spec_of member)

unfoldable pub inspect_zip : (fullmatch : Text → Bool) → Option (List ZipInfo) → Result MemberSpec
inspect_zip fullmatch none = err corrupt_archive
inspect_zip fullmatch (some infos) = inspect_infos fullmatch infos

-- The chunks that the library reads, and `none` where it raises.
unfoldable pub stream_chunks : (total : ℕ) → List (Option (List ℕ)) → MemberSpec → Result (List ℕ)
stream_chunks total [] spec = do
  raise_if (not (total == spec.uncompressed_size)) corrupt_archive
  ok []
stream_chunks total (none ∷ chunks) spec = err corrupt_archive
stream_chunks total (some chunk ∷ chunks) spec = do
  more ← stream_chunks (total + length chunk) chunks spec
  ok (chunk ++ more)

-- `b"".join(stream_member(...))`; `none` where the archive does not open.
unfoldable pub read_member_bytes : Option (List (Option (List ℕ))) → MemberSpec → Result (List ℕ)
read_member_bytes none spec = err corrupt_archive
read_member_bytes (some chunks) spec = stream_chunks 0 chunks spec
