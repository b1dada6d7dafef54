-- ===== src/Archive/Tests.antt =====
-- src/quantara/archive.py on small archives.
use quantara.Prelude.{ℕ, ◌≤◌, ◌≡◌, ◌↔◌, refl, Bool, some, List, [], ◌∷◌, length}
use quantara.Text.{Text, codes, text_eq}
use quantara.Errors.{ok, err, unsafe_zip_member, corrupt_archive}
use quantara.Archive.{
  max_member_bytes, ZipInfo, put_first, segments, has_drive, has_traversal, name_is_safe, all_safe,
  select, only_member, is_empty, check_sizes, spec_of, inspect_infos, inspect_zip, stream_chunks,
  read_member_bytes,
}
use quantara.Archive.Accepted.{IsAcceptable, inspect_zip-IsAcceptable, read_member_bytes-length}

abbrev is_csv : Text → Bool
is_csv name = text_eq name (codes "a.csv")

abbrev member : ZipInfo
member = record { filename = codes "a.csv"; file_size = 3; compress_size = 1 }

-- The same name behind a step to the parent.
abbrev escaping : ZipInfo
escaping = record { filename = codes "b/../../a.csv"; file_size = 3; compress_size = 1 }

accepted : inspect_zip is_csv (some (member ∷ [])) ≡ ok (spec_of member)
unfolding inspect_zip inspect_infos is_empty all_safe name_is_safe has_drive has_traversal segments
    put_first select only_member check_sizes text_eq
accepted = refl

refused : inspect_zip is_csv (some (member ∷ escaping ∷ [])) ≡ err unsafe_zip_member
unfolding inspect_zip inspect_infos is_empty all_safe name_is_safe has_drive has_traversal segments
    put_first text_eq
refused = refl

read_whole :
    read_member_bytes (some (some (1 ∷ 2 ∷ []) ∷ some (3 ∷ []) ∷ [])) (spec_of member)
    ≡ ok (1 ∷ 2 ∷ 3 ∷ [])
unfolding read_member_bytes stream_chunks
read_whole = refl

read_short :
    read_member_bytes (some (some (1 ∷ 2 ∷ []) ∷ [])) (spec_of member) ≡ err corrupt_archive
unfolding read_member_bytes stream_chunks
read_short = refl

inspect_zip-IsAcceptable_example :
    (inspect_zip is_csv (some (member ∷ [])) ≡ ok (spec_of member)) ↔ (
      (info : ZipInfo) × (some (member ∷ []) ≡ some (info ∷ []))
      × (spec_of member ≡ spec_of info)
      × IsAcceptable is_csv info)
inspect_zip-IsAcceptable_example =
    inspect_zip-IsAcceptable is_csv (some (member ∷ [])) (spec_of member)

abbrev three_bytes : List ℕ
three_bytes = 1 ∷ 2 ∷ 3 ∷ []

read_member_bytes-length_example :
    (length three_bytes ≡ 3) × (length three_bytes ≤ max_member_bytes)
read_member_bytes-length_example =
    read_member_bytes-length is_csv (some (member ∷ [])) (spec_of member)
      (some (some (1 ∷ 2 ∷ []) ∷ some (3 ∷ []) ∷ [])) three_bytes accepted read_whole
