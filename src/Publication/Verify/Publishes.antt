-- ===== src/Publication/Verify/Publishes.antt =====
-- A publication through src/quantara/publication.py from staging to the pointer.
use quantara.Prelude.{
  ◌≡◌, ◌≢◌, refl, sym, ap, ◌∙◌, false, Bool-cases, Option, none, some, List, [], ◌∷◌, inl, inr, ◌⊎◌,
  All, if_true, if_false, if◌then◌else◌,
}
use quantara.Text.{Text, codes, text_eq, text_eq_iff, text_eq_refl}
use quantara.Json.{Json, Fields, object, string, no_fields, entry, get}
use quantara.Errors.{ok}
use quantara.Publication.{
  Bytes, Directory, Disk, find, write, write_files, open_file, after_opening, remove, is_none,
  directory_or_new, stage_commit, rename_commit, publish_commit, write_current,
}
use quantara.Publication.Refs.{Ref, refs_of}
use quantara.Publication.Verify.{
  with_commit, without, value_or, content_of, verify_refs, verify_content, verify_commit_graph,
  verify_commit, read_pointer, read_and_verify_current,
}

-- What is found under a name after a write under it, and under another.
find-write :
    {A : Type 0} (name : Text) (a : A) (entries : List (Text × A))
    → find name (write name a entries) ≡ some a
unfolding find write
find-write name a [] = if_true _ _ _ (text_eq_refl name)
find-write name a ((key, b) ∷ entries) = elim (Bool-cases (text_eq name key)) [
  | inl same ↦ rw same (if_true _ _ _ same)
  | inr other ↦ rw other (if_false _ _ _ other ∙ find-write name a entries)
]

find-write_ne :
    {A : Type 0} (name other : Text) (a : A) (entries : List (Text × A))
    → text_eq name other ≡ false
    → find name (write other a entries) ≡ find name entries
unfolding find write
find-write_ne name other a [] h = if_false _ _ _ h
find-write_ne name other a ((key, b) ∷ entries) h = elim (Bool-cases (text_eq other key)) [
  | inl same ↦
      let apart : text_eq name key ≡ false =
        ap (text_eq name) (sym ((text_eq_iff other key).0 same)) ∙ h in
      rw same (if_false _ _ _ apart ∙ sym (if_false _ _ _ apart))
  | inr differ ↦
      rw differ
        (ap (λ o. if text_eq name key then some b else o) (find-write_ne name other a entries h))
]

find-head :
    {A : Type 0} (name : Text) (a : A) (entries : List (Text × A))
    → find name ((name, a) ∷ entries) ≡ some a
unfolding find
find-head name a entries = if_true _ _ _ (text_eq_refl name)

text_eq-nonempty : (t : Text) → t ≢ [] → text_eq t [] ≡ false
unfolding text_eq
text_eq-nonempty [] h = absurd (h refl)
text_eq-nonempty (c ∷ t) h = refl

content_name : text_eq (codes "content.json") (codes "COMMITTED") ≡ false
unfolding text_eq
content_name = refl

-- The files of a staging directory, each written over one of its name.
unfoldable pub write_all : List (Text × Bytes) → Directory → Directory
write_all [] directory = directory
write_all ((name, blob) ∷ files) directory = write_all files (write name blob directory)

write_files-write_all :
    (files : List (Text × Bytes)) (directory : Directory)
    → All (λ file. open_file file.0 ≡ ok tt) files
    → write_files files directory ≡ (write_all files directory, ok tt)
unfolding write_files write_all after_opening
write_files-write_all [] directory opens = refl
write_files-write_all ((name, blob) ∷ files) directory opens =
    rw (opens.0) (write_files-write_all files (write name blob directory) opens.1)

-- What a reader finds is the content with the commit under "commit", unless the content has an entry of
-- that name itself.
abbrev pub IsFound : (commit : Text) → (content found : Fields) → Type 0
IsFound commit content found =
    ((key : Text) → (key ≡ codes "commit") ⊎ (get key found ≡ get key content))
    × (((get (codes "commit") content ≡ none) × (get (codes "commit") found ≡ some (string commit)))
        ⊎ ((own : Json) × (get (codes "commit") content ≡ some own)
            × (get (codes "commit") found ≡ some own)))

get-without :
    (key dropped : Text) (fields : Fields)
    → text_eq key dropped ≡ false
    → get key (without dropped fields) ≡ get key fields
unfolding get without
get-without key dropped no_fields h = refl
get-without key dropped (entry name value more) h = elim (Bool-cases (text_eq dropped name)) [
  | inl same ↦
      let apart : text_eq key name ≡ false =
        ap (text_eq key) (sym ((text_eq_iff dropped name).0 same)) ∙ h in
      rw same (get-without key dropped more h ∙ sym (if_false _ _ _ apart))
  | inr differ ↦
      rw differ
        (ap (λ o. if text_eq key name then some value else o) (get-without key dropped more h))
]

with_commit-head :
    (commit : Text) (content : Fields)
    → get (codes "commit") (with_commit commit content)
      ≡ some (value_or (string commit) (get (codes "commit") content))
unfolding with_commit get
with_commit-head commit content = if_true _ _ _ (text_eq_refl (codes "commit"))

with_commit-other :
    (commit key : Text) (content : Fields)
    → text_eq key (codes "commit") ≡ false
    → get key (with_commit commit content) ≡ get key content
unfolding with_commit get
with_commit-other commit key content h =
    if_false _ _ _ h ∙ get-without key (codes "commit") content h

with_commit-own :
    (commit : Text) (o : Option Json) (found : Option Json)
    → found ≡ some (value_or (string commit) o)
    → ((o ≡ none) × (found ≡ some (string commit)))
      ⊎ ((own : Json) × (o ≡ some own) × (found ≡ some own))
unfolding value_or
with_commit-own commit none found e = inl (refl, e)
with_commit-own commit (some own) found e = inr (own, refl, e)

with_commit-IsFound :
    (commit : Text) (content : Fields) → IsFound commit content (with_commit commit content)
with_commit-IsFound commit content = (
  λ key. elim (Bool-cases (text_eq key (codes "commit"))) [
    | inl same ↦ inl ((text_eq_iff key (codes "commit")).0 same)
    | inr differ ↦ inr (with_commit-other commit key content differ)
  ],
  with_commit-own commit (get (codes "commit") content) _ (with_commit-head commit content),
)

module _ (sha256 : Bytes → Text) (loads : Bytes → Option Json) where
  -- Where every file name opens, and the content that is staged reads as a dictionary whose references
  -- verify on the disk, for an attempt and a commit with names of their own, the files are staged,
  -- the publication succeeds, and a reader finds this content through the pointer, with the commit
  -- under "commit" unless the content has an entry of that name.
  pub read_and_verify_current-publish :
      (disk : Disk) (attempt_id content_hash manifest_digest : Text) (files : List (Text × Bytes))
      (blob : Bytes) (content : Fields) (refs : List Ref)
      → All (λ file. open_file file.0 ≡ ok tt) files
      → find attempt_id disk.staging ≡ none
      → content_hash ≢ []
      → find content_hash disk.commits ≡ none
      → find (codes "content.json") (write_all files []) ≡ some blob
      → loads blob ≡ some (object content)
      → refs_of content ≡ ok refs
      → verify_refs sha256 disk.objects refs ≡ ok tt
      → ((stage_commit disk attempt_id files).1 ≡ ok tt)
        × ((after : Disk) × (publish_commit
                (stage_commit disk attempt_id files).0
                attempt_id
                content_hash
              ≡ ok after)
            × ((found : Fields) × (read_and_verify_current sha256 loads
                    (write_current after content_hash manifest_digest)
                  ≡ ok found)
                × IsFound content_hash content found))
  unfolding stage_commit publish_commit rename_commit read_and_verify_current read_pointer
      verify_commit verify_commit_graph verify_content content_of write_current is_none
      directory_or_new
  read_and_verify_current-publish disk attempt_id content_hash manifest_digest files blob content
        refs opens fresh named new staged read listed verified =
      let files_of = write_all files [] in
      let directory = write (codes "COMMITTED") [] files_of in
      let after : Disk = record {
        objects = disk.objects;
        commits = (content_hash, directory) ∷ disk.commits;
        staging = remove attempt_id (write attempt_id files_of disk.staging);
        current = disk.current;
      } in
      let written = write_files-write_all files [] opens in
      let marker = find-write (codes "COMMITTED") [] files_of in
      let whole =
        find-write_ne (codes "content.json") (codes "COMMITTED") [] files_of content_name
        ∙ staged in
      let held = find-head content_hash directory disk.commits in
      (
        rw (fresh, written) refl,
        (
          after,
          rw
              (
                fresh,
                written,
                text_eq-nonempty content_hash named,
                new,
                find-write attempt_id files_of disk.staging,
              )
              refl,
          (
            with_commit content_hash content,
            rw (text_eq-nonempty content_hash named, held, marker, whole, read, listed, verified)
                refl,
            with_commit-IsFound content_hash content,
          ),
        ),
      )
