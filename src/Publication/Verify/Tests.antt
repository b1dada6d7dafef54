-- ===== src/Publication/Verify/Tests.antt =====
-- src/quantara/publication.py with a toy hash (the bytes themselves) and a toy json.loads.
use quantara.Prelude.{◌≡◌, refl, false, Option, none, some, List, [], ◌∷◌, All}
use quantara.Text.{Text, codes, text_eq}
use quantara.Errors.{ok, err, object_collision, os_error}
use quantara.Publication.{
  Bytes, Disk, find, write, object_path, is_none, store_object, stage_commit, publish_commit,
  open_file, write_files, write_current,
}
use quantara.Json.{Json, string, array, object, item, no_items, entry, no_fields, Fields, get}
use quantara.Publication.Refs.{refs_of}
use quantara.Publication.Verify.{
  Step, store, stage, publish, point, run_steps, verify_refs, verify_commit_graph,
  read_and_verify_current,
}
use quantara.Publication.Verify.Publishes.{write_all, IsFound, read_and_verify_current-publish}
use quantara.Publication.Verify.Objects.{store_object_again}
use quantara.Publication.Verify.Readers.{read_and_verify_current-run_steps}

abbrev toy_sha256 : Bytes → Text
toy_sha256 payload = payload

abbrev one_ref : Fields
one_ref =
    entry (codes "object_refs")
      (array (
        item
          (object (
            entry (codes "kind") (string (codes "raw"))
              (entry (codes "sha256") (string (codes "ab")) no_fields)))
          no_items))
      no_fields

-- The reference with the commit in front of it.
abbrev found_ref : Text → Fields
found_ref commit = entry (codes "commit") (string commit) one_ref

abbrev toy_loads : Bytes → Option Json
toy_loads blob = some (object one_ref)

abbrev empty_disk : Disk
empty_disk = record { objects = []; commits = []; staging = []; current = none }

abbrev content_file : List (Text × Bytes)
content_file = (codes "content.json", codes "{}") ∷ []

abbrev publication : List Step
publication =
    store (codes "raw") (codes "ab") none
    ∷ stage (codes "a1") content_file
    ∷ publish (codes "a1") (codes "c1")
    ∷ point (codes "c1") (codes "m1")
    ∷ []

abbrev published : Disk
published = record {
  objects = (codes "objects/raw/sha256/ab", codes "ab") ∷ [];
  commits = (codes "c1", (codes "content.json", codes "{}") ∷ (codes "COMMITTED", []) ∷ []) ∷ [];
  staging = [];
  current = some (record { commit = codes "c1"; manifest_sha256 = codes "m1" });
}

publishes : run_steps toy_sha256 empty_disk publication ≡ published
unfolding run_steps find text_eq object_path store_object stage_commit publish_commit write_current
publishes = refl

reads : read_and_verify_current toy_sha256 toy_loads published ≡ ok (found_ref (codes "c1"))
unfolding read_and_verify_current verify_commit_graph verify_refs object_path is_none refs_of get
    find text_eq
reads = refl

-- Another publisher, stopped before its pointer.
abbrev crashed : List Step
crashed =
    store (codes "raw") (codes "cd") none
    ∷ stage (codes "a2") content_file
    ∷ publish (codes "a2") (codes "c2")
    ∷ publish (codes "a2") (codes "c1")
    ∷ []

read_and_verify_current-run_steps_example :
    read_and_verify_current toy_sha256 toy_loads (run_steps toy_sha256 published crashed)
    ≡ ok (found_ref (codes "c1"))
read_and_verify_current-run_steps_example =
    read_and_verify_current-run_steps toy_sha256 toy_loads published crashed
      (found_ref (codes "c1")) (tt, (tt, (tt, (tt, tt)))) reads

-- The same bytes once more: nothing is created.
stores_twice :
    store_object toy_sha256 published (codes "raw") (codes "ab") none
    ≡ ok (record { sha256 = codes "ab"; created = false }, published)
unfolding store_object object_path find text_eq
stores_twice = refl

-- Other bytes under a forced address.
collides :
    store_object toy_sha256 published (codes "raw") (codes "cd") (some (codes "ab"))
    ≡ err object_collision
unfolding store_object object_path find text_eq
collides = refl

store_object_again_example :
    (verify_refs toy_sha256 published.objects ((codes "raw", codes "ab") ∷ []) ≡ ok tt)
    × (store_object toy_sha256 published (codes "raw") (codes "ab") none
        ≡ ok (record { sha256 = codes "ab"; created = false }, published))
store_object_again_example =
    store_object_again toy_sha256 published (codes "raw") (codes "ab")
      (record { sha256 = codes "ab"; created = false }) published stores_twice

-- A second commit over the first.
content_staged : find (codes "content.json") (write_all content_file []) ≡ some (codes "{}")
unfolding find write_all text_eq write
content_staged = refl

new_commit : find (codes "c9") published.commits ≡ none
unfolding find text_eq
new_commit = refl

one_ref_listed : refs_of one_ref ≡ ok ((codes "raw", codes "ab") ∷ [])
unfolding refs_of get text_eq
one_ref_listed = refl

ref_verifies : verify_refs toy_sha256 published.objects ((codes "raw", codes "ab") ∷ []) ≡ ok tt
unfolding verify_refs object_path is_none find text_eq
ref_verifies = refl

-- A file that cannot be opened: the one before it stays, and the exception is raised.
staging_fails :
    write_files ((codes "a", codes "x") ∷ (codes "b/c", codes "y") ∷ (codes "d", codes "z") ∷ []) []
    ≡ ((codes "a", codes "x") ∷ [], err os_error)
unfolding write_files open_file text_eq
staging_fails = refl

content_opens : All (λ file. open_file file.0 ≡ ok tt) content_file
unfolding open_file text_eq
content_opens = (refl, tt)

read_and_verify_current-publish_example :
    ((stage_commit published (codes "a9") content_file).1 ≡ ok tt)
    × ((after : Disk) × (publish_commit
            (stage_commit published (codes "a9") content_file).0
            (codes "a9")
            (codes "c9")
          ≡ ok after)
        × ((found : Fields) × (read_and_verify_current toy_sha256 toy_loads
                (write_current after (codes "c9") (codes "m9"))
              ≡ ok found)
            × IsFound (codes "c9") one_ref found))
read_and_verify_current-publish_example =
    read_and_verify_current-publish toy_sha256 toy_loads published (codes "a9") (codes "c9")
      (codes "m9") content_file (codes "{}") one_ref ((codes "raw", codes "ab") ∷ []) content_opens
      (unfold find in refl) (λ e. cc) new_commit content_staged refl one_ref_listed ref_verifies
