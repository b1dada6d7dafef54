-- ===== src/Publication/Verify.antt =====
-- verify_commit_graph and read_and_verify_current of src/quantara/publication.py, and the steps of a
-- publication as the pipelines compose them.
pub mod Readers
pub mod Objects
pub mod Publishes
mod Tests
use quantara.Prelude.{Bool, true, false, not, Option, none, some, List, [], ◌∷◌, if◌then◌else◌}
use quantara.Text.{Text, codes, text_eq}
use quantara.Errors.{
  Error, Result, ok, err, publication_error, invalid_pointer, ◌>>=◌, ◌>>◌, raise_if,
}
use quantara.Publication.{
  Bytes, Directory, Disk, CurrentPointer, StoredObject, find, is_none, object_path, store_object,
  stage_commit, publish_commit, write_current,
}
use quantara.Json.{
  Json, Items, Fields, null, float, foreign, bool, int, string, array, object, no_fields, entry,
  get,
}
use quantara.Publication.Refs.{Ref, refs_of}

-- `json.loads`, and the test for a dictionary.
pub content_of : Option Json → Result Fields
content_of (some (object content)) = ok content
content_of (some (string t)) = err publication_error
content_of (some (array items)) = err publication_error
content_of (some null) = err publication_error
content_of (some float) = err publication_error
content_of (some foreign) = err publication_error
content_of (some (bool b)) = err publication_error
content_of (some (int n)) = err publication_error
content_of none = err publication_error

pub without : (key : Text) → Fields → Fields
without key no_fields = no_fields
without key (entry name value more) =
    if text_eq key name then without key more else entry name value (without key more)

pub value_or : Json → Option Json → Json
value_or value none = value
value_or value (some other) = other

-- `{"commit": pointer["commit"], **content}`: an entry of the content replaces the first one.
pub with_commit : (commit : Text) → Fields → Fields
unfolding without value_or
with_commit commit content =
    entry (codes "commit") (value_or (string commit) (get (codes "commit") content))
      (without (codes "commit") content)

module _ (sha256 : Bytes → Text) where
  pub verify_object : (digest : Text) → Option Bytes → Result (Unit {0})
  verify_object digest none = err publication_error
  verify_object digest (some payload) =
      raise_if (not (text_eq (sha256 payload) digest)) publication_error

  -- The second loop over the references.
  pub verify_refs : List (Text × Bytes) → List Ref → Result (Unit {0})
  unfolding verify_object
  verify_refs objects [] = ok tt
  verify_refs objects ((kind, digest) ∷ refs) = do
    path ← object_path kind digest
    verify_object digest (find path objects)
    verify_refs objects refs

  module _ (loads : Bytes → Option Json) where
    pub verify_content : List (Text × Bytes) → Option Bytes → Result Fields
    unfolding content_of
    verify_content objects none = err publication_error
    verify_content objects (some blob) = do
      content ← content_of (loads blob)
      refs ← refs_of content
      verify_refs objects refs
      ok content

    pub verify_commit_graph : List (Text × Bytes) → Directory → Result Fields
    unfolding verify_content
    verify_commit_graph objects directory = do
      raise_if (is_none (find (codes "COMMITTED") directory)) publication_error
      verify_content objects (find (codes "content.json") directory)

    pub verify_commit : Disk → (commit : Text) → Option Directory → Result Fields
    unfolding with_commit
    verify_commit disk commit none = err invalid_pointer
    verify_commit disk commit (some directory) = do
      content ← verify_commit_graph disk.objects directory
      ok (with_commit commit content)

    pub read_pointer : Disk → Option CurrentPointer → Result Fields
    unfolding verify_commit
    read_pointer disk none = err invalid_pointer
    read_pointer disk (some pointer) = do
      raise_if (text_eq pointer.commit []) invalid_pointer
      verify_commit disk pointer.commit (find pointer.commit disk.commits)

    pub read_and_verify_current : Disk → Result Fields
    unfolding read_pointer
    read_and_verify_current disk = read_pointer disk disk.current

-- What publishers do to a disk, one call at a time; a call that raises leaves the disk to the next.
pub data Step : Type 0 where
  store : (kind : Text) → (payload : Bytes) → (digest : Option Text) → Step
  stage : (attempt_id : Text) → (files : List (Text × Bytes)) → Step
  publish : (attempt_id content_hash : Text) → Step
  point : (commit_hash manifest_digest : Text) → Step

pub disk_or : Disk → Result Disk → Disk
disk_or disk (ok after) = after
disk_or disk (err e) = disk

module _ (sha256 : Bytes → Text) where
  pub run_step : Disk → Step → Disk
  unfolding disk_or
  run_step disk (store kind payload digest) =
      disk_or disk (do (stored, after) ← store_object sha256 disk kind payload digest; ok after)
  run_step disk (stage attempt_id files) = (stage_commit disk attempt_id files).0
  run_step disk (publish attempt_id content_hash) =
      disk_or disk (publish_commit disk attempt_id content_hash)
  run_step disk (point commit_hash manifest_digest) = write_current disk commit_hash manifest_digest

  pub run_steps : Disk → List Step → Disk
  unfolding run_step
  run_steps disk [] = disk
  run_steps disk (s ∷ steps) = run_steps (run_step disk s) steps
