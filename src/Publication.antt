-- ===== src/Publication.antt =====
-- src/quantara/publication.py: the content-addressed object store, the commit directories of a dataset
-- and its pointer. A disk is what a reader can find: files by path, commits by name. `sha256` and
-- `loads` stand for hashlib.sha256(...).hexdigest() and json.loads (`none` where it raises).
pub mod Refs
pub mod Verify
pub mod Keeps
use quantara.Prelude.{
  ℕ, Bool, true, false, not, ◌&&◌, ◌||◌, Option, none, some, List, [], ◌∷◌, ◌++◌, ◌==◌,
  if◌then◌else◌,
}
use quantara.Text.{Text, codes, text_eq}
use quantara.Errors.{
  Error, Result, ok, err, publication_error, object_collision, invalid_pointer, os_error,
  value_error, ◌>>=◌, ◌>>◌, raise_if,
}

abbrev pub Bytes : Type 0
Bytes = List ℕ

-- The entry of a name, in a directory or a dictionary.
unfoldable pub find {ℓ} : {A : Type ℓ} → Text → List (Text × A) → Option A
find name [] = none
find name ((key, a) ∷ entries) = if text_eq name key then some a else find name entries

-- Writes an entry over one of its name.
unfoldable pub write {ℓ} : {A : Type ℓ} → Text → A → List (Text × A) → List (Text × A)
write name a [] = (name, a) ∷ []
write name a ((key, b) ∷ entries) =
    if text_eq name key then (key, a) ∷ entries else (key, b) ∷ write name a entries

pub remove {ℓ} : {A : Type ℓ} → Text → List (Text × A) → List (Text × A)
remove name [] = []
remove name ((key, b) ∷ entries) =
    if text_eq name key then entries else (key, b) ∷ remove name entries

-- A commit or staging directory: its files, the marker among them.
abbrev pub Directory : Type 0
Directory = List (Text × Bytes)

pub record CurrentPointer : Type 0 where
  pub commit : Text
  pub manifest_sha256 : Text

pub record Disk : Type 0 where
  pub objects : List (Text × Bytes)
  pub commits : List (Text × Directory)
  pub staging : List (Text × Directory)
  pub current : Option CurrentPointer

pub record StoredObject : Type 0 where
  pub sha256 : Text
  pub created : Bool

is_object_kind : Text → Bool
is_object_kind kind =
    text_eq kind (codes "raw")
    || text_eq kind (codes "checksum")
    || text_eq kind (codes "normalized")

pub object_path : (kind digest : Text) → Result Text
unfolding is_object_kind
object_path kind digest =
    if not (is_object_kind kind)
    then err publication_error
    else ok (codes "objects/" ++ kind ++ codes "/sha256/" ++ digest)

-- `digest or computed`: an empty digest counts as none.
pub address_of : (computed : Text) → Option Text → Text
address_of computed none = computed
address_of computed (some []) = computed
address_of computed (some (c ∷ digest)) = c ∷ digest

pub is_none {ℓ} : {A : Type ℓ} → Option A → Bool
is_none none = true
is_none (some a) = false

-- What `os.link` finds at the path decides.
pub link_object :
    Disk
    → (address path payload : Text) → (forced : Bool) → Option Bytes
    → Result (StoredObject × Disk)
link_object disk address path payload forced none = ok (
  record { sha256 = address; created = true },
  record {
    objects = (path, payload) ∷ disk.objects;
    commits = disk.commits;
    staging = disk.staging;
    current = disk.current;
  },
)
link_object disk address path payload forced (some held) =
    if not forced && text_eq held payload
    then ok (record { sha256 = address; created = false }, disk)
    else err object_collision

module _ (sha256 : Bytes → Text) where
  -- The temporary file is gone in every case, so the disk is as before where an error is raised.
  pub store_object :
      Disk
      → (kind : Text) → (payload : Bytes) → (digest : Option Text) → Result (StoredObject × Disk)
  unfolding link_object is_none address_of
  store_object disk kind payload digest = do
    let address = address_of (sha256 payload) digest
    path ← object_path kind address
    link_object disk address path payload (not (is_none digest)) (find path disk.objects)

  pub put_object :
      Disk → (kind : Text) → (payload : Bytes) → (digest : Option Text) → Result (Text × Disk)
  put_object disk kind payload digest = do
    (stored, after) ← store_object disk kind payload digest
    ok (stored.sha256, after)

is_plain : Text → Bool
is_plain [] = true
is_plain (c ∷ cs) = not (c == b'/') && is_plain cs

has_null : Text → Bool
has_null [] = false
has_null (c ∷ cs) = c == 0 || has_null cs

-- `open(staging / name, "wb")`: a directory is not opened, nor a file of a directory that is not there. A
-- staging directory has no directories in it, and a path that leaves it is taken to lead nowhere.
pub open_file : Text → Result (Unit {0})
unfolding is_plain has_null
open_file name = do
  raise_if (has_null name) value_error
  raise_if
      (text_eq name []
        || text_eq name (codes ".")
        || text_eq name (codes "..")
        || not (is_plain name))
      os_error

-- What the loop over the files leaves, from what opening the first one gives and what the rest leaves.
pub after_opening :
    Result (Unit {0})
    → Directory
    → (rest : Directory × Result (Unit {0})) → Directory × Result (Unit {0})
after_opening (ok u) directory rest = rest
after_opening (err raised) directory rest = (directory, err raised)

-- The loop over the files: the directory that it leaves, and its exception.
pub write_files : List (Text × Bytes) → Directory → Directory × Result (Unit {0})
unfolding write open_file after_opening
write_files [] directory = (directory, ok tt)
write_files ((name, blob) ∷ files) directory =
    after_opening (open_file name) directory (write_files files (write name blob directory))

-- `mkdir(exist_ok=True)`
pub directory_or_new : Option Directory → Directory
directory_or_new none = []
directory_or_new (some directory) = directory

-- The disk that is left, and the exception: files before a failing one stay.
pub stage_commit : Disk → (attempt_id : Text) → List (Text × Bytes) → Disk × Result (Unit {0})
unfolding write_files directory_or_new write
stage_commit disk attempt_id files =
    let (directory, result) = write_files files (directory_or_new (find attempt_id disk.staging)) in
    (
      record {
        objects = disk.objects;
        commits = disk.commits;
        staging = write attempt_id directory disk.staging;
        current = disk.current;
      },
      result,
    )

-- The marker and the rename, of a staging directory that is there.
pub rename_commit : Disk → (attempt_id content_hash : Text) → Option Directory → Result Disk
unfolding write remove
rename_commit disk attempt_id content_hash none = err os_error
rename_commit disk attempt_id content_hash (some directory) = ok (record {
  objects = disk.objects;
  commits = (content_hash, write (codes "COMMITTED") [] directory) ∷ disk.commits;
  staging = remove attempt_id disk.staging;
  current = disk.current;
})

-- The empty name is the directory of the commits itself, which exists.
pub publish_commit : Disk → (attempt_id content_hash : Text) → Result Disk
unfolding rename_commit is_none
publish_commit disk attempt_id content_hash = do
  raise_if (text_eq content_hash [] || not (is_none (find content_hash disk.commits)))
      publication_error
  rename_commit disk attempt_id content_hash (find attempt_id disk.staging)

pub write_current : Disk → (commit_hash manifest_digest : Text) → Disk
write_current disk commit_hash manifest_digest = record {
  objects = disk.objects;
  commits = disk.commits;
  staging = disk.staging;
  current = some (record { commit = commit_hash; manifest_sha256 = manifest_digest });
}
