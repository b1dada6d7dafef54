-- ===== src/Hashing/Artifacts.antt =====
-- src/quantara/hashing.py: fingerprints and content hashes of validation folds and feature evaluations.
use quantara.Prelude.{
  ℕ, Bool, true, Option, none, some, List, [], ◌∷◌, ◌++◌, length, ◌&&◌, ◌||◌, leb, ◌==◌,
  if◌then◌else◌,
}
use quantara.Prelude.Int.{ℤ, pos, negsuc}
use quantara.Text.{Text, codes, is_digit}
use quantara.Json.{Json, Fields, int, string, array, object, no_items, item, no_fields}
use quantara.Jcs.{canonicalize}
use quantara.Hashing.{utf_8, ascii, payload_digest}
use quantara.Hashing.Columns.{◌▸◌, text_of, string_items, research_schema_fingerprint}
use quantara.Errors.{Result, ok, err, hash_payload_error, ◌>>=◌}

-- The parameters of a fold set; the embargo may be missing.
pub record FoldParameters : Type 0 where
  pub test_size : ℤ
  pub min_train_size : ℤ
  pub embargo : Option ℤ

abbrev pub default_parameters : FoldParameters
default_parameters = record {
  test_size = pos 72;
  min_train_size = pos 336;
  embargo = some (pos 24);
}

-- `value if value is not None else default`
abbrev pub or_default {ℓ} : {A : Type ℓ} → Option A → A → A
or_default none d = d
or_default (some a) d = a

abbrev pub research_schema_version : Text
research_schema_version = codes "quantara_research_featureset_v1"

pub validation_payload :
    (parent : Text) (schema_id scheme : Text) (parameters : FoldParameters) (name version : Text)
    → Json
validation_payload parent schema_id scheme parameters name version = object (
    ("domain", text_of "quantara-validation-schema-v1")
    ▸ ("schema_id", string schema_id)
    ▸ ("scheme", string scheme)
    ▸ (
      "parameters",
      object (
          ("test_size", int parameters.test_size)
          ▸ ("min_train_size", int parameters.min_train_size)
          ▸ ("embargo", int (or_default parameters.embargo (pos 24)))
          ▸ no_fields),
    )
    ▸ ("fold_set", object (("name", string name) ▸ ("version", string version) ▸ no_fields))
    ▸ ("parent_research_fingerprint", string parent)
    ▸ no_fields)

-- The fingerprint of the parent, or what the other function gives without arguments.
pub parent_or : Option Text → Result Text → Result Text
parent_or (some parent) default = ok parent
parent_or none default = default

pub validation_schema_fingerprint :
    (sha256_hex : List ℕ → Text) (lower : Text → Text) (parent_fingerprint : Option Text)
    (schema_id scheme : Text) (parameters : Option FoldParameters)
    (fold_set_name fold_set_version : Text)
    → Result Text
unfolding validation_payload parent_or
validation_schema_fingerprint sha256_hex lower parent_fingerprint schema_id scheme parameters name
      version =
    do
      parent ←
          parent_or parent_fingerprint
            (research_schema_fingerprint sha256_hex research_schema_version)
      payload_digest sha256_hex (
          validation_payload (lower parent) schema_id scheme
            (or_default parameters default_parameters) name version)

-- An argument that may be of several types.
pub data Artifact : Type 0 where
  dict : Fields → Artifact
  str : Text → Artifact
  bytes : List ℕ → Artifact
  other : Artifact

unfoldable pub payload_bytes : Artifact → Result (List ℕ)
payload_bytes (dict entries) = do text ← canonicalize (object entries); ok (utf_8 text)
payload_bytes (str text) = ok (utf_8 text)
payload_bytes (bytes data_) = ok data_
payload_bytes other = err hash_payload_error

-- `b"".join(parts)`
unfoldable pub join_parts : (domain fingerprint payload : List ℕ) → List ℕ
join_parts domain fingerprint payload = domain ++ 0 ∷ (fingerprint ++ 10 ∷ (payload ++ 10 ∷ []))

abbrev pub validation_content_hash_domain : Text
validation_content_hash_domain = codes "quantara-validation-content-v1"

unfoldable pub validation_content_hash :
    (sha256_hex : List ℕ → Text) (lower : Text → Text) (fingerprint : Text) → Artifact → Result Text
unfolding payload_bytes
validation_content_hash sha256_hex lower fingerprint artifact = do
  payload ← payload_bytes artifact
  name ← ascii (lower fingerprint)
  ok (sha256_hex (join_parts validation_content_hash_domain name payload))

-- `c in "0123456789abcdef"` for every `c`
unfoldable pub is_hex : ℕ → Bool
is_hex c = is_digit c || (leb b'a' c && leb c b'f')

unfoldable pub all_hex : Text → Bool
unfolding is_hex
all_hex [] = true
all_hex (c ∷ cs) = is_hex c && all_hex cs

-- `not isinstance(value, str) or len(value) != 64 or any(...)`
unfoldable pub check_digest : Json → Result Text
unfolding all_hex
check_digest (string t) = if length t == 64 && all_hex t then ok t else err hash_payload_error
check_digest _ = err hash_payload_error

abbrev pub evaluation_content_hash_domain : Text
evaluation_content_hash_domain = codes "quantara-evaluation-content-v1"

unfoldable pub bytes_of : Artifact → Result (List ℕ)
bytes_of (bytes data_) = ok data_
bytes_of _ = err hash_payload_error

unfoldable pub evaluation_content_hash :
    (sha256_hex : List ℕ → Text) (fingerprint : Json) → Artifact → Result Text
unfolding bytes_of
evaluation_content_hash sha256_hex fingerprint artifact = do
  digest ← check_digest fingerprint
  payload ← bytes_of artifact
  name ← ascii digest
  ok (sha256_hex (join_parts evaluation_content_hash_domain name payload))

-- The contract of decimal arithmetic that is hashed if none is given.
pub default_decimal_contract : Fields
default_decimal_contract =
    ("precision", int (pos 50))
    ▸ ("rounding", text_of "ROUND_HALF_EVEN")
    ▸ ("emin", int (negsuc 999998))
    ▸ ("emax", int (pos 999999))
    ▸ ("capitals", int (pos 1))
    ▸ ("clamp", int (pos 0))
    ▸ (
      "enabled_traps",
      array (
          item (text_of "InvalidOperation")
            (item (text_of "DivisionByZero") (item (text_of "Overflow") no_items))),
    )
    ▸ ("storage_quantum", text_of "0.000000000000000001")
    ▸ no_fields

abbrev default_features : List Text
default_features =
    codes "f_ret_1" ∷ codes "f_roc_60" ∷ codes "f_rvol_20" ∷ codes "f_volratio_20" ∷ []

-- The name and the version of the evaluation set.
abbrev default_evaluation_set : Text × Text
default_evaluation_set = (codes "btcusdt_core_v1_dual_ic_v1", codes "1")

pub evaluation_payload :
    (parent schema_id : Text) (evaluation_set : Text × Text) (features : List Text) (target : Text)
    (metrics : List Text) (decimal_contract : Fields)
    → Json
evaluation_payload parent schema_id (name, version) features target metrics decimal_contract =
    object (
      ("domain", text_of "quantara-evaluation-schema-v1")
      ▸ ("schema_id", string schema_id)
      ▸ ("evaluation_set", object (("name", string name) ▸ ("version", string version) ▸ no_fields))
      ▸ ("features", array (string_items features))
      ▸ ("target", string target)
      ▸ ("metrics", array (string_items metrics))
      ▸ ("decimal_contract", object decimal_contract)
      ▸ ("parent_validation_fingerprint", string parent)
      ▸ no_fields)

-- The parent as given, or the validation fingerprint without arguments.
pub parent_value : Option Json → Result Text → Result Json
parent_value (some parent) default = ok parent
parent_value none default = do digest ← default; ok (string digest)

pub evaluation_schema_fingerprint :
    (sha256_hex : List ℕ → Text) (lower : Text → Text) (parent_validation_fingerprint : Option Json)
    (schema_id : Text) (evaluation_set : Option (Text × Text)) (features : Option (List Text))
    (target : Text) (metrics : Option (List Text)) (decimal_contract : Option Fields)
    → Result Text
unfolding evaluation_payload parent_value default_decimal_contract
evaluation_schema_fingerprint sha256_hex lower parent schema_id evaluation_set features target
      metrics decimal_contract =
    do
      given ← parent_value parent (
          validation_schema_fingerprint sha256_hex lower none (codes "quantara_validation_folds_v1")
            (codes "anchored_walkforward_v1") none (codes "btcusdt_core_v1_wf72_v1") (codes "1"))
      digest ← check_digest given
      payload_digest sha256_hex (
          evaluation_payload digest schema_id (or_default evaluation_set default_evaluation_set)
            (or_default features default_features) target
            (or_default metrics (codes "pearson_ic" ∷ codes "spearman_ic" ∷ []))
            (or_default decimal_contract default_decimal_contract))
