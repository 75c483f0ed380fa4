-- ===== src/Pipeline/Storage.antt =====
-- ingestion/batch/pipeline/storage.py: immutable writes to the object store. The S3 client is a
-- parameter; its exceptions are outcomes of its calls. Bytes are lists of numbers.
pub mod Immutable
pub mod Memory
mod Tests
use gb_industrial_energy_dat.Prelude.{
  ℕ, suc, String, ◌≡◌, Bool, true, false, not, ◌&&◌, ◌||◌, Option, none, some, List, [], ◌∷◌,
  length, nat_eq, if◌then◌else◌, Result, ok, err, ◌==◌,
}
use gb_industrial_energy_dat.Prelude.Exec.{Exec, pure, raise, raise_when, ◌>>=◌, ◌>>◌}

abbrev pub Bytes : Type 0
Bytes = List ℕ

unfoldable pub same_bytes : Bytes → Bytes → Bool
same_bytes [] [] = true
same_bytes [] (y ∷ ys) = false
same_bytes (x ∷ xs) [] = false
same_bytes (x ∷ xs) (y ∷ ys) = nat_eq x y && same_bytes xs ys

pub data StorageError : Type 0 where
  write_failed verification_failed conflict : StorageError
  metadata_read_failed no_last_modified metadata_mismatch : StorageError
  read_failed client_raised : StorageError

-- The outcomes of the conditional write: `failed` is a `ClientError` that is not a failed
-- precondition, `raised` any other exception, which nothing catches.
pub data PutOutcome : Type 0 where
  stored precondition_failed failed raised : PutOutcome

-- The answer of `head_object`; a time without an offset is `none`.
pub record Head : Type 0 where
  pub content_length : Option ℕ
  pub content_type : String
  pub last_modified : Option String

pub data Disposition : Type 0 where
  created reused : Disposition

pub record ObjectInfo : Type 0 where
  pub bucket : String
  pub key : String
  pub sha256 : String
  pub content_length : ℕ
  pub content_type : String
  pub last_modified_utc : String
  pub disposition : Disposition

-- `put_object` is the conditional write, with `IfNoneMatch="*"`; `none` is an exception.
pub record S3Client (S : Type 0) : Type 0 where
  pub put_object : String → String → Bytes → String → S → PutOutcome × S
  pub head_object : String → String → S → Option Head × S
  pub get_object : String → String → S → Option Bytes × S

abbrev has_length : Option ℕ → ℕ → Bool
has_length none n = false
has_length (some m) n = nat_eq m n

module _ {S : Type 0} (client : S3Client S) (sha256 : Bytes → String) where
  -- a call whose exception becomes an error of ours
  abbrev or_raise : {A : Type 0} → (S → Option A × S) → StorageError → Exec S StorageError A
  or_raise call e s = let (o, s') = call s in (elim o [ none ↦ err e | some a ↦ ok a ], s')

  module _ (bucket key : String) (content : Bytes) (content_type : String) where
    abbrev pub matches_head : Head → Bool
    matches_head head =
        has_length head.content_length (length content) && (head.content_type == content_type)

    -- the replay branch: the object that is there already must be the same
    unfoldable pub verify_replay : Exec S StorageError Head
    verify_replay = do
      head ← or_raise (client.head_object bucket key) verification_failed
      raise_when (not (matches_head head)) conflict
      existing ← or_raise (client.get_object bucket key) verification_failed
      raise_when (not (same_bytes existing content)) conflict
      pure head

    abbrev pub info : Disposition → String → ObjectInfo
    info disposition modified = record {
      bucket = bucket;
      key = key;
      sha256 = sha256 content;
      content_length = length content;
      content_type = content_type;
      last_modified_utc = modified;
      disposition = disposition;
    }

    abbrev modified_or_raise : Option String → Exec S StorageError String
    modified_or_raise none = raise no_last_modified
    modified_or_raise (some t) = pure t

    -- the checks of the object's metadata, and the result
    unfoldable pub describe : Disposition → Head → Exec S StorageError ObjectInfo
    describe disposition head = do
      modified ← modified_or_raise head.last_modified
      raise_when (not (matches_head head)) metadata_mismatch
      pure (info disposition modified)

    unfoldable pub after_put : PutOutcome → Exec S StorageError ObjectInfo
    after_put failed = raise write_failed
    after_put raised = raise client_raised
    after_put stored = do
      head ← or_raise (client.head_object bucket key) metadata_read_failed
      describe created head
    after_put precondition_failed = do head ← verify_replay; describe reused head

    -- `R2ObjectStore.put_immutable`
    unfoldable pub put_immutable : Exec S StorageError ObjectInfo
    put_immutable s =
        let (outcome, s') = client.put_object bucket key content content_type s in
        after_put outcome s'

  -- `R2ObjectStore.get_bytes`
  unfoldable pub get_bytes : String → String → Exec S StorageError Bytes
  get_bytes bucket key = or_raise (client.get_object bucket key) read_failed
