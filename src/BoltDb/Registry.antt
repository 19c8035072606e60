-- ===== src/BoltDb/Registry.antt =====
-- boltdb/unit_of_work.go: the repositories that a unit of work is started with, each of which it opens
-- on its bucket in the transaction, and the constructors that create those buckets. `B` is the type of
-- a bucket of a transaction, and `F` that of a file system.
pub mod Opened
pub mod Calls
pub mod Created
pub mod Supplied
use rebost.Prelude.{
  String, ◌==◌, ◌<>◌, Bool, true, false, ◌||◌, Option, none, some, List, [], ◌∷◌, if◌then◌else◌,
}
use rebost.Exec.{Error, Result, ok, err, panic, Exec}
use rebost.BoltDb.Repositories.{Tx}
use rebost.BoltDb.Uow.{Outcome, UowType, bolt_uow}
use rebost.Platform.{Platform}

pub data Kind : Type 0 where
  files idxkeys idxttls idxvolumes replicas states : Kind

-- What a unit of work is started with: a repository of boltdb, a file system, or anything else, of
-- which the type is known.
pub data Repository (F : Type 0) : Type 0 where
  stored : Kind → Repository F
  fs : F → Repository F
  other : String → Repository F

abbrev pub bucket_name : Kind → String
bucket_name files = "files"
bucket_name idxkeys = "idxkeys"
bucket_name idxttls = "idxttls"
bucket_name idxvolumes = "idxvolumes"
bucket_name replicas = "replica"
bucket_name states = "state"

pub record UnitOfWork (B F : Type 0) : Type 0 where
  pub file_repository : Option B
  pub idxkey_repository : Option B
  pub idxttl_repository : Option B
  pub idxvolume_repository : Option B
  pub replica_repository : Option B
  pub state_repository : Option B
  pub fs_repository : Option F

module _ {B F : Type 0} where
  abbrev pub new_unit_of_work : UnitOfWork B F
  new_unit_of_work = record {
    file_repository = none;
    idxkey_repository = none;
    idxttl_repository = none;
    idxvolume_repository = none;
    replica_repository = none;
    state_repository = none;
    fs_repository = none;
  }

  -- `Files`, `IDXKeys`, `IDXTTLs`, `IDXVolumes`, `Replicas` and `State`; nil where it was not added.
  abbrev pub repository : UnitOfWork B F → Kind → Option B
  repository u files = u.file_repository
  repository u idxkeys = u.idxkey_repository
  repository u idxttls = u.idxttl_repository
  repository u idxvolumes = u.idxvolume_repository
  repository u replicas = u.replica_repository
  repository u states = u.state_repository

  abbrev pub with_bucket : UnitOfWork B F → Kind → B → UnitOfWork B F
  with_bucket u files b = record u { file_repository = some b }
  with_bucket u idxkeys b = record u { idxkey_repository = some b }
  with_bucket u idxttls b = record u { idxttl_repository = some b }
  with_bucket u idxvolumes b = record u { idxvolume_repository = some b }
  with_bucket u replicas b = record u { replica_repository = some b }
  with_bucket u states b = record u { state_repository = some b }

  abbrev pub on_bucket : UnitOfWork B F → Kind → Option B → Result (UnitOfWork B F)
  on_bucket u k none = err ("bucker for \"" <> bucket_name k <> "\" not found")
  on_bucket u k (some b) = ok (with_bucket u k b)

  abbrev pub unless_added : Option B → UnitOfWork B F → Kind → Option B → Result (UnitOfWork B F)
  unless_added (some b) u k found = ok u
  unless_added none u k found = on_bucket u k found

  -- `add`; `bucket` is `uw.tx.Bucket` by name.
  unfoldable pub add_repository :
      (String → Option B) → Repository F → UnitOfWork B F → Result (UnitOfWork B F)
  add_repository bucket (stored k) u = unless_added (repository u k) u k (bucket (bucket_name k))
  add_repository bucket (fs f) u = ok (record u { fs_repository = some f })
  add_repository bucket (other ty) u = err ("invalid repository of type: " <> ty)

  abbrev pub added :
      Result (UnitOfWork B F) → (UnitOfWork B F → Result (UnitOfWork B F)) → Result (UnitOfWork B F)
  added (ok u) rest = rest u
  added (err e) rest = err ("could not add repository: " <> e)
  added panic rest = panic

  unfoldable pub add_repositories :
      (String → Option B) → List (Repository F) → UnitOfWork B F → Result (UnitOfWork B F)
  unfolding add_repository
  add_repositories bucket [] u = ok u
  add_repositories bucket (r ∷ rs) u =
      added (add_repository bucket r u) (add_repositories bucket rs)

  module _ ⦃p : Platform⦄ {A : Type 0} where
    abbrev pub with_repositories :
        Result (UnitOfWork B F) → (UnitOfWork B F → Exec Tx A) → Exec Tx A
    with_repositories (ok u) body t = body u t
    with_repositories (err e) body t = (err e, t)
    with_repositories panic body t = (panic, t)

    -- `NewUOW`. Inside another unit of work the repositories are added to that one, which commits.
    unfoldable pub new_uow :
        Option (UnitOfWork B F)
        → Outcome
        → UowType
        → (String → Option B)
        → List (Repository F)
        → (UnitOfWork B F → Exec Tx A)
        → Exec Tx A
    unfolding add_repositories
    new_uow none o u bucket rs body =
        bolt_uow o u (with_repositories (add_repositories bucket rs new_unit_of_work) body)
    new_uow (some outer) o u bucket rs body =
        with_repositories (add_repositories bucket rs outer) body
