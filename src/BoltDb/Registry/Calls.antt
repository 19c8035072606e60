-- ===== src/BoltDb/Registry/Calls.antt =====
-- The constructors of the repositories, as cmd/serve.go calls them.
use rebost.Prelude.{String, ◌≡◌, ◌<>◌, Option, none, some}
use rebost.Exec.{Error, Result, ok, err, Exec, prefixed, ◌>>◌}

-- The database: `CreateBucketIfNotExists` in a transaction of its own, and the bucket of a name.
pub record Database (D B : Type 0) : Type 0 where
  pub create_bucket : String → D → Option Error × D
  pub bucket : D → String → Option B

-- A bucket that was created is there, and none goes.
pub record IsDatabase {D B : Type 0} (db : Database D B) : Type 0 where
  pub creates :
      (name : String) (d : D)
      → (db.create_bucket name d).0 ≡ none
      → (b : B) × (db.bucket (db.create_bucket name d).1 name ≡ some b)
  pub keeps :
      (name j : String) (d : D) (b : B)
      → db.bucket d j ≡ some b
      → (b' : B) × (db.bucket (db.create_bucket name d).1 j ≡ some b')

module _ {D B : Type 0} (db : Database D B) where
  -- `createBucket`
  abbrev pub created : Option Error → Result (Unit {0})
  created none = ok tt
  created (some e) = err ("create bucket: " <> e)

  abbrev pub create_bucket : String → Exec D (Unit {0})
  create_bucket name d = let (e, d') = db.create_bucket name d in (created e, d')

  abbrev pub new_file_repository : Exec D (Unit {0})
  new_file_repository = create_bucket "files"

  abbrev pub new_idxkey_repository : Exec D (Unit {0})
  new_idxkey_repository = create_bucket "idxkeys"

  abbrev pub new_idxttl_repository : Exec D (Unit {0})
  new_idxttl_repository = create_bucket "idxttls"

  abbrev pub new_idxvolume_repository : Exec D (Unit {0})
  new_idxvolume_repository = create_bucket "idxvolumes"

  abbrev pub new_replica_repository : Exec D (Unit {0})
  new_replica_repository = create_bucket "replica"

  abbrev pub new_state_repository : Exec D (Unit {0})
  new_state_repository = create_bucket "state"

  -- `fmt.Errorf("error creating …: %s", err)`
  abbrev pub telling : String → Exec D (Unit {0}) → Exec D (Unit {0})
  telling what m d = let (r, d') = m d in (prefixed what r, d')

  unfoldable pub new_repositories : Exec D (Unit {0})
  new_repositories = do
    telling "error creating File Repository: " new_file_repository
    telling "error creating IDXKeys Repository: " new_idxkey_repository
    telling "error creating IDXTTL Repository: " new_idxttl_repository
    telling "error creating IDXVolumes Repository: " new_idxvolume_repository
    telling "error creating Replica Repository: " new_replica_repository
    telling "error creating State Repository: " new_state_repository
