-- ===== src/BoltDb/Repositories.antt =====
-- boltdb/file.go, idxkey.go, idxttl.go, idxvolume.go, replica.go, state.go and helper.go.
use rebost.Prelude.{
  String, ◌<>◌, ◌&&◌, Option, none, some, List, [], ◌∷◌, ◌-ℤ◌, ℤ, pos, if◌then◌else◌,
}
use rebost.Exec.{Result, ok, err, Exec, not_found, check, ◌>>◌}
use rebost.Platform.{Platform, Time, add, zero_time}
use rebost.File.{File}
use rebost.Index.{IdxKey, IdxTtl, IdxVolume}
use rebost.Replica.{Replica}
use rebost.State.{State, empty_state}
use rebost.FsUow.{Tracker}
use rebost.BoltDb.KeyGenerate.{next_key, decimal}

-- The buckets. `files` is keyed by signature, `idxkeys` by key, `idxttls` by the text of an instant,
-- `idxvolumes` by volume ID, `replicas` by generated keys, and `states` has one entry.
pub record Db ⦃p : Platform⦄ : Type 0 where
  pub files : p.Bucket File
  pub idxkeys : p.Bucket String
  pub idxttls : p.Bucket (List String)
  pub idxvolumes : p.Bucket (List String)
  pub replicas : p.Bucket Replica
  pub states : p.Bucket State

-- What a unit of work changes: the transaction's buckets, the tracked file system, and
-- two variables of the process, `lastKey` and the ID of the volume.
pub record Tx ⦃p : Platform⦄ : Type 0 where
  pub db : Db
  pub open db use *
  pub tracker : Tracker
  pub last_key : ℤ
  pub id : String

-- An entry that is nil is "not found".
abbrev pub required : {A : Type 0} → Option A → Result A
required none = err not_found
required (some a) = ok a

-- `Cursor.First`: a nil key is "not found".
abbrev pub first_of : List (String × Replica) → Result Replica
first_of [] = err not_found
first_of ((_, rp) ∷ _) = ok rp

abbrev pub state_key : String
state_key = "state"

module _ ⦃p : Platform⦄ where
  unfoldable pub find_file : String → Exec Tx File
  find_file sig t = (required (p.get t.files sig), t)

  unfoldable pub put_file : File → Exec Tx (Unit {0})
  put_file f t = elim (p.refuses f.signature f) [
    | none ↦ (ok tt, record t { db = record t.db { files = p.put t.files f.signature f } })
    | some e ↦ (err e, t)
  ]

  unfoldable pub delete_file : String → Exec Tx (Unit {0})
  delete_file sig t = (ok tt, record t { db = record t.db { files = p.delete t.files sig } })

  unfoldable pub find_key : String → Exec Tx IdxKey
  find_key k t = elim (p.get t.idxkeys k) [
    | none ↦ (err not_found, t)
    | some v ↦ (ok (record { key = k; value = v }), t)
  ]

  unfoldable pub put_key : IdxKey → Exec Tx (Unit {0})
  put_key ik t = elim (p.refuses ik.key ik.value) [
    | none ↦ (ok tt, record t { db = record t.db { idxkeys = p.put t.idxkeys ik.key ik.value } })
    | some e ↦ (err e, t)
  ]

  unfoldable pub delete_key : String → Exec Tx (Unit {0})
  delete_key k t = (ok tt, record t { db = record t.db { idxkeys = p.delete t.idxkeys k } })

  -- `parseTime` calls `time.Parse` with the text of the instant for its layout.
  unfoldable pub parse_time : String → Time
  parse_time b = elim (p.parse b "2006-01-02T15:04:05Z07:00") [ none ↦ zero_time | some t ↦ t ]

  unfoldable pub find_ttl : Time → Exec Tx IdxTtl
  unfolding parse_time
  find_ttl ea t = elim (p.get t.idxttls (p.format ea)) [
    | none ↦ (err not_found, t)
    | some v ↦ (ok (record { expires_at = parse_time (p.format ea); signatures = v }), t)
  ]

  unfoldable pub put_ttl : IdxTtl → Exec Tx (Unit {0})
  put_ttl i t = elim (p.refuses (p.format i.expires_at) i.signatures) [
    | none ↦ (
      ok tt,
      record t {
        db = record t.db { idxttls = p.put t.idxttls (p.format i.expires_at) i.signatures };
      },
    )
    | some e ↦ (err e, t)
  ]

  unfoldable pub delete_ttl : Time → Exec Tx (Unit {0})
  delete_ttl ea t =
      (ok tt, record t { db = record t.db { idxttls = p.delete t.idxttls (p.format ea) } })

  -- The cursor's walk from `min` up to `max`: the entries are in the order of their keys.
  unfoldable pub filter_loop : String → String → List (String × List String) → List IdxTtl
  unfolding parse_time
  filter_loop min max [] = []
  filter_loop min max ((k, v) ∷ entries) =
      let rest = filter_loop min max entries in
      if p.key_le min k && p.key_le k max
      then record { expires_at = parse_time k; signatures = v } ∷ rest
      else rest

  abbrev pub day : ℤ
  day = pos 86400000000000

  -- `now` is the reading of the clock inside `Filter`.
  unfoldable pub filter_ttls : Time → Time → Exec Tx (List IdxTtl)
  unfolding filter_loop add
  filter_ttls now ea t =
      (ok (filter_loop (p.format (add now (pos 0 -ℤ day))) (p.format ea) (p.entries t.idxttls)), t)

  unfoldable pub find_volume_index : String → Exec Tx IdxVolume
  find_volume_index vid t = elim (p.get t.idxvolumes vid) [
    | none ↦ (err not_found, t)
    | some v ↦ (ok (record { volume_id = vid; signatures = v }), t)
  ]

  unfoldable pub put_volume_index : IdxVolume → Exec Tx (Unit {0})
  put_volume_index i t = elim (p.refuses i.volume_id i.signatures) [
    | none ↦ (
      ok tt,
      record t { db = record t.db { idxvolumes = p.put t.idxvolumes i.volume_id i.signatures } },
    )
    | some e ↦ (err e, t)
  ]

  -- `now` is the clock's reading in `newKey`. The replica comes back with its `VolumeReplicaID`.
  unfoldable pub create_replica : ℤ → Replica → Exec Tx (Unit {0})
  unfolding next_key decimal
  create_replica now rp t =
      let n = next_key t.last_key now in
      let rp' = record rp { volume_replica_id = decimal n } in
      elim (p.refuses (decimal n) rp') [
        | none ↦ (
          ok tt,
          record t {
            db = record t.db { replicas = p.put t.replicas (decimal n) rp' };
            last_key = n;
          },
        )
        | some e ↦ (err e, record t { last_key = n })
      ]

  unfoldable pub first_replica : Exec Tx Replica
  first_replica t = (first_of (p.entries t.replicas), t)

  unfoldable pub delete_replica : Replica → Exec Tx (Unit {0})
  delete_replica rp t =
      (ok tt, record t { db = record t.db { replicas = p.delete t.replicas rp.volume_replica_id } })

  unfoldable pub find_state : Exec Tx State
  find_state t = elim (p.get t.states state_key) [ none ↦ (ok empty_state, t) | some s ↦ (ok s, t) ]

  unfoldable pub update_state : State → Exec Tx (Unit {0})
  update_state s t = elim (p.refuses state_key s) [
    | none ↦ (ok tt, record t { db = record t.db { states = p.put t.states state_key s } })
    | some e ↦ (err e, t)
  ]

  -- `recreateBucket`
  unfoldable pub recreate_bucket : String → Result (Unit {0})
  recreate_bucket name = elim (p.delete_bucket name) [
    | some e ↦ err ("delete bucket: " <> e)
    | none ↦ elim (p.create_bucket name) [ some e ↦ err ("create bucket: " <> e) | none ↦ ok tt ]
  ]

  unfoldable pub delete_all_files : Exec Tx (Unit {0})
  unfolding recreate_bucket
  delete_all_files = do
    check (recreate_bucket "files")
    λ t. (ok tt, record t { db = record t.db { files = p.empty } })

  unfoldable pub delete_all_keys : Exec Tx (Unit {0})
  unfolding recreate_bucket
  delete_all_keys = do
    check (recreate_bucket "idxkeys")
    λ t. (ok tt, record t { db = record t.db { idxkeys = p.empty } })

  unfoldable pub delete_all_volume_indexes : Exec Tx (Unit {0})
  unfolding recreate_bucket
  delete_all_volume_indexes = do
    check (recreate_bucket "idxvolumes")
    λ t. (ok tt, record t { db = record t.db { idxvolumes = p.empty } })

  unfoldable pub delete_all_replicas : Exec Tx (Unit {0})
  unfolding recreate_bucket
  delete_all_replicas = do
    check (recreate_bucket "replica")
    λ t. (ok tt, record t { db = record t.db { replicas = p.empty } })

  unfoldable pub delete_all_states : Exec Tx (Unit {0})
  unfolding recreate_bucket
  delete_all_states = do
    check (recreate_bucket "state")
    λ t. (ok tt, record t { db = record t.db { states = p.empty } })
