-- ===== src/Volume/Replicas.antt =====
-- `UpdateReplica`, `UpdateFileReplica` and `SynchronizeReplicas` of volume/volume.go.
pub mod Effects
pub mod Noted
use rebost.Prelude.{
  ℕ, suc, String, ◌==◌, Option, none, some, List, [], ◌∷◌, ◌++◌, length, contains, if◌then◌else◌, ℤ,
  pos, eqb_ℤ, ltb_ℤ, int_sub,
}
use rebost.Exec.{Exec, pure, raise, crash, check, optional, ◌>>=◌, ◌>>◌}
use rebost.Platform.{Platform, zero_time}
use rebost.File.{File, delete_volume_id}
use rebost.Index.{IdxVolume, add_signature}
use rebost.Replica.{Replica}
use rebost.BoltDb.Repositories.{
  Tx, find_file, put_file, find_key, find_volume_index, put_volume_index, create_replica,
  delete_replica,
}
use rebost.BoltDb.Uow.{write}
use rebost.Volume.Defs.{Volume, Inputs, in_uow}

-- The index of a volume that has none yet.
abbrev pub volume_entry : String → Option IdxVolume → IdxVolume
volume_entry vid none = record { volume_id = vid; signatures = [] }
volume_entry vid (some i) = i

module _ ⦃p : Platform⦄ where
  -- `sig` is noted among the signatures of the volume `vid`.
  unfoldable pub note_signature : String → String → Exec Tx (Unit {0})
  note_signature vid sig = do
    found ← optional (find_volume_index vid)
    put_volume_index (add_signature (volume_entry vid found) sig)

  unfoldable pub update_replica_tx : Inputs → Replica → String → Exec Tx (Unit {0})
  unfolding note_signature
  update_replica_tx i rp vid = do
    f ← find_file rp.signature
    note_signature vid f.signature
    put_file (record f { volume_ids = f.volume_ids ++ vid ∷ []; replica = rp.original_count })
    delete_replica rp
    let count = int_sub rp.count (pos 1)
    if ltb_ℤ (pos 0) count then create_replica i.nanos (record rp { count = count }) else pure tt

  -- The replica may be nil.
  unfoldable pub update_replica : Inputs → Option Replica → String → Exec Volume (Unit {0})
  update_replica i none vid = raise "the replica is required"
  update_replica i (some rp) vid =
      if rp.signature == ""
      then raise "the replica Signature is required"
      else if eqb_ℤ rp.original_count (pos 0)
      then raise "the replica OriginalCount is required"
      else in_uow i write (update_replica_tx i rp vid)

  -- The loop over `volumeIDs`, less this volume.
  unfoldable pub note_volumes : String → String → List String → Exec Tx (Unit {0})
  unfolding note_signature
  note_volumes id sig [] = pure tt
  note_volumes id sig (vid ∷ vids) =
      let rest = note_volumes id sig vids in
      if vid == id then rest else do note_signature vid sig; rest

  unfoldable pub update_file_replica_tx : String → List String → ℤ → Exec Tx (Unit {0})
  unfolding note_volumes
  update_file_replica_tx key vids replica t =
      (if contains vids t.id
          then (do
            ik ← find_key key
            f ← find_file ik.value
            note_volumes t.id f.signature vids
            put_file (record f { volume_ids = vids; replica = replica }))
          else raise "the volume ID has to be on the list of volume")
        t

  unfoldable pub update_file_replica : Inputs → String → List String → ℤ → Exec Volume (Unit {0})
  update_file_replica i key vids replica = in_uow i write (update_file_replica_tx key vids replica)

  -- The replica that is queued for the first key of `f`; `f.Keys[0]` panics on an empty list.
  unfoldable pub queue_copies : ℤ → String → File → List String → Exec Tx (Unit {0})
  queue_copies nanos uuid f [] t = crash t
  queue_copies nanos uuid f (k ∷ _) t =
      create_replica nanos
        (record {
          id = uuid;
          original_count = f.replica;
          count = int_sub f.replica (pos (length f.volume_ids));
          key = k;
          signature = f.signature;
          volume_id = t.id;
          volume_ids = f.volume_ids;
          volume_replica_id = "";
          ttl = pos 0;
          created_at = zero_time;
        })
        t

  -- `f.VolumeIDs[0]` panics on an empty list.
  unfoldable pub queue_if_first : ℤ → String → File → List String → Exec Tx (Unit {0})
  unfolding queue_copies
  queue_if_first nanos uuid f [] t = crash t
  queue_if_first nanos uuid f (first ∷ _) t =
      (if first == t.id then queue_copies nanos uuid f f.keys else pure tt) t

  -- `f` is without the removed volume: if this volume is now the first, it is to make copies.
  unfoldable pub queue_missing : ℤ → String → File → Exec Tx (Unit {0})
  unfolding queue_if_first
  queue_missing nanos uuid f = queue_if_first nanos uuid f f.volume_ids

  -- The loop over the signatures; the n-th round reads `nanos n` from the clock and `uuids n`.
  unfoldable pub synchronize_loop :
      (ℕ → ℤ) → (ℕ → String) → String → ℕ → List String → Exec Tx (Unit {0})
  unfolding queue_missing
  synchronize_loop nanos uuids vid n [] = pure tt
  synchronize_loop nanos uuids vid n (s ∷ ss) = do
    f ← find_file s
    g ← check (delete_volume_id f vid)
    queue_missing (nanos n) (uuids n) g
    synchronize_loop nanos uuids vid (suc n) ss

  unfoldable pub synchronize_tx : (ℕ → ℤ) → (ℕ → String) → String → Exec Tx (Unit {0})
  unfolding synchronize_loop
  synchronize_tx nanos uuids vid = do
    i ← find_volume_index vid
    synchronize_loop nanos uuids vid 0 i.signatures

  unfoldable pub synchronize_replicas :
      Inputs → (ℕ → ℤ) → (ℕ → String) → String → Exec Volume (Unit {0})
  synchronize_replicas i nanos uuids vid = in_uow i write (synchronize_tx nanos uuids vid)
