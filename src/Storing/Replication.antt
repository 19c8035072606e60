-- ===== src/Storing/Replication.antt =====
-- storing/replica.go: the two loops of a node, one round of each. Local volumes (`L`) and nodes of the
-- cluster (`N`, which are clients) are an interface over a world `W`. An error is logged, and the loop
-- goes on; a panic ends it. The pause between rounds and the end of the context are not modelled.
pub mod Guarded
pub mod Copies
pub mod Progress
pub mod Calm
pub mod Rounds
use rebost.Prelude.{
  String, ◌==◌, Bool, true, false, ◌||◌, Option, none, some, List, [], ◌∷◌, ◌++◌, ℤ, if◌then◌else◌,
}
use rebost.Exec.{Result, ok, err, panic, Exec, pure, check, ◌>>=◌, ◌>>◌}
use rebost.Platform.{Time, Bytes}
use rebost.Replica.{Replica}

pub record Members (W L N : Type 0) : Type 0 where
  -- `LocalVolumes`, and of each `ID`, `NextReplica`, `GetFile`, `UpdateReplica`, `SynchronizeReplicas`.
  pub local_volumes : List L
  pub id : L → String
  pub next_replica : L → Exec W Replica
  pub get_file : L → String → Exec W Bytes
  pub update_replica : L → Replica → String → Exec W (Unit {0})
  -- The `Count` and the `VolumeReplicaID` that `UpdateReplica` leaves in the replica that it is given,
  -- whatever it returns.
  pub left_in_replica : L → Replica → String → W → ℤ × String
  pub synchronize_replicas : L → String → Exec W (Unit {0})
  -- `NodesWithoutVolumeIDs`, `GetNodeWithVolumeByID` and `RemovedVolumeIDs`.
  pub nodes_without_volume_ids : List String → W → List N
  pub get_node_with_volume_by_id : String → W → Result N
  pub removed_volume_ids : Exec W (List String)
  -- Of each node `HasFile`, `CreateReplica` and `UpdateFileReplica`.
  pub has_file : N → String → Exec W (String × Bool)
  pub create_replica : N → String → Bytes → ℤ → Time → Exec W String
  pub update_file_replica : N → String → List String → ℤ → Exec W (Unit {0})

-- `if err != nil { s.logger.Log(…); continue }`
abbrev pub skip_error : {A : Type 0} → Result A → Result (Option A)
skip_error (ok a) = ok (some a)
skip_error (err e) = ok none
skip_error panic = panic

abbrev pub logged : {W A : Type 0} → Exec W A → Exec W (Option A)
logged m w = let (r, w') = m w in (skip_error r, w')

abbrev pub is_done : Option (Unit {0}) → Bool
is_done none = false
is_done (some _) = true

module _ {W L N : Type 0} (m : Members W L N) where
  -- The node of one of the volumes of the replica is told of them all, but for the owner itself.
  unfoldable pub notify : L → Replica → String → Exec W (Unit {0})
  notify v rp vid = if vid == m.id v then pure tt else (do
    n ← logged (λ w. (m.get_node_with_volume_by_id vid w, w))
    elim n [
      | none ↦ pure tt
      | some n' ↦
          logged (m.update_file_replica n' rp.key rp.volume_ids rp.original_count) >> pure tt
    ])

  unfoldable pub notify_all : L → Replica → List String → Exec W (Unit {0})
  unfolding notify
  notify_all v rp [] = pure tt
  notify_all v rp (vid ∷ vids) = notify v rp vid >> notify_all v rp vids

  abbrev pub with_volume : Replica → String → Replica
  with_volume rp vid = record rp { volume_ids = rp.volume_ids ++ vid ∷ [] }

  abbrev pub with_left : Replica → ℤ × String → Replica
  with_left rp (count, id) = record rp { count = count; volume_replica_id = id }

  abbrev pub left_by : L → Replica → String → Exec W (ℤ × String)
  left_by v rp vid w = (ok (m.left_in_replica v rp vid w), w)

  -- The node has made the copy. The replica keeps the new volume and what `UpdateReplica` has left in
  -- it, also where that fails.
  unfoldable pub record_copy : L → Replica → String → Exec W (Replica × Bool)
  unfolding notify_all
  record_copy v rp vid = do
    notify_all v (with_volume rp vid) (with_volume rp vid).volume_ids
    left ← left_by v (with_volume rp vid) vid
    done ← logged (m.update_replica v (with_volume rp vid) vid)
    pure (with_left (with_volume rp vid) left, is_done done)

  unfoldable pub send_copy : L → N → Replica → Exec W (Replica × Bool)
  unfolding record_copy
  send_copy v n rp = do
    content ← logged (m.get_file v rp.key)
    elim content [
      | none ↦ pure (rp, false)
      | some iorc ↦ (do
        vid ← logged (m.create_replica n rp.key iorc rp.ttl rp.created_at)
        elim vid [ none ↦ pure (rp, false) | some vid' ↦ record_copy v rp vid' ])
    ]

  -- The body of the loop over the nodes: the replica afterwards, and whether it is copied.
  unfoldable pub try_node : L → N → Replica → Exec W (Replica × Bool)
  unfolding send_copy
  try_node v n rp = do
    has ← logged (m.has_file n rp.key)
    elim has [
      | none ↦ pure (rp, false)
      | some (_, there) ↦ if there then pure (rp, false) else send_copy v n rp
    ]

  unfoldable pub try_nodes : L → List N → Replica → Exec W Bool
  unfolding try_node
  try_nodes v [] rp = pure false
  try_nodes v (n ∷ ns) rp = do
    (rp', done) ← try_node v n rp
    let rest = try_nodes v ns rp'
    if done then pure true else rest

  -- The body of the loop over the local volumes.
  unfoldable pub replicate_next : L → Exec W Bool
  unfolding try_nodes
  replicate_next v = do
    next ← logged (m.next_replica v)
    elim next [
      | none ↦ pure false
      | some rp ↦ λ w. try_nodes v (m.nodes_without_volume_ids rp.volume_ids w) rp w
    ]

  unfoldable pub replicate_volumes : List L → Exec W Bool
  unfolding replicate_next
  replicate_volumes [] = pure false
  replicate_volumes (v ∷ vs) = do
    done ← replicate_next v
    rest ← replicate_volumes vs
    pure (done || rest)

  -- A round of `loopVolumesReplicas`: whether something was copied.
  unfoldable pub replication_round : Exec W Bool
  unfolding replicate_volumes
  replication_round = replicate_volumes m.local_volumes

  unfoldable pub synchronize_locals : List L → String → Exec W (Unit {0})
  synchronize_locals [] vid = pure tt
  synchronize_locals (v ∷ vs) vid =
      logged (m.synchronize_replicas v vid) >> synchronize_locals vs vid

  unfoldable pub synchronize_removed : List String → Exec W (Unit {0})
  unfolding synchronize_locals
  synchronize_removed [] = pure tt
  synchronize_removed (vid ∷ vids) =
      synchronize_locals m.local_volumes vid >> synchronize_removed vids

  -- A round of `loopRemovedVolumeDIs`.
  unfoldable pub recovery_round : Exec W (Unit {0})
  unfolding synchronize_removed
  recovery_round = do vids ← m.removed_volume_ids; synchronize_removed vids
