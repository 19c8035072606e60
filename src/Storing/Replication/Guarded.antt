-- ===== src/Storing/Replication/Guarded.antt =====
-- The rounds make copies only on nodes that have just said that they have not got the key.
use rebost.Prelude.{String, ◌==◌, ◌≡◌, true, false, Option, none, some, List, [], ◌∷◌, ℤ, inl, inr}
use rebost.Exec.{Result-cases, ok, Exec, pure, ◌>>◌}
use rebost.Exec.Keeps.{Keeps, Keeps-if, Keeps-bind}
use rebost.Platform.{Time, Bytes}
use rebost.Replica.{Replica}
use rebost.Storing.Replication.{
  Members, logged, notify, notify_all, record_copy, send_copy, try_node, try_nodes, replicate_next,
  replicate_volumes, replication_round, synchronize_locals, synchronize_removed, recovery_round,
  with_volume, with_left, is_done, left_by,
}

-- `Absent n key w`: the node has not got the key. All calls keep `P`, and a copy does on a node that
-- has not got its key.
pub record IsGuarded {W L N : Type 0} (m : Members W L N) (P : W → Type 0)
    (Absent : N → String → W → Type 0) : Type 0 where
  pub next : (v : L) → Keeps P (m.next_replica v)
  pub updates : (v : L) (rp : Replica) (vid : String) → Keeps P (m.update_replica v rp vid)
  pub synchronizes : (v : L) (vid : String) → Keeps P (m.synchronize_replicas v vid)
  pub removed : Keeps P m.removed_volume_ids
  pub tells :
      (n : N) (key : String) (vids : List String) (count : ℤ)
      → Keeps P (m.update_file_replica n key vids count)
  pub asks : (n : N) (key : String) → Keeps P (m.has_file n key)
  pub asked :
      (n : N) (key vid : String) (w : W)
      → P w
      → (m.has_file n key w).0 ≡ ok (vid, false)
      → Absent n key (m.has_file n key w).1
  pub reads : (v : L) (key : String) → Keeps P (m.get_file v key)
  pub read :
      (v : L) (n : N) (key : String) (w : W)
      → P w
      → Absent n key w
      → Absent n key (m.get_file v key w).1
  pub copies :
      (n : N) (key : String) (c : Bytes) (ttl : ℤ) (ca : Time) (w : W)
      → P w
      → Absent n key w
      → P (m.create_replica n key c ttl ca w).1

Keeps-logged : {W A : Type 0} {P : W → Type 0} {f : Exec W A} → Keeps P f → Keeps P (logged f)
Keeps-logged k = record { at = λ w h. k.at w h }

Keeps-pure : {W A : Type 0} {P : W → Type 0} (a : A) → Keeps {S = W} P (pure a)
Keeps-pure a = record { at = λ w h. h }

module _ {W L N : Type 0} (m : Members W L N) (P : W → Type 0) (Absent : N → String → W → Type 0)
    (g : IsGuarded m P Absent) where
  notify-Keeps : (v : L) (rp : Replica) (vid : String) → Keeps P (notify m v rp vid)
  unfolding notify
  notify-Keeps v rp vid =
      Keeps-if (vid == m.id v) (Keeps-pure tt) (Keeps-bind (record { at = λ w h. h }) λ n. told n)
    where
      told :
          (n : Option N)
          → Keeps P (elim n [
            | none ↦ pure tt
            | some n' ↦
                logged (m.update_file_replica n' rp.key rp.volume_ids rp.original_count) >> pure tt
          ])
      told none = Keeps-pure tt
      told (some n) =
          Keeps-bind (Keeps-logged (g.tells n rp.key rp.volume_ids rp.original_count))
            λ _. Keeps-pure tt

  notify_all-Keeps : (v : L) (rp : Replica) (vids : List String) → Keeps P (notify_all m v rp vids)
  unfolding notify_all
  notify_all-Keeps v rp [] = Keeps-pure tt
  notify_all-Keeps v rp (vid ∷ vids) =
      Keeps-bind (notify-Keeps v rp vid) λ _. notify_all-Keeps v rp vids

  left_by-Keeps : (v : L) (rp : Replica) (vid : String) → Keeps P (left_by m v rp vid)
  left_by-Keeps v rp vid = record { at = λ w h. h }

  record_copy-Keeps : (v : L) (rp : Replica) (vid : String) → Keeps P (record_copy m v rp vid)
  unfolding record_copy
  record_copy-Keeps v rp vid =
      Keeps-bind (notify_all-Keeps v (with_volume m rp vid) (with_volume m rp vid).volume_ids) λ _.
        Keeps-bind (left_by-Keeps v (with_volume m rp vid) vid) λ left.
          Keeps-bind (Keeps-logged (g.updates v (with_volume m rp vid) vid))
            λ done. Keeps-pure (with_left m (with_volume m rp vid) left, is_done done)

  send_copy-Keeps :
      (v : L) (n : N) (rp : Replica) (w : W) → P w → Absent n rp.key w → P (send_copy m v n rp w).1
  unfolding send_copy
  send_copy-Keeps v n rp w h absent = elim (Result-cases (m.get_file v rp.key w).0) [
    | inl (c, e) ↦
        let w1 = (m.get_file v rp.key w).1 in
        let kept =
          g.copies n rp.key c rp.ttl rp.created_at w1 ((g.reads v rp.key).at w h)
            (g.read v n rp.key w h absent) in
        rw e (elim (Result-cases (m.create_replica n rp.key c rp.ttl rp.created_at w1).0) [
          | inl (vid, e1) ↦ rw e1 ((record_copy-Keeps v rp vid).at _ kept)
          | inr (inl (x, e1)) ↦ rw e1 kept
          | inr (inr e1) ↦ rw e1 kept
        ])
    | inr (inl (x, e)) ↦ rw e ((g.reads v rp.key).at w h)
    | inr (inr e) ↦ rw e ((g.reads v rp.key).at w h)
  ]

  try_node-Keeps : (v : L) (n : N) (rp : Replica) → Keeps P (try_node m v n rp)
  unfolding try_node
  try_node-Keeps v n rp = record {
    at = λ w h.
        let asked = (g.asks n rp.key).at w h in
        elim (Result-cases (m.has_file n rp.key w).0) [
          | inl ((vid, true), e) ↦ rw e asked
          | inl ((vid, false), e) ↦
              rw e (send_copy-Keeps v n rp _ asked (g.asked n rp.key vid w h e))
          | inr (inl (x, e)) ↦ rw e asked
          | inr (inr e) ↦ rw e asked
        ];
  }

  try_nodes-Keeps : (v : L) (ns : List N) (rp : Replica) → Keeps P (try_nodes m v ns rp)
  unfolding try_nodes
  try_nodes-Keeps v [] rp = Keeps-pure false
  try_nodes-Keeps v (n ∷ ns) rp =
      Keeps-bind (try_node-Keeps v n rp)
        λ r. Keeps-if r.1 (Keeps-pure true) (try_nodes-Keeps v ns r.0)

  replicate_next-Keeps : (v : L) → Keeps P (replicate_next m v)
  unfolding replicate_next
  replicate_next-Keeps v = Keeps-bind (Keeps-logged (g.next v)) λ next. offered next
    where
      offered :
          (next : Option Replica)
          → Keeps P (elim next [
            | none ↦ pure false
            | some rp ↦ λ w. try_nodes m v (m.nodes_without_volume_ids rp.volume_ids w) rp w
          ])
      offered none = Keeps-pure false
      offered (some rp) = record {
        at = λ w h. (try_nodes-Keeps v (m.nodes_without_volume_ids rp.volume_ids w) rp).at w h;
      }

  replicate_volumes-Keeps : (vs : List L) → Keeps P (replicate_volumes m vs)
  unfolding replicate_volumes
  replicate_volumes-Keeps [] = Keeps-pure false
  replicate_volumes-Keeps (v ∷ vs) =
      Keeps-bind (replicate_next-Keeps v)
        λ _. Keeps-bind (replicate_volumes-Keeps vs) λ _. Keeps-pure _

  synchronize_locals-Keeps : (vs : List L) (vid : String) → Keeps P (synchronize_locals m vs vid)
  unfolding synchronize_locals
  synchronize_locals-Keeps [] vid = Keeps-pure tt
  synchronize_locals-Keeps (v ∷ vs) vid =
      Keeps-bind (Keeps-logged (g.synchronizes v vid)) λ _. synchronize_locals-Keeps vs vid

  synchronize_removed-Keeps : (vids : List String) → Keeps P (synchronize_removed m vids)
  unfolding synchronize_removed
  synchronize_removed-Keeps [] = Keeps-pure tt
  synchronize_removed-Keeps (vid ∷ vids) =
      Keeps-bind (synchronize_locals-Keeps m.local_volumes vid) λ _. synchronize_removed-Keeps vids

  -- A round of either loop keeps every property of the world that each call of a volume or of a node
  -- keeps, where `CreateReplica` has to keep it only on a node that has not got the key: one that has
  -- just answered so, before the content was read.
  pub rounds-Keeps : Keeps P (replication_round m) × Keeps P (recovery_round m)
  unfolding replication_round recovery_round
  rounds-Keeps = (
    replicate_volumes-Keeps m.local_volumes,
    Keeps-bind g.removed λ vids. synchronize_removed-Keeps vids,
  )
