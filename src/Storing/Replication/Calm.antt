-- ===== src/Storing/Replication/Calm.antt =====
-- No panic is made by the replication itself.
use rebost.Prelude.{
  String, ◌==◌, ◌≢◌, refl, Bool, true, false, Option, none, some, List, [], ◌∷◌, ℤ, if◌then◌else◌,
}
use rebost.Exec.{Result, ok, err, panic, Exec, pure, ◌>>=◌, ◌>>◌}
use rebost.Exec.Ensures.{Post, Ensures, Ensures-pure, Ensures-if, Ensures-bind}
use rebost.Platform.{Time, Bytes}
use rebost.Replica.{Replica}
use rebost.Storing.Replication.{
  Members, logged, skip_error, notify, notify_all, record_copy, send_copy, try_node, try_nodes,
  replicate_next, with_volume, with_left, left_by, is_done,
}

-- No state in which the function panics.
abbrev pub NeverPanics : {S A : Type 0} → Exec S A → Type 0
NeverPanics {S} f = (s : S) → (f s).0 ≢ panic

-- No call of a volume or of a node panics.
pub record IsCalm {W L N : Type 0} (m : Members W L N) : Type 0 where
  pub next_replica : (v : L) → NeverPanics (m.next_replica v)
  pub get_file : (v : L) (key : String) → NeverPanics (m.get_file v key)
  pub update_replica :
      (v : L) (rp : Replica) (vid : String) → NeverPanics (m.update_replica v rp vid)
  pub synchronize_replicas : (v : L) (vid : String) → NeverPanics (m.synchronize_replicas v vid)
  pub get_node : (vid : String) (w : W) → m.get_node_with_volume_by_id vid w ≢ panic
  pub has_file : (n : N) (key : String) → NeverPanics (m.has_file n key)
  pub create_replica :
      (n : N) (key : String) (c : Bytes) (ttl : ℤ) (ca : Time)
      → NeverPanics (m.create_replica n key c ttl ca)
  pub update_file_replica :
      (n : N) (key : String) (vids : List String) (count : ℤ)
      → NeverPanics (m.update_file_replica n key vids count)

calmed : {S A : Type 0} (r : Result A) (s : S) → r ≢ panic → Post (λ _ _. Unit {0}) (skip_error r) s
calmed (ok a) s h = tt
calmed (err e) s h = tt
calmed panic s h = h refl

logged-Ensures :
    {S A : Type 0} (f : Exec S A) (s : S) → (f s).0 ≢ panic → Ensures (logged f) s (λ _ _. Unit {0})
logged-Ensures f s h = record { at = calmed (f s).0 (f s).1 h }

without_panic : {S A : Type 0} (r : Result A) (s : S) → Post (λ _ _. Unit {0}) r s → r ≢ panic
without_panic (ok a) s h e = absurd (cc e)
without_panic (err x) s h e = absurd (cc e)
without_panic panic s h e = h

module _ {W L N : Type 0} (m : Members W L N) (c : IsCalm m) where
  notify-Ensures :
      (v : L) (rp : Replica) (vid : String) (w : W)
      → Ensures (notify m v rp vid) w (λ _ _. Unit {0})
  unfolding notify
  notify-Ensures v rp vid w =
      Ensures-if (vid == m.id v) (λ _. Ensures-pure tt w tt)
        λ _.
          Ensures-bind
            (logged-Ensures (λ u. (m.get_node_with_volume_by_id vid u, u)) w (c.get_node vid w))
            λ o w1 _. told o w1
    where
      told :
          (o : Option N) (w1 : W)
          → Ensures
              (elim o [
                | none ↦ pure tt
                | some n' ↦
                    logged (m.update_file_replica n' rp.key rp.volume_ids rp.original_count)
                    >> pure tt
              ])
              w1
              (λ _ _. Unit {0})
      told none w1 = Ensures-pure tt w1 tt
      told (some n) w1 =
          Ensures-bind
            (logged-Ensures (m.update_file_replica n rp.key rp.volume_ids rp.original_count) w1
              (c.update_file_replica n rp.key rp.volume_ids rp.original_count w1))
            λ _ w2 _. Ensures-pure tt w2 tt

  notify_all-Ensures :
      (v : L) (rp : Replica) (vids : List String) (w : W)
      → Ensures (notify_all m v rp vids) w (λ _ _. Unit {0})
  unfolding notify_all
  notify_all-Ensures v rp [] w = Ensures-pure tt w tt
  notify_all-Ensures v rp (vid ∷ vids) w =
      Ensures-bind (notify-Ensures v rp vid w) λ _ w1 _. notify_all-Ensures v rp vids w1

  left_by-Ensures :
      (v : L) (rp : Replica) (vid : String) (w : W)
      → Ensures (left_by m v rp vid) w (λ _ _. Unit {0})
  left_by-Ensures v rp vid w = record { at = tt }

  record_copy-Ensures :
      (v : L) (rp : Replica) (vid : String) (w : W)
      → Ensures (record_copy m v rp vid) w (λ _ _. Unit {0})
  unfolding record_copy
  record_copy-Ensures v rp vid w =
      let rp' = with_volume m rp vid in
      Ensures-bind (notify_all-Ensures v rp' rp'.volume_ids w) λ _ w1 _.
        Ensures-bind (left_by-Ensures v rp' vid w1) λ left w2 _.
          Ensures-bind
            (logged-Ensures (m.update_replica v rp' vid) w2 (c.update_replica v rp' vid w2))
            λ o w3 _. Ensures-pure (with_left m rp' left, is_done o) w3 tt

  send_copy-Ensures :
      (v : L) (n : N) (rp : Replica) (w : W) → Ensures (send_copy m v n rp) w (λ _ _. Unit {0})
  unfolding send_copy
  send_copy-Ensures v n rp w =
      Ensures-bind (logged-Ensures (m.get_file v rp.key) w (c.get_file v rp.key w))
        λ o w1 _. sent o w1
    where
      noted :
          (o : Option String) (w1 : W)
          → Ensures {S = W} {A = Replica × Bool}
              (elim o [ none ↦ pure (rp, false) | some vid' ↦ record_copy m v rp vid' ])
              w1
              (λ _ _. Unit {0})
      noted none w1 = Ensures-pure (rp, false) w1 tt
      noted (some vid) w1 = record_copy-Ensures v rp vid w1

      sent :
          (o : Option Bytes) (w1 : W)
          → Ensures {S = W} {A = Replica × Bool}
              (elim o [
                | none ↦ pure (rp, false)
                | some iorc ↦ (do
                  vid ← logged (m.create_replica n rp.key iorc rp.ttl rp.created_at)
                  elim vid [ none ↦ pure (rp, false) | some vid' ↦ record_copy m v rp vid' ])
              ])
              w1
              (λ _ _. Unit {0})
      sent none w1 = Ensures-pure (rp, false) w1 tt
      sent (some content) w1 =
          Ensures-bind
            (logged-Ensures (m.create_replica n rp.key content rp.ttl rp.created_at) w1
              (c.create_replica n rp.key content rp.ttl rp.created_at w1))
            λ o w2 _. noted o w2

  try_node-Ensures :
      (v : L) (n : N) (rp : Replica) (w : W) → Ensures (try_node m v n rp) w (λ _ _. Unit {0})
  unfolding try_node
  try_node-Ensures v n rp w =
      Ensures-bind (logged-Ensures (m.has_file n rp.key) w (c.has_file n rp.key w))
        λ o w1 _. asked o w1
    where
      asked :
          (o : Option (String × Bool)) (w1 : W)
          → Ensures {S = W} {A = Replica × Bool}
              (elim o [
                | none ↦ pure (rp, false)
                | some (_, there) ↦ if there then pure (rp, false) else send_copy m v n rp
              ])
              w1
              (λ _ _. Unit {0})
      asked none w1 = Ensures-pure (rp, false) w1 tt
      asked (some (_, there)) w1 =
          Ensures-if there (λ _. Ensures-pure (rp, false) w1 tt) λ _. send_copy-Ensures v n rp w1

  try_nodes-Ensures :
      (v : L) (ns : List N) (rp : Replica) (w : W)
      → Ensures (try_nodes m v ns rp) w (λ _ _. Unit {0})
  unfolding try_nodes
  try_nodes-Ensures v [] rp w = Ensures-pure false w tt
  try_nodes-Ensures v (n ∷ ns) rp w =
      Ensures-bind (try_node-Ensures v n rp w)
        λ r w1 _. Ensures-if r.1 (λ _. Ensures-pure true w1 tt) λ _. try_nodes-Ensures v ns r.0 w1

  -- The body of the loop over the local volumes does not panic.
  pub replicate_next-ne-panic : (v : L) → NeverPanics (replicate_next m v)
  unfolding replicate_next
  replicate_next-ne-panic v w =
      without_panic (replicate_next m v w).0 (replicate_next m v w).1
        (Ensures-bind (logged-Ensures (m.next_replica v) w (c.next_replica v w))
          λ o w1 _. given o w1).at
    where
      given :
          (o : Option Replica) (w1 : W)
          → Ensures
              (elim o [
                | none ↦ pure false
                | some rp ↦ λ w'. try_nodes m v (m.nodes_without_volume_ids rp.volume_ids w') rp w'
              ])
              w1
              (λ _ _. Unit {0})
      given none w1 = Ensures-pure false w1 tt
      given (some rp) w1 = record {
        at = (try_nodes-Ensures v (m.nodes_without_volume_ids rp.volume_ids w1) rp w1).at;
      }
