-- ===== src/Storing/Replication/Progress.antt =====
-- What a round has done where it says that something was copied.
use rebost.Prelude.{
  String, ◌≡◌, subst, ◌≢◌, Bool, true, false, List, [], ◌∷◌, inl, inr, if◌then◌else◌,
}
use rebost.Exec.{Error, Result-cases, ok, err, pure}
use rebost.Exec.GoesOn.{GoesOn, GoesOn-pure, GoesOn-bind, GoesOn_weaken, GoesOn_ok, GoesOn-ne-err}
use rebost.Replica.{Replica}
use rebost.Storing.Replication.{Members, try_nodes, replicate_next}
use rebost.Storing.Replication.Copies.{HasCopied, Tried, try_node-GoesOn}

module _ {W L N : Type 0} (m : Members W L N) where
  abbrev Offered : L → String → Bool → W → Type 0
  Offered v key true w' = HasCopied m v key w'
  Offered v key false w' = Unit {0}

  try_nodes-GoesOn :
      (v : L) (ns : List N) (rp : Replica) (w : W)
      → GoesOn (try_nodes m v ns rp) w (Offered v rp.key)
  unfolding try_nodes
  try_nodes-GoesOn v [] rp w = GoesOn-pure false w tt
  try_nodes-GoesOn v (n ∷ ns) rp w =
      GoesOn-bind (try_node-GoesOn m v n rp w) λ r w1 h. next r w1 h (try_nodes-GoesOn v ns)
    where
      next :
          (r : Replica × Bool) (w1 : W)
          → Tried m v rp r w1
          → ((rp' : Replica) (w' : W) → GoesOn (try_nodes m v ns rp') w' (Offered v rp'.key))
          → GoesOn (if r.1 then pure true else try_nodes m v ns r.0) w1 (Offered v rp.key)
      next (rp', true) w1 h rest = GoesOn-pure true w1 h
      next (rp', false) w1 h rest =
          subst (λ k. GoesOn (try_nodes m v ns rp') w1 (Offered v k)) h (rest rp' w1)

  -- What is copied is the replica that the queue of the volume gave.
  pub record IsProgress (v : L) (w w' : W) : Type 0 where
    pub first : Replica
    pub next : (m.next_replica v w).0 ≡ ok first
    pub copied : HasCopied m v first.key w'

  abbrev Progressed : L → W → Bool → W → Type 0
  Progressed v w true w' = IsProgress v w w'
  Progressed v w false w' = Unit {0}

  replicate_next-GoesOn : (v : L) (w : W) → GoesOn (replicate_next m v) w (Progressed v w)
  unfolding replicate_next
  replicate_next-GoesOn v w =
      let w1 = (m.next_replica v w).1 in
      elim (Result-cases (m.next_replica v w).0) [
        | inl (rp, e) ↦
            let ns = m.nodes_without_volume_ids rp.volume_ids w1 in
            let h =
              GoesOn_weaken {Q = Progressed v w} (try_nodes-GoesOn v ns rp w1)
                (taken rp e (try_nodes m v ns rp w1).1) in
            record { at = rw e h.at }
        | inr (inl (x, e)) ↦ record { at = rw e tt }
        | inr (inr e) ↦ record { at = rw e tt }
      ]
    where
      taken :
          (rp : Replica)
          → (m.next_replica v w).0 ≡ ok rp
          → (w' : W) (b : Bool) → Offered v rp.key b w'
          → Progressed v w b w'
      taken rp e w' true h = record { first = rp; next = e; copied = h }
      taken rp e w' false h = tt

  pub replicate_next-ne-err : (v : L) (w : W) (e : Error) → (replicate_next m v w).0 ≢ err e
  replicate_next-ne-err v w = GoesOn-ne-err (replicate_next-GoesOn v w)

  -- Where the body of the loop over the volumes says that something was copied, the queue of the
  -- volume gave a replica, a node that answered that it has not got its key made the copy of the
  -- content that was read from the volume, and the last step was that the volume took a note of it
  -- with no error.
  pub replicate_next-true :
      (v : L) (w : W) → (replicate_next m v w).0 ≡ ok true → IsProgress v w (replicate_next m v w).1
  replicate_next-true v w h = GoesOn_ok (replicate_next-GoesOn v w) true h
