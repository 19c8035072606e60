-- ===== src/Storing/Replication/Copies.antt =====
-- What one node is asked and told while a replica is offered to it.
use rebost.Prelude.{
  ℤ, String, ◌==◌, ◌≡◌, refl, Bool, true, false, Option, none, some, List, [], ◌∷◌, inl, inr,
}
use rebost.Exec.{Result-cases, Result, ok, err, panic, Exec, pure, ◌>>◌}
use rebost.Exec.GoesOn.{GoesOn, GoesOn-pure, GoesOn-if, GoesOn-bind, GoesOn_weaken, Settled}
use rebost.Platform.{Bytes}
use rebost.Replica.{Replica}
use rebost.Storing.Replication.{
  Members, logged, skip_error, notify, notify_all, record_copy, send_copy, try_node, with_volume,
  with_left, left_by, is_done,
}

-- What a call that logs its error gives: the value, or none for an error.
pub IsFrom : {S A : Type 0} → Exec S A → S → Option A → S → Type 0
IsFrom f s o s' = (skip_error (f s).0 ≡ ok o) × (s' ≡ (f s).1)

skipped :
    {S A : Type 0} (r : Result A) (s s' : S)
    → s ≡ s'
    → Settled (λ o t. (skip_error r ≡ ok o) × (t ≡ s')) (skip_error r) s
skipped (ok a) s s' e = (refl, e)
skipped (err x) s s' e = (refl, e)
skipped panic s s' e = tt

pub GoesOn-logged : {S A : Type 0} (f : Exec S A) (s : S) → GoesOn (logged f) s (IsFrom f s)
unfolding IsFrom
GoesOn-logged f s = record { at = skipped (f s).0 (f s).1 (f s).1 refl }

was_ok : {A : Type 0} (r : Result A) (a : A) → skip_error r ≡ ok (some a) → r ≡ ok a
was_ok (ok x) a e = cc e
was_ok (err x) a e = absurd (cc e)
was_ok panic a e = absurd (cc e)

module _ {W L N : Type 0} (m : Members W L N) where
  -- A node that did not have the key made the copy of the content, and the volume took a note of it,
  -- as the last step. `replica` is the replica when that node's turn came.
  pub record HasCopied (v : L) (key : String) (w' : W) : Type 0 where
    pub node : N
    pub replica : Replica
    pub same_key : replica.key ≡ key
    pub asked : W
    pub known : String
    pub lacking : (m.has_file node key asked).0 ≡ ok (known, false)
    pub content : Bytes
    pub reading : (m.get_file v key (m.has_file node key asked).1).0 ≡ ok content
    pub vid : String
    pub copying :
        (m.create_replica node key content replica.ttl replica.created_at
          (m.get_file v key (m.has_file node key asked).1).1).0
        ≡ ok vid
    pub noting : W
    pub noted : (m.update_replica v (with_volume m replica vid) vid noting).0 ≡ ok tt
    pub last : w' ≡ (m.update_replica v (with_volume m replica vid) vid noting).1

  abbrev pub Tried : L → Replica → Replica × Bool → W → Type 0
  Tried v rp (rp', true) w' = HasCopied v rp.key w'
  Tried v rp (rp', false) w' = rp'.key ≡ rp.key

  notify-GoesOn :
      (v : L) (rp : Replica) (vid : String) (w : W) → GoesOn (notify m v rp vid) w (λ _ _. Unit {0})
  unfolding notify
  notify-GoesOn v rp vid w =
      GoesOn-if (vid == m.id v) (λ _. GoesOn-pure tt w tt)
        λ _.
          GoesOn-bind (GoesOn-logged (λ w'. (m.get_node_with_volume_by_id vid w', w')) w)
            λ n w1 _. told n w1
    where
      told :
          (n : Option N) (w1 : W)
          → GoesOn
              (elim n [
                | none ↦ pure tt
                | some n' ↦
                    logged (m.update_file_replica n' rp.key rp.volume_ids rp.original_count)
                    >> pure tt
              ])
              w1
              (λ _ _. Unit {0})
      told none w1 = GoesOn-pure tt w1 tt
      told (some n) w1 =
          GoesOn-bind
            (GoesOn-logged (m.update_file_replica n rp.key rp.volume_ids rp.original_count) w1)
            λ _ w2 _. GoesOn-pure tt w2 tt

  notify_all-GoesOn :
      (v : L) (rp : Replica) (vids : List String) (w : W)
      → GoesOn (notify_all m v rp vids) w (λ _ _. Unit {0})
  unfolding notify_all
  notify_all-GoesOn v rp [] w = GoesOn-pure tt w tt
  notify_all-GoesOn v rp (vid ∷ vids) w =
      GoesOn-bind (notify-GoesOn v rp vid w) λ _ w1 _. notify_all-GoesOn v rp vids w1

  -- The note of a copy that was made.
  record IsNoted (v : L) (rp : Replica) (vid : String) (w' : W) : Type 0 where
    pub noting : W
    pub noted : (m.update_replica v (with_volume m rp vid) vid noting).0 ≡ ok tt
    pub last : w' ≡ (m.update_replica v (with_volume m rp vid) vid noting).1

  abbrev Recorded : L → Replica → String → Replica × Bool → W → Type 0
  Recorded v rp vid (rp', true) w' = IsNoted v rp vid w'
  Recorded v rp vid (rp', false) w' = rp'.key ≡ rp.key

  left_by-GoesOn :
      (v : L) (rp : Replica) (vid : String) (w : W)
      → GoesOn (left_by m v rp vid) w (λ _ _. Unit {0})
  left_by-GoesOn v rp vid w = record { at = tt }

  record_copy-GoesOn :
      (v : L) (rp : Replica) (vid : String) (w : W)
      → GoesOn (record_copy m v rp vid) w (Recorded v rp vid)
  unfolding record_copy IsFrom
  record_copy-GoesOn v rp vid w =
      GoesOn-bind (notify_all-GoesOn v (with_volume m rp vid) (with_volume m rp vid).volume_ids w)
        λ _ w1 _. GoesOn-bind (left_by-GoesOn v (with_volume m rp vid) vid w1) λ left w2 _.
          GoesOn-bind (GoesOn-logged (m.update_replica v (with_volume m rp vid) vid) w2)
            λ done w3 h.
              GoesOn-pure (with_left m (with_volume m rp vid) left, is_done done) w3
                (outcome left w2 w3 done h)
    where
      outcome :
          (left : ℤ × String) (w1 w2 : W) (done : Option (Unit {0}))
          → IsFrom (m.update_replica v (with_volume m rp vid) vid) w1 done w2
          → Recorded v rp vid (with_left m (with_volume m rp vid) left, is_done done) w2
      outcome left w1 w2 none h = refl
      outcome left w1 w2 (some tt) h = record { noting = w1; noted = was_ok _ tt h.0; last = h.1 }

  send_copy-GoesOn :
      (v : L) (n : N) (rp : Replica) (w : W) (known : String)
      → (m.has_file n rp.key w).0 ≡ ok (known, false)
      → GoesOn (send_copy m v n rp) (m.has_file n rp.key w).1 (Tried v rp)
  unfolding send_copy
  send_copy-GoesOn v n rp w known lacking =
      let w1 = (m.has_file n rp.key w).1 in
      let w2 = (m.get_file v rp.key w1).1 in
      elim (Result-cases (m.get_file v rp.key w1).0) [
        | inl (c, e) ↦ elim (Result-cases (m.create_replica n rp.key c rp.ttl rp.created_at w2).0) [
          | inl (vid, e1) ↦
              let w3 = (m.create_replica n rp.key c rp.ttl rp.created_at w2).1 in
              let h =
                GoesOn_weaken {Q = Tried v rp} (record_copy-GoesOn v rp vid w3)
                  (copied w known lacking c e vid e1) in
              record { at = rw (e, e1) h.at }
          | inr (inl (x, e1)) ↦ record { at = rw (e, e1) refl }
          | inr (inr e1) ↦ record { at = rw (e, e1) tt }
        ]
        | inr (inl (x, e)) ↦ record { at = rw e refl }
        | inr (inr e) ↦ record { at = rw e tt }
      ]
    where
      copied :
          (w : W) (known : String) (lacking : (m.has_file n rp.key w).0 ≡ ok (known, false))
          (c : Bytes) (reading : (m.get_file v rp.key (m.has_file n rp.key w).1).0 ≡ ok c)
          (vid : String)
          (copying : (m.create_replica n rp.key c rp.ttl rp.created_at
              (m.get_file v rp.key (m.has_file n rp.key w).1).1).0
            ≡ ok vid)
          (r : Replica × Bool)
          → Recorded v rp vid r
              (record_copy m v rp vid
                (m.create_replica n rp.key c rp.ttl rp.created_at
                  (m.get_file v rp.key (m.has_file n rp.key w).1).1).1).1
          → Tried v rp r
              (record_copy m v rp vid
                (m.create_replica n rp.key c rp.ttl rp.created_at
                  (m.get_file v rp.key (m.has_file n rp.key w).1).1).1).1
      copied w known lacking c reading vid copying (rp', true) h = record {
        node = n;
        replica = rp;
        same_key = refl;
        asked = w;
        known = known;
        lacking = lacking;
        content = c;
        reading = reading;
        vid = vid;
        copying = copying;
        noting = h.noting;
        noted = h.noted;
        last = h.last;
      }
      copied w known lacking c reading vid copying (rp', false) h = h

  pub try_node-GoesOn :
      (v : L) (n : N) (rp : Replica) (w : W) → GoesOn (try_node m v n rp) w (Tried v rp)
  unfolding try_node
  try_node-GoesOn v n rp w = elim (Result-cases (m.has_file n rp.key w).0) [
    | inl ((known, true), e) ↦ record { at = rw e refl }
    | inl ((known, false), e) ↦ record { at = rw e (send_copy-GoesOn v n rp w known e).at }
    | inr (inl (x, e)) ↦ record { at = rw e refl }
    | inr (inr e) ↦ record { at = rw e tt }
  ]
