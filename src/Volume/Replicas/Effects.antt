-- ===== src/Volume/Replicas/Effects.antt =====
-- What the operations on replicas leave in the indexes: a file is stored anew with the same keys.
use rebost.Prelude.{
  ℕ, suc, String, ◌==◌, ◌≡◌, refl, ◌∙◌, ap, some, List, [], ◌∷◌, ℤ, pos, ltb_ℤ, int_sub, inl, inr,
  contains, Option-cases,
}
use rebost.Exec.{optional}
use rebost.Exec.Ensures.{
  Ensures, Ensures-pure, Ensures-raise, Ensures-if, Ensures-bind, Ensures_weaken,
}
use rebost.Exec.Keeps.{Keeps, Keeps-bind, Keeps-check, Keeps-if}
use rebost.Platform.{Platform, IsBolt}
use rebost.File.{File, delete_volume_id}
use rebost.Index.{IdxVolume}
use rebost.Replica.{Replica}
use rebost.BoltDb.Repositories.{
  Db, Tx, put_file, find_file, find_volume_index, put_volume_index, create_replica, delete_replica,
}
use rebost.BoltDb.Steps.{
  IsFrame, IsFrame-refl, IsFrame-trans, must_find_key-Ensures, must_find_file-Ensures,
  put_file-Ensures, create_replica-Ensures, replica_refusal,
}
use rebost.Catalog.{get-put}
use rebost.Catalog.Consistency.{IsConsistent, touch-IsConsistent}
use rebost.Volume.Defs.{Inputs}
use rebost.Volume.Replicas.{
  note_signature, update_replica_tx, note_volumes, update_file_replica_tx, queue_copies,
  queue_if_first, queue_missing, synchronize_loop, synchronize_tx,
}

module _ ⦃p : Platform⦄ where
  abbrev pub AreIndexed : Db → Type 0
  AreIndexed db = IsConsistent (p.get db.files) (p.get db.idxkeys)

  find_volume_index-Ensures :
      (vid : String) (t : Tx) → Ensures (optional (find_volume_index vid)) t (λ _ t'. IsFrame t t')
  unfolding find_volume_index
  find_volume_index-Ensures vid t = elim (Option-cases (p.get t.idxvolumes vid)) [
    | inl e ↦ record { at = rw (e, find_volume_index) (IsFrame-refl t) }
    | inr (f, e) ↦ record { at = rw (e, find_volume_index) (IsFrame-refl t) }
  ]

  put_volume_index-Ensures :
      (i : IdxVolume) (t : Tx) → Ensures (put_volume_index i) t (λ _ t'. IsFrame t t')
  unfolding put_volume_index
  put_volume_index-Ensures i t = elim (Option-cases (p.refuses i.volume_id i.signatures)) [
    | inl e ↦ record {
      at =
          rw (e, put_volume_index)
            (record { files = refl; idxkeys = refl; states = refl; id = refl });
    }
    | inr (x, e) ↦ record { at = rw (e, put_volume_index) tt }
  ]

  note_signature-Ensures :
      (vid sig : String) (t : Tx) → Ensures (note_signature vid sig) t (λ _ t'. IsFrame t t')
  unfolding note_signature
  note_signature-Ensures vid sig t =
      Ensures-bind (find_volume_index-Ensures vid t)
        λ o t1 fr. Ensures_weaken (put_volume_index-Ensures _ t1) λ _ t2 fr2. IsFrame-trans fr fr2

  note_volumes-Ensures :
      (id sig : String) (vids : List String) (t : Tx)
      → Ensures (note_volumes id sig vids) t (λ _ t'. IsFrame t t')
  unfolding note_volumes
  note_volumes-Ensures id sig [] t = Ensures-pure tt t (IsFrame-refl t)
  note_volumes-Ensures id sig (vid ∷ vids) t =
      Ensures-if (vid == id) (λ _. note_volumes-Ensures id sig vids t)
        λ _. Ensures-bind (note_signature-Ensures vid sig t) λ _ t1 fr.
          Ensures_weaken (note_volumes-Ensures id sig vids t1) λ _ t2 fr2. IsFrame-trans fr fr2

  delete_replica-Ensures :
      (rp : Replica) (t : Tx) → Ensures (delete_replica rp) t (λ _ t'. IsFrame t t')
  unfolding delete_replica
  delete_replica-Ensures rp t = record {
    at = record { files = refl; idxkeys = refl; states = refl; id = refl };
  }

  -- A file that is stored anew with its keys leaves the indexes in agreement.
  touched :
      IsBolt
      → (s : String) (f g : File) (t t1 : Tx) → AreIndexed t.db
      → p.get t.files s ≡ some f
      → g.keys ≡ f.keys
      → g.signature ≡ f.signature
      → IsFrame t t1
      → Ensures (put_file g) t1 (λ _ t'. AreIndexed t'.db)
  touched b s f g t t1 c fs keys sig fr = Ensures_weaken (put_file-Ensures g t1) λ _ t2 e.
      rw
        (
          ap (λ (u : Tx). p.get u.files) e ∙ get-put b t1.files g.signature g,
          ap (λ (u : Tx). u.idxkeys) e,
          fr.files,
          fr.idxkeys,
        )
        (touch-IsConsistent s f g c fs keys sig)

  framed : (t t' : Tx) → AreIndexed t.db → IsFrame t t' → AreIndexed t'.db
  framed t t' c fr = rw (fr.files, fr.idxkeys) c

  pub update_replica_tx-Ensures :
      IsBolt
      → (i : Inputs) (rp : Replica) (vid : String) (t : Tx) → AreIndexed t.db
      → Ensures (update_replica_tx i rp vid) t (λ _ t'. AreIndexed t'.db)
  unfolding update_replica_tx
  update_replica_tx-Ensures b i rp vid t c =
      Ensures-bind (must_find_file-Ensures rp.signature t) λ f t1 e. rw e.0 (
        Ensures-bind (note_signature-Ensures vid f.signature t) λ _ t2 fr.
          Ensures-bind (touched b rp.signature f _ t t2 c e.1 refl refl fr) λ _ t3 c3.
            Ensures-bind (delete_replica-Ensures rp t3) λ _ t4 fr4.
              Ensures-if (ltb_ℤ (pos 0) (int_sub rp.count (pos 1)))
                (λ _.
                  Ensures_weaken (create_replica-Ensures i.nanos _ t4)
                    (λ _ t5 fr5. framed t3 t5 c3 (IsFrame-trans fr4 fr5)))
                (λ _. Ensures-pure tt t4 (framed t3 t4 c3 fr4)))

  pub update_file_replica_tx-Ensures :
      IsBolt
      → (key : String) (vids : List String) (replica : ℤ) (t : Tx) → AreIndexed t.db
      → Ensures (update_file_replica_tx key vids replica) t (λ _ t'. AreIndexed t'.db)
  unfolding update_file_replica_tx
  update_file_replica_tx-Ensures b key vids replica t c = record {
    at =
        (Ensures-if (contains vids t.id)
          (λ _. Ensures-bind (must_find_key-Ensures key t) λ ik t1 e1.
            Ensures-bind (must_find_file-Ensures ik.value t1) λ f t2 e2. rw e2.0 (
              Ensures-bind (note_volumes-Ensures t.id f.signature vids t1)
                λ _ t3 fr. touched b ik.value f _ t1 t3 (rw e1.0 c) e2.1 refl refl fr))
          (λ _. Ensures-raise "the volume ID has to be on the list of volume" t)).at;
  }

  find_volume_index-Keeps : (vid : String) → Keeps (λ t. AreIndexed t.db) (find_volume_index vid)
  unfolding find_volume_index
  find_volume_index-Keeps vid = record {
    at = λ t h. elim (Option-cases (p.get t.idxvolumes vid)) [
      | inl e ↦ rw (e, find_volume_index) h
      | inr (v, e) ↦ rw (e, find_volume_index) h
    ];
  }

  find_file-Keeps : (P : Db → Type 0) (sig : String) → Keeps (λ t. P t.db) (find_file sig)
  unfolding find_file
  find_file-Keeps P sig = record { at = λ t h. h }

  create_replica-Keeps :
      (now : ℤ) (rp : Replica) → Keeps (λ t. AreIndexed t.db) (create_replica now rp)
  create_replica-Keeps now rp = record {
    at = λ t h. elim (Option-cases (replica_refusal now rp t)) [
      | inl e ↦ unfold create_replica replica_refusal in rw (e, create_replica) h
      | inr (x, e) ↦ unfold create_replica replica_refusal in rw (e, create_replica) h
    ];
  }

  queue_copies-Keeps :
      (nanos : ℤ) (uuid : String) (f : File) (ks : List String)
      → Keeps (λ t. AreIndexed t.db) (queue_copies nanos uuid f ks)
  unfolding queue_copies
  queue_copies-Keeps nanos uuid f [] = record { at = λ t h. h }
  queue_copies-Keeps nanos uuid f (k ∷ ks) = record {
    at = λ t h. (create_replica-Keeps nanos _).at t h;
  }

  queue_if_first-Keeps :
      (nanos : ℤ) (uuid : String) (f : File) (vids : List String)
      → Keeps (λ t. AreIndexed t.db) (queue_if_first nanos uuid f vids)
  unfolding queue_if_first
  queue_if_first-Keeps nanos uuid f [] = record { at = λ t h. h }
  queue_if_first-Keeps nanos uuid f (first ∷ vids) = record {
    at = λ t h.
        (Keeps-if (first == t.id) (queue_copies-Keeps nanos uuid f f.keys)
            (record { at = λ t' h'. h' })).at
          t h;
  }

  synchronize_loop-Keeps :
      (nanos : ℕ → ℤ) (uuids : ℕ → String) (vid : String) (n : ℕ) (sigs : List String)
      → Keeps (λ t. AreIndexed t.db) (synchronize_loop nanos uuids vid n sigs)
  unfolding synchronize_loop queue_missing
  synchronize_loop-Keeps nanos uuids vid n [] = record { at = λ t h. h }
  synchronize_loop-Keeps nanos uuids vid n (s ∷ sigs) =
      Keeps-bind (find_file-Keeps AreIndexed s) λ f.
        Keeps-bind (Keeps-check (delete_volume_id f vid)) λ g.
          Keeps-bind (queue_if_first-Keeps (nanos n) (uuids n) g g.volume_ids)
            λ _. synchronize_loop-Keeps nanos uuids vid (suc n) sigs

  pub synchronize_tx-Keeps :
      (nanos : ℕ → ℤ) (uuids : ℕ → String) (vid : String)
      → Keeps (λ t. AreIndexed t.db) (synchronize_tx nanos uuids vid)
  unfolding synchronize_tx
  synchronize_tx-Keeps nanos uuids vid =
      Keeps-bind (find_volume_index-Keeps vid)
        λ i. synchronize_loop-Keeps nanos uuids vid 0 i.signatures
