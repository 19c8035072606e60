-- ===== src/Volume/Replicas/Noted.antt =====
-- What `UpdateReplica` writes: the new place of the file, and the file among those of the volume.
use rebost.Prelude.{
  ℤ, String, ◌==◌, ◌≡◌, refl, ◌∙◌, ap, true, some, List, [], ◌∷◌, ◌++◌, pos, ltb_ℤ, eqb_ℤ, int_sub,
  contains, inl, inr, Option-cases, eq_refl,
}
use rebost.Exec.{optional}
use rebost.Exec.Ensures.{
  Ensures, Ensures-pure, Ensures-raise, Ensures-if, Ensures-bind, Ensures_weaken,
}
use rebost.Platform.{Platform, IsBolt}
use rebost.File.{File}
use rebost.Index.{IdxVolume, add_signature}
use rebost.Index.Signatures.{contains-add_signature, add_signature-volume_id}
use rebost.Replica.{Replica}
use rebost.BoltDb.Repositories.{
  Db, Tx, find_volume_index, put_volume_index, create_replica, delete_replica,
}
use rebost.BoltDb.Steps.{must_find_file-Ensures, put_file-Ensures, replica_refusal}
use rebost.Catalog.{update, get-put}
use rebost.Volume.Defs.{Volume, Inputs}
use rebost.Volume.Invariant.{IsIndexed}
use rebost.Volume.Outcomes.{in_uow-Ensures}
use rebost.BoltDb.Uow.{open_store}
use rebost.Catalog.Consistency.{IsConsistent}
use rebost.Volume.Replicas.{volume_entry, note_signature, update_replica_tx, update_replica}

module _ ⦃p : Platform⦄ where
  -- The signature is one of those of the volume.
  pub record IsNoted (vid sig : String) (t : Tx) : Type 0 where
    pub signatures : List String
    pub found : p.get t.idxvolumes vid ≡ some signatures
    pub listed : contains signatures sig ≡ true

  -- The files and the index of volumes are left alone.
  record IsSame (t t' : Tx) : Type 0 where
    pub files : t'.files ≡ t.files
    pub volumes : t'.idxvolumes ≡ t.idxvolumes

  find_volume_index-Same :
      (vid : String) (t : Tx)
      → Ensures
          (optional (find_volume_index vid))
          t
          (λ o t'. IsSame t t' × ((volume_entry vid o).volume_id ≡ vid))
  unfolding find_volume_index
  find_volume_index-Same vid t = elim (Option-cases (p.get t.idxvolumes vid)) [
    | inl e ↦ record {
      at = rw (e, find_volume_index) (record { files = refl; volumes = refl }, refl);
    }
    | inr (f, e) ↦ record {
      at = rw (e, find_volume_index) (record { files = refl; volumes = refl }, refl);
    }
  ]

  put_volume_index-Put :
      (i : IdxVolume) (t : Tx)
      → Ensures (put_volume_index i) t (λ _ t'.
        (t'.files ≡ t.files) × (t'.idxvolumes ≡ p.put t.idxvolumes i.volume_id i.signatures))
  unfolding put_volume_index
  put_volume_index-Put i t = elim (Option-cases (p.refuses i.volume_id i.signatures)) [
    | inl e ↦ record { at = rw (e, put_volume_index) (refl, refl) }
    | inr (x, e) ↦ record { at = rw (e, put_volume_index) tt }
  ]

  delete_replica-Same :
      (rp : Replica) (t : Tx) → Ensures (delete_replica rp) t (λ _ t'. IsSame t t')
  unfolding delete_replica
  delete_replica-Same rp t = record { at = record { files = refl; volumes = refl } }

  create_replica-Same :
      (now : ℤ) (rp : Replica) (t : Tx) → Ensures (create_replica now rp) t (λ _ t'. IsSame t t')
  create_replica-Same now rp t = elim (Option-cases (replica_refusal now rp t)) [
    | inl e ↦ record {
      at =
          unfold create_replica replica_refusal in
          rw (e, create_replica) (record { files = refl; volumes = refl });
    }
    | inr (x, e) ↦ record {
      at = unfold create_replica replica_refusal in rw (e, create_replica) tt;
    }
  ]

  same-IsNoted :
      (vid sig : String) (t t' : Tx)
      → t'.idxvolumes ≡ t.idxvolumes
      → IsNoted vid sig t
      → IsNoted vid sig t'
  same-IsNoted vid sig t t' e h = record {
    signatures = h.signatures;
    found = rw e h.found;
    listed = h.listed;
  }

  note_signature-Noted :
      IsBolt
      → (vid sig : String) (t : Tx)
      → Ensures (note_signature vid sig) t (λ _ t'. (t'.files ≡ t.files) × IsNoted vid sig t')
  unfolding note_signature
  note_signature-Noted b vid sig t = Ensures-bind (find_volume_index-Same vid t) λ o t1 e1.
      let i = add_signature (volume_entry vid o) sig in
      Ensures_weaken (put_volume_index-Put i t1) λ _ t2 e2.
        let at : i.volume_id ≡ vid = add_signature-volume_id (volume_entry vid o) sig ∙ e1.1 in
        (
          e2.0 ∙ e1.0.files,
          record {
            signatures = i.signatures;
            found =
                rw (e2.1, at)
                  (b.get-put t1.idxvolumes vid i.signatures vid ∙ rw (eq_refl vid) refl);
            listed = contains-add_signature (volume_entry vid o) sig;
          },
        )

  -- The file of the replica is also on `vid` and has the replica's count, and it is among the
  -- signatures that the index has for `vid`.
  pub record IsReplicated (rp : Replica) (vid : String) (t t' : Tx) : Type 0 where
    pub file : File
    pub held : p.get t.files rp.signature ≡ some file
    pub files :
        p.get t'.files
        ≡ update
            (p.get t.files)
            rp.signature
            (record file { volume_ids = file.volume_ids ++ vid ∷ []; replica = rp.original_count })
    pub noted : IsNoted vid rp.signature t'

  module _ (b : IsBolt) (i : Inputs) (rp : Replica) (vid : String) (t : Tx)
      (c : IsConsistent (p.get t.files) (p.get t.idxkeys)) where
    after_queue :
        (t4 : Tx) → IsReplicated rp vid t t4 → (t5 : Tx) → IsSame t4 t5 → IsReplicated rp vid t t5
    after_queue t4 h t5 s = record {
      file = h.file;
      held = h.held;
      files = rw s.files h.files;
      noted = same-IsNoted vid rp.signature t4 t5 s.volumes h.noted;
    }

    stored :
        (f : File) (t2 t3 : Tx)
        → let g = record f { volume_ids = f.volume_ids ++ vid ∷ []; replica = rp.original_count } in
          p.get t.files rp.signature ≡ some f
          → t2.files ≡ t.files
          → IsNoted vid f.signature t2
          → t3 ≡ record t2 { db = record t2.db { files = p.put t2.files f.signature g } }
          → IsReplicated rp vid t t3
    stored f t2 t3 held same noted e =
        let sig : f.signature ≡ rp.signature = c.signed rp.signature f held in
        record {
          file = f;
          held = held;
          files =
              ap (λ (u : Tx). p.get u.files) e
              ∙ get-put b t2.files f.signature _
              ∙ rw (same, sig) refl;
          noted =
              same-IsNoted vid rp.signature t2 t3 (ap (λ (u : Tx). u.idxvolumes) e)
                (rw (← sig) noted);
        }

    update_replica_tx-Replicated :
        Ensures (update_replica_tx i rp vid) t (λ _ t'. IsReplicated rp vid t t')
    unfolding update_replica_tx
    update_replica_tx-Replicated = Ensures-bind (must_find_file-Ensures rp.signature t) λ f t1 e1.
        rw e1.0 (
          Ensures-bind (note_signature-Noted b vid f.signature t) λ _ t2 e2.
            Ensures-bind (put_file-Ensures _ t2) λ _ t3 e3.
              let h = stored f t2 t3 e1.1 e2.0 e2.1 e3 in
              Ensures-bind (delete_replica-Same rp t3) λ _ t4 s4.
                let h4 = after_queue t3 h t4 s4 in
                Ensures-if (ltb_ℤ (pos 0) (int_sub rp.count (pos 1)))
                  (λ _.
                    Ensures_weaken (create_replica-Same i.nanos _ t4)
                      (λ _ t5 s5. after_queue t4 h4 t5 s5))
                  (λ _. Ensures-pure tt t4 h4))

  -- Updating a replica panics on no volume whose indexes agree. Where it returns no error, the file
  -- is held with one more volume and the count of the replica, no other file changes, and the index
  -- of volumes has the file under the new volume, where `SynchronizeReplicas` looks for it.
  pub update_replica-Ensures :
      IsBolt
      → (i : Inputs) (rp : Replica) (vid : String) (v : Volume) → IsIndexed v
      → Ensures
          (update_replica i (some rp) vid)
          v
          (λ _ v'. IsReplicated rp vid (open_store v.store) (open_store v'.store))
  unfolding update_replica
  update_replica-Ensures b i rp vid v c =
      Ensures-if (rp.signature == "") (λ _. Ensures-raise _ v)
        λ _.
          Ensures-if (eqb_ℤ rp.original_count (pos 0)) (λ _. Ensures-raise _ v)
            λ _.
              Ensures_weaken
                (in_uow-Ensures i (update_replica_tx i rp vid) v
                  (update_replica_tx-Replicated b i rp vid (open_store v.store) c))
                λ _ v' (t, h, done).
                  after_queue b i rp vid (open_store v.store) c t h (open_store v'.store) (record {
                    files = ap (λ (x : Db). x.files) done.db;
                    volumes = ap (λ (x : Db). x.idxvolumes) done.db;
                  })
