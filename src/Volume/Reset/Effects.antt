-- ===== src/Volume/Reset/Effects.antt =====
-- `Reset` empties the indexes.
use rebost.Prelude.{String, ◌<>◌, ◌⊎◌, ◌≡◌, refl, ◌∙◌, ap, ℤ, inl, inr, Option-cases}
use rebost.Exec.{Error, Result, ok, err, panic, of_error, check, ◌>>◌}
use rebost.Exec.Ensures.{PostOr, EnsuresOr, Ensures, Ensures_or, Ensures-bind}
use rebost.Exec.Keeps.{Keeps, Keeps-bind, Keeps-check}
use rebost.Platform.{Platform, Time, IsBolt}
use rebost.FsUow.{tracked_remove, tracked_remove_all}
use rebost.File.{join}
use rebost.BoltDb.Repositories.{
  state_key, Db, Tx, find_state, update_state, recreate_bucket, delete_all_files, delete_all_keys,
  delete_all_volume_indexes, delete_all_replicas, delete_all_states,
}
use rebost.Volume.Defs.{Inputs, tracked}
use rebost.Volume.Create.Releases.{tracked-Ensures}
use rebost.State.{State}
use rebost.Volume.Reset.Sizes.{AllCompile, calculate_size-Ensures}
use rebost.Volume.Reset.{Disk, longest_mountpoint, calculate_size, renew_id, ignore_error, reset_tx}

module _ ⦃p : Platform⦄ where
  pub record IsEmptied (t : Tx) : Type 0 where
    pub files : t.files ≡ p.empty
    pub idxkeys : t.idxkeys ≡ p.empty

  recreate_cases :
      (name : String)
      → (recreate_bucket name ≡ ok tt) ⊎ ((e : Error) × (recreate_bucket name ≡ err e))
  unfolding recreate_bucket
  recreate_cases name = elim (Option-cases (p.delete_bucket name)) [
    | inr (x, e) ↦ inr ("delete bucket: " <> x, rw (e, recreate_bucket))
    | inl d ↦ elim (Option-cases (p.create_bucket name)) [
      | inr (x, e) ↦ inr ("create bucket: " <> x, rw (d, recreate_bucket) (rw (e, recreate_bucket)))
      | inl e ↦ inl (rw (d, recreate_bucket) (rw (e, recreate_bucket)))
    ]
  ]

  -- The recreation of a bucket fails, or is followed by `f`.
  pub recreated :
      (name : String) (f : Tx → Tx) (t : Tx)
      → Ensures (check (recreate_bucket name) >> λ u. (ok tt, f u)) t (λ _ t'. t' ≡ f t)
  recreated name f t = elim (recreate_cases name) [
    | inl e ↦ record { at = rw e refl }
    | inr (x, e) ↦ record { at = rw e tt }
  ]

  find_state-Keeps : (P : Tx → Type 0) → Keeps P find_state
  unfolding find_state
  find_state-Keeps P = record {
    at = λ t h. elim (Option-cases (p.get t.states state_key)) [
      | inl e ↦ rw (e, find_state) h
      | inr (s, e) ↦ rw (e, find_state) h
    ];
  }

  update_state-Keeps : (s : State) → Keeps IsEmptied (update_state s)
  unfolding update_state
  update_state-Keeps s = record {
    at = λ t h. elim (Option-cases (p.refuses state_key s)) [
      | inl e ↦ rw (e, update_state) (record { files = h.files; idxkeys = h.idxkeys })
      | inr (x, e) ↦ rw (e, update_state) h
    ];
  }

  calculate_size-Keeps :
      (disk : Disk) (now : Time) (ts : ℤ) → Keeps IsEmptied (calculate_size disk now ts)
  unfolding calculate_size
  calculate_size-Keeps disk now ts = Keeps-bind (find_state-Keeps IsEmptied) λ s.
      Keeps-bind (Keeps-check (of_error disk.usage_error)) λ _.
        Keeps-bind (Keeps-check (of_error disk.partitions_error)) λ _.
          Keeps-bind (Keeps-check (longest_mountpoint s.mountpoint disk.partitions))
            λ m. update_state-Keeps _

  pub ignored :
      (X : Tx → Type 0) (Q : Unit {0} → Tx → Type 0) (r : Result (Unit {0})) (t : Tx)
      → PostOr X (λ _ _. Unit {0}) r t
      → Q tt t
      → PostOr X Q (elim r [ panic ↦ panic | _ ↦ ok tt ]) t
  ignored X Q (ok _) t h q = q
  ignored X Q (err e) t h q = q
  ignored X Q panic t h q = h

  kept : {t t' : Tx} → IsEmptied t → t'.files ≡ t.files → t'.idxkeys ≡ t.idxkeys → IsEmptied t'
  kept h e k = record { files = e ∙ h.files; idxkeys = k ∙ h.idxkeys }

  renew_id-Ensures :
      (uuid id_path : String) (t : Tx) → Ensures (renew_id uuid id_path) t (λ _ t'. t'.db ≡ t.db)
  unfolding renew_id
  renew_id-Ensures uuid id_path t = record { at = refl }

  -- A panic leaves the state that it met, like every other result.
  measured :
      (disk : Disk) (now : Time) (ts : ℤ) (t : Tx)
      → IsEmptied t
      → EnsuresOr IsEmptied (ignore_error (calculate_size disk now ts)) t (λ _ t'. IsEmptied t')
  measured disk now ts t h =
      let kept = (calculate_size-Keeps disk now ts).at t h in
      record {
        at =
            ignored IsEmptied (λ _. IsEmptied) (calculate_size disk now ts t).0
              (calculate_size disk now ts t).1
              (any_result (calculate_size disk now ts t).0 (calculate_size disk now ts t).1 kept)
              kept;
      }
    where
      any_result :
          (r : Result (Unit {0})) (u : Tx) → IsEmptied u → PostOr IsEmptied (λ _ _. Unit {0}) r u
      any_result (ok _) u k = tt
      any_result (err e) u k = tt
      any_result panic u k = k

  measured_calmly :
      IsBolt
      → (disk : Disk) (now : Time) (ts : ℤ) (t : Tx) → AllCompile disk.partitions
      → IsEmptied t
      → Ensures (ignore_error (calculate_size disk now ts)) t (λ _ t'. IsEmptied t')
  measured_calmly b disk now ts t compile h = record {
    at =
        ignored (λ _. ⊥) (λ _. IsEmptied) (calculate_size disk now ts t).0
          (calculate_size disk now ts t).1 (calculate_size-Ensures b disk now ts t compile).at
          ((calculate_size-Keeps disk now ts).at t h);
  }

  module _ {X : Tx → Type 0} (i : Inputs) (disk : Disk) (total_size : ℤ)
      (last : (t : Tx)
        → IsEmptied t
        → EnsuresOr X
            (ignore_error (calculate_size disk i.now total_size))
            t
            (λ _ t'. IsEmptied t')) where
    -- What follows the deletion of the other buckets.
    end-Ensures :
        (id_path : String) (t : Tx)
        → IsEmptied t
        → EnsuresOr X
            (tracked (tracked_remove id_path)
              >> (renew_id i.file_uuid id_path
                  >> ignore_error (calculate_size disk i.now total_size)))
            t
            (λ _ t'. IsEmptied t')
    end-Ensures id_path t h =
        Ensures-bind (Ensures_or (tracked-Ensures (tracked_remove id_path) t)) λ _ t1 e1.
          Ensures-bind (Ensures_or (renew_id-Ensures i.file_uuid id_path t1)) λ _ t2 e2.
            let same : t2.db ≡ t.db = e2 ∙ e1.0 in
            last t2 (kept h (ap (λ (d : Db). d.files) same) (ap (λ (d : Db). d.idxkeys) same))

    reset_tx-Empties :
        (root file_dir temp_dir : String) (t : Tx)
        → EnsuresOr X (reset_tx i disk root file_dir temp_dir total_size) t (λ _ t'. IsEmptied t')
    unfolding reset_tx delete_all_files delete_all_keys delete_all_replicas
        delete_all_volume_indexes delete_all_states
    reset_tx-Empties root file_dir temp_dir t =
        Ensures-bind
          (Ensures_or
            (recreated "files" (λ u. record u { db = record u.db { files = p.empty } }) t))
          λ _ t1 e1.
            Ensures-bind
              (Ensures_or
                (recreated "idxkeys" (λ u. record u { db = record u.db { idxkeys = p.empty } }) t1))
              λ _ t2 e2.
                let start : IsEmptied t2 = record {
                  files = ap (λ (u : Tx). u.files) e2 ∙ ap (λ (u : Tx). u.files) e1;
                  idxkeys = ap (λ (u : Tx). u.idxkeys) e2;
                } in
                Ensures-bind
                  (Ensures_or (
                    recreated "replica" (λ u. record u { db = record u.db { replicas = p.empty } })
                      t2))
                  λ _ t3 e3.
                    Ensures-bind
                      (Ensures_or (
                        recreated "idxvolumes"
                          (λ u. record u { db = record u.db { idxvolumes = p.empty } }) t3))
                      λ _ t4 e4.
                        Ensures-bind (Ensures_or (tracked-Ensures (tracked_remove_all file_dir) t4))
                          λ _ t5 e5.
                            Ensures-bind
                              (Ensures_or (tracked-Ensures (tracked_remove_all temp_dir) t5))
                              λ _ t6 e6.
                                Ensures-bind
                                  (Ensures_or (
                                    recreated "state"
                                      (λ u. record u { db = record u.db { states = p.empty } }) t6))
                                  λ _ t7 e7. end-Ensures (join root "id") t7 (
                                    kept start
                                      (ap (λ (u : Tx). u.files) e7
                                        ∙ ap (λ (d : Db). d.files) (e6.0 ∙ e5.0)
                                        ∙ ap (λ (u : Tx). u.files) (e4)
                                        ∙ ap (λ (u : Tx). u.files) (e3))
                                      (ap (λ (u : Tx). u.idxkeys) e7
                                        ∙ ap (λ (d : Db). d.idxkeys) (e6.0 ∙ e5.0)
                                        ∙ ap (λ (u : Tx). u.idxkeys) (e4)
                                        ∙ ap (λ (u : Tx). u.idxkeys) (e3)))

  pub reset_tx-Ensures :
      IsBolt
      → (i : Inputs) (disk : Disk) (root file_dir temp_dir : String) (total_size : ℤ) (t : Tx)
      → AllCompile disk.partitions
      → Ensures (reset_tx i disk root file_dir temp_dir total_size) t (λ _ t'. IsEmptied t')
  reset_tx-Ensures b i disk root file_dir temp_dir total_size t compile =
      reset_tx-Empties i disk total_size (λ u. measured_calmly b disk i.now total_size u compile)
        root file_dir temp_dir t

  -- Also where it panics.
  pub reset_tx-IsEmptied :
      (i : Inputs) (disk : Disk) (root file_dir temp_dir : String) (total_size : ℤ) (t : Tx)
      → EnsuresOr IsEmptied
          (reset_tx i disk root file_dir temp_dir total_size)
          t
          (λ _ t'. IsEmptied t')
  reset_tx-IsEmptied i disk root file_dir temp_dir total_size t =
      reset_tx-Empties i disk total_size (measured disk i.now total_size) root file_dir temp_dir t
