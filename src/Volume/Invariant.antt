-- ===== src/Volume/Invariant.antt =====
-- Every operation keeps the two indexes of a volume in agreement.
pub mod Operations
pub mod Histories
use rebost.Prelude.{
  ℕ, suc, String, ◌==◌, ◌≡◌, refl, sym, ◌∙◌, ap, Option, none, some, List, [], ◌∷◌, ◌++◌, ℤ, pos,
  eqb_ℤ, ltb_ℤ, int_sub, inl, inr, contains, Option-cases, Bool-cases, arith,
}
use rebost.Exec.{Exec, of_error, pure, raise, crash, check}
use rebost.Exec.Ensures.{
  Ensures, Ensures-pure, Ensures-raise, Ensures-if, Ensures-bind, Ensures_weaken, Ensures_or,
}
use rebost.Exec.Keeps.{Keeps, Keeps-bind, Keeps-check}
use rebost.Platform.{Platform, Time, Bytes, IsBolt}
use rebost.File.{File, join, file_path}
use rebost.Index.{IdxVolume, add_signature}
use rebost.Replica.{Replica}
use rebost.BoltDb.Repositories.{
  Db, Tx, find_volume_index, put_volume_index, create_replica, delete_replica,
}
use rebost.BoltDb.Steps.{
  IsFrame, IsFrame-refl, IsFrame-trans, must_find_file-Ensures, put_file-Ensures,
  create_replica-Ensures,
}
use rebost.BoltDb.Uow.{UowType, write, Store, open_store, start_uow}
use rebost.BoltDb.Uow.Transactions.{start_uow-db}
use rebost.Catalog.{update, get-put}
use rebost.Volume.Replicas.Effects.{AreIndexed}
use rebost.Catalog.Consistency.{IsConsistent, touch-IsConsistent}
use rebost.Volume.Defs.{Volume, Inputs, on_fs, in_uow}
use rebost.Volume.Create.{
  hashed, written, split_path, create_tx, create_file, new_file, creation_time,
}
use rebost.Volume.Create.Stores.{create_tx-Ensures}
use rebost.Volume.Delete.{delete_tx, delete_file_op}
use rebost.Volume.Delete.Removes.{delete_tx-Ensures}
use rebost.Volume.Replicas.{note_signature, update_replica_tx, update_replica, volume_entry}

module _ ⦃p : Platform⦄ where
  abbrev pub IsIndexed : Volume → Type 0
  IsIndexed v = AreIndexed v.store.db

  pub in_uow-IsIndexed :
      {A : Type 0} (i : Inputs) (u : UowType) (body : Exec Tx A)
      → ((t : Tx) → AreIndexed t.db → Ensures body t (λ _ t'. AreIndexed t'.db))
      → Keeps IsIndexed (in_uow i u body)
  unfolding in_uow
  in_uow-IsIndexed i u body k = record {
    at = λ v h.
        start_uow-db AreIndexed i.outcome u body v.store h (Ensures_or (k (open_store v.store) h));
  }

  pub on_fs-IsIndexed : (f : p.Fs → Option String × p.Fs) → Keeps IsIndexed (on_fs f)
  on_fs-IsIndexed f = record { at = λ v h. h }

  -- Storing a file keeps the indexes in agreement, whether it succeeds or fails at any step.
  pub create_file-IsIndexed :
      IsBolt
      → (i : Inputs) (key : String) (content : Bytes) (rep ttl : ℤ) (ca : Time) (v : Volume)
      → IsIndexed v
      → IsIndexed (create_file i key content rep ttl ca v).1
  unfolding create_file
  create_file-IsIndexed b i key content rep ttl ca v h =
      let made = creation_time i ca in
      let f = new_file key (hashed i content) (written i content) rep ttl made in
      let run : Keeps IsIndexed (in_uow i write (create_tx i v.file_dir key rep ttl made f)) =
        in_uow-IsIndexed i write _ λ t c.
          Ensures_weaken (create_tx-Ensures b i v.file_dir key rep ttl made f t refl c)
            (λ _ t' r. r.consistent) in
      (Keeps-bind
          (on_fs-IsIndexed (λ fs. p.store fs (join v.temp_dir i.file_uuid) (written i content)))
          λ _. Keeps-bind (Keeps-check (of_error i.stat_error)) λ _.
            Keeps-bind
              (on_fs-IsIndexed (λ fs. p.mkdir_all fs (split_path (file_path f v.file_dir)).0))
              λ _.
                Keeps-bind
                  (on_fs-IsIndexed
                    (λ fs. p.rename fs (join v.temp_dir i.file_uuid) (file_path f v.file_dir)))
                  λ _. run).at
        v h

  -- Deleting a key keeps the indexes in agreement, whether it succeeds or fails at any step.
  pub delete_file_op-IsIndexed :
      IsBolt
      → (i : Inputs) (key : String) (v : Volume) → IsIndexed v
      → IsIndexed (delete_file_op i key v).1
  unfolding delete_file_op
  delete_file_op-IsIndexed b i key v h =
      (in_uow-IsIndexed i write (delete_tx v.file_dir key) (λ t c.
          Ensures_weaken (delete_tx-Ensures b v.file_dir key t c) (λ _ t' r. r.consistent))).at
        v h
