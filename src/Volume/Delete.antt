-- ===== src/Volume/Delete.antt =====
-- `DeleteFile` and `deleteFile` of volume/volume.go, and the loop of volume/ttl.go.
pub mod Removes
use rebost.Prelude.{String, Option, none, some, List, [], ◌∷◌, without, int_neg}
use rebost.Exec.{ok, err, panic, Exec, pure, crash, optional, ◌>>=◌, ◌>>◌}
use rebost.Platform.{Platform, Time}
use rebost.File.{File, path}
use rebost.Index.{IdxKey, IdxTtl}
use rebost.FsUow.{tracked_remove}
use rebost.BoltDb.Repositories.{
  Tx, find_file, put_file, delete_file, find_key, delete_key, filter_ttls,
}
use rebost.BoltDb.Uow.{write}
use rebost.Volume.Defs.{Volume, Inputs, tracked, in_uow}
use rebost.Volume.Create.{claim_space}

module _ ⦃p : Platform⦄ where
  -- `newKeys` is what is left of the file's keys.
  unfoldable pub delete_left : String → IdxKey → File → List String → Exec Tx (Unit {0})
  unfolding claim_space
  delete_left file_dir ik d [] = do
    delete_file ik.value
    tracked (tracked_remove (path file_dir ik.value))
    claim_space (int_neg d.size)
  delete_left file_dir ik d (k ∷ ks) = put_file (record d { keys = k ∷ ks })

  -- `make([]string, 0, len(dbf.Keys)-1)` panics where there is no file, or one with no key.
  unfoldable pub delete_from : String → String → IdxKey → Option File → Exec Tx (Unit {0})
  unfolding delete_left
  delete_from file_dir key ik none = crash
  delete_from file_dir key ik (some d) = elim d.keys [
    | [] ↦ crash
    | _ ↦ do delete_left file_dir ik d (without key d.keys); delete_key key
  ]

  -- `deleteFile`
  unfoldable pub delete_tx : String → String → Exec Tx (Unit {0})
  unfolding delete_from
  delete_tx file_dir key = do
    ik ← find_key key
    dbf ← optional (find_file ik.value)
    delete_from file_dir key ik dbf

  unfoldable pub delete_file_op : Inputs → String → Exec Volume (Unit {0})
  delete_file_op i key v = in_uow i write (delete_tx v.file_dir key) v

  -- An error is logged, and the loop goes on.
  abbrev pub log_error : Exec Tx (Unit {0}) → Exec Tx (Unit {0})
  log_error m t = let (r, t') = m t in (elim r [ ok a ↦ ok a | err _ ↦ ok tt | panic ↦ panic ], t')

  unfoldable pub delete_keys : String → List String → Exec Tx (Unit {0})
  delete_keys file_dir [] = pure tt
  delete_keys file_dir (k ∷ ks) = do log_error (delete_tx file_dir k); delete_keys file_dir ks

  unfoldable pub expire_signatures : String → List String → Exec Tx (Unit {0})
  unfolding delete_keys
  expire_signatures file_dir [] = pure tt
  expire_signatures file_dir (s ∷ ss) = do
    log_error (do d ← find_file s; delete_keys file_dir d.keys)
    expire_signatures file_dir ss

  unfoldable pub expire_all : String → List IdxTtl → Exec Tx (Unit {0})
  unfolding expire_signatures
  expire_all file_dir [] = pure tt
  expire_all file_dir (i ∷ is) = do expire_signatures file_dir i.signatures; expire_all file_dir is

  -- One tick of the loop: `now` and `now'` are the two readings of the clock.
  unfoldable pub expire_tx : String → Time → Time → Exec Tx (Unit {0})
  unfolding expire_all
  expire_tx file_dir now now' = do ttls ← filter_ttls now' now; expire_all file_dir ttls

  unfoldable pub expire_tick : Inputs → Time → Exec Volume (Unit {0})
  unfolding expire_tx
  expire_tick i now' v = in_uow i write (expire_tx v.file_dir i.now now') v
