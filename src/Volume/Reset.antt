-- ===== src/Volume/Reset.antt =====
-- `Reset`, `createID` and `calculateSize` of volume/volume.go.
pub mod Sizes
pub mod Effects
pub mod Measures
pub mod Closed
use rebost.Prelude.{
  Option, ℕ, String, Bool, none, some, List, [], ◌∷◌, ltb, if◌then◌else◌, ℤ, pos, wrap,
}
use Prim.Native.String.{len}
use Prim.Native.Char.{code}
use rebost.Exec.{Error, of_error, Result, ok, err, panic, Exec, check, ◌>>=◌, ◌>>◌}
use rebost.Platform.{Platform, Time, Bytes}
use rebost.File.{join}
use rebost.FsUow.{tracked_remove, tracked_remove_all}
use rebost.BoltDb.Repositories.{
  Tx, find_state, update_state, delete_all_files, delete_all_keys, delete_all_volume_indexes,
  delete_all_replicas, delete_all_states,
}
use rebost.BoltDb.Uow.{write}
use rebost.Volume.Defs.{Volume, Inputs, tracked, in_uow}

-- `disk.Usage(root)`, and the partitions of `disk.Partitions(true)`: the mountpoint of each, and if
-- the regular expression made of it matches the root, or none where it does not compile.
pub record Disk : Type 0 where
  pub usage_error : Option Error
  pub total : ℕ
  pub used : ℕ
  pub partitions_error : Option Error
  pub partitions : List (String × Option Bool)

-- The loop over the partitions keeps the longest mountpoint that matches. `regexp.MustCompile` panics
-- on a mountpoint that is no regular expression.
unfoldable pub longest_mountpoint : String → List (String × Option Bool) → Result String
longest_mountpoint m [] = ok m
longest_mountpoint m ((mp, none) ∷ ps) = panic
longest_mountpoint m ((mp, some matches) ∷ ps) =
    longest_mountpoint (if matches then (if ltb (len m) (len mp) then mp else m) else m) ps

-- The bytes of a text in ASCII, such as a UUID.
abbrev pub text_bytes : String → Bytes
text_bytes String.[] = []
text_bytes (String.◌∷◌ c s) = code c ∷ text_bytes s

module _ ⦃p : Platform⦄ where
  unfoldable pub calculate_size : Disk → Time → ℤ → Exec Tx (Unit {0})
  unfolding longest_mountpoint
  calculate_size disk now ts = do
    s ← find_state
    check (of_error disk.usage_error)
    check (of_error disk.partitions_error)
    mountpoint ← check (longest_mountpoint s.mountpoint disk.partitions)
    update_state (record s {
      system_total_size = wrap (pos disk.total);
      system_used_size = wrap (pos disk.used);
      volume_total_size = ts;
      mountpoint = mountpoint;
      updated_at = now;
    })

  -- `createID` writes through `l.fs`, which the tracker of the unit of work does not see.
  unfoldable pub create_id : String → String → p.Fs → Result String × p.Fs
  create_id uuid id_path fs =
      let (e, fs') = p.store fs id_path (text_bytes uuid) in
      (elim e [ none ↦ ok uuid | some x ↦ err x ], fs')

  -- `id, err := l.createID(idPath)`: the error is not looked at, and the ID is then empty.
  abbrev pub id_or_empty : Result String → String
  id_or_empty (ok id) = id
  id_or_empty (err _) = ""
  id_or_empty panic = ""

  unfoldable pub renew_id : String → String → Exec Tx (Unit {0})
  unfolding create_id
  renew_id uuid id_path t =
      let (r, fs) = create_id uuid id_path t.tracker.fs in
      (ok tt, record t { tracker = record t.tracker { fs = fs }; id = id_or_empty r })

  -- `l.calculateSize(…)` as a statement: its error is dropped.
  abbrev pub ignore_error : Exec Tx (Unit {0}) → Exec Tx (Unit {0})
  ignore_error m t = let (r, t') = m t in (elim r [ panic ↦ panic | _ ↦ ok tt ], t')

  unfoldable pub reset_tx : Inputs → Disk → String → String → String → ℤ → Exec Tx (Unit {0})
  unfolding calculate_size renew_id
  reset_tx i disk root file_dir temp_dir total_size = do
    delete_all_files
    delete_all_keys
    delete_all_replicas
    delete_all_volume_indexes
    tracked (tracked_remove_all file_dir)
    tracked (tracked_remove_all temp_dir)
    delete_all_states
    tracked (tracked_remove (join root "id"))
    renew_id i.file_uuid (join root "id")
    ignore_error (calculate_size disk i.now total_size)

  unfoldable pub reset : Inputs → Disk → Exec Volume (Unit {0})
  unfolding reset_tx
  reset i disk v = in_uow i write (reset_tx i disk v.root v.file_dir v.temp_dir v.total_size) v
