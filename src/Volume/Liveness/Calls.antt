-- ===== src/Volume/Liveness/Calls.antt =====
-- `CreateFile` returns no error where nothing that it calls fails and the content fits.
use rebost.Prelude.{String, ◌≡◌, refl, true, Option, none, ℤ, pos, length}
use rebost.Exec.{ok, Exec}
use rebost.Exec.Returns.{Returns, Returns-bind}
use rebost.Platform.{Platform, Time, Bytes}
use rebost.State.{use_size}
use rebost.BoltDb.Repositories.{Tx}
use rebost.Volume.Contents.{create_tx-Leads, IsUntouched}
use rebost.FsUow.{new_tracker, settle, run_actions}
use rebost.BoltDb.Uow.{write, no_errors, open_store, close, begun, bolt_uow, start_uow}
use rebost.File.{join, path, file_path}
use rebost.Volume.Invariant.{IsIndexed}
use rebost.Volume.Outcomes.{with_fs}
use rebost.Volume.Create.{
  hashed, written, split_path, create_file, new_file, creation_time, create_tx,
}
use rebost.Volume.Defs.{Volume, Inputs, in_uow, on_fs}
use rebost.Volume.Create.Stores.{current_state}
use rebost.Volume.Liveness.{IsTaken, IsQuiet, create_tx-Returns}

module _ ⦃p : Platform⦄ (q : IsQuiet) where
  -- A unit of work whose body returns no error and leaves the tracker returns no error.
  in_uow-Returns :
      (i : Inputs) (body : Exec Tx (Unit {0})) (v : Volume)
      → i.outcome ≡ no_errors
      → IsUntouched (new_tracker v.fs) (body (open_store v.store)).1
      → Returns body (open_store v.store)
      → Returns (in_uow i write body) v
  unfolding in_uow start_uow bolt_uow begun close
  in_uow-Returns i body v e same h = record {
    value = tt;
    at = rw (e, bolt_uow, begun) (rw (h.at, same) (unfold settle run_actions in refl));
  }

  on_fs-Returns :
      (f : p.Fs → Option String × p.Fs) (v : Volume) → (f v.fs).0 ≡ none → Returns (on_fs f) v
  on_fs-Returns f v e = record { value = tt; at = rw e refl }

  module _ (i : Inputs) (key : String) (content : Bytes) (rep ttl : ℤ) (ca : Time) (v : Volume)
      (indexed : IsIndexed v) (clean : i.outcome ≡ no_errors) (stat : i.stat_error ≡ none)
      (key_ok : IsTaken key) (sig_ok : IsTaken (p.sha1 (hashed i content)))
      (absent : p.get v.idxkeys key ≡ none)
      (fits : p.get v.files (p.sha1 (hashed i content)) ≡ none
        → (use_size (current_state (open_store v.store)) (pos (length (written i content)))).1
          ≡ true) where
    uow-Returns :
        (fs : p.Fs)
        → let made = creation_time i ca in
          Returns
            (in_uow i write (
              create_tx i v.file_dir key rep ttl made
                (new_file key (hashed i content) (written i content) rep ttl made)))
            (with_fs v fs)
    uow-Returns fs =
        let made = creation_time i ca in
        let f = new_file key (hashed i content) (written i content) rep ttl made in
        let v1 = with_fs v fs in
        in_uow-Returns i (create_tx i v.file_dir key rep ttl made f) v1 clean
          ((create_tx-Leads (new_tracker fs) key i v.file_dir rep ttl made f).at
            (open_store v1.store) (record { same = refl; absent = absent }))
          (create_tx-Returns q i v.file_dir key rep ttl made f key_ok sig_ok (open_store v1.store)
            indexed absent fits)

    -- `CreateFile` returns no error for a key that stands for nothing, on a volume whose indexes agree,
    -- where the three calls of the file system, `Stat` and the transaction return no error, the
    -- store takes the key, the hash of what was copied and the keys that the code makes, and what was
    -- copied, if it is not stored yet, fits in the volume.
    pub create_file-ok :
        let tmp = join v.temp_dir i.file_uuid in
        let place = path v.file_dir (p.sha1 (hashed i content)) in
        let fs1 = (p.store v.fs tmp (written i content)).1 in
        let fs2 = (p.mkdir_all fs1 (split_path place).0).1 in
        (p.store v.fs tmp (written i content)).0 ≡ none
        → (p.mkdir_all fs1 (split_path place).0).0 ≡ none
        → (p.rename fs2 tmp place).0 ≡ none
        → (create_file i key content rep ttl ca v).0 ≡ ok tt
    unfolding create_file file_path
    create_file-ok s m r =
        let tmp = join v.temp_dir i.file_uuid in
        let place = path v.file_dir (p.sha1 (hashed i content)) in
        let fs1 = (p.store v.fs tmp (written i content)).1 in
        let fs2 = (p.mkdir_all fs1 (split_path place).0).1 in
        (Returns-bind (on_fs-Returns (λ fs. p.store fs tmp (written i content)) v s) λ _.
          Returns-bind (record { value = tt; at = rw stat refl })
            λ _.
              Returns-bind
                (on_fs-Returns (λ fs. p.mkdir_all fs (split_path place).0) (with_fs v fs1) m)
                λ _.
                  Returns-bind (on_fs-Returns (λ fs. p.rename fs tmp place) (with_fs v fs2) r)
                    λ _. uow-Returns (p.rename fs2 tmp place).1).at
