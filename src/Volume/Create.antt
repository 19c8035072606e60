-- ===== src/Volume/Create.antt =====
-- `CreateFile` of volume/volume.go.
pub mod Releases
pub mod Effects
pub mod Stores
use rebost.Prelude.{
  List, Option, String, ◌==◌, Option, none, some, [], ◌∷◌, ◌++◌, length, contains, without, take,
  ◌+◌, if◌then◌else◌, ℤ, pos, eqb_ℤ, ltb_ℤ, int_sub, int_add,
}
use rebost.Exec.{Error, Exec, of_error, pure, raise, crash, check, optional, ◌>>=◌, ◌>>◌}
use rebost.Platform.{Platform, Time, Bytes, is_zero}
use rebost.File.{File, join, path, file_path, expires_at}
use rebost.Index.{IdxKey, IdxTtl, add_signatures}
use rebost.State.{use_size}
use rebost.FsUow.{tracked_remove}
use rebost.BoltDb.Repositories.{
  Tx, find_file, put_file, delete_file, find_key, put_key, delete_key, find_ttl, put_ttl,
  create_replica, find_state, update_state,
}
use rebost.BoltDb.Uow.{write}
use rebost.Volume.Defs.{Volume, Inputs, on_fs, tracked, in_uow}

abbrev pub too_large : Error
too_large = "file is too large for the dedicated space left"

-- `path.Split`: what stands up to the last slash, and what stands behind it.
unfoldable pub split_path : String → String × String
split_path String.[] = ("", "")
split_path (String.◌∷◌ c s) =
    let (dir, name) = split_path s in
    if dir == ""
    then (if String.◌∷◌ c String.[] == "/" then ("/", name) else ("", String.◌∷◌ c name))
    else (String.◌∷◌ c dir, name)

module _ ⦃p : Platform⦄ where
  -- The size of the new file is taken from the space that is left.
  unfoldable pub claim_space : ℤ → Exec Tx (Unit {0})
  claim_space size = do
    st ← find_state
    let (st', fits) = use_size st size
    if fits then update_state st' else raise too_large

  -- The end of `release_key`: `newKeys` is what is left of the file's keys.
  unfoldable pub release_left : String → String → IdxKey → File → List String → Exec Tx (Unit {0})
  release_left file_dir key ik d [] = do
    delete_file ik.value
    tracked (tracked_remove (path file_dir ik.value))
    delete_key key
  release_left file_dir key ik d (k ∷ ks) = put_file (record d { keys = k ∷ ks })

  -- `make([]string, 0, len(dbf.Keys)-1)` panics where there is no file, or one with no key.
  unfoldable pub release_from : String → String → IdxKey → Option File → Exec Tx (Unit {0})
  unfolding release_left
  release_from file_dir key ik none = crash
  release_from file_dir key ik (some d) = elim d.keys [
    | [] ↦ crash
    | _ ↦ release_left file_dir key ik d (without key d.keys)
  ]

  -- The key stood for another file: take it from that file, which goes with its last key.
  unfoldable pub release_key : String → String → IdxKey → Exec Tx (Unit {0})
  unfolding release_from
  release_key file_dir key ik = do
    dbf ← optional (find_file ik.value)
    release_from file_dir key ik dbf

  unfoldable pub release_old : String → String → Exec Tx (Unit {0})
  unfolding release_key
  release_old file_dir key = do
    ik ← optional (find_key key)
    elim ik [ none ↦ pure tt | some i ↦ release_key file_dir key i ]

  -- `err != nil && err.Error() != "not found"`, of a call with no other result
  unfoldable pub index_key : String → File → Exec Tx (Unit {0})
  index_key key f = do optional (put_key (record { key = key; value = f.signature })); pure tt

  -- "The case of the not found"
  abbrev pub ttl_entry : File → Option IdxTtl → IdxTtl
  ttl_entry f none = record { expires_at = expires_at f; signatures = [] }
  ttl_entry f (some i) = i

  unfoldable pub index_ttl : ℤ → File → Exec Tx (Unit {0})
  index_ttl ttl f = if eqb_ℤ ttl (pos 0) then pure tt else do
    found ← optional (find_ttl (expires_at f))
    put_ttl (add_signatures (ttl_entry f found) (f.signature ∷ []))

  unfoldable pub queue_replica : Inputs → String → File → ℤ → ℤ → Time → Exec Tx (Unit {0})
  queue_replica i key f rep ttl ca t =
      let count = int_sub rep (pos 1) in
      (if ltb_ℤ count (pos 1)
          then pure tt
          else create_replica i.nanos (record {
            id = i.replica_uuid;
            original_count = int_add count (pos 1);
            count = count;
            key = key;
            signature = f.signature;
            volume_id = t.id;
            volume_ids = t.id ∷ [];
            volume_replica_id = "";
            ttl = ttl;
            created_at = ca;
          }))
        t

  -- Everything behind the choice of the file `f` that is stored.
  unfoldable pub store_rest : Inputs → String → String → ℤ → ℤ → Time → File → Exec Tx (Unit {0})
  store_rest i file_dir key rep ttl ca f = do
    put_file f
    release_old file_dir key
    index_key key f
    index_ttl ttl f
    queue_replica i key f rep ttl ca

  unfoldable pub store_file : Inputs → String → String → ℤ → ℤ → Time → File → Exec Tx (Unit {0})
  unfolding store_rest
  store_file i file_dir key rep ttl ca f t =
      store_rest i file_dir key rep ttl ca (record f { volume_ids = f.volume_ids ++ t.id ∷ [] }) t

  -- The function that `CreateFile` runs in its unit of work.
  unfoldable pub create_tx : Inputs → String → String → ℤ → ℤ → Time → File → Exec Tx (Unit {0})
  create_tx i file_dir key rep ttl ca f = do
    dbf ← optional (find_file f.signature)
    elim dbf [
      | none ↦ do claim_space f.size; store_file i file_dir key rep ttl ca f
      | some d ↦
          if contains d.keys key
          then pure tt
          else store_file i file_dir key rep ttl ca (record d { keys = d.keys ++ key ∷ [] })
    ]

  -- What `io.Copy` has put through the hash, and into the file, which `MultiWriter` writes first. Its
  -- error, of the reader or of the file, is not looked at.
  abbrev pub hashed : Inputs → Bytes → Bytes
  hashed i content = take i.hashed content

  abbrev pub written : Inputs → Bytes → Bytes
  written i content = take (i.hashed + i.excess) content

  -- The size is that of the file on disk.
  abbrev pub new_file : String → Bytes → Bytes → ℤ → ℤ → Time → File
  new_file key hashed written rep ttl ca = record {
    keys = key ∷ [];
    signature = p.sha1 hashed;
    replica = rep;
    volume_ids = [];
    size = pos (length written);
    ttl = ttl;
    created_at = ca;
  }

  abbrev pub creation_time : Inputs → Time → Time
  creation_time i ca = if is_zero ca then i.now else ca

  -- The content is stored under a fresh name and moved to its place before the unit of work starts.
  unfoldable pub create_file : Inputs → String → Bytes → ℤ → ℤ → Time → Exec Volume (Unit {0})
  create_file i key content rep ttl ca v =
      let tmp = join v.temp_dir i.file_uuid in
      let made = creation_time i ca in
      let f = new_file key (hashed i content) (written i content) rep ttl made in
      let place = file_path f v.file_dir in
      (do
        on_fs (λ fs. p.store fs tmp (written i content))
        check (of_error i.stat_error)
        on_fs (λ fs. p.mkdir_all fs (split_path place).0)
        on_fs (λ fs. p.rename fs tmp place)
        in_uow i write (create_tx i v.file_dir key rep ttl made f))
        v
