-- ===== src/Volume/RoundTrip.antt =====
-- What `HasFile` and `GetFile` answer after the calls that store and delete.
use rebost.Prelude.{
  String, ◌==◌, ◌≡◌, refl, Bool, true, false, Option, none, some, ℤ, inl, inr, if◌then◌else◌,
  Option-cases, Bool-cases,
}
use rebost.Exec.{Result, ok, err, panic, Exec, not_found, pure, ◌>>◌}
use rebost.Exec.Ensures.{Ensures_ok}
use rebost.Platform.{Platform, Time, Bytes, IsBolt}
use rebost.File.{path}
use rebost.FsUow.{new_tracker, settle, run_actions}
use rebost.BoltDb.Repositories.{Tx, find_key}
use rebost.BoltDb.Uow.{read, no_errors, open_store, close, begun, bolt_uow, start_uow}
use rebost.Catalog.{Lookup, update, erase}
use rebost.Volume.Defs.{Volume, Inputs, in_uow}
use rebost.Volume.Create.{create_file}
use rebost.Volume.Delete.{delete_file_op}
use rebost.Volume.Reads.{get_file, has_file}
use rebost.Volume.Invariant.{IsIndexed}
use rebost.Volume.Outcomes.{create_file-Ensures, delete_file_op-Ensures}

module _ ⦃p : Platform⦄ where
  abbrev has_of : Option String → String → Result (String × Bool)
  has_of none id = ok ("", false)
  has_of (some s) id = ok (id, true)

  has_updated :
      (I : Lookup String) (key s k id : String)
      → has_of (update I key s k) id ≡ (if key == k then ok (id, true) else has_of (I k) id)
  has_updated I key s k id = elim (Bool-cases (key == k)) [ inl e ↦ rw e refl | inr e ↦ rw e refl ]

  has_erased :
      (I : Lookup String) (key k id : String)
      → has_of (erase I key k) id ≡ (if key == k then ok ("", false) else has_of (I k) id)
  has_erased I key k id = elim (Bool-cases (key == k)) [ inl e ↦ rw e refl | inr e ↦ rw e refl ]

  pub settle_new : {A : Type 0} (r : Result A) (fs : p.Fs) → settle r (new_tracker fs) ≡ (r, fs)
  unfolding settle run_actions
  settle_new (ok a) fs = refl
  settle_new (err e) fs = refl
  settle_new panic fs = refl

  -- A unit of work that reads, and leaves its transaction as it found it.
  read_uow :
      {A : Type 0} (i : Inputs) (body : Exec Tx A) (r : Result A) (v : Volume)
      → i.outcome ≡ no_errors
      → body (open_store v.store) ≡ (r, open_store v.store)
      → in_uow i read body v ≡ (r, v)
  unfolding in_uow start_uow bolt_uow begun close
  read_uow i body r v e h = rw (e, bolt_uow, begun) (rw h (rw (settle_new r v.fs) refl))

  key_missing : (k : String) (t : Tx) → p.get t.idxkeys k ≡ none → find_key k t ≡ (err not_found, t)
  unfolding find_key
  key_missing k t e = rw (e, find_key) refl

  key_present :
      (k s : String) (t : Tx)
      → p.get t.idxkeys k ≡ some s
      → find_key k t ≡ (ok (record { key = k; value = s }), t)
  unfolding find_key
  key_present k s t e = rw (e, find_key) refl

  pub has_file_lem :
      (i : Inputs) (k : String) (v : Volume)
      → i.outcome ≡ no_errors
      → has_file i k v ≡ (has_of (p.get v.idxkeys k) v.id, v)
  unfolding has_file
  has_file_lem i k v e = elim (Option-cases (p.get v.idxkeys k)) [
    | inl n ↦
        rw
          (
            n,
            read_uow i (find_key k >> pure tt) (err not_found) v e
                (rw (key_missing k (open_store v.store) n) refl),
          )
          refl
    | inr (s, n) ↦
        rw
          (
            n,
            read_uow i (find_key k >> pure tt) (ok tt) v e
                (rw (key_present k s (open_store v.store) n) refl),
          )
          refl
  ]

  -- The content under the path of the signature that the key stands for.
  pub get_file_lem :
      (i : Inputs) (k s : String) (c : Bytes) (v : Volume)
      → i.outcome ≡ no_errors
      → p.get v.idxkeys k ≡ some s
      → p.read v.fs (path v.file_dir s) ≡ some c
      → (get_file i k v).0 ≡ ok c
  unfolding get_file
  get_file_lem i k s c v e n r =
      rw (read_uow i (find_key k) _ v e (key_present k s (open_store v.store) n)) (rw r refl)

  -- After a file is stored with no error, its key is there under the volume's ID, and `HasFile`
  -- answers for every other key what it answered before.
  pub create_then_has :
      IsBolt
      → (i : Inputs) (key : String) (content : Bytes) (rep ttl : ℤ) (ca : Time) (v : Volume)
      → IsIndexed v
      → (create_file i key content rep ttl ca v).0 ≡ ok tt
      → (j : Inputs) (k : String) → j.outcome ≡ no_errors
      → (has_file j k (create_file i key content rep ttl ca v).1).0
        ≡ (if key == k then ok (v.id, true) else (has_file j k v).0)
  create_then_has b i key content rep ttl ca v h done j k e =
      let v' = (create_file i key content rep ttl ca v).1 in
      let c = Ensures_ok (create_file-Ensures b i key content rep ttl ca v h) tt done in
      rw (has_file_lem j k v' e, has_file_lem j k v e, c.idxkeys, c.id)
        (has_updated (p.get v.idxkeys) key _ k v.id)

  -- After a key is deleted with no error it is not there, and `HasFile` answers for every other key
  -- what it answered before.
  pub delete_then_has :
      IsBolt
      → (i : Inputs) (key : String) (v : Volume) → IsIndexed v
      → (delete_file_op i key v).0 ≡ ok tt
      → (j : Inputs) (k : String) → j.outcome ≡ no_errors
      → (has_file j k (delete_file_op i key v).1).0
        ≡ (if key == k then ok ("", false) else (has_file j k v).0)
  delete_then_has b i key v h done j k e =
      let v' = (delete_file_op i key v).1 in
      let c = Ensures_ok (delete_file_op-Ensures b i key v h) tt done in
      rw (has_file_lem j k v' e, has_file_lem j k v e, c.idxkeys, c.id)
        (has_erased (p.get v.idxkeys) key k v.id)
