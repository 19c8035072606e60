-- ===== src/Volume/Liveness.antt =====
-- The unit of work of `CreateFile` returns no error where no call of the store fails.
pub mod Calls
use rebost.Prelude.{
  ℕ, String, ◌≡◌, refl, true, false, none, some, [], ◌∷◌, ◌++◌, ℤ, pos, eqb_ℤ, ltb_ℤ, int_sub,
  contains, inl, inr, Option-cases, Bool-cases,
}
use rebost.Exec.{ok, optional}
use rebost.Exec.Returns.{Returns, Returns-pure, Returns-bind}
use rebost.Platform.{Platform, Time}
use rebost.File.{File}
use rebost.Index.{IdxTtl}
use rebost.State.{use_size}
use rebost.Replica.{Replica}
use rebost.BoltDb.KeyGenerate.{next_key, decimal}
use rebost.BoltDb.Steps.{replica_refusal}
use rebost.BoltDb.Repositories.{
  Tx, find_file, put_file, put_key, put_ttl, parse_time, find_ttl, find_key, find_state,
  update_state, state_key, create_replica,
}
use rebost.Catalog.Consistency.{IsConsistent}
use rebost.Volume.Contents.{claim_space-Keeps}
use rebost.Volume.Create.{
  claim_space, release_old, index_key, index_ttl, queue_replica, store_rest, store_file, create_tx,
}
use rebost.Volume.Defs.{Inputs}
use rebost.Volume.Create.Stores.{current_state}

-- The store takes every entry with the key. It refuses an empty key, and one that is too long.
pub record IsTaken ⦃p : Platform⦄ (k : String) : Type 1 where
  pub takes : {V : Type 0} (v : V) → p.refuses k v ≡ none

-- The store takes the keys that do not come from the caller: the state's, the instants of the index
-- of expirations, and the numbers of the queue of replicas.
pub record IsQuiet ⦃p : Platform⦄ : Type 1 where
  pub takes_state : IsTaken state_key
  pub takes_instants : (t : Time) → IsTaken (p.format t)
  pub takes_numbers : (n : ℤ) → IsTaken (decimal n)

module _ ⦃p : Platform⦄ where
  pub find_state_lem : (t : Tx) → find_state t ≡ (ok (current_state t), t)
  unfolding find_state
  find_state_lem t = elim (Option-cases (p.get t.states state_key)) [
    | inl e ↦ rw (e, find_state) refl
    | inr (s, e) ↦ rw (e, find_state) refl
  ]

module _ ⦃p : Platform⦄ (q : IsQuiet) where
  put_file-Returns : (f : File) (t : Tx) → IsTaken f.signature → Returns (put_file f) t
  unfolding put_file
  put_file-Returns f t h = record { value = tt; at = rw (h.takes f, put_file) refl }

  still_absent :
      (f : File) (key : String) (t : Tx)
      → IsTaken f.signature
      → p.get t.idxkeys key ≡ none
      → p.get (put_file f t).1.idxkeys key ≡ none
  unfolding put_file
  still_absent f key t h e = rw (h.takes f, put_file) e

  claim_space-Returns :
      (size : ℤ) (t : Tx)
      → (use_size (current_state t) size).1 ≡ true
      → Returns (claim_space size) t
  unfolding claim_space update_state
  claim_space-Returns size t fits = record {
    value = tt;
    at =
        rw
          (
            find_state_lem t,
            fits,
            q.takes_state.takes (use_size (current_state t) size).0,
            update_state,
          )
          refl;
  }

  index_key-Returns : (key : String) (f : File) (t : Tx) → IsTaken key → Returns (index_key key f) t
  unfolding index_key put_key
  index_key-Returns key f t h = record { value = tt; at = rw (h.takes f.signature, put_key) refl }

  put_ttl-Returns : (i : IdxTtl) (t : Tx) → Returns (put_ttl i) t
  unfolding put_ttl
  put_ttl-Returns i t = record {
    value = tt;
    at = rw ((q.takes_instants i.expires_at).takes i.signatures, put_ttl) refl;
  }

  find_ttl-Returns : (ea : Time) (t : Tx) → Returns (optional (find_ttl ea)) t
  unfolding find_ttl
  find_ttl-Returns ea t = elim (Option-cases (p.get t.idxttls (p.format ea))) [
    | inl e ↦ record { value = none; at = rw (e, find_ttl) refl }
    | inr (x, e) ↦ record {
      value = some (record { expires_at = parse_time (p.format ea); signatures = x });
      at = rw (e, find_ttl) refl;
    }
  ]

  index_ttl-Returns : (ttl : ℤ) (f : File) (t : Tx) → Returns (index_ttl ttl f) t
  unfolding index_ttl
  index_ttl-Returns ttl f t = elim (Bool-cases (eqb_ℤ ttl (pos 0))) [
    | inl e ↦ rw e (Returns-pure tt t)
    | inr e ↦ rw e (Returns-bind (find_ttl-Returns _ t) λ o. put_ttl-Returns _ _)
  ]

  release_old-Returns :
      (file_dir key : String) (t : Tx)
      → p.get t.idxkeys key ≡ none
      → Returns (release_old file_dir key) t
  unfolding release_old find_key
  release_old-Returns file_dir key t absent = record { value = tt; at = rw (absent, find_key) refl }

  replica_quiet : (now : ℤ) (rp : Replica) (t : Tx) → replica_refusal now rp t ≡ none
  unfolding replica_refusal
  replica_quiet now rp t = (q.takes_numbers (next_key t.last_key now)).takes _

  create_replica-Returns : (now : ℤ) (rp : Replica) (t : Tx) → Returns (create_replica now rp) t
  create_replica-Returns now rp t = record {
    value = tt;
    at = unfold create_replica replica_refusal in rw (replica_quiet now rp t, create_replica) refl;
  }

  queue_replica-Returns :
      (i : Inputs) (key : String) (f : File) (rep ttl : ℤ) (ca : Time) (t : Tx)
      → Returns (queue_replica i key f rep ttl ca) t
  unfolding queue_replica
  queue_replica-Returns i key f rep ttl ca t =
      elim (Bool-cases (ltb_ℤ (int_sub rep (pos 1)) (pos 1))) [
        | inl e ↦ record { value = tt; at = rw e refl }
        | inr e ↦ record { value = tt; at = rw e (create_replica-Returns i.nanos _ t).at }
      ]

  -- The key stands for nothing, so that nothing is released.
  store_rest-Returns :
      (i : Inputs) (file_dir key : String) (rep ttl : ℤ) (ca : Time) (f : File) (t : Tx)
      → IsTaken f.signature
      → IsTaken key
      → p.get t.idxkeys key ≡ none
      → Returns (store_rest i file_dir key rep ttl ca f) t
  unfolding store_rest
  store_rest-Returns i file_dir key rep ttl ca f t sig k absent =
      Returns-bind (put_file-Returns f t sig) λ _.
        Returns-bind (release_old-Returns file_dir key _ (still_absent f key t sig absent)) λ _.
          Returns-bind (index_key-Returns key f _ k) λ _.
            Returns-bind (index_ttl-Returns ttl f _) λ _. queue_replica-Returns i key f rep ttl ca _

  module _ (i : Inputs) (file_dir key : String) (rep ttl : ℤ) (ca : Time) (f : File)
      (key_ok : IsTaken key) (sig_ok : IsTaken f.signature) where
    store_file-Returns :
        (g : File) (t : Tx)
        → IsTaken g.signature
        → p.get t.idxkeys key ≡ none
        → Returns (store_file i file_dir key rep ttl ca g) t
    unfolding store_file
    store_file-Returns g t ok_g absent =
        let h =
          store_rest-Returns i file_dir key rep ttl ca
            (record g { volume_ids = g.volume_ids ++ t.id ∷ [] }) t ok_g key_ok absent in
        record { value = h.value; at = h.at }

    claimed_absent :
        (size : ℤ) (t : Tx)
        → p.get t.idxkeys key ≡ none
        → p.get (claim_space size t).1.idxkeys key ≡ none
    claimed_absent size t e =
        ((claim_space-Keeps t.tracker key size).at t (record { same = refl; absent = e })).absent

    not_owned :
        (t : Tx)
        → IsConsistent (p.get t.files) (p.get t.idxkeys)
        → p.get t.idxkeys key ≡ none
        → (d : File) → p.get t.files f.signature ≡ some d
        → contains d.keys key ≡ false
    not_owned t c absent d e = elim (Bool-cases (contains d.keys key)) [
      | inl h ↦ absurd (cc (absent, c.owned f.signature key d e h))
      | inr h ↦ h
    ]

    pub create_tx-Returns :
        (t : Tx)
        → IsConsistent (p.get t.files) (p.get t.idxkeys)
        → p.get t.idxkeys key ≡ none
        → (p.get t.files f.signature ≡ none → (use_size (current_state t) f.size).1 ≡ true)
        → Returns (create_tx i file_dir key rep ttl ca f) t
    unfolding create_tx find_file
    create_tx-Returns t c absent fits = elim (Option-cases (p.get t.files f.signature)) [
      | inl e ↦
          let h =
            Returns-bind (claim_space-Returns f.size t (fits e))
              λ _. store_file-Returns f _ sig_ok (claimed_absent f.size t absent) in
          record { value = h.value; at = rw (e, find_file) h.at }
      | inr (d, e) ↦
          let h =
            store_file-Returns (record d { keys = d.keys ++ key ∷ [] }) t
              (rw (c.signed f.signature d e) sig_ok) absent in
          record { value = h.value; at = rw (e, find_file, not_owned t c absent d e) h.at }
    ]
