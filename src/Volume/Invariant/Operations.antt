-- ===== src/Volume/Invariant/Operations.antt =====
-- The operations on replicas, the reads and `Reset` keep the two indexes in agreement.
use rebost.Prelude.{
  String, ◌==◌, ◌≡◌, Option, none, some, List, ℕ, ℤ, pos, eqb_ℤ, Option-cases, inl, inr,
}
use rebost.Exec.{Exec, pure, ◌>>◌}
use rebost.Exec.Ensures.{Ensures_weaken, EnsuresOr, Ensures_widen}
use rebost.Exec.Keeps.{Keeps, Keeps-bind, Keeps-if}
use rebost.Platform.{Platform, IsBolt}
use rebost.File.{File}
use rebost.Replica.{Replica}
use rebost.BoltDb.Repositories.{Tx, find_key, first_replica, find_state, state_key}
use rebost.BoltDb.Uow.{UowType, read, write, open_store}
use rebost.BoltDb.Uow.Transactions.{start_uow-Keeps, start_uow-db}
use rebost.Catalog.Consistency.{IsConsistent}
use rebost.Volume.Defs.{Inputs, in_uow}
use rebost.Volume.Invariant.{IsIndexed, in_uow-IsIndexed}
use rebost.Volume.Reads.{get_file, has_file, next_replica, get_state}
use rebost.Volume.Replicas.{
  update_replica_tx, update_replica, update_file_replica, update_file_replica_tx,
  synchronize_replicas, synchronize_tx,
}
use rebost.Volume.Replicas.Effects.{
  AreIndexed, update_replica_tx-Ensures, update_file_replica_tx-Ensures, synchronize_tx-Keeps,
}
use rebost.Volume.Reset.{Disk, ignore_error, calculate_size, reset, reset_tx}
use rebost.Volume.Start.{update_state_tick}
use rebost.Volume.Reset.Measures.{state-Keeps}
use rebost.Volume.Reset.Effects.{IsEmptied, reset_tx-IsEmptied}

module _ ⦃p : Platform⦄ where
  kept_in_uow :
      {A : Type 0} (i : Inputs) (u : UowType) (body : Exec Tx A)
      → Keeps (λ t. AreIndexed t.db) body
      → Keeps IsIndexed (in_uow i u body)
  unfolding in_uow
  kept_in_uow i u body k = record {
    at = λ v h. start_uow-Keeps AreIndexed i.outcome u body v.store h k;
  }

  -- Where the body ends, or panics, with indexes that agree.
  landed_in_uow :
      {A : Type 0} (i : Inputs) (u : UowType) (body : Exec Tx A)
      → ((t : Tx) → EnsuresOr (λ t'. AreIndexed t'.db) body t (λ _ t'. AreIndexed t'.db))
      → Keeps IsIndexed (in_uow i u body)
  unfolding in_uow
  landed_in_uow i u body k = record {
    at = λ v h. start_uow-db AreIndexed i.outcome u body v.store h (k (open_store v.store));
  }

  find_key-Keeps : (k : String) → Keeps (λ t. AreIndexed t.db) (find_key k)
  unfolding find_key
  find_key-Keeps k = record {
    at = λ t h. elim (Option-cases (p.get t.idxkeys k)) [
      | inl e ↦ rw (e, find_key) h
      | inr (x, e) ↦ rw (e, find_key) h
    ];
  }

  first_replica-Keeps : Keeps (λ t. AreIndexed t.db) first_replica
  unfolding first_replica
  first_replica-Keeps = record { at = λ t h. h }

  find_state-Keeps : Keeps (λ t. AreIndexed t.db) find_state
  unfolding find_state
  find_state-Keeps = record {
    at = λ t h. elim (Option-cases (p.get t.states state_key)) [
      | inl e ↦ rw (e, find_state) h
      | inr (s, e) ↦ rw (e, find_state) h
    ];
  }

  pub get_file-IsIndexed : (i : Inputs) (k : String) → Keeps IsIndexed (get_file i k)
  unfolding get_file
  get_file-IsIndexed i k =
      Keeps-bind (kept_in_uow i read (find_key k) (find_key-Keeps k))
        λ idk. record { at = λ v h. h }

  pub has_file-IsIndexed : (i : Inputs) (k : String) → Keeps IsIndexed (has_file i k)
  unfolding has_file
  has_file-IsIndexed i k = record {
    at = λ v h.
        (kept_in_uow i read (find_key k >> pure tt)
            (Keeps-bind (find_key-Keeps k) λ _. record { at = λ t c. c })).at
          v h;
  }

  pub next_replica-IsIndexed : (i : Inputs) → Keeps IsIndexed (next_replica i)
  unfolding next_replica
  next_replica-IsIndexed i = kept_in_uow i write first_replica first_replica-Keeps

  pub get_state-IsIndexed : (i : Inputs) → Keeps IsIndexed (get_state i)
  unfolding get_state
  get_state-IsIndexed i = kept_in_uow i read find_state find_state-Keeps

  pub update_replica-IsIndexed :
      IsBolt
      → (i : Inputs) (rp : Option Replica) (vid : String)
      → Keeps IsIndexed (update_replica i rp vid)
  unfolding update_replica
  update_replica-IsIndexed b i none vid = record { at = λ v h. h }
  update_replica-IsIndexed b i (some rp) vid =
      Keeps-if (rp.signature == "") (record { at = λ v h. h })
        (Keeps-if (eqb_ℤ rp.original_count (pos 0)) (record { at = λ v h. h })
          (in_uow-IsIndexed i write (update_replica_tx i rp vid)
            (update_replica_tx-Ensures b i rp vid)))

  pub update_file_replica-IsIndexed :
      IsBolt
      → (i : Inputs) (key : String) (vids : List String) (replica : ℤ)
      → Keeps IsIndexed (update_file_replica i key vids replica)
  unfolding update_file_replica
  update_file_replica-IsIndexed b i key vids replica =
      in_uow-IsIndexed i write (update_file_replica_tx key vids replica)
        (update_file_replica_tx-Ensures b key vids replica)

  pub synchronize_replicas-IsIndexed :
      (i : Inputs) (nanos : ℕ → ℤ) (uuids : ℕ → String) (vid : String)
      → Keeps IsIndexed (synchronize_replicas i nanos uuids vid)
  unfolding synchronize_replicas
  synchronize_replicas-IsIndexed i nanos uuids vid =
      kept_in_uow i write (synchronize_tx nanos uuids vid) (synchronize_tx-Keeps nanos uuids vid)

  nothing-IsConsistent :
      {F : String → Option File} {I : String → Option String}
      → ((k : String) → F k ≡ none)
      → ((k : String) → I k ≡ none)
      → IsConsistent F I
  nothing-IsConsistent f i = record {
    indexed = λ k s e. absurd (cc (e, i k));
    owned = λ s k d e h. absurd (cc (e, f s));
    signed = λ s d e. absurd (cc (e, f s));
  }

  pub empty-AreIndexed : IsBolt → (t : Tx) → IsEmptied t → AreIndexed t.db
  empty-AreIndexed b t h = rw (h.files, h.idxkeys) (nothing-IsConsistent b.get-empty b.get-empty)

  pub reset-IsIndexed : IsBolt → (i : Inputs) (disk : Disk) → Keeps IsIndexed (reset i disk)
  unfolding reset
  reset-IsIndexed b i disk = record {
    at = λ v h.
        (landed_in_uow i write (reset_tx i disk v.root v.file_dir v.temp_dir v.total_size) λ t.
            Ensures_weaken
              (Ensures_widen (reset_tx-IsEmptied i disk v.root v.file_dir v.temp_dir v.total_size t)
                (empty-AreIndexed b))
              (λ _ t' e. empty-AreIndexed b t' e)).at
          v h;
  }

  pub update_state_tick-IsIndexed :
      (i : Inputs) (disk : Disk) → Keeps IsIndexed (update_state_tick i disk)
  unfolding update_state_tick
  update_state_tick-IsIndexed i disk = record {
    at = λ v h.
        (kept_in_uow i write (ignore_error (calculate_size disk i.now v.total_size)) (record {
          at = (state-Keeps (λ t. AreIndexed t.db) (λ t b c. c) disk i.now v.total_size).at;
        })).at
          v h;
  }
