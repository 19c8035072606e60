-- ===== src/Volume/Invariant/Histories.antt =====
-- Histories of a volume: the calls that its handlers and its loops make, in any order.
use rebost.Prelude.{String, Option, List, ℕ, ℤ}
use rebost.Platform.{Platform, Time, Bytes, IsBolt}
use rebost.Replica.{Replica}
use rebost.Volume.Defs.{Volume, Inputs}
use rebost.Volume.Create.{create_file}
use rebost.Volume.Delete.{delete_file_op}
use rebost.Volume.Reads.{get_file, has_file, next_replica, get_state}
use rebost.Volume.Replicas.{update_replica, update_file_replica, synchronize_replicas}
use rebost.Volume.Start.{update_state_tick}
use rebost.Volume.Reset.{Disk, reset}
use rebost.Volume.Invariant.{IsIndexed, create_file-IsIndexed, delete_file_op-IsIndexed}
use rebost.Volume.Invariant.Operations.{
  get_file-IsIndexed, has_file-IsIndexed, next_replica-IsIndexed, get_state-IsIndexed,
  update_replica-IsIndexed, update_file_replica-IsIndexed, synchronize_replicas-IsIndexed,
  reset-IsIndexed, update_state_tick-IsIndexed,
}

-- One call, whatever it returns.
pub data Step ⦃p : Platform⦄ : Volume → Volume → Type 0 where
  created :
      {v : Volume} (i : Inputs) (key : String) (content : Bytes) (rep ttl : ℤ) (ca : Time)
      → Step v (create_file i key content rep ttl ca v).1
  deleted : {v : Volume} (i : Inputs) (key : String) → Step v (delete_file_op i key v).1
  read_back : {v : Volume} (i : Inputs) (key : String) → Step v (get_file i key v).1
  asked : {v : Volume} (i : Inputs) (key : String) → Step v (has_file i key v).1
  queued : {v : Volume} (i : Inputs) → Step v (next_replica i v).1
  inspected : {v : Volume} (i : Inputs) → Step v (get_state i v).1
  replicated :
      {v : Volume} (i : Inputs) (rp : Option Replica) (vid : String)
      → Step v (update_replica i rp vid v).1
  told :
      {v : Volume} (i : Inputs) (key : String) (vids : List String) (replica : ℤ)
      → Step v (update_file_replica i key vids replica v).1
  synchronized :
      {v : Volume} (i : Inputs) (nanos : ℕ → ℤ) (uuids : ℕ → String) (vid : String)
      → Step v (synchronize_replicas i nanos uuids vid v).1
  emptied : {v : Volume} (i : Inputs) (disk : Disk) → Step v (reset i disk v).1
  measured : {v : Volume} (i : Inputs) (disk : Disk) → Step v (update_state_tick i disk v).1

-- Any number of calls.
pub data History ⦃p : Platform⦄ : Volume → Volume → Type 0 where
  start : {v : Volume} → History v v
  then : {u v w : Volume} → History u v → Step v w → History u w

module _ ⦃p : Platform⦄ where
  Step-IsIndexed : IsBolt → {v w : Volume} → Step v w → IsIndexed v → IsIndexed w
  Step-IsIndexed b {v} (created i key content rep ttl ca) h =
      create_file-IsIndexed b i key content rep ttl ca v h
  Step-IsIndexed b {v} (deleted i key) h = delete_file_op-IsIndexed b i key v h
  Step-IsIndexed b {v} (read_back i key) h = (get_file-IsIndexed i key).at v h
  Step-IsIndexed b {v} (asked i key) h = (has_file-IsIndexed i key).at v h
  Step-IsIndexed b {v} (queued i) h = (next_replica-IsIndexed i).at v h
  Step-IsIndexed b {v} (inspected i) h = (get_state-IsIndexed i).at v h
  Step-IsIndexed b {v} (replicated i rp vid) h = (update_replica-IsIndexed b i rp vid).at v h
  Step-IsIndexed b {v} (told i key vids replica) h =
      (update_file_replica-IsIndexed b i key vids replica).at v h
  Step-IsIndexed b {v} (synchronized i nanos uuids vid) h =
      (synchronize_replicas-IsIndexed i nanos uuids vid).at v h
  Step-IsIndexed b {v} (emptied i disk) h = (reset-IsIndexed b i disk).at v h
  Step-IsIndexed b {v} (measured i disk) h = (update_state_tick-IsIndexed i disk).at v h

  -- In any history of stores, deletions, reads, replica operations, resets and updates of the state,
  -- each of which may fail at any step, a volume whose two indexes agree stays one.
  pub History-IsIndexed : IsBolt → {v w : Volume} → History v w → IsIndexed v → IsIndexed w
  History-IsIndexed b start h = h
  History-IsIndexed b (then hs s) h = Step-IsIndexed b s (History-IsIndexed b hs h)
