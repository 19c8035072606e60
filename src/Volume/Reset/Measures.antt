-- ===== src/Volume/Reset/Measures.antt =====
-- `calculateSize` writes the bucket of states alone.
use rebost.Prelude.{ℤ, inl, inr, Option-cases}
use rebost.Exec.{of_error}
use rebost.Exec.Keeps.{Keeps, Keeps-bind, Keeps-check}
use rebost.Platform.{Platform, Time}
use rebost.State.{State}
use rebost.BoltDb.Repositories.{Tx, find_state, update_state, state_key}
use rebost.Volume.Reset.{Disk, longest_mountpoint, calculate_size}

module _ ⦃p : Platform⦄ where
  -- A predicate that looks at no state is kept.
  module _ (P : Tx → Type 0)
      (stable : (t : Tx) (b : p.Bucket State)
        → P t
        → P (record t { db = record t.db { states = b } })) where
    find_state-Keeps : Keeps P find_state
    unfolding find_state
    find_state-Keeps = record {
      at = λ t h. elim (Option-cases (p.get t.states state_key)) [
        | inl e ↦ rw (e, find_state) h
        | inr (s, e) ↦ rw (e, find_state) h
      ];
    }

    update_state-Keeps : (s : State) → Keeps P (update_state s)
    unfolding update_state
    update_state-Keeps s = record {
      at = λ t h. elim (Option-cases (p.refuses state_key s)) [
        | inl e ↦ rw (e, update_state) (stable t _ h)
        | inr (x, e) ↦ rw (e, update_state) h
      ];
    }

    pub state-Keeps : (disk : Disk) (now : Time) (ts : ℤ) → Keeps P (calculate_size disk now ts)
    unfolding calculate_size
    state-Keeps disk now ts = Keeps-bind find_state-Keeps λ s.
        Keeps-bind (Keeps-check (of_error disk.usage_error)) λ _.
          Keeps-bind (Keeps-check (of_error disk.partitions_error)) λ _.
            Keeps-bind (Keeps-check (longest_mountpoint s.mountpoint disk.partitions))
              λ m. update_state-Keeps _
