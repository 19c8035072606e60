-- ===== src/Volume/Reset/Sizes.antt =====
-- `calculateSize`, on a disk whose mountpoints are regular expressions.
use rebost.Prelude.{
  String, ◌≡◌, refl, if◌then◌else◌, ltb, Bool, Option, none, some, List, [], ◌∷◌, ◌≢◌, ℤ,
}
use Prim.Native.String.{len}
use rebost.Exec.{Error, ok, of_error, check}
use rebost.Exec.Ensures.{Ensures, Ensures-bind, Ensures_weaken}
use rebost.Platform.{Platform, Time, IsBolt}
use rebost.BoltDb.Repositories.{Tx}
use rebost.Volume.Create.Stores.{find_state-Ensures, update_state-Ensures}
use rebost.Volume.Reset.{Disk, longest_mountpoint, calculate_size}

-- Every mountpoint is a regular expression.
abbrev pub AllCompile : List (String × Option Bool) → Type 0
AllCompile [] = Unit {0}
AllCompile ((mp, o) ∷ ps) = (o ≢ none) × AllCompile ps

module _ ⦃p : Platform⦄ where
  of_error-Ensures : (e : Option Error) (t : Tx) → Ensures (check (of_error e)) t (λ _ t'. t' ≡ t)
  of_error-Ensures none t = record { at = refl }
  of_error-Ensures (some x) t = record { at = tt }

  longest_of :
      (ps : List (String × Option Bool)) (m : String)
      → AllCompile ps
      → (m' : String) × (longest_mountpoint m ps ≡ ok m')
  unfolding longest_mountpoint
  longest_of [] m h = (m, refl)
  longest_of ((mp, none) ∷ ps) m h = absurd (h.0 refl)
  longest_of ((mp, some b) ∷ ps) m h =
      longest_of ps (if b then (if ltb (len m) (len mp) then mp else m) else m) h.1

  mountpoint-Ensures :
      (m : String) (disk : Disk) (t : Tx)
      → AllCompile disk.partitions
      → Ensures (check (longest_mountpoint m disk.partitions)) t (λ _ _. Unit {0})
  mountpoint-Ensures m disk t h =
      let (m', e) = longest_of disk.partitions m h in record { at = rw e tt }

  -- The size is calculated with no panic where every mountpoint is a regular expression.
  pub calculate_size-Ensures :
      IsBolt
      → (disk : Disk) (now : Time) (ts : ℤ) (t : Tx) → AllCompile disk.partitions
      → Ensures (calculate_size disk now ts) t (λ _ _. Unit {0})
  unfolding calculate_size
  calculate_size-Ensures b disk now ts t compile = Ensures-bind (find_state-Ensures t) λ s t1 _.
      Ensures-bind (of_error-Ensures disk.usage_error t1) λ _ t2 _.
        Ensures-bind (of_error-Ensures disk.partitions_error t2) λ _ t3 _.
          Ensures-bind (mountpoint-Ensures s.mountpoint disk t3 compile)
            λ m t4 _. Ensures_weaken (update_state-Ensures b _ t4) λ _ _ _. tt
