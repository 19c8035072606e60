-- ===== src/Tests/Small.antt =====
-- Runs of the small components, and the witnesses of their theorems.
use rebost.Prelude.{
  ℤ, negsuc, List, String, ◌≡◌, refl, true, none, some, [], ◌∷◌, ◌||◌, pos, int_neg, int_add, ◌+ℤ◌,
  ◌-ℤ◌, wrap, arith, ne_of_test, contains,
}
use rebost.Exec.{ok, err}
use rebost.Platform.{zero_time, Bytes}
use rebost.Index.{IdxTtl, add_signatures}
use rebost.Index.Signatures.{NoDup, add_signatures-Union}
use rebost.State.{State, use_size, can_store, used_size, total_size}
use rebost.State.Accounting.{IsBounded, IsSpent, use_all, use_all-IsSpent, use_size-use_size}
use rebost.BoltDb.KeyGenerate.Increases.{Ascends, AreLate, keys_of, keys-Ascend}
use rebost.FsUow.{
  tracked_remove, new_tracker, tmp_name, settle, run_actions, note_remove, note_rollback,
}
use rebost.FsUow.Settles.{remove_then_rollback, removes_then_commit}
use rebost.Tests.Memory.{memory, memory-IsAfero}
use rebost.Assoc.{Assoc}

abbrev state : State
state = record {
  mountpoint = "/";
  system_total_size = pos 100;
  system_used_size = pos 10;
  volume_total_size = pos 50;
  volume_used_size = pos 20;
  updated_at = zero_time;
}

use_all-IsSpent_example :
    IsSpent state (pos 7 ∷ pos 60 ∷ pos 9 ∷ []) (use_all state (pos 7 ∷ pos 60 ∷ pos 9 ∷ []))
use_all-IsSpent_example =
    use_all-IsSpent state (pos 7 ∷ pos 60 ∷ pos 9 ∷ [])
      (unfold used_size total_size in ground arith)

bounded : IsBounded state (pos 7)
unfolding ◌+ℤ◌ ◌-ℤ◌
bounded = record {
  system = ground arith;
  volume = ground arith;
  system_sum = ground arith;
  volume_sum = ground arith;
  size = ground arith;
  negated = ground arith;
}

use_size-use_size_example : use_size (use_size state (pos 7)).0 (int_neg (pos 7)) ≡ (state, true)
use_size-use_size_example =
    use_size-use_size state (pos 7) bounded (unfold used_size total_size in ground arith)
      (unfold use_size can_store used_size total_size int_add ◌+ℤ◌ wrap in refl)

abbrev ttl_index : IdxTtl
ttl_index = record { expires_at = zero_time; signatures = "s1" ∷ [] }

add_signatures-Union_example :
    ((a : String)
      → contains (add_signatures ttl_index ("s2" ∷ "s1" ∷ [])).signatures a
        ≡ (contains ("s1" ∷ []) a || contains ("s2" ∷ "s1" ∷ []) a))
    × NoDup (add_signatures ttl_index ("s2" ∷ "s1" ∷ [])).signatures
    × ((add_signatures ttl_index ("s2" ∷ "s1" ∷ [])).expires_at ≡ zero_time)
add_signatures-Union_example =
    add_signatures-Union ttl_index ("s2" ∷ "s1" ∷ []) (unfold contains in (refl, tt))

abbrev readings : List ℤ
readings = pos 9 ∷ pos 9 ∷ negsuc 2 ∷ []

keys-Ascend_example :
    Ascends (negsuc 4) (keys_of (negsuc 4) readings)
    × AreLate (keys_of (negsuc 4) readings) readings
keys-Ascend_example =
    keys-Ascend 9 (negsuc 4) readings (ground arith) (ground arith) (ground arith) (ground arith)

abbrev two_files : Assoc Bytes
two_files = ("m", 1 ∷ []) ∷ ("n", 2 ∷ []) ∷ []

moves_back :
    (memory.rename (tracked_remove "m" (new_tracker two_files)).1.fs (tmp_name "m") "m").0 ≡ none
unfolding tracked_remove note_remove note_rollback
moves_back = refl

remove_then_rollback_example :
    let t = (tracked_remove "m" (new_tracker two_files)).1 in
    ((settle {A = Unit {0}} (err "too large") t).0 ≡ err "too large")
    × (memory.read (settle {A = Unit {0}} (err "too large") t).1 "m" ≡ some (1 ∷ []))
remove_then_rollback_example =
    remove_then_rollback memory-IsAfero two_files "m" refl moves_back "too large" "m"
      (ne_of_test "m" "m.tmp" refl)

both_removed_ok :
    (settle (ok (tt {0})) (tracked_remove "n" (tracked_remove "m" (new_tracker two_files)).1).1).0
    ≡ ok (tt {0})
unfolding settle run_actions tracked_remove note_remove note_rollback
both_removed_ok = refl

second_moves :
    (memory.rename (tracked_remove "m" (new_tracker two_files)).1.fs "n" (tmp_name "n")).0 ≡ none
unfolding tracked_remove note_remove note_rollback
second_moves = refl

removes_then_commit_example :
    let t = (tracked_remove "n" (tracked_remove "m" (new_tracker two_files)).1).1 in
    (memory.read (settle (ok (tt {0})) t).1 "m" ≡ some (1 ∷ []))
    × (memory.read (settle (ok (tt {0})) t).1 "n" ≡ none)
removes_then_commit_example =
    removes_then_commit memory-IsAfero two_files "m" "n" (ne_of_test "m" "n" refl)
      (ne_of_test "m.tmp" "n" refl) (ne_of_test "m" "n.tmp" refl) refl second_moves both_removed_ok
