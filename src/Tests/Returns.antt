-- ===== src/Tests/Returns.antt =====
-- A store in memory that refuses no entry with a key: the content is stored.
use rebost.Prelude.{
  String, ◌≢◌, ◌==◌, ◌≡◌, refl, true, false, none, [], ◌∷◌, pos, inl, inr, ne_of_test, eq_of_test,
  Bool-cases, ◌+ℤ◌, ◌-ℤ◌, int_add, int_sub, wrap,
}
use rebost.Exec.{ok}
use rebost.Platform.{zero_time}
use rebost.File.{join, path}
use rebost.State.{use_size, can_store, total_size, used_size}
use rebost.BoltDb.KeyGenerate.Digits.{decimal-ne}
use rebost.BoltDb.Uow.{open_store}
use rebost.Volume.Create.{create_file}
use rebost.Volume.Create.Stores.{current_state}
use rebost.Volume.Leftover.{IsLeftover, create_file-IsLeftover}
use rebost.Volume.Defs.{Volume}
use rebost.Volume.Liveness.{IsTaken, IsQuiet}
use rebost.Volume.Liveness.Calls.{create_file-ok}
use rebost.Tests.Memory.{memory, memory-IsAfero}
use rebost.Tests.Volumes.{new_volume, inputs, content, new_volume-IsIndexed, no_entries, apart}

taken : (k : String) → k ≢ "" → IsTaken k
taken k ne = record {
  takes = λ v. elim (Bool-cases (k == "")) [
    | inl e ↦ absurd (ne (eq_of_test k "" e))
    | inr e ↦ rw e refl
  ];
}

memory-IsQuiet : IsQuiet
memory-IsQuiet = record {
  takes_state = taken "state" (ne_of_test "state" "" refl);
  takes_instants = λ t. taken _ (decimal-ne t.instant);
  takes_numbers = λ n. taken _ (decimal-ne n);
}

fits_ok : (use_size (current_state (open_store new_volume.store)) (pos 3)).1 ≡ true
unfolding use_size can_store total_size used_size ◌+ℤ◌ ◌-ℤ◌ int_add int_sub wrap
fits_ok = refl

moved_ok :
    (memory.rename
      (memory.store new_volume.fs (join new_volume.temp_dir inputs.file_uuid) content).1
      (join new_volume.temp_dir inputs.file_uuid)
      (path new_volume.file_dir (memory.sha1 content))).0
    ≡ none
unfolding join path
moved_ok = refl

create_file-ok_example :
    (create_file inputs "cat" content (pos 2) (pos 60) zero_time new_volume).0 ≡ ok tt
create_file-ok_example =
    create_file-ok memory-IsQuiet inputs "cat" content (pos 2) (pos 60) zero_time new_volume
      new_volume-IsIndexed refl refl (taken "cat" (ne_of_test "cat" "" refl))
      (taken "a1b2" (ne_of_test "a1b2" "" refl)) refl (λ _. fits_ok) refl refl moved_ok

-- Two bytes of space, and a content of three.
abbrev small_volume : Volume
small_volume = record new_volume {
  store = record new_volume.store {
    db = record no_entries {
      states =
          (
            "state",
            record {
              mountpoint = "/";
              system_total_size = pos 100;
              system_used_size = pos 10;
              volume_total_size = pos 2;
              volume_used_size = pos 0;
              updated_at = zero_time;
            },
          )
          ∷ [];
    };
  };
}

full : (use_size (current_state (open_store small_volume.store)) (pos 3)).1 ≡ false
unfolding use_size can_store total_size used_size ◌+ℤ◌ ◌-ℤ◌ int_add int_sub wrap
full = refl

create_file-IsLeftover_example :
    IsLeftover inputs content
      (create_file inputs "cat" content (pos 2) (pos 60) zero_time small_volume).0
      small_volume
      (create_file inputs "cat" content (pos 2) (pos 60) zero_time small_volume).1
create_file-IsLeftover_example =
    create_file-IsLeftover memory-IsAfero inputs "cat" content (pos 2) (pos 60) zero_time
      small_volume refl apart refl full refl refl refl moved_ok
