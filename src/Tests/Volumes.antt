-- ===== src/Tests/Volumes.antt =====
-- A volume in memory: what is stored, asked for and deleted.
use rebost.Prelude.{
  some, String, ◌≡◌, ◌≢◌, refl, true, false, none, [], ◌∷◌, pos, ne_of_test, ◌+ℤ◌, ◌-ℤ◌, int_add,
  int_sub, int_neg, wrap, contains, without,
}
use rebost.Platform.{add, Bytes, zero_time}
use rebost.File.{expires_at, join, path, file_path}
use rebost.Index.{add_loop, add_signatures}
use rebost.State.{total_size, used_size, can_store, use_size}
use rebost.FsUow.{run_actions, settle, tracked_remove, note_remove, note_rollback}
use rebost.BoltDb.KeyGenerate.{next_key, decimal, digits}
use rebost.BoltDb.Uow.{bolt_uow, begun, close, no_errors, open_store, write, start_uow}
use rebost.BoltDb.Repositories.{
  find_file, put_file, delete_file, find_key, put_key, delete_key, find_ttl, put_ttl, parse_time,
  create_replica, find_state, update_state, Db,
}
use rebost.Volume.Create.{
  split_path, create_tx, claim_space, store_file, store_rest, release_old, index_key, index_ttl,
  queue_replica, create_file, new_file, creation_time,
}
use rebost.Volume.Delete.{delete_tx, delete_from, delete_left, delete_file_op}
use rebost.Exec.{ok, err, raise}
use rebost.Exec.Ensures.{Ensures}
use rebost.BoltDb.Uow.Transactions.{start_uow-err}
use rebost.Volume.Defs.{Volume, Inputs, in_uow}
use rebost.Volume.Create.Stores.{IsCreated}
use rebost.Volume.Delete.Removes.{IsDeleted}
use rebost.Volume.Reads.{get_file, has_file}
use rebost.Volume.Reset.{Disk, reset}
use rebost.Volume.Invariant.{IsIndexed, create_file-IsIndexed}
use rebost.Volume.Invariant.Operations.{empty-AreIndexed}
use rebost.Volume.Invariant.Histories.{Step, History, History-IsIndexed}
use rebost.Volume.Outcomes.{create_file-Ensures, delete_file_op-Ensures}
use rebost.Volume.RoundTrip.{create_then_has, delete_then_has}
use rebost.Volume.ReadBack.{IsCopy, create_then_get}
use rebost.Tests.Memory.{memory, memory-IsBolt, memory-IsAfero}

abbrev pub no_entries : Db
no_entries = record {
  files = [];
  idxkeys = [];
  idxttls = [];
  idxvolumes = [];
  replicas = [];
  states =
      (
        "state",
        record {
          mountpoint = "/";
          system_total_size = pos 100;
          system_used_size = pos 10;
          volume_total_size = pos 50;
          volume_used_size = pos 0;
          updated_at = zero_time;
        },
      )
      ∷ [];
}

abbrev pub new_volume : Volume
new_volume = record {
  file_dir = "/v/file";
  temp_dir = "/v/tmps";
  root = "/v";
  total_size = pos 50;
  store = record { db = no_entries; fs = []; last_key = pos 0; id = "volume-1" };
}

abbrev pub inputs : Inputs
inputs = record {
  now = record { instant = pos 5000; zone = pos 0 };
  nanos = pos 7;
  file_uuid = "uuid-1";
  replica_uuid = "uuid-2";
  stat_error = none;
  hashed = 3;
  excess = 0;
  outcome = no_errors;
}

abbrev pub content : Bytes
content = 1 ∷ 2 ∷ 3 ∷ []

pub new_volume-IsIndexed : IsIndexed new_volume
new_volume-IsIndexed =
    empty-AreIndexed memory-IsBolt (open_store new_volume.store)
      (record { files = refl; idxkeys = refl })

abbrev pub stored : Volume
stored = (create_file inputs "cat" content (pos 2) (pos 60) zero_time new_volume).1

pub stored-IsIndexed : IsIndexed stored
stored-IsIndexed =
    create_file-IsIndexed memory-IsBolt inputs "cat" content (pos 2) (pos 60) zero_time new_volume
      new_volume-IsIndexed

pub stored_ok : (create_file inputs "cat" content (pos 2) (pos 60) zero_time new_volume).0 ≡ ok tt
unfolding create_file split_path join path file_path in_uow start_uow bolt_uow begun close settle
    run_actions create_tx find_file claim_space find_state use_size can_store total_size used_size
    ◌+ℤ◌ ◌-ℤ◌ int_add int_sub wrap update_state store_file store_rest put_file release_old find_key
    index_key put_key index_ttl find_ttl put_ttl parse_time add_signatures add_loop contains
    queue_replica create_replica next_key decimal digits add expires_at
stored_ok = refl

pub apart :
    join new_volume.temp_dir inputs.file_uuid ≢ path new_volume.file_dir (memory.sha1 content)
unfolding join path
apart = ne_of_test _ _ refl

create_then_get_example :
    ((get_file inputs "cat" stored).0 ≡ ok content) × IsCopy inputs content content
create_then_get_example =
    create_then_get memory-IsAfero memory-IsBolt inputs "cat" content (pos 2) (pos 60) zero_time
      new_volume new_volume-IsIndexed refl apart stored_ok inputs refl

create_file-Ensures_example :
    Ensures (create_file inputs "cat" content (pos 2) (pos 60) zero_time) new_volume (λ _ v'.
      IsCreated "cat"
        (new_file "cat" content content (pos 2) (pos 60) (creation_time inputs zero_time))
        (open_store new_volume.store)
        (open_store v'.store))
create_file-Ensures_example =
    create_file-Ensures memory-IsBolt inputs "cat" content (pos 2) (pos 60) zero_time new_volume
      new_volume-IsIndexed

delete_file_op-Ensures_example :
    Ensures
      (delete_file_op inputs "cat")
      stored
      (λ _ v'. IsDeleted "cat" (open_store stored.store) (open_store v'.store))
delete_file_op-Ensures_example =
    delete_file_op-Ensures memory-IsBolt inputs "cat" stored stored-IsIndexed

abbrev pub idle_disk : Disk
idle_disk = record {
  usage_error = none;
  total = 100;
  used = 10;
  partitions_error = none;
  partitions = ("/", some true) ∷ ("/v", some true) ∷ [];
}

-- A file is stored, asked for, deleted, and the volume is reset.
abbrev after_all : Volume
after_all =
    (reset inputs idle_disk (delete_file_op inputs "cat" (has_file inputs "cat" stored).1).1).1

busy_day : History new_volume after_all
busy_day =
    History.then
      (History.then
        (History.then
          (History.then History.start
            (Step.created inputs "cat" content (pos 2) (pos 60) zero_time))
          (Step.asked inputs "cat"))
        (Step.deleted inputs "cat"))
      (Step.emptied inputs idle_disk)

History-IsIndexed_example : IsIndexed after_all
History-IsIndexed_example = History-IsIndexed memory-IsBolt busy_day new_volume-IsIndexed

create_then_has_example : (has_file inputs "cat" stored).0 ≡ ok ("volume-1", true)
create_then_has_example =
    create_then_has memory-IsBolt inputs "cat" content (pos 2) (pos 60) zero_time new_volume
      new_volume-IsIndexed stored_ok inputs "cat" refl

deleted_ok : (delete_file_op inputs "cat" stored).0 ≡ ok tt
unfolding create_file split_path join path file_path in_uow start_uow bolt_uow begun close settle
    run_actions create_tx find_file claim_space find_state use_size can_store total_size used_size
    ◌+ℤ◌ ◌-ℤ◌ int_add int_sub wrap update_state store_file store_rest put_file release_old find_key
    index_key put_key index_ttl find_ttl put_ttl parse_time add_signatures add_loop contains
    queue_replica create_replica next_key decimal digits add expires_at delete_file_op delete_tx
    delete_from delete_left without delete_file delete_key tracked_remove note_remove note_rollback
    int_neg
deleted_ok = refl

delete_then_has_example :
    (has_file inputs "cat" (delete_file_op inputs "cat" stored).1).0 ≡ ok ("", false)
delete_then_has_example =
    delete_then_has memory-IsBolt inputs "cat" stored stored-IsIndexed deleted_ok inputs "cat" refl

start_uow-err_example :
    ((start_uow no_errors write (raise {A = Unit {0}} "too large") stored.store).1.db
      ≡ stored.store.db)
    × ((e : String) × ((start_uow no_errors write (raise {A = Unit {0}} "too large") stored.store).0
          ≡ err e))
start_uow-err_example =
    start_uow-err no_errors write (raise {A = Unit {0}} "too large") stored.store "too large" refl
