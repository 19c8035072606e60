-- ===== src/Tests/Starts.antt =====
-- A volume in memory that is started twice, and one that has made a copy.
use rebost.Prelude.{true, ◌+ℤ◌, String, ◌≡◌, refl, [], ◌∷◌, pos, wrap, if◌then◌else◌, eqb, some}
use rebost.Platform.{Bytes, zero_time, add}
use rebost.File.{join}
use rebost.FsUow.{run_actions, settle}
use rebost.BoltDb.Uow.{no_errors, bolt_uow, begun, close, open_store, start_uow, Store}
use rebost.BoltDb.Repositories.{find_state, update_state}
use rebost.Exec.{ok, err, Result, panic}
use rebost.Exec.Ensures.{Ensures}
use rebost.Volume.Defs.{Volume}
use rebost.Volume.Reset.{longest_mountpoint, create_id, calculate_size}
use rebost.Replica.{Replica}
use rebost.Volume.Replicas.{update_replica}
use rebost.Volume.Replicas.Noted.{IsReplicated, update_replica-Ensures}
use rebost.Volume.Start.{open_root, open_id, read_id}
use rebost.Volume.Start.Identity.{open_root-same_id}
use rebost.State.{is_in_downtime_range}
use rebost.Volume.Create.Stores.{current_state}
use rebost.Serve.{Starting, attach}
use rebost.Serve.Attached.{IsAttached, attach-Ensures}
use rebost.Tests.Memory.{memory, memory-IsBolt, memory-IsAfero}
use rebost.Tests.Volumes.{new_volume, inputs, stored, stored-IsIndexed, idle_disk}

abbrev copy : Replica
copy = record {
  id = "uuid-2";
  original_count = pos 2;
  count = pos 1;
  key = "cat";
  signature = "a1b2";
  volume_id = "volume-1";
  volume_ids = "volume-1" ∷ [];
  volume_replica_id = "7";
  ttl = pos 60;
  created_at = zero_time;
}

update_replica-Ensures_example :
    Ensures
      (update_replica inputs (some copy) "volume-2")
      stored
      (λ _ v'. IsReplicated copy "volume-2" (open_store stored.store) (open_store v'.store))
update_replica-Ensures_example =
    update_replica-Ensures memory-IsBolt inputs copy "volume-2" stored stored-IsIndexed

abbrev first_id : String
first_id = "aaaaaaaa-0000-4000-8000-000000000001"

abbrev second_id : String
second_id = "bbbbbbbb-0000-4000-8000-000000000002"

-- The two texts, told apart by the code of their first letter.
abbrev text_of : Bytes → String
text_of [] = ""
text_of (c ∷ cs) = if eqb c 97 then first_id else second_id

abbrev opening : Result Volume × Store
opening =
    open_root text_of (record inputs { file_uuid = first_id }) idle_disk "/v" (pos 50)
      new_volume.store

abbrev reopening : Result Volume × Store
reopening =
    open_root text_of (record inputs { file_uuid = second_id }) idle_disk "/v" (pos 60) opening.1

abbrev volume_of : Result Volume → Volume
volume_of (ok v) = v
volume_of (err e) = new_volume
volume_of panic = new_volume

opens : opening.0 ≡ ok (volume_of opening.0)
unfolding open_root open_id create_id read_id calculate_size longest_mountpoint find_state
    update_state join start_uow bolt_uow begun close settle run_actions wrap
opens = refl

reopens : reopening.0 ≡ ok (volume_of reopening.0)
unfolding open_root open_id create_id read_id calculate_size longest_mountpoint find_state
    update_state join start_uow bolt_uow begun close settle run_actions wrap
reopens = refl

open_root-same_id_example : (volume_of reopening.0).id ≡ (volume_of opening.0).id
open_root-same_id_example =
    open_root-same_id memory-IsAfero memory-IsBolt text_of (record inputs { file_uuid = first_id })
      (record inputs { file_uuid = second_id }) idle_disk idle_disk "/v" (pos 50) (pos 60)
      new_volume.store (volume_of opening.0) (volume_of reopening.0) (unfold read_id in refl)
      (unfold read_id in refl) opens reopens

-- The node was down for longer than two seconds.
abbrev start_late : Starting
start_late = record {
  reading = no_errors;
  opening = record inputs { file_uuid = first_id };
  disk = idle_disk;
  clock = record { instant = pos 9000000000000; zone = pos 0 };
  resetting = record inputs { file_uuid = second_id };
  later_disk = idle_disk;
}

attach-Ensures_example :
    Ensures (attach (λ size. ok 50) text_of start_late "/v:50" (pos 2000000000)) stored.store (
      IsAttached
        (is_in_downtime_range
          (current_state (open_store stored.store))
          (pos 2000000000)
          start_late.clock)
        stored.store)
attach-Ensures_example =
    attach-Ensures memory-IsBolt (λ size. ok 50) text_of start_late "/v:50" (pos 2000000000)
      stored.store (λ size e. cc e) ((λ e. cc e), ((λ e. cc e), tt))
      ((λ e. cc e), ((λ e. cc e), tt))

-- It is reset.
was_late :
    is_in_downtime_range
      (current_state (open_store new_volume.store))
      (pos 2000000000)
      start_late.clock
    ≡ true
unfolding is_in_downtime_range add ◌+ℤ◌
was_late = refl
