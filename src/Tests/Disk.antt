-- ===== src/Tests/Disk.antt =====
-- A platform whose file system has directories: no file is created in one that is not there.
use rebost.Prelude.{
  String, ◌<>◌, ◌≡◌, refl, ◌∙◌, true, false, Option, none, some, [], ◌∷◌, if◌then◌else◌, pos,
  eq_refl, length, eqb, ◌+ℤ◌, wrap,
}
use rebost.Assoc.{Assoc, look, cut, set, look-cut, look-set}
use rebost.Exec.{Error, Result, ok, err, panic}
use rebost.Platform.{Platform, Bytes, IsBolt, zero_time, add, before}
use rebost.BoltDb.KeyGenerate.{decimal}
use text.Mathlib.Text.{starts_with}
use rebost.File.{join}
use rebost.FsUow.{
  tmp_name, tracked_remove, tracked_remove_all, note_remove, note_rollback, settle, run_actions,
}
use rebost.BoltDb.Repositories.{
  delete_all_files, delete_all_keys, delete_all_replicas, delete_all_volume_indexes,
  delete_all_states, recreate_bucket, find_state, update_state,
}
use rebost.BoltDb.Uow.{no_errors, start_uow, bolt_uow, begun, close, Store}
use rebost.Volume.Defs.{Volume, Inputs, in_uow}
use rebost.Volume.Create.{split_path, create_file}
use rebost.Volume.Reset.{
  Disk, reset, reset_tx, renew_id, create_id, calculate_size, longest_mountpoint,
}
use rebost.Volume.Reset.Closed.{HasDirs, reset_then_create}
use rebost.Serve.{Starting, attach, reset_if_old}
use rebost.State.{is_in_downtime_range}
use rebost.Volume.Start.{new, parse_root, split_colons, open_root, open_id}
use rebost.Serve.FirstStart.{attach_then_create}
use rebost.Tests.Memory.{refusal, refusal-ne, moved, removed}

-- A directory stands with the slash at its end.
record Tree : Type 0 where
  pub dirs : Assoc (Unit {0})
  pub files : Assoc Bytes

abbrev stored : Option (Unit {0}) → Tree → String → Bytes → Option Error × Tree
stored none t n c = (some "no such directory", t)
stored (some _) t n c = (none, record t { files = set t.files n c })

instance abbrev on_disk : Platform
on_disk = record {
  Bucket = Assoc;
  empty = [];
  get = look;
  refuses = λ k v. refusal k;
  put = set;
  delete = cut;
  entries = λ m. m;
  key_le = λ j k. true;
  delete_bucket = λ name. none;
  create_bucket = λ name. none;
  Fs = Tree;
  read = λ t. look t.files;
  store = λ t n c. stored (look t.dirs (split_path n).0) t n c;
  rename = λ t a b. let r = moved (look t.files a) t.files a b in (r.0, record t { files = r.1 });
  remove = λ t n. let r = removed (look t.files n) t.files n in (r.0, record t { files = r.1 });
  remove_all = λ t n. (none, record t { dirs = cut t.dirs (n <> "/") });
  mkdir_all = λ t n. (none, record t { dirs = set t.dirs (n <> "/") tt });
  missing = λ n. "open " <> n;
  format = λ t. decimal t.instant;
  parse = λ layout value. none;
  sha1 = λ c. if eqb (length c) 3 then "a1b2" else "c3d4";
}

on_disk-IsBolt : IsBolt
on_disk-IsBolt = record {
  get-empty = λ k. refl;
  get-put = look-set;
  get-delete = look-cut;
  refuses-ne = λ k v. refusal-ne k;
}

abbrev Gone : String → Tree → Type 0
Gone dir t = look t.dirs (dir <> "/") ≡ none

stored-Gone :
    (o : Option (Unit {0})) (dir : String) (t : Tree) (n : String) (c : Bytes)
    → Gone dir t
    → Gone dir (stored o t n c).1
stored-Gone none dir t n c h = h
stored-Gone (some _) dir t n c h = h

on_disk-HasDirs : (dir : String) → HasDirs (Gone dir) dir
on_disk-HasDirs dir = record {
  removes = λ t e. look-cut t.dirs (dir <> "/") (dir <> "/") ∙ rw (eq_refl (dir <> "/")) refl;
  remove = λ t n h. h;
  rename = λ t a b e h. h;
  store = λ t n c h. stored-Gone (look t.dirs (split_path n).0) dir t n c h;
  refuses = λ t n c e h. ("no such directory", rw (e, h) refl);
}

-- A volume that has just been opened.
abbrev opened : Volume
opened = record {
  file_dir = "/v/file";
  temp_dir = "/v/tmps";
  root = "/v";
  total_size = pos 50;
  store = record {
    db = record {
      files = [];
      idxkeys = [];
      idxttls = [];
      idxvolumes = [];
      replicas = [];
      states = [];
    };
    fs = record {
      dirs = ("/v/", tt) ∷ ("/v/file/", tt) ∷ ("/v/tmps/", tt) ∷ [];
      files = ("/v/id", 1 ∷ []) ∷ [];
    };
    last_key = pos 0;
    id = "volume-1";
  };
}

abbrev inputs : Inputs
inputs = record {
  now = record { instant = pos 5000; zone = pos 0 };
  nanos = pos 7;
  file_uuid = "uuid-1";
  replica_uuid = "uuid-2";
  stat_error = none;
  hashed = 3;
  excess = 0;
  outcome = no_errors;
}

abbrev disk : Disk
disk = record {
  usage_error = none;
  total = 100;
  used = 10;
  partitions_error = none;
  partitions = ("/", some true) ∷ [];
}

reset_ok : (reset inputs disk opened).0 ≡ ok tt
unfolding reset reset_tx in_uow start_uow bolt_uow begun close settle run_actions join
    delete_all_files delete_all_keys delete_all_replicas delete_all_volume_indexes delete_all_states
    recreate_bucket tracked_remove tracked_remove_all note_remove note_rollback renew_id create_id
    calculate_size find_state update_state longest_mountpoint wrap split_path
reset_ok = refl

not_below : starts_with opened.temp_dir (tmp_name (join opened.root "id")) ≡ false
unfolding join
not_below = refl

inside : (split_path (join opened.temp_dir inputs.file_uuid)).0 ≡ opened.temp_dir <> "/"
unfolding join split_path
inside = refl

reset_then_create_example :
    (e : Error) × ((create_file inputs "cat"
        (1 ∷ 2 ∷ 3 ∷ [])
        (pos 2)
        (pos 0)
        zero_time
        (reset inputs disk opened).1).0
      ≡ err e)
reset_then_create_example =
    reset_then_create inputs disk opened (Gone "/v/tmps") (on_disk-HasDirs "/v/tmps") not_below
      reset_ok inputs "cat" (1 ∷ 2 ∷ 3 ∷ []) (pos 2) (pos 0) zero_time inside

-- The same disk, with nothing but its root.
abbrev bare : Store
bare = record opened.store { fs = record { dirs = ("/v/", tt) ∷ []; files = [] } }

abbrev starting : Starting
starting = record {
  reading = no_errors;
  opening = inputs;
  disk = disk;
  clock = record { instant = pos 9000000000000; zone = pos 0 };
  resetting = inputs;
  later_disk = disk;
}

abbrev attaching : Result Volume × Store
attaching = attach (λ size. ok 50) (λ c. "volume-1") starting "/v:50" (pos 2000000000) bare

abbrev volume_of : Result Volume → Volume
volume_of (ok v) = v
volume_of (err e) = opened
volume_of panic = opened

abbrev newcomer : Volume
newcomer = volume_of attaching.0

attached :
    (attaching.0 ≡ ok newcomer)
    × (newcomer.temp_dir ≡ opened.temp_dir)
    × (newcomer.root ≡ opened.root)
unfolding attach reset_if_old is_in_downtime_range add ◌+ℤ◌ new parse_root split_colons open_root
    open_id reset reset_tx in_uow start_uow bolt_uow begun close settle run_actions join
    delete_all_files delete_all_keys delete_all_replicas delete_all_volume_indexes delete_all_states
    recreate_bucket tracked_remove tracked_remove_all note_remove note_rollback renew_id create_id
    calculate_size find_state update_state longest_mountpoint wrap split_path
attached = (refl, refl, refl)

clock_is_late : before (add zero_time (pos 2000000000)) starting.clock ≡ true
unfolding add ◌+ℤ◌
clock_is_late = refl

below : starts_with newcomer.temp_dir (tmp_name (join newcomer.root "id")) ≡ false
below = rw (attached.1, attached.2) not_below

inside_newcomer :
    (split_path (join newcomer.temp_dir inputs.file_uuid)).0 ≡ newcomer.temp_dir <> "/"
inside_newcomer = rw attached.1 inside

attach_then_create_example :
    (e : Error) × ((create_file inputs "cat" (1 ∷ 2 ∷ 3 ∷ []) (pos 2) (pos 0) zero_time newcomer).0
      ≡ err e)
attach_then_create_example =
    attach_then_create (λ size. ok 50) (λ c. "volume-1") starting "/v:50" (pos 2000000000) bare refl
      clock_is_late newcomer (Gone newcomer.temp_dir) attached.0 (on_disk-HasDirs newcomer.temp_dir)
      below inputs "cat" (1 ∷ 2 ∷ 3 ∷ []) (pos 2) (pos 0) zero_time inside_newcomer
