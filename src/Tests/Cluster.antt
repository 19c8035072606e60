-- ===== src/Tests/Cluster.antt =====
-- A cluster of two nodes: who is there, who has a key, and whose turn it is.
use rebost.Prelude.{
  ℕ, String, ◌==◌, ◌≡◌, refl, Bool, true, false, List, [], ◌∷◌, pos, contains, map, if◌then◌else◌,
  ◌+ℤ◌,
}
use rebost.Exec.{Result, ok, err, not_found, pure}
use rebost.Platform.{Time, zero_time}
use rebost.Assoc.{look}
use rebost.Membership.{Metadata, Membership, fresh_node, notify_join, notify_leave, removed_volumes}
use rebost.Membership.Volumes.{IsApart, removed_volumes-notify_leave, removed_volumes-rejoined}
use rebost.Client.Turns.{take_turns, take_turns-round}
use rebost.Storing.{Volumes, Cache, Service, find_volume, get_volume, has_file}
use rebost.Storing.Finds.{FindOutcome, find_volume-Outcome}
use rebost.Storing.Answers.{GetOutcome, HasOutcome, get_volume-Outcome, has_file-Outcome}

abbrev pub at_second : ℕ → Time
at_second n = record { instant = pos n; zone = pos 0 }

abbrev pub meta : Metadata
meta = record { port = pos 3805; volumes = "v1" ∷ "v2" ∷ [] }

abbrev pub alone : Membership String
alone = record {
  is_initialized = true;
  name = "n0";
  local_volumes = "v0" ∷ [];
  nodes = [];
  removed_volume_ids = ("v1", zero_time) ∷ [];
  volume_downtime = pos 120;
}

pub alone-IsApart : IsApart alone
alone-IsApart = record { at = λ name vid e. unfold contains in cc e }

abbrev pair_of_nodes : Membership String
pair_of_nodes = record alone {
  nodes = ("n1", fresh_node "n1:3805" meta) ∷ [];
  removed_volume_ids = [];
}

removed_volumes-notify_leave_example :
    (contains
        (removed_volumes (at_second 50) (notify_leave (at_second 5) "n1" pair_of_nodes)).0
        "v1"
      ≡ false)
    × (contains
          (removed_volumes
            (at_second 900)
            (removed_volumes (at_second 50) (notify_leave (at_second 5) "n1" pair_of_nodes)).1).0
          "v1"
        ≡ true)
unfolding ◌+ℤ◌
removed_volumes-notify_leave_example =
    removed_volumes-notify_leave (at_second 5) (at_second 50) (at_second 900) "n1" pair_of_nodes
      "v1" tt (unfold contains in refl)

removed_volumes-rejoined_example :
    contains
      (removed_volumes
        (at_second 900)
        (notify_join "n2"
          (ok meta)
          (λ _. ok "n2:3805")
          (notify_leave (at_second 5) "n1" pair_of_nodes)).1).0
      "v1"
    ≡ false
removed_volumes-rejoined_example =
    removed_volumes-rejoined (at_second 5) (at_second 900) "n1" "n2" meta "n2:3805" pair_of_nodes
      "v1" refl (unfold contains in refl)

take_turns-round_example :
    take_turns {H = String} 3 (record { next_client = 0; clients = "a" ∷ "b" ∷ "c" ∷ [] })
    ≡ (map ok ("a" ∷ "b" ∷ "c" ∷ []), record { next_client = 0; clients = "a" ∷ "b" ∷ "c" ∷ [] })
take_turns-round_example = take_turns-round "a" ("b" ∷ "c" ∷ [])

-- The volume "one" has the key, and the volume "two" fails.
abbrev replies : String → Result (String × Bool)
replies v =
    if v == "one" then ok ("v1", true) else if v == "two" then err "disk" else ok ("", false)

find_volume-Outcome_example :
    FindOutcome replies
      ("two" ∷ "one" ∷ "six" ∷ [])
      (find_volume replies ("two" ∷ "one" ∷ "six" ∷ []))
find_volume-Outcome_example = find_volume-Outcome replies ("two" ∷ "one" ∷ "six" ∷ [])

instance abbrev numbered : Volumes (Unit {0}) String
numbered = record {
  create_file = λ v k c rep ttl ca. pure tt;
  get_file = λ v k. pure [];
  delete_file = λ v k. pure tt;
  has_file = λ v k w. replies v;
  update_file_replica = λ v k vids rep. pure tt;
  id = λ v w. "v1";
}

instance abbrev remembers : Cache (List (String × String))
remembers = record { get = look; add = λ c k vid. (k, vid) ∷ c }

abbrev service : Service (Unit {0}) String (List (String × String))
service = record {
  cfg_replica = pos 3;
  locals = "six" ∷ "two" ∷ [];
  nodes = "one" ∷ [];
  node_by_id = λ vid. err not_found;
  cache = [];
  world = tt;
}

get_volume-Outcome_example :
    GetOutcome "cat" service (get_volume "cat" service).0 (get_volume "cat" service).1
get_volume-Outcome_example = get_volume-Outcome "cat" service refl

has_file-Outcome_example :
    HasOutcome "cat" service (has_file "cat" service).0 × ((has_file "cat" service).1 ≡ service)
has_file-Outcome_example = has_file-Outcome "cat" service
