-- ===== src/Membership/Events.antt =====
-- Histories of a membership: the notifications of memberlist, the states that the nodes send, and
-- the collection of removed volumes, in any order.
use rebost.Prelude.{String, ◌≡◌, true, false, contains}
use rebost.Exec.{Result, ok, Exec}
use rebost.Platform.{Time}
use rebost.Assoc.{IsMap, filter_absent}
use rebost.Membership.{
  Metadata, NodeState, Membership, notify_join, notify_update, notify_leave, merge_remote_state,
  removed_volumes,
}
use rebost.Membership.Volumes.{IsApart}
use rebost.Membership.Owned.{holds, AreNew, IsOwned}

module _ {C : Type 0} where
  pub record IsSound (m : Membership C) : Type 0 where
    pub apart : IsApart m
    pub owned : IsOwned m.nodes
    pub once : IsMap m.removed_volume_ids

  -- One event, whatever it returns. The volumes that a node announces are not those of another one.
  pub data Event : Membership C → Membership C → Type 0 where
    joined :
        {m : Membership C} (name : String) (meta : Result Metadata) (dial : Metadata → Result C)
        → ((d : Metadata) → meta ≡ ok d → AreNew m.nodes name d.volumes)
        → Event m (notify_join name meta dial m).1
    updated :
        {m : Membership C} (name : String) (meta : Result Metadata) (dial : Metadata → Result C)
        → ((d : Metadata) → meta ≡ ok d → AreNew m.nodes name d.volumes)
        → Event m (notify_update name meta dial m).1
    left : {m : Membership C} (now : Time) (name : String) → Event m (notify_leave now name m)
    merged : {m : Membership C} (s : NodeState) → Event m (merge_remote_state s m)
    collected : {m : Membership C} (now : Time) → Event m (removed_volumes now m).1

  -- Any number of events.
  pub data Events : Membership C → Membership C → Type 0 where
    start : {m : Membership C} → Events m m
    after : {k m n : Membership C} → Events k m → Event m n → Events k n

  pub IsSound-present :
      (now : Time) (name vid : String) (m : Membership C)
      → IsSound m
      → holds m.nodes name vid ≡ true
      → contains (removed_volumes now m).0 vid ≡ false
  unfolding removed_volumes holds
  IsSound-present now name vid m h held =
      filter_absent _ m.removed_volume_ids vid (h.apart.at name vid held)
