-- ===== src/Membership.antt =====
-- membership/membership.go, event_delegate.go and delegate.go: the other nodes of the cluster, and
-- the volumes of nodes that left. Names of nodes, addresses and the messages come from memberlist;
-- the connections of type `C` come from the client.
pub mod Volumes
pub mod Owned
pub mod Events
pub mod Start
use rebost.Prelude.{
  String, ◌==◌, Bool, true, false, not, Option, none, some, List, [], ◌∷◌, contains, ◌||◌, ℤ,
  if◌then◌else◌,
}
use rebost.Exec.{Result, ok, err, panic, Exec, not_found}
use rebost.Platform.{Time, add, before}
use rebost.State.{State, empty_state}
use rebost.Assoc.{Assoc, look, cut, set, cut_all, set_all, filter, keys}

pub record Metadata : Type 0 where
  pub port : ℤ
  pub volumes : List String

-- The state that a node sends: its name, and the states of its volumes by their ID.
pub record NodeState : Type 0 where
  pub node : String
  pub volumes : Assoc State

pub record Node (C : Type 0) : Type 0 where
  pub conn : C
  pub meta : Metadata
  pub state : NodeState

-- `is_initialized` tells if the list of members is created.
pub record Membership (C : Type 0) : Type 0 where
  pub is_initialized : Bool
  pub name : String
  pub local_volumes : List String
  pub nodes : Assoc (Node C)
  pub removed_volume_ids : Assoc Time
  pub volume_downtime : ℤ

-- `found` over the loop on `vids`.
unfoldable pub has_any : List String → List String → Bool
has_any volumes [] = false
has_any volumes (vid ∷ vids) = contains volumes vid || has_any volumes vids

-- The downtime of a volume that was removed at `t` is over.
abbrev pub is_over : ℤ → Time → String → Time → Bool
is_over downtime now vid t = before (add t downtime) now

-- The state that is sent; `get_state` is what each local volume returns.
abbrev pub state_or_empty : Result State → State
state_or_empty (ok s) = s
state_or_empty (err e) = empty_state
state_or_empty panic = empty_state

unfoldable pub local_states : (String → Result State) → List String → Assoc State
local_states get_state [] = []
local_states get_state (vid ∷ vids) =
    set (local_states get_state vids) vid (state_or_empty (get_state vid))

module _ {C : Type 0} where
  abbrev pub fresh_node : C → Metadata → Node C
  fresh_node conn meta = record {
    conn = conn;
    meta = meta;
    state = record { node = ""; volumes = [] };
  }

  -- The node is stored, and its volumes are no longer marked as removed; a failed dial panics.
  unfoldable pub connected : String → Metadata → Result C → Exec (Membership C) (Unit {0})
  unfolding cut_all
  connected name meta (ok conn) m = (
    ok tt,
    record m {
      nodes = set m.nodes name (fresh_node conn meta);
      removed_volume_ids = cut_all m.removed_volume_ids meta.volumes;
    },
  )
  connected name meta (err e) m = (panic, m)
  connected name meta panic m = (panic, m)

  unfoldable pub unmarshalled :
      String → (Metadata → Result C) → Result Metadata → Exec (Membership C) (Unit {0})
  unfolding connected
  unmarshalled name dial (ok meta) m = connected name meta (dial meta) m
  unmarshalled name dial (err e) m = (panic, m)
  unmarshalled name dial panic m = (panic, m)

  -- `meta` is what `json.Unmarshal` returns, and `dial` what `client.New` does for its port.
  unfoldable pub notify_join :
      String → Result Metadata → (Metadata → Result C) → Exec (Membership C) (Unit {0})
  unfolding unmarshalled
  notify_join name meta dial m =
      (if m.is_initialized then unmarshalled name dial meta else λ m'. (ok tt, m')) m

  unfoldable pub notify_update :
      String → Result Metadata → (Metadata → Result C) → Exec (Membership C) (Unit {0})
  unfolding notify_join
  notify_update = notify_join

  -- The volumes of a node that is not known are none.
  abbrev pub volumes_of : Option (Node C) → List String
  volumes_of none = []
  volumes_of (some n) = n.meta.volumes

  -- `now` is the reading of the clock, which the loop takes anew for each volume.
  unfoldable pub notify_leave : Time → String → Membership C → Membership C
  unfolding set_all
  notify_leave now name m = record m {
    nodes = cut m.nodes name;
    removed_volume_ids = set_all m.removed_volume_ids (volumes_of (look m.nodes name)) now;
  }

  -- The loop over the nodes ends at the first one that has the volume.
  unfoldable pub conn_with_volume : String → Assoc (Node C) → Result C
  conn_with_volume vid [] = err not_found
  conn_with_volume vid ((name, n) ∷ nodes) =
      let rest = conn_with_volume vid nodes in
      if contains n.meta.volumes vid then ok n.conn else rest

  unfoldable pub get_node_with_volume_by_id : Membership C → String → Result C
  unfolding conn_with_volume
  get_node_with_volume_by_id m vid = conn_with_volume vid m.nodes

  abbrev pub state_of : Option (Node C) → Result NodeState
  state_of none = err not_found
  state_of (some n) = ok n.state

  unfoldable pub get_node_state : Membership C → String → Result NodeState
  get_node_state m name = state_of (look m.nodes name)

  unfoldable pub update_node : NodeState → Option (Node C) → Exec (Membership C) (Unit {0})
  update_node s none m = (err not_found, m)
  update_node s (some n) m =
      (ok tt, record m { nodes = set m.nodes s.node (record n { state = s }) })

  unfoldable pub update_node_state : NodeState → Exec (Membership C) (Unit {0})
  unfolding update_node
  update_node_state s m = update_node s (look m.nodes s.node) m

  -- What `json.Unmarshal` makes of the message; both errors are dropped.
  unfoldable pub merge_remote_state : NodeState → Membership C → Membership C
  unfolding update_node_state
  merge_remote_state s m = (update_node_state s m).1

  unfoldable pub conns : Assoc (Node C) → List C
  conns [] = []
  conns ((name, n) ∷ nodes) = n.conn ∷ conns nodes

  unfoldable pub nodes : Membership C → List C
  unfolding conns
  nodes m = conns m.nodes

  unfoldable pub nodes_without_volume_ids : Membership C → List String → List C
  unfolding conns filter has_any
  nodes_without_volume_ids m vids =
      conns (filter (λ name n. not (has_any n.meta.volumes vids)) m.nodes)

  unfoldable pub removed_volumes : Time → Membership C → List String × Membership C
  unfolding filter keys add
  removed_volumes now m =
      let over = is_over m.volume_downtime now in
      (
        keys (filter over m.removed_volume_ids),
        record m { removed_volume_ids = filter (λ vid t. not (over vid t)) m.removed_volume_ids },
      )

  unfoldable pub node_meta : ℤ → Membership C → Metadata
  node_meta port m = record { port = port; volumes = m.local_volumes }

  unfoldable pub local_state : (String → Result State) → Membership C → NodeState
  unfolding local_states
  local_state get_state m = record {
    node = m.name;
    volumes = local_states get_state m.local_volumes;
  }
