-- ===== src/Tests/Events.antt =====
-- A node comes and sends its state, leaves, and comes back under another name.
use rebost.Prelude.{String, List, [], ◌∷◌, ◌<>◌}
use rebost.Exec.{Result, ok, Exec, pure}
use rebost.Membership.{
  Metadata, Membership, Node, NodeState, notify_join, notify_leave, merge_remote_state,
  removed_volumes,
}
use rebost.Membership.Events.{Events}
use rebost.Membership.Start.{Network, new}
use rebost.Tests.Nodes.{node_config}
use rebost.Tests.Cluster.{alone, at_second, meta}

abbrev state : NodeState
state = record { node = "n1"; volumes = [] }

abbrev dial : Metadata → Result String
dial d = ok "n:3805"

abbrev came : Membership String
came = (notify_join "n1" (ok meta) dial alone).1

abbrev seen : Membership String
seen = merge_remote_state state came

abbrev gone : Membership String
gone = (removed_volumes (at_second 9) (notify_leave (at_second 5) "n1" seen)).1

abbrev back : Membership String
back = (notify_join "n2" (ok meta) dial gone).1

-- A network with one other node, "n1".
abbrev found : List (String × Node String) → Exec (Membership String) (Unit {0})
found [] s = notify_join "n1" (ok meta) dial s
found (x ∷ xs) s = (ok tt, s)

abbrev network : Network String String
network = record {
  parse = λ s. ok s;
  scheme = λ u. "";
  with_scheme = λ u s. s <> "://" <> u;
  text = λ u. u;
  host = λ u. u;
  split_host_port = λ h. ok h;
  join_host_port = λ h port. h;
  create = pure tt;
  join = λ h s. found s.nodes s;
  dial = λ h. ok h;
  config = λ c. ok node_config;
}

abbrev made : Membership String
made = (new network node_config ("v0" ∷ []) "n1:3805").1

abbrev later : Membership String
later = merge_remote_state state made
