-- ===== src/Membership/Start.antt =====
-- `New` of membership/membership.go: the list of members, and the node of the cluster to join by.
use rebost.Prelude.{String, ◌==◌, true, false, List, [], ℤ, if◌then◌else◌}
use rebost.Exec.{Result, ok, Exec, pure, check, prefixed, ◌>>=◌, ◌>>◌}
use rebost.Exec.Keeps.{Keeps}
use rebost.Config.{Config}
use rebost.Membership.{Membership}
use rebost.Membership.Events.{Events}

-- `url.Parse`, the scheme of a URL, its text and its host, `net.SplitHostPort`, `net.JoinHostPort` of a
-- number; `memberlist.Create` and `Join`, which notify of the nodes that they find; and of a client
-- `New` and `Config`.
pub record Network (U C : Type 0) : Type 0 where
  pub parse : String → Result U
  pub scheme : U → String
  pub with_scheme : U → String → U
  pub text : U → String
  pub host : U → String
  pub split_host_port : String → Result String
  pub join_host_port : String → ℤ → String
  pub create : Exec (Membership C) (Unit {0})
  pub join : String → Exec (Membership C) (Unit {0})
  pub dial : String → Result C
  pub config : C → Result Config

module _ {U C : Type 0} (n : Network U C) where
  abbrev pub default_scheme : U → U
  default_scheme u = if n.scheme u == "" then n.with_scheme u "http" else u

  abbrev pub failing : String → Exec (Membership C) (Unit {0}) → Exec (Membership C) (Unit {0})
  failing what m s = let (r, s') = m s in (prefixed what r, s')

  -- The host of the remote node, and the port of the memberlist in its configuration.
  unfoldable pub join_remote : String → Exec (Membership C) (Unit {0})
  join_remote remote = do
    u ← check (n.parse remote)
    c ← check (n.dial (n.text (default_scheme u)))
    cfg ← check (n.config c)
    host ← check (n.split_host_port (n.host (default_scheme u)))
    failing "Failed to join cluster: " (n.join (n.join_host_port host cfg.memberlist.port))

  abbrev pub initialized : Exec (Membership C) (Unit {0})
  initialized m = (ok tt, record m { is_initialized = true })

  abbrev pub no_members : Config → List String → Membership C
  no_members cfg volumes = record {
    is_initialized = false;
    name = cfg.name;
    local_volumes = volumes;
    nodes = [];
    removed_volume_ids = [];
    volume_downtime = cfg.volume_downtime;
  }

  -- `New`: its error, and the membership that the delegates have.
  unfoldable pub new : Config → List String → String → Result (Unit {0}) × Membership C
  unfolding join_remote
  new cfg volumes remote =
      (failing "Failed to create memberlist: " n.create
          >> initialized
          >> (if remote == "" then pure tt else join_remote remote))
        (no_members cfg volumes)
