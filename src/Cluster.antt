-- ===== src/Cluster.antt =====
-- Two parts put together: the service of a node (Storing), and the clients of other nodes (Client) as
-- volumes that it asks. `X` is the state of the local volumes, and `W` that of the other nodes.
pub mod Elsewhere
use rebost.Prelude.{String, Bool, List, ℤ}
use rebost.Exec.{Result, Exec}
use rebost.Platform.{Time, Bytes}
use rebost.Storing.{Volumes}
use rebost.Client.{Client}
use rebost.Client.Wire.{Endpoints}
use rebost.Client.Methods.{Session}
use rebost.Client.Methods

pub record Both (X W : Type 0) : Type 0 where
  pub local : X
  pub remote : W

-- A volume of the node itself, or another node: `localVolumesToVolumes` and `clientsToVolumes`.
pub data Place (L W : Type 0) : Type 0 where
  here : L → Place L W
  there : Client (Endpoints W) → Place L W

module _ {X W : Type 0} where
  abbrev pub locally : {A : Type 0} → Exec X A → Exec (Both X W) A
  locally m b = let (r, x) = m b.local in (r, record b { local = x })

  -- A node has one host, so that its turn is not kept.
  abbrev pub remotely : {A : Type 0} → Client (Endpoints W) → Exec (Session W) A → Exec (Both X W) A
  remotely c m b =
      let (r, s) = m (record { client = c; world = b.remote }) in (r, record b { remote = s.world })

module _ {X W L : Type 0} (ops : Volumes X L) where
  abbrev create_file : Place L W → String → Bytes → ℤ → ℤ → Time → Exec (Both X W) (Unit {0})
  create_file (here v) k content rep ttl ca = locally (ops.create_file v k content rep ttl ca)
  create_file (there c) k content rep ttl ca = remotely c (Methods.create_file k content rep ttl ca)

  abbrev get_file : Place L W → String → Exec (Both X W) Bytes
  get_file (here v) k = locally (ops.get_file v k)
  get_file (there c) k = remotely c (Methods.get_file k)

  abbrev delete_file : Place L W → String → Exec (Both X W) (Unit {0})
  delete_file (here v) k = locally (ops.delete_file v k)
  delete_file (there c) k = remotely c (Methods.delete_file k)

  abbrev has_file : Place L W → String → Both X W → Result (String × Bool)
  has_file (here v) k b = ops.has_file v k b.local
  has_file (there c) k b = (Methods.has_file k (record { client = c; world = b.remote })).0

  abbrev update_file_replica : Place L W → String → List String → ℤ → Exec (Both X W) (Unit {0})
  update_file_replica (here v) k vids replica = locally (ops.update_file_replica v k vids replica)
  update_file_replica (there c) k vids replica =
      remotely c (Methods.update_file_replica k vids replica)

  -- Only a local volume is asked for its ID.
  abbrev id : Place L W → Both X W → String
  id (here v) b = ops.id v b.local
  id (there c) b = ""

  abbrev pub places : Volumes (Both X W) (Place L W)
  places = record {
    create_file = create_file;
    get_file = get_file;
    delete_file = delete_file;
    has_file = has_file;
    update_file_replica = update_file_replica;
    id = id;
  }
