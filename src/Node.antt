-- ===== src/Node.antt =====
-- A node with one volume, alone in its cluster: the service of storing/service.go over a volume of volume/volume.go, and as
-- the service that storing/transport.go serves. cmd/serve.go puts them together so.
pub mod EndToEnd
use rebost.Prelude.{String, Bool, List, [], ◌∷◌, ℤ}
use rebost.Exec.{Result, ok, err, not_found, Exec}
use rebost.Platform.{Platform, Time, Bytes}
use rebost.Config.{Config}
use rebost.Volume.Defs.{Volume, Inputs}
use rebost.Volume.Create.{create_file}
use rebost.Volume.Delete.{delete_file_op}
use rebost.Volume.Reads.{get_file, has_file}
use rebost.Volume.Replicas.{update_file_replica}
use rebost.Storing.{Volumes, Cache}
use rebost.Storing
use rebost.Server

-- What the calls of the volume read from outside, by the operation.
pub record Readings : Type 0 where
  pub creating : Inputs
  pub asking : Inputs
  pub getting : Inputs
  pub deleting : Inputs
  pub telling : Inputs

module _ ⦃p : Platform⦄ (x : Readings) where
  abbrev pub volumes : Volumes Volume (Unit {0})
  volumes = record {
    create_file = λ v k content rep ttl ca. create_file x.creating k content rep ttl ca;
    get_file = λ v k. get_file x.getting k;
    delete_file = λ v k. delete_file_op x.deleting k;
    has_file = λ v k w. (has_file x.asking k w).0;
    update_file_replica = λ v k vids replica. update_file_replica x.telling k vids replica;
    id = λ v w. w.id;
  }

  -- No other node is there.
  abbrev pub alone : {C : Type 0} → ℤ → C → Volume → Storing.Service Volume (Unit {0}) C
  alone cfg_replica c v = record {
    cfg_replica = cfg_replica;
    locals = tt ∷ [];
    nodes = [];
    node_by_id = λ vid. err not_found;
    cache = c;
    world = v;
  }

  -- There is one volume to choose.
  abbrev pub serving :
      {C : Type 0} ⦃cache : Cache C⦄ → Config → Server.Service (Storing.Service Volume (Unit {0}) C)
  serving cfg = record {
    create_file = Storing.create_file ⦃ops = volumes⦄ 0;
    get_file = Storing.get_file ⦃ops = volumes⦄;
    delete_file = Storing.delete_file ⦃ops = volumes⦄;
    has_file = Storing.has_file ⦃ops = volumes⦄;
    update_file_replica = Storing.update_file_replica ⦃ops = volumes⦄;
    config = λ s. (ok cfg, s);
    create_replica = Storing.create_replica_here ⦃ops = volumes⦄ 0;
  }
