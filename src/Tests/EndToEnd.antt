-- ===== src/Tests/EndToEnd.antt =====
-- A client of a node with one volume in memory.
use rebost.Prelude.{String, ◌≡◌, refl, [], ◌∷◌, pos}
use rebost.Exec.{ok}
use rebost.Platform.{zero_time}
use rebost.Assoc.{Assoc, look}
use rebost.Volume.Defs.{Volume}
use rebost.Http.Laws.{IsRouted}
use rebost.Server.Handler.{make_handler}
use rebost.Client.{Client, get_client}
use rebost.Client.Wire.{Endpoints, make_endpoints}
use rebost.Client.Methods
use rebost.Remote.{IsTurn}
use rebost.Storing.{Cache}
use rebost.Storing
use rebost.Node.{Readings, alone, serving}
use rebost.Volume.ReadBack.{IsCopy}
use rebost.Node.EndToEnd.{client_create_then_get}
use rebost.Tests.Memory.{memory, memory-IsBolt, memory-IsAfero}
use rebost.Tests.Volumes.{new_volume, new_volume-IsIndexed, inputs, content, apart, stored_ok}
use rebost.Tests.Nodes.{kit, kit-IsKit, texts, texts-IsTyped, texts-IsCarried, number, node_config}

instance abbrev by_key : Cache (Assoc String)
by_key = record { get = look; add = λ c k vid. (k, vid) ∷ c }

abbrev Node : Type 0
Node = Storing.Service Volume (Unit {0}) (Assoc String)

abbrev readings : Readings
readings = record {
  creating = inputs;
  asking = inputs;
  getting = inputs;
  deleting = inputs;
  telling = inputs;
}

abbrev client : Client (Endpoints Node)
client = record {
  next_client = 0;
  clients = make_endpoints kit texts (make_handler kit texts (serving readings node_config)) ∷ [];
}

client-IsTurn : IsTurn kit texts (serving readings node_config) client client
unfolding get_client
client-IsTurn = record { turn = refl }

cat-IsRouted : IsRouted {W = Node} kit "cat"
cat-IsRouted = record { files = refl; replicas = refl; apart = refl }

client_create_then_get_example :
    let stored =
      Methods.create_file "cat" content
        (pos 2)
        (pos 60)
        zero_time
        (record { client = client; world = alone readings (pos 3) [] new_volume }) in
    (stored.0 ≡ ok tt)
    × ((Methods.get_file "cat" stored.1).0 ≡ ok content)
    × IsCopy readings.creating content content
client_create_then_get_example =
    client_create_then_get memory-IsAfero memory-IsBolt readings node_config (pos 3) [] kit
      kit-IsKit texts texts-IsTyped client client client client-IsTurn client-IsTurn "cat" content
      (pos 2) (pos 60) zero_time new_volume new_volume-IsIndexed refl apart stored_ok refl refl refl
      cat-IsRouted number texts-IsCarried
