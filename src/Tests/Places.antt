-- ===== src/Tests/Places.antt =====
-- A node with one volume that is empty, and another node that has the file.
use rebost.Prelude.{String, ◌≡◌, ◌≢◌, refl, Bool, true, false, [], ◌∷◌, pos}
use rebost.Exec.{Result, ok, err, not_found, pure, raise}
use rebost.Platform.{Bytes}
use rebost.Assoc.{Assoc, look}
use rebost.Storing.{Volumes, Cache}
use rebost.Storing
use rebost.Cluster.{Both, Place, here, there, places}
use rebost.Cluster.Elsewhere.{get_file-elsewhere}
use rebost.Tests.Nodes.{
  kit, kit-IsKit, texts, texts-IsTyped, node, session, session-IsTurn, cat-IsRouted, content,
  IsTold-ok,
}

abbrev empty : Volumes (Unit {0}) (Unit {0})
empty = record {
  create_file = λ v k c rep ttl ca. pure tt;
  get_file = λ v k. raise not_found;
  delete_file = λ v k. raise not_found;
  has_file = λ v k w. ok ("", false);
  update_file_replica = λ v k vids rep. raise not_found;
  id = λ v w. "v9";
}

instance abbrev by_key : Cache (Assoc String)
by_key = record { get = look; add = λ c k vid. (k, vid) ∷ c }

abbrev asked :
    Storing.Service (Both (Unit {0}) (Assoc Bytes)) (Place (Unit {0}) (Assoc Bytes)) (Assoc String)
asked = record {
  cfg_replica = pos 3;
  locals = here tt ∷ [];
  nodes = there session.client ∷ [];
  node_by_id = λ vid. err not_found;
  cache = [];
  world = record { local = tt; remote = session.world };
}

none_of : (vid : String) → ◌≢◌ {A = Result (String × Bool)} (ok ("", false)) (ok (vid, true))
none_of vid e = cc e

get_file-elsewhere_example :
    Storing.get_file ⦃ops = places empty⦄ "cat" asked
    ≡ (ok content, record asked { cache = ("cat", "v0") ∷ [] })
get_file-elsewhere_example =
    get_file-elsewhere empty kit kit-IsKit texts texts-IsTyped node session.client session-IsTurn
      "cat" "v0" asked [] [] cat-IsRouted refl (none_of, tt) tt refl refl (IsTold-ok content)
