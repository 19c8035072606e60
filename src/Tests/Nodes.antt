-- ===== src/Tests/Nodes.antt =====
-- A node that keeps contents in memory, and a client that reaches it.
use rebost.Prelude.{
  String, ◌==◌, ◌≡◌, refl, Bool, true, false, Option, none, some, [], ◌∷◌, pos, if◌then◌else◌,
}
use Prim.Native.String.{slice, len}
use text.Mathlib.Text.{starts_with}
use rebost.Exec.{Result, ok, err, panic, Exec, not_found}
use rebost.Platform.{Bytes, zero_time}
use rebost.Assoc.{Assoc, look, set, cut}
use rebost.BoltDb.KeyGenerate.{decimal, digits}
use rebost.Config.{Config}
use rebost.Http.{Request, Response, Handler, Kit, Texts}
use rebost.Http.Laws.{
  IsKit, IsRouted, FindsConfig, IsCarried, IsTyped, first_match, new_request, failure,
}
use rebost.Server.{Service}
use rebost.Server.Handler.{make_handler}
use rebost.Client.{get_client}
use rebost.Client.Wire.{Endpoints, make_endpoints}
use rebost.Client.Methods.{Session}
use rebost.Client.Methods
use rebost.Remote.{IsTold, IsTurn}
use rebost.Remote.Reads.{get_file-remote, has_file-remote}
use rebost.Remote.Nodes.{config-remote}

abbrev after : String → String → Option String
after prefix path =
    if starts_with path prefix then some (slice path (len prefix) (len path)) else none

abbrev variable : String → String → Option String
variable template path =
    if template == "/config"
    then (if path == "/config" then some "" else none)
    else if template == "/files/{key:.*}"
    then after "/files/" path
    else after "/replicas/" path

module _ {W : Type 0} where
  abbrev encoded : {A : Type 0} → (A → Result Response) → Result A → W → Result Response × W
  encoded enc (ok a) w = (enc a, w)
  encoded enc (err e) w = (ok (failure e), w)
  encoded enc panic w = (panic, w)

  abbrev decoded :
      {Q A : Type 0} → (Q → Exec W A) → (A → Result Response) → Result Q → W → Result Response × W
  decoded e enc (ok q) w = encoded enc (e q w).0 (e q w).1
  decoded e enc (err x) w = (ok (failure x), w)
  decoded e enc panic w = (panic, w)

  abbrev replied : {A : Type 0} → (Response → Result A) → Result Response → W → Result A × W
  replied dec (ok x) w = (dec x, w)
  replied dec (err e) w = (err e, w)
  replied dec panic w = (err "EOF", w)

  abbrev sent : {A : Type 0} → Handler W → (Response → Result A) → Result Request → W → Result A × W
  sent h dec (ok r) w = replied dec (h r w).0 (h r w).1
  sent h dec (err e) w = (err e, w)
  sent h dec panic w = (panic, w)

  abbrev routed : Handler W → Request → Option (Handler W × String) → Exec W Response
  routed missing r none = missing r
  routed missing r (some (h, k)) = h (record r { key = k })

  abbrev pub kit : Kit W
  kit = record {
    server = λ dec e enc r w. decoded e enc (dec r) w;
    client = λ h m path enc dec q w. sent h dec (enc (new_request m path) q) w;
    router = λ xs missing r w. routed missing r (first_match variable xs r) w;
    vars = variable;
  }

  pub kit-IsKit : IsKit kit
  kit-IsKit = record {
    serves = λ dec e enc r w q a x dr er ex. rw (dr, er, ex) refl;
    fails = λ dec e enc r w q x dr er. rw (dr, er) refl;
    calls = λ h m path enc dec q w r x er hx. rw (er, hx) refl;
    routes = λ xs missing r h k w e. rw e refl;
  }

abbrev pub texts : Texts
texts = record {
  itoa = decimal;
  atoi = λ s. if s == "2" then some (pos 2) else none;
  duration_text = λ d. "1m0s";
  parse_duration = λ s. if s == "1m0s" then some (pos 60) else none;
  format_time = λ layout time. "0001-01-01T00:00:00Z";
  parse_time = λ layout s. if s == "0001-01-01T00:00:00Z" then some zero_time else none;
  detect = λ b. "application/octet-stream";
  is_json_type = λ s. s == "application/json; charset=utf-8";
  syntax_error = λ b. "EOF";
  raw = λ b. [];
}

pub texts-IsTyped : IsTyped texts
texts-IsTyped = record { detected = λ b. refl; set = refl }

pub texts-IsCarried : IsCarried texts (pos 60) zero_time
texts-IsCarried = record { duration = refl; time = refl }

pub cat-IsRouted : IsRouted {W = Assoc Bytes} kit "cat"
cat-IsRouted = record { files = refl; replicas = refl; apart = refl }

kit-FindsConfig : FindsConfig {W = Assoc Bytes} kit
kit-FindsConfig = record { config = refl; not_files = refl; not_replicas = refl }

abbrev pub node_config : Config
node_config = record {
  port = pos 3805;
  volumes = "/v" ∷ [];
  remote = "";
  replica = pos 3;
  volume_downtime = pos 120000000000;
  name = "n0";
  cache = record { size = pos 200 };
  memberlist = record { port = pos 7946 };
  dashboard = record { port = pos 3806; enabled = true };
}

abbrev found : Option Bytes → Result Bytes
found none = err not_found
found (some b) = ok b

abbrev has : Option Bytes → Result (String × Bool)
has none = ok ("", false)
has (some b) = ok ("v0", true)

abbrev pub node : Service (Assoc Bytes)
node = record {
  create_file = λ key content rep ttl ca w. (ok tt, set w key content);
  get_file = λ key w. (found (look w key), w);
  delete_file = λ key w. (ok tt, cut w key);
  has_file = λ key w. (has (look w key), w);
  update_file_replica = λ key vids replica w. (err not_found, w);
  config = λ w. (ok node_config, w);
  create_replica = λ key content ttl ca w. (ok "v0", set w key content);
}

abbrev pub content : Bytes
content = 1 ∷ 2 ∷ []

abbrev host : Endpoints (Assoc Bytes)
host = make_endpoints kit texts (make_handler kit texts node)

abbrev pub session : Session (Assoc Bytes)
session = record {
  client = record { next_client = 0; clients = host ∷ [] };
  world = ("cat", content) ∷ ("void", []) ∷ [];
}

pub session-IsTurn : IsTurn kit texts node session.client session.client
unfolding get_client
session-IsTurn = record { turn = refl }

pub IsTold-ok : {A : Type 0} (a : A) → IsTold (ok a)
IsTold-ok a = record { has_text = λ e h. absurd (cc h); calm = λ h. cc h }

pub number : texts.atoi (texts.itoa (pos 2)) ≡ some (pos 2)
unfolding decimal digits
number = refl

get_file-remote_example : Methods.get_file "cat" session ≡ (ok content, session)
get_file-remote_example =
    get_file-remote kit kit-IsKit texts node session session.client session-IsTurn "cat"
      cat-IsRouted texts-IsTyped (IsTold-ok content)

has_file-remote_example : Methods.has_file "cat" session ≡ (ok ("v0", true), session)
has_file-remote_example =
    has_file-remote kit kit-IsKit texts node session session.client session-IsTurn "cat"
      cat-IsRouted (λ h. cc h)

config-remote_example : Methods.config session ≡ (
  ok (record node_config { volume_downtime = pos 0; cache = record { size = pos 0 } }),
  session,
)
config-remote_example =
    config-remote kit kit-IsKit texts node session session.client session-IsTurn kit-FindsConfig
      (IsTold-ok node_config)
