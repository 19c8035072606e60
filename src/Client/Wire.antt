-- ===== src/Client/Wire.antt =====
-- client/transport.go and client/endpoint.go: the requests of a client and the responses that it reads.
use rebost.Prelude.{
  String, ◌<>◌, Bool, false, Option, none, some, List, [], ℤ, pos, eqb, if◌then◌else◌,
}
use rebost.Exec.{Error, Result, ok, err, panic, Exec}
use rebost.Platform.{Time, Bytes}
use rebost.Assoc.{set}
use rebost.Model.{ModelConfig}
use rebost.Http.{
  put, get, delete, head, patch, Json, error_json, config_json, volume_json, replica_json, Body,
  empty, bytes, text, json, multipart, Request, Response, Handler, Kit, Texts, rfc3339, decode_json,
}

pub record CreateFileCall : Type 0 where
  pub key : String
  pub iorc : Bytes
  pub replica : ℤ
  pub ttl : ℤ
  pub created_at : Time

pub record CreateReplicaCall : Type 0 where
  pub key : String
  pub iorc : Bytes
  pub ttl : ℤ
  pub created_at : Time

pub record UpdateFileReplica : Type 0 where
  pub volume_ids : List String
  pub replica : ℤ

pub record UpdateFileReplicaCall : Type 0 where
  pub key : String
  pub update_file_replica : UpdateFileReplica

pub record KeyCall : Type 0 where
  pub key : String

-- A response: `Err`, empty where there is none, beside what else it has.
pub record Reply (A : Type 0) : Type 0 where
  pub value : A
  pub error : Error

pub record HasFileReply : Type 0 where
  pub has : Bool
  pub volume_id : String

abbrev pub with_key : Request → String → Request
with_key r key = record r { path = r.path <> "/" <> key }

-- `encodeHasFileRequest`, `encodeGetFileRequest` and `encodeDeleteFileRequest`
unfoldable pub encode_key_request : Request → KeyCall → Result Request
encode_key_request r q = ok (with_key r q.key)

unfoldable pub encode_get_config_request : Request → Unit {0} → Result Request
encode_get_config_request r q = ok r

unfoldable pub encode_create_file_request : Texts → Request → CreateFileCall → Result Request
encode_create_file_request t r q = ok (record (with_key r q.key) {
  query =
      set (set (set r.query "replica" (t.itoa q.replica)) "ttl" (t.duration_text q.ttl))
        "created_at" (t.format_time rfc3339 q.created_at);
  body = bytes q.iorc;
})

unfoldable pub encode_create_replica_request : Texts → Request → CreateReplicaCall → Result Request
encode_create_replica_request t r q = ok (record (with_key r q.key) {
  query =
      set (set r.query "ttl" (t.duration_text q.ttl)) "created_at"
        (t.format_time rfc3339 q.created_at);
  body = bytes q.iorc;
})

unfoldable pub encode_update_file_replica_request : Request → UpdateFileReplicaCall → Result Request
encode_update_file_replica_request r q = ok (record (with_key r q.key) {
  body = json (replica_json q.update_file_replica.volume_ids q.update_file_replica.replica);
})

-- What the text has of the fields `error`, `data` of a replica and `data` of a configuration.
abbrev pub error_of : Json → Error
error_of (error_json e) = e
error_of (config_json c) = ""
error_of (volume_json v) = ""
error_of (replica_json vids n) = ""

abbrev pub volume_of : Json → String
volume_of (volume_json v) = v
volume_of (error_json e) = ""
volume_of (config_json c) = ""
volume_of (replica_json vids n) = ""

abbrev pub no_config : ModelConfig
no_config = record {
  port = pos 0;
  volumes = [];
  remote = "";
  replica = pos 0;
  name = "";
  memberlist = record { port = pos 0 };
  dashboard = record { port = pos 0; enabled = false };
}

abbrev pub config_of : Json → ModelConfig
config_of (config_json c) = c
config_of (error_json e) = no_config
config_of (volume_json v) = no_config
config_of (replica_json vids n) = no_config

abbrev pub reply_of : {A : Type 0} → (Json → A) → Result Json → Result (Reply A)
reply_of f (ok j) = ok (record { value = f j; error = error_of j })
reply_of f (err e) = err e
reply_of f panic = panic

abbrev pub nothing : Json → Unit {0}
nothing j = tt

unfoldable pub decode_create_file_response : Texts → Response → Result (Reply (Unit {0}))
unfolding decode_json
decode_create_file_response t r =
    if eqb r.status 201
    then ok (record { value = tt; error = "" })
    else reply_of nothing (decode_json t r.body)

unfoldable pub decode_delete_file_response : Texts → Response → Result (Reply (Unit {0}))
unfolding decode_json
decode_delete_file_response t r =
    if eqb r.status 204
    then ok (record { value = tt; error = "" })
    else reply_of nothing (decode_json t r.body)

unfoldable pub decode_update_file_replica_response : Texts → Response → Result (Reply (Unit {0}))
unfolding decode_json
decode_update_file_replica_response t r =
    if eqb r.status 200
    then ok (record { value = tt; error = "" })
    else reply_of nothing (decode_json t r.body)

-- The status tells whether the file is there; the body of a HEAD request is empty.
unfoldable pub decode_has_file_response : Response → Result (Reply HasFileReply)
decode_has_file_response r =
    ok (record { value = record { has = eqb r.status 204; volume_id = r.volume_id }; error = "" })

abbrev pub content_of : Texts → Body → Bytes
content_of t (bytes b) = b
content_of t empty = []
content_of t (text s) = t.raw (text s)
content_of t (json j) = t.raw (json j)
content_of t (multipart ps) = t.raw (multipart ps)

-- `r.Header["Content-Type"][0]` panics where the header is not there.
abbrev pub typed_reply : Texts → Body → Option String → Result (Reply Bytes)
typed_reply t b none = panic
typed_reply t b (some ty) =
    if t.is_json_type ty
    then reply_of (λ _. []) (decode_json t b)
    else ok (record { value = content_of t b; error = "" })

unfoldable pub decode_get_file_response : Texts → Response → Result (Reply Bytes)
unfolding decode_json
decode_get_file_response t r = typed_reply t r.body r.content_type

unfoldable pub decode_get_config_response : Texts → Response → Result (Reply ModelConfig)
unfolding decode_json
decode_get_config_response t r = reply_of config_of (decode_json t r.body)

unfoldable pub decode_create_replica_response : Texts → Response → Result (Reply String)
unfolding decode_json
decode_create_replica_response t r = reply_of volume_of (decode_json t r.body)

-- The endpoints of one host, of which `net` is the handler that its requests reach.
pub record Endpoints (W : Type 0) : Type 0 where
  pub create_file : CreateFileCall → Exec W (Reply (Unit {0}))
  pub get_file : KeyCall → Exec W (Reply Bytes)
  pub delete_file : KeyCall → Exec W (Reply (Unit {0}))
  pub has_file : KeyCall → Exec W (Reply HasFileReply)
  pub get_config : Unit {0} → Exec W (Reply ModelConfig)
  pub create_replica : CreateReplicaCall → Exec W (Reply String)
  pub update_file_replica : UpdateFileReplicaCall → Exec W (Reply (Unit {0}))

unfoldable pub make_endpoints : {W : Type 0} → Kit W → Texts → Handler W → Endpoints W
make_endpoints kit t net = record {
  create_file =
      kit.client net put "/files" (encode_create_file_request t) (decode_create_file_response t);
  get_file = kit.client net get "/files" encode_key_request (decode_get_file_response t);
  delete_file = kit.client net delete "/files" encode_key_request (decode_delete_file_response t);
  has_file = kit.client net head "/files" encode_key_request decode_has_file_response;
  get_config =
      kit.client net get "/config" encode_get_config_request (decode_get_config_response t);
  create_replica =
      kit.client net put "/replicas" (encode_create_replica_request t)
        (decode_create_replica_response t);
  update_file_replica =
      kit.client net patch "/replicas" encode_update_file_replica_request
        (decode_update_file_replica_response t);
}
