-- ===== src/Server/Wire.antt =====
-- storing/transport.go: what the node reads from a request, and the response that it writes.
use rebost.Prelude.{ℕ, String, Bool, Option, none, some, List, [], ◌∷◌, ◌++◌, ℤ, pos, if◌then◌else◌}
use rebost.Exec.{Error, Result, ok, err, panic}
use rebost.Platform.{Time, Bytes, zero_time}
use rebost.Http.{
  Json, error_json, config_json, volume_json, replica_json, Body, empty, bytes, text, json,
  multipart, Request, Response, Texts, rfc3339, json_type, query_get, decode_json,
}
use rebost.Server.{
  CreateFileRequest, CreateReplicaRequest, UpdateFileReplicaRequest, KeyRequest, Answer, answer,
  failed,
}

-- The multipart reader's parts one after the other, or the body itself.
unfoldable pub joined : List Bytes → Bytes
joined [] = []
joined (p ∷ ps) = p ++ joined ps

unfoldable pub read_body : Texts → Body → Bytes
unfolding joined
read_body t (bytes b) = b
read_body t (multipart ps) = joined ps
read_body t empty = []
read_body t (text s) = t.raw (text s)
read_body t (json j) = t.raw (json j)

-- A parameter that is missing or that cannot be read has its default.
abbrev pub or_default : {A : Type 0} → A → Option A → A
or_default d none = d
or_default d (some a) = a

abbrev pub replica_param : Texts → Request → ℤ
replica_param t r = or_default (pos 0) (t.atoi (query_get r "replica"))

abbrev pub ttl_param : Texts → Request → ℤ
ttl_param t r = or_default (pos 0) (t.parse_duration (query_get r "ttl"))

abbrev pub created_at_param : Texts → Request → Time
created_at_param t r = or_default zero_time (t.parse_time rfc3339 (query_get r "created_at"))

unfoldable pub decode_create_file_request : Texts → Request → Result CreateFileRequest
unfolding read_body
decode_create_file_request t r = ok (record {
  key = r.key;
  body = read_body t r.body;
  replica = replica_param t r;
  ttl = ttl_param t r;
  created_at = created_at_param t r;
})

unfoldable pub decode_create_replica_request : Texts → Request → Result CreateReplicaRequest
unfolding read_body
decode_create_replica_request t r = ok (record {
  key = r.key;
  body = read_body t r.body;
  ttl = ttl_param t r;
  created_at = created_at_param t r;
})

-- `decodeGetFileRequest`, `decodeDeleteFileRequest` and `decodeHasFileRequest`
unfoldable pub decode_key_request : Request → Result KeyRequest
decode_key_request r = ok (record { key = r.key })

unfoldable pub decode_get_config_request : Request → Result (Unit {0})
decode_get_config_request r = ok tt

-- The fields that the text does not have are empty.
abbrev pub update_of : Json → List String × ℤ
update_of (replica_json vids replica) = (vids, replica)
update_of (error_json e) = ([], pos 0)
update_of (config_json c) = ([], pos 0)
update_of (volume_json v) = ([], pos 0)

abbrev pub update_request : String → Result Json → Result UpdateFileReplicaRequest
update_request key (ok j) =
    let (vids, replica) = update_of j in
    ok (record { key = key; replica = replica; volume_ids = vids })
update_request key (err e) = err e
update_request key panic = panic

unfoldable pub decode_update_file_replica_request :
    Texts → Request → Result UpdateFileReplicaRequest
unfolding decode_json
decode_update_file_replica_request t r = update_request r.key (decode_json t r.body)

-- `encodeError`
abbrev pub encode_error : Error → Response
encode_error e = record {
  status = 500;
  content_type = some json_type;
  volume_id = "";
  body = json (error_json e);
}

abbrev pub with_status : ℕ → Response
with_status n = record { status = n; content_type = none; volume_id = ""; body = empty }

unfoldable pub encode_create_file_response : Answer (Unit {0}) → Result Response
encode_create_file_response (answer _) = ok (with_status 201)
encode_create_file_response (failed e) = ok (encode_error e)

unfoldable pub encode_delete_file_response : Answer (Unit {0}) → Result Response
encode_delete_file_response (answer _) = ok (with_status 204)
encode_delete_file_response (failed e) = ok (encode_error e)

unfoldable pub encode_update_file_replica_response : Answer (Unit {0}) → Result Response
encode_update_file_replica_response (answer _) = ok (with_status 200)
encode_update_file_replica_response (failed e) = ok (encode_error e)

-- net/http adds the type of what is written first; of an empty content nothing is written.
abbrev pub detected : Texts → Bytes → Option String
detected t [] = none
detected t (b ∷ bs) = some (t.detect (b ∷ bs))

unfoldable pub encode_get_file_response : Texts → Answer Bytes → Result Response
encode_get_file_response t (answer content) = ok (record {
  status = 200;
  content_type = detected t content;
  volume_id = "";
  body = bytes content;
})
encode_get_file_response t (failed e) = ok (encode_error e)

unfoldable pub encode_has_file_response : String × Bool → Result Response
encode_has_file_response (vid, has) = ok (record {
  status = if has then 204 else 404;
  content_type = none;
  volume_id = vid;
  body = empty;
})

-- `encodeJSONResponse` of the two responses that have data.
unfoldable pub encode_json_response : Answer Json → Result Response
encode_json_response (answer j) =
    ok (record { status = 200; content_type = some json_type; volume_id = ""; body = json j })
encode_json_response (failed e) = ok (encode_error e)
