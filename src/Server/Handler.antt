-- ===== src/Server/Handler.antt =====
-- storing/endpoint.go and `MakeHandler` of storing/transport.go.
use rebost.Prelude.{String, Bool, some, List, [], ◌∷◌}
use rebost.Exec.{Result, ok, err, panic, Exec}
use rebost.Platform.{Bytes}
use rebost.Config.{Config}
use rebost.Model.{config_to_model}
use rebost.Http.{
  put, get, delete, head, patch, Json, error_json, config_json, volume_json, json, Handler, Route,
  Kit, Texts,
}
use rebost.Server.{
  Service, CreateFileRequest, CreateReplicaRequest, UpdateFileReplicaRequest, KeyRequest, Answer,
  catch,
}
use rebost.Server.Wire.{
  decode_create_file_request, decode_create_replica_request, decode_key_request,
  decode_get_config_request, decode_update_file_replica_request, encode_create_file_response,
  encode_delete_file_response, encode_update_file_replica_response, encode_get_file_response,
  encode_has_file_response, encode_json_response,
}

-- The data of a response.
abbrev pub config_data : Result Config → Result Json
config_data (ok c) = ok (config_json (config_to_model c))
config_data (err e) = err e
config_data panic = panic

abbrev pub volume_data : Result String → Result Json
volume_data (ok v) = ok (volume_json v)
volume_data (err e) = err e
volume_data panic = panic

module _ {W : Type 0} (s : Service W) where
  abbrev pub create_file_endpoint : CreateFileRequest → Exec W (Answer (Unit {0}))
  create_file_endpoint q = catch (s.create_file q.key q.body q.replica q.ttl q.created_at)

  abbrev pub get_file_endpoint : KeyRequest → Exec W (Answer Bytes)
  get_file_endpoint q = catch (s.get_file q.key)

  abbrev pub delete_file_endpoint : KeyRequest → Exec W (Answer (Unit {0}))
  delete_file_endpoint q = catch (s.delete_file q.key)

  -- The one endpoint that returns the error of the service.
  abbrev pub has_file_endpoint : KeyRequest → Exec W (String × Bool)
  has_file_endpoint q = s.has_file q.key

  abbrev pub update_file_replica_endpoint : UpdateFileReplicaRequest → Exec W (Answer (Unit {0}))
  update_file_replica_endpoint q = catch (s.update_file_replica q.key q.volume_ids q.replica)

  abbrev pub get_config_endpoint : Unit {0} → Exec W (Answer Json)
  get_config_endpoint q = catch (λ w. let (r, w') = s.config w in (config_data r, w'))

  abbrev pub create_replica_endpoint : CreateReplicaRequest → Exec W (Answer Json)
  create_replica_endpoint q =
      catch (λ w.
        let (r, w') = s.create_replica q.key q.body q.ttl q.created_at w in (volume_data r, w'))

-- `MakeHandler`
module _ {W : Type 0} (kit : Kit W) (t : Texts) (s : Service W) where
  -- A path that no route has. What is written is taken for plain text.
  abbrev pub not_found_handler : Handler W
  not_found_handler r w = (
    ok (record {
      status = 404;
      content_type = some "text/plain; charset=utf-8";
      volume_id = "";
      body = json (error_json "Path not found");
    }),
    w,
  )

  abbrev pub create_file_handler : Handler W
  create_file_handler =
      kit.server (decode_create_file_request t) (create_file_endpoint s) encode_create_file_response

  abbrev pub get_file_handler : Handler W
  get_file_handler =
      kit.server decode_key_request (get_file_endpoint s) (encode_get_file_response t)

  abbrev pub delete_file_handler : Handler W
  delete_file_handler =
      kit.server decode_key_request (delete_file_endpoint s) encode_delete_file_response

  abbrev pub has_file_handler : Handler W
  has_file_handler = kit.server decode_key_request (has_file_endpoint s) encode_has_file_response

  abbrev pub create_replica_handler : Handler W
  create_replica_handler =
      kit.server (decode_create_replica_request t) (create_replica_endpoint s) encode_json_response

  abbrev pub update_file_replica_handler : Handler W
  update_file_replica_handler =
      kit.server (decode_update_file_replica_request t) (update_file_replica_endpoint s)
        encode_update_file_replica_response

  abbrev pub get_config_handler : Handler W
  get_config_handler =
      kit.server decode_get_config_request (get_config_endpoint s) encode_json_response

  abbrev pub routes : List (Route W)
  routes =
      record { template = "/files/{key:.*}"; method = put; handler = create_file_handler }
      ∷ record { template = "/files/{key:.*}"; method = get; handler = get_file_handler }
      ∷ record { template = "/files/{key:.*}"; method = delete; handler = delete_file_handler }
      ∷ record { template = "/files/{key:.*}"; method = head; handler = has_file_handler }
      ∷ record { template = "/replicas/{key:.*}"; method = put; handler = create_replica_handler }
      ∷ record {
        template = "/replicas/{key:.*}";
        method = patch;
        handler = update_file_replica_handler;
      }
      ∷ record { template = "/config"; method = get; handler = get_config_handler }
      ∷ []

  unfoldable pub make_handler : Handler W
  make_handler = kit.router routes not_found_handler
