-- ===== src/Remote/Nodes.antt =====
-- The methods of a client that the nodes call on one another.
use rebost.Prelude.{String, ◌<>◌, ◌≡◌, refl, sym, inl, inr, List, [], ℤ, pos}
use rebost.Exec.{Result-cases, Result, ok, err, panic}
use rebost.Config.{Config}
use rebost.Model.{ModelConfig, to_config, config_to_model}
use rebost.Http.{
  get, patch, Json, config_json, replica_json, Request, Response, Kit, Texts, decode_json, empty,
  json,
}
use rebost.Http.Laws.{IsKit, IsRouted, FindsConfig, first_match}
use rebost.Server.{Service, Answer, answer, failed, UpdateFileReplicaRequest}
use rebost.Server.Wire.{
  with_status, encode_error, decode_update_file_replica_request,
  encode_update_file_replica_response, decode_get_config_request, encode_json_response,
}
use rebost.Server.Handler.{update_file_replica_endpoint, get_config_endpoint}
use rebost.Client.{Client}
use rebost.Client.Wire.{
  Endpoints, no_config, UpdateFileReplicaCall, make_endpoints, encode_update_file_replica_request,
  decode_update_file_replica_response, encode_get_config_request, decode_get_config_response,
}
use rebost.Client.Methods.{Session}
use rebost.Client.Methods
use rebost.Remote.{IsTold, IsTurn, ok_tt, reached, returned, refused, call-told}

-- What the client knows of the configuration of a node, and what is sent of it.
abbrev pub known : Result Config → Result Config
known (ok c) = ok (record c { volume_downtime = pos 0; cache = record { size = pos 0 } })
known (err e) = err e
known panic = panic

abbrev modelled : Result Config → Result ModelConfig
modelled (ok c) = ok (config_to_model c)
modelled (err e) = err e
modelled panic = panic

module _ {W : Type 0} (kit : Kit W) (ik : IsKit kit) (t : Texts) (s : Service W) (sess : Session W)
    (c' : Client (Endpoints W)) (turn : IsTurn kit t s sess.client c') where
  -- `UpdateFileReplica` of a client is that of the service at its host.
  update_file_replica-remote :
      (key : String) (vids : List String) (replica : ℤ)
      → IsRouted kit key
      → IsTold (s.update_file_replica key vids replica sess.world).0
      → Methods.update_file_replica key vids replica sess ≡ (
        (s.update_file_replica key vids replica sess.world).0,
        record { client = c'; world = (s.update_file_replica key vids replica sess.world).1 },
      )
  unfolding Methods.update_file_replica make_endpoints encode_update_file_replica_request
      decode_update_file_replica_response decode_update_file_replica_request
      encode_update_file_replica_response decode_json first_match
  update_file_replica-remote key vids replica routed told =
      let sent : UpdateFileReplicaCall = record {
        key = key;
        update_file_replica = record { volume_ids = vids; replica = replica };
      } in
      let got : UpdateFileReplicaRequest = record {
        key = key;
        replica = replica;
        volume_ids = vids;
      } in
      let r : Request = record {
        method = patch;
        path = "/replicas" <> "/" <> key;
        query = [];
        body = json (replica_json vids replica);
        key = "";
      } in
      let go = λ (a : Answer (Unit {0})) (x : Response).
        reached kit t s ik patch "/replicas" encode_update_file_replica_request
          (decode_update_file_replica_response t) (decode_update_file_replica_request t)
          (update_file_replica_endpoint s) encode_update_file_replica_response sent sess.world r key
          got a x refl (rw (routed.apart, routed.replicas) refl) refl in
      call-told kit t s sess (λ c. c.update_file_replica sent)
        (s.update_file_replica key vids replica) _ turn told
        (λ a e.
          returned kit t s (sym (ok_tt a e)) (go (answer a) (with_status 200) (rw e refl) refl))
        (λ x e h. refused kit t s e h (go (failed x) (encode_error x) (rw e refl) refl))

  -- `Config` of a client is that of the service at its host, without the downtime of volumes and the
  -- size of the cache, where the router finds the path and the service neither panics nor returns an
  -- error without a text.
  pub config-remote :
      FindsConfig kit
      → IsTold (s.config sess.world).0
      → Methods.config sess
        ≡ (known (s.config sess.world).0, record { client = c'; world = (s.config sess.world).1 })
  unfolding Methods.config make_endpoints encode_get_config_request decode_get_config_response
      decode_get_config_request encode_json_response decode_json first_match to_config
      config_to_model
  config-remote found told =
      let r : Request = record {
        method = get;
        path = "/config";
        query = [];
        body = empty;
        key = "";
      } in
      let go = λ (a : Answer Json) (x : Response).
        reached kit t s ik get "/config" encode_get_config_request (decode_get_config_response t)
          decode_get_config_request (get_config_endpoint s) encode_json_response tt sess.world r ""
          tt a x refl (rw (found.not_files, found.not_replicas, found.config) refl) refl in
      rw
        (call-told kit t s sess (λ c. c.get_config tt) s.config (modelled (s.config sess.world).0)
          turn told
          (λ c e.
            returned kit t s (rw e refl)
              (go (answer (config_json (config_to_model c))) _ (rw e refl) refl))
          (λ x e h.
            refused kit t s {b = no_config} (rw e refl) h
              (go (failed x) (encode_error x) (rw e refl) refl)))
        (elim (Result-cases (s.config sess.world).0) [
          | inl (c, e) ↦ rw e refl
          | inr (inl (x, e)) ↦ rw e refl
          | inr (inr e) ↦ rw e refl
        ])
