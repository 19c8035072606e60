-- ===== src/Remote/Files.antt =====
-- `CreateFile` and `DeleteFile` of a client, and those of the service that it reaches.
use rebost.Prelude.{String, ◌<>◌, ◌≡◌, refl, sym, some, [], ℤ}
use rebost.Platform.{Time, Bytes}
use rebost.Assoc.{set}
use rebost.Http.{put, delete, Request, Response, Kit, Texts, decode_json, bytes, rfc3339}
use rebost.Http.Laws.{IsKit, IsRouted, IsCarried, first_match}
use rebost.Server.{Service, Answer, answer, failed, CreateFileRequest}
use rebost.Server.Wire.{
  with_status, encode_error, read_body, decode_create_file_request, decode_key_request,
  encode_delete_file_response, encode_create_file_response,
}
use rebost.Server.Handler.{delete_file_endpoint, create_file_endpoint}
use rebost.Client.{Client}
use rebost.Client.Wire.{
  Endpoints, CreateFileCall, make_endpoints, encode_create_file_request,
  decode_create_file_response, encode_key_request, decode_delete_file_response,
}
use rebost.Client.Methods.{Session}
use rebost.Client.Methods
use rebost.Remote.{keyed, IsTold, IsTurn, ok_tt, reached, returned, refused, call-told}

module _ {W : Type 0} (kit : Kit W) (ik : IsKit kit) (t : Texts) (s : Service W) (sess : Session W)
    (c' : Client (Endpoints W)) (turn : IsTurn kit t s sess.client c') where
  pub create_file-remote :
      (key : String) (content : Bytes) (rep ttl : ℤ) (ca : Time)
      → IsRouted kit key
      → t.atoi (t.itoa rep) ≡ some rep
      → IsCarried t ttl ca
      → IsTold (s.create_file key content rep ttl ca sess.world).0
      → Methods.create_file key content rep ttl ca sess ≡ (
        (s.create_file key content rep ttl ca sess.world).0,
        record { client = c'; world = (s.create_file key content rep ttl ca sess.world).1 },
      )
  unfolding Methods.create_file make_endpoints encode_create_file_request
      decode_create_file_response decode_create_file_request encode_create_file_response read_body
      decode_json first_match
  create_file-remote key content rep ttl ca routed number carried told =
      let sent : CreateFileCall = record {
        key = key;
        iorc = content;
        replica = rep;
        ttl = ttl;
        created_at = ca;
      } in
      let got : CreateFileRequest = record {
        key = key;
        body = content;
        replica = rep;
        ttl = ttl;
        created_at = ca;
      } in
      let r : Request = record {
        method = put;
        path = "/files" <> "/" <> key;
        query =
            set (set (set [] "replica" (t.itoa rep)) "ttl" (t.duration_text ttl)) "created_at"
              (t.format_time rfc3339 ca);
        body = bytes content;
        key = "";
      } in
      let go = λ (a : Answer (Unit {0})) (x : Response).
        reached kit t s ik put "/files" (encode_create_file_request t)
          (decode_create_file_response t) (decode_create_file_request t) (create_file_endpoint s)
          encode_create_file_response sent sess.world r key got a x refl (rw routed.files refl)
          (rw (number, carried.duration, carried.time) refl) in
      call-told kit t s sess (λ c. c.create_file sent) (s.create_file key content rep ttl ca) _ turn
        told
        (λ a e.
          returned kit t s (sym (ok_tt a e)) (go (answer a) (with_status 201) (rw e refl) refl))
        (λ x e h. refused kit t s e h (go (failed x) (encode_error x) (rw e refl) refl))

  -- `DeleteFile` of a client is that of the service at its host.
  pub delete_file-remote :
      (key : String)
      → IsRouted kit key
      → IsTold (s.delete_file key sess.world).0
      → Methods.delete_file key sess ≡ (
        (s.delete_file key sess.world).0,
        record { client = c'; world = (s.delete_file key sess.world).1 },
      )
  unfolding Methods.delete_file make_endpoints encode_key_request decode_delete_file_response
      decode_key_request encode_delete_file_response decode_json first_match
  delete_file-remote key routed told =
      let go = λ (a : Answer (Unit {0})) (x : Response).
        reached kit t s ik delete "/files" encode_key_request (decode_delete_file_response t)
          decode_key_request (delete_file_endpoint s) encode_delete_file_response
          (record { key = key }) sess.world (keyed delete "/files" key) key (record { key = key }) a
          x refl (rw routed.files refl) refl in
      call-told kit t s sess (λ c. c.delete_file (record { key = key })) (s.delete_file key) _ turn
        told
        (λ a e.
          returned kit t s (sym (ok_tt a e)) (go (answer a) (with_status 204) (rw e refl) refl))
        (λ x e h. refused kit t s e h (go (failed x) (encode_error x) (rw e refl) refl))
