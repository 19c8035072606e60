-- ===== src/Remote/Reads.antt =====
-- `GetFile` and `HasFile` of a client, and those of the service that it reaches.
use rebost.Prelude.{String, ◌≡◌, ◌≢◌, refl, ◌∙◌, Bool, true, false, [], ◌∷◌}
use rebost.Exec.{Result, ok, err, panic}
use rebost.Platform.{Bytes}
use rebost.Http.{get, head, Response, Kit, Texts, decode_json}
use rebost.Http.Laws.{IsKit, IsRouted, IsTyped, first_match}
use rebost.Server.{Service, Answer, answer, failed}
use rebost.Server.Wire.{
  encode_error, decode_key_request, encode_get_file_response, encode_has_file_response,
}
use rebost.Server.Handler.{make_handler, get_file_endpoint, has_file_endpoint}
use rebost.Client.{Client}
use rebost.Client.Wire.{
  Endpoints, HasFileReply, make_endpoints, encode_key_request, decode_get_file_response,
  decode_has_file_response,
}
use rebost.Client.Methods.{Session}
use rebost.Client.Methods
use rebost.Remote.{
  keyed, IsTold, IsTurn, Replies, reached, reached_failed, refused, call-reply, call-told,
}

-- What a client makes of a content: of the empty one, whose response has no type, it panics.
abbrev pub received : Result Bytes → Result Bytes
received (ok []) = panic
received (ok (b ∷ bs)) = ok (b ∷ bs)
received (err e) = err e
received panic = panic

-- What a client makes of the answer to `HasFile`.
abbrev pub shown : Result (String × Bool) → String × Bool
shown (ok (vid, has)) = (vid, has)
shown (err e) = ("", false)
shown panic = ("", false)

abbrev pub has_reply : Result (String × Bool) → HasFileReply
has_reply r = record { has = (shown r).1; volume_id = (shown r).0 }

module _ {W : Type 0} (kit : Kit W) (ik : IsKit kit) (t : Texts) (s : Service W) (sess : Session W)
    (c' : Client (Endpoints W)) (turn : IsTurn kit t s sess.client c') where
  module _ (key : String) (routed : IsRouted kit key) where
    got :
        (a : Answer Bytes) (x : Response)
        → (get_file_endpoint s (record { key = key }) sess.world).0 ≡ ok a
        → encode_get_file_response t a ≡ ok x
        → kit.client
            (make_handler kit t s)
            get
            "/files"
            encode_key_request
            (decode_get_file_response t)
            (record { key = key })
            sess.world
          ≡ (decode_get_file_response t x, (s.get_file key sess.world).1)
    unfolding encode_key_request decode_key_request first_match
    got a x e ex =
        reached kit t s ik get "/files" encode_key_request (decode_get_file_response t)
          decode_key_request (get_file_endpoint s) (encode_get_file_response t)
          (record { key = key }) sess.world (keyed get "/files" key) key (record { key = key }) a x
          refl (rw routed.files refl) refl e ex

    got_content :
        IsTyped t
        → (content : Bytes) → (s.get_file key sess.world).0 ≡ ok content
        → Replies kit t s
            (λ c. c.get_file (record { key = key }))
            sess.world
            (s.get_file key sess.world).1
            (received (s.get_file key sess.world).0)
    unfolding make_endpoints decode_get_file_response encode_get_file_response
    got_content typed [] e = record {
      reply = panic;
      shows = rw e refl;
      returns = got (answer []) _ (rw e refl) refl;
    }
    got_content typed (b ∷ bs) e = record {
      reply = ok (record { value = b ∷ bs; error = "" });
      shows = rw e refl;
      returns = got (answer (b ∷ bs)) _ (rw e refl) refl ∙ rw (typed.detected (b ∷ bs)) refl;
    }

    -- `GetFile` of a client is that of the service at its host, but of an empty content: on that one
    -- the client panics. The router reads the key back, no content is taken for JSON, and the service
    -- neither panics nor returns an error without a text.
    pub get_file-remote :
        IsTyped t
        → IsTold (s.get_file key sess.world).0
        → Methods.get_file key sess ≡ (
          received (s.get_file key sess.world).0,
          record { client = c'; world = (s.get_file key sess.world).1 },
        )
    unfolding Methods.get_file make_endpoints decode_get_file_response encode_get_file_response
        decode_json
    get_file-remote typed told =
        call-told kit t s sess (λ c. c.get_file (record { key = key })) (s.get_file key) _ turn told
          (got_content typed)
          (λ x e h.
            refused kit t s {b = []} (rw e refl) h
              (got (failed x) (encode_error x) (rw e refl) refl ∙ rw typed.set refl))

    has_returned :
        (r : Result (String × Bool))
        → (s.has_file key sess.world).0 ≡ r
        → r ≢ panic
        → kit.client
            (make_handler kit t s)
            head
            "/files"
            encode_key_request
            decode_has_file_response
            (record { key = key })
            sess.world
          ≡ (ok (record { value = has_reply r; error = "" }), (s.has_file key sess.world).1)
    unfolding encode_key_request decode_key_request first_match decode_has_file_response
        encode_has_file_response
    has_returned (ok (vid, true)) e calm =
        reached kit t s ik head "/files" encode_key_request decode_has_file_response
          decode_key_request (has_file_endpoint s) encode_has_file_response (record { key = key })
          sess.world (keyed head "/files" key) key (record { key = key }) (vid, true) _ refl
          (rw routed.files refl) refl e refl
    has_returned (ok (vid, false)) e calm =
        reached kit t s ik head "/files" encode_key_request decode_has_file_response
          decode_key_request (has_file_endpoint s) encode_has_file_response (record { key = key })
          sess.world (keyed head "/files" key) key (record { key = key }) (vid, false) _ refl
          (rw routed.files refl) refl e refl
    has_returned (err x) e calm =
        reached_failed kit t s ik head "/files" encode_key_request decode_has_file_response
          decode_key_request (has_file_endpoint s) encode_has_file_response (record { key = key })
          sess.world (keyed head "/files" key) key (record { key = key }) x refl
          (rw routed.files refl) refl e
    has_returned panic e calm = absurd (calm refl)

    -- `HasFile` of a client is that of the service at its host, but for an error of the service: of
    -- that one the client makes the answer that the file is not there, with no error.
    pub has_file-remote :
        (s.has_file key sess.world).0 ≢ panic
        → Methods.has_file key sess ≡ (
          ok (shown (s.has_file key sess.world).0),
          record { client = c'; world = (s.has_file key sess.world).1 },
        )
    unfolding Methods.has_file make_endpoints
    has_file-remote calm =
        rw
          (call-reply kit t s sess (λ c. c.has_file (record { key = key }))
            (ok (record { value = has_reply (s.has_file key sess.world).0; error = "" }))
            (s.has_file key sess.world).1 turn (has_returned _ refl calm))
          refl
