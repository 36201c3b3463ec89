-- ===== src/Exchange/Travel.antt =====
-- pkg/client/rpc.go and pkg/server/rpc.go: what a handler returns, as the client sees it.
use livekit_psrpc.Prelude.{
  ℕ, ◌≡◌, ◌≢◌, inl, inr, refl, ap, ◌∙◌, String, true, [], Option, none, some, ok, err,
  if◌then◌else◌, Bool-cases, ◌==◌, string_equality,
}
use livekit_psrpc.Errors.Codes
use livekit_psrpc.Errors.Translations.{error_code_from_grpc}
use livekit_psrpc.Errors.Value.{
  GoError, PsrpcError, Status, plain, psrpc, as_psrpc, message, new_error_from_response,
}
use livekit_psrpc.Exchange.Wire.{Response, Codec}
use livekit_psrpc.Exchange.Respond.{Returned, blank, fill_error, fill_response, send_response}
use livekit_psrpc.Exchange.Call.{receive}

module _ {M B D : Type 0} (codec : Codec M B D) (status_from_error : GoError D → Option (Status D))
    (request_id server_id : String) (now : ℕ) where
  abbrev pub sent : Returned M D → Response B D
  sent r = send_response codec status_from_error request_id server_id now r

  abbrev first : Response B D
  first = blank codec status_from_error request_id server_id now

  receive_error :
      (res : Response B D)
      → res.error ≢ ""
      → receive codec res
        ≡ err (
            psrpc
              (plain res.error)
              (if res.code == "" then Codes.unknown else res.code)
              res.error_details)
  unfolding receive new_error_from_response
  receive_error res h = elim (Bool-cases (res.error == "")) [
    | inl e ↦ absurd (h ((string_equality.decides _ _).0 e))
    | inr e ↦ rw e refl
  ]

  filled :
      (m : M) (b : B) (res : Response B D)
      → codec.serialize_payload m ≡ ok b
      → fill_response codec status_from_error m res ≡ record res { raw_response = b }
  unfolding fill_response
  filled m b res h = rw (h, fill_response) refl

  receive_bytes :
      (res : Response B D) (m : M)
      → res.error ≡ ""
      → codec.deserialize_payload res.raw_response ≡ ok m
      → receive codec res ≡ ok m
  unfolding receive
  receive_bytes res m e h =
      let silent : (res.error == "") ≡ true = (string_equality.decides _ _).1 e in
      rw silent rw h refl

  -- A message that the encoding gives back comes back from a handler that returns it with no error.
  pub response_travels :
      (m : M) (b : B)
      → codec.serialize_payload m ≡ ok b
      → codec.deserialize_payload b ≡ ok m
      → receive codec (sent (record { response = some m; error = none })) ≡ ok m
  unfolding send_response
  response_travels m b h k =
      ap (receive codec) (filled m b first h)
      ∙ receive_bytes (record first { raw_response = b }) m refl k

  fill_psrpc :
      (e : GoError D) (p : PsrpcError D) (res : Response B D)
      → as_psrpc e ≡ some p
      → fill_error codec status_from_error e res
        ≡ record res { error = message p.error; code = p.code; error_details = p.details }
  unfolding fill_error
  fill_psrpc e p res h = rw (h, fill_error) refl

  -- The first psrpc error in the chain of a handler's error, with a message that is not empty, reaches
  -- the client with its message, its details and its code (Unknown for an empty one), whatever the
  -- handler returned beside it.
  pub error_travels :
      (r : Option M) (e : GoError D) (p : PsrpcError D)
      → as_psrpc e ≡ some p
      → message p.error ≢ ""
      → receive codec (sent (record { response = r; error = some e }))
        ≡ err (
            psrpc
              (plain (message p.error))
              (if p.code == "" then Codes.unknown else p.code)
              p.details)
  unfolding send_response
  error_travels r e p h ne =
      ap (receive codec) (fill_psrpc e p first h)
      ∙ receive_error
          (record first { error = message p.error; code = p.code; error_details = p.details }) ne

  -- A psrpc error with an empty message does not reach the client: it sees the success whose message
  -- the empty payload decodes to.
  pub empty_error_lost :
      (r : Option M) (e : GoError D) (p : PsrpcError D) (m : M)
      → as_psrpc e ≡ some p
      → message p.error ≡ ""
      → codec.deserialize_payload codec.no_bytes ≡ ok m
      → receive codec (sent (record { response = r; error = some e })) ≡ ok m
  unfolding send_response
  empty_error_lost r e p m h empty k =
      ap (receive codec) (fill_psrpc e p first h)
      ∙ receive_bytes
          (record first { error = message p.error; code = p.code; error_details = p.details }) m
          empty k

  fill_foreign :
      (e : GoError D) (res : Response B D)
      → as_psrpc e ≡ none
      → status_from_error e ≡ none
      → fill_error codec status_from_error e res
        ≡ record res { error = message e; code = Codes.unknown }
  unfolding fill_error
  fill_foreign e res h k = rw (h, fill_error) rw k refl

  fill_status :
      (e : GoError D) (st : Status D) (res : Response B D)
      → as_psrpc e ≡ none
      → status_from_error e ≡ some st
      → fill_error codec status_from_error e res ≡ record res {
        error = st.message;
        code = error_code_from_grpc st.code;
        error_details = st.details;
      }
  unfolding fill_error
  fill_status e st res h k = rw (h, fill_error) rw k refl

  -- An error that is neither a psrpc error nor a gRPC status reaches the client as Unknown with its
  -- message, if that is not empty.
  pub foreign_error_travels :
      (r : Option M) (e : GoError D)
      → as_psrpc e ≡ none
      → status_from_error e ≡ none
      → message e ≢ ""
      → receive codec (sent (record { response = r; error = some e }))
        ≡ err (psrpc (plain (message e)) Codes.unknown [])
  unfolding send_response
  foreign_error_travels r e h k ne =
      ap (receive codec) (fill_foreign e first h k)
      ∙ receive_error (record first { error = message e; code = Codes.unknown }) ne

  -- An error that is a gRPC status, and no psrpc error, reaches the client with its details and with
  -- the code that its gRPC code is translated to, if its message is not empty.
  pub status_error_travels :
      (r : Option M) (e : GoError D) (st : Status D)
      → as_psrpc e ≡ none
      → status_from_error e ≡ some st
      → st.message ≢ ""
      → receive codec (sent (record { response = r; error = some e }))
        ≡ err (
            psrpc
              (plain st.message)
              (if error_code_from_grpc st.code == ""
                then Codes.unknown
                else error_code_from_grpc st.code)
              st.details)
  unfolding send_response
  status_error_travels r e st h k ne =
      ap (receive codec) (fill_status e st first h k)
      ∙ receive_error
          (record first {
            error = st.message;
            code = error_code_from_grpc st.code;
            error_details = st.details;
          })
          ne
