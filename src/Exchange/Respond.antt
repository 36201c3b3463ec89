-- ===== src/Exchange/Respond.antt =====
-- pkg/server/rpc.go: `sendResponse` and `handleRequest`, the server's side of a request.
use livekit_psrpc.Prelude.{ℕ, String, [], Option, none, some, ok, err}
use livekit_psrpc.Errors.Codes.{ErrorCode}
use livekit_psrpc.Errors.Codes
use livekit_psrpc.Errors.Translations.{error_code_from_grpc}
use livekit_psrpc.Errors.Value.{GoError, Status, as_psrpc, message}
use livekit_psrpc.Exchange.Wire.{Response, Codec}

-- A response and an error, as a handler returns them: either may be nil.
pub record Returned (M D : Type 0) : Type 0 where
  pub response : Option M
  pub error : Option (GoError D)

-- What a server does on a request: it publishes a response or not, and what it returns.
pub record Handled (B D : Type 0) : Type 0 where
  pub published : Option (Response B D)
  pub result : Option (GoError D)

module _ {M B D : Type 0} (codec : Codec M B D)
    (status_from_error : GoError D → Option (Status D)) where
  abbrev pub blank : String → String → ℕ → Response B D
  blank request_id server_id now = record {
    request_id = request_id;
    server_id = server_id;
    sent_at = now;
    raw_response = codec.no_bytes;
    error = "";
    code = "";
    error_details = [];
  }

  -- The fields of an error: of the psrpc error in its chain, else of a gRPC status that is not OK, else
  -- Unknown. `status_from_error` is google.golang.org/grpc/status.FromError with such a status.
  unfoldable pub fill_error : GoError D → Response B D → Response B D
  unfolding as_psrpc message error_code_from_grpc
  fill_error e res = elim (as_psrpc e) [
    | some p ↦ record res { error = message p.error; code = p.code; error_details = p.details }
    | none ↦ elim (status_from_error e) [
      | some st ↦ record res {
        error = st.message;
        code = error_code_from_grpc st.code;
        error_details = st.details;
      }
      | none ↦ record res { error = message e; code = Codes.unknown }
    ]
  ]

  unfoldable pub fill_response : M → Response B D → Response B D
  unfolding message
  fill_response m res = elim (codec.serialize_payload m) [
    | ok b ↦ record res { raw_response = b }
    | err e ↦ record res { error = message e; code = Codes.malformed_response }
  ]

  -- The response that `sendResponse` publishes.
  unfoldable pub send_response : String → String → ℕ → Returned M D → Response B D
  unfolding fill_error fill_response
  send_response request_id server_id now r = elim r.error [
    | some e ↦ fill_error e (blank request_id server_id now)
    | none ↦ elim r.response [
      | some m ↦ fill_response m (blank request_id server_id now)
      | none ↦ blank request_id server_id now
    ]
  ]
