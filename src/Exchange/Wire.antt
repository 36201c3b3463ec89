-- ===== src/Exchange/Wire.antt =====
-- internal/internal.proto and internal/bus/serialization.go: the messages of a request, and the
-- encoding of a payload, which the protobuf library does and stands here as a parameter.
use livekit_psrpc.Prelude.{ℕ, String, Bool, List, Result}
use livekit_psrpc.Errors.Codes.{ErrorCode}
use livekit_psrpc.Errors.Value.{GoError}

pub record Request (B : Type 0) : Type 0 where
  pub request_id : String
  pub client_id : String
  pub sent_at : ℕ
  pub expiry : ℕ
  pub multi : Bool
  pub raw_request : B

pub record Response (B D : Type 0) : Type 0 where
  pub request_id : String
  pub server_id : String
  pub sent_at : ℕ
  pub raw_response : B
  pub error : String
  pub code : ErrorCode
  pub error_details : List D

pub record ClaimResponse : Type 0 where
  pub request_id : String
  pub server_id : String

-- proto.Marshal and proto.Unmarshal at one type of message, and the bytes of a field that is not set.
pub record Codec (M B D : Type 0) : Type 0 where
  pub serialize_payload : M → Result (GoError D) B
  pub deserialize_payload : B → Result (GoError D) M
  pub no_bytes : B
