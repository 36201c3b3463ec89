-- ===== src/Errors/Value.antt =====
-- errors.go: the error value `psrpcError`, its constructors and methods, and what errors.As and
-- errors.Is find in a chain of errors. A detail is what `anypb.New` packs, a type `D`.
use livekit_psrpc.Prelude.{
  ℕ, String, Bool, false, ◌||◌, List, [], ◌∷◌, Option, none, some, ◌==◌, string_equality,
  if◌then◌else◌,
}
use livekit_psrpc.Errors.Codes.{ErrorCode}
use livekit_psrpc.Errors.Codes
use livekit_psrpc.Errors.Foreign.{GrpcCode, TwirpCode}
use livekit_psrpc.Errors.Translations.{to_http, to_grpc, to_twirp}

-- A Go error: a plain one, one that wraps another under its own message, and a `psrpcError`.
pub data GoError (D : Type 0) : Type 0 where
  plain : String → GoError D
  wrap : String → GoError D → GoError D
  psrpc : GoError D → ErrorCode → List D → GoError D

pub record PsrpcError (D : Type 0) : Type 0 where
  pub error : GoError D
  pub code : ErrorCode
  pub details : List D

-- `spb.Status` and `twirp.Error`, as the methods build them.
pub record Status (D : Type 0) : Type 0 where
  pub code : GrpcCode
  pub message : String
  pub details : List D

pub record TwirpError : Type 0 where
  pub code : TwirpCode
  pub message : String

module _ {D : Type 0} where
  -- `err.Error()`: a `psrpcError` has the message of the error that it embeds.
  unfoldable pub message : GoError D → String
  message (plain m) = m
  message (wrap m e) = m
  message (psrpc e c ds) = message e

  -- errors.As into a psrpc.Error: the first one of the chain.
  unfoldable pub as_psrpc : GoError D → Option (PsrpcError D)
  as_psrpc (plain m) = none
  as_psrpc (wrap m e) = as_psrpc e
  as_psrpc (psrpc e c ds) = some (record { error = e; code = c; details = ds })

  -- errors.Is for a code, which `Unwrap` lists beside the embedded error.
  unfoldable pub is_code : ErrorCode → GoError D → Bool
  is_code c (plain m) = false
  is_code c (wrap m e) = is_code c e
  is_code c (psrpc e d ds) = is_code c e || d == c

  -- What `anypb.New` gives for each detail: one that it cannot pack is left out.
  unfoldable pub pack_details : List (Option D) → List D
  pack_details [] = []
  pack_details (none ∷ ds) = pack_details ds
  pack_details (some d ∷ ds) = d ∷ pack_details ds

  -- `none` is the panic on a nil error.
  unfoldable pub new_error : ErrorCode → Option (GoError D) → List (Option D) → Option (GoError D)
  unfolding pack_details
  new_error code none ds = none
  new_error code (some e) ds = some (psrpc e code (pack_details ds))

  -- The message is the result of `fmt.Errorf`.
  unfoldable pub new_errorf : ErrorCode → String → GoError D
  new_errorf code msg = psrpc (plain msg) code []

  unfoldable pub new_error_from_response : ErrorCode → String → List D → PsrpcError D
  new_error_from_response code err ds = record {
    error = plain err;
    code = if code == "" then Codes.unknown else code;
    details = ds;
  }

  unfoldable pub error_to_http : PsrpcError D → ℕ
  unfolding to_http
  error_to_http e = to_http e.code

  unfoldable pub grpc_status : PsrpcError D → Status D
  unfolding to_grpc message
  grpc_status e = record { code = to_grpc e.code; message = message e.error; details = e.details }

  unfoldable pub error_to_twirp : PsrpcError D → TwirpError
  unfolding to_twirp message
  error_to_twirp e = record { code = to_twirp e.code; message = message e.error }
