-- ===== src/Errors/Translations.antt =====
-- errors.go: `ToHTTP`, `ErrorCodeFromGRPC`, `ToGRPC` and `ToTwirp`. A `switch` over the text of a
-- code is a table of its cases in their order, and a default. The numbers are those of net/http.
use livekit_psrpc.Prelude.{ℕ, List, [], ◌∷◌, switch, string_equality}
use livekit_psrpc.Errors.Codes.{ErrorCode}
use livekit_psrpc.Errors.Codes
use livekit_psrpc.Errors.Foreign.{GrpcCode, TwirpCode}

abbrev pub http_cases : List (List ErrorCode × ℕ)
http_cases =
    ((Codes.ok ∷ [], 200)
      ∷ (Codes.unknown ∷ Codes.malformed_response ∷ Codes.internal ∷ Codes.data_loss ∷ [], 500)
      ∷ (Codes.invalid_argument ∷ Codes.malformed_request ∷ [], 400)
      ∷ (Codes.not_found ∷ [], 404)
      ∷ (Codes.not_acceptable ∷ [], 406)
      ∷ (Codes.already_exists ∷ Codes.aborted ∷ [], 409)
      ∷ (Codes.permission_denied ∷ [], 403)
      ∷ (Codes.resource_exhausted ∷ [], 429)
      ∷ (Codes.failed_precondition ∷ [], 412)
      ∷ (Codes.out_of_range ∷ [], 416)
      ∷ (Codes.unimplemented ∷ [], 501)
      ∷ (Codes.canceled ∷ Codes.deadline_exceeded ∷ Codes.unavailable ∷ [], 503)
      ∷ (Codes.unauthenticated ∷ [], 401)
      ∷ [])

unfoldable pub to_http : ErrorCode → ℕ
to_http e = switch e http_cases 500

unfoldable pub error_code_from_grpc : GrpcCode → ErrorCode
error_code_from_grpc GrpcCode.ok = Codes.ok
error_code_from_grpc GrpcCode.canceled = Codes.canceled
error_code_from_grpc GrpcCode.unknown = Codes.unknown
error_code_from_grpc GrpcCode.invalid_argument = Codes.invalid_argument
error_code_from_grpc GrpcCode.deadline_exceeded = Codes.deadline_exceeded
error_code_from_grpc GrpcCode.not_found = Codes.not_found
error_code_from_grpc GrpcCode.already_exists = Codes.already_exists
error_code_from_grpc GrpcCode.permission_denied = Codes.permission_denied
error_code_from_grpc GrpcCode.resource_exhausted = Codes.resource_exhausted
error_code_from_grpc GrpcCode.failed_precondition = Codes.failed_precondition
error_code_from_grpc GrpcCode.aborted = Codes.aborted
error_code_from_grpc GrpcCode.out_of_range = Codes.out_of_range
error_code_from_grpc GrpcCode.unimplemented = Codes.unimplemented
error_code_from_grpc GrpcCode.internal = Codes.internal
error_code_from_grpc GrpcCode.unavailable = Codes.unavailable
error_code_from_grpc GrpcCode.data_loss = Codes.data_loss
error_code_from_grpc GrpcCode.unauthenticated = Codes.unauthenticated
error_code_from_grpc (GrpcCode.other n) = Codes.unknown

abbrev pub grpc_cases : List (List ErrorCode × GrpcCode)
grpc_cases =
    ((Codes.ok ∷ [], GrpcCode.ok)
      ∷ (Codes.canceled ∷ [], GrpcCode.canceled)
      ∷ (Codes.unknown ∷ [], GrpcCode.unknown)
      ∷ (Codes.invalid_argument ∷ Codes.malformed_request ∷ [], GrpcCode.invalid_argument)
      ∷ (Codes.deadline_exceeded ∷ [], GrpcCode.deadline_exceeded)
      ∷ (Codes.not_found ∷ [], GrpcCode.not_found)
      ∷ (Codes.already_exists ∷ [], GrpcCode.already_exists)
      ∷ (Codes.permission_denied ∷ [], GrpcCode.permission_denied)
      ∷ (Codes.resource_exhausted ∷ [], GrpcCode.resource_exhausted)
      ∷ (Codes.failed_precondition ∷ [], GrpcCode.failed_precondition)
      ∷ (Codes.aborted ∷ [], GrpcCode.aborted)
      ∷ (Codes.out_of_range ∷ [], GrpcCode.out_of_range)
      ∷ (Codes.unimplemented ∷ [], GrpcCode.unimplemented)
      ∷ (Codes.malformed_response ∷ Codes.internal ∷ [], GrpcCode.internal)
      ∷ (Codes.unavailable ∷ [], GrpcCode.unavailable)
      ∷ (Codes.data_loss ∷ [], GrpcCode.data_loss)
      ∷ (Codes.unauthenticated ∷ [], GrpcCode.unauthenticated)
      ∷ [])

unfoldable pub to_grpc : ErrorCode → GrpcCode
to_grpc e = switch e grpc_cases GrpcCode.unknown

abbrev pub twirp_cases : List (List ErrorCode × TwirpCode)
twirp_cases =
    ((Codes.ok ∷ [], TwirpCode.no_error)
      ∷ (Codes.canceled ∷ [], TwirpCode.canceled)
      ∷ (Codes.unknown ∷ [], TwirpCode.unknown)
      ∷ (Codes.invalid_argument ∷ [], TwirpCode.invalid_argument)
      ∷ (Codes.malformed_request ∷ Codes.malformed_response ∷ [], TwirpCode.malformed)
      ∷ (Codes.deadline_exceeded ∷ [], TwirpCode.deadline_exceeded)
      ∷ (Codes.not_found ∷ [], TwirpCode.not_found)
      ∷ (Codes.already_exists ∷ [], TwirpCode.already_exists)
      ∷ (Codes.permission_denied ∷ [], TwirpCode.permission_denied)
      ∷ (Codes.resource_exhausted ∷ [], TwirpCode.resource_exhausted)
      ∷ (Codes.failed_precondition ∷ [], TwirpCode.failed_precondition)
      ∷ (Codes.aborted ∷ [], TwirpCode.aborted)
      ∷ (Codes.out_of_range ∷ [], TwirpCode.out_of_range)
      ∷ (Codes.unimplemented ∷ [], TwirpCode.unimplemented)
      ∷ (Codes.internal ∷ [], TwirpCode.internal)
      ∷ (Codes.unavailable ∷ [], TwirpCode.unavailable)
      ∷ (Codes.data_loss ∷ [], TwirpCode.data_loss)
      ∷ (Codes.unauthenticated ∷ [], TwirpCode.unauthenticated)
      ∷ [])

unfoldable pub to_twirp : ErrorCode → TwirpCode
to_twirp e = switch e twirp_cases TwirpCode.unknown
