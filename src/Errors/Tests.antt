-- ===== src/Errors/Tests.antt =====
-- The translations at a few runes, and the theorems at them.
use livekit_psrpc.Prelude.{ℕ, ◌≡◌, ◌⊎◌, refl, string_equality}
use livekit_psrpc.Errors.Codes
use livekit_psrpc.Errors.Codes.{ErrorCode}
use livekit_psrpc.Errors.Foreign.{GrpcCode, TwirpCode}
use livekit_psrpc.Errors.Translations.{to_http, error_code_from_grpc, to_grpc, to_twirp}
use livekit_psrpc.Errors.Laws.{to_grpc-from_grpc}

translations :
    (to_http Codes.not_acceptable ≡ 406)
    × (to_grpc Codes.malformed_request ≡ GrpcCode.invalid_argument)
    × (to_twirp Codes.malformed_response ≡ TwirpCode.malformed)
    × (to_grpc Codes.not_acceptable ≡ GrpcCode.unknown)
unfolding to_http to_grpc to_twirp
translations = (refl, refl, refl, refl)

to_grpc-from_grpc_example :
    (to_grpc (error_code_from_grpc (GrpcCode.other 99)) ≡ GrpcCode.other 99)
    ⊎ ((n : ℕ) × (GrpcCode.other 99 ≡ GrpcCode.other n)
        × (to_grpc (error_code_from_grpc (GrpcCode.other 99)) ≡ GrpcCode.unknown))
to_grpc-from_grpc_example = to_grpc-from_grpc (GrpcCode.other 99)
