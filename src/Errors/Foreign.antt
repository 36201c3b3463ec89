-- ===== src/Errors/Foreign.antt =====
-- errors.go: the runes of gRPC (google.golang.org/grpc/runes) and of Twirp (twitchtv/twirp), by the
-- names that the source has for them.
use livekit_psrpc.Prelude.{ℕ}

-- `runes.Code`: the constants that the source names, and every other value of the type.
pub data GrpcCode : Type 0 where
  ok canceled unknown invalid_argument deadline_exceeded not_found already_exists : GrpcCode
  permission_denied resource_exhausted failed_precondition aborted out_of_range : GrpcCode
  unimplemented internal unavailable data_loss unauthenticated : GrpcCode
  other : ℕ → GrpcCode

-- `twirp.ErrorCode`: the constants that the source names.
pub data TwirpCode : Type 0 where
  no_error canceled unknown invalid_argument malformed deadline_exceeded : TwirpCode
  not_found already_exists permission_denied resource_exhausted : TwirpCode
  failed_precondition aborted out_of_range unimplemented internal : TwirpCode
  unavailable data_loss unauthenticated : TwirpCode
