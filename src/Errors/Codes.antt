-- ===== src/Errors/Codes.antt =====
-- errors.go: the constants of type `ErrorCode`, and the runes of gRPC and Twirp by the names that
-- the source has for them.
use livekit_psrpc.Prelude.{String, List, [], ◌∷◌}

abbrev pub ErrorCode : Type 0
ErrorCode = String

abbrev pub ok : ErrorCode
ok = ""

abbrev pub canceled : ErrorCode
canceled = "canceled"

abbrev pub malformed_request : ErrorCode
malformed_request = "malformed_request"

abbrev pub malformed_response : ErrorCode
malformed_response = "malformed_result"

abbrev pub deadline_exceeded : ErrorCode
deadline_exceeded = "deadline_exceeded"

abbrev pub unavailable : ErrorCode
unavailable = "unavailable"

abbrev pub unknown : ErrorCode
unknown = "unknown"

abbrev pub invalid_argument : ErrorCode
invalid_argument = "invalid_argument"

abbrev pub not_found : ErrorCode
not_found = "not_found"

abbrev pub not_acceptable : ErrorCode
not_acceptable = "not_acceptable"

abbrev pub already_exists : ErrorCode
already_exists = "already_exists"

abbrev pub permission_denied : ErrorCode
permission_denied = "permission_denied"

abbrev pub resource_exhausted : ErrorCode
resource_exhausted = "resource_exhausted"

abbrev pub failed_precondition : ErrorCode
failed_precondition = "failed_precondition"

abbrev pub aborted : ErrorCode
aborted = "aborted"

abbrev pub out_of_range : ErrorCode
out_of_range = "out_of_range"

abbrev pub unimplemented : ErrorCode
unimplemented = "unimplemented"

abbrev pub internal : ErrorCode
internal = "internal"

abbrev pub data_loss : ErrorCode
data_loss = "data_loss"

abbrev pub unauthenticated : ErrorCode
unauthenticated = "unauthenticated"

-- Every constant of the package.
abbrev pub error_codes : List ErrorCode
error_codes =
    ok ∷ canceled ∷ malformed_request ∷ malformed_response ∷ deadline_exceeded ∷ unavailable
    ∷ unknown ∷ invalid_argument ∷ not_found ∷ not_acceptable ∷ already_exists ∷ permission_denied
    ∷ resource_exhausted ∷ failed_precondition ∷ aborted ∷ out_of_range ∷ unimplemented ∷ internal
    ∷ data_loss ∷ unauthenticated ∷ []

-- `runes.Code` of gRPC: the constants that the source names, and any other number.
pub data GrpcCode : Type 0 where
