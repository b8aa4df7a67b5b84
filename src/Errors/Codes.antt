-- ===== src/Errors/Codes.antt =====
-- errors.go: ErrorCode and its translations.
use psrpc.Base.{ℕ, List, [], ◌∷◌, text, Text, if◌then◌else◌, list_beq}

pub data ErrorCode : Type 0 where
  ok canceled malformed_request malformed_response deadline_exceeded unavailable unknown
        invalid_argument not_found not_acceptable already_exists permission_denied
        resource_exhausted failed_precondition aborted out_of_range unimplemented internal data_loss
        unauthenticated unprocessable_entity upstream_server_error upstream_client_error :
      ErrorCode
  other : Text → ErrorCode

-- google.golang.org/grpc/codes.Code: the seventeen named codes, and any other number.
pub data GrpcCode : Type 0 where
  ok canceled unknown invalid_argument deadline_exceeded not_found already_exists permission_denied
        resource_exhausted failed_precondition aborted out_of_range unimplemented internal
        unavailable data_loss unauthenticated :
      GrpcCode
  number : ℕ → GrpcCode

-- The twirp codes that the program names.
pub data TwirpCode : Type 0 where
  no_error canceled unknown invalid_argument malformed deadline_exceeded not_found already_exists
        permission_denied resource_exhausted failed_precondition aborted out_of_range unimplemented
        internal unavailable data_loss unauthenticated :
      TwirpCode

-- The named strings of the `const` block.
abbrev pub named : List (Text × ErrorCode)
named =
    (text "", ErrorCode.ok)
    ∷ (text "canceled", ErrorCode.canceled)
    ∷ (text "malformed_request", malformed_request)
    ∷ (text "malformed_result", malformed_response)
    ∷ (text "deadline_exceeded", ErrorCode.deadline_exceeded)
    ∷ (text "unavailable", ErrorCode.unavailable)
    ∷ (text "unknown", ErrorCode.unknown)
    ∷ (text "invalid_argument", ErrorCode.invalid_argument)
    ∷ (text "not_found", ErrorCode.not_found)
    ∷ (text "not_acceptable", not_acceptable)
    ∷ (text "already_exists", ErrorCode.already_exists)
    ∷ (text "permission_denied", ErrorCode.permission_denied)
    ∷ (text "resource_exhausted", ErrorCode.resource_exhausted)
    ∷ (text "failed_precondition", ErrorCode.failed_precondition)
    ∷ (text "aborted", ErrorCode.aborted)
    ∷ (text "out_of_range", ErrorCode.out_of_range)
    ∷ (text "unimplemented", ErrorCode.unimplemented)
    ∷ (text "internal", ErrorCode.internal)
    ∷ (text "data_loss", ErrorCode.data_loss)
    ∷ (text "unauthenticated", ErrorCode.unauthenticated)
    ∷ (text "unprocessable_entity", unprocessable_entity)
    ∷ (text "upstream_server_error", upstream_server_error)
    ∷ (text "upstream_client_error", upstream_client_error)
    ∷ []

-- `string(code)`.
unfoldable pub to_text : ErrorCode → Text
to_text ErrorCode.ok = text ""
to_text ErrorCode.canceled = text "canceled"
to_text malformed_request = text "malformed_request"
to_text malformed_response = text "malformed_result"
to_text ErrorCode.deadline_exceeded = text "deadline_exceeded"
to_text ErrorCode.unavailable = text "unavailable"
to_text ErrorCode.unknown = text "unknown"
to_text ErrorCode.invalid_argument = text "invalid_argument"
to_text ErrorCode.not_found = text "not_found"
to_text not_acceptable = text "not_acceptable"
to_text ErrorCode.already_exists = text "already_exists"
to_text ErrorCode.permission_denied = text "permission_denied"
to_text ErrorCode.resource_exhausted = text "resource_exhausted"
to_text ErrorCode.failed_precondition = text "failed_precondition"
to_text ErrorCode.aborted = text "aborted"
to_text ErrorCode.out_of_range = text "out_of_range"
to_text ErrorCode.unimplemented = text "unimplemented"
to_text ErrorCode.internal = text "internal"
to_text ErrorCode.data_loss = text "data_loss"
to_text ErrorCode.unauthenticated = text "unauthenticated"
to_text unprocessable_entity = text "unprocessable_entity"
to_text upstream_server_error = text "upstream_server_error"
to_text upstream_client_error = text "upstream_client_error"
to_text (other s) = s

unfoldable pub of_table : List (Text × ErrorCode) → Text → ErrorCode
of_table [] s = other s
of_table ((n, c) ∷ rest) s = if list_beq n s then c else of_table rest s

-- `ErrorCode(s)`.
unfoldable pub of_text : Text → ErrorCode
unfolding of_table
of_text s = of_table named s

unfoldable pub to_http : ErrorCode → ℕ
to_http ErrorCode.ok = 200
to_http ErrorCode.unknown = 500
to_http malformed_response = 500
to_http ErrorCode.internal = 500
to_http ErrorCode.data_loss = 500
to_http ErrorCode.invalid_argument = 400
to_http malformed_request = 400
to_http ErrorCode.not_found = 404
to_http not_acceptable = 406
to_http ErrorCode.already_exists = 409
to_http ErrorCode.aborted = 409
to_http ErrorCode.permission_denied = 403
to_http ErrorCode.resource_exhausted = 429
to_http ErrorCode.failed_precondition = 412
to_http ErrorCode.out_of_range = 416
to_http ErrorCode.unimplemented = 501
to_http ErrorCode.canceled = 503
to_http ErrorCode.deadline_exceeded = 503
to_http ErrorCode.unavailable = 503
to_http ErrorCode.unauthenticated = 401
to_http unprocessable_entity = 422
to_http upstream_server_error = 502
to_http upstream_client_error = 424
to_http (other s) = 500

unfoldable pub error_code_from_grpc : GrpcCode → ErrorCode
error_code_from_grpc GrpcCode.ok = ErrorCode.ok
error_code_from_grpc GrpcCode.canceled = ErrorCode.canceled
error_code_from_grpc GrpcCode.unknown = ErrorCode.unknown
error_code_from_grpc GrpcCode.invalid_argument = ErrorCode.invalid_argument
error_code_from_grpc GrpcCode.deadline_exceeded = ErrorCode.deadline_exceeded
error_code_from_grpc GrpcCode.not_found = ErrorCode.not_found
error_code_from_grpc GrpcCode.already_exists = ErrorCode.already_exists
error_code_from_grpc GrpcCode.permission_denied = ErrorCode.permission_denied
error_code_from_grpc GrpcCode.resource_exhausted = ErrorCode.resource_exhausted
error_code_from_grpc GrpcCode.failed_precondition = ErrorCode.failed_precondition
error_code_from_grpc GrpcCode.aborted = ErrorCode.aborted
error_code_from_grpc GrpcCode.out_of_range = ErrorCode.out_of_range
error_code_from_grpc GrpcCode.unimplemented = ErrorCode.unimplemented
error_code_from_grpc GrpcCode.internal = ErrorCode.internal
error_code_from_grpc GrpcCode.unavailable = ErrorCode.unavailable
error_code_from_grpc GrpcCode.data_loss = ErrorCode.data_loss
error_code_from_grpc GrpcCode.unauthenticated = ErrorCode.unauthenticated
error_code_from_grpc (number n) = ErrorCode.unknown

unfoldable pub to_grpc : ErrorCode → GrpcCode
to_grpc ErrorCode.ok = GrpcCode.ok
to_grpc ErrorCode.canceled = GrpcCode.canceled
to_grpc ErrorCode.unknown = GrpcCode.unknown
to_grpc ErrorCode.invalid_argument = GrpcCode.invalid_argument
to_grpc malformed_request = GrpcCode.invalid_argument
to_grpc ErrorCode.deadline_exceeded = GrpcCode.deadline_exceeded
to_grpc ErrorCode.not_found = GrpcCode.not_found
to_grpc ErrorCode.already_exists = GrpcCode.already_exists
to_grpc ErrorCode.permission_denied = GrpcCode.permission_denied
to_grpc ErrorCode.resource_exhausted = GrpcCode.resource_exhausted
to_grpc ErrorCode.failed_precondition = GrpcCode.failed_precondition
to_grpc ErrorCode.aborted = GrpcCode.aborted
to_grpc ErrorCode.out_of_range = GrpcCode.out_of_range
to_grpc ErrorCode.unimplemented = GrpcCode.unimplemented
to_grpc malformed_response = GrpcCode.internal
to_grpc ErrorCode.internal = GrpcCode.internal
to_grpc ErrorCode.unavailable = GrpcCode.unavailable
to_grpc ErrorCode.data_loss = GrpcCode.data_loss
to_grpc ErrorCode.unauthenticated = GrpcCode.unauthenticated
to_grpc upstream_server_error = GrpcCode.internal
to_grpc upstream_client_error = GrpcCode.invalid_argument
to_grpc not_acceptable = GrpcCode.unknown
to_grpc unprocessable_entity = GrpcCode.unknown
to_grpc (other s) = GrpcCode.unknown

unfoldable pub to_twirp : ErrorCode → TwirpCode
to_twirp ErrorCode.ok = no_error
to_twirp ErrorCode.canceled = TwirpCode.canceled
to_twirp ErrorCode.unknown = TwirpCode.unknown
to_twirp ErrorCode.invalid_argument = TwirpCode.invalid_argument
to_twirp malformed_request = malformed
to_twirp malformed_response = malformed
to_twirp ErrorCode.deadline_exceeded = TwirpCode.deadline_exceeded
to_twirp ErrorCode.not_found = TwirpCode.not_found
to_twirp ErrorCode.already_exists = TwirpCode.already_exists
to_twirp ErrorCode.permission_denied = TwirpCode.permission_denied
to_twirp ErrorCode.resource_exhausted = TwirpCode.resource_exhausted
to_twirp ErrorCode.failed_precondition = TwirpCode.failed_precondition
to_twirp ErrorCode.aborted = TwirpCode.aborted
to_twirp ErrorCode.out_of_range = TwirpCode.out_of_range
to_twirp ErrorCode.unimplemented = TwirpCode.unimplemented
to_twirp ErrorCode.internal = TwirpCode.internal
to_twirp ErrorCode.unavailable = TwirpCode.unavailable
to_twirp ErrorCode.data_loss = TwirpCode.data_loss
to_twirp ErrorCode.unauthenticated = TwirpCode.unauthenticated
to_twirp upstream_server_error = TwirpCode.internal
to_twirp upstream_client_error = TwirpCode.invalid_argument
to_twirp not_acceptable = TwirpCode.unknown
to_twirp unprocessable_entity = TwirpCode.unknown
to_twirp (other s) = TwirpCode.unknown
