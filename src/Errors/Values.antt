-- ===== src/Errors/Values.antt =====
-- errors.go: the error values. `D` stands for anypb.Any, the type of an error's details.
use psrpc.Base.{List, [], ◌∷◌, Option, none, some, ℕ, Text, text, list_beq, if◌then◌else◌}
use psrpc.Errors.Codes.{ErrorCode, GrpcCode, of_text, to_text, to_grpc, error_code_from_grpc}

-- psrpcError: the message of the error it wraps, its code, its details.
pub record PsrpcError (D : Type 0) : Type 0 where
  pub message : Text
  pub code : ErrorCode
  pub details : List D

-- A gRPC status.
pub record Status (D : Type 0) : Type 0 where
  pub code : GrpcCode
  pub message : Text
  pub details : List D

-- A Go `error`, by what the program can see of it. A `foreign` error is any that psrpc did not make:
-- its `Error()` text, the psrpc error that `errors.As` finds in its chain, and the status that
-- grpc's `status.FromError` finds. A `no_subscriber` error also carries its wait in nanoseconds.
pub data GoError (D : Type 0) : Type 0 where
  coded : PsrpcError D → GoError D
  no_subscriber : PsrpcError D → ℕ → GoError D
  foreign : Text → Option (PsrpcError D) → Option (Status D) → GoError D

module _ {D : Type 0} where
  unfoldable pub new_errorf : ErrorCode → Text → GoError D
  new_errorf c msg = coded (record { message = msg; code = c; details = [] })

  -- `err.Error()`.
  unfoldable pub error_text : GoError D → Text
  error_text (coded e) = e.message
  error_text (no_subscriber e w) = e.message
  error_text (foreign msg inner st) = msg

  -- The details that `anypb.New` could pack; it gives `none` for the others.
  packed : List (Option D) → List D
  packed [] = []
  packed (none ∷ ds) = packed ds
  packed (some d ∷ ds) = d ∷ packed ds

  -- NewError: the message is the wrapped error's.
  unfoldable pub new_error : ErrorCode → GoError D → List (Option D) → GoError D
  unfolding error_text packed
  new_error c err details =
      coded (record { message = error_text err; code = c; details = packed details })

  unfoldable pub new_error_from_response : Text → Text → List D → PsrpcError D
  new_error_from_response code err details =
      let code' = if list_beq code (text "") then to_text ErrorCode.unknown else code in
      record { message = err; code = of_text code'; details = details }

  unfoldable pub new_no_subscriber_error : ℕ → GoError D
  new_no_subscriber_error wait =
      no_subscriber
        (record {
          message = text "no response from servers: no server is subscribed";
          code = ErrorCode.unavailable;
          details = [];
        })
        wait

  -- `errors.As(err, &e)` at the interface `Error`.
  unfoldable pub as_error : GoError D → Option (PsrpcError D)
  as_error (coded e) = some e
  as_error (no_subscriber e w) = some e
  as_error (foreign msg inner st) = inner

  -- The code of a status, as `status.FromError` and `st.Code()` give it.
  code_of_status : Option (Status D) → Option ErrorCode
  code_of_status none = none
  code_of_status (some st) = some (error_code_from_grpc st.code)

  code_of : Option (PsrpcError D) → Option (Status D) → Option ErrorCode
  unfolding code_of_status
  code_of (some e) st = some e.code
  code_of none st = code_of_status st

  unfoldable pub status_of : GoError D → Option (Status D)
  status_of (coded e) = none
  status_of (no_subscriber e w) = none
  status_of (foreign msg inner st) = st

  -- GetErrorCode: `none` is the pair (Unknown, false).
  unfoldable pub get_error_code : GoError D → Option ErrorCode
  unfolding code_of status_of as_error
  get_error_code err = code_of (as_error err) (status_of err)

  unfoldable pub grpc_status : PsrpcError D → Status D
  grpc_status e = record { code = to_grpc e.code; message = e.message; details = e.details }

  abbrev pub err_request_canceled : GoError D
  unfolding new_errorf
  err_request_canceled = new_errorf ErrorCode.canceled (text "request canceled")

  abbrev pub err_request_timed_out : GoError D
  unfolding new_errorf
  err_request_timed_out = new_errorf ErrorCode.deadline_exceeded (text "request timed out")

  abbrev pub err_no_response : GoError D
  unfolding new_errorf
  err_no_response = new_errorf ErrorCode.unavailable (text "no response from servers")

  abbrev pub err_stream_eof : GoError D
  unfolding new_errorf
  err_stream_eof = new_errorf ErrorCode.unavailable (text "EOF")

  abbrev pub err_client_closed : GoError D
  unfolding new_errorf
  err_client_closed = new_errorf ErrorCode.canceled (text "client is closed")

  abbrev pub err_server_closed : GoError D
  unfolding new_errorf
  err_server_closed = new_errorf ErrorCode.canceled (text "server is closed")

  abbrev pub err_stream_closed : GoError D
  unfolding new_errorf
  err_stream_closed = new_errorf ErrorCode.canceled (text "stream closed")

  abbrev pub err_slow_consumer : GoError D
  unfolding new_errorf
  err_slow_consumer =
      new_errorf ErrorCode.unavailable (text "stream message discarded by slow consumer")
