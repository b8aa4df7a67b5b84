-- ===== src/Server/Respond.antt =====
-- pkg/server/rpc.go: sendResponse and answerChannel; pkg/client/rpc.go: how a caller reads a response.
-- Payloads are of type `P`; `marshal` and `unmarshal` stand for protobuf's.
use psrpc.Base.{
  ℕ, Bool, true, false, not, List, [], Option, none, some, Text, text, list_beq, if◌then◌else◌,
  Result, ok, failed,
}
use psrpc.Messages.{Request, Response}
use psrpc.Errors.Codes.{ErrorCode, GrpcCode, to_text, error_code_from_grpc}
use psrpc.Errors.Values.{
  PsrpcError, Status, GoError, coded, error_text, as_error, status_of, new_error,
  new_error_from_response, new_no_subscriber_error,
}
use psrpc.Info.Channels.{Channel, response_channel, per_request_client_id}

-- `psrpc.unanswered`: the code of the response that stands in for a request nothing received.
unfoldable pub unanswered_code : Text
unanswered_code = text "psrpc.unanswered"

is_ok : GrpcCode → Bool
is_ok GrpcCode.ok = true
is_ok _ = false

module _ {D : Type 0} where
  -- The fields of a response that tell an error.
  unfoldable pub with_error : Response D → Text → ErrorCode → List D → Response D
  with_error res msg c details = record res {
    error = msg;
    code = to_text c;
    error_details = details;
  }

  plain_error : Response D → GoError D → Option (Status D) → Response D
  unfolding with_error is_ok error_text
  plain_error res err none = with_error res (error_text err) ErrorCode.unknown []
  plain_error res err (some st) =
      if not (is_ok st.code)
      then with_error res st.message (error_code_from_grpc st.code) st.details
      else with_error res (error_text err) ErrorCode.unknown []

  unfoldable pub error_response : Response D → GoError D → Option (PsrpcError D) → Response D
  unfolding with_error plain_error status_of
  error_response res err (some e) = with_error res e.message e.code e.details
  error_response res err none = plain_error res err (status_of err)

  module _ {P : Type 0} (marshal : P → Result (GoError D) Text) where
    unfoldable pub packed_response : Response D → Result (GoError D) Text → Response D
    unfolding with_error error_text
    packed_response res (ok b) = record res { raw_response = b }
    packed_response res (failed e) = with_error res (error_text e) ErrorCode.malformed_response []

    -- What sendResponse publishes, for a handler's response and error.
    unfoldable pub send_response : Text → ℕ → Request → Option P → Option (GoError D) → Response D
    unfolding error_response packed_response as_error
    send_response server_id now ir response err =
        let res : Response D = record {
          request_id = ir.request_id;
          server_id = server_id;
          sent_at = now;
          raw_response = [];
          error = [];
          code = [];
          error_details = [];
        } in
        elim err [
          | some e ↦ error_response res e (as_error e)
          | none ↦ elim response [ some p ↦ packed_response res (marshal p) | none ↦ res ]
        ]

  module _ {P : Type 0} (unmarshal : Text → Result (GoError D) P) where
    unfoldable pub unpacked : Result (GoError D) P → Option P × Option (GoError D)
    unfolding new_error
    unpacked (ok p) = (some p, none)
    unpacked (failed e) = (none, some (new_error ErrorCode.malformed_response e []))

    -- What a caller returns for a response, where it would have waited `wait` for one. The half-read
    -- value that Go hands back along with a decoding error is left out.
    unfoldable pub read_response : ℕ → Response D → Option P × Option (GoError D)
    unfolding unanswered_code new_no_subscriber_error new_error_from_response unpacked
    read_response wait res =
        if list_beq res.code unanswered_code
        then (none, some (new_no_subscriber_error wait))
        else if not (list_beq res.error [])
        then (none, some (coded (new_error_from_response res.code res.error res.error_details)))
        else unpacked (unmarshal res.raw_response)

unfoldable pub answer_channel : Text → Request → (Text → Text → Channel) → Channel
answer_channel service ir shared =
    if ir.per_request_reply
    then response_channel service (per_request_client_id ir.client_id ir.request_id)
    else shared service ir.client_id
