-- ===== src/Server/Answers.antt =====
-- What a caller reads of what a handler answered.
use psrpc.Base.{ℕ, ◌≡◌, refl, false, [], Option, none, some, Text, list_beq, Result, ok}
use psrpc.Messages.{Request}
use psrpc.Errors.Codes.{ErrorCode, to_text, of_text}
use psrpc.Errors.Wire.{to_text-of_text}
use psrpc.Errors.Values.{PsrpcError, GoError, coded, as_error, new_error_from_response}
use psrpc.Server.Respond.{
  unanswered_code, with_error, packed_response, error_response, send_response, unpacked,
  read_response,
}

module _ {D P : Type 0} (marshal : P → Result (GoError D) Text)
    (unmarshal : Text → Result (GoError D) P) where
  -- An error of psrpc's that a handler returns reaches the caller with its message, its code and its
  -- details, if its message is not empty and its code is neither empty nor the client's own code for
  -- requests that nothing received.
  pub error_reaches_caller :
      (id : Text) (now wait : ℕ) (ir : Request) (response : Option P) (err : GoError D)
      (e : PsrpcError D)
      → as_error err ≡ some e
      → list_beq e.message [] ≡ false
      → list_beq (to_text e.code) [] ≡ false
      → list_beq (to_text e.code) unanswered_code ≡ false
      → (c : ErrorCode) × (to_text c ≡ to_text e.code)
        × (read_response unmarshal wait (send_response marshal id now ir response (some err))
            ≡ (none, some (coded (record e { code = c }))))
  unfolding send_response error_response with_error packed_response read_response
      new_error_from_response
  error_reaches_caller id now wait ir response err e h m c u =
      (of_text (to_text e.code), to_text-of_text (to_text e.code), rw (h) (rw (m, c, u) refl))

  -- A handler's response reaches the caller as it was, if protobuf reads back what it wrote.
  pub response_reaches_caller :
      (id : Text) (now wait : ℕ) (ir : Request) (p : P) (b : Text)
      → marshal p ≡ ok b
      → unmarshal b ≡ ok p
      → read_response unmarshal wait (send_response marshal id now ir (some p) none)
        ≡ (some p, none)
  unfolding send_response packed_response read_response unanswered_code unpacked
  response_reaches_caller id now wait ir p b h k = rw (h) (rw k refl)

  -- An error of psrpc's whose message is empty is lost: whatever its code and details, the caller
  -- reads the answer as an empty response, unless the code is the client's own.
  pub silent_error_is_lost :
      (id : Text) (now wait : ℕ) (ir : Request) (response : Option P) (err : GoError D)
      (e : PsrpcError D) (p : P)
      → as_error err ≡ some e
      → e.message ≡ []
      → list_beq (to_text e.code) unanswered_code ≡ false
      → unmarshal [] ≡ ok p
      → read_response unmarshal wait (send_response marshal id now ir response (some err))
        ≡ (some p, none)
  unfolding send_response error_response with_error packed_response read_response unpacked
  silent_error_is_lost id now wait ir response err e p h m u k = rw h (rw (m, u) (rw k refl))
