-- ===== src/Messages.antt =====
-- internal/internal.proto: the messages between clients and servers, as records. Times are Unix
-- nanoseconds; `F` is the type of affinities (float) and `D` that of error details.
use psrpc.Base.{ℕ, Bool, List, Text}

pub record Request : Type 0 where
  pub request_id : Text
  pub client_id : Text
  pub sent_at : ℕ
  pub expiry : ℕ
  pub multi : Bool
  pub raw_request : Text
  pub metadata : List (Text × Text)
  pub no_claim : Bool
  pub per_request_reply : Bool

pub record Response (D : Type 0) : Type 0 where
  pub request_id : Text
  pub server_id : Text
  pub sent_at : ℕ
  pub raw_response : Text
  pub error : Text
  pub code : Text
  pub error_details : List D

pub record ClaimRequest (F : Type 0) : Type 0 where
  pub request_id : Text
  pub server_id : Text
  pub affinity : F

pub record ClaimResponse : Type 0 where
  pub request_id : Text
  pub server_id : Text
