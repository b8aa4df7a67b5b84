-- ===== src/Errors/Wire.antt =====
-- What survives a translation of an error code: through its string, and through gRPC.
use psrpc.Base.{◌≡◌, refl, List, [], ◌∷◌, Text, text_eq_iff, ◌↔◌, arith, All}
use psrpc.Errors.Codes.{
  ErrorCode, GrpcCode, malformed_request, malformed_response, not_acceptable, unprocessable_entity,
  upstream_server_error, upstream_client_error, other, number, to_text, of_text, of_table, named,
  error_code_from_grpc, to_grpc,
}

-- Any table whose entries carry their code's own string reads back what it is given.
to_text-of_table :
    (t : List (Text × ErrorCode)) (s : Text)
    → All (λ e. to_text e.1 ≡ e.0) t
    → to_text (of_table t s) ≡ s
unfolding of_table
to_text-of_table [] s h = unfold to_text in refl
to_text-of_table ((n, c) ∷ rest) s h =
    ground (arith, text_eq_iff n s, h.0, to_text-of_table rest s h.1)

named_self : All (λ e. to_text e.1 ≡ e.0) named
unfolding to_text
named_self = ground arith

-- A code string that arrives is sent on unchanged: reading it into a code and writing the code out
-- gives back every string, known or not.
pub to_text-of_text : (s : Text) → to_text (of_text s) ≡ s
unfolding of_text
to_text-of_text s = to_text-of_table named s named_self

-- The codes that gRPC has too.
abbrev pub IsGrpc : ErrorCode → Type 0
IsGrpc malformed_request = ⊥
IsGrpc malformed_response = ⊥
IsGrpc not_acceptable = ⊥
IsGrpc unprocessable_entity = ⊥
IsGrpc upstream_server_error = ⊥
IsGrpc upstream_client_error = ⊥
IsGrpc (other s) = ⊥
IsGrpc _ = Unit

-- The code that a gRPC code stands for once it has been through psrpc.
abbrev pub normal : GrpcCode → GrpcCode
normal (number n) = GrpcCode.unknown
normal g = g

-- A gRPC code that goes through psrpc comes back the same, but for the codes that gRPC does not
-- name, which come back as unknown.
to_grpc-error_code_from_grpc : (g : GrpcCode) → to_grpc (error_code_from_grpc g) ≡ normal g
unfolding to_grpc error_code_from_grpc
to_grpc-error_code_from_grpc GrpcCode.ok = refl
to_grpc-error_code_from_grpc _ = refl

-- A psrpc code survives gRPC exactly when gRPC has it.
pub error_code_from_grpc-to_grpc :
    (c : ErrorCode) → (error_code_from_grpc (to_grpc c) ≡ c) ↔ IsGrpc c
unfolding to_grpc error_code_from_grpc
error_code_from_grpc-to_grpc ErrorCode.ok = (λ h. tt, λ h. refl)
error_code_from_grpc-to_grpc malformed_request = (λ h. cc, λ h. absurd h)
error_code_from_grpc-to_grpc malformed_response = (λ h. cc, λ h. absurd h)
error_code_from_grpc-to_grpc not_acceptable = (λ h. cc, λ h. absurd h)
error_code_from_grpc-to_grpc unprocessable_entity = (λ h. cc, λ h. absurd h)
error_code_from_grpc-to_grpc upstream_server_error = (λ h. cc, λ h. absurd h)
error_code_from_grpc-to_grpc upstream_client_error = (λ h. cc, λ h. absurd h)
error_code_from_grpc-to_grpc (other s) = (λ h. cc, λ h. absurd h)
error_code_from_grpc-to_grpc _ = (λ h. tt, λ h. refl)
