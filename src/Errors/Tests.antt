-- ===== src/Errors/Tests.antt =====
-- Runs of errors.go on named codes.
use psrpc.Base.{◌≡◌, refl, text}
use psrpc.Errors.Codes.{malformed_response, of_text}

of_text_run : of_text (text "malformed_result") ≡ malformed_response
unfolding of_text
of_text_run = refl
