-- ===== src/Delivery/Tests.antt =====
-- Runs of calls and of handlers, over whole-number affinities and payloads that are texts.
use psrpc.Client.Answers.{result_was_answered}
use psrpc.Base.{
  Memᴰ, ℕ, ◌+◌, ◌≤◌, ◌≡◌, refl, true, false, List, [], ◌∷◌, ◌++◌, none, some, Text, text, Result,
  ok, length, is_some, if◌then◌else◌, text_comparable,
}
use psrpc.Base.Assoc.{lookup}
use psrpc.Messages.{Request, Response}
use psrpc.Errors.Codes.{ErrorCode, to_text}
use psrpc.Errors.Values.{PsrpcError, GoError, coded, as_error}
use psrpc.Info.Channels.{RequestInfo, response_channel}
use psrpc.Client.Select.{SelectionOpts, eligible, at_once, step, init}
use psrpc.Client.Select.Scores.{whole}
use psrpc.Client.Wait.{
  Happening, canceled, claimed, responded, await, select_phase, wait_response, after_selection,
  grant, go_on, to_event, stays, ended, chosen,
}
use psrpc.Client.Rpc.{
  RequestOpts, RpcClient, Surroundings, new_rpc, packed, call, conclude, selects, request_of,
}
use psrpc.Client.Outcomes.{call_ends, call_grants_once, call_frees_channels}
use psrpc.Server.Respond.{answer_channel, send_response, read_response, unanswered_code}
use psrpc.Server.Answers.{error_reaches_caller, silent_error_is_lost}
use psrpc.Server.Handle.{RpcHandler, Outside, Trace, handle_request}
use psrpc.Server.Serving.{answers, own_answer, to_serve, request_served_once}
use psrpc.Delivery.{call_returns_handler_response}

abbrev info : RequestInfo
info = record {
  service = text "orders";
  method = text "Get";
  topic = [];
  multi = false;
  affinity_enabled = false;
  require_claim = false;
  queue = false;
}

abbrev claiming : RequestInfo
claiming = record info { require_claim = true }

abbrev first_bid : SelectionOpts ℕ Text
first_bid = record {
  minimum_affinity = 0;
  maximum_affinity = 0;
  accept_first_available = true;
  affinity_timeout = 0;
  short_circuit_timeout = 0;
  selection_func = none;
}

abbrev options : RequestOpts ℕ Text
options = record { timeout = 3000; selection_opts = first_bid }

abbrev caller : RpcClient ℕ Text
caller = record { id = text "c1"; inbox = true; claim_requests = []; response_channels = [] }

abbrev around : Surroundings Text
around = record {
  request_id = text "r1";
  now = 1000;
  deadline = none;
  metadata = [];
  publish_error = none;
  grant_error = none;
}

abbrev pack : Text → Result (GoError Text) Text
pack t = ok t

abbrev won : Happening ℕ Text
won = claimed (record { request_id = text "r1"; server_id = text "s1"; affinity = 1 })

call_ends_example :
    is_some
      (new_rpc whole pack pack caller claiming options around
        (won ∷ canceled ∷ [])
        (text "q")).result
    ≡ true
call_ends_example =
    call_ends whole pack pack caller claiming options around (won ∷ []) canceled [] (text "q") tt

call_grants_once_example :
    length
      (new_rpc whole pack pack caller claiming options around (won ∷ won ∷ []) (text "q")).grants
    ≤ 1
call_grants_once_example =
    call_grants_once whole pack pack caller claiming options around (won ∷ won ∷ []) (text "q")

-- The bid is granted, and the second one is not.
grants_run :
    (new_rpc whole pack pack caller claiming options around (won ∷ won ∷ []) (text "q")).grants
    ≡ text "s1" ∷ []
unfolding new_rpc packed call conclude selects await select_phase after_selection grant go_on
    to_event stays ended chosen wait_response step init eligible at_once
grants_run = refl

abbrev canceled_call : List (Happening ℕ Text)
canceled_call = won ∷ canceled ∷ []

call_frees_channels_example :
    (lookup
        (new_rpc whole pack pack caller claiming options around canceled_call
          (text "q")).client.response_channels
        (text "r1")
      ≡ lookup caller.response_channels (text "r1"))
    × (lookup
          (new_rpc whole pack pack caller claiming options around canceled_call
            (text "q")).client.claim_requests
          (text "r1")
        ≡ lookup caller.claim_requests (text "r1"))
call_frees_channels_example =
    call_frees_channels whole pack pack caller claiming options around canceled_call (text "q")
      (text "r1") (unfold lookup in refl) (unfold lookup in refl)
      (call_ends whole pack pack caller claiming options around (won ∷ []) canceled [] (text "q")
        tt)

abbrev reply : Response Text
reply = record {
  request_id = text "r1";
  server_id = text "s1";
  sent_at = 1001;
  raw_response = text "yes";
  error = [];
  code = [];
  error_details = [];
}

answer_run :
    (new_rpc whole pack pack caller info options around
      (won ∷ responded reply ∷ [])
      (text "q")).result
    ≡ some (some (text "yes"), none)
unfolding new_rpc
answer_run = refl

result_was_answered_example :
    (r : Response Text) × Memᴰ (responded r) (won ∷ responded reply ∷ [])
    × (r.error ≡ [])
    × (pack r.raw_response ≡ ok (text "yes"))
result_was_answered_example =
    result_was_answered whole pack pack caller info options around (won ∷ responded reply ∷ [])
      (text "yes") (text "q") answer_run

abbrev oracle : RpcHandler Text Text ℕ Text
oracle = record {
  i = info;
  id = text "s1";
  handler = λ q. (some (text "yes"), none);
  affinity_func = none;
}

abbrev bidder : RpcHandler Text Text ℕ Text
bidder = record oracle { i = claiming }

abbrev granted_here : Outside Text
granted_here = record {
  bid_error = none;
  answer_error = none;
  now = 1001;
  decision = some (record { request_id = text "r1"; server_id = text "s1" });
}

abbrev idle : Trace ℕ Text
idle = record { claims = []; published = []; observed = []; calls = 0 }

abbrev asked : Request
asked = record {
  request_id = text "r1";
  client_id = text "c1";
  sent_at = 1000;
  expiry = 4000;
  multi = false;
  raw_request = text "q";
  metadata = [];
  no_claim = false;
  per_request_reply = true;
}

request_served_once_example :
    ((handle_request whole 1 bidder granted_here pack pack idle asked).0.calls
      ≡ (if to_serve whole 1 bidder granted_here asked (text "q") then 0 + 1 else 0))
    × (answers (handle_request whole 1 bidder granted_here pack pack idle asked).0.published
        ≡ answers idle.published
          ++ (if to_serve whole 1 bidder granted_here asked (text "q")
              then own_answer whole 1 bidder granted_here pack pack asked (text "q") ∷ []
              else []))
    × ((j : Text)
        → lookup (handle_request whole 1 bidder granted_here pack pack idle asked).0.claims j
          ≡ lookup idle.claims j)
request_served_once_example =
    request_served_once whole 1 bidder granted_here pack pack idle asked (text "q") refl
      (unfold lookup in refl)

served_run : to_serve whole 1 bidder granted_here asked (text "q") ≡ true
served_run = refl

abbrev refusal : PsrpcError Text
refusal = record { message = text "no"; code = ErrorCode.not_found; details = [] }

error_reaches_caller_example :
    (c : ErrorCode) × (to_text c ≡ to_text ErrorCode.not_found)
    × (read_response pack 3000
          (send_response pack (text "s1") 1001 asked none (some (coded refusal)))
        ≡ (none, some (coded (record refusal { code = c }))))
error_reaches_caller_example =
    error_reaches_caller pack pack (text "s1") 1001 3000 asked none (coded refusal) refusal
      (unfold as_error in refl) refl (unfold to_text in refl)
      (unfold to_text unanswered_code in refl)

abbrev silence : PsrpcError Text
silence = record refusal { message = [] }

silent_error_is_lost_example :
    read_response pack 3000 (send_response pack (text "s1") 1001 asked none (some (coded silence)))
    ≡ (some [], none)
silent_error_is_lost_example =
    silent_error_is_lost pack pack (text "s1") 1001 3000 asked none (coded silence) silence []
      (unfold as_error in refl) refl (unfold to_text unanswered_code in refl) refl

call_returns_handler_response_example :
    let ir = request_of whole pack pack caller info options around (text "q") in
    (r : Response Text) × (answers
        (handle_request whole 1 oracle granted_here pack pack idle ir).0.published
      ≡ answers idle.published ++ (answer_channel (text "orders") ir response_channel, r) ∷ [])
    × ((new_rpc whole pack pack caller info options around
          (won ∷ responded r ∷ [])
          (text "q")).result
        ≡ some (some (text "yes"), none))
call_returns_handler_response_example =
    call_returns_handler_response whole 1 pack pack pack pack caller info options around oracle
      granted_here idle (won ∷ []) [] (text "q") (text "yes") (text "q") (text "yes") refl refl
      (unfold selects in refl) refl refl refl refl refl refl (unfold lookup in refl) (tt, tt)
