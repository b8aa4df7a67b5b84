-- ===== src/Client/StreamTests.antt =====
-- Runs of a client that opens streams, and of its loop.
use psrpc.Client.Collected.{multi_collects_responses}
use psrpc.Errors.Values.{GoError, foreign}
use psrpc.Client.Chosen.{request_timeout_bounded}
use psrpc.Client.Select.{run, at_once, step, eligible, select_server_until}
use psrpc.Client.Routed.{mine, loop_routes_messages, routes, Fits, Gives}
use psrpc.Server.Streams.{StreamMessage}
use psrpc.Client.Rpc.{RequestOpts}
use psrpc.Client.Opens.{open_keeps_maps, Leaves}
use psrpc.Client.Routing.{among, response, stream, handle, Client, new_rpc_client, Channels}
use psrpc.Info.Channels.{RequestInfo}
use psrpc.Messages.{Response, ClaimRequest}
use psrpc.Base.{
  map, ◌≤◌, ◌<◌, ok, Result, inr, arith, inl, list_beq, Bool-cases, ℕ, ◌≡◌, refl, true, false, List,
  [], ◌∷◌, none, some, Text, text, text_comparable,
}
use psrpc.Base.Assoc.{insert, delete, lookup}
use psrpc.Client.Select.Scores.{whole}
use psrpc.Client.Multi.{
  read_multi, MultiSurroundings, MultiClient, publish_failed, taken, request_multi, arrives, missed,
  timeout,
}
use psrpc.Client.Options.{
  ClientOptions, get_client_opts, get_request_opts, get_request_interceptors, and_option,
  no_options, with_client_timeout, with_client_options, with_streams, rpc_kind, stream_kind,
}
use psrpc.Client.Streams.{
  open_stream, Opening, OpenSurroundings, StreamClient, acked, canceled, context_done, bids,
}

abbrev claiming : RequestInfo
claiming = record {
  service = text "orders";
  method = text "Watch";
  topic = [];
  multi = false;
  affinity_enabled = false;
  require_claim = true;
  queue = false;
}

abbrev options : RequestOpts ℕ Text
options = record {
  timeout = 3000;
  selection_opts = record {
    minimum_affinity = 0;
    maximum_affinity = 0;
    accept_first_available = true;
    affinity_timeout = 0;
    short_circuit_timeout = 0;
    selection_func = none;
  };
}

abbrev caller : StreamClient ℕ
caller = record {
  id = text "c";
  closed = false;
  claim_requests = [];
  stream_channels = (text "old", 1) ∷ [];
}

abbrev around : OpenSurroundings ℕ Text
around = record {
  stream_id = text "new";
  request_id = text "r";
  channel = 2;
  now = 1000;
  metadata = [];
  publish_error = none;
  bidding =
      bids (record { request_id = text "r"; server_id = text "s"; affinity = 1 })
      ∷ context_done
      ∷ [];
  grant_error = none;
  ending = some acked;
}

abbrev opened : OpenSurroundings ℕ Text → Opening ℕ Text
opened s = open_stream whole caller claiming options s

bidder_is_granted : (opened around).grants ≡ text "s" ∷ []
unfolding open_stream select_server_until run step eligible at_once
bidder_is_granted = refl

canceled_stream_is_gone :
    lookup (opened (record around { ending = some canceled })).client.stream_channels (text "new")
    ≡ none
unfolding lookup open_stream select_server_until run step eligible at_once delete insert
canceled_stream_is_gone = refl

open_keeps_maps_example : Leaves caller around (opened around)
unfolding lookup
open_keeps_maps_example = open_keeps_maps whole caller claiming options around refl refl refl

-- A bid for each of two requests and one for a third that nobody waits for.
abbrev bid : Text → Text → ClaimRequest ℕ
bid request server = record { request_id = request; server_id = server; affinity = 1 }

abbrev waiting : Channels (ClaimRequest ℕ)
waiting = (text "r", []) ∷ (text "q", []) ∷ []

abbrev bidders : List (ClaimRequest ℕ)
bidders = bid (text "r") (text "s") ∷ bid (text "x") (text "s") ∷ bid (text "r") (text "t") ∷ []

-- With channels that hold one message, a second bid that is not read blocks the loop.
unread_bid_blocks : routes (λ k. 1) (λ c. c.request_id) waiting bidders ≡ none
unfolding routes lookup insert
unread_bid_blocks = refl

late_stream_message_is_lost :
    let msg : StreamMessage = record {
      stream_id = text "s";
      request_id = text "r";
      expiry = 0;
      open_node = none;
    } in
    let c : Client ℕ Text = record {
      channel_size = 0;
      multi = [];
      claim_requests = [];
      response_channels = [];
      stream_channels = (text "s", record { recv = []; gone = true }) ∷ [];
      closed = false;
    } in
    handle c (stream msg) ≡ some c
unfolding handle lookup
late_stream_message_is_lost = refl

failed_client_leaves_nothing :
    new_rpc_client {E = ℕ} true true none none none (some 7) ≡ ([], some 7)
unfolding new_rpc_client
failed_client_leaves_nothing = refl

bidders-Fit : Fits (λ k. 2) (λ c. c.request_id) waiting bidders
unfolding lookup mine
bidders-Fit k buffered e = elim (Bool-cases (list_beq (text "r") k)) [
  | inl y ↦ ground (arith, e, y)
  | inr y ↦ ground (arith, e, y)
]

loop_routes_messages_example :
    Gives
      (λ k. 2)
      (λ c. c.request_id)
      waiting
      bidders
      (routes (λ k. 2) (λ c. c.request_id) waiting bidders)
loop_routes_messages_example =
    loop_routes_messages (λ k. 2) (λ c. c.request_id) waiting bidders bidders-Fit

-- Two servers answer before the timeout, and a third after it.
abbrev yes : Response Text
yes = record {
  request_id = text "r";
  server_id = text "s";
  sent_at = 0;
  raw_response = text "yes";
  error = [];
  code = [];
  error_details = [];
}

abbrev asker : MultiClient Text
asker = record { id = text "c"; closed = false; response_channels = [] }

abbrev asking : MultiSurroundings Text
asking = record {
  request_id = text "r";
  now = 0;
  timeout = 10;
  metadata = [];
  publish_error = none;
}

abbrev plain : Text → Result (GoError Text) Text
plain t = ok t

late_answer_is_not_given :
    (request_multi plain asker asking (arrives yes ∷ timeout ∷ arrives yes ∷ []) (ok [])).given
    ≡ (some (text "yes"), none) ∷ []
unfolding request_multi
late_answer_is_not_given = refl

multi_collects_responses_example :
    let m =
      request_multi plain asker asking
        (arrives yes ∷ missed yes ∷ arrives yes ∷ timeout ∷ [])
        (ok []) in
    (m.given ≡ map (read_multi plain) (yes ∷ yes ∷ []))
    × (m.error ≡ none)
    × (m.channel_closed ≡ true)
    × ((j : Text) → lookup m.client.response_channels j ≡ lookup asker.response_channels j)
unfolding taken lookup publish_failed
multi_collects_responses_example =
    multi_collects_responses plain asker asking [] (arrives yes ∷ missed yes ∷ arrives yes ∷ [])
      timeout [] refl refl refl refl

-- Of a request that cannot be published the caller gets no response, though one arrives.
unpublished_gives_nothing :
    (request_multi plain asker
      (record asking { publish_error = some (foreign (text "down") none none) })
      (arrives yes ∷ timeout ∷ [])
      (ok [])).given
    ≡ []
unfolding request_multi
unpublished_gives_nothing = refl

-- A second response to a single request blocks the loop, if the first was not read.
second_response_waits :
    let c : Client ℕ Text = record {
      channel_size = 100;
      multi = [];
      claim_requests = [];
      response_channels = (text "r", yes ∷ []) ∷ [];
      stream_channels = [];
      closed = false;
    } in
    handle c (response yes) ≡ none
unfolding handle lookup among
second_response_waits = refl

abbrev hurried : ClientOptions
hurried =
    and_option (with_client_timeout 50)
      (and_option (with_client_options (and_option with_streams no_options)) no_options)

request_timeout_bounded_example :
    let t =
      (get_request_opts {D = Text} whole (some 20) claiming (get_client_opts hurried) []).timeout in
    (0 < t)
    × (t ≤ 20)
    × (0 < (get_client_opts hurried).timeout → t ≤ (get_client_opts hurried).timeout)
request_timeout_bounded_example =
    request_timeout_bounded {D = Text} whole 20 claiming (get_client_opts hurried) [] (ground arith)
      refl

wrong_interceptor_panics :
    get_request_interceptors rpc_kind
      (1 ∷ [])
      (some (record { kind = stream_kind; interceptor = 2 } ∷ []))
    ≡ none
unfolding get_request_interceptors
wrong_interceptor_panics = refl
