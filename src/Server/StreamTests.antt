-- ===== src/Server/StreamTests.antt =====
-- Runs of a server's map of handlers, and of its handler of streams over whole-number affinities.
use psrpc.Server.Ending.{close_ends_streams, only_closed, still_open}
use psrpc.Errors.Values.{err_stream_eof}
use psrpc.Server.Opening.{stream_opened_once}
use psrpc.Server.Running.{start, registers, Runs, server_knows_running}
use psrpc.Server.Table.{handler_of}
use psrpc.Base.Assoc.{delete, insert, lookup}
use psrpc.Server.Handlers.{check_registration, close_server, new_rpc_server, RpcServer, add_handler}
use psrpc.Server.Streams.{
  handle_message, close_handler, StreamMessage, Around, StreamHandler, route_claim, is_closed,
}
use psrpc.Base.{
  text_comparable, list_beq, ◌&&◌, if◌then◌else◌, ℕ, ◌≡◌, refl, true, false, [], ◌∷◌, none, some,
  Text, text,
}
use psrpc.Client.Select.Scores.{whole}
use psrpc.Info.Channels.{RequestInfo}

abbrev claiming : RequestInfo
claiming = record {
  service = text "orders";
  method = text "Get";
  topic = [];
  multi = false;
  affinity_enabled = false;
  require_claim = true;
  queue = false;
}

abbrev fresh : StreamHandler ℕ Text
fresh = record {
  streams = (text "old", 1) ∷ [];
  claims = [];
  draining = false;
  bids = [];
  handled = [];
  calls = 0;
  closed = [];
}

abbrev granting : Around Text
granting = record {
  bid_error = none;
  decision = some (record { request_id = text "r"; server_id = text "s" });
  ack_error = none;
  handler_error = none;
  hijacked = true;
  earlier_close = none;
}

abbrev opening : StreamMessage
opening = record {
  stream_id = text "new";
  request_id = text "r";
  expiry = 10;
  open_node = some (text "c");
}

abbrev opened : Around Text → StreamHandler ℕ Text
opened out = (handle_message whole 1 claiming (text "s") none out fresh opening 2).0

hijacked_stream_stays : lookup (opened granting).streams (text "new") ≡ some 2
unfolding lookup handle_message insert
hijacked_stream_stays = refl

lost_claim_opens_nothing :
    (opened (record granting {
      decision = some (record { request_id = text "r"; server_id = text "other" });
    })).calls
    ≡ 0
unfolding handle_message
lost_claim_opens_nothing = refl

message_reaches_stream :
    (handle_message whole 1 claiming
      (text "s")
      none
      granting
      fresh
      (record opening { stream_id = text "old"; open_node = none })
      2).0.handled
    ≡ (1, record opening { stream_id = text "old"; open_node = none }) ∷ []
unfolding handle_message lookup
message_reaches_stream = refl

-- A third claim response for one request blocks the loop, if the first was not read.
second_response_blocks :
    route_claim
      (record fresh {
        claims = (text "r", some (record { request_id = text "r"; server_id = text "s" })) ∷ [];
      })
      (record { request_id = text "r"; server_id = text "t" })
    ≡ none
unfolding route_claim lookup
second_response_blocks = refl

stream_opened_once_example :
    let u = (handle_message whole 1 claiming (text "s") none granting fresh opening 2).0 in
    (u.calls ≡ 1)
    × ((j : Text) → lookup u.claims j ≡ lookup fresh.claims j)
    × ((j : Text)
        → lookup u.streams j
          ≡ (if true && true && list_beq (text "new") j then some 2 else lookup fresh.streams j))
unfolding lookup
stream_opened_once_example =
    stream_opened_once whole 1 claiming (text "s") none granting fresh opening (text "c") 2 refl
      refl refl refl

-- Of two streams one is closed already, and waits for what is pending.
abbrev two_streams : StreamHandler ℕ Text
two_streams = record fresh {
  streams = (text "old", 1) ∷ (text "late", 3) ∷ [];
  closed = (3, none) ∷ [];
}

close_ends_streams_example :
    ((close_handler two_streams err_stream_eof).closed ≡ (3, none) ∷ (1, some err_stream_eof) ∷ [])
    × ((j : Text)
        → lookup (close_handler two_streams err_stream_eof).streams j
          ≡ only_closed {D = Text} ((3, none) ∷ []) (lookup two_streams.streams j))
    × ((is : StreamMessage) (node : Text) (ss : ℕ)
        → is.open_node ≡ some node
        → handle_message whole 1 claiming
            (text "s")
            none
            granting
            (close_handler two_streams err_stream_eof)
            is
            ss
          ≡ (close_handler two_streams err_stream_eof, none))
unfolding still_open is_closed lookup
close_ends_streams_example =
    close_ends_streams whole 1 claiming (text "s") none granting two_streams err_stream_eof
      (refl, (refl, tt), (refl, tt, tt))

-- A stream that its peer closes while the function runs is not kept, though it was hijacked.
closed_stream_goes :
    lookup (opened (record granting { earlier_close = some none })).streams (text "new") ≡ none
unfolding lookup handle_message insert delete
closed_stream_goes = refl

-- A handler is registered, and counted off by its close; another is still there.
abbrev two : RpcServer
two = record { shutdown = false; handlers = (text "a", 1) ∷ (text "b", 2) ∷ []; active = 2 }

two-Runs : Runs two (
    record { key = text "b"; handler = 2; done = false }
    ∷ record { key = text "a"; handler = 1; done = false }
    ∷ [])
unfolding check_registration new_rpc_server lookup add_handler insert
two-Runs = registers (text "b") 2 (registers (text "a") 1 start refl) refl

server_knows_running_example : lookup two.handlers (text "b") ≡ some 2
unfolding handler_of
server_knows_running_example = (server_knows_running two-Runs).0 (text "b")

-- Two registrations of one key whose checks come before either is added: the first handler is no
-- longer in the map, and a close of the server does not reach it, but waits for it.
raced_handler_is_lost :
    let s = add_handler (add_handler new_rpc_server (text "a") 1) (text "a") 2 in
    ((close_server s).1 ≡ 2 ∷ []) × (s.active ≡ 2)
unfolding close_server add_handler new_rpc_server insert
raced_handler_is_lost = (refl, refl)
