-- ===== src/Client/Multi.antt =====
-- pkg/client/multi.go: RequestMulti, whose request many servers answer. What happens meanwhile is a
-- list of events.
use psrpc.Base.{
  ℕ, ◌+◌, Bool, true, false, not, List, [], ◌∷◌, ◌++◌, Option, none, some, Text, if◌then◌else◌,
  list_beq, Result, ok, failed, text_comparable,
}
use psrpc.Base.Assoc.{insert, delete}
use psrpc.Messages.{Request, Response}
use psrpc.Errors.Codes.{ErrorCode}
use psrpc.Errors.Values.{GoError, coded, new_error, new_error_from_response, err_client_closed}

-- What handleResponses is woken by. The caller takes a response from the channel that it was given,
-- or the client is closed before it does.
pub data MultiEvent (D : Type 0) : Type 0 where
  arrives missed : Response D → MultiEvent D
  timeout context_done client_closed : MultiEvent D

pub record MultiClient (D : Type 0) : Type 0 where
  pub id : Text
  pub closed : Bool
  pub response_channels : List (Text × List (Response D))

pub record MultiSurroundings (D : Type 0) : Type 0 where
  pub request_id : Text
  pub now : ℕ
  pub timeout : ℕ
  pub metadata : List (Text × Text)
  pub publish_error : Option (GoError D)

-- A call: what RequestMulti returned, the request that was published, what the caller was given on
-- its channel, and whether that was closed.
pub record MultiCall (P D : Type 0) : Type 0 where
  pub client : MultiClient D
  pub error : Option (GoError D)
  pub request : Option Request
  pub given : List (Option P × Option (GoError D))
  pub channel_closed : Bool

module _ {P D : Type 0} (unmarshal : Text → Result (GoError D) P) where
  -- A payload, or the error that it cannot be read.
  unfoldable pub decoded : Result (GoError D) P → Option P × Option (GoError D)
  unfolding new_error
  decoded (ok p) = (some p, none)
  decoded (failed e) = (none, some (new_error ErrorCode.malformed_response e []))

  unfoldable pub read_multi : Response D → Option P × Option (GoError D)
  unfolding decoded new_error_from_response
  read_multi res =
      if not (list_beq res.error [])
      then (none, some (coded (new_error_from_response res.code res.error res.error_details)))
      else decoded (unmarshal res.raw_response)

  -- multiRPC.Close.
  unfoldable pub close_multi : MultiCall P D → Text → MultiCall P D
  close_multi m rid = record m {
    client = record m.client { response_channels = delete m.client.response_channels rid };
    channel_closed = true;
  }

  -- handleResponses, which waits where the events end.
  unfoldable pub handle_responses : MultiCall P D → Text → List (MultiEvent D) → MultiCall P D
  unfolding read_multi close_multi
  handle_responses m rid [] = m
  handle_responses m rid (arrives res ∷ es) =
      handle_responses (record m { given = m.given ++ read_multi res ∷ [] }) rid es
  handle_responses m rid (missed res ∷ es) = handle_responses m rid es
  handle_responses m rid (timeout ∷ es) = close_multi m rid
  handle_responses m rid (context_done ∷ es) = close_multi m rid
  handle_responses m rid (client_closed ∷ es) = close_multi m rid

  abbrev pub multi_request : MultiClient D → MultiSurroundings D → Text → Request
  multi_request c s b = record {
    request_id = s.request_id;
    client_id = c.id;
    sent_at = s.now;
    expiry = s.now + s.timeout;
    multi = true;
    raw_request = b;
    metadata = s.metadata;
    no_claim = false;
    per_request_reply = false;
  }

  unfoldable pub publish_failed : Option (GoError D) → Option (GoError D)
  unfolding new_error
  publish_failed none = none
  publish_failed (some e) = some (new_error ErrorCode.internal e [])

  -- What the caller was given, who gets no channel where the request could not be published.
  unfoldable pub handed : Option (GoError D) → MultiCall P D → MultiCall P D
  handed none m = m
  handed (some e) m = record m { given = [] }

  -- Send, and RequestMulti's return: the responses are handled also where the request could not be published.
  unfoldable pub send_multi :
      MultiClient D
      → MultiSurroundings D
      → List (MultiEvent D)
      → Result (GoError D) Text
      → MultiCall P D
  unfolding handle_responses publish_failed new_error handed
  send_multi c s es (failed e) = record {
    client = c;
    error = some (new_error ErrorCode.malformed_request e []);
    request = none;
    given = [];
    channel_closed = false;
  }
  send_multi c s es (ok b) = handed s.publish_error (
      handle_responses
        (record {
          client = record c { response_channels = insert c.response_channels s.request_id [] };
          error = publish_failed s.publish_error;
          request = some (multi_request c s b);
          given = [];
          channel_closed = false;
        })
        s.request_id es)

  -- RequestMulti, of a request in its encoding.
  unfoldable pub request_multi :
      MultiClient D
      → MultiSurroundings D
      → List (MultiEvent D)
      → Result (GoError D) Text
      → MultiCall P D
  unfolding send_multi
  request_multi c s es b =
      if c.closed
      then record {
        client = c;
        error = some err_client_closed;
        request = none;
        given = [];
        channel_closed = false;
      }
      else send_multi c s es b

  -- The responses that the caller takes from its channel.
  unfoldable pub taken : List (MultiEvent D) → List (Response D)
  taken [] = []
  taken (arrives res ∷ es) = res ∷ taken es
  taken (_ ∷ es) = taken es
