-- ===== src/Client/Streams.antt =====
-- pkg/client/stream.go: OpenStream, from its registration to its result. What happens meanwhile is
-- given: the events of selection, and what ends the wait for the acknowledgement. A stream is known
-- by its ID. Its own goroutine, runClientStream, which may close it meanwhile, is left out.
use psrpc.Base.{
  ℕ, ◌+◌, Bool, true, false, List, [], ◌∷◌, Option, none, some, Text, if◌then◌else◌,
  text_comparable,
}
use psrpc.Base.Assoc.{insert, delete}
use psrpc.Messages.{ClaimRequest}
use psrpc.Errors.Codes.{ErrorCode}
use psrpc.Errors.Values.{
  GoError, new_error, err_request_canceled, err_request_timed_out, err_client_closed,
}
use psrpc.Info.Channels.{RequestInfo}
use psrpc.Client.Select.{SelectionOpts, Event, Next, continues, returns, select_server_until}
use psrpc.Client.Select.Scores.{Floats}
use psrpc.Client.Rpc.{RequestOpts}

-- The client's maps, and whether it is closed. The channels of a stream are one entry.
pub record StreamClient (F : Type 0) : Type 0 where
  pub id : Text
  pub closed : Bool
  pub claim_requests : List (Text × List (ClaimRequest F))
  pub stream_channels : List (Text × ℕ)

-- The open that is published.
pub record OpenRequest : Type 0 where
  pub stream_id : Text
  pub request_id : Text
  pub node_id : Text
  pub sent_at : ℕ
  pub expiry : ℕ
  pub metadata : List (Text × Text)

-- What selection can be woken by: no response can arrive.
pub data Bidding (F : Type 0) : Type 0 where
  client_closed context_done : Bidding F
  bids : ClaimRequest F → Bidding F

unfoldable pub bidding_event : {F D : Type 0} → Bidding F → Event F D
bidding_event client_closed = Event.closed
bidding_event context_done = Event.done
bidding_event (bids c) = Event.claimed c

unfoldable pub bidding_events : {F D : Type 0} → List (Bidding F) → List (Event F D)
unfolding bidding_event
bidding_events [] = []
bidding_events (b ∷ bs) = bidding_event b ∷ bidding_events bs

-- What ends the last wait.
pub data Ending : Type 0 where
  acked canceled expired closing : Ending

-- What the caller and the bus provide. `channel` stands for the new stream's channels.
pub record OpenSurroundings (F D : Type 0) : Type 0 where
  pub stream_id : Text
  pub request_id : Text
  pub channel : ℕ
  pub now : ℕ
  pub metadata : List (Text × Text)
  pub publish_error : Option (GoError D)
  pub bidding : List (Bidding F)
  pub grant_error : Option (GoError D)
  pub ending : Option Ending

-- Where the open led: nowhere yet, to the stream, or to an error, with the cause that its stream was
-- closed with.
pub data Outcome (D : Type 0) : Type 0 where
  waits opens : Outcome D
  fails : GoError D → GoError D → Outcome D

module _ {D : Type 0} where
  unfoldable pub await_ack : Option Ending → Outcome D
  await_ack none = waits
  await_ack (some acked) = opens
  await_ack (some canceled) = fails err_request_canceled err_request_canceled
  await_ack (some expired) = fails err_request_timed_out err_request_timed_out
  await_ack (some closing) = fails err_client_closed err_client_closed

  -- A server is granted, and then the acknowledgement awaited.
  unfoldable pub grant_stream : Option (GoError D) → Text → Option Ending → List Text × Outcome D
  unfolding await_ack new_error
  grant_stream (some e) server_id ending =
      (server_id ∷ [], fails e (new_error ErrorCode.internal e []))
  grant_stream none server_id ending = (server_id ∷ [], await_ack ending)

  unfoldable pub selected_stream :
      Option (GoError D) → Text → Option (GoError D) → Option Ending → List Text × Outcome D
  unfolding grant_stream
  selected_stream ge server_id (some e) ending = ([], fails e e)
  selected_stream ge server_id none ending = grant_stream ge server_id ending

  unfoldable pub after_bidding :
      {F : Type 0} → Option (GoError D) → Next F D → Option Ending → List Text × Outcome D
  unfolding selected_stream
  after_bidding ge (continues p) ending = ([], waits)
  after_bidding ge (returns s err) ending = selected_stream ge s.server_id err ending

module _ {F D : Type 0} (fl : Floats F) (i : RequestInfo) (opts : SelectionOpts F D) where
  -- What follows the publication of the open.
  unfoldable pub published_open : OpenSurroundings F D → Option (GoError D) → List Text × Outcome D
  unfolding after_bidding await_ack bidding_events new_error
  published_open s (some e) = ([], fails e (new_error ErrorCode.internal e []))
  published_open s none =
      if i.require_claim
      then after_bidding s.grant_error (select_server_until fl opts (bidding_events s.bidding))
          s.ending
      else ([], await_ack s.ending)

-- How far an open got: `result` is `none` while it waits, and `closed_with` the cause of its
-- stream's close.
pub record Opening (F D : Type 0) : Type 0 where
  pub client : StreamClient F
  pub request : Option OpenRequest
  pub grants : List Text
  pub closed_with : Option (GoError D)
  pub result : Option (Option (GoError D))

module _ {F D : Type 0} where
  unfoldable pub register_stream : StreamClient F → OpenSurroundings F D → StreamClient F
  register_stream c s = record c {
    claim_requests = insert c.claim_requests s.request_id [];
    stream_channels = insert c.stream_channels s.stream_id s.channel;
  }

  -- The deferred removal of the claim channel.
  unfoldable pub forget_claims : StreamClient F → OpenSurroundings F D → StreamClient F
  forget_claims c s = record c { claim_requests = delete c.claim_requests s.request_id }

  -- clientStream.Close, which the stream's close calls.
  unfoldable pub close_channels : StreamClient F → OpenSurroundings F D → StreamClient F
  close_channels c s = record c { stream_channels = delete c.stream_channels s.stream_id }

  unfoldable pub conclude_open :
      StreamClient F → OpenSurroundings F D → OpenRequest → List Text × Outcome D → Opening F D
  unfolding forget_claims close_channels
  conclude_open c s req (grants, waits) = record {
    client = c;
    request = some req;
    grants = grants;
    closed_with = none;
    result = none;
  }
  conclude_open c s req (grants, opens) = record {
    client = forget_claims c s;
    request = some req;
    grants = grants;
    closed_with = none;
    result = some none;
  }
  conclude_open c s req (grants, fails cause e) = record {
    client = forget_claims (close_channels c s) s;
    request = some req;
    grants = grants;
    closed_with = some cause;
    result = some (some e);
  }

  abbrev pub open_request : StreamClient F → RequestOpts F D → OpenSurroundings F D → OpenRequest
  open_request c o s = record {
    stream_id = s.stream_id;
    request_id = s.request_id;
    node_id = c.id;
    sent_at = s.now;
    expiry = s.now + o.timeout;
    metadata = s.metadata;
  }

-- OpenStream, by whether the client is closed.
unfoldable pub open_unless :
    {F D : Type 0}
    → Bool
    → Floats F
    → StreamClient F
    → RequestInfo
    → RequestOpts F D
    → OpenSurroundings F D
    → Opening F D
unfolding published_open register_stream conclude_open
open_unless true fl c i o s = record {
  client = c;
  request = none;
  grants = [];
  closed_with = none;
  result = some (some err_client_closed);
}
open_unless false fl c i o s =
    conclude_open (register_stream c s) s (open_request c o s)
      (published_open fl i o.selection_opts s s.publish_error)

-- OpenStream.
unfoldable pub open_stream :
    {F D : Type 0}
    → Floats F
    → StreamClient F
    → RequestInfo
    → RequestOpts F D
    → OpenSurroundings F D
    → Opening F D
unfolding open_unless
open_stream fl c i o s = open_unless c.closed fl c i o s
