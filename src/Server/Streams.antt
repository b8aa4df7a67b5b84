-- ===== src/Server/Streams.antt =====
-- pkg/server/stream.go: how a server's handler takes messages of streams, claims and opens streams
-- and closes. What the rest of the world does meanwhile is given by an `Around`. A stream is known by
-- a number; what is inside one is the business of internal/stream.
use psrpc.Base.{
  ltb, ℕ, suc, Bool, true, false, List, [], ◌∷◌, ◌++◌, Option, none, some, Text, list_beq, nat_beq,
  ◌||◌, if◌then◌else◌, text_comparable,
}
use psrpc.Base.Assoc.{lookup, insert, delete}
use psrpc.Messages.{ClaimRequest, ClaimResponse}
use psrpc.Errors.Values.{GoError}
use psrpc.Info.Channels.{Channel, RequestInfo, claim_request_channel}
use psrpc.Client.Select.Scores.{Floats}

-- internal.Stream, with the node of its body where that is an open; other bodies are for the stream
-- that they name.
pub record StreamMessage : Type 0 where
  pub stream_id : Text
  pub request_id : Text
  pub expiry : ℕ
  pub open_node : Option Text

-- What the world does during an open: the errors of the bus, the client's decision, if it comes
-- before the request expires, how the handler's function ends, and the cause of a Close that came
-- before the open's own, by the function or by the peer, if there was one: it is run to its end.
pub record Around (D : Type 0) : Type 0 where
  pub bid_error : Option (GoError D)
  pub decision : Option ClaimResponse
  pub ack_error : Option (GoError D)
  pub handler_error : Option (GoError D)
  pub hijacked : Bool
  pub earlier_close : Option (Option (GoError D))

-- streamHandler, with what it did: the bids that it published, what it gave to streams, how often
-- its function ran, and the streams whose close was begun, each with the cause that it keeps. One of
-- these that is still in the map waits for what is pending.
pub record StreamHandler (F D : Type 0) : Type 0 where
  pub streams : List (Text × ℕ)
  pub claims : List (Text × Option ClaimResponse)
  pub draining : Bool
  pub bids : List (Channel × ClaimRequest F)
  pub handled : List (ℕ × StreamMessage)
  pub calls : ℕ
  pub closed : List (ℕ × Option (GoError D))

-- The select that ends claimRequest.
unfoldable pub claim_decided : Text → Option ClaimResponse → Bool
claim_decided id none = false
claim_decided id (some claim) = list_beq claim.server_id id

unfoldable pub claim_result :
    {D : Type 0} → Text → Option (GoError D) → Option ClaimResponse → Bool × Option (GoError D)
unfolding claim_decided
claim_result id (some e) decision = (false, some e)
claim_result id none decision = (claim_decided id decision, none)

-- Whether a stream's close was begun.
unfoldable pub is_closed : {D : Type 0} → List (ℕ × Option (GoError D)) → ℕ → Bool
is_closed [] ss = false
is_closed ((other, cause) ∷ rest) ss = nat_beq other ss || is_closed rest ss

module _ {F D : Type 0} where
  -- serverStream.Close, which a stream calls when it closes.
  unfoldable pub forget_stream : StreamHandler F D → Text → StreamHandler F D
  forget_stream h stream_id = record h { streams = delete h.streams stream_id }

  -- The Close of a stream that is not closed, from setClosed to its end.
  unfoldable pub end_stream : StreamHandler F D → Text → ℕ → Option (GoError D) → StreamHandler F D
  unfolding forget_stream
  end_stream h stream_id ss cause =
      forget_stream (record h { closed = h.closed ++ (ss, cause) ∷ [] }) stream_id

  -- The Close of a new stream, which is refused where there was an earlier one.
  unfoldable pub close_once :
      Option (Option (GoError D))
      → StreamHandler F D
      → Text
      → ℕ
      → Option (GoError D)
      → StreamHandler F D
  unfolding end_stream
  close_once none h stream_id ss cause = end_stream h stream_id ss cause
  close_once (some earlier) h stream_id ss cause = end_stream h stream_id ss earlier

  -- A new stream is left open, unless it was closed earlier.
  unfoldable pub leave_open :
      Option (Option (GoError D)) → StreamHandler F D → Text → ℕ → StreamHandler F D
  unfolding end_stream
  leave_open none h stream_id ss = h
  leave_open (some earlier) h stream_id ss = end_stream h stream_id ss earlier

  -- Close, which a stream that is closed already refuses.
  unfoldable pub close_stream :
      StreamHandler F D → Text → ℕ → Option (GoError D) → StreamHandler F D
  unfolding end_stream is_closed
  close_stream h stream_id ss cause =
      if is_closed h.closed ss then h else end_stream h stream_id ss cause

  -- A bid, between the registration of its claim channel and the deferred removal.
  unfoldable pub bid_for :
      Text
      → Text
      → Around D
      → StreamHandler F D
      → StreamMessage
      → Text
      → F
      → StreamHandler F D × (Bool × Option (GoError D))
  unfolding claim_result
  bid_for service id out h is node affinity =
      let message : ClaimRequest F = record {
        request_id = is.request_id;
        server_id = id;
        affinity = affinity;
      } in
      let registered = insert h.claims is.request_id none in
      (
        record h {
          bids = h.bids ++ (claim_request_channel service node, message) ∷ [];
          claims = delete registered is.request_id;
        },
        claim_result id out.bid_error out.decision,
      )

  module _ (fl : Floats F) (one : F) (i : RequestInfo) (id : Text) (affinity_func : Option F)
      (out : Around D) where
    -- claimRequest; the affinity is what the function returns, if there is one.
    unfoldable pub claim_with :
        Option F
        → StreamHandler F D
        → StreamMessage
        → Text
        → StreamHandler F D × (Bool × Option (GoError D))
    unfolding bid_for
    claim_with none h is node = bid_for i.service id out h is node one
    claim_with (some affinity) h is node =
        if fl.lt affinity fl.zero
        then (h, (false, none))
        else bid_for i.service id out h is node affinity

    unfoldable pub claim_stream :
        StreamHandler F D → StreamMessage → Text → StreamHandler F D × (Bool × Option (GoError D))
    unfolding claim_with
    claim_stream h is node = claim_with affinity_func h is node

    -- The handler's function has returned.
    unfoldable pub after_handler : StreamHandler F D → Text → ℕ → StreamHandler F D
    unfolding close_once leave_open
    after_handler h stream_id ss =
        if out.hijacked
        then leave_open out.earlier_close h stream_id ss
        else close_once out.earlier_close h stream_id ss out.handler_error

    -- The open is acknowledged, or not.
    unfoldable pub acknowledged :
        Option (GoError D) → StreamHandler F D → Text → ℕ → StreamHandler F D × Option (GoError D)
    unfolding close_once after_handler
    acknowledged (some e) h stream_id ss =
        (close_once out.earlier_close h stream_id ss (some e), some e)
    acknowledged none h stream_id ss =
        (after_handler (record h { calls = suc h.calls }) stream_id ss, none)

    -- A new stream, which is in the map before its open is acknowledged.
    unfoldable pub open_stream :
        StreamHandler F D → StreamMessage → ℕ → StreamHandler F D × Option (GoError D)
    unfolding acknowledged
    open_stream h is ss =
        acknowledged out.ack_error (record h { streams = insert h.streams is.stream_id ss })
          is.stream_id ss

    unfoldable pub opened_if :
        StreamMessage
        → ℕ
        → StreamHandler F D × (Bool × Option (GoError D))
        → StreamHandler F D × Option (GoError D)
    unfolding open_stream
    opened_if is ss (h, (false, err)) = (h, err)
    opened_if is ss (h, (true, err)) = open_stream h is ss

    -- handleOpenRequest, of a stream that is to be `ss`.
    unfoldable pub handle_open_request :
        StreamHandler F D → StreamMessage → Text → ℕ → StreamHandler F D × Option (GoError D)
    unfolding opened_if claim_stream
    handle_open_request h is node ss =
        if i.require_claim then opened_if is ss (claim_stream h is node) else open_stream h is ss

    -- A message that is no open goes to its stream, if that is there.
    unfoldable pub to_stream :
        Option ℕ → StreamHandler F D → StreamMessage → StreamHandler F D × Option (GoError D)
    to_stream none h is = (h, none)
    to_stream (some ss) h is = (record h { handled = h.handled ++ (ss, is) ∷ [] }, none)

    -- handleRequest, with the goroutine of an open run to its end.
    unfoldable pub handle_body :
        Option Text → StreamHandler F D → StreamMessage → ℕ → StreamHandler F D × Option (GoError D)
    unfolding handle_open_request to_stream
    handle_body none h is ss = to_stream (lookup h.streams is.stream_id) h is
    handle_body (some node) h is ss =
        if h.draining then (h, none) else handle_open_request h is node ss

    unfoldable pub handle_message :
        StreamHandler F D → StreamMessage → ℕ → StreamHandler F D × Option (GoError D)
    unfolding handle_body
    handle_message h is ss = handle_body is.open_node h is ss

    -- run: an expired message is skipped.
    unfoldable pub take_message :
        ℕ → StreamHandler F D → StreamMessage → ℕ → StreamHandler F D × Option (GoError D)
    unfolding handle_message
    take_message now h is ss = if ltb now is.expiry then handle_message h is ss else (h, none)

  -- run, a claim response: it goes to the claim that waits for it. Without a result the loop blocks,
  -- since a response that has not been read fills the channel.
  unfoldable pub claim_buffered :
      StreamHandler F D → ClaimResponse → Option (Option ClaimResponse) → Option (StreamHandler F D)
  claim_buffered h claim none = some h
  claim_buffered h claim (some none) =
      some (record h { claims = insert h.claims claim.request_id (some claim) })
  claim_buffered h claim (some (some earlier)) = none

  unfoldable pub route_claim : StreamHandler F D → ClaimResponse → Option (StreamHandler F D)
  unfolding claim_buffered
  route_claim h claim = claim_buffered h claim (lookup h.claims claim.request_id)

  -- The streams of the map are closed, each with the same cause, but for those closed already.
  unfoldable pub close_streams :
      StreamHandler F D → List (Text × ℕ) → Option (GoError D) → StreamHandler F D
  unfolding close_stream
  close_streams h [] cause = h
  close_streams h ((stream_id, ss) ∷ rest) cause =
      close_streams (close_stream h stream_id ss cause) rest cause

  -- close, without the subscriptions that it closes and its onCompleted.
  unfoldable pub close_handler : StreamHandler F D → GoError D → StreamHandler F D
  unfolding close_streams
  close_handler h eof = close_streams (record h { draining = true }) h.streams (some eof)
