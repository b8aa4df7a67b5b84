-- ===== src/Client/Routing.antt =====
-- pkg/client/client.go: how a client's loop gives what arrives to the calls and streams that wait for
-- it, over channels each of which holds so many messages; and what NewRPCClient leaves subscribed.
use psrpc.Base.{
  ℕ, Bool, false, ◌||◌, list_beq, true, List, [], ◌∷◌, ◌++◌, Option, none, some, Text,
  if◌then◌else◌, ltb, length, text_comparable,
}
use psrpc.Base.Assoc.{lookup, insert}
use psrpc.Messages.{ClaimRequest, Response}
use psrpc.Server.Streams.{StreamMessage}

-- Channels by what they are for, each with what is buffered in it.
abbrev pub Channels : Type 0 → Type 0
Channels A = List (Text × List A)

module _ {A : Type 0} (size : Text → ℕ) (id_of : A → Text) where
  -- The send on a channel, if there is one. Without a result it blocks the loop.
  unfoldable pub sent : Channels A → A → Option (List A) → Option (Channels A)
  sent m a none = some m
  sent m a (some buffered) =
      if ltb (length buffered) (size (id_of a))
      then some (insert m (id_of a) (buffered ++ a ∷ []))
      else none

  -- routeClaim and routeResponse.
  unfoldable pub route : Channels A → A → Option (Channels A)
  unfolding sent
  route m a = sent m a (lookup m (id_of a))

unfoldable pub among : Text → List Text → Bool
among k [] = false
among k (rid ∷ rest) = list_beq rid k || among k rest

-- streamChannels.
pub record StreamChannels : Type 0 where
  pub recv : List StreamMessage
  pub gone : Bool

-- RPCClient, as its loop sees it. The channel for the responses to a request holds one, or, of a
-- request to many servers, as many as the others, which hold ChannelSize messages.
pub record Client (F D : Type 0) : Type 0 where
  pub channel_size : ℕ
  pub multi : List Text
  pub claim_requests : Channels (ClaimRequest F)
  pub response_channels : Channels (Response D)
  pub stream_channels : List (Text × StreamChannels)
  pub closed : Bool

-- What the loop's select takes: a message, or nil, where a subscription was closed.
pub data Arrival (F D : Type 0) : Type 0 where
  claim : ClaimRequest F → Arrival F D
  response : Response D → Arrival F D
  stream : StreamMessage → Arrival F D
  nothing : Arrival F D

module _ {F D : Type 0} where
  with_claims : Client F D → Option (Channels (ClaimRequest F)) → Option (Client F D)
  with_claims c none = none
  with_claims c (some m) = some (record c { claim_requests = m })

  with_responses : Client F D → Option (Channels (Response D)) → Option (Client F D)
  with_responses c none = none
  with_responses c (some m) = some (record c { response_channels = m })

  -- A message for a stream whose channel is full waits until the stream is closed: there it is lost.
  unfoldable pub stream_sent :
      Client F D → StreamMessage → Option StreamChannels → Option (Client F D)
  stream_sent c msg none = some c
  stream_sent c msg (some chans) =
      if ltb (length chans.recv) c.channel_size
      then some (record c {
        stream_channels =
            insert c.stream_channels msg.stream_id (record chans { recv = chans.recv ++ msg ∷ [] });
      })
      else if chans.gone
      then some c
      else none

  -- What newRPC and multiRPC make the channel of a request with.
  unfoldable pub response_capacity : Client F D → Text → ℕ
  response_capacity c rid = if among rid c.multi then c.channel_size else 1

  -- One turn of the loop of a client that is not closed. Without a result it blocks.
  unfoldable pub handle : Client F D → Arrival F D → Option (Client F D)
  unfolding route with_claims with_responses stream_sent response_capacity
  handle c (claim r) =
      with_claims c (route (λ rid. c.channel_size) (λ r. r.request_id) c.claim_requests r)
  handle c (response r) =
      with_responses c (route (response_capacity c) (λ r. r.request_id) c.response_channels r)
  handle c (stream msg) = stream_sent c msg (lookup c.stream_channels msg.stream_id)
  handle c nothing = some (record c { closed = true })

-- The subscriptions of a client.
pub data Subscribed : Type 0 where
  responses claims streams requests : Subscribed

module _ {E : Type 0} where
  -- Either goes on, or closes those that were made and returns the error.
  unfoldable pub subscribe_next :
      Option E
      → List Subscribed
      → (List Subscribed → List Subscribed × Option E)
      → Subscribed
      → List Subscribed × Option E
  subscribe_next (some e) made rest next = ([], some e)
  subscribe_next none made rest next = rest (made ++ next ∷ [])

  -- NewRPCClient, by whether its subscriptions fail: what is left subscribed, and the error.
  unfoldable pub new_rpc_client :
      Bool → Bool → Option E → Option E → Option E → Option E → List Subscribed × Option E
  unfolding subscribe_next
  new_rpc_client enable_streams inbox er ec es eq =
      subscribe_next er []
        (λ made.
          subscribe_next ec made
            (λ made.
              if enable_streams
              then subscribe_next es made
                  (λ made.
                    if inbox
                    then subscribe_next eq made (λ made. (made, none)) requests
                    else (made, none))
                  streams
              else if inbox
              then subscribe_next eq made (λ made. (made, none)) requests
              else (made, none))
            claims)
        responses
