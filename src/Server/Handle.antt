-- ===== src/Server/Handle.antt =====
-- pkg/server/rpc.go: claimRequest and handleRequest. What the rest of the world does meanwhile, the
-- errors of the bus and the decision of the client, is given by an `Outside`.
use psrpc.Base.{
  ℕ, ◌+◌, Bool, true, false, ◌&&◌, List, [], ◌∷◌, ◌++◌, Option, none, some, Text, list_beq,
  if◌then◌else◌, Result, ok, failed, text_comparable,
}
use psrpc.Base.Assoc.{insert, delete}
use psrpc.Messages.{Request, Response, ClaimRequest, ClaimResponse}
use psrpc.Errors.Codes.{ErrorCode}
use psrpc.Errors.Values.{GoError, new_error}
use psrpc.Info.Channels.{Channel, RequestInfo, claim_request_channel, response_channel}
use psrpc.Client.Select.Scores.{Floats}
use psrpc.Server.Respond.{answer_channel, send_response}

-- psrpc.ClaimOutcome, as the request observer is told.
pub data ClaimOutcome : Type 0 where
  claim_skipped claim_granted claim_lost_to_peer claim_timed_out : ClaimOutcome

pub data Publication (F D : Type 0) : Type 0 where
  bid : Channel → ClaimRequest F → Publication F D
  answer : Channel → Response D → Publication F D

-- rpcHandlerImpl, with the service's name and the server's ID. A handler's response may be nil.
pub record RpcHandler (P R F D : Type 0) : Type 0 where
  pub i : RequestInfo
  pub id : Text
  pub handler : P → Option R × Option (GoError D)
  pub affinity_func : Option (P → F)

pub record Outside (D : Type 0) : Type 0 where
  pub bid_error : Option (GoError D)
  pub answer_error : Option (GoError D)
  pub now : ℕ
  -- The claim response that comes before the request expires.
  pub decision : Option ClaimResponse

-- What a request has led to: `claims` is the handler's map, each channel with what is buffered in it.
pub record Trace (F D : Type 0) : Type 0 where
  pub claims : List (Text × Option ClaimResponse)
  pub published : List (Publication F D)
  pub observed : List ClaimOutcome
  pub calls : ℕ

module _ {F D : Type 0} where
  unfoldable pub observe : Trace F D → ClaimOutcome → Trace F D
  observe t o = record t { observed = t.observed ++ o ∷ [] }

  unfoldable pub publish : Trace F D → Publication F D → Trace F D
  publish t p = record t { published = t.published ++ p ∷ [] }

  -- The select that ends claimRequest.
  unfoldable pub decide : Text → Trace F D → Option ClaimResponse → Trace F D × Bool
  unfolding observe
  decide id t (some claim) =
      if list_beq claim.server_id id
      then (observe t claim_granted, true)
      else (observe t claim_lost_to_peer, false)
  decide id t none = (observe t claim_timed_out, false)

  -- What follows the publication of the bid.
  unfoldable pub bidden :
      Text
      → Trace F D
      → Option (GoError D)
      → Option ClaimResponse
      → Trace F D × Result (GoError D) Bool
  unfolding decide
  bidden id t (some e) decision = (t, failed e)
  bidden id t none decision = ((decide id t decision).0, ok (decide id t decision).1)

  unfoldable pub unregister :
      Text → Trace F D × Result (GoError D) Bool → Trace F D × Result (GoError D) Bool
  unregister rid (t, result) = (record t { claims = delete t.claims rid }, result)

  -- The bid, between the registration of its claim channel and the deferred removal.
  unfoldable pub offer :
      Text → Text → Outside D → Trace F D → Request → F → Trace F D × Result (GoError D) Bool
  unfolding publish bidden unregister
  offer service id out t ir affinity =
      let message : ClaimRequest F = record {
        request_id = ir.request_id;
        server_id = id;
        affinity = affinity;
      } in
      let t' =
        publish (record t { claims = insert t.claims ir.request_id none })
          (bid (answer_channel service ir claim_request_channel) message) in
      unregister ir.request_id (bidden id t' out.bid_error out.decision)

module _ {P R F D : Type 0} (fl : Floats F) (one : F) (h : RpcHandler P R F D)
    (out : Outside D) where
  unfoldable pub ask :
      Option (P → F) → Trace F D → Request → P → Trace F D × Result (GoError D) Bool
  unfolding offer
  ask (some f) t ir req =
      if fl.lt (f req) fl.zero then (t, ok false) else offer h.i.service h.id out t ir (f req)
  ask none t ir req = offer h.i.service h.id out t ir one

  unfoldable pub claim_request : Trace F D → Request → P → Trace F D × Result (GoError D) Bool
  unfolding observe ask
  claim_request t ir req =
      if h.i.queue && ir.no_claim
      then (observe t claim_skipped, ok true)
      else ask h.affinity_func t ir req

  module _ (marshal : R → Result (GoError D) Text) (unmarshal : Text → Result (GoError D) P) where
    unfoldable pub reply :
        Trace F D → Request → Option R → Option (GoError D) → Trace F D × Option (GoError D)
    unfolding publish
    reply t ir response err = (
      publish t (
          answer (answer_channel h.i.service ir response_channel)
            (send_response marshal h.id out.now ir response err)),
      out.answer_error,
    )

    -- The handler's function runs, and its result is sent.
    unfoldable pub serve : Trace F D → Request → P → Trace F D × Option (GoError D)
    unfolding reply
    serve t ir req = reply (record t { calls = t.calls + 1 }) ir (h.handler req).0 (h.handler req).1

    unfoldable pub claimed :
        Request → P → Trace F D × Result (GoError D) Bool → Trace F D × Option (GoError D)
    unfolding serve
    claimed ir req (t, failed e) = (t, some e)
    claimed ir req (t, ok false) = (t, none)
    claimed ir req (t, ok true) = serve t ir req

    unfoldable pub decoded :
        Trace F D → Request → Result (GoError D) P → Trace F D × Option (GoError D)
    unfolding reply serve claimed claim_request new_error
    decoded t ir (failed e) =
        let err : GoError D = new_error ErrorCode.malformed_request e [] in
        ((reply t ir none (some err)).0, some err)
    decoded t ir (ok req) =
        if h.i.require_claim then claimed ir req (claim_request t ir req) else serve t ir req

    unfoldable pub handle_request : Trace F D → Request → Trace F D × Option (GoError D)
    unfolding decoded
    handle_request t ir = decoded t ir (unmarshal ir.raw_request)
