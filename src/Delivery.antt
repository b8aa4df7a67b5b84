-- ===== src/Delivery.antt =====
-- A request from end to end: pkg/client/rpc.go on one side, pkg/server/rpc.go on the other.
mod Tests
use psrpc.Base.{
  ◌≡◌, refl, sym, ◌∙◌, ap, Bool, true, false, ◌&&◌, List, [], ◌∷◌, ◌++◌, Option, none, some, Text,
  All, Result, ok, if◌then◌else◌, text_comparable,
}
use psrpc.Base.Assoc.{lookup}
use psrpc.Messages.{Request, Response}
use psrpc.Errors.Values.{GoError}
use psrpc.Info.Channels.{Channel, RequestInfo, response_channel}
use psrpc.Client.Select.Scores.{Floats}
use psrpc.Client.Wait.{Happening, responded}
use psrpc.Client.Rpc.{
  RequestOpts, RpcClient, Surroundings, new_rpc, selects, request_of, unanswered_wait, expiry_of,
  packed, call, conclude,
}
use psrpc.Client.Outcomes.{IsQuiet, call_returns_answer}
use psrpc.Server.Respond.{answer_channel, send_response}
use psrpc.Server.Answers.{response_reaches_caller}
use psrpc.Server.Handle.{RpcHandler, Outside, Trace, handle_request}
use psrpc.Server.Serving.{answers, own_answer, to_serve, request_served_once}

-- For an rpc without claims, of which no selection is asked if it is a queue's: the server that handles the request which a call published answers it
-- once, on the channel that the request asks for; and the call that gets this answer before anything
-- that ends it returns the response that the handler returned, if the handler returned one without an
-- error, the request could be published, the ID of the request was not in use at the server and
-- protobuf reads back what it wrote.
pub call_returns_handler_response :
    {Q P F D : Type 0} (fl : Floats F) (one : F) (pack_request : Q → Result (GoError D) Text)
    (read_request : Text → Result (GoError D) Q) (pack_response : P → Result (GoError D) Text)
    (unpack_response : Text → Result (GoError D) P) (c : RpcClient F D) (i : RequestInfo)
    (o : RequestOpts F D) (s : Surroundings D) (h : RpcHandler Q P F D) (out : Outside D)
    (t : Trace F D) (front back : List (Happening F D)) (q : Q) (p : P) (b d : Text)
    → i.require_claim ≡ false
    → h.i.require_claim ≡ false
    → (i.queue && selects fl o.selection_opts) ≡ false
    → s.publish_error ≡ none
    → pack_request q ≡ ok b
    → read_request b ≡ ok q
    → h.handler q ≡ (some p, none)
    → pack_response p ≡ ok d
    → unpack_response d ≡ ok p
    → lookup t.claims s.request_id ≡ none
    → All IsQuiet front
    → let ir = request_of fl pack_request unpack_response c i o s b in
      (r : Response D) × (answers
          (handle_request fl one h out pack_response read_request t ir).0.published
        ≡ answers t.published ++ (answer_channel h.i.service ir response_channel, r) ∷ [])
      × ((new_rpc fl pack_request unpack_response c i o s (front ++ responded r ∷ back) q).result
          ≡ some (some p, none))
call_returns_handler_response fl one mq uq mp up c i o s h out t front back q p b d k l z e m n g w
      x fresh quiet =
    let ir = request_of fl mq up c i o s b in
    let r : Response _ = send_response mp h.id out.now ir (some p) none in
    let served_answer : answers t.published
          ++ (if to_serve fl one h out ir q then own_answer fl one h out mp uq ir q ∷ [] else [])
        ≡ answers t.published ++ (answer_channel h.i.service ir response_channel, r) ∷ [] =
      rw (l, g) refl in
    let served = request_served_once fl one h out mp uq t ir q n fresh in
    (
      r,
      served.1 ∙ served_answer,
      call_returns_answer fl mq up c i o s front r back q b k z m e quiet
          ∙ ap some (
              response_reaches_caller mp up h.id out.now
                (unanswered_wait i o.selection_opts s.now (expiry_of s.now o.timeout s.deadline)) ir
                p d w x),
    )
