-- ===== src/Client/Wait.antt =====
-- pkg/client/rpc.go: the waiting of a request in newRPC, as the code reacts to what happens: first
-- selection, where servers bid, and then the wait for the response.
use psrpc.Base.{
  Bool, true, false, not, ◌&&◌, List, [], ◌∷◌, Option, none, some, Text, if◌then◌else◌,
  text_comparable,
}
use psrpc.Messages.{Response, ClaimRequest}
use psrpc.Errors.Values.{GoError, err_request_canceled, err_request_timed_out, err_client_closed}
use psrpc.Info.Channels.{RequestInfo}
use psrpc.Client.Select.{
  SelectionOpts, Selection, Progress, Event, Next, continues, returns, init, step,
}
use psrpc.Client.Select.Scores.{Floats}

-- What a waiting call can be woken by. The caller's context was canceled or expired, or only the
-- context of selection ended.
pub data Happening (F D : Type 0) : Type 0 where
  closed canceled expired selection_over : Happening F D
  claimed : ClaimRequest F → Happening F D
  responded : Response D → Happening F D

-- Where waiting led: nowhere yet, to a response, or to an error.
pub data Waited (D : Type 0) : Type 0 where
  waiting : Waited D
  answered : Response D → Waited D
  gave_up : GoError D → Waited D

-- Where selection led: to such an end, or to a server to grant, with what happened afterwards left.
pub data Phase (F D : Type 0) : Type 0 where
  over : Waited D → Phase F D
  chose : Text → List (Happening F D) → Phase F D

-- A server is granted, and then `rest` happens, unless the grant could not be published.
unfoldable pub grant :
    {D : Type 0} → Option (GoError D) → Text → List Text × Waited D → List Text × Waited D
grant (some e) id rest = (id ∷ [], gave_up e)
grant none id (ids, w) = (id ∷ ids, w)

module _ {F D : Type 0} where
  unfoldable pub to_event : Happening F D → Event F D
  to_event closed = Event.closed
  to_event canceled = Event.done
  to_event expired = Event.done
  to_event selection_over = Event.done
  to_event (claimed c) = Event.claimed c
  to_event (responded r) = Event.responded r

  -- What stays ready once it happened.
  unfoldable pub stays : Happening F D → List (Happening F D) → List (Happening F D)
  stays closed es = closed ∷ es
  stays canceled es = canceled ∷ es
  stays expired es = expired ∷ es
  stays _ es = es

  unfoldable pub chosen : Text → Option (Response D) → List (Happening F D) → Phase F D
  chosen id (some r) es = over (answered r)
  chosen id none es = chose id es

  unfoldable pub ended : Selection D → Option (GoError D) → List (Happening F D) → Phase F D
  unfolding chosen
  ended s (some e) es = over (gave_up e)
  ended s none es = chosen s.server_id s.res es

  unfoldable pub go_on : Next F D → List (Happening F D) → (Progress F D → Phase F D) → Phase F D
  unfolding ended
  go_on (continues p) es k = k p
  go_on (returns s err) es k = ended s err es

  -- selectServerUntil, keeping what happens after it returned.
  module _ (fl : Floats F) (opts : SelectionOpts F D) where
    unfoldable pub select_phase : List (Happening F D) → Progress F D → Phase F D
    unfolding go_on stays step to_event
    select_phase [] p = over waiting
    select_phase (e ∷ es) p = go_on (step fl opts (to_event e) p) (stays e es) (select_phase es)

  -- The loop that waits for the response; `bids` says that a bid is still to be granted.
  unfoldable pub wait_response :
      Option (GoError D) → List (Happening F D) → Bool → List Text × Waited D
  unfolding grant
  wait_response ge [] bids = ([], waiting)
  wait_response ge (responded r ∷ es) bids = ([], answered r)
  wait_response ge (claimed c ∷ es) true = grant ge c.server_id (wait_response ge es false)
  wait_response ge (claimed c ∷ es) false = wait_response ge es false
  wait_response ge (canceled ∷ es) bids = ([], gave_up err_request_canceled)
  wait_response ge (expired ∷ es) bids = ([], gave_up err_request_timed_out)
  wait_response ge (closed ∷ es) bids = ([], gave_up err_client_closed)
  wait_response ge (selection_over ∷ es) bids = wait_response ge es bids

  unfoldable pub after_selection : Option (GoError D) → Phase F D → List Text × Waited D
  unfolding grant wait_response
  after_selection ge (over w) = ([], w)
  after_selection ge (chose id es) = grant ge id (wait_response ge es false)

  -- All the waiting of a call.
  unfoldable pub await :
      Floats F
      → SelectionOpts F D
      → Option (GoError D)
      → RequestInfo
      → List (Happening F D)
      → List Text × Waited D
  unfolding after_selection select_phase wait_response
  await fl opts ge i es =
      if i.require_claim && not i.queue
      then after_selection ge (select_phase fl opts es (init fl))
      else wait_response ge es (i.require_claim && i.queue)
