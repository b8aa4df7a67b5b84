-- ===== src/Client/Rpc.antt =====
-- pkg/client/rpc.go: newRPC, one request from its options to its result. Payloads go through
-- `marshal` and `unmarshal`, which stand for protobuf's.
use psrpc.Base.{
  ℕ, ◌+◌, ◌-◌, Bool, false, not, ◌&&◌, ◌||◌, List, [], ◌++◌, Option, none, some, Text, text,
  is_some, ltb, if◌then◌else◌, Result, ok, failed, text_comparable,
}
use psrpc.Base.Assoc.{insert, delete}
use psrpc.Messages.{Request, Response, ClaimRequest}
use psrpc.Errors.Codes.{ErrorCode}
use psrpc.Errors.Values.{GoError, new_error, new_errorf}
use psrpc.Info.Channels.{RequestInfo}
use psrpc.Client.Select.{SelectionOpts}
use psrpc.Client.Select.Scores.{Floats}
use psrpc.Server.Respond.{read_response}
use psrpc.Client.Wait.{Happening, Waited, waiting, answered, gave_up, await}

-- RequestOpts. Durations are nanoseconds, and none has passed already.
pub record RequestOpts (F D : Type 0) : Type 0 where
  pub timeout : ℕ
  pub selection_opts : SelectionOpts F D

-- RPCClient: `inbox` says that the bus can address replies to a single request. The maps hold what
-- is buffered in each channel.
pub record RpcClient (F D : Type 0) : Type 0 where
  pub id : Text
  pub inbox : Bool
  pub claim_requests : List (Text × List (ClaimRequest F))
  pub response_channels : List (Text × List (Response D))

-- How far a call got: `result` is `none` while it waits.
pub record Call (P F D : Type 0) : Type 0 where
  pub client : RpcClient F D
  pub request : Option Request
  pub grants : List Text
  pub result : Option (Option P × Option (GoError D))

-- What the caller and the bus provide.
pub record Surroundings (D : Type 0) : Type 0 where
  pub request_id : Text
  pub now : ℕ
  pub deadline : Option ℕ
  pub metadata : List (Text × Text)
  pub publish_error : Option (GoError D)
  pub grant_error : Option (GoError D)

module _ {F D : Type 0} where
  -- How long the caller would wait on a request that nothing received.
  unfoldable pub unanswered_wait : RequestInfo → SelectionOpts F D → ℕ → ℕ → ℕ
  unanswered_wait i opts now expiry =
      let t = opts.affinity_timeout in
      let wait = expiry - now in
      if (i.require_claim && not i.queue) && (ltb 0 t && ltb t wait) then t else wait

  unfoldable pub register : RpcClient F D → RequestInfo → Text → RpcClient F D
  register c i rid = record c {
    claim_requests = if i.require_claim then insert c.claim_requests rid [] else c.claim_requests;
    response_channels = insert c.response_channels rid [];
  }

  unfoldable pub unregister : RpcClient F D → RequestInfo → Text → RpcClient F D
  unregister c i rid = record c {
    claim_requests = if i.require_claim then delete c.claim_requests rid else c.claim_requests;
    response_channels = delete c.response_channels rid;
  }

-- The caller's deadline clamps the expiry.
unfoldable pub expiry_of : ℕ → ℕ → Option ℕ → ℕ
expiry_of now timeout none = now + timeout
expiry_of now timeout (some d) = if ltb d (now + timeout) then d else now + timeout

-- `psrpc.NewError(psrpc.Internal, err)`, for an error of the bus.
unfoldable pub internal_error : {D : Type 0} → Option (GoError D) → Option (GoError D)
unfolding new_error
internal_error none = none
internal_error (some e) = some (new_error ErrorCode.internal e [])

-- The options that would select among bids.
unfoldable pub selects : {F D : Type 0} → Floats F → SelectionOpts F D → Bool
selects fl o =
    is_some o.selection_func
    || (fl.lt fl.zero o.minimum_affinity || fl.lt fl.zero o.maximum_affinity)

module _ {Q P F D : Type 0} (fl : Floats F) (marshal : Q → Result (GoError D) Text)
    (unmarshal : Text → Result (GoError D) P) where
  -- The response channel and claim channel are removed however the call ends.
  unfoldable pub conclude :
      RpcClient F D → RequestInfo → Request → ℕ → List Text × Waited D → Call P F D
  unfolding unregister read_response
  conclude c i req wait (grants, waiting) = record {
    client = c;
    request = some req;
    grants = grants;
    result = none;
  }
  conclude c i req wait (grants, answered r) = record {
    client = unregister c i req.request_id;
    request = some req;
    grants = grants;
    result = some (read_response unmarshal wait r);
  }
  conclude c i req wait (grants, gave_up e) = record {
    client = unregister c i req.request_id;
    request = some req;
    grants = grants;
    result = some (none, some e);
  }

  abbrev pub request_of :
      RpcClient F D → RequestInfo → RequestOpts F D → Surroundings D → Text → Request
  request_of c i o s b = record {
    request_id = s.request_id;
    client_id = c.id;
    sent_at = s.now;
    expiry = expiry_of s.now o.timeout s.deadline;
    multi = false;
    raw_request = b;
    metadata = s.metadata;
    no_claim = i.queue;
    per_request_reply = c.inbox;
  }

  -- Publication, and the waiting after it.
  unfoldable pub call :
      RpcClient F D
      → RequestInfo
      → RequestOpts F D
      → Surroundings D
      → List (Happening F D)
      → Request
      → Option (GoError D)
      → Call P F D
  unfolding register unregister await conclude internal_error unanswered_wait new_error
  call c i o s es req (some e) = record {
    client = unregister (register c i req.request_id) i req.request_id;
    request = some req;
    grants = [];
    result = some (none, some (new_error ErrorCode.internal e []));
  }
  call c i o s es req none =
      conclude (register c i req.request_id) i req
        (unanswered_wait i o.selection_opts s.now req.expiry)
        (await fl o.selection_opts (internal_error s.grant_error) i es)

  unfoldable pub packed :
      RpcClient F D
      → RequestInfo
      → RequestOpts F D
      → Surroundings D
      → List (Happening F D)
      → Result (GoError D) Text
      → Call P F D
  unfolding call expiry_of new_error
  packed c i o s es (failed e) = record {
    client = c;
    request = none;
    grants = [];
    result = some (none, some (new_error ErrorCode.malformed_request e []));
  }
  packed c i o s es (ok b) = call c i o s es (request_of c i o s b) s.publish_error

  unfoldable pub new_rpc :
      RpcClient F D
      → RequestInfo
      → RequestOpts F D
      → Surroundings D
      → List (Happening F D)
      → Q
      → Call P F D
  unfolding packed selects new_errorf
  new_rpc c i o s es request =
      if i.queue && selects fl o.selection_opts
      then record {
        client = c;
        request = none;
        grants = [];
        result = some (
          none,
          some (
              new_errorf ErrorCode.invalid_argument
                (i.method ++ text ": affinity selection is not valid on a queue rpc")),
        );
      }
      else packed c i o s es (marshal request)
