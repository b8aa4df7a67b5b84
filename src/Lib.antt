-- ===== src/Lib.antt =====
-- The psrpc library: remote procedure calls over a publish/subscribe bus. A client publishes a request
-- on a channel that the servers of a service subscribe to; servers that are to be chosen among bid for
-- it with an affinity, the client grants one of them, and the one that serves it publishes a response.
--
-- The files, and what each models:
--
--   Base, Base/*            Boolean tests, lists over native numbers, Go's strings (lists of bytes), maps
--                           (association lists) and sets; Go's pair of a value and an error (Result).
--   Messages                internal/internal.proto: requests, responses, claims.
--   Errors/Codes, Values    errors.go: error codes, their translations to HTTP, gRPC and twirp, and error
--                           values. A foreign error is described by what the code can see of it.
--   Errors/Wire             What survives these translations.
--   Info/Utf8, Channels     pkg/info/channels.go, pkg/info/info.go: formatChannel, GetRPCChannel,
--                           GetHandlerKey, PerRequestID and the other channel names, byte by byte.
--   Info/Sanitize, Keys, Requests
--                           When names are distinct, and what they give back.
--   Client/Select           pkg/client/rpc.go: selectServerUntil, a step over events.
--   Client/Select/*         What selection returns, over any affinities with a strict order.
--   Client/Wait             pkg/client/rpc.go: the waiting in newRPC (selection, grant, the response).
--   Client/Rpc              pkg/client/rpc.go: newRPC from its options to its result, with the client's
--                           maps of channels.
--   Client/Calls, Outcomes, Taken, Answers
--                           What holds of every call, and where its result comes from.
--   Client/Streams          pkg/client/stream.go: OpenStream, from its registration to its result.
--   Client/Opens            What an open leaves behind.
--   Client/Options, Chosen  pkg/client/options.go, client.go, request.go: the options of clients and
--                           requests, and what they come to.
--   Client/Multi, Collected pkg/client/multi.go: RequestMulti, and what it collects.
--   Client/Routing, Routed  pkg/client/client.go: the loop of a client, and what it has given to calls.
--   Server/Respond          pkg/server/rpc.go: sendResponse, answerChannel; and how a caller reads it.
--   Server/Handle           pkg/server/rpc.go: claimRequest, handleRequest.
--   Server/Answers, Serving What a caller reads of an answer; when a request is served.
--   Server/Draining         pkg/server/rpc.go: run and close, as steps over the counts of requests.
--   Server/Registration     pkg/server/registration.go: RegistererSlice.
--   Server/Streams          pkg/server/stream.go: the messages, claims, opens and close of a handler of
--                           streams.
--   Server/Opening, Ending  When a stream is opened, and what a close leaves.
--   Server/Handlers         pkg/server/server.go: the map of handlers and the count of the active ones.
--   Server/Table, Running   What the two say of the handlers that run, over the server's steps.
--   Delivery                A call and the handling of its request, together.
--   Stream                  internal/stream/stream.go: the steps of the goroutines that share a stream.
--   Stream/Closing, Refusals
--                           Its invariant, and what a closed stream refuses.
--   LocalBus/Transport      pkg/bus/localbus/localbus.go: lists of subscriptions and their slots.
--   LocalBus/Dispatch, Counts
--                           One subscription takes each message of a queue; the lists count theirs.
--   Redis/Transport         pkg/bus/redisbus/redisbus.go: subscribe, unsubscribe, and the rounds of
--                           redisReconcileSubscriptionsOp.run, as steps that interleave.
--   Redis/Reconcile, Lists  The channels subscribed follow the subscribers; dispatchQueue goes round.
--   Redis/Publish           The publish queues, one to a bucket, and their workers.
--   Nats/Router             pkg/bus/natsbus/natsbus.go: the routers that share a NATS subscription.
--   Nats/Table, Laws, Refinement
--                           A plain table of subscriptions, and how the routers implement it.
--   Bus/Compression, Gunzip pkg/bus/compression.go, pkg/bus/options.go; what is read within the limit.
--   Bus/Serialization       pkg/bus/serialization.go, pkg/bus/bus.go: envelopes.
--   Bus/Forward, Arrival    pkg/bus/subscription.go: the forwarding loop; what is published arrives.
--   Interceptors/Chain, Nesting
--                           internal/interceptors/interceptor.go: chains, and that they are nested.
--   Metadata, Metadata/Outgoing
--                           pkg/metadata/metadata.go: what a context carries.
--   Retry, Retry/Bounds     pkg/middleware/retry.go: retry and its parameters.
--   Ids, Ids/Letters        pkg/rand/id.go: identifiers, from the draws of the random source.
--   Codegen/Texts, Names, Packages
--                           protoc-gen-psrpc/go_naming.go, internal/gen/stringutils/stringutils.go: the
--                           names of packages and identifiers.
--   Codegen/Params, Pairs   protoc-gen-psrpc/command_line.go: the parameters, written and read back.
--   Codegen/Typemap, Qualified, Registered
--                           protoc-gen-psrpc/internal/gen/typemap/typemap.go: the messages of a file and
--                           the map of their qualified names.
--   Codegen/Agreement, Camel
--                           Two readings of one option; CamelCase of its own result.
--   */Tests                 Runs of the definitions, and the theorems applied to them.
--
-- Choices. Affinities are of any type with a zero and the comparisons `<` and `<=` (Floats);
-- protobuf's marshalling, gzip, the hash of channel names and the details of errors are parameters.
-- What the environment decides (which message comes next, when a context ends, which call to the
-- bus or to Redis fails, how goroutines interleave) is an argument: a list of events, an outcome,
-- or the choice of a step. Times and durations are natural numbers of nanoseconds, so deadlines
-- that have passed at the start of a call are left out. The limit of a decompression wraps around
-- at the greatest int64, as in the code. Buffers of channels are bounded in the loop of a client,
-- in streams and in the claims of stream handlers, and not bounded elsewhere. Loops are structural
-- recursion on the events that come; the loop over slots of a local queue runs for as many passes
-- as the source gives it, and those are enough. The digits of a number in an error message take as
-- much fuel as the number, which is more than its digits.
--
-- Not modelled: connections and goroutines as such, logging, metrics and tracing, since they decide
-- nothing; generated protobuf code; of protoc-gen-psrpc, what prints code, public imports and the
-- comments of services and methods; the recovery from panics; the subscriptions that handlers make
-- at their start; and the goroutine that runs a client's stream. Opens of streams at a server run
-- one after another in the model, a Close of a new stream by its function or peer is run to its
-- end, and a handler's registration is checked and added in one step; what comes of two that race
-- is a run in Server/StreamTests.
pub mod Base
pub mod Bus
pub mod Errors
pub mod Messages
pub mod Ids
pub mod Info
pub mod Client
pub mod Redis
pub mod Server
pub mod Codegen
pub mod Delivery
pub mod Interceptors
pub mod LocalBus
pub mod Metadata
pub mod Nats
pub mod Retry
pub mod Stream
