-- ===== src/Lib.antt =====
-- psrpc: RPC over publish and subscribe.
--
-- A client publishes a request on a channel that its method and topic name. The servers that are
-- subscribed to it answer with claims, the client selects one of them and publishes its choice, and the
-- server that is chosen runs its handler and publishes the response on the client's channel. The library
-- follows that path, one module for each part:
--
-- - Prelude: the names, tests, lists, maps, texts and results that the parts share. A Go map is an
--   association list whose lookup finds the first entry; `==` is an instance of `Comparable`; a `switch`
--   is a list of cases.
-- - Errors (errors.go): Codes has ErrorCode and its constants, Foreign the codes of gRPC and Twirp by
--   name, Translations the methods ToHTTP, ToGRPC and ToTwirp and ErrorCodeFromGRPC, Value the error
--   value psrpcError with NewError, NewErrorf, NewErrorFromResponse and its methods. A Go error is a
--   plain one, one that wraps another, or a psrpcError.
-- - Channels (pkg/info/channels.go, pkg/info/info.go): Format has the sanitized channel parts and the
--   formatting functions, Names the channels of requests, claims, streams and responses and the handler
--   key. A text is the list of its runes, so only valid UTF-8 is modelled.
-- - LocalBus (internal/bus/bus_local.go): Subscription has localSubscription with its channel as a list,
--   SubList localSubList (create, dispatch, and what onUnsubscribe does to a list), Bus localMessageBus
--   (Publish, Subscribe, SubscribeQueue, Close). A call is one step on the bus; a Publish that lets the
--   lock of the bus go between its lookup and its dispatch, and a call that comes in between, are not
--   modelled. A `select` with two ready cases is decided by an argument. A call that
--   would block is `none`. The loop of dispatch over a queue runs on fuel, and one round more than the
--   list is long is enough when a subscription is left.
-- - Retry (pkg/middleware/retry.go): Loop has retry, isTimeout, getRetryWithBackoffParameters and the
--   options of an attempt. The call that is retried and the `select` on its context are functions of the
--   attempt. Durations are int64 bit patterns and wrap. The loop runs on fuel, and MaxAttempts is enough.
-- - Selection (pkg/client/rpc.go, pkg/server/rpc.go, request.go): Loop has selectServer as a fold over
--   the events that its `select` takes, Affinity the comparisons of float32 on bit patterns, Claiming
--   the server's claimRequest. Timers only make the context be done, which is an event.
-- - Exchange (pkg/client/rpc.go, pkg/server/rpc.go): Respond has sendResponse, Call has newRPC with its
--   registration of channels, its publications, the selection of a server and the final `select`. The
--   encoding of payloads is a record of two functions, since the protobuf library does it.
-- - Stream (internal/stream/stream.go): State has streamBase with the calls that are under way on it,
--   Steps Send, HandleStream and Close cut where another goroutine may come in between, and the other
--   modules what the steps keep. HandleStream is called for one message after the other, as the loops
--   of pkg/client/stream.go and pkg/server/stream.go do; a Send, a Close and a message interleave freely.
-- - Server (pkg/server/server.go, pkg/server/registration.go): Registry has RegisterHandler,
--   DeregisterHandler and Close on the map of handlers, and RegistererSlice.Register and Deregister. Each
--   call is one step; the creation of a handler, which subscribes to the bus, is given by its answer.
-- - Interceptors (internal/interceptors/interceptor.go): Chain has ChainClientInterceptors and
--   ChainServerInterceptors, the latter with its shared index as a state; calls of next nest no deeper
--   than there are interceptors, so their number is fuel enough.
-- - Metadata (pkg/metadata/metadata.go): Outgoing has the metadata of outgoing requests; a context is
--   the value that it holds for it.
-- - Options (client.go, request.go, pkg/client/options.go): Client has getClientOpts, getRequestOpts and
--   getRequestInterceptors; an option is a function on the options, and durations are int64 bit patterns.
-- - Redis (internal/bus/bus_redis.go): SubList has redisSubList, State redisMessageBus with what its
--   goroutines are at, Steps the calls Subscribe, Publish, unsubscribe and enqueueWriteOp, Worker the
--   write worker, redisReconcileSubscriptionsOp.run and redisExecPublishOp.exec, Reader the read worker
--   and read. A step is a stretch under one lock, so everything interleaves, and the read worker holds
--   the lock of the bus while a write to a subscription blocks. The ghost fields given and tried of
--   Post record what was published and with what Redis was called, and Outbox has the abstract queue.
-- - Nats (internal/bus/bus_nats.go): Router has natsRouter, Bus subscribeRouter, cut where it unlocks, and
--   unsubscribeRouter. Subscriptions share a router, so the routers stand in a store.
-- - Handlers (pkg/server/rpc.go, pkg/server/stream.go): Creation has newRPCHandler and
--   newStreamRPCHandler on the open subscriptions, Request handleRequest, which puts Selection and
--   Exchange together, Life the steps of run, handleRequest and close on the wait group, Streams the
--   streams of a handler and its close, with the Close of a stream elsewhere in two steps.
-- - Client (pkg/client/client.go, pkg/client/multi.go): Creation has NewRPCClient, Routing the goroutine
--   that moves messages to the calls that wait, Multi the steps of a multi request, with ghost fields
--   for what was routed to it and what its caller has read.
-- - Opening (pkg/client/stream.go, pkg/server/stream.go): OpenStream has OpenStream, OpenRequest
--   handleOpenRequest, with the selection of a server and its claim from Selection, Elsewhere what another
--   Close of the stream, as that of runClientStream, has done by then, which is an argument.
-- - Metrics (pkg/middleware/metrics.go): Observer has the interceptors, with what they tell an observer
--   as a list; durations are left out, since clocks are outside.
--
-- In every part an answer that comes from outside (of a bus that publishes, of a handler, of a context)
-- is an argument. Not modelled: goroutines as such, locks, clocks and random ids; the Redis and NATS
-- clients, which are other libraries; the code generator protoc-gen-psrpc and generated code; logging;
-- the hooks of requests; the goroutine that forwards the messages of a subscription.
pub mod Prelude
pub mod Errors
pub mod Channels
pub mod LocalBus
pub mod Retry
pub mod Selection
pub mod Exchange
pub mod Stream
pub mod Server
pub mod Interceptors
pub mod Metadata
pub mod Options
pub mod Redis
pub mod Nats
pub mod Handlers
pub mod Client
pub mod Opening
pub mod Metrics
