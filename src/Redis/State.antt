-- ===== src/Redis/State.antt =====
-- internal/bus/bus_redis.go: `redisMessageBus`, with its goroutines and the calls that are under way.
use livekit_psrpc.Prelude.{
  ℕ, String, Bool, true, false, ◌||◌, List, [], map, Option, none, some, string_equality, lookup,
}
use livekit_psrpc.Redis.SubList.{RedisSubList}

-- `redisExecPublishOp` and `redisReconcileSubscriptionsOp`.
pub data WriteOp : Type 0 where
  exec_publish : String → WriteOp
  reconcile : WriteOp

-- What becomes of an entry of `publishOps`: there is none, its operation is still to be run by the write
-- worker, or its goroutine `exec` is before its test for an empty queue, in `drain`, or sends a message.
pub data Stage (B : Type 0) : Type 0 where
  absent : Stage B
  waiting : Stage B
  checking : Stage B
  draining : Stage B
  sending : B → Stage B

-- One channel of `publishOps`: its queue and its stage. The ghost fields have what Publish was given, and
-- the messages with which Redis was called, each with whether the call failed: then the message is lost.
pub record Post (B : Type 0) : Type 0 where
  pub queue : List B
  pub stage : Stage B
  pub given : List B
  pub tried : List (B × Bool)

-- The write worker: it waits for a wakeup, drains the operations, is before the test of the loop in
-- `redisReconcileSubscriptionsOp.run`, or calls Redis with the channels of one round.
pub data Worker : Type 0 where
  asleep : Worker
  busy : Worker
  looping : Worker
  calling : List String → List String → Worker

-- `callers` are the calls of enqueueWriteOp before their push, `wakers` those between push and wakeup.
-- `held` says that the read worker has `r.mu` while a write to a subscription blocks.
pub record RedisBus (B : Type 0) : Type 0 where
  pub subs : List (String × RedisSubList B)
  pub queues : List (String × RedisSubList B)
  pub next_id : ℕ
  pub dirty : List String
  pub current : List String
  pub callers : List WriteOp
  pub wakers : ℕ
  pub wakeup : Bool
  pub ops : List WriteOp
  pub worker : Worker
  pub posts : String → Post B
  pub held : Bool

abbrev pub is_some : {A : Type 0} → Option A → Bool
is_some none = false
is_some (some a) = true

-- The messages of a list of calls.
abbrev pub messages : {B : Type 0} → List (B × Bool) → List B
messages tried = map (λ t. t.0) tried

-- `r.subs[c] != nil || r.queues[c] != nil`
abbrev pub desired : {B : Type 0} → RedisBus B → String → Bool
desired r c = is_some (lookup c r.subs) || is_some (lookup c r.queues)

abbrev pub no_post : {B : Type 0} → Post B
no_post = record { queue = []; stage = absent; given = []; tried = [] }

unfoldable pub new_redis_message_bus : {B : Type 0} → RedisBus B
new_redis_message_bus = record {
  subs = [];
  queues = [];
  next_id = 0;
  dirty = [];
  current = [];
  callers = [];
  wakers = 0;
  wakeup = false;
  ops = [];
  worker = asleep;
  posts = λ c. no_post;
  held = false;
}
