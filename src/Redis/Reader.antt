-- ===== src/Redis/Reader.antt =====
-- internal/bus/bus_redis.go: `readWorker`, and `read` and `Close` of a subscription. The Redis client is a
-- parameter: what it receives, and its SetNX.
use livekit_psrpc.Prelude.{
  ℕ, ◌*◌, ◌≡◌, String, Bool, true, false, not, ◌&&◌, List, [], ◌∷◌, Option, none, some, ltb, ◌==◌,
  nat_equality, string_equality, if◌then◌else◌, length, lookup, insert,
}
use livekit_psrpc.Redis.SubList.{RedisSubscription, RedisSubList, dispatch, dispatch_queue}
use livekit_psrpc.Redis.State.{RedisBus}
use livekit_psrpc.Redis.Steps.{unsubscribe, sub_lists, with_sub_lists}

abbrev pub lock_expiration : ℕ
lock_expiration = 5000000000

abbrev pub reconciler_retry_interval : ℕ
reconciler_retry_interval = 1000000000

abbrev pub min_read_retry_interval : ℕ
min_read_retry_interval = 100000000

abbrev pub max_read_retry_interval : ℕ
max_read_retry_interval = 1000000000

-- The delay after a failed ReceiveMessage, in nanoseconds.
unfoldable pub next_delay : ℕ → ℕ
next_delay delay =
    let doubled = delay * 2 in
    if doubled == 0
    then min_read_retry_interval
    else (if ltb max_read_retry_interval doubled then max_read_retry_interval else doubled)

-- The delays slept by a run of the read worker, over whether each ReceiveMessage fails.
unfoldable pub read_delays : ℕ → List Bool → List ℕ
unfolding next_delay
read_delays delay [] = []
read_delays delay (true ∷ fails) = delay ∷ read_delays (next_delay delay) fails
read_delays delay (false ∷ fails) = read_delays 0 fails

-- What a `read` comes to.
pub data Read (B : Type 0) : Type 0 where
  got : B → List B → Read B
  ended : Read B
  blocked : Read B

-- SetNX with the expiration above, over the state of the Redis server. An error is an answer `false`.
pub record Locks (S : Type 0) : Type 0 where
  pub held : S → String → Bool
  pub set_nx : S → String → S × Bool
  pub acquires :
      (s : S) (k : String)
      → (set_nx s k).1 ≡ true
      → (held s k ≡ false) × (held (set_nx s k).0 k ≡ true)
  pub lasts : (s : S) (k o : String) → held s o ≡ true → held (set_nx s k).0 o ≡ true

module _ {B : Type 0} where
  -- A message from Redis, for the subscriptions and the queue of its channel. `none` blocks.
  abbrev pub deliver :
      Option (RedisSubList B)
      → (RedisSubList B → Option (RedisSubList B))
      → (RedisSubList B → RedisBus B → RedisBus B)
      → RedisBus B
      → Option (RedisBus B)
  deliver none send put r = some r
  deliver (some l) send put r = elim (send l) [ none ↦ none | some l' ↦ some (put l' r) ]

  unfoldable pub receive : (ℕ → Bool) → Bool → String → B → RedisBus B → Option (RedisBus B)
  unfolding dispatch dispatch_queue
  receive pick pick_queue c b r =
      elim (deliver (lookup c r.subs) (dispatch pick b)
        (λ l r'. record r' { subs = insert c l r'.subs }) r) [
          | none ↦ none
          | some r' ↦
              deliver (lookup c r'.queues) (dispatch_queue pick_queue b)
                (λ l s. record s { queues = insert c l s.queues }) r'
        ]

  -- Mark a subscription's context as done.
  abbrev pub cancel_sub : ℕ → List (RedisSubscription B) → List (RedisSubscription B)
  cancel_sub id [] = []
  cancel_sub id (s ∷ subs) =
      (if s.id == id then record s { canceled = true } else s) ∷ cancel_sub id subs

  -- `Close`: the context ends, and the subscription leaves the bus.
  unfoldable pub close_sub : Bool → String → ℕ → RedisBus B → RedisBus B
  unfolding unsubscribe
  close_sub queue c id r =
      let lists = sub_lists queue r in
      let r' : RedisBus B = elim (lookup c lists) [
        | none ↦ r
        | some l ↦
            with_sub_lists queue (insert c (record l { subs = cancel_sub id l.subs }) lists) r
      ] in
      unsubscribe queue c id r'

module _ {B S : Type 0} (locks : Locks S) (hash : B → String) where
  -- `read`: the messages of its channel, and whether the context is done; `pick` decides the `select`.
  unfoldable pub read : (ℕ → Bool) → Bool → Bool → S → List B → S × Read B
  read pick canceled queue s [] = (s, if canceled then ended else blocked)
  read pick canceled queue s (b ∷ msgs) =
      let (s', acquired) = locks.set_nx s (hash b) in
      let rest = read pick canceled queue s' msgs in
      if canceled && not (pick (length msgs))
      then (s, ended)
      else (if queue then (if acquired then (s', got b msgs) else rest) else (s, got b msgs))

  abbrev pub with_taken : Read B → List String → List String
  with_taken (got b msgs) ks = hash b ∷ ks
  with_taken ended ks = ks
  with_taken blocked ks = ks

  -- Reads of a queue one after the other, of any subscriptions in any process: their payloads' hashes.
  unfoldable pub read_each : S → List (List B) → List String
  unfolding read
  read_each s [] = []
  read_each s (msgs ∷ more) =
      let (s', r) = read (λ n. true) false true s msgs in with_taken r (read_each s' more)
