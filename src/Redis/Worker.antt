-- ===== src/Redis/Worker.antt =====
-- internal/bus/bus_redis.go: `writeWorker` with `drain` and `redisReconcileSubscriptionsOp.run`, and
-- `redisExecPublishOp.exec`, in steps. What the Redis client answers is an argument of the step.
use livekit_psrpc.Prelude.{
  ◌≡◌, ℕ, String, Bool, true, false, not, ◌&&◌, List, [], ◌∷◌, ◌++◌, Option, none, some,
  string_equality, elem, if◌then◌else◌,
}
use livekit_psrpc.Redis.State.{
  exec_publish, reconcile, absent, waiting, checking, draining, sending, Post, asleep, busy,
  looping, calling, Stage, Worker, RedisBus, desired,
}
use livekit_psrpc.Redis.Steps.{
  keep, update, subscribe, unsubscribe, publish, push_op, wake, rotate_callers,
}

module _ {B : Type 0} where
  -- `redisReconcileSubscriptionsOp.run` from the test of its loop to the unlock before the calls.
  unfoldable pub begin_round : RedisBus B → RedisBus B
  begin_round r = elim r.dirty [
    | [] ↦ record r { worker = busy }
    | c ∷ cs ↦ record r {
      dirty = [];
      worker =
          calling (keep (λ x. not (elem x r.current) && desired r x) r.dirty)
            (keep (λ x. elem x r.current && not (desired r x)) r.dirty);
    }
  ]

  -- From the lock after the calls to the test of the loop; a call that is skipped has no error.
  unfoldable pub end_round : Bool → Bool → List String → List String → RedisBus B → RedisBus B
  end_round sub_err unsub_err sub unsub r =
      let added = if sub_err then r.current else sub ++ r.current in
      record r {
        dirty = (if unsub_err then unsub else []) ++ (if sub_err then sub else []) ++ r.dirty;
        current = if unsub_err then added else keep (λ x. not (elem x unsub)) added;
        worker = looping;
      }

  -- `drain` pops an operation and runs it. That of a publication starts the goroutine `exec`.
  unfoldable pub pop_op : RedisBus B → RedisBus B
  pop_op r = elim r.ops [
    | [] ↦ record r { worker = asleep }
    | exec_publish c ∷ ops ↦ record r {
      ops = ops;
      posts = update c (record (r.posts c) { stage = checking }) r.posts;
    }
    | reconcile ∷ ops ↦ record r { ops = ops; worker = looping }
  ]

  -- A step of the write worker: it waits in `range r.wakeup` while it is asleep.
  unfoldable pub work : Bool → Bool → RedisBus B → Option (RedisBus B)
  unfolding begin_round end_round pop_op
  work sub_err unsub_err r = elim r.worker [
    | asleep ↦ if r.wakeup then some (record r { wakeup = false; worker = busy }) else none
    | busy ↦ some (pop_op r)
    | looping ↦ some (begin_round r)
    | calling sub unsub ↦ some (end_round sub_err unsub_err sub unsub r)
  ]

  -- A step of the goroutine `exec` of a channel: its loop, the loop of `drain`, and `Publish` of Redis.
  -- If that fails, `drain` logs the error and goes on.
  unfoldable pub exec_post : Bool → Post B → Option (Post B)
  exec_post failed p = elim p.stage [
    | absent ↦ none
    | waiting ↦ none
    | checking ↦ elim p.queue [
      | [] ↦ some (record p { stage = absent })
      | b ∷ queue ↦ some (record p { stage = draining })
    ]
    | draining ↦ elim p.queue [
      | [] ↦ some (record p { stage = checking })
      | b ∷ queue ↦ some (record p { stage = sending b; queue = queue })
    ]
    | sending b ↦ some (record p { stage = draining; tried = p.tried ++ (b, failed) ∷ [] })
  ]

  unfoldable pub exec : Bool → String → RedisBus B → Option (RedisBus B)
  unfolding exec_post
  exec failed c r = elim (exec_post failed (r.posts c)) [
    | none ↦ none
    | some p ↦ some (record r { posts = update c p r.posts })
  ]

-- The steps of the bus: the calls, and the moves of the goroutines. The read worker holds `r.mu` when a
-- write to a subscription blocks, until its reader or its Close lets it go on.
pub data Event (B : Type 0) : Type 0 where
  subscribing : Bool → String → ℕ → Event B
  unsubscribing : Bool → String → ℕ → Event B
  publishing : String → B → Event B
  pushing : Event B
  waking : Event B
  rotating : Event B
  working : Bool → Bool → Event B
  executing : Bool → String → Event B
  holding : Event B
  letting_go : Event B

-- Whether the next stretch of the write worker begins with `r.mu.Lock()`, and that of `exec`.
abbrev pub worker_locks : Worker → Bool
worker_locks asleep = false
worker_locks busy = false
worker_locks looping = true
worker_locks (calling sub unsub) = true

abbrev pub exec_locks : {B : Type 0} → Stage B → Bool
exec_locks checking = true
exec_locks _ = false

-- A step that waits for a lock is not possible yet.
abbrev pub unless : {A : Type 0} → Bool → Option A → Option A
unless waits o = if waits then none else o

unfoldable pub step : {B : Type 0} → Event B → RedisBus B → Option (RedisBus B)
unfolding subscribe unsubscribe publish push_op wake rotate_callers work exec
step (subscribing queue c size) r = unless r.held (some (subscribe queue c size r))
step (unsubscribing queue c id) r = unless r.held (some (unsubscribe queue c id r))
step (publishing c b) r = unless r.held (some (publish c b r))
step pushing r = push_op r
step waking r = wake r
step rotating r = rotate_callers r
step (working sub_err unsub_err) r =
    unless (worker_locks r.worker && r.held) (work sub_err unsub_err r)
step (executing failed c) r = unless (exec_locks (r.posts c).stage && r.held) (exec failed c r)
step holding r = unless r.held (some (record r { held = true }))
step letting_go r = unless (not r.held) (some (record r { held = false }))

-- The states that events lead to.
pub data Reach {B : Type 0} (start : RedisBus B) : RedisBus B → Type 0 where
  begins : Reach start start
  follows :
      {r r' : RedisBus B} → (e : Event B) → Reach start r → step e r ≡ some r' → Reach start r'
