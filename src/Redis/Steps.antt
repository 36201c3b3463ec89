-- ===== src/Redis/Steps.antt =====
-- internal/bus/bus_redis.go: the bus in steps. Each is a stretch under one lock, so the calls and the
-- goroutines interleave in any order. What the Redis client answers is an argument of the step.
use livekit_psrpc.Prelude.{
  ℕ, ◌+◌, ◌-◌, String, Bool, true, false, List, [], ◌∷◌, ◌++◌, Option, none, some, ◌==◌,
  nat_equality, string_equality, if◌then◌else◌, lookup, insert, delete,
}
use livekit_psrpc.Redis.SubList.{RedisSubscription, RedisSubList, remove_sub}
use livekit_psrpc.Redis.State.{exec_publish, reconcile, absent, waiting, Post, RedisBus}

-- The map of `subs` or of `queues`.
abbrev pub sub_lists : {B : Type 0} → Bool → RedisBus B → List (String × RedisSubList B)
sub_lists true r = r.queues
sub_lists false r = r.subs

abbrev pub with_sub_lists :
    {B : Type 0} → Bool → List (String × RedisSubList B) → RedisBus B → RedisBus B
with_sub_lists true lists r = record r { queues = lists }
with_sub_lists false lists r = record r { subs = lists }

abbrev pub list_subs : {B : Type 0} → Option (RedisSubList B) → List (RedisSubscription B)
list_subs none = []
list_subs (some l) = l.subs

abbrev pub list_next : {B : Type 0} → Option (RedisSubList B) → ℕ
list_next none = 0
list_next (some l) = l.next

-- Set a channel's entry of `publishOps`.
abbrev pub update : {A : Type 0} → String → A → (String → A) → String → A
update c a f o = if c == o then a else f o

-- The members of the first list for which a test holds.
abbrev pub keep : (String → Bool) → List String → List String
keep test [] = []
keep test (c ∷ cs) = let rest = keep test cs in if test c then c ∷ rest else rest

module _ {B : Type 0} where
  -- `reconcileSubscriptions`: mark the channel, and call enqueueWriteOp.
  abbrev pub reconcile_subscriptions : String → RedisBus B → RedisBus B
  reconcile_subscriptions c r = record r { dirty = c ∷ r.dirty; callers = reconcile ∷ r.callers }

  -- The list of a channel with a new subscription at its end.
  unfoldable pub append_sub : ℕ → ℕ → Option (RedisSubList B) → RedisSubList B
  append_sub id size l = record {
    subs = list_subs l ++ record { id = id; size = size; msg_chan = []; canceled = false } ∷ [];
    next = list_next l;
  }

  unfoldable pub subscribe : Bool → String → ℕ → RedisBus B → RedisBus B
  unfolding append_sub
  subscribe queue c size r =
      let lists = sub_lists queue r in
      let l = append_sub r.next_id size (lookup c lists) in
      let r' : RedisBus B = record (with_sub_lists queue (insert c l lists) r) {
        next_id = r.next_id + 1;
      } in
      elim (lookup c lists) [ none ↦ reconcile_subscriptions c r' | some old ↦ r' ]

  unfoldable pub unsubscribe : Bool → String → ℕ → RedisBus B → RedisBus B
  unfolding remove_sub
  unsubscribe queue c id r =
      let lists = sub_lists queue r in
      elim (lookup c lists) [
        | none ↦ r
        | some l ↦ elim (remove_sub id l.subs) [
          | none ↦ r
          | some [] ↦ reconcile_subscriptions c (with_sub_lists queue (delete c lists) r)
          | some (s ∷ subs) ↦ with_sub_lists queue (insert c (record l { subs = s ∷ subs }) lists) r
        ]
      ]

  -- `Publish` up to its unlock. A new entry makes the caller go on to enqueueWriteOp.
  unfoldable pub publish : String → B → RedisBus B → RedisBus B
  publish c b r =
      let p = r.posts c in
      let pushed : Post B = record p { queue = p.queue ++ b ∷ []; given = p.given ++ b ∷ [] } in
      elim p.stage [
        | absent ↦ record r {
          posts = update c (record pushed { stage = waiting }) r.posts;
          callers = exec_publish c ∷ r.callers;
        }
        | other ↦ record r { posts = update c pushed r.posts }
      ]

  -- `enqueueWriteOp`: the push of one of the callers' operations, then the wakeup.
  unfoldable pub push_op : RedisBus B → Option (RedisBus B)
  push_op r = elim r.callers [
    | [] ↦ none
    | op ∷ callers ↦
        some (record r { callers = callers; ops = r.ops ++ op ∷ []; wakers = r.wakers + 1 })
  ]

  unfoldable pub wake : RedisBus B → Option (RedisBus B)
  wake r = if r.wakers == 0 then none else some (record r { wakers = r.wakers - 1; wakeup = true })

  -- The callers push in any order.
  unfoldable pub rotate_callers : RedisBus B → Option (RedisBus B)
  rotate_callers r = elim r.callers [
    | [] ↦ none
    | op ∷ callers ↦ some (record r { callers = callers ++ op ∷ [] })
  ]
