-- ===== src/Redis/SubList.antt =====
-- internal/bus/bus_redis.go: `redisSubList` and `redisSubscription`. The Redis client is a parameter: of
-- its SetNX only the answers are used.
use livekit_psrpc.Prelude.{
  ℕ, ◌+◌, Bool, not, ◌&&◌, ◌||◌, List, [], ◌∷◌, ◌++◌, Option, none, some, ltb, leb, ◌==◌,
  nat_equality, string_equality, if◌then◌else◌, length, get_elem?, set,
}

-- `canceled` is the end of the subscription's context, `msg_chan` its buffered messages.
pub record RedisSubscription (B : Type 0) : Type 0 where
  pub id : ℕ
  pub size : ℕ
  pub msg_chan : List B
  pub canceled : Bool

pub record RedisSubList (B : Type 0) : Type 0 where
  pub subs : List (RedisSubscription B)
  pub next : ℕ

module _ {B : Type 0} where
  -- The `select` of `write`, where `pick` decides if both cases are ready. `none` blocks.
  unfoldable pub write : Bool → B → RedisSubscription B → Option (RedisSubscription B)
  write pick b s =
      let room = ltb (length s.msg_chan) s.size in
      if room && (pick || not s.canceled)
      then some (record s { msg_chan = s.msg_chan ++ b ∷ [] })
      else (if s.canceled then some s else none)

  -- A list has subscriptions; an index out of its range panics, which is `none` here as well.
  unfoldable pub dispatch_queue : Bool → B → RedisSubList B → Option (RedisSubList B)
  unfolding write
  dispatch_queue pick b l =
      let i = if leb (length l.subs) l.next then 0 else l.next in
      elim (get_elem? l.subs i) [
        | none ↦ none
        | some s ↦ elim (write pick b s) [
          | none ↦ none
          | some s' ↦ some (record { subs = set l.subs i s'; next = i + 1 })
        ]
      ]

  unfoldable pub write_all :
      (ℕ → Bool) → B → List (RedisSubscription B) → Option (List (RedisSubscription B))
  unfolding write
  write_all pick b [] = some []
  write_all pick b (s ∷ subs) =
      let rest = write_all pick b subs in
      elim (write (pick s.id) b s) [
        | none ↦ none
        | some s' ↦ elim rest [ none ↦ none | some subs' ↦ some (s' ∷ subs') ]
      ]

  unfoldable pub dispatch : (ℕ → Bool) → B → RedisSubList B → Option (RedisSubList B)
  unfolding write_all
  dispatch pick b l = elim (write_all pick b l.subs) [
    | none ↦ none
    | some subs ↦ some (record l { subs = subs })
  ]

  -- `slices.Delete` at the index of the subscription, if it is in the list.
  unfoldable pub remove_sub : ℕ → List (RedisSubscription B) → Option (List (RedisSubscription B))
  remove_sub id [] = none
  remove_sub id (s ∷ subs) =
      let rest = remove_sub id subs in
      if s.id == id then some subs else elim rest [ none ↦ none | some subs' ↦ some (s ∷ subs') ]
