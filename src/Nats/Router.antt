-- ===== src/Nats/Router.antt =====
-- internal/bus/bus_nats.go: `natsRouter` and its subscriptions.
use livekit_psrpc.Prelude.{
  ℕ, String, Bool, true, false, not, ◌&&◌, ◌||◌, List, [], ◌∷◌, ◌++◌, Option, none, some, ltb, ◌==◌,
  nat_equality, string_equality, if◌then◌else◌, length, lookup, insert, delete,
}

-- `canceled` is the end of the subscription's context, `msg_chan` its buffered messages.
pub record NatsRouterSubscription (B : Type 0) : Type 0 where
  pub id : ℕ
  pub size : ℕ
  pub msg_chan : List B
  pub canceled : Bool

-- `attached` tells whether NATS calls the router's `write`.
pub record NatsRouter (B : Type 0) : Type 0 where
  pub routes : List (String × List (NatsRouterSubscription B))
  pub channel : String
  pub queue : Bool
  pub attached : Bool

module _ {B : Type 0} where
  -- The `select` of `write`, where `pick` decides if both cases are ready. `none` blocks.
  unfoldable pub write_sub : Bool → B → NatsRouterSubscription B → Option (NatsRouterSubscription B)
  write_sub pick b s =
      let room = ltb (length s.msg_chan) s.size in
      if room && (pick || not s.canceled)
      then some (record s { msg_chan = s.msg_chan ++ b ∷ [] })
      else (if s.canceled then some s else none)

  -- `routes[channel]`, which is nil for a missing key.
  abbrev pub route : String → NatsRouter B → List (NatsRouterSubscription B)
  route c r = elim (lookup c r.routes) [ none ↦ [] | some subs ↦ subs ]

  unfoldable pub open_route : String → NatsRouterSubscription B → NatsRouter B → NatsRouter B
  open_route c s r = record r { routes = insert c (route c r ++ s ∷ []) r.routes }

  -- `slices.Index` and `slices.Delete`: `none` if the subscription is not there.
  unfoldable pub delete_sub :
      ℕ → List (NatsRouterSubscription B) → Option (List (NatsRouterSubscription B))
  delete_sub id [] = none
  delete_sub id (s ∷ subs) =
      let rest = delete_sub id subs in
      if s.id == id then some subs else elim rest [ none ↦ none | some subs' ↦ some (s ∷ subs') ]

  abbrev pub no_routes : List (String × List (NatsRouterSubscription B)) → Bool
  no_routes [] = true
  no_routes (e ∷ es) = false

  -- `close`: the router, and whether it has no routes left.
  unfoldable pub close_route : String → ℕ → NatsRouter B → NatsRouter B × Bool
  unfolding delete_sub
  close_route c id r = elim (delete_sub id (route c r)) [
    | none ↦ (r, false)
    | some [] ↦
        let routes = delete c r.routes in
        if no_routes routes
        then (record r { routes = routes; attached = false }, true)
        else (record r { routes = routes }, false)
    | some (s ∷ subs) ↦ (record r { routes = insert c (s ∷ subs) r.routes }, false)
  ]

  unfoldable pub write_subs :
      (ℕ → Bool) → B → List (NatsRouterSubscription B) → Option (List (NatsRouterSubscription B))
  unfolding write_sub
  write_subs pick b [] = some []
  write_subs pick b (s ∷ subs) =
      let rest = write_subs pick b subs in
      elim (write_sub (pick s.id) b s) [
        | none ↦ none
        | some s' ↦ elim rest [ none ↦ none | some subs' ↦ some (s' ∷ subs') ]
      ]

  -- `write`, with the local channel that `deserializeChannel` reads from the message. `none` blocks.
  unfoldable pub write_route : (ℕ → Bool) → Option String → B → NatsRouter B → Option (NatsRouter B)
  unfolding write_subs
  write_route pick none b r = some r
  write_route pick (some c) b r = elim (lookup c r.routes) [
    | none ↦ some r
    | some subs ↦ elim (write_subs pick b subs) [
      | none ↦ none
      | some subs' ↦ some (record r { routes = insert c subs' r.routes })
    ]
  ]
