-- ===== src/Nats/Bus.antt =====
-- internal/bus/bus_nats.go: `natsMessageBus`. Routers are shared by the subscriptions that hold them, so
-- they stand in a store, and the map has their places. The NATS client is a parameter: its answers.
use livekit_psrpc.Prelude.{
  ℕ, ◌+◌, String, Bool, true, false, not, List, [], none, some, ◌==◌, nat_equality, string_equality,
  if◌then◌else◌, Result, ok, err, lookup, insert, delete,
}
use livekit_psrpc.Nats.Router.{NatsRouterSubscription, NatsRouter, open_route, close_route}

pub record NatsBus (B : Type 0) : Type 0 where
  pub routers : List (String × ℕ)
  pub store : ℕ → NatsRouter B
  pub next_router : ℕ
  pub next_sub : ℕ

-- What a subscription keeps: its router, its local channel and its own identity.
pub record NatsHandle : Type 0 where
  pub router : ℕ
  pub channel : String
  pub sub : ℕ

abbrev pub same_kind : Bool → Bool → Bool
same_kind true b = b
same_kind false b = not b

module _ {B : Type 0} where
  unfoldable pub new_nats_message_bus : NatsBus B
  new_nats_message_bus = record {
    routers = [];
    store = λ i. record { routes = []; channel = ""; queue = false; attached = false };
    next_router = 0;
    next_sub = 0;
  }

  abbrev pub set_router : ℕ → NatsRouter B → (ℕ → NatsRouter B) → ℕ → NatsRouter B
  set_router i r store j = if i == j then r else store j

  abbrev pub new_sub : ℕ → ℕ → NatsRouterSubscription B
  new_sub id size = record { id = id; size = size; msg_chan = []; canceled = false }

  -- Open a subscription of a router.
  abbrev pub join_router : ℕ → NatsRouter B → String → ℕ → NatsBus B → NatsBus B
  join_router i r local size n = record n {
    store = set_router i (open_route local (new_sub n.next_sub size) r) n.store;
    next_sub = n.next_sub + 1;
  }

  -- `subscribeRouter` up to its unlock: the handle, and whether the router was there.
  unfoldable pub join :
      String → String → ℕ → Bool → NatsBus B → Result String (NatsBus B × NatsHandle × Bool)
  unfolding open_route
  join server local size queue n = elim (lookup server n.routers) [
    | none ↦
        let i = n.next_router in
        let r : NatsRouter B = record {
          routes = [];
          channel = server;
          queue = queue;
          attached = false;
        } in
        ok (
          join_router i r local size
              (record n { routers = insert server i n.routers; next_router = i + 1 }),
          record { router = i; channel = local; sub = n.next_sub },
          false,
        )
    | some i ↦
        if not (same_kind queue (n.store i).queue)
        then err "subscription type mismatch for channel"
        else ok (
          join_router i (n.store i) local size n,
          record { router = i; channel = local; sub = n.next_sub },
          true,
        )
  ]

  -- The rest of `subscribeRouter` for a new router, with whether NATS refuses the subscription.
  unfoldable pub attach : Bool → String → NatsHandle → NatsBus B → NatsBus B
  attach refused server h n =
      if refused then record n { routers = delete server n.routers } else record n {
        store = set_router h.router (record (n.store h.router) { attached = true }) n.store;
      }

  -- `unsubscribeRouter` of `Close`.
  unfoldable pub unsubscribe_router : NatsHandle → NatsBus B → NatsBus B
  unfolding close_route
  unsubscribe_router h n =
      let (r, last) = close_route h.channel h.sub (n.store h.router) in
      let n' : NatsBus B = record n { store = set_router h.router r n.store } in
      if last then record n' { routers = delete r.channel n.routers } else n'
