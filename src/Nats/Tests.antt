-- ===== src/Nats/Tests.antt =====
-- internal/bus/bus_nats.go: runs of the bus.
use livekit_psrpc.Prelude.{
  ◌≡◌, refl, string_equality, ℕ, String, true, false, none, some, ok, err, lookup,
}
use livekit_psrpc.Nats.Router.{open_route, close_route, delete_sub}
use livekit_psrpc.Nats.Bus.{
  NatsBus, NatsHandle, new_nats_message_bus, join, attach, unsubscribe_router,
}
use livekit_psrpc.Nats.Live.{Live}
use livekit_psrpc.Nats.Preserved.{begins, joins, NatsReach-Live}

abbrev joined : String → String → NatsBus ℕ → NatsBus ℕ
unfolding join open_route
joined server local n = elim (join server local 2 true n) [ ok (n', h, there) ↦ n' | err e ↦ n ]

abbrev handle : ℕ → String → ℕ → NatsHandle
handle i local sub = record { router = i; channel = local; sub = sub }

-- A second subscription joins a router whose subscription NATS then refuses.
abbrev orphaned : NatsBus ℕ
unfolding attach
orphaned =
    joined "s" "b"
      (attach true "s" (handle 0 "a" 0) (joined "s" "b" (joined "s" "a" new_nats_message_bus)))

-- Closing it and the refused one takes another router from the map.
orphaned-run : lookup "s" orphaned.routers ≡ some 1
unfolding new_nats_message_bus orphaned joined
orphaned-run = refl

orphaned-closed :
    lookup "s"
      (unsubscribe_router (handle 0 "a" 0) (unsubscribe_router (handle 0 "b" 1) orphaned)).routers
    ≡ none
unfolding new_nats_message_bus unsubscribe_router close_route delete_sub orphaned joined
orphaned-closed = refl

abbrev two : NatsBus ℕ
two = joined "s" "b" (joined "s" "a" new_nats_message_bus)

NatsReach-Live_example : Live two
unfolding join new_nats_message_bus
NatsReach-Live_example = NatsReach-Live two (
    joins "s" "b" 2 true true (handle 0 "b" 1)
      (joins "s" "a" 2 true false (handle 0 "a" 0) begins refl) refl)
