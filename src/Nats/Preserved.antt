-- ===== src/Nats/Preserved.antt =====
-- internal/bus/bus_nats.go: subscribing, and closing a subscription.
use livekit_psrpc.Prelude.{
  ◌≡◌, ◌⊎◌, refl, sym, ◌∙◌, ap, subst, ℕ, ◌+◌, String, Bool, true, false, List, [], ◌∷◌, none, some,
  nat_equality, string_equality, inl, inr, Bool-cases, Option-cases, Result, ok, err, lookup,
  insert, delete,
}
use livekit_psrpc.Nats.Router.{
  NatsRouterSubscription, NatsRouter, open_route, close_route, delete_sub, no_routes, route,
}
use livekit_psrpc.Nats.Bus.{
  NatsBus, NatsHandle, new_nats_message_bus, set_router, new_sub, join_router, join, attach,
  unsubscribe_router, same_kind,
}
use livekit_psrpc.Nats.Live.{Live, new-Live, changed, placed, removed, insert-no_routes}

module _ {B : Type 0} where
  -- A route that is not empty is in the router's map.
  route_there :
      (c : String) (r : NatsRouter B) (routes : List (String × List (NatsRouterSubscription B)))
      (id : ℕ) (subs : List (NatsRouterSubscription B))
      → r.routes ≡ routes
      → delete_sub id (route c r) ≡ some subs
      → no_routes r.routes ≡ false
  unfolding delete_sub
  route_there c r [] id subs e f = (let y : none ≡ some subs = rw e at f in cc)
  route_there c r (entry ∷ routes) id subs e f = ap no_routes e

  -- What a close does: the router stays, or it loses its last route.
  abbrev Kind : NatsRouter B → NatsRouter B × Bool → Type 0
  Kind r (r', last) =
      (r'.channel ≡ r.channel)
      × (((last ≡ false) × (no_routes r'.routes ≡ no_routes r.routes))
          ⊎ ((last ≡ true) × (no_routes r.routes ≡ false) × (no_routes r'.routes ≡ true)))

  close_route-Kind : (c : String) (id : ℕ) (r : NatsRouter B) → Kind r (close_route c id r)
  unfolding close_route
  close_route-Kind c id r = elim (Option-cases (delete_sub id (route c r))) [
    | inl e ↦
        let y : close_route c id r ≡ (r, false) = simp (e, close_route) refl in
        subst (Kind r) (sym y) (refl, inl (refl, refl))
    | inr ([], e) ↦
        let there = route_there c r r.routes id [] refl e in
        let routes = delete c r.routes in
        elim (Bool-cases (no_routes routes)) [
          | inl last ↦
              let y : close_route c id r ≡ (record r { routes = routes; attached = false }, true) =
                simp (e, last, close_route) refl in
              subst (Kind r) (sym y) (refl, inr (refl, there, last))
          | inr more ↦
              let y : close_route c id r ≡ (record r { routes = routes }, false) =
                simp (e, more, close_route) refl in
              subst (Kind r) (sym y) (refl, inl (refl, more ∙ sym there))
        ]
    | inr (s ∷ subs, e) ↦
        let there = route_there c r r.routes id (s ∷ subs) refl e in
        let y : close_route c id r ≡ (record r { routes = insert c (s ∷ subs) r.routes }, false) =
          simp (e, close_route) refl in
        subst (Kind r) (sym y)
          (refl, inl (refl, insert-no_routes c (s ∷ subs) r.routes ∙ sym there))
  ]

  -- Closing a subscription, and joining, keep the map in step with the routers.
  pub unsubscribe_router-Live :
      (h : NatsHandle) (n : NatsBus B) → Live n → Live (unsubscribe_router h n)
  unfolding unsubscribe_router
  unsubscribe_router-Live h n live =
      let (ch, kind) = close_route-Kind h.channel h.sub (n.store h.router) in
      let r = (close_route h.channel h.sub (n.store h.router)).0 in
      elim kind [
        | inl (e, same) ↦
            let y : unsubscribe_router h n ≡ record n { store = set_router h.router r n.store } =
              simp (e, unsubscribe_router) refl in
            subst Live (sym y) (changed h.router r n n.next_sub live ch same)
        | inr (e, full, last) ↦
            let y : unsubscribe_router h n ≡ record n {
              routers = delete r.channel n.routers;
              store = set_router h.router r n.store;
            } =
              simp (e, unsubscribe_router) refl in
            subst Live (sym y) (removed h.router r n live full ch last)
      ]

  -- Attaching a router that NATS accepts.
  pub attach-Live :
      (server : String) (h : NatsHandle) (n : NatsBus B) → Live n → Live (attach false server h n)
  unfolding attach
  attach-Live server h n live =
      changed h.router (record (n.store h.router) { attached = true }) n n.next_sub live refl refl

  abbrev pub JoinedLive : Result String (NatsBus B × NatsHandle × Bool) → Type 0
  JoinedLive (err e) = Unit
  JoinedLive (ok (n, h, there)) = Live n

  -- The router that a new channel gets.
  abbrev fresh : String → Bool → NatsRouter B
  fresh server queue = record { routes = []; channel = server; queue = queue; attached = false }

  join-fresh :
      (server local : String) (size : ℕ) (queue : Bool) (n : NatsBus B)
      → lookup server n.routers ≡ none
      → join server local size queue n
        ≡ ok (
          join_router n.next_router (fresh server queue) local size (record n {
            routers = insert server n.next_router n.routers;
            next_router = n.next_router + 1;
          }),
          record { router = n.next_router; channel = local; sub = n.next_sub },
          false,
        )
  unfolding join
  join-fresh server local size queue n e = simp (e, join) refl

  join_shared :
      (server local : String) (size : ℕ) (queue : Bool) (n : NatsBus B) (i : ℕ)
      → lookup server n.routers ≡ some i
      → same_kind queue (n.store i).queue ≡ true
      → join server local size queue n
        ≡ ok (
          join_router i (n.store i) local size n,
          record { router = i; channel = local; sub = n.next_sub },
          true,
        )
  unfolding join
  join_shared server local size queue n i e fits = simp (e, fits, join) refl

  pub join_clash :
      (server local : String) (size : ℕ) (queue : Bool) (n : NatsBus B) (i : ℕ)
      → lookup server n.routers ≡ some i
      → same_kind queue (n.store i).queue ≡ false
      → join server local size queue n ≡ err "subscription type mismatch for channel"
  unfolding join
  join_clash server local size queue n i e clash = simp (e, clash, join) refl

  pub join-Live :
      (server local : String) (size : ℕ) (queue : Bool) (n : NatsBus B)
      → Live n
      → JoinedLive (join server local size queue n)
  unfolding open_route
  join-Live server local size queue n live = elim (Option-cases (lookup server n.routers)) [
    | inl e ↦
        let r = open_route local (new_sub n.next_sub size) (fresh server queue) in
        subst JoinedLive (sym (join-fresh server local size queue n e))
          (placed server r n (n.next_sub + 1) live e refl refl)
    | inr (i, e) ↦ elim (Bool-cases (same_kind queue (n.store i).queue)) [
      | inl fits ↦
          let r = open_route local (new_sub n.next_sub size) (n.store i) in
          let there = (live.named server i e).2 in
          subst JoinedLive (sym (join_shared server local size queue n i e fits)) (
            changed i r n (n.next_sub + 1) live refl
              (insert-no_routes local _ (n.store i).routes ∙ sym there))
      | inr clash ↦ subst JoinedLive (sym (join_clash server local size queue n i e clash)) tt
    ]
  ]

  -- What subscribing and closing lead to, as long as NATS accepts the routers' subscriptions.
  pub data NatsReach : NatsBus B → Type 0 where
    begins : NatsReach new_nats_message_bus
    joins :
        {n n' : NatsBus B}
        → (server local : String) (size : ℕ) (queue there : Bool) (h : NatsHandle) → NatsReach n
        → join server local size queue n ≡ ok (n', h, there)
        → NatsReach n'
    attaches :
        {n : NatsBus B}
        → (server : String) (h : NatsHandle) → NatsReach n
        → NatsReach (attach false server h n)
    closes : {n : NatsBus B} → (h : NatsHandle) → NatsReach n → NatsReach (unsubscribe_router h n)

  -- As long as NATS accepts the routers' subscriptions, the map of a bus has just the routers with a
  -- subscription, each under its channel, after any subscriptions and closings.
  pub NatsReach-Live : (n : NatsBus B) → NatsReach n → Live n
  NatsReach-Live n begins = new-Live
  NatsReach-Live n (joins {n = before} server local size queue there h reach e) =
      subst JoinedLive e (join-Live server local size queue before (NatsReach-Live before reach))
  NatsReach-Live n (attaches {n = before} server h reach) =
      attach-Live server h before (NatsReach-Live before reach)
  NatsReach-Live n (closes {n = before} h reach) =
      unsubscribe_router-Live h before (NatsReach-Live before reach)
