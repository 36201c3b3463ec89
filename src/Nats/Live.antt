-- ===== src/Nats/Live.antt =====
-- internal/bus/bus_nats.go: the map of routers and the subscriptions that hold them.
use livekit_psrpc.Prelude.{
  ◌≡◌, refl, sym, ◌∙◌, ap, ℕ, ◌+◌, ◌<◌, String, true, false, List, [], ◌∷◌, none, some, ◌==◌,
  nat_equality, string_equality, arith, inl, inr, Bool-cases, lookup, insert, delete, lookup-delete,
}
use livekit_psrpc.Nats.Router.{NatsRouterSubscription, NatsRouter, no_routes}
use livekit_psrpc.Nats.Bus.{NatsBus, new_nats_message_bus, set_router}
use livekit_psrpc.Nats.Keys.{lookup-insert_other, lookup-insert_same, apart, differ, told_apart}

module _ {B : Type 0} where
  -- The map has just the routers that have routes, each under its channel.
  pub record Live (n : NatsBus B) : Type 0 where
    pub named :
        (c : String) (i : ℕ)
        → lookup c n.routers ≡ some i
        → ((n.store i).channel ≡ c) × (i < n.next_router) × (no_routes (n.store i).routes ≡ false)
    pub mapped :
        (i : ℕ)
        → no_routes (n.store i).routes ≡ false
        → lookup (n.store i).channel n.routers ≡ some i

  pub new-Live : Live (new_nats_message_bus {B = B})
  unfolding new_nats_message_bus
  new-Live = record {
    named = λ c i e. absurd (cc);
    mapped = λ i e. absurd (let y : true ≡ false = e in cc);
  }

  pub insert-no_routes :
      (c : String) (subs : List (NatsRouterSubscription B))
      (m : List (String × List (NatsRouterSubscription B)))
      → no_routes (insert c subs m) ≡ false
  insert-no_routes c subs [] = refl
  insert-no_routes c subs ((k, v) ∷ m) = elim (Bool-cases (k == c)) [
    | inl e ↦ rw e refl
    | inr e ↦ rw e refl
  ]

  set_router_self :
      (i j : ℕ) (r : NatsRouter B) (store : ℕ → NatsRouter B)
      → (i == j) ≡ true
      → set_router i r store j ≡ r
  set_router_self i j r store e = rw e refl

  set_router_other :
      (i j : ℕ) (r : NatsRouter B) (store : ℕ → NatsRouter B)
      → (i == j) ≡ false
      → set_router i r store j ≡ store j
  set_router_other i j r store e = rw e refl

  set_router_keeps :
      {X : Type 0} (f : NatsRouter B → X) (i : ℕ) (r : NatsRouter B) (store : ℕ → NatsRouter B)
      → f r ≡ f (store i)
      → (j : ℕ) → f (set_router i r store j) ≡ f (store j)
  set_router_keeps f i r store e j = elim (Bool-cases (i == j)) [
    | inl same ↦ rw same (e ∙ ap (λ x. f (store x)) ((nat_equality.decides i j).0 same))
    | inr other ↦ rw other refl
  ]

  -- A change of a router that keeps its channel, and does not take its last route.
  pub changed :
      (i : ℕ) (r : NatsRouter B) (n : NatsBus B) (sub : ℕ)
      → Live n
      → r.channel ≡ (n.store i).channel
      → no_routes r.routes ≡ no_routes (n.store i).routes
      → Live (record n { store = set_router i r n.store; next_sub = sub })
  changed i r n sub h e f =
      let ch = set_router_keeps (λ x. x.channel) i r n.store e in
      let rs = set_router_keeps (λ x. no_routes x.routes) i r n.store f in
      record {
        named = λ c j x. (let k = h.named c j x in (ch j ∙ k.0, k.1, rs j ∙ k.2));
        mapped = λ j x. ap (λ y. lookup y n.routers) (ch j) ∙ h.mapped j (sym (rs j) ∙ x);
      }

  -- A new router under a channel that had none.
  pub placed :
      (server : String) (r : NatsRouter B) (n : NatsBus B) (sub : ℕ)
      → Live n
      → lookup server n.routers ≡ none
      → r.channel ≡ server
      → no_routes r.routes ≡ false
      → Live (record n {
        routers = insert server n.next_router n.routers;
        next_router = n.next_router + 1;
        store = set_router n.next_router r n.store;
        next_sub = sub;
      })
  placed server r n sub h none_yet e f = record {
    named = λ c j x. elim (Bool-cases (server == c)) [
      | inl same ↦
          let y : some n.next_router ≡ some j =
            sym (lookup-insert_same server c n.next_router n.routers same) ∙ x in
          let k : n.next_router ≡ j = cc in
          let at =
            set_router_self n.next_router j r n.store
              ((nat_equality.decides n.next_router j).1 k) in
          (
            ap (λ z. z.channel) at ∙ e ∙ (string_equality.decides server c).0 same,
            omega (arith, k),
            ap (λ z. no_routes z.routes) at ∙ f,
          )
      | inr other ↦
          let k =
            h.named c j (sym (lookup-insert_other server c n.next_router n.routers other) ∙ x) in
          let away = set_router_other n.next_router j r n.store (ground (arith, k.1)) in
          (
            ap (λ z. z.channel) away ∙ k.0,
            omega (arith, k.1),
            ap (λ z. no_routes z.routes) away ∙ k.2,
          )
    ];
    mapped = λ j x. elim (Bool-cases (n.next_router == j)) [
      | inl same ↦
          let at = set_router_self n.next_router j r n.store same in
          let k = ap (λ z. z.channel) at ∙ e in
          lookup-insert_same server _ n.next_router n.routers
            ((string_equality.decides server _).1 (sym k))
          ∙ ap some ((nat_equality.decides n.next_router j).0 same)
      | inr other ↦
          let away = set_router_other n.next_router j r n.store other in
          let k = h.mapped j (sym (ap (λ z. no_routes z.routes) away) ∙ x) in
          ap (λ z. lookup z (insert server n.next_router n.routers)) (ap (λ z. z.channel) away)
          ∙ lookup-insert_other server (n.store j).channel n.next_router n.routers
              (apart server (n.store j).channel j n.routers none_yet k)
          ∙ k
    ];
  }

  -- The last route of a router goes, and the router with it.
  pub removed :
      (i : ℕ) (r : NatsRouter B) (n : NatsBus B)
      → Live n
      → no_routes (n.store i).routes ≡ false
      → r.channel ≡ (n.store i).channel
      → no_routes r.routes ≡ true
      → Live (record n { routers = delete r.channel n.routers; store = set_router i r n.store })
  removed i r n h full e f =
      let mine : lookup r.channel n.routers ≡ some i =
        ap (λ z. lookup z n.routers) e ∙ h.mapped i full in
      record {
        named = λ c j x. elim (Bool-cases (r.channel == c)) [
          | inl same ↦ absurd (
              let y : none ≡ some j =
                sym (lookup-delete n.routers r.channel c ∙ rw same refl) ∙ x in
              cc)
          | inr other ↦
              let at : lookup c n.routers ≡ some j =
                sym (lookup-delete n.routers r.channel c ∙ rw other refl) ∙ x in
              let k = h.named c j at in
              let away =
                set_router_other i j r n.store
                  (told_apart (λ z. (n.store z).channel) i j r.channel c (sym e) k.0 other) in
              (ap (λ z. z.channel) away ∙ k.0, k.1, ap (λ z. no_routes z.routes) away ∙ k.2)
        ];
        mapped = λ j x. elim (Bool-cases (i == j)) [
          | inl same ↦ absurd (
              let y = ap (λ z. no_routes z.routes) (set_router_self i j r n.store same) in
              let both : true ≡ false = sym f ∙ sym y ∙ x in cc)
          | inr other ↦
              let away = set_router_other i j r n.store other in
              let k = h.mapped j (sym (ap (λ z. no_routes z.routes) away) ∙ x) in
              ap (λ z. lookup z (delete r.channel n.routers)) (ap (λ z. z.channel) away)
              ∙ lookup-delete n.routers r.channel (n.store j).channel
              ∙ (let ne = differ r.channel (n.store j).channel i j n.routers mine k other in
                  rw ne k)
        ];
      }
