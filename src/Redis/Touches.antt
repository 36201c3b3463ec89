-- ===== src/Redis/Touches.antt =====
-- internal/bus/bus_redis.go: what subscribing and unsubscribing do to the rest of the bus.
use livekit_psrpc.Prelude.{
  ◌≡◌, ◌⊎◌, refl, sym, ap, subst, ℕ, ◌+◌, String, Bool, true, false, ◌||◌, List, [], ◌∷◌, none,
  some, ◌==◌, string_equality, inl, inr, Bool-cases, Option-cases, lookup, insert, delete,
  lookup-insert, lookup-delete,
}
use livekit_psrpc.Redis.SubList.{RedisSubscription, RedisSubList, remove_sub}
use livekit_psrpc.Redis.State.{reconcile, RedisBus, desired, is_some}
use livekit_psrpc.Redis.Steps.{
  sub_lists, with_sub_lists, reconcile_subscriptions, subscribe, unsubscribe, append_sub,
}

abbrev pub Lists : Type 0 → Type 0
Lists B = List (String × RedisSubList B)

abbrev pub wanted : {B : Type 0} → Lists B → Lists B → String → Bool
wanted subs queues c = is_some (lookup c subs) || is_some (lookup c queues)

module _ {B : Type 0} where
  -- Either the wanted channels stay, or all but one do, which is marked with a reconciliation on its way.
  pub data Touches (r : RedisBus B) : RedisBus B → Type 0 where
    keeps :
        (subs queues : Lists B) (id : ℕ)
        → ((c : String) → wanted subs queues c ≡ desired r c)
        → Touches r (record r { subs = subs; queues = queues; next_id = id })
    marks :
        (ch : String) (subs queues : Lists B) (id : ℕ)
        → ((c : String) → (ch == c) ≡ false → wanted subs queues c ≡ desired r c)
        → Touches r (record r {
          subs = subs;
          queues = queues;
          next_id = id;
          dirty = ch ∷ r.dirty;
          callers = reconcile ∷ r.callers;
        })

  insert-wanted :
      (ch c : String) (l : RedisSubList B) (m : Lists B)
      → (ch == c) ≡ false ⊎ is_some (lookup ch m) ≡ true
      → is_some (lookup c (insert ch l m)) ≡ is_some (lookup c m)
  insert-wanted ch c l m (inl other) = rw (lookup-insert m ch c l, other) refl
  insert-wanted ch c l m (inr there) = elim (Bool-cases (ch == c)) [
    | inl same ↦
        let e : is_some (lookup ch m) ≡ is_some (lookup c m) =
          ap (λ x. is_some (lookup x m)) ((string_equality.decides ch c).0 same) in
        rw (lookup-insert m ch c l, same) (cc)
    | inr other ↦ rw (lookup-insert m ch c l, other) refl
  ]

  delete-wanted :
      (ch c : String) (m : Lists B)
      → (ch == c) ≡ false
      → is_some (lookup c (delete ch m)) ≡ is_some (lookup c m)
  delete-wanted ch c m other = rw (lookup-delete m ch c, other) refl

  pub subscribe-Touches :
      (queue : Bool) (ch : String) (size : ℕ) (r : RedisBus B)
      → Touches r (subscribe queue ch size r)
  unfolding subscribe
  subscribe-Touches true ch size r =
      let l = append_sub r.next_id size (lookup ch r.queues) in
      elim (Option-cases (lookup ch r.queues)) [
        | inl e ↦ subst (Touches r) (simp (e, subscribe) refl) (
            marks ch r.subs (insert ch l r.queues) (r.next_id + 1)
              (λ c other. rw (insert-wanted ch c l r.queues (inl other)) refl))
        | inr (old, e) ↦ subst (Touches r) (simp (e, subscribe) refl) (
            keeps r.subs (insert ch l r.queues) (r.next_id + 1)
              (λ c. rw (insert-wanted ch c l r.queues (inr (rw e refl))) refl))
      ]
  subscribe-Touches false ch size r =
      let l = append_sub r.next_id size (lookup ch r.subs) in
      elim (Option-cases (lookup ch r.subs)) [
        | inl e ↦ subst (Touches r) (simp (e, subscribe) refl) (
            marks ch (insert ch l r.subs) r.queues (r.next_id + 1)
              (λ c other. rw (insert-wanted ch c l r.subs (inl other)) refl))
        | inr (old, e) ↦ subst (Touches r) (simp (e, subscribe) refl) (
            keeps (insert ch l r.subs) r.queues (r.next_id + 1)
              (λ c. rw (insert-wanted ch c l r.subs (inr (rw e refl))) refl))
      ]

  Removed-cases :
      (id : ℕ) (l : RedisSubList B)
      → (remove_sub id l.subs ≡ none)
        ⊎ ((remove_sub id l.subs ≡ some [])
            ⊎ ((s : RedisSubscription B) × (subs : List (RedisSubscription B)) × (remove_sub id
                    l.subs
                  ≡ some (s ∷ subs))))
  Removed-cases id l = elim (Option-cases (remove_sub id l.subs)) [
    | inl e ↦ inl e
    | inr ([], e) ↦ inr (inl e)
    | inr (s ∷ subs, e) ↦ inr (inr (s, subs, e))
  ]

  unsubscribe_missing :
      (queue : Bool) (ch : String) (id : ℕ) (r : RedisBus B) (l : RedisSubList B)
      → lookup ch (sub_lists queue r) ≡ some l
      → remove_sub id l.subs ≡ none
      → unsubscribe queue ch id r ≡ r
  unfolding unsubscribe
  unsubscribe_missing queue ch id r l e f = simp (e, f, unsubscribe) refl

  unsubscribe_last :
      (queue : Bool) (ch : String) (id : ℕ) (r : RedisBus B) (l : RedisSubList B)
      → lookup ch (sub_lists queue r) ≡ some l
      → remove_sub id l.subs ≡ some []
      → unsubscribe queue ch id r
        ≡ reconcile_subscriptions ch (with_sub_lists queue (delete ch (sub_lists queue r)) r)
  unfolding unsubscribe
  unsubscribe_last queue ch id r l e f = simp (e, f, unsubscribe) refl

  unsubscribe_more :
      (queue : Bool) (ch : String) (id : ℕ) (r : RedisBus B) (l : RedisSubList B)
      (s : RedisSubscription B) (subs : List (RedisSubscription B))
      → lookup ch (sub_lists queue r) ≡ some l
      → remove_sub id l.subs ≡ some (s ∷ subs)
      → unsubscribe queue ch id r
        ≡ with_sub_lists queue (insert ch (record l { subs = s ∷ subs }) (sub_lists queue r)) r
  unfolding unsubscribe
  unsubscribe_more queue ch id r l s subs e f = simp (e, f, unsubscribe) refl

  same-Touches : (r : RedisBus B) → Touches r r
  same-Touches r = keeps r.subs r.queues r.next_id (λ c. refl)

  last-Touches :
      (queue : Bool) (ch : String) (r : RedisBus B)
      → Touches r
          (reconcile_subscriptions ch (with_sub_lists queue (delete ch (sub_lists queue r)) r))
  last-Touches true ch r =
      marks ch r.subs (delete ch r.queues) r.next_id
        (λ c other. rw (delete-wanted ch c r.queues other) refl)
  last-Touches false ch r =
      marks ch (delete ch r.subs) r.queues r.next_id
        (λ c other. rw (delete-wanted ch c r.subs other) refl)

  more-Touches :
      (queue : Bool) (ch : String) (r : RedisBus B) (l : RedisSubList B)
      → is_some (lookup ch (sub_lists queue r)) ≡ true
      → Touches r (with_sub_lists queue (insert ch l (sub_lists queue r)) r)
  more-Touches true ch r l there =
      keeps r.subs (insert ch l r.queues) r.next_id
        (λ c. rw (insert-wanted ch c l r.queues (inr there)) refl)
  more-Touches false ch r l there =
      keeps (insert ch l r.subs) r.queues r.next_id
        (λ c. rw (insert-wanted ch c l r.subs (inr there)) refl)

  pub unsubscribe-Touches :
      (queue : Bool) (ch : String) (id : ℕ) (r : RedisBus B) → Touches r (unsubscribe queue ch id r)
  unfolding unsubscribe
  unsubscribe-Touches queue ch id r = elim (Option-cases (lookup ch (sub_lists queue r))) [
    | inl e ↦ subst (Touches r) (simp (e, unsubscribe) refl) (same-Touches r)
    | inr (l, e) ↦ elim (Removed-cases id l) [
      | inl f ↦ subst (Touches r) (sym (unsubscribe_missing queue ch id r l e f)) (same-Touches r)
      | inr (inl f) ↦
          subst (Touches r) (sym (unsubscribe_last queue ch id r l e f)) (last-Touches queue ch r)
      | inr (inr (s, subs, f)) ↦
          subst (Touches r) (sym (unsubscribe_more queue ch id r l s subs e f))
            (more-Touches queue ch r (record l { subs = s ∷ subs }) (rw e refl))
    ]
  ]
