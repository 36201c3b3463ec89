-- ===== src/LocalBus/Invariant.antt =====
-- internal/bus/bus_local.go: what holds of the bus between two calls.
use livekit_psrpc.Prelude.{
  ℕ, zero, suc, ◌+◌, ◌≤◌, ◌<◌, ◌≡◌, inl, inr, refl, Bool, [], ◌∷◌, Option, none, some, arith,
  length, length-append, length-set, get_or, leb, ◌==◌, nat_equality, string_equality,
  if◌then◌else◌, Bool-cases, Option-cases,
}
use livekit_psrpc.LocalBus.Subscription.{LocalSubscription, new_subscription, write}
use livekit_psrpc.LocalBus.SubList.{
  Slots, LocalSubList, new_sub_list, free_slot, create, remove_slot, next_slot, write_slot,
  write_all, dispatch,
}
use livekit_psrpc.LocalBus.Slots.{
  live, free_at, live-set-some, live-set_same, live-set-none, live-append, write_all-Delivered,
  live-Delivered,
}

module _ {B : Type 0} where
  -- The count is the number of subscriptions, and `next` is at most one past the last slot.
  pub record IsSound (l : LocalSubList B) : Type 0 where
    pub counted : l.sub_count ≡ live l.subs
    pub in_range : l.next ≤ length l.subs

  pub new_sub_list-IsSound : (queue : Bool) → IsSound (new_sub_list queue)
  unfolding new_sub_list
  new_sub_list-IsSound queue = record { counted = refl; in_range = omega arith }

  pub create-IsSound : (size : ℕ) (l : LocalSubList B) → IsSound l → IsSound (create size l).0
  unfolding create
  create-IsSound size l h = elim (Option-cases (free_slot 0 l.subs)) [
    | inl e ↦ record {
      counted = ground (arith, live-append l.subs (new_subscription size));
      in_range = ground (arith, length-append l.subs (some (new_subscription size) ∷ []));
    }
    | inr (i, e) ↦ record {
      counted = ground (arith, free_at l.subs i e, live-set-some l.subs i (new_subscription size));
      in_range = ground (arith, length-set l.subs i (some (new_subscription size)));
    }
  ]

  pub create_keeps :
      (size : ℕ) (l : LocalSubList B)
      → ((create size l).0.sub_count ≡ l.sub_count + 1) × ((create size l).0.queue ≡ l.queue)
  unfolding create
  create_keeps size l = ground arith

  pub remove_slot-IsSound :
      (i : ℕ) (l : LocalSubList B) (s : LocalSubscription B)
      → get_or l.subs i none ≡ some s
      → IsSound l
      → IsSound (remove_slot i l)
  unfolding remove_slot
  remove_slot-IsSound i l s e h = record {
    counted = omega (arith, live-set-none l.subs i s e, h.counted);
    in_range = omega (arith, length-set l.subs i none, h.in_range);
  }

  -- What a list keeps through `dispatch`.
  pub record Keeps (l l' : LocalSubList B) : Type 0 where
    pub same_count : l'.sub_count ≡ l.sub_count
    pub same_queue : l'.queue ≡ l.queue
    pub same_live : live l'.subs ≡ live l.subs
    pub same_length : length l'.subs ≡ length l.subs
    pub in_range : l.next ≤ length l.subs → l'.next ≤ length l.subs

  write_slot_keeps :
      (pick : Bool) (b : B) (i : ℕ) (subs subs' : Slots B)
      → write_slot pick b i subs ≡ some subs'
      → (live subs' ≡ live subs) × (length subs' ≡ length subs)
  unfolding write_slot
  write_slot_keeps pick b i subs subs' e = elim (Option-cases (get_or subs i none)) [
    | inl x ↦ ground arith
    | inr (s, x) ↦ elim (Option-cases (write pick b s)) [
      | inl y ↦ ground arith
      | inr (t, y) ↦ ground (arith, live-set_same subs i t s x, length-set subs i (some t))
    ]
  ]

  next_slot_bounds :
      (fuel start next : ℕ) (subs : Slots B) (n : ℕ) (r : Option ℕ)
      → 0 < length subs
      → next_slot fuel start next subs ≡ some (n, r)
      → n ≤ length subs
  unfolding next_slot
  next_slot_bounds zero start next subs n r h e = cc
  next_slot_bounds (suc fuel) start next subs n r h e =
      let i = if leb (length subs) next then 0 else next in
      let rest = next_slot_bounds fuel start (i + 1) subs n r h in ground arith

  pub dispatch-Keeps :
      (pick : ℕ → Bool) (fuel : ℕ) (b : B) (l l' : LocalSubList B)
      → dispatch pick fuel b l ≡ some l'
      → Keeps l l'
  unfolding dispatch
  dispatch-Keeps pick fuel b l l' e = elim (Bool-cases l.queue) [
    | inr plain ↦ elim (Option-cases (write_all pick 0 b l.subs)) [
      | inl x ↦ ground arith
      | inr (subs, x) ↦
          let kept = live-Delivered b l.subs subs (write_all-Delivered pick 0 b l.subs subs x) in
          ground arith
    ]
    | inl queued ↦ elim (Bool-cases (length l.subs == 0)) [
      | inl empty ↦ ground arith
      | inr some_slot ↦ elim (Option-cases (next_slot fuel l.next l.next l.subs)) [
        | inl x ↦ ground arith
        | inr ((n, none), x) ↦ ground (arith, next_slot_bounds fuel l.next l.next l.subs n none)
        | inr ((n, some i), x) ↦ elim (Option-cases (write_slot (pick i) b i l.subs)) [
          | inl y ↦ ground arith
          | inr (subs, y) ↦ ground (
            arith,
            next_slot_bounds fuel l.next l.next l.subs n (some i),
            write_slot_keeps (pick i) b i l.subs subs y,
          )
        ]
      ]
    ]
  ]
