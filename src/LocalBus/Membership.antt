-- ===== src/LocalBus/Membership.antt =====
-- internal/bus/bus_local.go: what subscribing and closing do to the slots of a channel.
use livekit_psrpc.Prelude.{
  ℕ, String, ◌-◌, ◌≤◌, ◌<◌, ◌≡◌, ◌≢◌, ◌⊎◌, inl, inr, refl, sym, Bool, true, false, not, List,
  Option, none, some, arith, get_elem?, get_or, set, get_elem?-set_self, get_elem?-set_ne, ◌==◌,
  nat_equality, string_equality, Bool-cases, Option-cases, lookup, insert, delete,
  lookup-insert_self, lookup-insert_ne, lookup-delete_self, lookup-delete_ne,
}
use livekit_psrpc.LocalBus.Subscription.{LocalSubscription, new_subscription}
use livekit_psrpc.LocalBus.SubList.{Slots, LocalSubList, free_slot, create, remove_slot}
use livekit_psrpc.LocalBus.Bus.{
  LocalMessageBus, sub_lists, with_sub_lists, list_at, subscribe, close,
}
use livekit_psrpc.LocalBus.Slots.{
  free_at, get_elem?-append, get_elem?-append_ne, get_or_past, get_or_of_get_elem, get_elem-lt,
}
use livekit_psrpc.LocalBus.Delivery.{Unchanged}

module _ {B : Type 0} where
  -- A slot that was nil, or past the end, takes the new subscription, and no other slot changes.
  abbrev pub Placed : ℕ → Slots B → ℕ → Slots B → Type 0
  Placed size old index new =
      (get_or old index none ≡ none)
      × (get_elem? new index ≡ some (some (new_subscription size)))
      × ((j : ℕ) → j ≢ index → get_elem? new j ≡ get_elem? old j)

  create-Placed :
      (size : ℕ) (l : LocalSubList B) → Placed size l.subs (create size l).1 (create size l).0.subs
  unfolding create
  create-Placed size l = elim (Option-cases (free_slot 0 l.subs)) [
    | inl e ↦
        rw (e, create) (get_or_past l.subs, get_elem?-append l.subs _, get_elem?-append_ne l.subs _)
    | inr (i, e) ↦
        let at = free_at l.subs i e in
        rw (e, create)
          (
            get_or_of_get_elem l.subs i none at,
            get_elem?-set_self l.subs i _ (get_elem-lt l.subs i none at),
            λ j ne. get_elem?-set_ne l.subs i j _ (λ x. ne (sym x)),
          )
  ]

  sub_lists_self :
      (queue : Bool) (lists : List (String × LocalSubList B)) (bus : LocalMessageBus B)
      → (sub_lists queue (with_sub_lists queue lists bus) ≡ lists)
        × (sub_lists (not queue) (with_sub_lists queue lists bus) ≡ sub_lists (not queue) bus)
  sub_lists_self true lists bus = (refl, refl)
  sub_lists_self false lists bus = (refl, refl)

  -- A new subscription stands alone in the slot that its close will clear: the slot held none before,
  -- no other slot of the channel changes, and neither does another channel or the other map.
  pub subscribe_lem :
      (queue : Bool) (channel : String) (size : ℕ) (bus : LocalMessageBus B)
      → let (bus', index) = subscribe queue channel size bus in
        let lists = sub_lists queue bus in
        let lists' = sub_lists queue bus' in
        (l : LocalSubList B) × (lookup channel lists' ≡ some l)
        × Placed size (list_at queue (lookup channel lists)).subs index l.subs
        × Unchanged channel lists lists'
        × (sub_lists (not queue) bus' ≡ sub_lists (not queue) bus)
  unfolding subscribe
  subscribe_lem queue channel size bus =
      let lists = sub_lists queue bus in
      let old = list_at queue (lookup channel lists) in
      let (same, other) = sub_lists_self queue (insert channel (create size old).0 lists) bus in
      (
        (create size old).0,
        rw same (lookup-insert_self channel _ lists),
        create-Placed size old,
        rw same (λ c ne. lookup-insert_ne channel c _ lists ne),
        other,
      )

  -- What a channel's list becomes when a subscription is closed: the last one takes the list with it.
  abbrev pub Cleared : ℕ → LocalSubList B → Option (LocalSubList B) → Type 0
  Cleared index l r =
      ((l.sub_count ≤ 1) × (r ≡ none))
      ⊎ ((1 < l.sub_count)
          × (r ≡ some (record l { subs = set l.subs index none; sub_count = l.sub_count - 1 })))

  -- The close of a live subscription clears its slot and nothing else, and forgets the list exactly
  -- when it was the last one there.
  pub close_lem :
      (queue : Bool) (channel : String) (index : ℕ) (bus : LocalMessageBus B) (l : LocalSubList B)
      (s : LocalSubscription B)
      → lookup channel (sub_lists queue bus) ≡ some l
      → get_or l.subs index none ≡ some s
      → (bus' : LocalMessageBus B) × (close queue channel index bus ≡ some bus')
        × Cleared index l (lookup channel (sub_lists queue bus'))
        × Unchanged channel (sub_lists queue bus) (sub_lists queue bus')
        × (sub_lists (not queue) bus' ≡ sub_lists (not queue) bus)
  unfolding close remove_slot
  close_lem queue channel index bus l s x y =
      let lists = sub_lists queue bus in
      elim (Bool-cases (l.sub_count - 1 == 0)) [
        | inl gone ↦
            let (same, other) = sub_lists_self queue (delete channel lists) bus in
            (
              with_sub_lists queue (delete channel lists) bus,
              ground arith,
              inl (ground arith, rw same (lookup-delete_self channel lists)),
              rw same (λ c ne. lookup-delete_ne channel c lists ne),
              other,
            )
        | inr more ↦
            let l' = remove_slot index l in
            let (same, other) = sub_lists_self queue (insert channel l' lists) bus in
            (
              with_sub_lists queue (insert channel l' lists) bus,
              ground arith,
              inr (ground arith, rw same (lookup-insert_self channel l' lists)),
              rw same (λ c ne. lookup-insert_ne channel c l' lists ne),
              other,
            )
      ]
