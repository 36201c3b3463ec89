-- ===== src/LocalBus/Reach.antt =====
-- internal/bus/bus_local.go: the states that the calls of the bus reach.
use livekit_psrpc.Prelude.{
  ℕ, String, ◌-◌, ◌<◌, ◌≡◌, inl, inr, refl, sym, subst, ◌∙◌, Bool, true, false, List, none, some,
  arith, get_or, ◌==◌, nat_equality, string_equality, if◌then◌else◌, Bool-cases, Option-cases,
  lookup, insert, delete, lookup-insert, lookup-delete, Result, ok, err,
}
use livekit_psrpc.LocalBus.Subscription.{LocalSubscription}
use livekit_psrpc.LocalBus.SubList.{LocalSubList, new_sub_list, create, remove_slot, dispatch}
use livekit_psrpc.LocalBus.Bus.{
  LocalMessageBus, new_local_message_bus, sub_lists, with_sub_lists, list_at, subscribe, close,
  dispatch_at, publish,
}
use livekit_psrpc.LocalBus.Invariant.{
  IsSound, new_sub_list-IsSound, create-IsSound, create_keeps, remove_slot-IsSound, dispatch-Keeps,
}

module _ {B : Type 0} where
  -- A list of a map: sound, with a subscription in it, and of the kind of the map.
  pub record IsKept (queue : Bool) (l : LocalSubList B) : Type 0 where
    pub sound : IsSound l
    pub inhabited : 0 < l.sub_count
    pub kind : l.queue ≡ queue

  abbrev pub AreKept : Bool → List (String × LocalSubList B) → Type 0
  AreKept queue lists =
      (channel : String) (l : LocalSubList B) → lookup channel lists ≡ some l → IsKept queue l

  pub record BusInv (bus : LocalMessageBus B) : Type 0 where
    pub subs_kept : AreKept false bus.subs
    pub queues_kept : AreKept true bus.queues

  insert-AreKept :
      (queue : Bool) (channel : String) (l : LocalSubList B)
      (lists : List (String × LocalSubList B))
      → IsKept queue l
      → AreKept queue lists
      → AreKept queue (insert channel l lists)
  insert-AreKept queue channel l lists h hs c l' e = elim (Bool-cases (channel == c)) [
    | inl same ↦ subst (IsKept queue) {x = l} (ground (arith, lookup-insert lists channel c l)) h
    | inr other ↦ hs c l' (ground (arith, lookup-insert lists channel c l))
  ]

  delete-AreKept :
      (queue : Bool) (channel : String) (lists : List (String × LocalSubList B))
      → AreKept queue lists
      → AreKept queue (delete channel lists)
  delete-AreKept queue channel lists hs c l' e = elim (Bool-cases (channel == c)) [
    | inl same ↦ ground (arith, lookup-delete lists channel c)
    | inr other ↦ hs c l' (ground (arith, lookup-delete lists channel c))
  ]

  with_sub_lists-BusInv :
      (queue : Bool) (lists : List (String × LocalSubList B)) (bus : LocalMessageBus B)
      → AreKept queue lists
      → BusInv bus
      → BusInv (with_sub_lists queue lists bus)
  with_sub_lists-BusInv true lists bus h v = record { subs_kept = v.subs_kept; queues_kept = h }
  with_sub_lists-BusInv false lists bus h v = record { subs_kept = h; queues_kept = v.queues_kept }

  sub_lists-AreKept :
      (queue : Bool) (bus : LocalMessageBus B) → BusInv bus → AreKept queue (sub_lists queue bus)
  sub_lists-AreKept true bus v = v.queues_kept
  sub_lists-AreKept false bus v = v.subs_kept

  pub new_bus-BusInv : BusInv new_local_message_bus
  unfolding new_local_message_bus
  new_bus-BusInv = record { subs_kept = λ c l e. cc; queues_kept = λ c l e. cc }

  list_at-IsSound :
      (queue : Bool) (channel : String) (lists : List (String × LocalSubList B))
      → AreKept queue lists
      → IsSound (list_at queue (lookup channel lists))
        × ((list_at queue (lookup channel lists)).queue ≡ queue)
  unfolding new_sub_list
  list_at-IsSound queue channel lists hs = elim (Option-cases (lookup channel lists)) [
    | inl e ↦ rw e (new_sub_list-IsSound queue, refl)
    | inr (l, e) ↦ rw e ((hs channel l e).sound, (hs channel l e).kind)
  ]

  pub subscribe-BusInv :
      (queue : Bool) (channel : String) (size : ℕ) (bus : LocalMessageBus B)
      → BusInv bus
      → BusInv (subscribe queue channel size bus).0
  unfolding subscribe
  subscribe-BusInv queue channel size bus v =
      let lists = sub_lists queue bus in
      let hs = sub_lists-AreKept queue bus v in
      let old = list_at queue (lookup channel lists) in
      let (sound, kind) = list_at-IsSound queue channel lists hs in
      let (count, same) = create_keeps size old in
      with_sub_lists-BusInv queue _ bus
        (insert-AreKept queue channel (create size old).0 lists
          (record {
            sound = create-IsSound size old sound;
            inhabited = omega arith;
            kind = same ∙ kind;
          })
          hs)
        v

  -- The lists of a map after a subscription has left one of them.
  abbrev left_lists :
      String → LocalSubList B → List (String × LocalSubList B) → List (String × LocalSubList B)
  left_lists channel l lists =
      if l.sub_count == 0 then delete channel lists else insert channel l lists

  left_lists-AreKept :
      (queue : Bool) (channel : String) (index : ℕ) (l : LocalSubList B) (s : LocalSubscription B)
      (lists : List (String × LocalSubList B))
      → get_or l.subs index none ≡ some s
      → IsKept queue l
      → AreKept queue lists
      → AreKept queue (left_lists channel (remove_slot index l) lists)
  unfolding remove_slot
  left_lists-AreKept queue channel index l s lists y h hs =
      elim (Bool-cases (l.sub_count - 1 == 0)) [
        | inl gone ↦ rw gone (delete-AreKept queue channel lists hs)
        | inr more ↦ rw more (
            insert-AreKept queue channel (remove_slot index l) lists
              (record {
                sound = remove_slot-IsSound index l s y h.sound;
                inhabited = ground arith;
                kind = h.kind;
              })
              hs)
      ]

  pub close-BusInv :
      (queue : Bool) (channel : String) (index : ℕ) (bus bus' : LocalMessageBus B)
      → close queue channel index bus ≡ some bus'
      → BusInv bus
      → BusInv bus'
  unfolding close
  close-BusInv queue channel index bus bus' e v =
      let lists = sub_lists queue bus in
      let hs = sub_lists-AreKept queue bus v in
      elim (Option-cases (lookup channel lists)) [
        | inl x ↦ ground arith
        | inr (l, x) ↦ elim (Option-cases (get_or l.subs index none)) [
          | inl y ↦ ground arith
          | inr (s, y) ↦
              subst BusInv
                {x = with_sub_lists queue (left_lists channel (remove_slot index l) lists) bus}
                (ground arith)
                (with_sub_lists-BusInv queue _ bus
                  (left_lists-AreKept queue channel index l s lists y (hs channel l x) hs) v)
        ]
      ]

  dispatch_at-AreKept :
      (queue : Bool) (pick : ℕ → Bool) (fuel : ℕ) (channel : String) (b : B)
      (lists lists' : List (String × LocalSubList B))
      → dispatch_at pick fuel channel b lists ≡ some lists'
      → AreKept queue lists
      → AreKept queue lists'
  unfolding dispatch_at
  dispatch_at-AreKept queue pick fuel channel b lists lists' e hs =
      elim (Option-cases (lookup channel lists)) [
        | inl x ↦ subst (AreKept queue) {x = lists} (ground arith) hs
        | inr (l, x) ↦ elim (Option-cases (dispatch pick fuel b l)) [
          | inl y ↦ ground arith
          | inr (l', y) ↦
              let kept = dispatch-Keeps pick fuel b l l' y in
              let old = hs channel l x in
              subst (AreKept queue) {x = insert channel l' lists} (ground arith) (
                insert-AreKept queue channel l' lists
                  (record {
                    sound = record {
                      counted = kept.same_count ∙ old.sound.counted ∙ sym kept.same_live;
                      in_range = rw kept.same_length (kept.in_range old.sound.in_range);
                    };
                    inhabited = rw kept.same_count old.inhabited;
                    kind = kept.same_queue ∙ old.kind;
                  })
                  hs)
        ]
      ]

  pub publish-BusInv :
      {E : Type 0} (pick : ℕ → Bool) (fuel : ℕ) (channel : String) (m : Result E B)
      (bus bus' : LocalMessageBus B)
      → publish pick fuel channel m bus ≡ some (ok bus')
      → BusInv bus
      → BusInv bus'
  unfolding publish
  publish-BusInv pick fuel channel (err x) bus bus' e v = ground arith
  publish-BusInv pick fuel channel (ok b) bus bus' e v =
      elim (Option-cases (dispatch_at pick fuel channel b bus.subs)) [
        | inl x ↦ ground arith
        | inr (subs, x) ↦ elim (Option-cases (dispatch_at pick fuel channel b bus.queues)) [
          | inl y ↦ ground arith
          | inr (queues, y) ↦
              subst BusInv {x = record bus { subs = subs; queues = queues }} (ground arith)
                (record {
                  subs_kept =
                      dispatch_at-AreKept false pick fuel channel b bus.subs subs x v.subs_kept;
                  queues_kept =
                      dispatch_at-AreKept true pick fuel channel b bus.queues queues y
                        v.queues_kept;
                })
        ]
      ]

  -- One call: a subscription, the close of one, or a message.
  pub data Step (E : Type 0) (bus : LocalMessageBus B) : LocalMessageBus B → Type 0 where
    subscribed :
        (queue : Bool) (channel : String) (size : ℕ)
        → Step E bus (subscribe queue channel size bus).0
    closed :
        (queue : Bool) (channel : String) (index : ℕ) {bus' : LocalMessageBus B}
        → close queue channel index bus ≡ some bus'
        → Step E bus bus'
    published :
        (pick : ℕ → Bool) (fuel : ℕ) (channel : String) (m : Result E B) {bus' : LocalMessageBus B}
        → publish pick fuel channel m bus ≡ some (ok bus')
        → Step E bus bus'

  pub data Reach (E : Type 0) : LocalMessageBus B → Type 0 where
    start : Reach E new_local_message_bus
    after : {bus bus' : LocalMessageBus B} → Reach E bus → Step E bus bus' → Reach E bus'

  -- Whatever the calls were, each list of the bus counts its subscriptions rightly, has at least one,
  -- is of the kind of its map, and has its turn at one of its slots or just behind the last.
  pub Reach-BusInv : {E : Type 0} {bus : LocalMessageBus B} → Reach E bus → BusInv bus
  Reach-BusInv start = new_bus-BusInv
  Reach-BusInv (after r (subscribed queue channel size)) =
      subscribe-BusInv queue channel size _ (Reach-BusInv r)
  Reach-BusInv (after r (closed queue channel index e)) =
      close-BusInv queue channel index _ _ e (Reach-BusInv r)
  Reach-BusInv (after r (published pick fuel channel m e)) =
      publish-BusInv pick fuel channel m _ _ e (Reach-BusInv r)
