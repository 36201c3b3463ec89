-- ===== src/LocalBus/Delivery.antt =====
-- internal/bus/bus_local.go: what a call does to the bus as a whole.
use livekit_psrpc.Prelude.{
  ℕ, String, ◌+◌, ◌≤◌, ◌≡◌, ◌≢◌, inl, inr, refl, subst, Bool, List, Option, none, some, arith,
  length, get_or, set, nat_equality, string_equality, Option-cases, lookup, insert,
  lookup-insert_self, lookup-insert_ne, ok,
}
use livekit_psrpc.LocalBus.Subscription.{LocalSubscription}
use livekit_psrpc.LocalBus.SubList.{Slots, LocalSubList, dispatch}
use livekit_psrpc.LocalBus.Bus.{LocalMessageBus, dispatch_at, publish}
use livekit_psrpc.LocalBus.Reach.{BusInv}
use livekit_psrpc.LocalBus.Slots.{Written, AreReady, Delivered}
use livekit_psrpc.LocalBus.Queue.{InTurn}
use livekit_psrpc.LocalBus.Turns.{dispatch_fanout, dispatch-InTurn}

module _ {B : Type 0} where
  -- What a list of plain subscriptions becomes.
  abbrev pub FannedOut : B → LocalSubList B → Option (LocalSubList B) → Type 0
  FannedOut b l r =
      (subs : Slots B) × (r ≡ some (record l { subs = subs })) × Delivered b l.subs subs

  -- What a queue becomes: the subscription whose turn it is has had the message, and no other one.
  abbrev pub Served : B → LocalSubList B → Option (LocalSubList B) → Type 0
  Served b l r =
      (i : ℕ) × (s t : LocalSubscription B) × InTurn l.subs l.next i
      × (get_or l.subs i none ≡ some s)
      × Written b s t
      × (r ≡ some (record l { subs = set l.subs i (some t); next = i + 1 }))

  abbrev pub Unchanged :
      String → List (String × LocalSubList B) → List (String × LocalSubList B) → Type 0
  Unchanged channel lists lists' = (c : String) → c ≢ channel → lookup c lists' ≡ lookup c lists

  -- The lists of a channel, none of which makes a message wait, and rounds enough for its queue.
  pub record IsOpen (fuel : ℕ) (channel : String) (bus : LocalMessageBus B) : Type 0 where
    pub subs_ready : (l : LocalSubList B) → lookup channel bus.subs ≡ some l → AreReady l.subs
    pub queues_ready : (l : LocalSubList B) → lookup channel bus.queues ≡ some l → AreReady l.subs
    pub enough : (l : LocalSubList B) → lookup channel bus.queues ≡ some l → length l.subs ≤ fuel

  insert-Unchanged :
      (channel : String) (l : LocalSubList B) (lists : List (String × LocalSubList B))
      → Unchanged channel lists (insert channel l lists)
  insert-Unchanged channel l lists c ne = lookup-insert_ne channel c l lists ne

  dispatch_at_lem :
      (P : LocalSubList B → Option (LocalSubList B) → Type 0) (pick : ℕ → Bool) (fuel : ℕ)
      (channel : String) (b : B) (lists : List (String × LocalSubList B))
      → ((l : LocalSubList B)
          → lookup channel lists ≡ some l
          → (l' : LocalSubList B) × (dispatch pick fuel b l ≡ some l') × P l (some l'))
      → (lists' : List (String × LocalSubList B)) × (dispatch_at pick fuel channel b lists
          ≡ some lists')
        × Unchanged channel lists lists'
        × ((l : LocalSubList B) → lookup channel lists ≡ some l → P l (lookup channel lists'))
  unfolding dispatch_at
  dispatch_at_lem P pick fuel channel b lists h = elim (Option-cases (lookup channel lists)) [
    | inl x ↦ (lists, rw (x, dispatch_at), (λ c ne. refl), λ l e. cc)
    | inr (l, x) ↦
        let (l', y, p) = h l x in
        (
          insert channel l' lists,
          rw (x, dispatch_at) (rw y),
          insert-Unchanged channel l' lists,
          λ k e.
              rw (lookup-insert_self channel l' lists)
                (subst (λ z. P z (some l')) {x = l} (ground arith) p),
        )
  ]

  -- A message that nobody makes wait goes to every plain subscription of its channel and to one
  -- subscription of the channel's queue, the one whose turn it is; other channels see nothing of it.
  pub publish_delivers :
      {E : Type 0} (pick : ℕ → Bool) (fuel : ℕ) (channel : String) (b : B) (bus : LocalMessageBus B)
      → BusInv bus
      → IsOpen fuel channel bus
      → (bus' : LocalMessageBus B) × (publish {E = E} pick fuel channel (ok b) bus ≡ some (ok bus'))
        × Unchanged channel bus.subs bus'.subs
        × Unchanged channel bus.queues bus'.queues
        × ((l : LocalSubList B)
            → lookup channel bus.subs ≡ some l
            → FannedOut b l (lookup channel bus'.subs))
        × ((l : LocalSubList B)
            → lookup channel bus.queues ≡ some l
            → Served b l (lookup channel bus'.queues))
  unfolding publish
  publish_delivers pick fuel channel b bus v ready =
      let (subs, x, others, fanned) =
        dispatch_at_lem (FannedOut b) pick fuel channel b bus.subs (λ l e.
          let (subs', f, d) =
            dispatch_fanout pick fuel b l (v.subs_kept channel l e).kind (ready.subs_ready l e) in
          (record l { subs = subs' }, f, (subs', refl, d))) in
      let (queues, y, others', served) =
        dispatch_at_lem (Served b) pick fuel channel b bus.queues (λ l e.
          let kept = v.queues_kept channel l e in
          let (i, s, t, turn, at, written, f) =
            dispatch-InTurn pick fuel b l (ready.enough l e) kept.kind kept.sound.in_range
              (omega (arith, kept.inhabited, kept.sound.counted)) (ready.queues_ready l e) in
          (
            record l { subs = set l.subs i (some t); next = i + 1 },
            f,
            (i, s, t, turn, at, written, refl),
          )) in
      (record bus { subs = subs; queues = queues }, ground arith, others, others', fanned, served)
