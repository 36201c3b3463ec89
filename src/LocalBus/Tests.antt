-- ===== src/LocalBus/Tests.antt =====
-- A bus with two plain subscriptions and a queue of three slots, one of them closed.
use livekit_psrpc.Prelude.{
  ℕ, ◌+◌, ◌≤◌, ◌≡◌, inl, inr, refl, Bool, true, false, [], ◌∷◌, none, some, subst, Bool-cases,
  arith, length, get_or, set, string_equality, lookup, ok,
}
use livekit_psrpc.LocalBus.Subscription.{LocalSubscription}
use livekit_psrpc.LocalBus.SubList.{LocalSubList, dispatch}
use livekit_psrpc.LocalBus.Bus.{LocalMessageBus, new_local_message_bus, subscribe, publish}
use livekit_psrpc.LocalBus.Slots.{AreReady, Written}
use livekit_psrpc.LocalBus.Queue.{InTurn}
use livekit_psrpc.LocalBus.Reach.{IsKept, BusInv, subscribed, Reach, start, after, Reach-BusInv}
use livekit_psrpc.LocalBus.Turns.{dispatch-InTurn, dispatch_diverges}
use livekit_psrpc.LocalBus.Delivery.{FannedOut, Served, Unchanged, IsOpen, publish_delivers}

abbrev pick_channel : ℕ → Bool
pick_channel i = true

abbrev empty_bus : LocalMessageBus ℕ
empty_bus = record { subs = []; queues = [] }

-- The bus after three calls of SubscribeQueue and the close of the second subscription.
abbrev queue_of_three : LocalSubList ℕ
queue_of_three = record {
  subs = some member ∷ none ∷ some member ∷ [];
  sub_count = 2;
  queue = true;
  next = 1;
}
  where
    member : LocalSubscription ℕ
    member = record { capacity = 100; messages = []; canceled = false }

abbrev with_queue : LocalMessageBus ℕ
with_queue = record { subs = []; queues = ("a", queue_of_three) ∷ [] }

-- The second slot is skipped, and the third gets the message.
third_served :
    dispatch pick_channel 3 7 queue_of_three
    ≡ some (record queue_of_three {
      subs =
          some (record { capacity = 100; messages = []; canceled = false })
          ∷ none
          ∷ some (record { capacity = 100; messages = 7 ∷ []; canceled = false })
          ∷ [];
      next = 3;
    })
unfolding dispatch
third_served = refl

subscribe_then_publish :
    let (bus, index) = subscribe false "a" 100 empty_bus in
    publish {E = ℕ} pick_channel 0 "a" (ok 7) bus
    ≡ some (
        ok (record {
          subs =
              (
                "a",
                record {
                  subs = some (record { capacity = 100; messages = 7 ∷ []; canceled = false }) ∷ [];
                  sub_count = 1;
                  queue = false;
                  next = 0;
                },
              )
              ∷ [];
          queues = [];
        }))
unfolding subscribe publish
subscribe_then_publish = refl

two_calls :
    Reach ℕ (subscribe true "a" 100 (subscribe {B = ℕ} true "a" 100 new_local_message_bus).0).0
two_calls = after (after start (subscribed true "a" 100)) (subscribed true "a" 100)

Reach-BusInv_example :
    BusInv (subscribe true "a" 100 (subscribe {B = ℕ} true "a" 100 new_local_message_bus).0).0
Reach-BusInv_example = Reach-BusInv two_calls

with_queue-BusInv : BusInv with_queue
with_queue-BusInv = record {
  subs_kept = λ c l e. cc;
  queues_kept = λ c l e. elim (Bool-cases (string_equality.test "a" c)) [
    | inl same ↦ subst (IsKept true) {x = queue_of_three} (ground arith) (record {
      sound = record { counted = refl; in_range = omega arith };
      inhabited = omega arith;
      kind = refl;
    })
    | inr other ↦ ground arith
  ];
}

with_queue-IsOpen : IsOpen 3 "a" with_queue
with_queue-IsOpen = record {
  subs_ready = λ l e. cc;
  queues_ready = λ l e.
      subst (λ (l : LocalSubList ℕ). AreReady l.subs) {x = queue_of_three} {y = l} (ground arith)
        (inr (omega arith), (inr (omega arith), tt));
  enough = λ l e.
      subst (λ (l : LocalSubList ℕ). length l.subs ≤ 3) {x = queue_of_three} {y = l} (ground arith)
        (omega arith);
}

publish_delivers_example :
    (bus' : LocalMessageBus ℕ) × (publish {E = ℕ} pick_channel 3 "a" (ok 7) with_queue
      ≡ some (ok bus'))
    × Unchanged "a" with_queue.subs bus'.subs
    × Unchanged "a" with_queue.queues bus'.queues
    × ((l : LocalSubList ℕ)
        → lookup "a" with_queue.subs ≡ some l
        → FannedOut 7 l (lookup "a" bus'.subs))
    × ((l : LocalSubList ℕ)
        → lookup "a" with_queue.queues ≡ some l
        → Served 7 l (lookup "a" bus'.queues))
publish_delivers_example =
    publish_delivers pick_channel 3 "a" 7 with_queue with_queue-BusInv with_queue-IsOpen

dispatch-InTurn_example :
    (i : ℕ) × (s t : LocalSubscription ℕ) × InTurn queue_of_three.subs 1 i
    × (get_or queue_of_three.subs i none ≡ some s)
    × Written 7 s t
    × (dispatch pick_channel 3 7 queue_of_three
        ≡ some (record queue_of_three { subs = set queue_of_three.subs i (some t); next = i + 1 }))
dispatch-InTurn_example =
    dispatch-InTurn pick_channel 3 7 queue_of_three (omega arith) refl (omega arith) (omega arith)
      (inr (omega arith), (inr (omega arith), tt))

abbrev closed_queue : LocalSubList ℕ
closed_queue = record { subs = none ∷ none ∷ []; sub_count = 0; queue = true; next = 0 }

dispatch_diverges_example : dispatch pick_channel 1000 7 closed_queue ≡ none
dispatch_diverges_example =
    dispatch_diverges pick_channel 1000 7 closed_queue refl refl (omega arith) refl
