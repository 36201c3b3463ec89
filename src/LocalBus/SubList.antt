-- ===== src/LocalBus/SubList.antt =====
-- internal/bus/bus_local.go: `localSubList`. A slot whose subscription was closed is nil.
use livekit_psrpc.Prelude.{
  ℕ, zero, suc, ◌+◌, ◌-◌, Bool, List, [], ◌∷◌, ◌++◌, Option, none, some, leb, ◌==◌, nat_equality,
  if◌then◌else◌, length, get_or, set,
}
use livekit_psrpc.LocalBus.Subscription.{LocalSubscription, new_subscription, write}

abbrev pub Slots : Type 0 → Type 0
Slots B = List (Option (LocalSubscription B))

pub record LocalSubList (B : Type 0) : Type 0 where
  pub subs : Slots B
  pub sub_count : ℕ
  pub queue : Bool
  pub next : ℕ

module _ {B : Type 0} where
  unfoldable pub new_sub_list : Bool → LocalSubList B
  new_sub_list queue = record { subs = []; sub_count = 0; queue = queue; next = 0 }

  -- The search of `create`: the first nil slot from the index on.
  unfoldable pub free_slot : ℕ → Slots B → Option ℕ
  free_slot i [] = none
  free_slot i (none ∷ subs) = some i
  free_slot i (some s ∷ subs) = free_slot (suc i) subs

  -- The new list, and the index that `onClose` hands to `onUnsubscribe`.
  unfoldable pub create : ℕ → LocalSubList B → LocalSubList B × ℕ
  unfolding free_slot new_subscription
  create size l =
      let sub = some (new_subscription size) in
      let counted = record l { sub_count = l.sub_count + 1 } in
      elim (free_slot 0 l.subs) [
        | some index ↦ (record counted { subs = set l.subs index sub }, index)
        | none ↦ (record counted { subs = l.subs ++ sub ∷ [] }, length l.subs)
      ]

  -- `onUnsubscribe`, but for the list's place in the map.
  unfoldable pub remove_slot : ℕ → LocalSubList B → LocalSubList B
  remove_slot index l = record l { subs = set l.subs index none; sub_count = l.sub_count - 1 }

  -- The loop of `dispatch` over a queue: the new `next`, and the slot that gets the message.
  -- `none` is a loop that has not ended when the fuel is used up.
  unfoldable pub next_slot : ℕ → ℕ → ℕ → Slots B → Option (ℕ × Option ℕ)
  next_slot zero start next subs = none
  next_slot (suc fuel) start next subs =
      let i = if leb (length subs) next then 0 else next in
      let rest = next_slot fuel start (i + 1) subs in
      elim (get_or subs i none) [
        | some s ↦ some (i + 1, some i)
        | none ↦ if i + 1 == start then some (i + 1, none) else rest
      ]

  -- A write to the subscription of a slot, if there is one. `none` blocks.
  unfoldable pub write_slot : Bool → B → ℕ → Slots B → Option (Slots B)
  unfolding write
  write_slot pick b i subs = elim (get_or subs i none) [
    | none ↦ some subs
    | some s ↦ elim (write pick b s) [ none ↦ none | some s' ↦ some (set subs i (some s')) ]
  ]

  -- The loop of `dispatch` over a list that is no queue. `pick` decides each `select`.
  unfoldable pub write_all : (ℕ → Bool) → ℕ → B → Slots B → Option (Slots B)
  unfolding write
  write_all pick i b [] = some []
  write_all pick i b (slot ∷ subs) =
      let rest = write_all pick (suc i) b subs in
      elim slot [
        | none ↦ elim rest [ none ↦ none | some subs' ↦ some (none ∷ subs') ]
        | some s ↦ elim (write (pick i) b s) [
          | none ↦ none
          | some s' ↦ elim rest [ none ↦ none | some subs' ↦ some (some s' ∷ subs') ]
        ]
      ]

  -- `none`: the call blocks in a write, or the loop over the queue does not end within the fuel.
  unfoldable pub dispatch : (ℕ → Bool) → ℕ → B → LocalSubList B → Option (LocalSubList B)
  unfolding next_slot write_slot write_all
  dispatch pick fuel b l =
      if l.queue
      then (if length l.subs == 0 then some l else elim (next_slot fuel l.next l.next l.subs) [
        | none ↦ none
        | some (next, none) ↦ some (record l { next = next })
        | some (next, some i) ↦ elim (write_slot (pick i) b i l.subs) [
          | none ↦ none
          | some subs ↦ some (record l { subs = subs; next = next })
        ]
      ])
      else elim (write_all pick 0 b l.subs) [
        | none ↦ none
        | some subs ↦ some (record l { subs = subs })
      ]
