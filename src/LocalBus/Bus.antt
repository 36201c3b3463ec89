-- ===== src/LocalBus/Bus.antt =====
-- internal/bus/bus_local.go: `localMessageBus`. Each method runs under the locks of the bus and of the
-- list, so it is one step; a list is the value at its channel in one of the two maps.
use livekit_psrpc.Prelude.{
  ℕ, String, Bool, true, false, List, [], Option, none, some, ◌==◌, nat_equality, string_equality,
  if◌then◌else◌, get_or, lookup, insert, delete, Result, ok, err,
}
use livekit_psrpc.LocalBus.SubList.{LocalSubList, new_sub_list, create, remove_slot, dispatch}

pub record LocalMessageBus (B : Type 0) : Type 0 where
  pub subs : List (String × LocalSubList B)
  pub queues : List (String × LocalSubList B)

module _ {B : Type 0} where
  unfoldable pub new_local_message_bus : LocalMessageBus B
  new_local_message_bus = record { subs = []; queues = [] }

  -- The map that `subscribe` is handed, and the bus with that map changed.
  abbrev pub sub_lists : Bool → LocalMessageBus B → List (String × LocalSubList B)
  sub_lists true bus = bus.queues
  sub_lists false bus = bus.subs

  abbrev pub with_sub_lists :
      Bool → List (String × LocalSubList B) → LocalMessageBus B → LocalMessageBus B
  with_sub_lists true lists bus = record bus { queues = lists }
  with_sub_lists false lists bus = record bus { subs = lists }

  abbrev pub list_at : Bool → Option (LocalSubList B) → LocalSubList B
  unfolding new_sub_list
  list_at queue none = new_sub_list queue
  list_at queue (some l) = l

  -- The new bus, and the slot of the new subscription. `Subscribe` and `SubscribeQueue` are the calls
  -- at `false` and at `true`.
  unfoldable pub subscribe : Bool → String → ℕ → LocalMessageBus B → LocalMessageBus B × ℕ
  unfolding create new_sub_list
  subscribe queue channel size bus =
      let lists = sub_lists queue bus in
      let (l, index) = create size (list_at queue (lookup channel lists)) in
      (with_sub_lists queue (insert channel l lists) bus, index)

  -- `Close` of the subscription in a slot. `none` is the panic of closing a channel twice.
  unfoldable pub close : Bool → String → ℕ → LocalMessageBus B → Option (LocalMessageBus B)
  unfolding remove_slot
  close queue channel index bus =
      let lists = sub_lists queue bus in
      elim (lookup channel lists) [
        | none ↦ none
        | some l ↦ elim (get_or l.subs index none) [
          | none ↦ none
          | some s ↦
              let l' = remove_slot index l in
              some (
                with_sub_lists queue
                  (if l'.sub_count == 0 then delete channel lists else insert channel l' lists) bus)
        ]
      ]

  -- `if subs != nil { subs.dispatch(b) }`. `none` blocks.
  unfoldable pub dispatch_at :
      (ℕ → Bool)
      → ℕ
      → String
      → B
      → List (String × LocalSubList B)
      → Option (List (String × LocalSubList B))
  unfolding dispatch
  dispatch_at pick fuel channel b lists = elim (lookup channel lists) [
    | none ↦ some lists
    | some l ↦ elim (dispatch pick fuel b l) [
      | none ↦ none
      | some l' ↦ some (insert channel l' lists)
    ]
  ]

  -- `Publish` of what the serialization of the message gives, with no call between lookup and dispatch.
  unfoldable pub publish :
      {E : Type 0}
      → (ℕ → Bool)
      → ℕ
      → String
      → Result E B
      → LocalMessageBus B
      → Option (Result E (LocalMessageBus B))
  unfolding dispatch_at
  publish pick fuel channel (err e) bus = some (err e)
  publish pick fuel channel (ok b) bus = elim (dispatch_at pick fuel channel b bus.subs) [
    | none ↦ none
    | some subs ↦ elim (dispatch_at pick fuel channel b bus.queues) [
      | none ↦ none
      | some queues ↦ some (ok (record bus { subs = subs; queues = queues }))
    ]
  ]
