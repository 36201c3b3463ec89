-- ===== src/LocalBus/Subscription.antt =====
-- internal/bus/bus_local.go: `localSubscription`. Its message channel is the list of what has been
-- written and not yet read, with a capacity of at least one.
use livekit_psrpc.Prelude.{
  ℕ, Bool, false, not, ◌&&◌, ◌||◌, List, [], ◌∷◌, ◌++◌, Option, none, some, ltb, if◌then◌else◌,
  length,
}

pub record LocalSubscription (B : Type 0) : Type 0 where
  pub capacity : ℕ
  pub messages : List B
  pub canceled : Bool

module _ {B : Type 0} where
  unfoldable pub new_subscription : ℕ → LocalSubscription B
  new_subscription size = record { capacity = size; messages = []; canceled = false }

  -- Whether the message goes into the channel: there is room, and if the context is done as well,
  -- `select` picks this case.
  abbrev pub accepts : Bool → LocalSubscription B → Bool
  accepts pick s = ltb (length s.messages) s.capacity && (not s.canceled || pick)

  -- `write`: `none` is a call that blocks, until a message is read or the context is done.
  unfoldable pub write : Bool → B → LocalSubscription B → Option (LocalSubscription B)
  write pick b s =
      if accepts pick s
      then some (record s { messages = s.messages ++ b ∷ [] })
      else (if s.canceled then some s else none)

  -- `read`: `none` is a call that waits for a message.
  unfoldable pub read : LocalSubscription B → Option (B × LocalSubscription B)
  read s = elim s.messages [ [] ↦ none | b ∷ rest ↦ some (b, record s { messages = rest }) ]
