-- ===== src/Handlers/Creation.antt =====
-- pkg/server/rpc.go and pkg/server/stream.go: `newRPCHandler` and `newStreamRPCHandler`, with the
-- subscriptions that are open on the bus. Which of them the bus refuses is a parameter.
use livekit_psrpc.Prelude.{
  ◌≡◌, refl, String, Bool, false, List, [], ◌∷◌, ◌++◌, Option, none, some, Result, ok, err,
  if◌then◌else◌, Bool-cases, Option-cases, inl, inr,
}

-- A subscription: its channel, and whether it is one of a queue.
abbrev pub Sub : Type 0
Sub = String × Bool

-- The parts of a RequestInfo that its handlers read.
pub record RequestInfo : Type 0 where
  pub rpc_channel : String
  pub claim_response_channel : String
  pub stream_server_channel : String
  pub queue : Bool
  pub require_claim : Bool

module _ {E : Type 0} (refuses : Sub → Option E) where
  -- `bus.Subscribe` and `bus.SubscribeQueue`, and `Close` of the subscription that was opened last.
  abbrev pub subscribe : Sub → List Sub → Result E (List Sub)
  subscribe s opened = elim (refuses s) [ some e ↦ err e | none ↦ ok (s ∷ opened) ]

  -- The second half of both: the subscription to claims. `close` undoes the first subscription.
  unfoldable pub with_claims : RequestInfo → (List Sub → List Sub) → List Sub → List Sub × Option E
  with_claims i close opened =
      if i.require_claim
      then elim (subscribe (i.claim_response_channel, false) opened) [
        | err e ↦ (close opened, some e)
        | ok opened' ↦ (opened', none)
      ]
      else (opened, none)

abbrev pub close_last : List Sub → List Sub
close_last [] = []
close_last (s ∷ opened) = opened

module _ {E : Type 0} (refuses : Sub → Option E) where
  unfoldable pub new_rpc_handler : RequestInfo → List Sub → List Sub × Option E
  unfolding with_claims
  new_rpc_handler i opened = elim (subscribe refuses (i.rpc_channel, i.queue) opened) [
    | err e ↦ (opened, some e)
    | ok opened' ↦ with_claims refuses i close_last opened'
  ]

  unfoldable pub new_stream_rpc_handler : RequestInfo → List Sub → List Sub × Option E
  unfolding with_claims
  new_stream_rpc_handler i opened =
      elim (subscribe refuses (i.stream_server_channel, false) opened) [
        | err e ↦ (opened, some e)
        | ok opened' ↦ with_claims refuses i close_last opened'
      ]

  -- The subscriptions that a handler has.
  abbrev pub claim_subs : RequestInfo → List Sub
  claim_subs i = if i.require_claim then (i.claim_response_channel, false) ∷ [] else []

  -- Either an error and nothing opened, or no error and just the subscriptions opened.
  abbrev pub AllOrNothing : List Sub → List Sub → List Sub × Option E → Type 0
  AllOrNothing subs opened (opened', some e) = opened' ≡ opened
  AllOrNothing subs opened (opened', none) = opened' ≡ subs ++ opened

  with_claims_lem :
      (i : RequestInfo) (s : Sub) (opened : List Sub)
      → AllOrNothing (claim_subs i ++ s ∷ []) opened (with_claims refuses i close_last (s ∷ opened))
  unfolding with_claims
  with_claims_lem i s opened = elim (Bool-cases i.require_claim) [
    | inl claims ↦ elim (Option-cases (refuses (i.claim_response_channel, false))) [
      | inl fine ↦ rw (claims, fine) refl
      | inr (e, refused) ↦ rw (claims, refused) refl
    ]
    | inr free ↦ rw free refl
  ]

  -- A handler is created with both its subscriptions, or without an open one if the bus refuses any.
  pub new_rpc_handler_lem :
      (i : RequestInfo) (opened : List Sub)
      → AllOrNothing
          (claim_subs i ++ (i.rpc_channel, i.queue) ∷ [])
          opened
          (new_rpc_handler i opened)
        × AllOrNothing
            (claim_subs i ++ (i.stream_server_channel, false) ∷ [])
            opened
            (new_stream_rpc_handler i opened)
  unfolding new_rpc_handler new_stream_rpc_handler
  new_rpc_handler_lem i opened = (
    elim (Option-cases (refuses (i.rpc_channel, i.queue))) [
      | inl fine ↦ rw (new_rpc_handler, fine) (with_claims_lem i (i.rpc_channel, i.queue) opened)
      | inr (e, refused) ↦ rw (new_rpc_handler, refused) refl
    ],
    elim (Option-cases (refuses (i.stream_server_channel, false))) [
      | inl fine ↦
          rw (new_stream_rpc_handler, fine)
            (with_claims_lem i (i.stream_server_channel, false) opened)
      | inr (e, refused) ↦ rw (new_stream_rpc_handler, refused) refl
    ],
  )
