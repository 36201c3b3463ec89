-- ===== src/Client/Creation.antt =====
-- pkg/client/client.go: `NewRPCClient` up to its goroutine, with the subscriptions that are open on the bus.
use livekit_psrpc.Prelude.{
  refl, String, Bool, false, List, [], ◌∷◌, ◌++◌, Option, none, some, ok, err, if◌then◌else◌,
  Bool-cases, Option-cases, inl, inr,
}
use livekit_psrpc.Handlers.Creation.{Sub, subscribe, close_last, AllOrNothing}

-- The channels of a client, and whether its options enable streams.
pub record ClientChannels : Type 0 where
  pub response_channel : String
  pub claim_request_channel : String
  pub stream_channel : String
  pub enable_streams : Bool

-- `c.ID`, which the option ClientID replaces.
abbrev pub client_id : String → String → Bool → String
client_id id option given = if given then option else id

module _ {E : Type 0} (refuses : Sub → Option E) where
  unfoldable pub new_rpc_client : ClientChannels → List Sub → List Sub × Option E
  new_rpc_client c opened = elim (subscribe refuses (c.response_channel, false) opened) [
    | err e ↦ (opened, some e)
    | ok one ↦ elim (subscribe refuses (c.claim_request_channel, false) one) [
      | err e ↦ (close_last one, some e)
      | ok two ↦
          if c.enable_streams
          then elim (subscribe refuses (c.stream_channel, false) two) [
            | err e ↦ (close_last (close_last two), some e)
            | ok three ↦ (three, none)
          ]
          else (two, none)
    ]
  ]

  abbrev pub client_subs : ClientChannels → List Sub
  client_subs c =
      (if c.enable_streams then (c.stream_channel, false) ∷ [] else [])
      ++ (c.claim_request_channel, false) ∷ (c.response_channel, false) ∷ []

  -- A client is created with all its subscriptions, or without an open one if the bus refuses any.
  pub new_rpc_client_lem :
      (c : ClientChannels) (opened : List Sub)
      → AllOrNothing refuses (client_subs c) opened (new_rpc_client c opened)
  unfolding new_rpc_client
  new_rpc_client_lem c opened = elim (Option-cases (refuses (c.response_channel, false))) [
    | inr (e, refused) ↦ rw (new_rpc_client, refused) refl
    | inl fine ↦ elim (Option-cases (refuses (c.claim_request_channel, false))) [
      | inr (e, refused) ↦ rw (new_rpc_client, fine, refused) refl
      | inl fine' ↦ elim (Bool-cases c.enable_streams) [
        | inr off ↦ rw (new_rpc_client, fine, fine', off) refl
        | inl on ↦ elim (Option-cases (refuses (c.stream_channel, false))) [
          | inr (e, refused) ↦ rw (new_rpc_client, fine, fine', on, refused) refl
          | inl fine'' ↦ rw (new_rpc_client, fine, fine', on, fine'') refl
        ]
      ]
    ]
  ]
