-- ===== src/Opening/OpenStream.antt =====
-- pkg/client/stream.go: `OpenStream`. The bus, the servers and the context are given by what they answer,
-- and what else closes the stream, as the goroutine runClientStream does, by what it has done.
use livekit_psrpc.Prelude.{
  String, Bool, List, [], ◌∷◌, Option, none, some, ok, err, string_equality, if◌then◌else◌, insert,
  delete,
}
use livekit_psrpc.Errors.Codes
use livekit_psrpc.Errors.Value.{GoError, psrpc}
use livekit_psrpc.Exchange.Wire.{ClaimResponse}
use livekit_psrpc.Exchange.Call.{ContextErr, context_error}
use livekit_psrpc.Opening.Elsewhere.{Elsewhere, closed_by, is_some, streams_left}
use livekit_psrpc.Selection.Loop.{Claim, Event, done, claim, SelectionOpts, Texts, select_server}

-- The two maps of an RPCClient that opening a stream uses.
pub record StreamMaps (C S : Type 0) : Type 0 where
  pub claim_requests : List (String × C)
  pub stream_channels : List (String × S)

-- The claims that come while a server is selected, with `none` for the end of the context; and the end
-- of the wait, which `none` is when the stream is acknowledged.
pub record OpenOutside (D : Type 0) : Type 0 where
  pub publish_request : Option (GoError D)
  pub claims : List (Option Claim)
  pub publish_claim : Option (GoError D)
  pub ended : Option ContextErr
  pub elsewhere : Elsewhere (GoError D)

-- The cause with which OpenStream closes the stream, if it does, and the error that is returned: `none` is the stream.
pub record OpenResult (D : Type 0) : Type 0 where
  pub closed_with : Option (GoError D)
  pub error : Option (GoError D)

-- What an opening publishes, its result, which `none` is while it waits, the cause with which the stream
-- is closed then, if it is, and the maps.
pub record OpenedStream (D C S : Type 0) : Type 0 where
  pub claimed : Option ClaimResponse
  pub result : Option (OpenResult D)
  pub cause : Option (GoError D)
  pub maps : StreamMaps C S

-- `selectServer` has no channel of responses here.
abbrev pub as_events : List (Option Claim) → List Event
as_events [] = []
as_events (none ∷ es) = done ∷ as_events es
as_events (some c ∷ es) = claim c ∷ as_events es

module _ {D : Type 0} where
  abbrev pub failed : GoError D → GoError D → OpenResult D
  failed cause e = record { closed_with = some cause; error = some e }

  unfoldable pub await_ack : Option ContextErr → OpenResult D
  unfolding context_error
  await_ack none = record { closed_with = none; error = none }
  await_ack (some c) = failed (context_error c) (context_error c)

  unfoldable pub open_part :
      Texts
      → SelectionOpts D
      → Bool
      → String
      → OpenOutside D
      → Option ClaimResponse × Option (OpenResult D)
  unfolding select_server await_ack
  open_part texts opts require_claim request_id out = elim out.publish_request [
    | some e ↦ (none, some (failed e (psrpc e Codes.internal [])))
    | none ↦
        if require_claim
        then elim (select_server texts opts (as_events out.claims)) [
          | none ↦ (none, none)
          | some (err e) ↦ (none, some (failed e e))
          | some (ok id) ↦ (
            some (record { request_id = request_id; server_id = id }),
            elim out.publish_claim [
              | some e ↦ some (failed e (psrpc e Codes.internal []))
              | none ↦ some (await_ack out.ended)
            ],
          )
        ]
        else (none, some (await_ack out.ended))
  ]

  -- The cause of its own Close, if there is one.
  abbrev pub own_cause : Option (OpenResult D) → Option (GoError D)
  own_cause none = none
  own_cause (some r) = r.closed_with

  -- The claim channels while it waits, and behind the deferred function.
  abbrev pub claims_behind :
      {C : Type 0} → Option (OpenResult D) → String → C → List (String × C) → List (String × C)
  claims_behind none id chan m = insert id chan m
  claims_behind (some r) id chan m = delete id (insert id chan m)

  module _ {C S : Type 0} where
    unfoldable pub open_stream :
        Texts
        → SelectionOpts D
        → Bool
        → String
        → String
        → C
        → S
        → OpenOutside D
        → StreamMaps C S
        → OpenedStream D C S
    unfolding open_part
    open_stream texts opts require_claim request_id stream_id claim_chan recv_chan out m =
        let (claimed, result) = open_part texts opts require_claim request_id out in
        let own = own_cause result in
        record {
          claimed = claimed;
          result = result;
          cause = closed_by out.elsewhere own;
          maps = record {
            claim_requests = claims_behind result request_id claim_chan m.claim_requests;
            stream_channels =
                streams_left out.elsewhere (is_some own) stream_id recv_chan m.stream_channels;
          };
        }
