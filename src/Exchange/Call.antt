-- ===== src/Exchange/Call.antt =====
-- pkg/client/rpc.go: `newRPC`, the client's side of a request.
use livekit_psrpc.Prelude.{
  ℕ, ◌+◌, ◌%◌, ◌^◌, String, Bool, false, not, List, [], Option, none, some, Result, ok, err,
  if◌then◌else◌, ◌==◌, string_equality, insert, delete,
}
use livekit_psrpc.Errors.Codes.{ErrorCode}
use livekit_psrpc.Errors.Codes
use livekit_psrpc.Errors.Value.{GoError, psrpc, new_errorf, new_error_from_response}
use livekit_psrpc.Selection.Loop.{SelectionOpts, Event, Texts, select_server}
use livekit_psrpc.Exchange.Wire.{Request, Response, ClaimResponse, Codec}

-- Why a context is done.
pub data ContextErr : Type 0 where
  canceled : ContextErr
  deadline_exceeded : ContextErr

-- What the last `select` takes.
pub data Answer (B D : Type 0) : Type 0 where
  answered : Response B D → Answer B D
  ended : ContextErr → Answer B D

-- The two maps of an RPCClient that a request uses.
pub record Channels (C R : Type 0) : Type 0 where
  pub claim_requests : List (String × C)
  pub response_channels : List (String × R)

-- The answers that a call gets from outside: of the two publications, of the claims and responses that
-- come while a server is selected, and at the end.
pub record Outside (B D : Type 0) : Type 0 where
  pub publish_request : Option (GoError D)
  pub events : List Event
  pub publish_claim : Option (GoError D)
  pub answer : Answer B D

-- What a call publishes, the maps while it waits and behind it, and its result: `none` still waits.
pub record Called (M B D C R : Type 0) : Type 0 where
  pub request : Option (Request B)
  pub claim : Option ClaimResponse
  pub waiting : Channels C R
  pub channels : Channels C R
  pub result : Option (Result (GoError D) M)

module _ {D : Type 0} where
  unfoldable pub err_request_canceled : GoError D
  unfolding new_errorf
  err_request_canceled = new_errorf Codes.canceled "request canceled"

  unfoldable pub err_request_timed_out : GoError D
  unfolding new_errorf
  err_request_timed_out = new_errorf Codes.deadline_exceeded "request timed out"

  unfoldable pub context_error : ContextErr → GoError D
  unfolding err_request_canceled err_request_timed_out
  context_error canceled = err_request_canceled
  context_error deadline_exceeded = err_request_timed_out

module _ {C R : Type 0} where
  abbrev pub register : Bool → String → C → R → Channels C R → Channels C R
  register require_claim id claim_chan res_chan c = record {
    claim_requests =
        if require_claim then insert id claim_chan c.claim_requests else c.claim_requests;
    response_channels = insert id res_chan c.response_channels;
  }

  abbrev pub unregister : Bool → String → Channels C R → Channels C R
  unregister require_claim id c = record {
    claim_requests = if require_claim then delete id c.claim_requests else c.claim_requests;
    response_channels = delete id c.response_channels;
  }

module _ {M B D : Type 0} (codec : Codec M B D) where
  unfoldable pub receive : Response B D → Result (GoError D) M
  unfolding new_error_from_response
  receive res =
      if not (res.error == "")
      then (let e = new_error_from_response res.code res.error res.error_details in
          err (psrpc e.error e.code e.details))
      else elim (codec.deserialize_payload res.raw_response) [
        | ok m ↦ ok m
        | err e ↦ err (psrpc e Codes.malformed_response [])
      ]

  unfoldable pub await : Answer B D → Result (GoError D) M
  unfolding receive context_error
  await (answered res) = receive res
  await (ended e) = err (context_error e)

  -- A call's part: the claim that it publishes, and its result.
  abbrev pub Part : Type 0
  Part = Option ClaimResponse × Option (Result (GoError D) M)

  abbrev internal : GoError D → Option (Result (GoError D) M)
  internal e = some (err (psrpc e Codes.internal []))

  -- The server is selected, and told so to all of them.
  unfoldable pub choose : Texts → SelectionOpts D → String → Outside B D → Part
  unfolding select_server await
  choose texts opts request_id out = elim (select_server texts opts out.events) [
    | none ↦ (none, none)
    | some (err e) ↦ (none, some (err e))
    | some (ok id) ↦ (
      some (record { request_id = request_id; server_id = id }),
      elim out.publish_claim [ some e ↦ internal e | none ↦ some (await out.answer) ],
    )
  ]

  unfoldable pub proceed : Texts → SelectionOpts D → Bool → String → Outside B D → Part
  unfolding choose await
  proceed texts opts require_claim request_id out = elim out.publish_request [
    | some e ↦ (none, internal e)
    | none ↦
        if require_claim then choose texts opts request_id out else (none, some (await out.answer))
  ]

  module _ {C R : Type 0} where
    -- The maps keep the request's channels until the call returns.
    abbrev pub behind : Part → Channels C R → Channels C R → Channels C R
    behind (claim, none) waiting later = waiting
    behind (claim, some r) waiting later = later

    -- A call whose request is encoded. Times are the bit patterns of int64s in nanoseconds.
    unfoldable pub send :
        Texts
        → SelectionOpts D
        → Bool
        → String
        → String
        → ℕ
        → ℕ
        → C
        → R
        → B
        → Outside B D
        → Channels C R
        → Called M B D C R
    unfolding proceed
    send texts opts require_claim client_id request_id now timeout claim_chan res_chan b out
          channels =
        let waiting = register require_claim request_id claim_chan res_chan channels in
        let part = proceed texts opts require_claim request_id out in
        record {
          request = some (record {
            request_id = request_id;
            client_id = client_id;
            sent_at = now;
            expiry = (now + timeout) % 2 ^ 64;
            multi = false;
            raw_request = b;
          });
          claim = part.0;
          waiting = waiting;
          channels = behind part waiting (unregister require_claim request_id waiting);
          result = part.1;
        }

    -- `encoded` is what `SerializePayload` answers for the request.
    unfoldable pub new_rpc :
        Texts
        → SelectionOpts D
        → Bool
        → String
        → String
        → ℕ
        → ℕ
        → C
        → R
        → Result (GoError D) B
        → Outside B D
        → Channels C R
        → Called M B D C R
    unfolding send
    new_rpc texts opts require_claim client_id request_id now timeout claim_chan res_chan encoded
          out channels =
        elim encoded [
          | err e ↦ record {
            request = none;
            claim = none;
            waiting = channels;
            channels = channels;
            result = some (err (psrpc e Codes.malformed_request []));
          }
          | ok b ↦
              send texts opts require_claim client_id request_id now timeout claim_chan res_chan b
                out channels
        ]
