-- ===== src/Handlers/Request.antt =====
-- pkg/server/rpc.go: `handleRequest` as a whole, and the test of `run` before it; the handler with its
-- interceptor. The service, the affinity function and the bus are given by what they answer.
use livekit_psrpc.Prelude.{
  ℕ, String, Bool, true, false, List, [], Option, none, some, ok, err, if◌then◌else◌, ltb,
  string_equality,
}
use livekit_psrpc.Errors.Codes
use livekit_psrpc.Errors.Value.{GoError, Status, psrpc}
use livekit_psrpc.Exchange.Wire.{Request, Response, Codec}
use livekit_psrpc.Exchange.Respond.{Returned, send_response}
use livekit_psrpc.Selection.Affinity.{Float32}
use livekit_psrpc.Selection.Claiming.{ClaimRequest, ClaimRun, claim_request}

-- An interceptor is given the rest of the chain, which is the service.
abbrev pub Interceptor : Type 0 → Type 0 → Type 0 → Type 0 → Type 0
Interceptor C Q M D = C → Q → (C → Q → Returned M D) → Returned M D

-- The handler that newRPCHandler makes: an interceptor's own context and request do not reach the
-- service, which gets those of the call.
unfoldable pub handler_of :
    {C Q M D : Type 0}
    → Option (Interceptor C Q M D)
    → (C → Q → Returned M D)
    → C
    → Q
    → Returned M D
handler_of none svc_impl ctx req = svc_impl ctx req
handler_of (some f) svc_impl ctx req = f ctx req (λ ctx' req'. svc_impl ctx req)

-- What the bus, the affinity function and the client answer during a request.
pub record Answers (Q D : Type 0) : Type 0 where
  pub affinity : Q → Option Float32
  pub publish_claim : Option (GoError D)
  pub answer : Option String
  pub publish_response : Option (GoError D)

-- What a request has made the server do: the message that its handler ran on, what it published, its
-- claim channels and what handleRequest returned.
pub record Served (Q B D C : Type 0) : Type 0 where
  pub handled : Option Q
  pub claimed : Option ClaimRequest
  pub published : Option (Response B D)
  pub claims : List (String × C)
  pub result : Option (GoError D)

module _ {Q M B D C : Type 0} (requests : Codec Q B D) (responses : Codec M B D)
    (status_from_error : GoError D → Option (Status D)) (handler : Q → Returned M D) where
  -- The call of the handler, and the response.
  unfoldable pub call_handler :
      String
      → ℕ
      → Request B
      → Answers Q D
      → Option ClaimRequest
      → List (String × C)
      → Q
      → Served Q B D C
  unfolding send_response
  call_handler server_id now ir out claimed claims req = record {
    handled = some req;
    claimed = claimed;
    published =
        some (send_response responses status_from_error ir.request_id server_id now (handler req));
    claims = claims;
    result = out.publish_response;
  }

  unfoldable pub after_claim :
      String → ℕ → Request B → Answers Q D → Q → ClaimRun (GoError D) C → Served Q B D C
  unfolding call_handler
  after_claim server_id now ir out req run = elim run.result [
    | err e ↦ record {
      handled = none;
      claimed = run.published;
      published = none;
      claims = run.claims;
      result = some e;
    }
    | ok false ↦ record {
      handled = none;
      claimed = run.published;
      published = none;
      claims = run.claims;
      result = none;
    }
    | ok true ↦ call_handler server_id now ir out run.published run.claims req
  ]

  unfoldable pub handle_request :
      Bool → String → ℕ → Request B → C → Answers Q D → List (String × C) → Served Q B D C
  unfolding send_response claim_request after_claim call_handler
  handle_request require_claim server_id now ir chan out claims =
      elim (requests.deserialize_payload ir.raw_request) [
        | err e ↦
            let malformed = psrpc e Codes.malformed_request [] in
            record {
              handled = none;
              claimed = none;
              published = some (
                  send_response responses status_from_error ir.request_id server_id now
                    (record { response = none; error = some malformed }));
              claims = claims;
              result = some malformed;
            }
        | ok req ↦
            if require_claim
            then after_claim server_id now ir out req (
                claim_request server_id ir.request_id (out.affinity req) chan out.publish_claim
                  out.answer claims)
            else call_handler server_id now ir out none claims req
      ]

  -- `run` handles a request that has not expired; `none` drops it. Times are int64 nanoseconds.
  unfoldable pub on_request :
      Bool → String → ℕ → Request B → C → Answers Q D → List (String × C) → Option (Served Q B D C)
  unfolding handle_request
  on_request require_claim server_id now ir chan out claims =
      if ltb now ir.expiry
      then some (handle_request require_claim server_id now ir chan out claims)
      else none
