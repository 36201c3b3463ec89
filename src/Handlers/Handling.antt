-- ===== src/Handlers/Handling.antt =====
-- pkg/server/rpc.go: what becomes of a request.
use livekit_psrpc.Prelude.{
  subst, not, ◌||◌, ◌≡◌, ◌⊎◌, refl, sym, ap, ℕ, ◌<◌, ◌≤◌, String, Bool, true, false, not, ◌||◌,
  List, [], Option, none, some, Result, ok, err, Bool-cases, Result-cases, inl, inr, lookup,
  string_equality, le→not-ltb, lt→ltb,
}
use livekit_psrpc.Errors.Codes
use livekit_psrpc.Errors.Value.{GoError, Status, psrpc}
use livekit_psrpc.Exchange.Wire.{Request, Codec}
use livekit_psrpc.Exchange.Respond.{Returned, send_response}
use livekit_psrpc.Selection.Claiming.{ClaimRun, claim_request, claim_request-claims, goes_on}
use livekit_psrpc.Handlers.Request.{
  Answers, Served, call_handler, after_claim, handle_request, on_request,
}

module _ {Q M B D C : Type 0} (requests : Codec Q B D) (responses : Codec M B D)
    (status_from_error : GoError D → Option (Status D)) (handler : Q → Returned M D) where
  -- The claim of a request that is decoded, and whether its handler is to run.
  abbrev pub claim_of :
      String → Request B → C → Answers Q D → List (String × C) → Q → ClaimRun (GoError D) C
  claim_of server_id ir chan out claims req =
      claim_request server_id ir.request_id (out.affinity req) chan out.publish_claim out.answer
        claims

  abbrev pub runs : Bool → ClaimRun (GoError D) C → Bool
  runs require_claim run = not require_claim || goes_on run.result

  -- What becomes of a request.
  abbrev pub Malformed : String → ℕ → Request B → Served Q B D C → Type 0
  Malformed server_id now ir s =
      (e : GoError D) × (requests.deserialize_payload ir.raw_request ≡ err e)
      × (s.handled ≡ none)
      × (s.published
          ≡ some (
              send_response responses status_from_error ir.request_id server_id now
                (record { response = none; error = some (psrpc e Codes.malformed_request []) })))

  abbrev pub Declined :
      Bool → String → Request B → C → Answers Q D → List (String × C) → Served Q B D C → Type 0
  Declined require_claim server_id ir chan out claims s =
      (req : Q) × (requests.deserialize_payload ir.raw_request ≡ ok req)
      × (runs require_claim (claim_of server_id ir chan out claims req) ≡ false)
      × (s.handled ≡ none)
      × (s.published ≡ none)

  abbrev pub Answered :
      Bool → String → ℕ → Request B → C → Answers Q D → List (String × C) → Served Q B D C → Type 0
  Answered require_claim server_id now ir chan out claims s =
      (req : Q) × (requests.deserialize_payload ir.raw_request ≡ ok req)
      × (runs require_claim (claim_of server_id ir chan out claims req) ≡ true)
      × (s.handled ≡ some req)
      × (s.published
          ≡ some
              (send_response responses status_from_error ir.request_id server_id now (handler req)))

  abbrev pub Ends :
      Bool → String → ℕ → Request B → C → Answers Q D → List (String × C) → Served Q B D C → Type 0
  Ends require_claim server_id now ir chan out claims s =
      ((other : String) → lookup other s.claims ≡ lookup other claims)
      × (Malformed server_id now ir s
          ⊎ (Declined require_claim server_id ir chan out claims s
              ⊎ Answered require_claim server_id now ir chan out claims s))

  abbrev call_after :
      String → ℕ → Request B → Answers Q D → Q → ClaimRun (GoError D) C → Served Q B D C
  call_after = after_claim requests responses status_from_error handler

  kept :
      (server_id : String) (ir : Request B) (chan : C) (out : Answers Q D)
      (claims : List (String × C)) (req : Q)
      → lookup ir.request_id claims ≡ none
      → (other : String)
      → lookup other (claim_of server_id ir chan out claims req).claims ≡ lookup other claims
  kept server_id ir chan out claims req fresh other =
      claim_request-claims server_id ir.request_id (out.affinity req) chan out.publish_claim
        out.answer claims fresh other

  abbrev handle :
      Bool → String → ℕ → Request B → C → Answers Q D → List (String × C) → Served Q B D C
  handle = handle_request requests responses status_from_error handler

  after_claim-Ends :
      (server_id : String) (now : ℕ) (ir : Request B) (chan : C) (out : Answers Q D)
      (claims : List (String × C)) (req : Q) (r : Result (GoError D) Bool)
      → lookup ir.request_id claims ≡ none
      → requests.deserialize_payload ir.raw_request ≡ ok req
      → (claim_of server_id ir chan out claims req).result ≡ r
      → Ends true server_id now ir chan out claims
          (call_after server_id now ir out req (claim_of server_id ir chan out claims req))
  unfolding after_claim call_handler
  after_claim-Ends server_id now ir chan out claims req (err e) fresh d h =
      let run = claim_of server_id ir chan out claims req in
      let y : call_after server_id now ir out req run ≡ record {
        handled = none;
        claimed = run.published;
        published = none;
        claims = run.claims;
        result = some e;
      } =
        simp (h, after_claim) refl in
      subst (Ends true server_id now ir chan out claims) (sym y)
        (kept server_id ir chan out claims req fresh, inr (inl (req, d, ap goes_on h, refl, refl)))
  after_claim-Ends server_id now ir chan out claims req (ok false) fresh d h =
      let run = claim_of server_id ir chan out claims req in
      let y : call_after server_id now ir out req run ≡ record {
        handled = none;
        claimed = run.published;
        published = none;
        claims = run.claims;
        result = none;
      } =
        simp (h, after_claim) refl in
      subst (Ends true server_id now ir chan out claims) (sym y)
        (kept server_id ir chan out claims req fresh, inr (inl (req, d, ap goes_on h, refl, refl)))
  after_claim-Ends server_id now ir chan out claims req (ok true) fresh d h =
      let run = claim_of server_id ir chan out claims req in
      let y : call_after server_id now ir out req run
          ≡ call_handler requests responses status_from_error handler server_id now ir out
              run.published run.claims req =
        simp (h, after_claim) refl in
      subst (Ends true server_id now ir chan out claims) (sym y)
        (kept server_id ir chan out claims req fresh, inr (inr (req, d, ap goes_on h, refl, refl)))

  -- A request, for which no other call of claimRequest waits, leaves the claim channels as they were. If
  -- it cannot be decoded, a MalformedRequest error is published; if a claim is required and not won,
  -- nothing is published; otherwise the handler runs on the message, and its result is published.
  pub handle_request_lem :
      (require_claim : Bool) (server_id : String) (now : ℕ) (ir : Request B) (chan : C)
      (out : Answers Q D) (claims : List (String × C))
      → lookup ir.request_id claims ≡ none
      → Ends require_claim server_id now ir chan out claims
          (handle require_claim server_id now ir chan out claims)
  unfolding handle_request call_handler
  handle_request_lem require_claim server_id now ir chan out claims fresh =
      elim (Result-cases (requests.deserialize_payload ir.raw_request)) [
        | inr (e, d) ↦
            let malformed = psrpc e Codes.malformed_request [] in
            let reply =
              send_response responses status_from_error ir.request_id server_id now
                (record { response = none; error = some malformed }) in
            let y : handle require_claim server_id now ir chan out claims ≡ record {
              handled = none;
              claimed = none;
              published = some reply;
              claims = claims;
              result = some malformed;
            } =
              simp (d, handle_request) refl in
            subst (Ends require_claim server_id now ir chan out claims) (sym y)
              ((λ o. refl), inl (e, d, refl, refl))
        | inl (req, d) ↦ elim (Bool-cases require_claim) [
          | inl claims_it ↦
              let y : handle require_claim server_id now ir chan out claims
                  ≡ call_after server_id now ir out req
                      (claim_of server_id ir chan out claims req) =
                simp (d, claims_it, handle_request) refl in
              subst (Ends require_claim server_id now ir chan out claims) (sym y) (
                subst
                  (λ b. Ends b server_id now ir chan out claims (
                    call_after server_id now ir out req
                      (claim_of server_id ir chan out claims req)))
                  (sym claims_it)
                  (after_claim-Ends server_id now ir chan out claims req _ fresh d refl))
          | inr free ↦
              let y : handle require_claim server_id now ir chan out claims
                  ≡ call_handler requests responses status_from_error handler server_id now ir out
                      none claims req =
                simp (d, free, handle_request) refl in
              subst (Ends require_claim server_id now ir chan out claims) (sym y)
                ((λ o. refl), inr (inr (req, d, rw free refl, refl, refl)))
        ]
      ]

  -- A request that has expired is dropped, and any other is handled.
  pub on_request_lem :
      (require_claim : Bool) (server_id : String) (now : ℕ) (ir : Request B) (chan : C)
      (out : Answers Q D) (claims : List (String × C))
      → ((ir.expiry ≤ now)
          → on_request requests responses status_from_error handler require_claim server_id now ir
              chan out claims
            ≡ none)
        × ((now < ir.expiry)
            → on_request requests responses status_from_error handler require_claim server_id now ir
                chan out claims
              ≡ some (handle require_claim server_id now ir chan out claims))
  unfolding on_request
  on_request_lem require_claim server_id now ir chan out claims = (
    (λ late. rw (le→not-ltb now ir.expiry late) refl),
    (λ fresh. rw (lt→ltb now ir.expiry fresh) refl),
  )
