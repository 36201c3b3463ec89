-- ===== src/Opening/Served.antt =====
-- pkg/server/stream.go: what becomes of an open request.
use livekit_psrpc.Prelude.{
  ◌≡◌, ◌⊎◌, refl, sym, ◌∙◌, ap, subst, String, Bool, true, false, not, ◌||◌, List, none, some,
  string_equality, lookup, inl, inr, Bool-cases, Option-cases,
}
use livekit_psrpc.Errors.Value.{GoError}
use livekit_psrpc.Selection.Claiming.{ClaimRun, claim_request, claim_request-claims, goes_on}
use livekit_psrpc.Opening.Elsewhere.{closed_by, Left, streams_left-Left}
use livekit_psrpc.Opening.OpenRequest.{
  OpenRequest, OpenAnswers, HandlerMaps, OpenServed, serve_stream, claim_error, handle_open_request,
}

module _ {D C S : Type 0} (is : OpenRequest) (ss : S) (m : HandlerMaps C S) where
  abbrev pub Served : OpenAnswers D → OpenServed D C S → Type 0
  Served out o =
      ((e : GoError D) × (out.ack ≡ some e)
        × (o.handled ≡ false)
        × (o.closed_with ≡ closed_by out.elsewhere (some (some e)))
        × (o.result ≡ some e)
        × Left is.stream_id ss m.streams out.elsewhere true o.maps.streams)
      ⊎ (((out.ack ≡ none)
            × (out.hijacked ≡ true)
            × (o.handled ≡ true)
            × (o.closed_with ≡ closed_by out.elsewhere none)
            × (o.result ≡ none)
            × Left is.stream_id ss m.streams out.elsewhere false o.maps.streams)
          ⊎ ((out.ack ≡ none)
              × (out.hijacked ≡ false)
              × (o.handled ≡ true)
              × (o.closed_with ≡ closed_by out.elsewhere (some out.handler))
              × (o.result ≡ none)
              × Left is.stream_id ss m.streams out.elsewhere true o.maps.streams))

  serve_stream-Served :
      (out : OpenAnswers D) (claims : List (String × C))
      → lookup is.stream_id m.streams ≡ none
      → Served out (serve_stream is out ss (record m { claims = claims }))
  unfolding serve_stream
  serve_stream-Served out claims fresh =
      let left =
        λ (own : Bool). streams_left-Left is.stream_id ss m.streams out.elsewhere own fresh in
      elim (Option-cases out.ack) [
        | inr (e, a) ↦ inl (e, a, rw a refl, rw a refl, a, rw a (left true))
        | inl a ↦ elim (Bool-cases out.hijacked) [
          | inl h ↦ inr (inl (a, h, rw a refl, rw (a, h) refl, a, rw (a, h) (left false)))
          | inr h ↦ inr (inr (a, h, rw a refl, rw (a, h) refl, a, rw (a, h) (left true)))
        ]
      ]

  -- Not claimed: nothing happened.
  abbrev pub Unclaimed : OpenServed D C S → Type 0
  Unclaimed o =
      (o.handled ≡ false)
      × (o.closed_with ≡ none)
      × ((id : String) → lookup id o.maps.streams ≡ lookup id m.streams)

  abbrev claim_run : String → C → OpenAnswers D → ClaimRun (GoError D) C
  claim_run server_id chan out =
      claim_request server_id is.request_id out.affinity chan out.publish_claim out.answer m.claims

  abbrev pub is_claimed : Bool → String → C → OpenAnswers D → Bool
  is_claimed require_claim server_id chan out =
      not require_claim || goes_on (claim_run server_id chan out).result

  -- What becomes of an open request, by whether it is claimed.
  abbrev pub Outcome : Bool → OpenAnswers D → OpenServed D C S → Type 0
  Outcome true out o = ((id : String) → lookup id o.maps.claims ≡ lookup id m.claims) × Served out o
  Outcome false out o = ((id : String) → lookup id o.maps.claims ≡ lookup id m.claims) × Unclaimed o

  serve_stream-claims :
      (out : OpenAnswers D) (claims : List (String × C))
      → (serve_stream is out ss (record m { claims = claims })).maps.claims ≡ claims
  unfolding serve_stream
  serve_stream-claims out claims = refl

  -- An open request whose ids are new leaves the claim channels as they were. Unless it is claimed,
  -- nothing else happens. If it is, and its ack fails, the stream is closed with that error, which is
  -- returned, and its handler does not run; else the handler runs, and the stream is closed with what it
  -- returns, unless it was hijacked. The cause is another one if the stream was closed elsewhere before.
  -- The stream is in the map then just if it is closed neither here nor elsewhere, or its Close elsewhere
  -- is not over.
  pub handle_open_request_lem :
      (require_claim : Bool) (server_id : String) (chan : C) (out : OpenAnswers D)
      → lookup is.request_id m.claims ≡ none
      → lookup is.stream_id m.streams ≡ none
      → Outcome
          (is_claimed require_claim server_id chan out)
          out
          (handle_open_request require_claim server_id is chan ss out m)
  unfolding handle_open_request
  handle_open_request_lem false server_id chan out no_claim no_stream = (
    (λ id. ap (λ cs. lookup id cs) (serve_stream-claims out m.claims)),
    serve_stream-Served out m.claims no_stream,
  )
  handle_open_request_lem true server_id chan out no_claim no_stream =
      let run = claim_run server_id chan out in
      let kept =
        claim_request-claims server_id is.request_id out.affinity chan out.publish_claim out.answer
          m.claims no_claim in
      elim (Bool-cases (goes_on run.result)) [
        | inl go ↦
            let y : handle_open_request true server_id is chan ss out m
                ≡ serve_stream is out ss (record m { claims = run.claims }) =
              simp (go, handle_open_request) refl in
            subst (λ b. Outcome b out (handle_open_request true server_id is chan ss out m))
              (sym go)
              (subst (Outcome true out) (sym y) (
                (λ id. ap (λ cs. lookup id cs) (serve_stream-claims out run.claims) ∙ kept id),
                serve_stream-Served out run.claims no_stream,
              ))
        | inr no_go ↦
            let y : handle_open_request true server_id is chan ss out m ≡ record {
              handled = false;
              closed_with = none;
              maps = record m { claims = run.claims };
              result = claim_error run.result;
            } =
              simp (no_go, handle_open_request) refl in
            subst (λ b. Outcome b out (handle_open_request true server_id is chan ss out m))
              (sym no_go) (subst (Outcome false out) (sym y) (kept, (refl, refl, λ id. refl)))
      ]
