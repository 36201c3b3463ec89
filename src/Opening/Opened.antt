-- ===== src/Opening/Opened.antt =====
-- pkg/client/stream.go: what the opening of a stream leaves.
use livekit_psrpc.Prelude.{
  ◌≡◌, ◌⊎◌, refl, sym, subst, String, Bool, true, false, [], Option, none, some, ok, err,
  string_equality, lookup, inl, inr, Bool-cases, Option-cases,
}
use livekit_psrpc.Errors.Codes
use livekit_psrpc.Errors.Value.{GoError, psrpc}
use livekit_psrpc.Exchange.Wire.{ClaimResponse}
use livekit_psrpc.Exchange.Call.{ContextErr, context_error}
use livekit_psrpc.Selection.Loop.{SelectionOpts, Texts, select_server}
use livekit_psrpc.Selection.Claiming.{delete-insert}
use livekit_psrpc.Opening.Elsewhere.{
  Elsewhere, closed_by, is_some, streams_left, Left, streams_left-Left,
}
use livekit_psrpc.Opening.OpenStream.{
  StreamMaps, OpenOutside, OpenResult, as_events, failed, await_ack, open_part, own_cause,
  claims_behind, OpenedStream, open_stream,
}

-- An error is returned just with a stream that was closed.
abbrev pub Closes : {D : Type 0} → OpenResult D → Type 0
Closes {D} r =
    ((r.closed_with ≡ none) × (r.error ≡ none))
    ⊎ ((c : GoError D) × (e : GoError D) × (r.closed_with ≡ some c) × (r.error ≡ some e))

module _ {D : Type 0} where
  await_ack-Closes : (c : Option ContextErr) → Closes {D = D} (await_ack c)
  unfolding await_ack
  await_ack-Closes none = inl (refl, refl)
  await_ack-Closes (some c) = inr (context_error c, context_error c, refl, refl)

  abbrev AllClose : Texts → SelectionOpts D → OpenOutside D → Option (OpenResult D) → Type 0
  AllClose texts opts out none = select_server texts opts (as_events out.claims) ≡ none
  AllClose texts opts out (some r) = Closes r

  -- Behind the publication of the request.
  selected-AllClose :
      (texts : Texts) (opts : SelectionOpts D) (request_id : String) (out : OpenOutside D)
      → out.publish_request ≡ none
      → AllClose texts opts out (open_part texts opts true request_id out).1
  unfolding open_part
  selected-AllClose texts opts request_id out e =
      let part = open_part texts opts true request_id out in
      elim (Option-cases (select_server texts opts (as_events out.claims))) [
        | inl s ↦
            let y : part ≡ (none, none) = simp (e, s, open_part) refl in
            subst (λ p. AllClose texts opts out p.1) (sym y) s
        | inr (err x, s) ↦
            let y : part ≡ (none, some (failed x x)) = simp (e, s, open_part) refl in
            subst (λ p. AllClose texts opts out p.1) (sym y) (inr (x, x, refl, refl))
        | inr (ok id, s) ↦
            let published : ClaimResponse = record { request_id = request_id; server_id = id } in
            elim (Option-cases out.publish_claim) [
              | inl p ↦
                  let y : part ≡ (some published, some (await_ack out.ended)) =
                    simp (e, s, p, open_part) refl in
                  subst (λ q. AllClose texts opts out q.1) (sym y) (await_ack-Closes out.ended)
              | inr (x, p) ↦
                  let y : part ≡ (some published, some (failed x (psrpc x Codes.internal []))) =
                    simp (e, s, p, open_part) refl in
                  subst (λ q. AllClose texts opts out q.1) (sym y)
                    (inr (x, psrpc x Codes.internal [], refl, refl))
            ]
      ]

  open_part-AllClose :
      (texts : Texts) (opts : SelectionOpts D) (require_claim : Bool) (request_id : String)
      (out : OpenOutside D)
      → AllClose texts opts out (open_part texts opts require_claim request_id out).1
  unfolding open_part
  open_part-AllClose texts opts require_claim request_id out =
      elim (Option-cases out.publish_request) [
        | inr (x, e) ↦
            let y : open_part texts opts require_claim request_id out
                ≡ (none, some (failed x (psrpc x Codes.internal []))) =
              simp (e, open_part) refl in
            subst (λ q. AllClose texts opts out q.1) (sym y)
              (inr (x, psrpc x Codes.internal [], refl, refl))
        | inl e ↦ elim (Bool-cases require_claim) [
          | inl c ↦
              subst (λ b. AllClose texts opts out (open_part texts opts b request_id out).1) (sym c)
                (selected-AllClose texts opts request_id out e)
          | inr c ↦
              let y : open_part texts opts require_claim request_id out
                  ≡ (none, some (await_ack out.ended)) =
                simp (e, c, open_part) refl in
              subst (λ q. AllClose texts opts out q.1) (sym y) (await_ack-Closes out.ended)
        ]
      ]

module _ {D C S : Type 0} (request_id stream_id : String) (claim_chan : C) (recv_chan : S)
    (m : StreamMaps C S) where
  -- How an opening ends: with the stream, or with an error, and then it has closed the stream.
  abbrev pub Ended :
      Elsewhere (GoError D) → OpenResult D → Option (GoError D) → StreamMaps C S → Type 0
  Ended elsewhere r cause m' =
      ((id : String) → lookup id m'.claim_requests ≡ lookup id m.claim_requests)
      × (((r.error ≡ none)
            × (cause ≡ closed_by elsewhere none)
            × Left stream_id recv_chan m.stream_channels elsewhere false m'.stream_channels)
          ⊎ ((c : GoError D) × (e : GoError D) × (r.error ≡ some e)
              × (r.closed_with ≡ some c)
              × (cause ≡ closed_by elsewhere (some c))
              × Left stream_id recv_chan m.stream_channels elsewhere true m'.stream_channels))

  abbrev pub Opens : Texts → SelectionOpts D → OpenOutside D → OpenedStream D C S → Type 0
  Opens texts opts out o = elim o.result [
    | none ↦ select_server texts opts (as_events out.claims) ≡ none
    | some r ↦ Ended out.elsewhere r o.cause o.maps
  ]

  -- What is open behind the result r.
  abbrev opened_as :
      OpenOutside D → Option ClaimResponse → Option (OpenResult D) → OpenedStream D C S
  opened_as out claimed r = record {
    claimed = claimed;
    result = r;
    cause = closed_by out.elsewhere (own_cause r);
    maps = record {
      claim_requests = claims_behind r request_id claim_chan m.claim_requests;
      stream_channels =
          streams_left out.elsewhere (is_some (own_cause r)) stream_id recv_chan m.stream_channels;
    };
  }

  opened_as-Opens :
      (texts : Texts) (opts : SelectionOpts D) (out : OpenOutside D)
      (claimed : Option ClaimResponse) (r : Option (OpenResult D))
      → lookup request_id m.claim_requests ≡ none
      → lookup stream_id m.stream_channels ≡ none
      → AllClose texts opts out r
      → Opens texts opts out (opened_as out claimed r)
  opened_as-Opens texts opts out claimed none no_claim no_stream h = h
  opened_as-Opens texts opts out claimed (some r) no_claim no_stream h =
      let left = λ (own : Bool).
        streams_left-Left stream_id recv_chan m.stream_channels out.elsewhere own no_stream in
      (
        delete-insert request_id claim_chan m.claim_requests no_claim,
        elim h [
          | inl (c, e) ↦ inl (e, rw c refl, rw c (left false))
          | inr (x, y, c, e) ↦ inr (x, y, e, c, rw c refl, rw c (left true))
        ],
      )

  -- Opening a stream with new ids goes on only while no server is selected. Else the claim channels are as
  -- they were, and it returns the stream, or an error, and then it closes the stream. The cause of the
  -- close is another one if the stream was closed elsewhere before. The stream is in the client's map then
  -- just if it is closed neither here nor elsewhere, or its Close elsewhere is not over.
  pub open_stream_lem :
      (texts : Texts) (opts : SelectionOpts D) (require_claim : Bool) (out : OpenOutside D)
      → lookup request_id m.claim_requests ≡ none
      → lookup stream_id m.stream_channels ≡ none
      → Opens texts opts out
          (open_stream texts opts require_claim request_id stream_id claim_chan recv_chan out m)
  unfolding open_stream
  open_stream_lem texts opts require_claim out no_claim no_stream =
      let part = open_part texts opts require_claim request_id out in
      opened_as-Opens texts opts out part.0 part.1 no_claim no_stream
        (open_part-AllClose texts opts require_claim request_id out)
