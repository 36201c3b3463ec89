-- ===== src/Exchange/Cleanup.antt =====
-- pkg/client/rpc.go: a whole call of `newRPC`, and what it leaves behind.
use livekit_psrpc.Prelude.{
  ℕ, ◌≡◌, inl, inr, refl, sym, ap, ◌∙◌, String, Bool, true, false, Option, none, some, Result, ok,
  err, Result-cases, subst, string_equality, lookup,
}
use livekit_psrpc.Errors.Value.{GoError, Status}
use livekit_psrpc.Selection.Loop.{SelectionOpts, Texts, select_server}
use livekit_psrpc.Selection.Claiming.{delete-insert}
use livekit_psrpc.Exchange.Wire.{Codec}
use livekit_psrpc.Exchange.Respond.{send_response}
use livekit_psrpc.Exchange.Call.{
  answered, Channels, Outside, Called, Part, await, choose, proceed, register, unregister, behind,
  send, new_rpc,
}
use livekit_psrpc.Exchange.Travel.{response_travels}

module _ {C R : Type 0} where
  -- The two maps answer as two others do.
  abbrev pub AreAlike : Channels C R → Channels C R → Type 0
  AreAlike c d =
      (id : String)
      → (lookup id c.claim_requests ≡ lookup id d.claim_requests)
        × (lookup id c.response_channels ≡ lookup id d.response_channels)

  register-undone :
      (require_claim : Bool) (id : String) (claim_chan : C) (res_chan : R) (c : Channels C R)
      → lookup id c.claim_requests ≡ none
      → lookup id c.response_channels ≡ none
      → AreAlike (unregister require_claim id (register require_claim id claim_chan res_chan c)) c
  register-undone true id claim_chan res_chan c h k other = (
    delete-insert id claim_chan c.claim_requests h other,
    delete-insert id res_chan c.response_channels k other,
  )
  register-undone false id claim_chan res_chan c h k other =
      (refl, delete-insert id res_chan c.response_channels k other)

module _ {M B D C R : Type 0} (codec : Codec M B D) (texts : Texts) (opts : SelectionOpts D)
    (require_claim : Bool) (client_id request_id : String) (now timeout : ℕ) (claim_chan : C)
    (res_chan : R) (encoded : Result (GoError D) B) (out : Outside B D)
    (channels : Channels C R) where
  abbrev pub call : Called M B D C R
  call =
      new_rpc codec texts opts require_claim client_id request_id now timeout claim_chan res_chan
        encoded out channels

  returned_behind :
      (p : Part codec) (r : Result (GoError D) M) (w l : Channels C R)
      → p.1 ≡ some r
      → behind codec p w l ≡ l
  returned_behind (claim, none) r w l e = cc
  returned_behind (claim, some s) r w l e = refl

  send-AreAlike :
      (b : B) (r : Result (GoError D) M)
      → lookup request_id channels.claim_requests ≡ none
      → lookup request_id channels.response_channels ≡ none
      → (proceed codec texts opts require_claim request_id out).1 ≡ some r
      → AreAlike
          (send codec texts opts require_claim client_id request_id now timeout claim_chan res_chan
            b out channels).channels
          channels
  unfolding send
  send-AreAlike b r h k returned =
      subst (λ c. AreAlike c channels)
        (sym
          (returned_behind (proceed codec texts opts require_claim request_id out) r _ _ returned))
        (register-undone require_claim request_id claim_chan res_chan channels h k)

  abbrev sent : B → Called M B D C R
  sent b =
      send codec texts opts require_claim client_id request_id now timeout claim_chan res_chan b out
        channels

  call_encoded : (b : B) → encoded ≡ ok b → call ≡ sent b
  unfolding new_rpc
  call_encoded b e = rw (e, new_rpc) refl

  call_refused : (e : GoError D) → encoded ≡ err e → call.channels ≡ channels
  unfolding new_rpc
  call_refused f e = rw (e, new_rpc) refl

  sent_result :
      (b : B) → (sent b).result ≡ (proceed codec texts opts require_claim request_id out).1
  unfolding send
  sent_result b = refl

  -- A call with a new request id that has returned, by an error of the encoding, of a publication or of
  -- the selection, by a response or by the end of its context, leaves the client's claim and response
  -- channels as they were.
  pub new_rpc-AreAlike :
      (r : Result (GoError D) M)
      → lookup request_id channels.claim_requests ≡ none
      → lookup request_id channels.response_channels ≡ none
      → call.result ≡ some r
      → AreAlike call.channels channels
  new_rpc-AreAlike r h k returned = elim (Result-cases encoded) [
    | inl (b, e) ↦
        subst (λ c. AreAlike c channels) (sym (ap (λ c. c.channels) (call_encoded b e)))
          (send-AreAlike b r h k
            (sym (sent_result b) ∙ sym (ap (λ c. c.result) (call_encoded b e)) ∙ returned))
    | inr (f, e) ↦ subst (λ c. AreAlike c channels) (sym (call_refused f e)) (λ id. (refl, refl))
  ]

  selected :
      (id : String)
      → out.publish_claim ≡ none
      → select_server texts opts out.events ≡ some (ok id)
      → choose codec texts opts request_id out
        ≡ (some (record { request_id = request_id; server_id = id }), some (await codec out.answer))
  unfolding choose
  selected id q s = rw (s, choose) simp q refl

  chosen :
      (id : String)
      → out.publish_request ≡ none
      → out.publish_claim ≡ none
      → require_claim ≡ true
      → select_server texts opts out.events ≡ some (ok id)
      → proceed codec texts opts require_claim request_id out
        ≡ (some (record { request_id = request_id; server_id = id }), some (await codec out.answer))
  unfolding proceed
  chosen id p q claims s = simp (p, proceed) rw claims (selected id q s)

  -- A call whose request is encoded, whose publications succeed and that selects a server tells so under
  -- its request id, and returns the message with which some server answers, if the handler returned it
  -- with no error and the encoding gives it back.
  pub call_completes :
      (status_from_error : GoError D → Option (Status D)) (server_id id : String) (then' : ℕ)
      (b bytes : B) (reply : M)
      → encoded ≡ ok b
      → out.publish_request ≡ none
      → out.publish_claim ≡ none
      → require_claim ≡ true
      → select_server texts opts out.events ≡ some (ok id)
      → out.answer
        ≡ answered (
            send_response codec status_from_error request_id server_id then'
              (record { response = some reply; error = none }))
      → codec.serialize_payload reply ≡ ok bytes
      → codec.deserialize_payload bytes ≡ ok reply
      → (call.claim ≡ some (record { request_id = request_id; server_id = id }))
        × (call.result ≡ some (ok reply))
  unfolding send await
  call_completes status_from_error server_id id then' b bytes reply e p q claims s a h k =
      let part = chosen id p q claims s in
      let same = call_encoded b e in
      (
        ap (λ c. c.claim) same ∙ ap (λ x. x.0) part,
        ap (λ c. c.result) same
            ∙ ap (λ x. x.1) part
            ∙ ap (λ x. some (await codec x)) a
            ∙ ap some (
                response_travels codec status_from_error request_id server_id then' reply bytes h
                  k),
      )
