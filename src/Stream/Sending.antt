-- ===== src/Stream/Sending.antt =====
-- internal/stream/stream.go: a call of Send from its start to its end.
use livekit_psrpc.Prelude.{
  ℕ, ◌+◌, ◌-◌, ◌≡◌, ◌≢◌, inl, inr, refl, ◌∙◌, String, true, false, List, [], ◌∷◌, ◌++◌, none, some,
  ok, nat_equality, string_equality, elem, Bool-cases, arith,
}
use livekit_psrpc.Stream.State.{Stream, next}
use livekit_psrpc.Stream.Steps.{ack_closed, context_done, woken, take_sender, step}
use livekit_psrpc.Stream.Opening.{send_begins-ok}
use livekit_psrpc.Stream.Closing.{release_lem}
use livekit_psrpc.Stream.Acks.{take_sender-length}
use livekit_psrpc.Prelude.{==_refl, insert, delete, lookup-insert_self}
use livekit_psrpc.Stream.State.{stream_message}
use livekit_psrpc.Stream.Steps.{begin_send, end_send, handle_ack, cancel_parent}
use livekit_psrpc.Stream.SafeSteps.{send_ends-some, ack_known}
use livekit_psrpc.Stream.Reach.{Reach, Reach-Inv}

take_sender_first :
    (chan : ℕ) (id : String) (senders : List (ℕ × String))
    → take_sender chan ((chan, id) ∷ senders) ≡ some (id, senders)
unfolding take_sender
take_sender_first chan id senders = rw (==_refl chan) refl

module _ {B D V : Type 0} where
  abbrev pub sending : String → B → Stream B D V → Stream B D V
  sending id b s = record s {
    pending = s.pending + 1;
    acks = insert id s.next_ack s.acks;
    next_ack = s.next_ack + 1;
    senders = (s.next_ack, id) ∷ s.senders;
    sent = s.sent ++ stream_message id b ∷ [];
  }

  abbrev pub answered : String → B → Stream B D V → Stream B D V
  answered id b s =
      let waits = sending id b s in
      record waits { acks = delete id waits.acks; acked = s.next_ack ∷ s.acked }

  woken_acked :
      (chan : ℕ) (s left : Stream B D V)
      → elem chan s.acked ≡ true
      → left.pending ≢ 0
      → woken chan ack_closed s left ≡ next (record left { pending = left.pending - 1 }) none
  unfolding woken
  woken_acked chan s left h p = simp (h, woken) (release_lem left none p)

  -- Send on an open stream, the acknowledgement of its request, and its waking: each of the three steps
  -- is taken, Send returns no error, and the calls under way are those of before.
  pub send_acknowledged :
      (s : Stream B D V) (id : String) (b : B)
      → Reach s
      → (s.closed ≡ false) × (s.error ≡ none)
      → (step (begin_send id (ok b)) s ≡ next (sending id b s) none)
        × (step (handle_ack id) (sending id b s) ≡ next (answered id b s) none)
        × ((left : Stream B D V) × (step (end_send s.next_ack ack_closed) (answered id b s)
              ≡ next left none)
            × (left.pending ≡ s.pending)
            × (left.senders ≡ s.senders))
  unfolding step
  send_acknowledged s id b before h =
      let v = Reach-Inv s before in
      let new : elem s.next_ack s.acked ≡ false = elim (Bool-cases (elem s.next_ack s.acked)) [
        | inl k ↦ absurd (let less = v.acks_sound.old s.next_ack k in omega arith)
        | inr k ↦ k
      ] in
      let seen : elem s.next_ack (s.next_ack ∷ s.acked) ≡ true = rw (==_refl s.next_ack) refl in
      (
        send_begins-ok s id b h,
        ack_known id (sending id b s) s.next_ack (lookup-insert_self id s.next_ack s.acks) new,
        (
          _,
          send_ends-some s.next_ack ack_closed (answered id b s) id s.senders
                (take_sender_first s.next_ack id s.senders)
              ∙ woken_acked s.next_ack (answered id b s) _ seen (λ z. omega arith),
          omega arith,
          refl,
        ),
      )

  woken_done :
      (chan : ℕ) (s left : Stream B D V)
      → s.done ≡ true
      → s.error ≡ none
      → left.pending ≢ 0
      → woken chan context_done s left ≡ next (record left { pending = left.pending - 1 }) none
  unfolding woken
  woken_done chan s left h e p = simp (h, e, woken) (release_lem left none p)

  -- A call of Send waits on an open stream, its message not acknowledged, and the context that the
  -- stream was opened with is canceled: the call can then return no error.
  pub send_unacknowledged :
      (s : Stream B D V) (chan : ℕ) (id : String) (others : List (ℕ × String))
      → Reach s
      → (s.closed ≡ false) × (s.error ≡ none)
      → take_sender chan s.senders ≡ some (id, others)
      → elem chan s.acked ≡ false
      → (step cancel_parent s ≡ next (record s { done = true }) none)
        × ((left : Stream B D V) × (step (end_send chan context_done) (record s { done = true })
              ≡ next left none))
  unfolding step
  send_unacknowledged s chan id others before (c, e) found unacked =
      let v = Reach-Inv s before in
      let count = v.counted in
      let less = take_sender-length chan s.senders others id found in
      (
        refl,
        (
          _,
          send_ends-some chan context_done (record s { done = true }) id others found
              ∙ woken_done chan (record s { done = true }) _ refl e (λ z. omega arith),
        ),
      )
