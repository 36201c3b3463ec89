-- ===== src/Stream/Results.antt =====
-- internal/stream/stream.go: what the calls on a stream return.
use livekit_psrpc.Prelude.{
  ℕ, ◌≡◌, inl, inr, refl, sym, ◌∙◌, subst, String, true, false, List, [], ◌∷◌, ◌++◌, Option, none,
  some, Result, if◌then◌else◌, ◌==◌, nat_equality, string_equality, ltb, length, elem, lookup,
  Bool-cases, Option-cases, arith,
}
use livekit_psrpc.Errors.Value.{GoError}
use livekit_psrpc.Stream.State.{stream_ack, Stream, Outcome, panics, blocked, next, release}
use livekit_psrpc.Stream.Steps.{
  Event, Wake, failed, ack_closed, context_done, send_ends, woken, take_sender, ack_arrives,
  err_slow_consumer, message_ends, close_ends, taken, step,
}
use livekit_psrpc.Stream.Opening.{
  IsClosed, send_begins_closed, message_begins_busy, message_begins_closed,
}
use livekit_psrpc.Stream.Closing.{
  release_lem, release_zero, close_arrives_busy, close_arrives_closed, close_begins_closed,
  close_ends_wait, close_ends_lem, message_ends_idle,
}
use livekit_psrpc.Stream.Steps.{
  begin_send, end_send, handle_ack, begin_message, end_message, handle_close, begin_close,
  end_close, take, cancel_parent,
}
use livekit_psrpc.Stream.Invariant.{Inv}
use livekit_psrpc.Stream.SafeSteps.{send_ends-none, send_ends-some, ack_unknown, ack_known}
use livekit_psrpc.Stream.Reach.{Reach, Reach-Inv, taken_none, taken_some}

module _ {B D V : Type 0} where
  -- A step that does not leave the closed states of this cause.
  abbrev Stays : GoError D → Outcome B D V → Type 0
  Stays cause panics = Unit
  Stays cause blocked = Unit
  Stays cause (next s r) = IsClosed s cause

  release-Stays :
      (cause : GoError D) (r : Option (GoError D)) (s : Stream B D V)
      → IsClosed s cause
      → Stays cause (release r s)
  release-Stays cause r s h = elim (Bool-cases (s.pending == 0)) [
    | inl z ↦ subst (Stays cause) (sym (release_zero r s z)) tt
    | inr p ↦ subst (Stays cause) (sym (release_lem s r (λ z. ground arith))) h
  ]

  woken-Stays :
      (cause : GoError D) (chan : ℕ) (wake : Wake D) (s left : Stream B D V)
      → IsClosed left cause
      → Stays cause (woken chan wake s left)
  unfolding woken
  woken-Stays cause chan (failed e) s left h = release-Stays cause _ left h
  woken-Stays cause chan context_done s left h = release-Stays cause _ left h
  woken-Stays cause chan ack_closed s left h = elim (Bool-cases (elem chan s.acked)) [
    | inl k ↦ rw k (release-Stays cause _ left h)
    | inr k ↦ rw k tt
  ]

  send_ends-Stays :
      (cause : GoError D) (chan : ℕ) (wake : Wake D) (s : Stream B D V)
      → IsClosed s cause
      → Stays cause (send_ends chan wake s)
  send_ends-Stays cause chan wake s h = elim (Option-cases (take_sender chan s.senders)) [
    | inl k ↦ subst (Stays cause) (sym (send_ends-none chan wake s k)) tt
    | inr ((id, others), k) ↦
        subst (Stays cause) (sym (send_ends-some chan wake s id others k))
          (woken-Stays cause chan wake s _ h)
  ]

  message_ends-some :
      (s : Stream B D V) (r : Option (GoError D)) (id : String) (m : V)
      → s.receiver ≡ some (id, m)
      → message_ends r s ≡ (
          if s.recv_closed
          then panics
          else (if ltb (length s.recv) s.recv_size
              then release r (record s {
                receiver = none;
                recv = s.recv ++ m ∷ [];
                sent = s.sent ++ stream_ack id ∷ [];
              })
              else release (some err_slow_consumer) (record s { receiver = none })))
  unfolding message_ends
  message_ends-some s r id m h = simp (h, message_ends) refl

  message_ends-Stays :
      (cause : GoError D) (r : Option (GoError D)) (s : Stream B D V)
      → IsClosed s cause
      → Stays cause (message_ends r s)
  message_ends-Stays cause r s h = elim (Option-cases s.receiver) [
    | inl k ↦ subst (Stays cause) (sym (message_ends_idle s r k)) tt
    | inr ((id, m), k) ↦
        subst (Stays cause) (sym (message_ends-some s r id m k)) (elim (Bool-cases s.recv_closed) [
          | inl n ↦ rw n tt
          | inr n ↦ elim (Bool-cases (ltb (length s.recv) s.recv_size)) [
            | inl p ↦ rw n rw p (release-Stays cause _ _ h)
            | inr p ↦ rw n rw p (release-Stays cause _ _ h)
          ]
        ])
  ]

  close_ends-Stays :
      (cause : GoError D) (r : Option (GoError D)) (s : Stream B D V)
      → Inv s
      → IsClosed s cause
      → Stays cause (close_ends r s)
  close_ends-Stays cause r s v h = elim (Bool-cases s.closing) [
    | inr c ↦ subst (Stays cause) (sym (close_ends_wait s r (inl c))) tt
    | inl c ↦ elim (Bool-cases (s.pending == 0)) [
      | inr p ↦ subst (Stays cause) (sym (close_ends_wait s r (inr (ground arith)))) tt
      | inl p ↦ elim (Bool-cases s.recv_closed) [
        | inl n ↦ absurd (let both : true ≡ false = sym c ∙ v.shut_alone n in cc)
        | inr n ↦
            subst (Stays cause) (sym (close_ends_lem s r c ((nat_equality.decides _ _).0 p) n)) h
      ]
    ]
  ]

  taken-Stays :
      (cause : GoError D) (s : Stream B D V) (ms : List V)
      → s.recv ≡ ms
      → IsClosed s cause
      → Stays cause (taken s)
  taken-Stays cause s [] e h = subst (Stays cause) (sym (taken_none s e)) tt
  taken-Stays cause s (m ∷ ms) e h = subst (Stays cause) (sym (taken_some s m ms e)) h

  ack_arrives-Stays :
      (cause : GoError D) (id : String) (s : Stream B D V)
      → Inv s
      → IsClosed s cause
      → Stays cause (ack_arrives id s)
  ack_arrives-Stays cause id s v h = elim (Option-cases (lookup id s.acks)) [
    | inl k ↦ subst (Stays cause) (sym (ack_unknown id s k)) h
    | inr (chan, k) ↦
        subst (Stays cause) (sym (ack_known id s chan k (v.acks_sound.unclosed id chan k).0)) h
  ]

  step-Stays :
      (cause : GoError D) (e : Event B D V) (s : Stream B D V)
      → Inv s
      → IsClosed s cause
      → Stays cause (step e s)
  unfolding step
  step-Stays cause (begin_send id encoded) s v h =
      subst (Stays cause) (sym (send_begins_closed s cause id encoded h)) h
  step-Stays cause (end_send chan wake) s v h = send_ends-Stays cause chan wake s h
  step-Stays cause (handle_ack id) s v h = ack_arrives-Stays cause id s v h
  step-Stays cause (begin_message id decoded) s v h = elim (Option-cases s.receiver) [
    | inr (m, r) ↦ subst (Stays cause) (sym (message_begins_busy s m id decoded r)) tt
    | inl r ↦ subst (Stays cause) (sym (message_begins_closed s cause id decoded h r)) h
  ]
  step-Stays cause (end_message lost) s v h = message_ends-Stays cause lost s h
  step-Stays cause (handle_close why) s v h = elim (Option-cases s.receiver) [
    | inr (m, r) ↦ subst (Stays cause) (sym (close_arrives_busy s m why r)) tt
    | inl r ↦ subst (Stays cause) (sym (close_arrives_closed s why cause h r)) h
  ]
  step-Stays cause (begin_close why) s v h =
      subst (Stays cause) (sym (close_begins_closed s why cause h)) h
  step-Stays cause (end_close lost) s v h = close_ends-Stays cause lost s v h
  step-Stays cause take s v h = taken-Stays cause s s.recv refl h
  step-Stays cause cancel_parent s v h = h

  -- A stream that was closed with a cause stays closed with it whatever step comes next: a second Close,
  -- from either end, does not replace the cause.
  pub first_cause :
      (cause : GoError D) (e : Event B D V) (s s' : Stream B D V) (r : Option (GoError D))
      → Reach s
      → (s.closed ≡ true) × (s.error ≡ some cause)
      → step e s ≡ next s' r
      → (s'.closed ≡ true) × (s'.error ≡ some cause)
  first_cause cause e s s' r before h run =
      subst (Stays cause) run (step-Stays cause e s (Reach-Inv s before) h)

  -- On a closed stream Send, Close, and a message or a close from the other end that comes while none
  -- is worked on, all return the cause and change nothing.
  pub closed_returns :
      (cause : GoError D) (s : Stream B D V) (id : String) (encoded : Result (GoError D) B)
      (decoded : Result (GoError D) V) (why : Option (GoError D)) (other : GoError D)
      → (s.closed ≡ true) × (s.error ≡ some cause)
      → s.receiver ≡ none
      → (step (begin_send id encoded) s ≡ next s (some cause))
        × (step (begin_close why) s ≡ next s (some cause))
        × (step (begin_message id decoded) s ≡ next s (some cause))
        × (step (handle_close other) s ≡ next s (some cause))
  unfolding step
  closed_returns cause s id encoded decoded why other h r = (
    send_begins_closed s cause id encoded h,
    close_begins_closed s why cause h,
    message_begins_closed s cause id decoded h r,
    close_arrives_closed s other cause h r,
  )
