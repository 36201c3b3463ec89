-- ===== src/Stream/SafeSteps.antt =====
-- internal/stream/stream.go: the steps that end a call, and what comes from the other end, keep what
-- holds of a stream.
use livekit_psrpc.Prelude.{
  ℕ, ◌-◌, ◌≡◌, ◌≢◌, inl, inr, refl, sym, ap, ◌∙◌, subst, String, false, List, [], ◌∷◌, Option, none,
  some, nat_equality, string_equality, ltb, length, elem, lookup, delete, lookup-delete, Bool-cases,
  Option-cases, arith, length-append, ltb→lt,
}
use livekit_psrpc.Errors.Value.{GoError}
use livekit_psrpc.Stream.State.{Stream, blocked, next}
use livekit_psrpc.Stream.Steps.{
  Wake, failed, ack_closed, context_done, send_ends, woken, take_sender, ack_arrives, message_ends,
}
use livekit_psrpc.Stream.Closing.{
  release_lem, message_ends_idle, message_ends_room, message_ends_slow,
}
use livekit_psrpc.Stream.Acks.{removed-AreSound, closed-AreSound, take_sender-length}
use livekit_psrpc.Stream.Invariant.{busy, looks, Inv, Safe}

module _ {B D V : Type 0} where
  woken-Safe :
      (chan : ℕ) (wake : Wake D) (s left : Stream B D V)
      → left.pending ≢ 0
      → Inv (record left { pending = left.pending - 1 })
      → Safe (woken chan wake s left)
  unfolding woken
  woken-Safe chan (failed e) s left p v = subst Safe (sym (release_lem left _ p)) v
  woken-Safe chan context_done s left p v = subst Safe (sym (release_lem left _ p)) v
  woken-Safe chan ack_closed s left p v = elim (Bool-cases (elem chan s.acked)) [
    | inl h ↦ rw h (subst Safe (sym (release_lem left _ p)) v)
    | inr h ↦ rw h tt
  ]

  pub send_ends-none :
      (chan : ℕ) (wake : Wake D) (s : Stream B D V)
      → take_sender chan s.senders ≡ none
      → send_ends chan wake s ≡ blocked
  unfolding send_ends
  send_ends-none chan wake s h = simp (h, send_ends) refl

  pub send_ends-some :
      (chan : ℕ) (wake : Wake D) (s : Stream B D V) (id : String) (others : List (ℕ × String))
      → take_sender chan s.senders ≡ some (id, others)
      → send_ends chan wake s
        ≡ woken chan wake s (record s { acks = delete id s.acks; senders = others })
  unfolding send_ends
  send_ends-some chan wake s id others h = simp (h, send_ends) refl

  pub send_ends-Safe :
      (s : Stream B D V) (chan : ℕ) (wake : Wake D) → Inv s → Safe (send_ends chan wake s)
  send_ends-Safe s chan wake v = elim (Option-cases (take_sender chan s.senders)) [
    | inl h ↦ subst Safe (sym (send_ends-none chan wake s h)) tt
    | inr ((id, others), h) ↦
        let count = v.counted in
        let less = take_sender-length chan s.senders others id h in
        subst Safe (sym (send_ends-some chan wake s id others h)) (
          woken-Safe chan wake s _ (λ z. omega arith)
            (record {
              counted = omega arith;
              status = v.status;
              waits_closed = v.waits_closed;
              shut_closed = v.shut_closed;
              shut_alone = v.shut_alone;
              shut_idle = v.shut_idle;
              room = v.room;
              acks_sound =
                  removed-AreSound (looks s.acks) _ s.next_ack s.acked id
                    (λ o. lookup-delete s.acks id o) v.acks_sound;
            }))
  ]

  pub ack_unknown :
      (id : String) (s : Stream B D V) → lookup id s.acks ≡ none → ack_arrives id s ≡ next s none
  unfolding ack_arrives
  ack_unknown id s h = simp (h, ack_arrives) refl

  pub ack_known :
      (id : String) (s : Stream B D V) (chan : ℕ)
      → lookup id s.acks ≡ some chan
      → elem chan s.acked ≡ false
      → ack_arrives id s ≡ next (record s { acks = delete id s.acks; acked = chan ∷ s.acked }) none
  unfolding ack_arrives
  ack_known id s chan h k = simp (h, k, ack_arrives) refl

  pub ack_arrives-Safe : (s : Stream B D V) (id : String) → Inv s → Safe (ack_arrives id s)
  ack_arrives-Safe s id v = elim (Option-cases (lookup id s.acks)) [
    | inl h ↦ subst Safe (sym (ack_unknown id s h)) v
    | inr (chan, h) ↦
        subst Safe (sym (ack_known id s chan h (v.acks_sound.unclosed id chan h).0)) (record {
          counted = v.counted;
          status = v.status;
          waits_closed = v.waits_closed;
          shut_closed = v.shut_closed;
          shut_alone = v.shut_alone;
          shut_idle = v.shut_idle;
          room = v.room;
          acks_sound =
              closed-AreSound (looks s.acks) _ s.next_ack s.acked id
                (λ o. lookup-delete s.acks id o) chan h v.acks_sound;
        })
  ]

  pub message_ends-Safe :
      (s : Stream B D V) (r : Option (GoError D)) → Inv s → Safe (message_ends r s)
  message_ends-Safe s r v = elim (Option-cases s.receiver) [
    | inl h ↦ subst Safe (sym (message_ends_idle s r h)) tt
    | inr ((id, m), h) ↦
        let count = v.counted in
        let one : busy s.receiver ≡ 1 = ap busy h in
        let some_pending : s.pending ≢ 0 = λ z. omega arith in
        let unshut : s.recv_closed ≡ false = elim (Bool-cases s.recv_closed) [
          | inl n ↦ absurd (let both : some (id, m) ≡ none = sym h ∙ v.shut_idle n in cc)
          | inr n ↦ n
        ] in
        elim (Bool-cases (ltb (length s.recv) s.recv_size)) [
          | inl space ↦
              subst Safe (sym (message_ends_room s r id m h unshut some_pending space)) (record {
                counted = omega arith;
                status = v.status;
                waits_closed = v.waits_closed;
                shut_closed = v.shut_closed;
                shut_alone = v.shut_alone;
                shut_idle = λ n. refl;
                room =
                    let longer = length-append s.recv (m ∷ []) in
                    let less = ltb→lt _ _ space in omega arith;
                acks_sound = v.acks_sound;
              })
          | inr full ↦
              subst Safe (sym (message_ends_slow s r id m h unshut some_pending full)) (record {
                counted = omega arith;
                status = v.status;
                waits_closed = v.waits_closed;
                shut_closed = v.shut_closed;
                shut_alone = v.shut_alone;
                shut_idle = λ n. refl;
                room = v.room;
                acks_sound = v.acks_sound;
              })
        ]
  ]
